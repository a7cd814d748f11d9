-- ===== src/Threads/Numbers.antt =====
-- The numbers of the threads, and the joins at exit.
use the_code_back_up_in_ubun.Base.{
  ℕ, zero, suc, ◌+◌, ◌<◌, ◌≤◌, ◌≡◌, ◌≢◌, Bool, true, false, refl, some, List, [], ◌∷◌, ◌++◌, ◌==◌,
  if◌then◌else◌, arith, ap, ◌∙◌,
}
use the_code_back_up_in_ubun.Threads.{
  Thread, Event, joined, freed, called, waits, next_id, create_all, join_all,
}

-- n, n - 1, …, 1
abbrev pub downto : ℕ → List ℕ
downto zero = []
downto (suc n) = suc n ∷ downto n

-- k + m, …, k + 1
abbrev pub above : ℕ → ℕ → List ℕ
above k zero = []
above k (suc m) = (k + suc m) ∷ above k m

-- `pthread_join` and `free` for each number, in this order.
abbrev pub joins : {J : Type 0} → List ℕ → List (Event J)
joins [] = []
joins (i ∷ is) = joined i ∷ freed i ∷ joins is

module _ {F : Type 0} where
  abbrev pub ids : List (Thread F) → List ℕ
  ids [] = []
  ids (t ∷ ts) = t.id ∷ ids ts

  next_id-downto : (k : ℕ) (ts : List (Thread F)) → ids ts ≡ downto k → next_id ts ≡ suc k
  unfolding next_id
  next_id-downto zero [] h = refl
  next_id-downto (suc k) [] h = cc
  next_id-downto zero (t ∷ ts) h = cc
  next_id-downto (suc k) (t ∷ ts) h = ground arith

  create_all_from :
      (n k : ℕ) (fn : F) (ts : List (Thread F))
      → ids ts ≡ downto k
      → (us : List (Thread F)) × (create_all n fn ts ≡ some us) × (ids us ≡ downto (k + n))
  unfolding create_all
  create_all_from zero k fn ts h = (ts, refl, ground arith)
  create_all_from (suc n) k fn ts h =
      let new : Thread F = record { id = next_id ts; entry = fn } in
      let (us, made, count) =
        create_all_from n (suc k) fn (new ∷ ts) (ground (arith, next_id-downto k ts h)) in
      (us, made, ground (arith, count))

  join_all-stops :
      {J : Type 0} (returns : ℕ → Bool) (k : ℕ) (f : J) (ts : List (Thread F))
      → ids ts ≡ downto k
      → (k ≢ 0 → returns k ≡ false)
      → join_all returns ts (some f) ≡ (if k == 0 then called f ∷ [] else waits k ∷ [])
  unfolding join_all
  join_all-stops returns zero f [] h stop = refl
  join_all-stops returns (suc k) f [] h stop = absurd (ground arith)
  join_all-stops returns zero f (t ∷ ts) h stop = absurd (ground arith)
  join_all-stops returns (suc k) f (t ∷ ts) h stop =
      ground (arith, stop (λ e. absurd (omega arith)))

  join_all_lem :
      {J : Type 0} (returns : ℕ → Bool) (k m : ℕ) (f : J) (ts : List (Thread F))
      → ids ts ≡ downto (k + m)
      → ((i : ℕ) → k < i → i ≤ k + m → returns i ≡ true)
      → (k ≢ 0 → returns k ≡ false)
      → join_all returns ts (some f)
        ≡ joins (above k m) ++ (if k == 0 then called f ∷ [] else waits k ∷ [])
  unfolding join_all
  join_all_lem returns k zero f ts h back stop =
      join_all-stops returns k f ts (ground (arith, h)) stop
  join_all_lem returns k (suc m) f [] h back stop =
      let none_left : ids [] ≡ downto (suc (k + m)) =
        h ∙ ap downto {y = suc (k + m)} (omega arith) in
      absurd (ground arith)
  join_all_lem returns k (suc m) f (t ∷ ts) h back stop =
      let here : returns (k + suc m) ≡ true = back (k + suc m) (omega arith) (omega arith) in
      let parts : ids (t ∷ ts) ≡ downto (suc (k + m)) =
        h ∙ ap downto {y = suc (k + m)} (omega arith) in
      let at : t.id ≡ k + suc m = ground (arith, parts) in
      let rest =
        join_all_lem returns k m f ts (ground (arith, parts)) (λ i lt le. back i lt (omega arith))
          stop in
      rw (at, here, rest) refl

  -- A main that creates k + m threads numbers them 1 to k + m, the last one first in the list. At
  -- exit, if the m that were created last return and the thread k, if k is not 0, never does: each
  -- of the m is joined and then freed, once, from k + m down to k + 1, and then the join of the
  -- thread k is never over, or, if k is 0, the function given to `join` runs.
  pub create-join :
      {J : Type 0} (returns : ℕ → Bool) (k m : ℕ) (fn : F) (f : J)
      → ((i : ℕ) → k < i → i ≤ k + m → returns i ≡ true)
      → (k ≢ 0 → returns k ≡ false)
      → (ts : List (Thread F)) × (create_all (k + m) fn [] ≡ some ts)
        × (ids ts ≡ downto (k + m))
        × (join_all returns ts (some f)
            ≡ joins (above k m) ++ (if k == 0 then called f ∷ [] else waits k ∷ []))
  create-join returns k m fn f back stop =
      let (ts, made, count) = create_all_from (k + m) 0 fn [] refl in
      let count' : ids ts ≡ downto (k + m) = ground (arith, count) in
      (ts, made, count', join_all_lem returns k m f ts count' back stop)

  -- The numbers of the threads of a main that creates n of them.
  pub create_all-downto :
      (n : ℕ) (fn : F)
      → (ts : List (Thread F)) × (create_all n fn [] ≡ some ts) × (ids ts ≡ downto n)
  create_all-downto n fn =
      let (ts, made, count) = create_all_from n 0 fn [] refl in (ts, made, ground (arith, count))
