-- ===== src/FishDraft/Midterm/Roles.antt =====
-- Who gets which character of `roles`, with the two versions of threads.h.
use mathlib.Core.List.{reverse, reverse-append}
use the_code_back_up_in_ubun.Base.{
  ℕ, zero, suc, ◌+◌, ◌≤◌, ◌≡◌, refl, false, none, some, List, [], ◌∷◌, ◌++◌, map, length,
  length-append, get_or, take, take-append, arith, ap, ◌∙◌, sym,
}
use the_code_back_up_in_ubun.Threads
use the_code_back_up_in_ubun.Threads.{Thread, waits, join_all}
use the_code_back_up_in_ubun.Threads.Numbers.{downto, ids, create_all-downto}
use the_code_back_up_in_ubun.FishDraft.Midterm.{role_of, next_id, create_all, main}

-- n - 1, …, 1, 0
abbrev pub below : ℕ → List ℕ
below zero = []
below (suc n) = n ∷ below n

take-suc :
    (n : ℕ) (ys : List ℕ) → suc n ≤ length ys → take (suc n) ys ≡ take n ys ++ get_or ys n 0 ∷ []
take-suc n [] le = absurd (omega arith)
take-suc zero (y ∷ ys) le = refl
take-suc (suc n) (y ∷ ys) le = ap (λ l. y ∷ l) (take-suc n ys (omega arith))

take_all : (ys : List ℕ) → take (length ys) ys ≡ ys
take_all [] = refl
take_all (y ∷ ys) = ap (λ l. y ∷ l) (take_all ys)

-- Reading the text at these numbers.
map-below :
    (n : ℕ) (ys : List ℕ) → n ≤ length ys → map (λ i. get_or ys i 0) (below n) ≡ reverse (take n ys)
map-below zero ys le = refl
map-below (suc n) ys le =
    ap (λ l. get_or ys n 0 ∷ l) (map-below n ys (omega arith))
    ∙ sym (ap reverse (take-suc n ys le) ∙ reverse-append (take n ys) (get_or ys n 0 ∷ []))

map-downto :
    (n c : ℕ) (ys : List ℕ)
    → map (λ i. get_or (c ∷ ys) i 0) (downto n) ≡ map (λ i. get_or ys i 0) (below n)
map-downto zero c ys = refl
map-downto (suc n) c ys = ap (λ l. get_or ys n 0 ∷ l) (map-downto n c ys)

given_below : (roles : List ℕ) → map (role_of roles) (below (length roles)) ≡ reverse roles
given_below roles =
    map-below (length roles) (roles ++ 0 ∷ []) (omega (arith, length-append {0} roles (0 ∷ [])))
    ∙ ap reverse (take-append roles (0 ∷ []))

given_downto :
    (c : ℕ) (cs : List ℕ) → map (role_of (c ∷ cs)) (downto (suc (length cs))) ≡ 0 ∷ reverse cs
given_downto c cs =
    let ys : List ℕ = cs ++ 0 ∷ [] in
    let all : length ys ≡ suc (length cs) = omega (arith, length-append {0} cs (0 ∷ [])) in
    map-downto (suc (length cs)) c ys
    ∙ map-below (suc (length cs)) ys (omega (arith, all))
    ∙ ap reverse (ap (λ n. take n ys) (sym all) ∙ take_all ys)
    ∙ reverse-append cs (0 ∷ [])

module _ {F : Type 0} where
  next_id-below : (k : ℕ) (ts : List (Thread F)) → ids ts ≡ below k → next_id ts ≡ k
  unfolding next_id
  next_id-below zero [] h = refl
  next_id-below (suc k) [] h = cc
  next_id-below zero (t ∷ ts) h = cc
  next_id-below (suc k) (t ∷ ts) h = ground arith

  create_all_from :
      (n k : ℕ) (fn : F) (ts : List (Thread F))
      → ids ts ≡ below k
      → (us : List (Thread F)) × (create_all n fn ts ≡ some us) × (ids us ≡ below (k + n))
  unfolding create_all
  create_all_from zero k fn ts h = (ts, refl, ground arith)
  create_all_from (suc n) k fn ts h =
      let new : Thread F = record { id = next_id ts; entry = fn } in
      let (us, made, count) =
        create_all_from n (suc k) fn (new ∷ ts) (ground (arith, next_id-below k ts h)) in
      (us, made, ground (arith, count))

  join_all-waits :
      {J : Type 0} (n : ℕ) (ts : List (Thread F))
      → ids ts ≡ below (suc n)
      → join_all {J = J} (λ id. false) ts none ≡ waits n ∷ []
  unfolding join_all
  join_all-waits n [] h = absurd (ground arith)
  join_all-waits n (t ∷ ts) h = ground (arith, h)

  -- A main that creates a thread for each character of a text that is not empty, as os-
  -- midterm/fish.c does, and multi-threads/fish.c and brac.c do. With os-midterm/threads.h the
  -- threads have the numbers below the length, the last one first, so that the characters that they
  -- take in this order are the text from its end on; and at exit the main of os-midterm/fish.c waits
  -- for ever in the join of the thread that was created last, and no thread is freed, since
  -- `fish_thread` never returns. With multi-threads/threads.h they take, in the same order, the NUL
  -- and the text from its end on, without its first character.
  pub main-roles :
      {J : Type 0} (c : ℕ) (cs : List ℕ) (fn : F)
      → ((ts : List (Thread F)) × (main {J = J} (c ∷ cs) fn ≡ some (ts, waits (length cs) ∷ []))
          × (ids ts ≡ below (length (c ∷ cs)))
          × (map (role_of (c ∷ cs)) (ids ts) ≡ reverse (c ∷ cs)))
        × ((us : List (Thread F)) × (Threads.create_all (length (c ∷ cs)) fn [] ≡ some us)
            × (map (role_of (c ∷ cs)) (ids us) ≡ 0 ∷ reverse cs))
  unfolding main
  main-roles {J} c cs fn =
      let (ts, made, count) = create_all_from (length (c ∷ cs)) 0 fn [] refl in
      let count' : ids ts ≡ below (length (c ∷ cs)) = ground (arith, count) in
      let (us, made', count_us) = create_all-downto {F = F} (length (c ∷ cs)) fn in
      (
        (
          ts,
          rw (made, join_all-waits {J = J} (length cs) ts count') refl,
          count',
          ap (map (role_of (c ∷ cs))) count' ∙ given_below (c ∷ cs),
        ),
        (us, made', ap (map (role_of (c ∷ cs))) count_us ∙ given_downto c cs),
      )
