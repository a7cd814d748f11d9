-- ===== src/Sperf/Profile.antt =====
-- The list of functions of sperf.c as a map from names to times: append adds to one name, sort
-- changes none, and no name comes twice.
use the_code_back_up_in_ubun.Base.{
  ℕ, zero, suc, ◌≡◌, refl, ◌↔◌, inl, inr, true, Option, none, some, List, [], ◌∷◌, ◌++◌,
  if◌then◌else◌, arith, ◌∙◌, Bool-cases,
}
use the_code_back_up_in_ubun.CString.{same}
use the_code_back_up_in_ubun.Doubles.{Doubles}
use the_code_back_up_in_ubun.Sperf.{FuncTime, append_at, append, sweep, sort_loop}

pub same_refl : (a : List ℕ) → same a a ≡ true
unfolding same
same_refl [] = refl
same_refl (x ∷ xs) = ground (arith, same_refl xs)

pub same-eq : (a b : List ℕ) → same a b ≡ true → a ≡ b
unfolding same
same-eq [] [] h = refl
same-eq [] (y ∷ ys) h = cc
same-eq (x ∷ xs) [] h = cc
same-eq (x ∷ xs) (y ∷ ys) h = ground (arith, same-eq xs ys)

pub same_iff : (a b : List ℕ) → (same a b ≡ true) ↔ (a ≡ b)
same_iff a b = (same-eq a b, λ e. rw e (same_refl b))

module _ (d : Doubles) where
  open d use {Num, add, gt}

  -- The time of a name, by the first node that has it.
  unfoldable pub find : List ℕ → List (FuncTime d) → Option Num
  find k [] = none
  find k (p ∷ ps) = if same p.func k then some p.time else find k ps

  abbrev pub Distinct : List (FuncTime d) → Type 0
  Distinct [] = Unit
  Distinct (p ∷ ps) = (find p.func ps ≡ none) × Distinct ps

  -- What a sample adds to the time of a name.
  abbrev pub plus : Option Num → Num → Num
  plus none t = t
  plus (some s) t = add s t

  -- The time that samples give to a name, added up in their order.
  unfoldable pub spent : List ℕ → Option Num → List (FuncTime d) → Option Num
  spent k acc [] = acc
  spent k acc (x ∷ xs) = spent k (if same x.func k then some (plus acc x.time) else acc) xs

  pub spent-append :
      (k : List ℕ) (acc : Option Num) (xs ys : List (FuncTime d))
      → spent k acc (xs ++ ys) ≡ spent k (spent k acc xs) ys
  unfolding spent
  spent-append k acc [] ys = refl
  spent-append k acc (x ∷ xs) ys =
      spent-append k (if same x.func k then some (plus acc x.time) else acc) xs ys

  unfoldable pub total_of : Num → List (FuncTime d) → Num
  total_of acc [] = acc
  total_of acc (x ∷ xs) = total_of (add acc x.time) xs

  pub total_of-append :
      (acc : Num) (xs ys : List (FuncTime d))
      → total_of acc (xs ++ ys) ≡ total_of (total_of acc xs) ys
  unfolding total_of
  total_of-append acc [] ys = refl
  total_of-append acc (x ∷ xs) ys = total_of-append (add acc x.time) xs ys

  -- The times after one more sample.
  abbrev pub after : (List ℕ → Option Num) → FuncTime d → List ℕ → Option Num
  after times x k = if same x.func k then some (plus (times k) x.time) else times k

  find-append_at :
      (k : List ℕ) (q : FuncTime d) (qs : List (FuncTime d)) (p : FuncTime d)
      → find k (append_at d q qs p)
        ≡ (if same p.func k then some (plus (find p.func (q ∷ qs)) p.time) else find k (q ∷ qs))
  unfolding find append_at
  find-append_at k q [] p =
      ground (arith, same_iff q.func p.func, same_iff q.func k, same_iff p.func k)
  find-append_at k q (r ∷ rs) p =
      ground (
        arith,
        same_iff q.func p.func,
        same_iff q.func k,
        same_iff p.func k,
        find-append_at k r rs p,
      )

  -- Behind `append` the time of the node's name is the time that the list had for it plus the
  -- node's, or the node's if the list had none; no other name's time is changed.
  pub find-append :
      (k : List ℕ) (qs : List (FuncTime d)) (p : FuncTime d)
      → find k (append d qs p)
        ≡ (if same p.func k then some (plus (find p.func qs) p.time) else find k qs)
  unfolding append find
  find-append k [] p = refl
  find-append k (q ∷ qs) p = find-append_at k q qs p

  pub find-after :
      (times : List ℕ → Option Num) (ps : List (FuncTime d)) (p : FuncTime d) (k : List ℕ)
      → find k ps ≡ times k
      → find p.func ps ≡ times p.func
      → find k (append d ps p) ≡ after times p k
  find-after times ps p k e f = elim (Bool-cases (same p.func k)) [
    | inl s ↦
        let here : p.func ≡ k = (same_iff p.func k).0 s in find-append k ps p ∙ rw (s, here, e)
    | inr s ↦ find-append k ps p ∙ rw (s, e)
  ]

  append_at-Distinct :
      (q : FuncTime d) (qs : List (FuncTime d)) (p : FuncTime d)
      → Distinct (q ∷ qs)
      → Distinct (append_at d q qs p)
  unfolding find append_at
  append_at-Distinct q [] p h = ground (arith, same_iff q.func p.func, same_iff p.func q.func)
  append_at-Distinct q (r ∷ rs) p (a, b) = ground (
    arith,
    same_iff q.func p.func,
    same_iff p.func q.func,
    append_at-Distinct r rs p b,
    find-append_at q.func r rs p,
  )

  pub append-Distinct :
      (qs : List (FuncTime d)) (p : FuncTime d) → Distinct qs → Distinct (append d qs p)
  unfolding append find
  append-Distinct [] p h = (refl, tt)
  append-Distinct (q ∷ qs) p h = append_at-Distinct q qs p h

  -- The same map, and still no name twice.
  abbrev pub SameMap : List (FuncTime d) → List (FuncTime d) → Type 0
  SameMap ps qs = ((k : List ℕ) → find k qs ≡ find k ps) × Distinct qs

  -- A fresh node may stand behind the first.
  insert-SameMap :
      (x : FuncTime d) (ys : List (FuncTime d)) (m : FuncTime d) (rest : List (FuncTime d))
      → find x.func ys ≡ none
      → SameMap ys (m ∷ rest)
      → SameMap (x ∷ ys) (m ∷ x ∷ rest)
  unfolding find
  insert-SameMap x ys m rest fresh (eq, (a, b)) = (
    λ k.
        ground
          (arith, eq k, eq x.func, same_iff m.func k, same_iff x.func k, same_iff m.func x.func),
    (
      ground (arith, eq x.func, same_iff x.func m.func, same_iff m.func x.func),
      (ground (arith, eq x.func), b),
    ),
  )

  find-swap :
      (p q : FuncTime d) (qs : List (FuncTime d)) (k : List ℕ)
      → Distinct (p ∷ q ∷ qs)
      → find k (q ∷ p ∷ qs) ≡ find k (p ∷ q ∷ qs)
  unfolding find
  find-swap p q qs k h =
      ground (arith, same_iff p.func k, same_iff q.func k, same_iff q.func p.func)

  fresh_after :
      (p q : FuncTime d) (qs : List (FuncTime d))
      → Distinct (p ∷ q ∷ qs)
      → find q.func (p ∷ qs) ≡ none
  unfolding find
  fresh_after p q qs h = ground (arith, same_iff p.func q.func, same_iff q.func p.func)

  skip-Distinct :
      (p q : FuncTime d) (qs : List (FuncTime d)) → Distinct (p ∷ q ∷ qs) → Distinct (p ∷ qs)
  unfolding find
  skip-Distinct p q qs h = ground arith

  find-cons :
      (m : FuncTime d) (xs ys : List (FuncTime d)) (k : List ℕ)
      → find k xs ≡ find k ys
      → find k (m ∷ xs) ≡ find k (m ∷ ys)
  unfolding find
  find-cons m xs ys k e = ground arith

  sweep-SameMap :
      (p : FuncTime d) (qs : List (FuncTime d))
      → Distinct (p ∷ qs)
      → SameMap (p ∷ qs) ((sweep d p qs).0 ∷ (sweep d p qs).1)
  unfolding sweep
  sweep-SameMap p [] h = (λ k. refl, h)
  sweep-SameMap p (q ∷ qs) h = elim (Bool-cases (gt q.time p.time)) [
    | inl g ↦
        rw g
          (insert-SameMap p (q ∷ qs) (sweep d q qs).0 (sweep d q qs).1 h.0 (sweep-SameMap q qs h.1))
    | inr g ↦
        let (eq, dis) =
          insert-SameMap q (p ∷ qs) (sweep d p qs).0 (sweep d p qs).1 (fresh_after p q qs h)
            (sweep-SameMap p qs (skip-Distinct p q qs h)) in
        rw g (λ k. eq k ∙ find-swap p q qs k h, dis)
  ]

  pub sort_loop-SameMap :
      (n : ℕ) (ps : List (FuncTime d)) → Distinct ps → SameMap ps (sort_loop d n ps)
  unfolding sort_loop
  sort_loop-SameMap zero ps h = (λ k. refl, h)
  sort_loop-SameMap (suc n) [] h = (λ k. refl, h)
  sort_loop-SameMap (suc n) (p ∷ []) h = (λ k. refl, h)
  sort_loop-SameMap (suc n) (p ∷ q ∷ qs) h =
      let m : FuncTime d = (sweep d p (q ∷ qs)).0 in
      let rest : List (FuncTime d) = (sweep d p (q ∷ qs)).1 in
      let (eq, dis) = sweep-SameMap p (q ∷ qs) h in
      let (eq', dis') = sort_loop-SameMap n rest dis.1 in
      (λ k. find-cons m _ rest k (eq' k) ∙ eq k, (eq' m.func ∙ dis.0, dis'))
