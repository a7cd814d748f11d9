-- ===== src/Sperf/Sorted.antt =====
-- The exchange sort of sperf.c: the same nodes' contents, the largest time first.
use mathlib.Core.List.{Perm}
use mathlib.Core.List.Perm
use the_code_back_up_in_ubun.Base.{
  ℕ, zero, suc, ◌≤◌, ◌≡◌, refl, ◌⊎◌, inl, inr, true, false, none, some, List, [], ◌∷◌,
  if◌then◌else◌, length, arith, Bool-cases, All,
}
use the_code_back_up_in_ubun.Doubles.{Doubles}
use the_code_back_up_in_ubun.Sperf.{FuncTime, sweep, sort_loop, sort}

module _ (d : Doubles) where
  open d use {Num, gt, gt_asymm, le_trans}

  -- No node has a larger time than one in front of it.
  abbrev pub IsSorted : List (FuncTime d) → Type 0
  IsSorted [] = Unit
  IsSorted (p ∷ ps) = All (λ q. gt q.time p.time ≡ false) ps × IsSorted ps

  irreflexive : (a : Num) → gt a a ≡ false
  irreflexive a = elim (Bool-cases (gt a a)) [ inl h ↦ gt_asymm a a h | inr h ↦ h ]

  sweep_swap :
      (p q : FuncTime d) (qs : List (FuncTime d))
      → gt q.time p.time ≡ true
      → sweep d p (q ∷ qs) ≡ ((sweep d q qs).0, p ∷ (sweep d q qs).1)
  unfolding sweep
  sweep_swap p q qs g = rw g

  sweep_keep :
      (p q : FuncTime d) (qs : List (FuncTime d))
      → gt q.time p.time ≡ false
      → sweep d p (q ∷ qs) ≡ ((sweep d p qs).0, q ∷ (sweep d p qs).1)
  unfolding sweep
  sweep_keep p q qs g = rw g

  -- The node that `sweep` leaves in front has no smaller time than the first.
  sweep-ge : (p : FuncTime d) (qs : List (FuncTime d)) → gt p.time (sweep d p qs).0.time ≡ false
  sweep-ge p [] = unfold sweep in irreflexive p.time
  sweep-ge p (q ∷ qs) = elim (Bool-cases (gt q.time p.time)) [
    | inl g ↦
        rw (sweep_swap p q qs g)
          (le_trans p.time q.time (sweep d q qs).0.time (gt_asymm q.time p.time g) (sweep-ge q qs))
    | inr g ↦ rw (sweep_keep p q qs g) (sweep-ge p qs)
  ]

  abbrev AtMost : Num → List (FuncTime d) → Type 0
  AtMost t = All (λ q. gt q.time t ≡ false)

  sweep-max :
      (p : FuncTime d) (qs : List (FuncTime d)) → AtMost (sweep d p qs).0.time (sweep d p qs).1
  sweep-max p [] = unfold sweep in tt
  sweep-max p (q ∷ qs) = elim (Bool-cases (gt q.time p.time)) [
    | inl g ↦ rw (sweep_swap p q qs g) (
      le_trans p.time q.time (sweep d q qs).0.time (gt_asymm q.time p.time g) (sweep-ge q qs),
      sweep-max q qs,
    )
    | inr g ↦
        rw (sweep_keep p q qs g)
          (le_trans q.time p.time (sweep d p qs).0.time g (sweep-ge p qs), sweep-max p qs)
  ]

  sweep-AtMost :
      (t : Num) (p : FuncTime d) (qs : List (FuncTime d))
      → AtMost t (p ∷ qs)
      → AtMost t ((sweep d p qs).0 ∷ (sweep d p qs).1)
  sweep-AtMost t p [] h = unfold sweep in h
  sweep-AtMost t p (q ∷ qs) (a, (b, c)) = elim (Bool-cases (gt q.time p.time)) [
    | inl g ↦ rw (sweep_swap p q qs g) (let (e, f) = sweep-AtMost t q qs (b, c) in (e, (a, f)))
    | inr g ↦ rw (sweep_keep p q qs g) (let (e, f) = sweep-AtMost t p qs (a, c) in (e, (b, f)))
  ]

  sweep-perm :
      (p : FuncTime d) (qs : List (FuncTime d))
      → Perm ((sweep d p qs).0 ∷ (sweep d p qs).1) (p ∷ qs)
  sweep-perm p [] = unfold sweep in Perm.refl (p ∷ [])
  sweep-perm p (q ∷ qs) = elim (Bool-cases (gt q.time p.time)) [
    | inl g ↦
        rw (sweep_swap p q qs g) (
          Perm.trans (Perm.swap p (sweep d q qs).0 (sweep d q qs).1)
            (Perm.cons p (sweep-perm q qs)))
    | inr g ↦ rw (sweep_keep p q qs g) (
        Perm.trans (Perm.swap q (sweep d p qs).0 (sweep d p qs).1)
          (Perm.trans (Perm.cons q (sweep-perm p qs)) (Perm.swap p q qs)))
  ]

  pub length-sweep : (p : FuncTime d) (qs : List (FuncTime d)) → length (sweep d p qs).1 ≡ length qs
  unfolding sweep
  length-sweep p [] = refl
  length-sweep p (q ∷ qs) = omega (arith, length-sweep (if gt q.time p.time then q else p) qs)

  sort_loop-AtMost :
      (n : ℕ) (t : Num) (ps : List (FuncTime d)) → AtMost t ps → AtMost t (sort_loop d n ps)
  unfolding sort_loop
  sort_loop-AtMost zero t ps h = h
  sort_loop-AtMost (suc n) t [] h = h
  sort_loop-AtMost (suc n) t (p ∷ []) h = h
  sort_loop-AtMost (suc n) t (p ∷ q ∷ qs) h =
      let (a, b) = sweep-AtMost t p (q ∷ qs) h in (a, sort_loop-AtMost n t (sweep d p (q ∷ qs)).1 b)

  -- As many rounds as nodes are enough.
  pub sort_loop-IsSorted :
      (n : ℕ) (ps : List (FuncTime d)) → length ps ≤ n → IsSorted (sort_loop d n ps)
  unfolding sort_loop
  sort_loop-IsSorted zero [] h = tt
  sort_loop-IsSorted zero (p ∷ ps) h = absurd (omega arith)
  sort_loop-IsSorted (suc n) [] h = tt
  sort_loop-IsSorted (suc n) (p ∷ []) h = (tt, tt)
  sort_loop-IsSorted (suc n) (p ∷ q ∷ qs) h = (
    sort_loop-AtMost n (sweep d p (q ∷ qs)).0.time (sweep d p (q ∷ qs)).1 (sweep-max p (q ∷ qs)),
    sort_loop-IsSorted n (sweep d p (q ∷ qs)).1 (omega (arith, length-sweep p (q ∷ qs))),
  )

  sort_loop-perm : (n : ℕ) (ps : List (FuncTime d)) → Perm (sort_loop d n ps) ps
  unfolding sort_loop
  sort_loop-perm zero ps = Perm.refl ps
  sort_loop-perm (suc n) [] = Perm.refl []
  sort_loop-perm (suc n) (p ∷ []) = Perm.refl (p ∷ [])
  sort_loop-perm (suc n) (p ∷ q ∷ qs) =
      Perm.trans (Perm.cons (sweep d p (q ∷ qs)).0 (sort_loop-perm n (sweep d p (q ∷ qs)).1))
        (sweep-perm p (q ∷ qs))

  -- On every list with a node, `sort` puts the same contents in an order in which no time is larger
  -- than one in front of it; on the empty list its assertion fails.
  pub sort-IsSorted :
      (ps : List (FuncTime d))
      → (length ps ≡ 0) × (sort d ps ≡ none)
        ⊎ ((qs : List (FuncTime d)) × (sort d ps ≡ some qs) × Perm qs ps × IsSorted qs)
  unfolding sort
  sort-IsSorted [] = inl (refl, refl)
  sort-IsSorted (p ∷ ps) = inr (
    sort_loop d (length (p ∷ ps)) (p ∷ ps),
    refl,
    sort_loop-perm (length (p ∷ ps)) (p ∷ ps),
    sort_loop-IsSorted (length (p ∷ ps)) (p ∷ ps) (omega arith),
  )
