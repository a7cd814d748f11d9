-- ===== src/Sums/Examples.antt =====
-- The theorems on sum.c and sum-atomic.c with two rounds for each thread, one thread after the
-- other.
use the_code_back_up_in_ubun.Base.{
  ℕ, zero, suc, ◌≤◌, ◌<◌, ◌≡◌, refl, Option, none, some, List, [], ◌∷◌, All, arith, Option-cases,
  inl, inr,
}
use the_code_back_up_in_ubun.Sums.{
  System, started, do_sum, do_locked_sum, Reached, at_start, stepped, Joined,
}
use the_code_back_up_in_ubun.Sums.Bounds.{sum_bounds}
use the_code_back_up_in_ubun.Sums.Locked.{locked_sum}
use the_code_back_up_in_ubun.Sums.Lost.{sum_lost}

module _ (step : ℕ → System → Option System) where
  -- The steps of these threads, as far as they can move.
  abbrev after : List ℕ → System → System
  after [] s = s
  after (t ∷ ts) s = elim (step t s) [ none ↦ s | some s' ↦ after ts s' ]

  after-Reached :
      (rounds : ℕ) (ts : List ℕ) (s : System)
      → All (λ t. t < 4) ts
      → Reached step rounds s
      → Reached step rounds (after ts s)
  after-Reached rounds [] s lts r = r
  after-Reached rounds (t ∷ ts) s (lt, lts) r = elim (Option-cases (step t s)) [
    | inl e ↦ rw (e, after) r
    | inr (s', e) ↦ rw (e, after) (after-Reached rounds ts s' lts (stepped t s s' lt r e))
  ]

abbrev locked_turns : List ℕ
locked_turns = 0 ∷ 0 ∷ 1 ∷ 1 ∷ 2 ∷ 2 ∷ 3 ∷ 3 ∷ []

abbrev turns : List ℕ
turns = 0 ∷ 0 ∷ 0 ∷ 0 ∷ 1 ∷ 1 ∷ 1 ∷ 1 ∷ 2 ∷ 2 ∷ 2 ∷ 2 ∷ 3 ∷ 3 ∷ 3 ∷ 3 ∷ []

below_four : (f : ℕ → ℕ) → f 0 ≡ 0 → f 1 ≡ 0 → f 2 ≡ 0 → f 3 ≡ 0 → (t : ℕ) → t < 4 → f t ≡ 0
below_four f a b c d zero lt = a
below_four f a b c d (suc zero) lt = b
below_four f a b c d (suc (suc zero)) lt = c
below_four f a b c d (suc (suc (suc zero))) lt = d
below_four f a b c d (suc (suc (suc (suc t)))) lt = absurd (omega arith)

locked_turns-Joined : Joined (after do_locked_sum locked_turns (started 2))
unfolding do_locked_sum
locked_turns-Joined = below_four _ refl refl refl refl

turns-Joined : Joined (after do_sum turns (started 2))
unfolding do_sum
turns-Joined = below_four _ refl refl refl refl

locked_sum_example : (after do_locked_sum locked_turns (started 2)).sum ≡ 8
locked_sum_example =
    locked_sum 2 (after do_locked_sum locked_turns (started 2)) (omega arith)
      (after-Reached do_locked_sum 2 locked_turns (started 2) (omega arith) at_start)
      locked_turns-Joined

sum_bounds_example :
    (2 ≤ (after do_sum turns (started 2)).sum) × ((after do_sum turns (started 2)).sum ≤ 8)
sum_bounds_example =
    sum_bounds 2 (after do_sum turns (started 2)) (omega arith) (omega arith)
      (after-Reached do_sum 2 turns (started 2) (omega arith) at_start) turns-Joined

-- The rounds of the program.
sum_lost_example : (s : System) × Reached do_sum 10000000 s × Joined s × (s.sum ≡ 2)
sum_lost_example = sum_lost 10000000 (omega arith) (omega arith)
