-- ===== src/Hello/Examples.antt =====
-- cur.c with two threads in place of 1000: a run in which an addition is lost.
use the_code_back_up_in_ubun.Base.{
  ℕ, ◌≤◌, ◌<◌, ◌≡◌, ◌⊎◌, refl, true, none, some, List, [], ◌∷◌, length, All, Option-cases, inl, inr,
}
use the_code_back_up_in_ubun.Hello.{State, started, step, Reached, at_start, stepped}
use the_code_back_up_in_ubun.Hello.Inv.{contains}
use the_code_back_up_in_ubun.Hello.Gaps.{over-no_gaps}
use the_code_back_up_in_ubun.Hello.Ends.{steps, CanStep, main_ends}

-- The steps of these, as far as they can move.
abbrev after : List ℕ → State → State
after [] s = s
after (i ∷ is) s = elim (step 2 i s) [ none ↦ s | some s' ↦ after is s' ]

after-Reached : (is : List ℕ) (s : State) → Reached 2 s → Reached 2 (after is s)
after-Reached [] s r = r
after-Reached (i ∷ is) s r = elim (Option-cases (step 2 i s)) [
  | inl e ↦ rw (e, after) r
  | inr (s', e) ↦ rw (e, after) (after-Reached is s' (stepped i s s' r e))
]

-- Both threads load 0.
abbrev turns : List ℕ
turns = 0 ∷ 0 ∷ 1 ∷ 2 ∷ 1 ∷ 2 ∷ 1 ∷ 2 ∷ 0 ∷ []

abbrev lost : State
lost = after turns started

lost_out : (lost.out ≡ 0 ∷ 0 ∷ []) × (lost.x ≡ 1) × (lost.over ≡ true)
unfolding step
lost_out = (refl, refl, refl)

lost-Reached : Reached 2 lost
lost-Reached = after-Reached turns started at_start

over-no_gaps_example :
    (length lost.out ≡ 2)
    × All (λ v. v < 2) lost.out
    × ((v j : ℕ) → contains lost.out v ≡ true → j < v → contains lost.out j ≡ true)
    × (lost.x ≤ 2)
    × ((j : ℕ) → j < lost.x → contains lost.out j ≡ true)
over-no_gaps_example = over-no_gaps 2 lost lost-Reached lost_out.2

main_ends_example : (steps lost-Reached ≤ 9) × ((lost.over ≡ true) ⊎ CanStep 2 lost)
main_ends_example = main_ends 2 lost lost-Reached
