-- ===== src/Producers/Examples.antt =====
-- producer-consumer.c where it stops: two producers and the consumer have returned.
use the_code_back_up_in_ubun.Base.{ℕ, ◌≡◌, refl, none, some, List, [], ◌∷◌}
use the_code_back_up_in_ubun.Producers.{State, step, started}
use the_code_back_up_in_ubun.Producers.Progress.{Reached, at_start, stepped, producers_stuck}

abbrev after : State → List ℕ → State
after s [] = s
after s (t ∷ ts) = elim (step t s) [ none ↦ s | some s' ↦ after s' ts ]

abbrev stopped : State
stopped = after started (0 ∷ 0 ∷ 0 ∷ 3 ∷ 3 ∷ 3 ∷ 1 ∷ 1 ∷ 1 ∷ [])

stopped-output : (stopped.output ≡ b'(' ∷ b')' ∷ b'(' ∷ []) × (step 2 stopped ≡ none)
unfolding step
stopped-output = (refl, refl)

stopped-Reached : Reached stopped
unfolding step
stopped-Reached =
    stepped 1 _ _
      (stepped 1 _ _
        (stepped 1 _ _
          (stepped 3 _ _
            (stepped 3 _ _
              (stepped 3 _ _ (stepped 0 _ _ (stepped 0 _ _ (stepped 0 _ _ at_start refl) refl) refl)
                refl)
              refl)
            refl)
          refl)
        refl)
      refl

producers_stuck_example : ¬ ((stopped.pc 0 ≡ 3) × (stopped.pc 1 ≡ 3) × (stopped.pc 2 ≡ 3))
producers_stuck_example = producers_stuck stopped stopped-Reached
