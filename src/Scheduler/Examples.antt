-- ===== src/Scheduler/Examples.antt =====
-- The theorems on the schedulers at concrete states; a context is a number here.
use the_code_back_up_in_ubun.Base.{ℕ, ◌+◌, ◌≡◌, refl, none, some, [], ◌∷◌, update, arith}
use the_code_back_up_in_ubun.Scheduler.{State, next_task, switch, mp_interrupt, schedule}
use the_code_back_up_in_ubun.Scheduler.Multi.{
  Placed, Switched, mp_interrupt-schedule, schedule-Switched, switch_stuck,
}
use the_code_back_up_in_ubun.Scheduler.Single.{interrupts, interrupts_round}

abbrev idle : State ℕ
idle = record { context = λ t. 100 + t; current = λ cpu. none }

-- CPU 1 of 2 runs task 3.
abbrev busy : State ℕ
busy = record { context = λ t. 100 + t; current = update idle.current 1 (some 3) }

busy-Placed : Placed ℕ 2 busy
busy-Placed cpu t lt e = ground arith

mp_interrupt-schedule_example : mp_interrupt ℕ 2 1 7 busy ≡ schedule ℕ 2 1 7 busy
mp_interrupt-schedule_example = mp_interrupt-schedule ℕ 2 1 7 busy (omega arith) busy-Placed

schedule-Switched_example :
    (t : ℕ) × (s' : State ℕ) × (schedule ℕ 2 1 7 busy ≡ some (s'.context t, s'))
    × Switched ℕ 2 1 7 busy s' t
schedule-Switched_example = schedule-Switched ℕ 2 1 7 busy (omega arith) (omega arith) busy-Placed

switch_stuck_example : switch ℕ (next_task ℕ 5) 1000 8 6 7 idle ≡ none
switch_stuck_example = switch_stuck ℕ 1000 8 6 7 idle (omega arith)

interrupts_round_example : (interrupts ℕ 3 (7 ∷ 8 ∷ 9 ∷ 10 ∷ 11 ∷ []) idle).current 0 ≡ some 1
interrupts_round_example = interrupts_round ℕ 3 7 (8 ∷ 9 ∷ 10 ∷ 11 ∷ []) idle refl (omega arith)
