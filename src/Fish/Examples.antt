-- ===== src/Fish/Examples.antt =====
-- Runs of fish.c, and its theorems at their last states.
use the_code_back_up_in_ubun.Base.{ℕ, ◌+◌, ◌*◌, ◌≤◌, ◌≡◌, refl, [], ◌∷◌, length}
use the_code_back_up_in_ubun.Monitor.{Pc}
use the_code_back_up_in_ubun.Monitor.Schedule.{Run, run}
use the_code_back_up_in_ubun.Monitor.Progress.{CanMove}
use the_code_back_up_in_ubun.Monitor.Pace.{steps, chances}
use the_code_back_up_in_ubun.Fish.{fish_monitor, role, thread_count, blocked, enter, leave}
use the_code_back_up_in_ubun.Fish.Words.{Swims}
use the_code_back_up_in_ubun.Fish.Correct.{output-Swims, fish_goes_on}

-- Thread 5 prints `>`, thread 1 prints `<`, thread 6 is about to print `>`, and thread 2 sleeps.
abbrev half_fish : Run fish_monitor role thread_count
half_fish =
    run fish_monitor role thread_count (5 ∷ 5 ∷ 5 ∷ 5 ∷ 5 ∷ 1 ∷ 1 ∷ 1 ∷ 1 ∷ 1 ∷ 6 ∷ 6 ∷ 2 ∷ 2 ∷ [])

half_fish_output : half_fish.last.out ≡ b'>' ∷ b'<' ∷ []
unfolding run blocked enter leave
half_fish_output = refl

half_fish_sleeper : half_fish.last.pc 2 ≡ Pc.waiting
unfolding run blocked enter leave
half_fish_sleeper = refl

output-Swims_example : (q : ℕ) × Swims q half_fish.last.out
output-Swims_example = output-Swims half_fish.last half_fish.reach

fish_goes_on_example :
    CanMove fish_monitor role thread_count half_fish.last
    × (steps fish_monitor role half_fish.reach
        ≤ 24 + 29 * length half_fish.last.out + 3 * chances fish_monitor role half_fish.reach)
fish_goes_on_example = fish_goes_on half_fish.last half_fish.reach

-- No thread woke by chance in these fourteen steps.
half_fish_steps : steps fish_monitor role half_fish.reach ≡ 14
unfolding run blocked enter leave
half_fish_steps = refl
