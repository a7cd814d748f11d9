-- ===== src/Brac/Examples.antt =====
-- Runs of brac.c, and its theorems at their last states.
use the_code_back_up_in_ubun.Base.{
  ℕ, zero, suc, ◌+◌, ◌*◌, length, ◌≤◌, ◌≡◌, refl, ◌≢◌, false, none, some, List, [], ◌∷◌, ◌++◌,
  arith,
}
use the_code_back_up_in_ubun.Monitor.Schedule.{Run, run}
use the_code_back_up_in_ubun.Monitor.Progress.{CanGo}
use the_code_back_up_in_ubun.Monitor.Pace.{steps, chances}
use the_code_back_up_in_ubun.Monitor.Gate.{active}
use the_code_back_up_in_ubun.Brac.{brac_monitor, role, thread_count, blocked, enter, leave}
use the_code_back_up_in_ubun.Brac.Nesting.{nest}
use the_code_back_up_in_ubun.Brac.Entered.{globals, open_brackets}
use the_code_back_up_in_ubun.Brac.Correct.{
  output-nests, buffer-nests, memory_safe, brac_goes_on, tmp_overflow, brac_gate,
}

turn : ℕ → List ℕ
turn i = i ∷ i ∷ i ∷ i ∷ i ∷ []

-- With one spare byte: `[`, `(`, the NUL of thread 8, `)`, and thread 2 about to print `]`.
abbrev nested : Run (brac_monitor (7 ∷ [])) role thread_count
nested =
    run (brac_monitor (7 ∷ [])) role thread_count
      (turn 1 ++ turn 4 ++ turn 8 ++ turn 6 ++ 2 ∷ 2 ∷ [])

nested_output : nested.last.out ≡ b'[' ∷ b'(' ∷ 0 ∷ b')' ∷ []
unfolding run turn blocked enter leave
nested_output = refl

-- The same without the last two moves: nobody is inside.
abbrev quiet : Run (brac_monitor (7 ∷ [])) role thread_count
quiet = run (brac_monitor (7 ∷ [])) role thread_count (turn 1 ++ turn 4)

-- Without a spare byte: `[`, `[`, `(`, `(`, and a test of thread 1 ends the process.
abbrev overflown : Run (brac_monitor []) role thread_count
overflown =
    run (brac_monitor []) role thread_count (turn 1 ++ turn 1 ++ turn 4 ++ turn 5 ++ 1 ∷ 1 ∷ [])

overflown_end : overflown.last.shared ≡ none
unfolding run turn blocked enter leave
overflown_end = refl

output-nests_example :
    (a b : ℕ) × (a + b ≤ 4) × (nest [] nested.last.out ≡ some (open_brackets a b))
output-nests_example = output-nests 7 [] nested.last nested.reach

quiet_free : (i : ℕ) → active (brac_gate 7 []) role quiet.last.pc i ≡ false
unfolding run turn blocked enter leave
quiet_free zero = refl
quiet_free (suc zero) = refl
quiet_free (suc (suc zero)) = refl
quiet_free (suc (suc (suc zero))) = refl
quiet_free (suc (suc (suc (suc zero)))) = refl
quiet_free (suc (suc (suc (suc (suc i))))) = ground arith

buffer-nests_example :
    (a b : ℕ) × (quiet.last.shared ≡ some (globals a b 1))
    × (nest [] quiet.last.out ≡ some (open_brackets a b))
buffer-nests_example = buffer-nests 7 [] quiet.last quiet.reach quiet_free

memory_safe_example : nested.last.shared ≢ none
memory_safe_example = memory_safe 7 [] nested.last nested.reach

brac_goes_on_example :
    CanGo (brac_gate 7 []) role thread_count nested.last
    × (steps (brac_monitor (7 ∷ [])) role nested.reach
        ≤ 16 + 21 * length nested.last.out + 3 * chances (brac_monitor (7 ∷ [])) role nested.reach)
brac_goes_on_example = brac_goes_on 7 [] nested.last nested.reach

tmp_overflow_example :
    (blocked [] b'[' (globals 2 2 0) ≡ false) × (enter [] b'[' (globals 2 2 0) ≡ none)
tmp_overflow_example = tmp_overflow 2 2 0 b'[' refl refl
