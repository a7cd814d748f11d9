-- ===== src/Scheduler/Preempted/Examples.antt =====
-- thread-os-mp.c with two CPUs: task 2 takes the lock on CPU 0 and is interrupted, and the tasks 4 and
-- 1 wait for it.
use the_code_back_up_in_ubun.Base.{
  ℕ, ◌%◌, ◌<◌, ◌≡◌, refl, Bool, true, Option, none, some, List, [], ◌∷◌, ◌++◌, All, ltb, arith,
  Bool-cases, Option-cases, inl, inr, if◌then◌else◌,
}
use the_code_back_up_in_ubun.Scheduler.Preempted.{
  Pc, Context, in_func, kcontext, Machine, boot, func, interrupted, Reached, booted, moved,
  switched,
}
use the_code_back_up_in_ubun.Scheduler.Tasks.{Tasks}
use the_code_back_up_in_ubun.Scheduler.Preempted.Views.{view}
use the_code_back_up_in_ubun.Scheduler.Preempted.Kept.{inside}
use the_code_back_up_in_ubun.Scheduler.Preempted.Excludes.{preempted_excludes}
use the_code_back_up_in_ubun.Scheduler.Preempted.Turns.{Leads}
use the_code_back_up_in_ubun.Scheduler.Preempted.Gains.{task_prints_again}

-- A step of a CPU, or an interrupt of it.
data Turn : Type 0 where
  runs : ℕ → Turn
  stops : ℕ → Turn

abbrev turn : Turn → Machine → Option Machine
turn (runs cpu) m = func cpu (m.running cpu) m
turn (stops cpu) m = interrupted 2 cpu m

abbrev on_board : Turn → Bool
on_board (runs cpu) = ltb cpu 2
on_board (stops cpu) = ltb cpu 2

-- The turns, as far as they can be made.
abbrev after : List Turn → Machine → Machine
after [] m = m
after (t ∷ ts) m = elim (if on_board t then turn t m else none) [ none ↦ m | some m' ↦ after ts m' ]

turn-Reached :
    (t : Turn) (m m' : Machine)
    → Reached 2 m
    → on_board t ≡ true
    → turn t m ≡ some m'
    → Reached 2 m'
turn-Reached (runs cpu) m m' r b e = moved cpu m m' r (ground arith) e
turn-Reached (stops cpu) m m' r b e = switched cpu m m' r (ground arith) e

after-Reached : (ts : List Turn) (m : Machine) → Reached 2 m → Reached 2 (after ts m)
after-Reached [] m r = r
after-Reached (t ∷ ts) m r = elim (Bool-cases (on_board t)) [
  | inl b ↦ elim (Option-cases (turn t m)) [
    | inl e ↦ rw (b, e, after) r
    | inr (m', e) ↦ rw (b, e, after) (after-Reached ts m' (turn-Reached t m m' r b e))
  ]
  | inr b ↦ rw (b, after) r
]

abbrev no_tasks : Tasks Context
no_tasks = record { context = kcontext; next = λ t. t }

abbrev turns : List Turn
turns = stops 0 ∷ runs 0 ∷ runs 0 ∷ stops 0 ∷ stops 1 ∷ runs 0 ∷ runs 1 ∷ []

abbrev held : Machine
held = after turns (boot no_tasks)

held-Reached : Reached 2 held
held-Reached = after-Reached turns (boot no_tasks) (booted no_tasks)

held_lem :
    (held.biglock ≡ 1)
    × (held.out ≡ (2, 0) ∷ [])
    × (inside (view 2 held 2) ≡ true)
    × (held.sched.current 0 ≡ some 4)
    × (held.sched.current 1 ≡ some 1)
unfolding boot func interrupted
held_lem = (refl, refl, refl, refl, refl)

preempted_excludes_example :
    ((t u : ℕ)
      → t < 5
      → u < 5
      → inside (view 2 held t) ≡ true
      → inside (view 2 held u) ≡ true
      → t ≡ u)
    × ((t : ℕ) → t < 5 → inside (view 2 held t) ≡ true → held.biglock ≡ 1)
    × (held.biglock ≡ 1 → (t : ℕ) × (t < 5) × (inside (view 2 held t) ≡ true))
    × ((cpu a : ℕ) (pc : Pc)
        → cpu < 2
        → held.running cpu ≡ in_func a pc
        → (held.sched.current cpu ≡ some a) × (a % 2 ≡ cpu))
    × All (λ l. (l.0 < 5) × (l.1 ≡ l.0 % 2)) held.out
preempted_excludes_example = preempted_excludes 2 held (omega arith) held-Reached

-- Task 3 of CPU 1, which was never current, while task 2 holds the lock on CPU 0.
task_prints_again_example :
    (m' : Machine) × Leads 2 held m'
    × (lines : List (ℕ × ℕ)) × (m'.out ≡ held.out ++ (lines ++ (3, 1) ∷ []))
task_prints_again_example =
    task_prints_again 2 held 3 (omega arith) (omega arith) held-Reached (omega arith)
