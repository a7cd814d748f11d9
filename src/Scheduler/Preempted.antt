-- ===== src/Scheduler/Preempted.antt =====
-- multi-threads/thread-os-mp.c as a whole: the CPUs, from `mp_entry` on, run `func` as the tasks that
-- on_interrupt gives them, and share `biglock` and the output. A step is an access of the lock by the
-- task on a CPU, its printf, a round of its last loop, or an interrupt, which comes between any two
-- of these.
mod Examples
pub mod Excludes
pub mod Gains
pub mod Kept
pub mod Rounds
pub mod Turns
pub mod Views
use the_code_back_up_in_ubun.Base.{
  ℕ, ◌+◌, ◌<◌, ◌≡◌, Option, none, some, List, [], ◌∷◌, ◌++◌, ◌==◌, if◌then◌else◌, ltb, update,
}
use the_code_back_up_in_ubun.SpinLock.{lock_round, unlock}
use the_code_back_up_in_ubun.Scheduler.{State, mp_interrupt}
use the_code_back_up_in_ubun.Scheduler.Tasks.{Tasks, mp_main}

-- Where a task stands in `func`.
pub data Pc : Type 0 where
  trying : Pc  -- in the loop of `lock`
  acquired : Pc  -- before the printf
  printed : Pc  -- before `unlock`
  counting : ℕ → Pc  -- before the test of the last loop, with this i

-- What an interrupt saves: mp_entry, or func with its `arg`, the name of a task, which is its index
-- here.
pub data Context : Type 0 where
  in_entry : Context
  in_func : ℕ → Pc → Context

-- The tasks and `current`, where each CPU stands, the word of `biglock`, and the lines of the
-- output: the thread and the CPU.
pub record Machine : Type 0 where
  pub sched : State Context
  pub running : ℕ → Context
  pub biglock : ℕ
  pub out : List (ℕ × ℕ)

-- `_kcontext(stack, func, (void *)task->name)`.
abbrev pub kcontext : ℕ → Context
kcontext t = in_func t trying

-- Behind `main`, when each CPU is in `mp_entry`.
unfoldable pub boot : Tasks Context → Machine
unfolding mp_main
boot tasks = record {
  sched = (mp_main kcontext tasks).0;
  running = λ cpu. in_entry;
  biglock = 0;
  out = [];
}

-- A step of `func` on a CPU, as the thread `arg`. `mp_entry` itself only waits for the interrupt of
-- its _yield.
unfoldable pub func : ℕ → Context → Machine → Option Machine
unfolding lock_round unlock
func cpu in_entry m = none
func cpu (in_func arg trying) m = some (record m {
  running =
      update m.running cpu (in_func arg (if (lock_round m.biglock).1 then acquired else trying));
  biglock = (lock_round m.biglock).0;
})
func cpu (in_func arg acquired) m = some (record m {
  running = update m.running cpu (in_func arg printed);
  out = m.out ++ (arg, cpu) ∷ [];
})
func cpu (in_func arg printed) m = some (record m {
  running = update m.running cpu (in_func arg (counting 0));
  biglock = unlock m.biglock;
})
func cpu (in_func arg (counting i)) m = some (record m {
  running = update m.running cpu (in_func arg (if ltb i 100000 then counting (i + 1) else trying));
})

-- An interrupt on a CPU, which goes on with the context that the handler returns.
unfoldable pub interrupted : ℕ → ℕ → Machine → Option Machine
unfolding mp_interrupt
interrupted ncpu cpu m = elim (mp_interrupt Context ncpu cpu (m.running cpu) m.sched) [
  | none ↦ none
  | some (back, sched) ↦ some (record m { sched = sched; running = update m.running cpu back })
]

-- The machines that steps and interrupts lead to, on the CPUs in any order.
pub data Reached (ncpu : ℕ) : Machine → Type 0 where
  booted : (tasks : Tasks Context) → Reached ncpu (boot tasks)
  moved :
      (cpu : ℕ) (m m' : Machine)
      → Reached ncpu m
      → cpu < ncpu
      → func cpu (m.running cpu) m ≡ some m'
      → Reached ncpu m'
  switched :
      (cpu : ℕ) (m m' : Machine)
      → Reached ncpu m
      → cpu < ncpu
      → interrupted ncpu cpu m ≡ some m'
      → Reached ncpu m'
