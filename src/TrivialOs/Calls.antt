-- ===== src/TrivialOs/Calls.antt =====
-- The system calls of multi-threads/trivial-os.c as they run on several CPUs: proc_syscall runs with
-- interrupts on until spin_lock turns them off, step by step, while other CPUs take interrupts, page
-- faults and system calls of their own. Page faults and the scheduler run with interrupts off, and are
-- one step here. A context is saved with the interrupts on, and is gone back to with them on, as that
-- of a new process; the programs are any type.
mod Examples
pub mod Excluded
pub mod Stages
pub mod Steps
pub mod Traps
use Prim.Native.Nat.{bit_and}
use the_code_back_up_in_ubun.Base.{
  ℕ, ◌+◌, ◌-◌, ◌%◌, ◌^◌, ◌<◌, ◌≡◌, ◌⊎◌, Bool, true, false, Option, none, some, List, [], ◌∷◌, ◌++◌,
  if◌then◌else◌, update,
}
use the_code_back_up_in_ubun.SpinLock.{lock_round, unlock}
use the_code_back_up_in_ubun.Scheduler as Sched
use the_code_back_up_in_ubun.TrivialOs.{
  Platform, Kernel, Event, event_pagefault, event_other, os_init, os_interrupt,
}

-- Where a system call stands, with the address `pa` of its string.
pub data Stage : Type 0 where
  opened : Stage  -- behind `_intr_write(1)` of os_interrupt
  located : ℕ → Stage  -- behind the line of `pa`
  spinning : ℕ → Stage  -- in the loop of spin_lock
  acquired : ℕ → Stage  -- before the printf
  printed : Stage  -- before the exchange of spin_unlock
  released : Stage  -- before its `_intr_write(1)`
  leaving : Stage  -- before the return of os_interrupt

-- What a CPU runs, and an interrupt saves: the _yield of main, a program, or its system call.
pub data Context (U : Type 0) : Type 0 where
  booting : Context U
  in_user : U → Context U
  in_call : U → Stage → Context U

module _ {U : Type 0} (p : Platform (Context U)) where
  pub record Machine : Type 0 where
    pub kernel : Kernel (Context U) p
    pub running : ℕ → Context U
    pub lock : ℕ

  -- A step of a system call on a CPU: proc_syscall with spin_lock and spin_unlock, and the return.
  -- `none` is the NULL of a CPU without a task.
  unfoldable pub call_step : ℕ → Context U → Machine → Option Machine
  unfolding lock_round unlock
  call_step cpu booting m = none
  call_step cpu (in_user u) m = none
  call_step cpu (in_call u opened) m = elim (m.kernel.sched.current cpu) [
    | none ↦ none
    | some t ↦
        let pa = (m.kernel.page t + bit_and (p.gpr1 (in_user u)) (p.pgsize - 1)) % 2 ^ 64 in
        some (record m { running = update m.running cpu (in_call u (located pa)) })
  ]
  call_step cpu (in_call u (located pa)) m = some (record m {
    kernel = record m.kernel { intr = update m.kernel.intr cpu false };
    running = update m.running cpu (in_call u (spinning pa));
  })
  call_step cpu (in_call u (spinning pa)) m = some (record m {
    running =
        update m.running cpu
          (in_call u (if (lock_round m.lock).1 then acquired pa else spinning pa));
    lock = (lock_round m.lock).0;
  })
  call_step cpu (in_call u (acquired pa)) m = elim (m.kernel.sched.current cpu) [
    | none ↦ none
    | some t ↦ some (record m {
      kernel = record m.kernel {
        output = m.kernel.output ++ record { process = t + 1; cpu = cpu; string = pa } ∷ [];
      };
      running = update m.running cpu (in_call u printed);
    })
  ]
  call_step cpu (in_call u printed) m =
      some (record m { running = update m.running cpu (in_call u released); lock = unlock m.lock })
  call_step cpu (in_call u released) m = some (record m {
    kernel = record m.kernel { intr = update m.kernel.intr cpu true };
    running = update m.running cpu (in_call u leaving);
  })
  call_step cpu (in_call u leaving) m =
      some (record m { running = update m.running cpu (in_user u) })

  -- The machines that the program leads to, the CPUs in any order.
  pub data Reached : Machine → Type 0 where
    booted :
        (before : Sched.State (Context U)) (memory : ℕ → ℕ)
        → Reached (record {
          kernel = os_init (Context U) p before memory;
          running = λ cpu. booting;
          lock = 0;
        })
    computes :
        (cpu : ℕ) (u u' : U) (m : Machine)
        → Reached m
        → cpu < p.ncpu
        → m.running cpu ≡ in_user u
        → Reached (record m { running = update m.running cpu (in_user u') })
    calls :
        (cpu : ℕ) (u : U) (m : Machine)
        → Reached m
        → cpu < p.ncpu
        → m.running cpu ≡ in_user u
        → Reached (record m {
          kernel = record m.kernel { intr = update m.kernel.intr cpu true };
          running = update m.running cpu (in_call u opened);
        })
    steps :
        (cpu : ℕ) (m m' : Machine)
        → Reached m
        → cpu < p.ncpu
        → call_step cpu (m.running cpu) m ≡ some m'
        → Reached m'
    faults :
        (cpu ref : ℕ) (u : U) (back : Context U) (m : Machine) (k' : Kernel (Context U) p)
        → Reached m
        → cpu < p.ncpu
        → m.running cpu ≡ in_user u
        → os_interrupt (Context U) p (event_pagefault ref) cpu (m.running cpu) m.kernel
          ≡ some (back, k')
        → Reached (record m { kernel = k'; running = update m.running cpu back })
    switches :
        (cpu : ℕ) (back : Context U) (m : Machine) (k' : Kernel (Context U) p)
        → Reached m
        → cpu < p.ncpu
        → (m.running cpu ≡ booting) ⊎ (m.kernel.intr cpu ≡ true)
        → os_interrupt (Context U) p event_other cpu (m.running cpu) m.kernel ≡ some (back, k')
        → Reached (record m {
          kernel = record k' { intr = update k'.intr cpu true };
          running = update m.running cpu back;
        })
