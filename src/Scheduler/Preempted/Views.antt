-- ===== src/Scheduler/Preempted/Views.antt =====
-- Where each task of thread-os-mp.c stands in `func`, and what an interrupt of it does.
use the_code_back_up_in_ubun.Base.{ℕ, ◌<◌, ◌≤◌, ◌≡◌, refl, ◌∙◌, some, update, arith}
use the_code_back_up_in_ubun.Scheduler.{State, schedule}
use the_code_back_up_in_ubun.Scheduler.Multi.{
  Placed, Switched, schedule-Switched, mp_interrupt-schedule,
}
use the_code_back_up_in_ubun.Scheduler.Views.{view as task_view}
use the_code_back_up_in_ubun.Scheduler.Preempted.{Context, Machine, interrupted}

abbrev pub view : ℕ → Machine → ℕ → Context
view ncpu m = task_view ncpu m.sched m.running

-- What an interrupt does: the CPU goes on with a task of its own.
pub interrupted_lem :
    (ncpu cpu : ℕ) (m : Machine)
    → cpu < ncpu
    → ncpu ≤ 5
    → Placed Context ncpu m.sched
    → (t : ℕ) × (s' : State Context) × (interrupted ncpu cpu m
        ≡ some (record m { sched = s'; running = update m.running cpu (s'.context t) }))
      × (schedule Context ncpu cpu (m.running cpu) m.sched ≡ some (s'.context t, s'))
      × Switched Context ncpu cpu (m.running cpu) m.sched s' t
unfolding interrupted
interrupted_lem ncpu cpu m on_board le placed =
    let (t, s', e, sw) =
      schedule-Switched Context ncpu cpu (m.running cpu) m.sched on_board (omega arith) placed in
    let same = mp_interrupt-schedule Context ncpu cpu (m.running cpu) m.sched on_board placed in
    (t, s', rw (same ∙ e, interrupted) refl, e, sw)
