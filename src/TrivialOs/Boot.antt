-- ===== src/TrivialOs/Boot.antt =====
-- What `os_init` leaves to the scheduler.
use the_code_back_up_in_ubun.Base.{
  ℕ, zero, suc, ◌+◌, ◌*◌, ◌≤◌, ◌<◌, ◌≡◌, refl, ap, ◌∙◌, Option, none, set_range, set_range_lem,
  arith,
}
use the_code_back_up_in_ubun.Scheduler as Sched
use the_code_back_up_in_ubun.TrivialOs.{
  kalloc, Platform, proc_create, proc_create_all, clear_currents, os_init,
}

module _ {ℓ} {C : Type ℓ} (p : Platform C) where
  proc_create_all-set_range :
      (rounds i : ℕ) (made : (ℕ → C) × (ℕ × (ℕ → ℕ)))
      → (proc_create_all C p rounds i made).0 ≡ set_range p.ucontext rounds i made.0
  unfolding proc_create_all proc_create
  proc_create_all-set_range zero i made = refl
  proc_create_all-set_range (suc rounds) i made = proc_create_all-set_range rounds (i + 1) _

  clear_currents-set_range :
      (rounds i : ℕ) (current : ℕ → Option ℕ)
      → clear_currents C p rounds i current ≡ set_range (λ cpu. none) rounds i current
  unfolding clear_currents
  clear_currents-set_range zero i current = refl
  clear_currents-set_range (suc rounds) i current = clear_currents-set_range rounds (i + 1) _

  -- Each of the five tasks has the context that was made for it, and no CPU has a task.
  pub os_init_lem :
      (before : Sched.State C) (memory : ℕ → ℕ) (t cpu : ℕ)
      → t < 5
      → cpu < p.ncpu
      → ((os_init C p before memory).sched.context t ≡ p.ucontext t)
        × ((os_init C p before memory).sched.current cpu ≡ none)
  unfolding os_init
  os_init_lem before memory t cpu t_lt cpu_lt =
      let heap : ℕ × (ℕ → ℕ) =
        ((kalloc p.round_up p.heap_start (p.ncpu * 8) p.vme_brk).1, memory) in
      (
        ap (λ f. f t) (proc_create_all-set_range 5 0 (before.context, heap))
            ∙ set_range_lem p.ucontext 5 0 t before.context (omega arith) (omega arith),
        ap (λ f. f cpu) (clear_currents-set_range p.ncpu 0 before.current)
            ∙ set_range_lem (λ c. none) p.ncpu 0 cpu before.current (omega arith) (omega arith),
      )

  -- If `_protect` does not lower `brk`, making the tasks does not.
  pub proc_create_all-grows :
      (grows : (t : ℕ) (heap : ℕ × (ℕ → ℕ)) → heap.0 ≤ (p.protect t heap).0) (rounds i : ℕ)
      (made : (ℕ → C) × (ℕ × (ℕ → ℕ)))
      → made.1.0 ≤ (proc_create_all C p rounds i made).1.0
  unfolding proc_create_all proc_create
  proc_create_all-grows grows zero i made = omega arith
  proc_create_all-grows grows (suc rounds) i made =
      omega
        (arith, grows i made.1, proc_create_all-grows grows rounds (i + 1) (proc_create C p i made))
