-- ===== src/Scheduler/Apart.antt =====
-- The states that the interrupts of trivial-os.c reach, on one CPU after another in any order.
use the_code_back_up_in_ubun.Base.{
  ℕ, ◌<◌, ◌≤◌, ◌≡◌, ◌≢◌, sym, subst, ap, ◌∙◌, Option, none, some, arith,
}
use the_code_back_up_in_ubun.Scheduler.{State, schedule}
use the_code_back_up_in_ubun.Scheduler.Multi.{Placed, schedule-Switched}

module _ {ℓ} (C : Type ℓ) where
  -- From any contexts that proc_create made, and no current task.
  pub data Reach (ncpu : ℕ) : State C → Type ℓ where
    booted : (context : ℕ → C) → Reach ncpu (record { context = context; current = λ cpu. none })
    interrupt :
        {s s' : State C} (cpu : ℕ) (ctx back : C)
        → Reach ncpu s
        → cpu < ncpu
        → schedule C ncpu cpu ctx s ≡ some (back, s')
        → Reach ncpu s'

  returned : Option (C × State C) → State C → State C
  returned none s = s
  returned (some p) s = p.1

  Reach-Placed : (ncpu : ℕ) {s : State C} → ncpu ≤ 5 → Reach ncpu s → Placed C ncpu s
  unfolding returned
  Reach-Placed ncpu le (booted context) = λ c t lt e. absurd (ground arith)
  Reach-Placed ncpu le (interrupt {s} {s'} cpu ctx back r lt e) =
      let (t, s'', e', after) =
        schedule-Switched C ncpu cpu ctx s lt (omega arith) (Reach-Placed ncpu le r) in
      subst (Placed C ncpu) (ap (λ o. returned o s) (sym e' ∙ e)) after.placed

  -- With five CPUs at most, a task that is current on one CPU is current on no other in any state
  -- that is reached.
  pub schedule_apart :
      (ncpu : ℕ) (s : State C) (t cpu other : ℕ)
      → ncpu ≤ 5
      → Reach ncpu s
      → cpu < ncpu
      → other < ncpu
      → cpu ≢ other
      → s.current cpu ≡ some t
      → s.current other ≢ some t
  schedule_apart ncpu s t cpu other le r lt lt' apart e e' =
      let placed = Reach-Placed ncpu le r in
      apart (sym (placed cpu t lt e).1 ∙ (placed other t lt' e').1)
