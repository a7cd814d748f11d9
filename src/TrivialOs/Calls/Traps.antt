-- ===== src/TrivialOs/Calls/Traps.antt =====
-- What the interrupts keep of the system calls of trivial-os.c, and every machine that they and the
-- calls lead to.
use the_code_back_up_in_ubun.Base.{
  ℕ, ◌%◌, ◌<◌, ◌≤◌, ◌≡◌, ◌≢◌, ◌⊎◌, refl, sym, subst, ap, ◌∙◌, true, Option, none, some, ◌==◌, All,
  update, update_other, arith, Bool-cases, Option-cases, inl, inr,
}
use the_code_back_up_in_ubun.Scheduler as Sched
use the_code_back_up_in_ubun.Scheduler.Multi.{Switched, schedule-Switched}
use the_code_back_up_in_ubun.Scheduler.Views.{view, view-Switched}
use the_code_back_up_in_ubun.Scheduler.Guarded.{Guarded-stay}
use the_code_back_up_in_ubun.TrivialOs.{
  Platform, Kernel, event_pagefault, event_other, os_init, os_interrupt, proc_pagefault,
}
use the_code_back_up_in_ubun.TrivialOs.Boot.{os_init_lem}
use the_code_back_up_in_ubun.TrivialOs.Calls.{
  opened, Context, booting, in_user, in_call, Machine, Reached, booted, computes, calls, steps,
  faults, switches,
}
use the_code_back_up_in_ubun.TrivialOs.Calls.Stages.{inside, masked, is_task, IsLine, at, Inv}
use the_code_back_up_in_ubun.TrivialOs.Calls.Steps.{After, stay-Inv, call_step-After}
use native.Mathlib.Nat.{mod-lt}

module _ {U : Type 0} (p : Platform (Context U)) where
  module _ (le : p.ncpu ≤ 5) where
    -- What the scheduler does to the machine.
    Switching : Machine p → ℕ → Option (Context U × Kernel (Context U) p) → Type 0
    Switching m cpu none = Unit
    Switching m cpu (some (back, k')) = Inv p (record m {
      kernel = record k' { intr = update k'.intr cpu true };
      running = update m.running cpu back;
    })

    -- The task that is switched from is not where the interrupts are off.
    switch-Inv :
        (m : Machine p) (cpu t : ℕ) (s' : Sched.State (Context U))
        → Inv p m
        → cpu < p.ncpu
        → (m.running cpu ≡ booting) ⊎ (m.kernel.intr cpu ≡ true)
        → Switched (Context U) p.ncpu cpu (m.running cpu) m.kernel.sched s' t
        → Inv p (record m {
          kernel = record m.kernel { sched = s'; intr = update m.kernel.intr cpu true };
          running = update m.running cpu (s'.context t);
        })
    switch-Inv m cpu t s' h lt free sw = record {
      placed = sw.placed;
      idle = λ x x_lt e. elim (Bool-cases (cpu == x)) [
        | inl here ↦
            absurd
              (ground (arith, sw.chosen, e, ap s'.current {x = cpu} {y = x} (ground (arith, here))))
        | inr there ↦ rw there (h.idle x x_lt (sym (sw.others x (ground (arith, there))) ∙ e))
      ];
      own = λ u small. ap is_task (same u) ∙ h.own u small;
      guarded =
          Guarded-stay (λ u. inside (at p m u)) (λ u. inside (view p.ncpu s' running' u)) m.lock 0
            (omega arith) h.guarded
            (λ u. ap inside (same u) ∙ elim (Bool-cases (0 == u)) [
              | inl e ↦ rw e (ap (λ x. inside (at p m x)) (ground (arith, e)))
              | inr e ↦ rw e refl
            ]);
      quiet = λ u small e.
          let (theirs, off) = h.quiet u small (ap masked (sym (same u)) ∙ e) in
          let away : u % p.ncpu ≢ cpu = (λ q. elim free [
            | inl b ↦
                let is : at p m u ≡ booting = ground (arith, theirs, b, ap m.running q) in
                absurd (ground (arith, is, ap masked (same u), e))
            | inr on ↦ absurd (ground (arith, on, off, ap m.kernel.intr q))
          ]) in
          (
            sw.others (u % p.ncpu) away ∙ theirs,
            update_other m.kernel.intr true (λ q. away (sym q)) ∙ off,
          );
      lines = h.lines;
    }
      where
        running' : ℕ → Context U
        running' = update m.running cpu (s'.context t)

        same : (u : ℕ) → view p.ncpu s' running' u ≡ at p m u
        same = view-Switched p.ncpu cpu t m.kernel.sched s' m.running h.placed lt sw

  -- A page fault leaves the scheduler, the interrupts and the output alone, and goes back.
  Faulted : Kernel (Context U) p → Context U → Option (Context U × Kernel (Context U) p) → Type 0
  Faulted k ctx none = Unit
  Faulted k ctx (some (back, k')) =
      (back ≡ ctx) × (k'.sched ≡ k.sched) × (k'.intr ≡ k.intr) × (k'.output ≡ k.output)

  fault-Faulted :
      (cpu ref : ℕ) (ctx : Context U) (k : Kernel (Context U) p)
      → Faulted k ctx (os_interrupt (Context U) p (event_pagefault ref) cpu ctx k)
  unfolding Faulted os_interrupt proc_pagefault
  fault-Faulted cpu ref ctx k = elim (Option-cases (k.sched.current cpu)) [
    | inl nobody ↦ rw (nobody, os_interrupt, proc_pagefault) tt
    | inr (t, now) ↦ rw (now, os_interrupt, proc_pagefault) (refl, refl, refl, refl)
  ]

  module _ (some_cpu : 1 ≤ p.ncpu) (programs : (t : ℕ) → (u : U) × (p.ucontext t ≡ in_user u)) where
    booted-Inv :
        (before : Sched.State (Context U)) (memory : ℕ → ℕ)
        → Inv p (record {
          kernel = os_init (Context U) p before memory;
          running = λ cpu. booting;
          lock = 0;
        })
    unfolding os_init
    booted-Inv before memory = record {
      placed = λ cpu t lt e.
          absurd (ground (arith, e, (os_init_lem p before memory 0 cpu (omega arith) lt).1));
      idle = λ cpu lt e. refl;
      own = λ t lt. ap is_task (starts t lt).1;
      guarded = record {
        taken = λ t lt e. absurd (out t lt e);
        unique = λ t u lt lt' e e'. absurd (out t lt e);
        held = λ w. absurd (omega arith);
        bit = omega arith;
      };
      quiet = λ t lt e. absurd (ground (arith, e, (starts t lt).1));
      lines = tt;
    }
      where
        k : Kernel (Context U) p
        k = os_init (Context U) p before memory

        starts : (t : ℕ) → t < 5 → (u : U) × (view p.ncpu k.sched (λ cpu. booting) t ≡ in_user u)
        starts t lt =
            let (fresh, nobody) =
              os_init_lem p before memory t (t % p.ncpu) lt (mod-lt t some_cpu) in
            let (u, e) = programs t in (u, rw nobody (fresh ∙ e))

        out : (t : ℕ) → t < 5 → inside (view p.ncpu k.sched (λ cpu. booting) t) ≢ true
        out t lt e = ground (arith, e, (starts t lt).1)

    pub Reached-Inv : (le : p.ncpu ≤ 5) (m : Machine p) → Reached p m → Inv p m
    unfolding After Faulted Switching os_interrupt
    Reached-Inv le _ (booted before memory) = booted-Inv before memory
    Reached-Inv le _ (computes cpu u u' m r lt e) =
        let h = Reached-Inv le m r in
        stay-Inv p m cpu (in_user u) (in_user u') h lt e refl m.kernel refl refl (λ w. cc)
          (λ x ne. refl) h.lines refl
    Reached-Inv le _ (calls cpu u m r lt e) =
        let h = Reached-Inv le m r in
        stay-Inv p m cpu (in_user u) (in_call u opened) h lt e refl
          (record m.kernel { intr = update m.kernel.intr cpu true }) refl refl (λ w. cc)
          (λ x ne. update_other m.kernel.intr true (λ q. ne (sym q))) h.lines refl
    Reached-Inv le _ (steps cpu m m' r lt e) =
        subst (After p) e (call_step-After p m cpu (m.running cpu) (Reached-Inv le m r) lt refl)
    Reached-Inv le _ (faults cpu ref u back m k' r lt at_user e) =
        let h = Reached-Inv le m r in
        let (same_ctx, same, intr, output) =
          subst (Faulted m.kernel (m.running cpu)) e
            (fault-Faulted cpu ref (m.running cpu) m.kernel) in
        rw (same_ctx, at_user)
          (stay-Inv p m cpu (in_user u) (in_user u) h lt at_user refl k' same refl (λ w. cc)
            (λ x ne. ap (λ f. f x) intr) (subst (All (IsLine p.ncpu)) (sym output) h.lines) refl)
    Reached-Inv le _ (switches cpu back m k' r lt free e) =
        let h = Reached-Inv le m r in
        let (t, s', found, sw) =
          schedule-Switched (Context U) p.ncpu cpu (m.running cpu) m.kernel.sched lt (omega arith)
            h.placed in
        let made : os_interrupt (Context U) p event_other cpu (m.running cpu) m.kernel
            ≡ some (s'.context t, record m.kernel { sched = s' }) =
          rw (found, os_interrupt) refl in
        subst (Switching le m cpu) (sym made ∙ e) (switch-Inv le m cpu t s' h lt free sw)
