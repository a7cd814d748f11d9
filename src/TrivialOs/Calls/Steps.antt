-- ===== src/TrivialOs/Calls/Steps.antt =====
-- What each step of proc_syscall in trivial-os.c keeps.
use the_code_back_up_in_ubun.Base.{
  ℕ, ◌+◌, ◌%◌, ◌<◌, ◌≡◌, ◌≢◌, refl, sym, subst, ap, ◌∙◌, true, false, Option, none, some, List, [],
  ◌∷◌, ◌++◌, ◌==◌, All, update, update_self, update_other, arith, Bool-cases, Option-cases, inl,
  inr,
}
use the_code_back_up_in_ubun.SpinLock.{lock_round, unlock}
use the_code_back_up_in_ubun.Scheduler.Guarded.{Guarded-stay, Guarded-enter, Guarded-leave}
use the_code_back_up_in_ubun.TrivialOs.{Platform, Kernel, Puts}
use the_code_back_up_in_ubun.TrivialOs.Calls.{
  opened, located, spinning, acquired, printed, released, leaving, Context, booting, in_user,
  in_call, Machine, call_step,
}
use the_code_back_up_in_ubun.TrivialOs.Calls.Stages.{
  inside, masked, is_task, IsLine, at, Inv, current_runs, next, next-Moves, next-Inv,
}

module _ {U : Type 0} (p : Platform (Context U)) where
  unfoldable pub After : Option (Machine p) → Type 0
  After none = Unit
  After (some m) = Inv p m

  module _ (m : Machine p) (cpu : ℕ) (c0 c : Context U) (h : Inv p m) (on_board : cpu < p.ncpu)
      (here : m.running cpu ≡ c0) (task0 : is_task c0 ≡ true) (k' : Kernel (Context U) p)
      (same : k'.sched ≡ m.kernel.sched) (tasks : is_task c ≡ true)
      (mask : masked c ≡ true → k'.intr cpu ≡ false)
      (others : (x : ℕ) → x ≢ cpu → k'.intr x ≡ m.kernel.intr x)
      (lines : All (IsLine p.ncpu) k'.output) where
    -- A step that keeps the word, and neither enters nor leaves.
    pub stay-Inv :
        inside c ≡ inside c0
        → Inv p (record { kernel = k'; running = update m.running cpu c; lock = m.lock })
    unfolding next
    stay-Inv ins =
        let (t, now, small, own, is_at) = current_runs p m cpu h on_board (rw here task0) in
        let m' = next p m h cpu t now small own k' m.lock c same in
        next-Inv p m h cpu t now small own k' m.lock c same tasks
          (Guarded-stay (λ u. inside (at p m u)) (λ u. inside (at p m' u)) m.lock t small h.guarded
            (next-Moves p m h cpu t now small own k' m.lock c same (inside (at p m t))
              (ins ∙ sym (ap inside (is_at ∙ here)))))
          mask others lines

    enter-Inv :
        inside c ≡ true
        → m.lock ≡ 0
        → Inv p (record { kernel = k'; running = update m.running cpu c; lock = 1 })
    unfolding next
    enter-Inv ins free =
        let (t, now, small, own, is_at) = current_runs p m cpu h on_board (rw here task0) in
        let m' = next p m h cpu t now small own k' 1 c same in
        next-Inv p m h cpu t now small own k' 1 c same tasks
          (Guarded-enter (λ u. inside (at p m u)) (λ u. inside (at p m' u)) m.lock t small h.guarded
            (next-Moves p m h cpu t now small own k' 1 c same true ins) free)
          mask others lines

    leave-Inv :
        inside c ≡ false
        → inside c0 ≡ true
        → Inv p (record { kernel = k'; running = update m.running cpu c; lock = 0 })
    unfolding next
    leave-Inv out was =
        let (t, now, small, own, is_at) = current_runs p m cpu h on_board (rw here task0) in
        let m' = next p m h cpu t now small own k' 0 c same in
        next-Inv p m h cpu t now small own k' 0 c same tasks
          (Guarded-leave (λ u. inside (at p m u)) (λ u. inside (at p m' u)) m.lock t small h.guarded
            (next-Moves p m h cpu t now small own k' 0 c same false out)
            (ap inside (is_at ∙ here) ∙ was))
          mask others lines

  IsLine-snoc :
      (ls : List Puts) (l : Puts)
      → All (IsLine p.ncpu) ls
      → IsLine p.ncpu l
      → All (IsLine p.ncpu) (ls ++ l ∷ [])
  IsLine-snoc [] l hs h = (h, tt)
  IsLine-snoc (k ∷ ls) l (g, hs) h = (g, IsLine-snoc ls l hs h)

  -- Where the interrupts are turned off they are off.
  off :
      (m : Machine p) (cpu : ℕ) (c0 : Context U)
      → Inv p m
      → cpu < p.ncpu
      → m.running cpu ≡ c0
      → is_task c0 ≡ true
      → masked c0 ≡ true
      → m.kernel.intr cpu ≡ false
  off m cpu c0 h lt e task0 mask0 =
      let (t, now, small, own, is_at) = current_runs p m cpu h lt (rw e task0) in
      ap m.kernel.intr (sym own) ∙ (h.quiet t small (ap masked (is_at ∙ e) ∙ mask0)).1

  pub call_step-After :
      (m : Machine p) (cpu : ℕ) (c : Context U)
      → Inv p m
      → cpu < p.ncpu
      → m.running cpu ≡ c
      → After (call_step p cpu c m)
  unfolding After call_step lock_round unlock
  call_step-After m cpu booting h lt e = tt
  call_step-After m cpu (in_user u) h lt e = tt
  call_step-After m cpu (in_call u opened) h lt e =
      elim (Option-cases (m.kernel.sched.current cpu)) [
        | inl nobody ↦ rw (nobody, call_step) tt
        | inr (t, now) ↦
            rw (now, call_step)
              (stay-Inv m cpu (in_call u opened) _ h lt e refl m.kernel refl refl (λ w. cc)
                (λ x ne. refl) h.lines refl)
      ]
  call_step-After m cpu (in_call u (located pa)) h lt e =
      stay-Inv m cpu (in_call u (located pa)) (in_call u (spinning pa)) h lt e refl
        (record m.kernel { intr = update m.kernel.intr cpu false }) refl refl
        (λ w. update_self m.kernel.intr cpu false)
        (λ x ne. update_other m.kernel.intr false (λ q. ne (sym q))) h.lines refl
  call_step-After m cpu (in_call u (spinning pa)) h lt e = elim (Bool-cases (m.lock == 0)) [
    | inl free ↦
        rw (free, call_step)
          (enter-Inv m cpu (in_call u (spinning pa)) (in_call u (acquired pa)) h lt e refl m.kernel
            refl refl (λ w. off m cpu _ h lt e refl refl) (λ x ne. refl) h.lines refl
            (ground (arith, free)))
    | inr taken ↦
        let one : m.lock ≡ 1 = ground (arith, taken, h.guarded.bit) in
        rw (taken, call_step)
          (subst
            (λ w.
              Inv p
                (record m { running = update m.running cpu (in_call u (spinning pa)); lock = w }))
            one
            (stay-Inv m cpu (in_call u (spinning pa)) (in_call u (spinning pa)) h lt e refl m.kernel
              refl refl (λ w. off m cpu _ h lt e refl refl) (λ x ne. refl) h.lines refl))
  ]
  call_step-After m cpu (in_call u (acquired pa)) h lt e =
      elim (Option-cases (m.kernel.sched.current cpu)) [
        | inl nobody ↦ rw (nobody, call_step) tt
        | inr (t, now) ↦
            let (small, own) = h.placed cpu t lt now in
            let line : Puts = record { process = t + 1; cpu = cpu; string = pa } in
            rw (now, call_step)
              (stay-Inv m cpu (in_call u (acquired pa)) (in_call u printed) h lt e refl
                (record m.kernel { output = m.kernel.output ++ line ∷ [] }) refl refl
                (λ w. off m cpu _ h lt e refl refl) (λ x ne. refl)
                (IsLine-snoc m.kernel.output line h.lines
                  (omega arith, omega arith, sym own ∙ ap (λ v. v % p.ncpu) (omega arith)))
                refl)
      ]
  call_step-After m cpu (in_call u printed) h lt e =
      leave-Inv m cpu (in_call u printed) (in_call u released) h lt e refl m.kernel refl refl
        (λ w. off m cpu _ h lt e refl refl) (λ x ne. refl) h.lines refl refl
  call_step-After m cpu (in_call u released) h lt e =
      stay-Inv m cpu (in_call u released) (in_call u leaving) h lt e refl
        (record m.kernel { intr = update m.kernel.intr cpu true }) refl refl (λ w. cc)
        (λ x ne. update_other m.kernel.intr true (λ q. ne (sym q))) h.lines refl
  call_step-After m cpu (in_call u leaving) h lt e =
      stay-Inv m cpu (in_call u leaving) (in_user u) h lt e refl m.kernel refl refl (λ w. cc)
        (λ x ne. refl) h.lines refl
