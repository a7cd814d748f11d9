-- ===== src/TrivialOs/Calls/Stages.antt =====
-- What the system calls of trivial-os.c keep at each step.
use the_code_back_up_in_ubun.Base.{
  ℕ, ◌-◌, ◌%◌, ◌<◌, ◌≤◌, ◌≡◌, ◌≢◌, refl, sym, subst, ap, ◌∙◌, Bool, true, false, none, some, ◌==◌,
  if◌then◌else◌, All, update, arith, Bool-cases, Option-cases, inl, inr,
}
use the_code_back_up_in_ubun.Scheduler.Multi.{Placed}
use the_code_back_up_in_ubun.Scheduler.Views.{view, view-moved}
use the_code_back_up_in_ubun.Scheduler.Guarded.{Guarded, Moves}
use the_code_back_up_in_ubun.TrivialOs.{Platform, Kernel, Puts}
use the_code_back_up_in_ubun.TrivialOs.Calls.{
  spinning, acquired, printed, released, Context, booting, in_call, Machine,
}

module _ {U : Type 0} where
  -- Between the exchanges of spin_lock and spin_unlock.
  abbrev pub inside : Context U → Bool
  inside (in_call u (acquired pa)) = true
  inside (in_call u printed) = true
  inside _ = false

  -- Between the `_intr_write` of spin_lock and that of spin_unlock.
  abbrev pub masked : Context U → Bool
  masked (in_call u (spinning pa)) = true
  masked (in_call u (acquired pa)) = true
  masked (in_call u printed) = true
  masked (in_call u released) = true
  masked _ = false

  abbrev pub is_task : Context U → Bool
  is_task booting = false
  is_task _ = true

-- The line is that of one of the five tasks and of its CPU.
abbrev pub IsLine : ℕ → Puts → Type 0
IsLine ncpu l = (1 ≤ l.process) × (l.process ≤ 5) × (l.cpu ≡ (l.process - 1) % ncpu)

module _ {U : Type 0} (p : Platform (Context U)) where
  -- Where a task stands.
  abbrev pub at : Machine p → ℕ → Context U
  at m = view p.ncpu m.kernel.sched m.running

  pub record Inv (m : Machine p) : Type 0 where
    pub placed : Placed (Context U) p.ncpu m.kernel.sched
    pub idle :
        (cpu : ℕ) → cpu < p.ncpu → m.kernel.sched.current cpu ≡ none → m.running cpu ≡ booting
    pub own : (t : ℕ) → t < 5 → is_task (at m t) ≡ true
    pub guarded : Guarded (λ t. inside (at m t)) m.lock
    pub quiet :
        (t : ℕ)
        → t < 5
        → masked (at m t) ≡ true
        → (m.kernel.sched.current (t % p.ncpu) ≡ some t) × (m.kernel.intr (t % p.ncpu) ≡ false)
    pub lines : All (IsLine p.ncpu) m.kernel.output

  -- A CPU behind its first interrupt runs its current task.
  pub current_runs :
      (m : Machine p) (cpu : ℕ)
      → Inv m
      → cpu < p.ncpu
      → is_task (m.running cpu) ≡ true
      → (t : ℕ) × (m.kernel.sched.current cpu ≡ some t)
        × (t < 5)
        × (t % p.ncpu ≡ cpu)
        × (at m t ≡ m.running cpu)
  current_runs m cpu h on_board e = elim (Option-cases (m.kernel.sched.current cpu)) [
    | inl nobody ↦ absurd (ground (arith, e, h.idle cpu on_board nobody))
    | inr (t, now) ↦
        let (small, placed) = h.placed cpu t on_board now in
        (t, now, small, placed, rw (placed, now) (self t))
  ]
    where
      self : (t : ℕ) → (if t == t then m.running cpu else m.kernel.sched.context t) ≡ m.running cpu
      self t = ground arith

  -- The current task t of a CPU comes to c there, and the kernel keeps its scheduler, the interrupts
  -- of the other CPUs, and lines of tasks.
  module _ (m : Machine p) (h : Inv m) (cpu t : ℕ) (now : m.kernel.sched.current cpu ≡ some t)
      (small : t < 5) (own : t % p.ncpu ≡ cpu) (k' : Kernel (Context U) p) (lock' : ℕ)
      (c : Context U) (same : k'.sched ≡ m.kernel.sched) where
    unfoldable pub next : Machine p
    next = record { kernel = k'; running = update m.running cpu c; lock = lock' }

    next-at : (u : ℕ) → at next u ≡ (if t == u then c else at m u)
    unfolding next
    next-at u =
        ap (λ s. view p.ncpu s (update m.running cpu c) u) same
        ∙ view-moved p.ncpu cpu t m.kernel.sched m.running c now own u

    pub next-Moves :
        (b : Bool) → inside c ≡ b → Moves (λ u. inside (at m u)) (λ u. inside (at next u)) t b
    next-Moves b e u =
        ap inside (next-at u)
        ∙ elim (Bool-cases (t == u)) [ inl eq ↦ rw eq e | inr ne ↦ rw ne refl ]

    pub next-Inv :
        is_task c ≡ true
        → Guarded (λ u. inside (at next u)) lock'
        → (masked c ≡ true → k'.intr cpu ≡ false)
        → ((x : ℕ) → x ≢ cpu → k'.intr x ≡ m.kernel.intr x)
        → All (IsLine p.ncpu) k'.output
        → Inv next
    unfolding next
    next-Inv tasks guarded mask others lines = record {
      placed = subst (Placed (Context U) p.ncpu) (sym same) h.placed;
      idle = λ x lt none_there. elim (Bool-cases (cpu == x)) [
        | inl here ↦
            let e : m.kernel.sched.current cpu ≡ none =
              rw (← same)
                (subst (λ y. k'.sched.current y ≡ none) (ground (arith, here)) none_there) in
            absurd (ground (arith, e, now))
        | inr there ↦ rw there (h.idle x lt (ap (λ s. s.current x) (sym same) ∙ none_there))
      ];
      own = λ u lt.
          ap is_task (next-at u)
          ∙ elim (Bool-cases (t == u)) [ inl eq ↦ rw eq tasks | inr ne ↦ rw ne (h.own u lt) ];
      guarded = guarded;
      quiet = λ u lt e. elim (Bool-cases (t == u)) [
        | inl eq ↦
            let mine : masked c ≡ true = ap masked (sym (next-at u ∙ rw eq refl)) ∙ e in
            subst (λ w. (k'.sched.current (w % p.ncpu) ≡ some w) × (k'.intr (w % p.ncpu) ≡ false))
              (ground (arith, eq))
              (
                ap (λ s. s.current (t % p.ncpu)) same ∙ (ap m.kernel.sched.current own ∙ now),
                ap k'.intr own ∙ mask mine,
              )
        | inr ne ↦
            let (theirs, off) = h.quiet u lt (ap masked (sym (next-at u ∙ rw ne refl)) ∙ e) in
            let away : u % p.ncpu ≢ cpu =
              (λ x. ground (arith, ne, theirs, now, ap m.kernel.sched.current x)) in
            (ap (λ s. s.current (u % p.ncpu)) same ∙ theirs, others (u % p.ncpu) away ∙ off)
      ];
      lines = lines;
    }
