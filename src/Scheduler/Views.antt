-- ===== src/Scheduler/Views.antt =====
-- Where each task of thread-os-mp.c and trivial-os.c stands: on the CPU that it is current on, with
-- what the CPU runs, or where it was interrupted. An interrupt moves no task.
use the_code_back_up_in_ubun.Base.{
  ℕ, ◌%◌, ◌<◌, ◌≡◌, ◌≢◌, refl, sym, ap, ◌∙◌, false, Option, none, some, ◌==◌, if◌then◌else◌, update,
  update_other, arith, Bool-cases, inl, inr,
}
use the_code_back_up_in_ubun.Scheduler.{State}
use the_code_back_up_in_ubun.Scheduler.Multi.{Placed, Switched}

module _ {ℓ} {C : Type ℓ} where
  -- The context of the CPU for its current task, else the one that is saved.
  abbrev pub pick : Option ℕ → ℕ → C → C → C
  pick none t on_cpu saved = saved
  pick (some u) t on_cpu saved = if u == t then on_cpu else saved

  abbrev pub view : ℕ → State C → (ℕ → C) → ℕ → C
  view ncpu s running t = pick (s.current (t % ncpu)) t (running (t % ncpu)) (s.context t)

  -- With the current task p of the CPU before, and t behind: both are saved or loaded.
  pick_same :
      (before : Option ℕ) (t u : ℕ) (on_cpu : C) (context context' : ℕ → C)
      → ((p : ℕ) → before ≡ some p → context' p ≡ on_cpu)
      → ((p : ℕ) → before ≢ some p → context' p ≡ context p)
      → pick (some t) u (context' t) (context' u) ≡ pick before u on_cpu (context u)
  pick_same none t u on_cpu context context' saved kept = elim (Bool-cases (t == u)) [
    | inl e ↦ rw e (ap context' (ground (arith, e)) ∙ kept u (λ h. cc))
    | inr e ↦ rw e (kept u (λ h. cc))
  ]
  pick_same (some p) t u on_cpu context context' saved kept = elim (Bool-cases (p == u)) [
    | inl mine ↦ rw mine (whichever ∙ (ap context' (ground (arith, mine)) ∙ saved p refl))
    | inr other ↦ rw other (whichever ∙ kept u (λ h. ground (arith, other)))
  ]
    where
      whichever : pick (some t) u (context' t) (context' u) ≡ context' u
      whichever = elim (Bool-cases (t == u)) [
        | inl e ↦ rw e (ap context' (ground (arith, e)))
        | inr e ↦ rw e refl
      ]

  -- Behind the interrupt each task stands where it stood.
  pub view-Switched :
      (ncpu cpu t : ℕ) (s s' : State C) (running : ℕ → C)
      → Placed C ncpu s
      → cpu < ncpu
      → Switched C ncpu cpu (running cpu) s s' t
      → (u : ℕ) → view ncpu s' (update running cpu (s'.context t)) u ≡ view ncpu s running u
  view-Switched ncpu cpu t s s' running placed on_board sw u = elim (Bool-cases (u % ncpu == cpu)) [
    | inl here ↦
        let e : u % ncpu ≡ cpu = ground (arith, here) in
        let run : update running cpu (s'.context t) (u % ncpu) ≡ s'.context t =
          ground (arith, here) in
        rw (ap s'.current e ∙ sw.chosen, run)
          (pick_same (s.current cpu) t u (running cpu) s.context s'.context sw.saved sw.kept
            ∙ ap (λ c. pick (s.current c) u (running c) (s.context u)) (sym e))
    | inr there ↦
        let ne : u % ncpu ≢ cpu = ground (arith, there) in
        let away : s.current cpu ≢ some u = (λ h. ne (placed cpu u on_board h).1) in
        rw
          (
            sw.others (u % ncpu) ne,
            update_other running (s'.context t) (λ q. ne (sym q)),
            sw.kept u away,
          )
          refl
  ]

  -- A step of the task t on its CPU moves this task alone.
  pub view-moved :
      (ncpu cpu t : ℕ) (s : State C) (running : ℕ → C) (c : C)
      → s.current cpu ≡ some t
      → t % ncpu ≡ cpu
      → (u : ℕ)
      → view ncpu s (update running cpu c) u ≡ (if t == u then c else view ncpu s running u)
  view-moved ncpu cpu t s running c now own u = elim (Bool-cases (u % ncpu == cpu)) [
    | inl here ↦
        let h : u % ncpu ≡ cpu = ground (arith, here) in
        let run : update running cpu c (u % ncpu) ≡ c = ground (arith, here) in
        rw (run, ap s.current h ∙ now)
          (elim (Bool-cases (t == u)) [ inl b ↦ rw b refl | inr b ↦ rw b refl ])
    | inr there ↦
        let ne : u % ncpu ≢ cpu = ground (arith, there) in
        let b : (t == u) ≡ false = ground (arith, there, own) in
        rw (b, update_other running c (λ q. ne (sym q))) refl
  ]
