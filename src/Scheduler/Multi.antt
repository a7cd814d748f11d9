-- ===== src/Scheduler/Multi.antt =====
-- The interrupt handlers of thread-os-mp.c and trivial-os.c: the search ends, each CPU has tasks of
-- its own, and a task gets the context back that was saved for it.
use native.Mathlib.Nat.{mod-eq_of_lt, mod_self, mod-le}
use the_code_back_up_in_ubun.Base.{
  ℕ, zero, suc, ◌+◌, ◌-◌, ◌%◌, ◌<◌, ◌≤◌, ◌≡◌, ◌≢◌, refl, sym, ◌∙◌, true, Option, none, some, ◌==◌,
  if◌then◌else◌, update, update_self, update_other, arith, ltb, Bool-cases, inl, inr,
}
use the_code_back_up_in_ubun.Scheduler.{
  State, save, next_task, step_task, seek, start, switch, mp_interrupt, schedule,
}

module _ {ℓ} (C : Type ℓ) where
  -- The rounds of the search from t to the task `cpu`.
  abbrev pub distance : ℕ → ℕ → ℕ → ℕ
  distance n cpu t = if ltb t cpu then cpu - t else (cpu + n) - t

  -- Over n tasks, `next` in the file with the ring goes where `++current` goes in the other.
  pub next_task-step_task : (n t : ℕ) → t < n → next_task C n t ≡ step_task C n t
  unfolding next_task step_task
  next_task-step_task n t lt = elim (Bool-cases (t + 1 == n)) [
    | inl e ↦ rw e (rw (at_end n t e) (mod_self n))
    | inr e ↦ rw e (mod-eq_of_lt (ground arith))
  ]
    where
      at_end : (n t : ℕ) → (t + 1 == n) ≡ true → t + 1 ≡ n
      at_end n t e = ground arith

  pub step_task-lt : (n t : ℕ) → t < n → step_task C n t < n
  unfolding step_task
  step_task-lt n t lt = ground arith

  pub nearer :
      (n cpu fuel t : ℕ)
      → t < n
      → cpu < n
      → step_task C n t ≢ cpu
      → distance n cpu t ≤ suc fuel
      → distance n cpu (step_task C n t) ≤ fuel
  unfolding step_task
  nearer n cpu fuel t lt on_ring apart le = ground arith

  seek_ends :
      (n ncpu cpu fuel t : ℕ)
      → t < n
      → cpu < n
      → cpu < ncpu
      → distance n cpu t ≤ fuel
      → (u : ℕ) × (seek C (step_task C n) ncpu cpu fuel t ≡ some u) × (u < n) × (u % ncpu ≡ cpu)
  unfolding seek
  seek_ends n ncpu cpu zero t lt on_ring on_board le = absurd (ground arith)
  seek_ends n ncpu cpu (suc fuel) t lt on_ring on_board le =
      elim (Bool-cases (step_task C n t % ncpu == cpu)) [
        | inl e ↦ (step_task C n t, rw e, step_task-lt n t lt, ground arith)
        | inr e ↦
            let own : cpu % ncpu ≡ cpu = mod-eq_of_lt on_board in
            let apart : step_task C n t ≢ cpu = (λ h. absurd (ground arith)) in
            let (u, found, small, placed) =
              seek_ends n ncpu cpu fuel (step_task C n t) (step_task-lt n t lt) on_ring on_board
                (nearer n cpu fuel t lt on_ring apart le) in
            (u, rw e found, small, placed)
      ]

  -- A remainder is no larger than the number, so no task has the remainder n or a larger one.
  seek_stuck :
      (next : ℕ → ℕ) (n ncpu cpu fuel t : ℕ)
      → ((k : ℕ) → next k % ncpu < n)
      → n ≤ cpu
      → seek C next ncpu cpu fuel t ≡ none
  unfolding seek
  seek_stuck next n ncpu cpu zero t small out = refl
  seek_stuck next n ncpu cpu (suc fuel) t small out =
      ground (arith, small t, seek_stuck next n ncpu cpu fuel (next t) small out)

  seek_same :
      (n ncpu cpu fuel t : ℕ)
      → t < n
      → seek C (next_task C n) ncpu cpu fuel t ≡ seek C (step_task C n) ncpu cpu fuel t
  unfolding seek
  seek_same n ncpu cpu zero t lt = refl
  seek_same n ncpu cpu (suc fuel) t lt =
      rw (next_task-step_task n t lt)
        (rw (seek_same n ncpu cpu fuel (step_task C n t) (step_task-lt n t lt)) refl)

  -- Each CPU has a task whose index leaves the number of the CPU, or none yet.
  abbrev pub Placed : ℕ → State C → Type 0
  Placed ncpu s = (cpu t : ℕ) → cpu < ncpu → s.current cpu ≡ some t → (t < 5) × (t % ncpu ≡ cpu)

  pub start-small :
      (ncpu cpu : ℕ) (s : State C) → cpu < ncpu → Placed ncpu s → start C (s.current cpu) < 5
  start-small ncpu cpu s on_board placed = go (s.current cpu) (placed cpu)
    where
      go :
          (o : Option ℕ)
          → ((t : ℕ) → cpu < ncpu → o ≡ some t → (t < 5) × (t % ncpu ≡ cpu))
          → start C o < 5
      go none h = omega arith
      go (some t) h = (h t on_board refl).0

  pub switch_found :
      (next : ℕ → ℕ) (fuel ncpu cpu : ℕ) (ctx : C) (s : State C) (o : Option ℕ)
      → seek C next ncpu cpu fuel (start C (s.current cpu)) ≡ o
      → switch C next fuel ncpu cpu ctx s ≡ elim o [
        | none ↦ none
        | some t ↦
            let context = save C (s.current cpu) ctx s.context in
            some (context t, record { context = context; current = update s.current cpu (some t) })
      ]
  unfolding switch
  switch_found next fuel ncpu cpu ctx s o e = rw (e, switch) refl

  -- The two handlers are one function on the states in which each CPU has a task of its own.
  pub mp_interrupt-schedule :
      (ncpu cpu : ℕ) (ctx : C) (s : State C)
      → cpu < ncpu
      → Placed ncpu s
      → mp_interrupt C ncpu cpu ctx s ≡ schedule C ncpu cpu ctx s
  unfolding mp_interrupt schedule
  mp_interrupt-schedule ncpu cpu ctx s on_board placed =
      switch_found (next_task C 5) 5 ncpu cpu ctx s _
        (seek_same 5 ncpu cpu 5 (start C (s.current cpu)) (start-small ncpu cpu s on_board placed))
      ∙ sym (switch_found (step_task C 5) 5 ncpu cpu ctx s _ refl)

  update-Placed :
      (ncpu cpu t : ℕ) (context : ℕ → C) (s : State C)
      → Placed ncpu s
      → t < 5
      → t % ncpu ≡ cpu
      → Placed ncpu (record { context = context; current = update s.current cpu (some t) })
  update-Placed ncpu cpu t context s placed small own c u lt e = elim (Bool-cases (c == cpu)) [
    | inl same ↦ ground arith
    | inr apart ↦ placed c u lt (ground arith)
  ]

  save_lem :
      (o : Option ℕ) (ctx : C) (context : ℕ → C)
      → ((p : ℕ) → o ≡ some p → save C o ctx context p ≡ ctx)
        × ((p : ℕ) → o ≢ some p → save C o ctx context p ≡ context p)
  unfolding save
  save_lem none ctx context = ((λ p e. absurd (ground arith)), λ p apart. refl)
  save_lem (some t) ctx context = ((λ p e. ground arith), λ p apart. ground arith)

  -- What an interrupt on `cpu` leaves behind: `t` is the task that goes on there.
  pub record Switched (ncpu cpu : ℕ) (ctx : C) (s s' : State C) (t : ℕ) : Type ℓ where
    pub chosen : s'.current cpu ≡ some t
    pub placed : Placed ncpu s'
    pub others : (c : ℕ) → c ≢ cpu → s'.current c ≡ s.current c
    pub saved : (p : ℕ) → s.current cpu ≡ some p → s'.context p ≡ ctx
    pub kept : (p : ℕ) → s.current cpu ≢ some p → s'.context p ≡ s.context p

  -- On one of the first five CPUs, if each CPU has a task of its own or none yet, the search of an
  -- interrupt ends; the CPU goes on with the context of a task of its own, the interrupted task
  -- keeps its context until it goes on, no other task's context is changed, and no other CPU's task.
  pub schedule-Switched :
      (ncpu cpu : ℕ) (ctx : C) (s : State C)
      → cpu < ncpu
      → cpu < 5
      → Placed ncpu s
      → (t : ℕ) × (s' : State C) × (schedule C ncpu cpu ctx s ≡ some (s'.context t, s'))
        × Switched ncpu cpu ctx s s' t
  unfolding schedule
  schedule-Switched ncpu cpu ctx s on_board on_ring placed =
      let (t, found, small, own) =
        seek_ends 5 ncpu cpu 5 (start C (s.current cpu)) (start-small ncpu cpu s on_board placed)
          on_ring on_board (ground (arith, start-small ncpu cpu s on_board placed)) in
      let context : ℕ → C = save C (s.current cpu) ctx s.context in
      let (saved, kept) = save_lem (s.current cpu) ctx s.context in
      (
        t,
        record { context = context; current = update s.current cpu (some t) },
        switch_found (step_task C 5) 5 ncpu cpu ctx s (some t) found,
        record {
          chosen = update_self s.current cpu (some t);
          placed = update-Placed ncpu cpu t context s placed small own;
          others = λ c apart. update_other s.current (some t) (λ e. apart (sym e));
          saved = saved;
          kept = kept;
        },
      )

  -- On a sixth CPU and those behind it the search never ends.
  pub switch_stuck :
      (fuel ncpu cpu : ℕ) (ctx : C) (s : State C)
      → 5 ≤ cpu
      → switch C (next_task C 5) fuel ncpu cpu ctx s ≡ none
  unfolding next_task
  switch_stuck fuel ncpu cpu ctx s out = switch_found (next_task C 5) fuel ncpu cpu ctx s none (
      seek_stuck (next_task C 5) 5 ncpu cpu fuel (start C (s.current cpu))
        (λ k. omega (arith, mod-le ((k + 1) % 5) ncpu)) out)
