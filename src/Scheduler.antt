-- ===== src/Scheduler.antt =====
-- The round-robin schedulers: on_interrupt of multi-threads/thread-os.c, on_interrupt of
-- multi-threads/thread-os-mp.c and schedule of multi-threads/trivial-os.c. A task is its index in
-- `tasks`; the contexts are values of a type C, a parameter, and an interrupt saves one and returns
-- one.
pub mod Apart
mod Examples
pub mod Guarded
pub mod Multi
pub mod Preempted
pub mod Single
pub mod Tasks
pub mod Views
use the_code_back_up_in_ubun.Base.{
  ℕ, zero, suc, ◌+◌, ◌%◌, Bool, true, false, Option, none, some, ◌==◌, if◌then◌else◌, update,
}

module _ {ℓ} (C : Type ℓ) where
  -- What the tasks and the CPUs hold; `current` is that of each CPU, `none` before its first
  -- interrupt.
  pub record State : Type ℓ where
    pub context : ℕ → C
    pub current : ℕ → Option ℕ

  -- `if (current) current->context = ctx`.
  unfoldable pub save : Option ℕ → C → (ℕ → C) → ℕ → C
  save none ctx context = context
  save (some t) ctx context = update context t ctx

  -- `task->next` in both files: `&tasks[(i + 1) % LENGTH(tasks)]`.
  unfoldable pub next_task : ℕ → ℕ → ℕ
  next_task n t = (t + 1) % n

  -- `++current`, which goes back to the first task behind the last, in trivial-os.c.
  unfoldable pub step_task : ℕ → ℕ → ℕ
  step_task n t = if t + 1 == n then 0 else t + 1

  -- on_interrupt of thread-os.c, on the one CPU, with n tasks.
  unfoldable pub on_interrupt : ℕ → C → State → C × State
  unfolding save next_task
  on_interrupt n ctx s = elim (s.current 0) [
    | none ↦ (s.context 0, record s { current = update s.current 0 (some 0) })
    | some t ↦
        let context = save (some t) ctx s.context in
        (
          context (next_task n t),
          record { context = context; current = update s.current 0 (some (next_task n t)) },
        )
  ]

  -- `do { current = current->next; } while ((current - tasks) % _ncpu() != _cpu());`, with fuel
  -- rounds at most, over the successor `next`.
  unfoldable pub seek : (ℕ → ℕ) → ℕ → ℕ → ℕ → ℕ → Option ℕ
  seek next ncpu cpu zero t = none
  seek next ncpu cpu (suc fuel) t =
      let rest = seek next ncpu cpu fuel (next t) in
      if next t % ncpu == cpu then some (next t) else rest

  -- The task at which the search starts.
  abbrev pub start : Option ℕ → ℕ
  start none = 0
  start (some t) = t

  -- `on_interrupt` of thread-os-mp.c and `schedule` of trivial-os.c, which differ in `next` alone;
  -- `none` if the search goes on behind the fuel. The context is saved before the search.
  unfoldable pub switch : (ℕ → ℕ) → ℕ → ℕ → ℕ → C → State → Option (C × State)
  unfolding save seek
  switch next fuel ncpu cpu ctx s = elim (seek next ncpu cpu fuel (start (s.current cpu))) [
    | none ↦ none
    | some t ↦
        let context = save (s.current cpu) ctx s.context in
        some (context t, record { context = context; current = update s.current cpu (some t) })
  ]

  -- The five tasks of both files.
  unfoldable pub mp_interrupt : ℕ → ℕ → C → State → Option (C × State)
  unfolding switch next_task
  mp_interrupt ncpu cpu ctx s = switch (next_task 5) 5 ncpu cpu ctx s

  unfoldable pub schedule : ℕ → ℕ → C → State → Option (C × State)
  unfolding switch step_task
  schedule ncpu cpu ctx s = switch (step_task 5) 5 ncpu cpu ctx s
