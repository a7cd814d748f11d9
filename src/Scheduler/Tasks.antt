-- ===== src/Scheduler/Tasks.antt =====
-- The loops of main in multi-threads/thread-os.c and multi-threads/thread-os-mp.c, which make the
-- tasks.
use the_code_back_up_in_ubun.Base.{
  ℕ, zero, suc, ◌+◌, ◌%◌, ◌<◌, ◌≡◌, refl, none, update, set_range, set_range_lem, arith,
}
use the_code_back_up_in_ubun.Scheduler.{State, next_task}

-- The contexts and the field `next` of the tasks.
pub record Tasks {ℓ} (C : Type ℓ) : Type ℓ where
  pub context : ℕ → C
  pub next : ℕ → ℕ

module _ {ℓ} {C : Type ℓ} where
  -- `for (int i = 0; i < LENGTH(tasks); i++)` from i on, with so many rounds to go; a context comes
  -- from _kcontext on the task's stack.
  unfoldable pub create_tasks : (ℕ → C) → ℕ → ℕ → ℕ → Tasks C → Tasks C
  create_tasks kcontext n zero i tasks = tasks
  create_tasks kcontext n (suc rounds) i tasks = create_tasks kcontext n rounds (i + 1) (record {
    context = update tasks.context i (kcontext i);
    next = update tasks.next i ((i + 1) % n);
  })

  -- Up to the interrupts: three tasks, and none current.
  unfoldable pub thread_main : (ℕ → C) → Tasks C → State C × Tasks C
  unfolding create_tasks
  thread_main kcontext tasks =
      let made = create_tasks kcontext 3 3 0 tasks in
      (record { context = made.context; current = λ cpu. none }, made)

  -- The same for five tasks.
  unfoldable pub mp_main : (ℕ → C) → Tasks C → State C × Tasks C
  unfolding create_tasks
  mp_main kcontext tasks =
      let made = create_tasks kcontext 5 5 0 tasks in
      (record { context = made.context; current = λ cpu. none }, made)

  create_tasks-set_range :
      (kcontext : ℕ → C) (n rounds i : ℕ) (tasks : Tasks C)
      → create_tasks kcontext n rounds i tasks ≡ record {
        context = set_range kcontext rounds i tasks.context;
        next = set_range (λ t. (t + 1) % n) rounds i tasks.next;
      }
  unfolding create_tasks
  create_tasks-set_range kcontext n zero i tasks = refl
  create_tasks-set_range kcontext n (suc rounds) i tasks =
      create_tasks-set_range kcontext n rounds (i + 1) _

  -- The loop makes the context of each task and links it to the one behind it, the last one to the
  -- first.
  create_tasks_lem :
      (kcontext : ℕ → C) (n t : ℕ) (tasks : Tasks C)
      → t < n
      → ((create_tasks kcontext n n 0 tasks).context t ≡ kcontext t)
        × ((create_tasks kcontext n n 0 tasks).next t ≡ next_task C n t)
  unfolding next_task
  create_tasks_lem kcontext n t tasks lt = rw (create_tasks-set_range kcontext n n 0 tasks) (
    set_range_lem kcontext n 0 t tasks.context (omega arith) (omega arith),
    set_range_lem (λ t. (t + 1) % n) n 0 t tasks.next (omega arith) (omega arith),
  )

  pub thread_main_lem :
      (kcontext : ℕ → C) (tasks : Tasks C) (t : ℕ)
      → t < 3
      → ((thread_main kcontext tasks).0.context t ≡ kcontext t)
        × ((thread_main kcontext tasks).1.next t ≡ next_task C 3 t)
  unfolding thread_main
  thread_main_lem kcontext tasks t lt = create_tasks_lem kcontext 3 t tasks lt

  pub mp_main_lem :
      (kcontext : ℕ → C) (tasks : Tasks C) (t : ℕ)
      → t < 5
      → ((mp_main kcontext tasks).0.context t ≡ kcontext t)
        × ((mp_main kcontext tasks).1.next t ≡ next_task C 5 t)
  unfolding mp_main
  mp_main_lem kcontext tasks t lt = create_tasks_lem kcontext 5 t tasks lt
