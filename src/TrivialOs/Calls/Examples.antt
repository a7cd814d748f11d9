-- ===== src/TrivialOs/Calls/Examples.antt =====
-- Two CPUs of trivial-os.c: task 2 has the lock in its system call, and task 1 spins on the other
-- CPU. A program is the number that it has in GPR1.
use the_code_back_up_in_ubun.Base.{
  ℕ, ◌+◌, ◌-◌, ◌*◌, ◌/◌, ◌%◌, ◌<◌, ◌≡◌, ◌⊎◌, refl, true, false, none, some, [], ◌∷◌, All, update,
  arith, Option-cases, inl, inr,
}
use the_code_back_up_in_ubun.TrivialOs.{Platform, os_init, event_other, os_interrupt}
use the_code_back_up_in_ubun.TrivialOs.Calls.{
  opened, Context, booting, in_user, in_call, Machine, call_step, Reached, booted, calls, steps,
  switches,
}
use the_code_back_up_in_ubun.TrivialOs.Calls.Stages.{inside, masked, IsLine, at}
use the_code_back_up_in_ubun.TrivialOs.Calls.Excluded.{Alone, calls_exclude}

abbrev gpr1 : Context ℕ → ℕ
gpr1 booting = 0
gpr1 (in_user u) = u
gpr1 (in_call u s) = u

abbrev platform : Platform (Context ℕ)
platform = record {
  round_up = λ a n. (a + n - 1) / n * n;
  round_down = λ a n. a / n * n;
  heap_start = 4096;
  pgsize = 4096;
  ncpu = 2;
  ucontext = λ t. in_user t;
  gpr1 = gpr1;
  hello = 7 ∷ 8 ∷ 9 ∷ [];
  counter = 1 ∷ 2 ∷ [];
  vme_brk = 0;
  protect = λ t heap. heap;
  map_page = λ m heap. (heap.0 + 4096, update heap.1 (16384 + m.task * 8) m.pa);
}

abbrev start : Machine platform
start = record {
  kernel =
      os_init (Context ℕ) platform (record { context = λ t. booting; current = λ cpu. some 1 })
        (λ a. 0);
  running = λ cpu. booting;
  lock = 0;
}

abbrev step_of : ℕ → Machine platform → Machine platform
step_of cpu m = elim (call_step platform cpu (m.running cpu) m) [ none ↦ m | some m' ↦ m' ]

step_of-Reached :
    (cpu : ℕ) (m : Machine platform)
    → Reached platform m
    → cpu < 2
    → Reached platform (step_of cpu m)
step_of-Reached cpu m r lt = elim (Option-cases (call_step platform cpu (m.running cpu) m)) [
  | inl e ↦ rw (e, step_of) r
  | inr (m', e) ↦ rw (e, step_of) (steps cpu m m' r lt e)
]

abbrev switch_of : ℕ → Machine platform → Machine platform
switch_of cpu m =
    elim (os_interrupt (Context ℕ) platform event_other cpu (m.running cpu) m.kernel) [
      | none ↦ m
      | some (back, k') ↦ record m {
        kernel = record k' { intr = update k'.intr cpu true };
        running = update m.running cpu back;
      }
    ]

switch_of-Reached :
    (cpu : ℕ) (m : Machine platform)
    → Reached platform m
    → cpu < 2
    → (m.running cpu ≡ booting) ⊎ (m.kernel.intr cpu ≡ true)
    → Reached platform (switch_of cpu m)
switch_of-Reached cpu m r lt free =
    elim (Option-cases
      (os_interrupt (Context ℕ) platform event_other cpu (m.running cpu) m.kernel)) [
        | inl e ↦ rw (e, switch_of) r
        | inr ((back, k'), e) ↦ rw (e, switch_of) (switches cpu back m k' r lt free e)
      ]

abbrev call_of : ℕ → ℕ → Machine platform → Machine platform
call_of cpu u m = record m {
  kernel = record m.kernel { intr = update m.kernel.intr cpu true };
  running = update m.running cpu (in_call u opened);
}

-- Four steps of CPU 0 in the call of task 2, then four of CPU 1 in that of task 1.
abbrev first : Machine platform
first = step_of 0 (step_of 0 (step_of 0 (step_of 0 (call_of 0 2 (switch_of 0 start)))))

abbrev both : Machine platform
both = step_of 1 (step_of 1 (step_of 1 (step_of 1 (call_of 1 1 (switch_of 1 first)))))

both_lem : (both.lock ≡ 1) × (inside (both.running 0) ≡ true) × (masked (both.running 1) ≡ true)
unfolding os_init os_interrupt call_step
both_lem = (refl, refl, refl)

first-Reached : Reached platform first
unfolding os_init os_interrupt
first-Reached =
    step_of-Reached 0 _
      (step_of-Reached 0 _
        (step_of-Reached 0 _
          (step_of-Reached 0 _
            (calls 0 2 (switch_of 0 start)
              (switch_of-Reached 0 start (booted _ _) (omega arith) (inl refl)) (omega arith) refl)
            (omega arith))
          (omega arith))
        (omega arith))
      (omega arith)

both-Reached : Reached platform both
unfolding os_init os_interrupt call_step
both-Reached =
    step_of-Reached 1 _
      (step_of-Reached 1 _
        (step_of-Reached 1 _
          (step_of-Reached 1 _
            (calls 1 1 (switch_of 1 first)
              (switch_of-Reached 1 first first-Reached (omega arith) (inl refl)) (omega arith) refl)
            (omega arith))
          (omega arith))
        (omega arith))
      (omega arith)

calls_exclude_example :
    ((t u : ℕ)
      → t < 5
      → u < 5
      → inside (at platform both t) ≡ true
      → inside (at platform both u) ≡ true
      → t ≡ u)
    × ((t : ℕ) → t < 5 → inside (at platform both t) ≡ true → both.lock ≡ 1)
    × ((t : ℕ)
        → t < 5
        → masked (at platform both t) ≡ true
        → (both.kernel.sched.current (t % 2) ≡ some t) × (both.kernel.intr (t % 2) ≡ false))
    × (both.lock ≡ 1
        → (cpu : ℕ) × (cpu < 2)
          × (inside (both.running cpu) ≡ true)
          × (both.kernel.intr cpu ≡ false)
          × ((m' : Machine platform) × Alone platform cpu both m' × (m'.lock ≡ 0)))
    × All (IsLine 2) both.kernel.output
calls_exclude_example =
    calls_exclude platform (omega arith) (omega arith) (λ t. (t, refl)) both both-Reached
