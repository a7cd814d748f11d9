-- ===== src/Scheduler/Preempted/Kept.antt =====
-- What the tasks of thread-os-mp.c keep when one of them makes a step.
use the_code_back_up_in_ubun.Base.{
  ℕ, ◌%◌, ◌<◌, ◌≡◌, ◌≢◌, refl, sym, subst, ap, ◌∙◌, Bool, true, false, none, some, List, ◌==◌,
  if◌then◌else◌, All, update, arith, Bool-cases, Option-cases, inl, inr,
}
use the_code_back_up_in_ubun.Scheduler.Tasks.{Tasks, mp_main, mp_main_lem}
use the_code_back_up_in_ubun.Scheduler.Multi.{Placed}
use the_code_back_up_in_ubun.Scheduler.Preempted.{
  Pc, trying, acquired, printed, Context, in_entry, in_func, Machine, boot,
}
use the_code_back_up_in_ubun.Scheduler.Guarded.{
  Guarded, Moves, Guarded-stay, Guarded-enter, Guarded-leave,
}
use the_code_back_up_in_ubun.Scheduler.Views.{view-moved}
use the_code_back_up_in_ubun.Scheduler.Preempted.Views.{view}

-- Between `lock` and `unlock`.
abbrev pub inside : Context → Bool
inside (in_func arg acquired) = true
inside (in_func arg printed) = true
inside _ = false

pub record Inv (ncpu : ℕ) (m : Machine) : Type 0 where
  pub placed : Placed Context ncpu m.sched
  pub idle : (cpu : ℕ) → m.sched.current cpu ≡ none → m.running cpu ≡ in_entry
  pub own : (t : ℕ) → t < 5 → (pc : Pc) × (view ncpu m t ≡ in_func t pc)
  pub guarded : Guarded (λ t. inside (view ncpu m t)) m.biglock
  pub lines : All (λ l. (l.0 < 5) × (l.1 ≡ l.0 % ncpu)) m.out

pub boot-Inv : (ncpu : ℕ) (tasks : Tasks Context) → Inv ncpu (boot tasks)
unfolding boot mp_main
boot-Inv ncpu tasks = record {
  placed = λ cpu t lt e. cc;
  idle = λ cpu e. refl;
  own = λ t lt. (trying, at t lt);
  guarded = record {
    taken = λ t lt e. absurd (out t lt e);
    unique = λ t u lt lt' e e'. absurd (out t lt e);
    held = λ w. absurd (omega arith);
    bit = omega arith;
  };
  lines = tt;
}
  where
    at : (t : ℕ) → t < 5 → view ncpu (boot tasks) t ≡ in_func t trying
    at t lt = (mp_main_lem (λ t. in_func t trying) tasks t lt).0

    out : (t : ℕ) → t < 5 → inside (view ncpu (boot tasks) t) ≢ true
    out t lt e = ground (arith, at t lt, e)

-- The task that a CPU is running is its current one.
pub current_runs :
    (ncpu cpu a : ℕ) (pc : Pc) (m : Machine)
    → Inv ncpu m
    → cpu < ncpu
    → m.running cpu ≡ in_func a pc
    → (m.sched.current cpu ≡ some a) × (a < 5) × (a % ncpu ≡ cpu) × (view ncpu m a ≡ in_func a pc)
current_runs ncpu cpu a pc m h on_board at = elim (Option-cases (m.sched.current cpu)) [
  | inl e ↦ absurd (ground (arith, at, h.idle cpu e))
  | inr (t, e) ↦
      let (small, placed) = h.placed cpu t on_board e in
      let here : view ncpu m t ≡ m.running cpu = rw (placed, e) (self t) in
      let (pc', own) = h.own t small in
      let same : t ≡ a = ground (arith, own, here, at) in
      (
        e ∙ ap some same,
        subst (λ x. x < 5) same small,
        subst (λ x. x % ncpu ≡ cpu) same placed,
        subst (λ x. view ncpu m x ≡ in_func a pc) same (here ∙ at),
      )
]
  where
    self : (t : ℕ) → (if t == t then m.running cpu else m.sched.context t) ≡ m.running cpu
    self t = ground arith

-- The task a, at pc, comes to pc' on its CPU.
module _ (ncpu cpu a : ℕ) (pc pc' : Pc) (m : Machine) (h : Inv ncpu m) (on_board : cpu < ncpu)
    (at : m.running cpu ≡ in_func a pc) where
  abbrev is_inside : Machine → ℕ → Bool
  is_inside k t = inside (view ncpu k t)

  unfoldable pub next : ℕ → List (ℕ × ℕ) → Machine
  next word out = record m {
    running = update m.running cpu (in_func a pc');
    biglock = word;
    out = out;
  }

  next-view :
      (word : ℕ) (out : List (ℕ × ℕ)) (u : ℕ)
      → view ncpu (next word out) u ≡ (if a == u then in_func a pc' else view ncpu m u)
  unfolding next
  next-view word out =
      let (now, small, own, here) = current_runs ncpu cpu a pc m h on_board at in
      view-moved ncpu cpu a m.sched m.running (in_func a pc') now own

  next-inside :
      (word : ℕ) (out : List (ℕ × ℕ)) (u : ℕ)
      → inside (view ncpu (next word out) u)
        ≡ (if a == u then inside (in_func a pc') else inside (view ncpu m u))
  next-inside word out u =
      ap inside (next-view word out u)
      ∙ elim (Bool-cases (a == u)) [ inl e ↦ rw e refl | inr e ↦ rw e refl ]

  next-Inv :
      (word : ℕ) (out : List (ℕ × ℕ))
      → Guarded (λ t. inside (view ncpu (next word out) t)) word
      → All (λ l. (l.0 < 5) × (l.1 ≡ l.0 % ncpu)) out
      → Inv ncpu (next word out)
  unfolding next
  next-Inv word out guarded lines =
      let (now, small, own, here) = current_runs ncpu cpu a pc m h on_board at in
      record {
        placed = h.placed;
        idle = λ c e. ground (arith, now, e, h.idle c e);
        own = λ t lt. elim (Bool-cases (a == t)) [
          | inl e ↦ (pc', next-view word out t ∙ rw e (ap (λ x. in_func x pc') (ground (arith, e))))
          | inr e ↦ let (q, o) = h.own t lt in (q, next-view word out t ∙ rw e o)
        ];
        guarded = guarded;
        lines = lines;
      }

  next-Moves :
      (word : ℕ) (out : List (ℕ × ℕ)) (b : Bool)
      → inside (in_func a pc') ≡ b
      → Moves (is_inside m) (is_inside (next word out)) a b
  next-Moves word out b e =
      subst (Moves (is_inside m) (is_inside (next word out)) a) e (next-inside word out)

  -- A step that keeps the word, and neither enters nor leaves.
  pub next-stay :
      (out : List (ℕ × ℕ))
      → inside (in_func a pc') ≡ inside (in_func a pc)
      → All (λ l. (l.0 < 5) × (l.1 ≡ l.0 % ncpu)) out
      → Inv ncpu (next m.biglock out)
  next-stay out same lines =
      let (now, small, own, here) = current_runs ncpu cpu a pc m h on_board at in
      next-Inv m.biglock out
        (Guarded-stay (is_inside m) (is_inside (next m.biglock out)) m.biglock a small h.guarded
          (next-Moves m.biglock out (is_inside m a) (same ∙ sym (ap inside here))))
        lines

  pub next-enter : inside (in_func a pc') ≡ true → m.biglock ≡ 0 → Inv ncpu (next 1 m.out)
  next-enter enters free =
      let (now, small, own, here) = current_runs ncpu cpu a pc m h on_board at in
      next-Inv 1 m.out
        (Guarded-enter (is_inside m) (is_inside (next 1 m.out)) m.biglock a small h.guarded
          (next-Moves 1 m.out true enters) free)
        h.lines

  pub next-leave :
      inside (in_func a pc') ≡ false → inside (in_func a pc) ≡ true → Inv ncpu (next 0 m.out)
  next-leave leaves was =
      let (now, small, own, here) = current_runs ncpu cpu a pc m h on_board at in
      next-Inv 0 m.out
        (Guarded-leave (is_inside m) (is_inside (next 0 m.out)) m.biglock a small h.guarded
          (next-Moves 0 m.out false leaves) (ap inside here ∙ was))
        h.lines
