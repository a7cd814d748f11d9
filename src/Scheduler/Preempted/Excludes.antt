-- ===== src/Scheduler/Preempted/Excludes.antt =====
-- biglock of thread-os-mp.c excludes, also when its holders are interrupted, and each task prints on
-- its own CPU.
use the_code_back_up_in_ubun.Base.{
  ℕ, ◌+◌, ◌%◌, ◌<◌, ◌≤◌, ◌≡◌, refl, sym, subst, ap, ◌∙◌, true, Option, none, some, List, [], ◌∷◌,
  ◌++◌, ◌==◌, ltb, All, update, arith, Bool-cases, inl, inr,
}
use the_code_back_up_in_ubun.SpinLock.{lock_round, unlock}
use the_code_back_up_in_ubun.Scheduler.{State}
use the_code_back_up_in_ubun.Scheduler.Multi.{Switched}
use the_code_back_up_in_ubun.Scheduler.Preempted.{
  Pc, trying, acquired, printed, counting, Context, in_entry, in_func, Machine, func, Reached,
  booted, moved, switched,
}
use the_code_back_up_in_ubun.Scheduler.Guarded.{Guarded-stay}
use the_code_back_up_in_ubun.Scheduler.Views.{view-Switched}
use the_code_back_up_in_ubun.Scheduler.Preempted.Views.{view, interrupted_lem}
use the_code_back_up_in_ubun.Scheduler.Preempted.Kept.{
  inside, Inv, boot-Inv, current_runs, next, next-stay, next-enter, next-leave,
}

After : ℕ → Option Machine → Type 0
After ncpu none = Unit
After ncpu (some m) = Inv ncpu m

All-snoc :
    (ncpu : ℕ) (ls : List (ℕ × ℕ)) (a cpu : ℕ)
    → All (λ l. (l.0 < 5) × (l.1 ≡ l.0 % ncpu)) ls
    → a < 5
    → a % ncpu ≡ cpu
    → All (λ l. (l.0 < 5) × (l.1 ≡ l.0 % ncpu)) (ls ++ (a, cpu) ∷ [])
All-snoc ncpu [] a cpu hs lt e = ((lt, sym e), tt)
All-snoc ncpu (l ∷ ls) a cpu (h, hs) lt e = (h, All-snoc ncpu ls a cpu hs lt e)

func-After :
    (ncpu cpu : ℕ) (m : Machine) (c : Context)
    → Inv ncpu m
    → cpu < ncpu
    → m.running cpu ≡ c
    → After ncpu (func cpu c m)
unfolding func After lock_round unlock next
func-After ncpu cpu m in_entry h lt at = tt
func-After ncpu cpu m (in_func a trying) h lt at = elim (Bool-cases (m.biglock == 0)) [
  | inl e ↦ rw e (next-enter ncpu cpu a trying acquired m h lt at refl (ground (arith, e)))
  | inr e ↦
      let one : m.biglock ≡ 1 = ground (arith, e, h.guarded.bit) in
      rw e (
        subst (λ w. Inv ncpu (next ncpu cpu a trying trying m h lt at w m.out)) one
          (next-stay ncpu cpu a trying trying m h lt at m.out refl h.lines))
]
func-After ncpu cpu m (in_func a acquired) h lt at =
    let (now, small, own, here) = current_runs ncpu cpu a acquired m h lt at in
    next-stay ncpu cpu a acquired printed m h lt at (m.out ++ (a, cpu) ∷ []) refl
      (All-snoc ncpu m.out a cpu h.lines small own)
func-After ncpu cpu m (in_func a printed) h lt at =
    next-leave ncpu cpu a printed (counting 0) m h lt at refl refl
func-After ncpu cpu m (in_func a (counting i)) h lt at = elim (Bool-cases (ltb i 100000)) [
  | inl e ↦ rw e (next-stay ncpu cpu a (counting i) (counting (i + 1)) m h lt at m.out refl h.lines)
  | inr e ↦ rw e (next-stay ncpu cpu a (counting i) trying m h lt at m.out refl h.lines)
]

pub interrupted-Inv :
    (ncpu cpu t : ℕ) (m : Machine) (s' : State Context)
    → Inv ncpu m
    → cpu < ncpu
    → Switched Context ncpu cpu (m.running cpu) m.sched s' t
    → Inv ncpu (record m { sched = s'; running = update m.running cpu (s'.context t) })
interrupted-Inv ncpu cpu t m s' h lt sw = record {
  placed = sw.placed;
  idle = λ c e. elim (Bool-cases (c == cpu)) [
    | inl same ↦ absurd (ground (arith, same, sw.chosen, e))
    | inr other ↦ ground (arith, other, sw.others c (ground (arith, other)), e, h.idle c)
  ];
  own = λ u small. let (pc, o) = h.own u small in (pc, moved_none u ∙ o);
  guarded =
      Guarded-stay (λ u. inside (view ncpu m u)) (λ u. inside (view ncpu after u)) m.biglock 0
        (omega arith) h.guarded
        (λ u. ap inside (moved_none u) ∙ elim (Bool-cases (0 == u)) [
          | inl e ↦ rw e (ap (λ x. inside (view ncpu m x)) (ground (arith, e)))
          | inr e ↦ rw e refl
        ]);
  lines = h.lines;
}
  where
    after : Machine
    after = record m { sched = s'; running = update m.running cpu (s'.context t) }

    moved_none : (u : ℕ) → view ncpu after u ≡ view ncpu m u
    moved_none = view-Switched ncpu cpu t m.sched s' m.running h.placed lt sw

pub moved-Inv :
    (ncpu cpu : ℕ) (m m' : Machine)
    → Inv ncpu m
    → cpu < ncpu
    → func cpu (m.running cpu) m ≡ some m'
    → Inv ncpu m'
unfolding After
moved-Inv ncpu cpu m m' h lt e =
    subst (After ncpu) e (func-After ncpu cpu m (m.running cpu) h lt refl)

pub Reached-Inv : (ncpu : ℕ) (m : Machine) → ncpu ≤ 5 → Reached ncpu m → Inv ncpu m
unfolding After
Reached-Inv ncpu _ le (booted tasks) = boot-Inv ncpu tasks
Reached-Inv ncpu _ le (moved cpu m m' r lt e) =
    moved-Inv ncpu cpu m m' (Reached-Inv ncpu m le r) lt e
Reached-Inv ncpu _ le (switched cpu m m' r lt e) =
    let h = Reached-Inv ncpu m le r in
    let (t, s', e', sought, sw) = interrupted_lem ncpu cpu m lt le h.placed in
    subst (After ncpu) (sym e' ∙ e) (interrupted-Inv ncpu cpu t m s' h lt sw)

-- In every machine that thread-os-mp.c with five CPUs at most leads to, with the interrupts between
-- any two steps of its tasks: two tasks between lock and unlock of biglock, on CPUs or interrupted
-- there, are one; biglock is 1 when one is there, and only then; a CPU runs func as its current task,
-- whose index leaves the number of the CPU; and each line of the output is that of a task and this
-- CPU.
pub preempted_excludes :
    (ncpu : ℕ) (m : Machine)
    → ncpu ≤ 5
    → Reached ncpu m
    → ((t u : ℕ)
        → t < 5
        → u < 5
        → inside (view ncpu m t) ≡ true
        → inside (view ncpu m u) ≡ true
        → t ≡ u)
      × ((t : ℕ) → t < 5 → inside (view ncpu m t) ≡ true → m.biglock ≡ 1)
      × (m.biglock ≡ 1 → (t : ℕ) × (t < 5) × (inside (view ncpu m t) ≡ true))
      × ((cpu a : ℕ) (pc : Pc)
          → cpu < ncpu
          → m.running cpu ≡ in_func a pc
          → (m.sched.current cpu ≡ some a) × (a % ncpu ≡ cpu))
      × All (λ l. (l.0 < 5) × (l.1 ≡ l.0 % ncpu)) m.out
preempted_excludes ncpu m le r =
    let h = Reached-Inv ncpu m le r in
    (
      h.guarded.unique,
      h.guarded.taken,
      h.guarded.held,
      λ cpu a pc lt at.
          let (now, small, own, here) = current_runs ncpu cpu a pc m h lt at in (now, own),
      h.lines,
    )
