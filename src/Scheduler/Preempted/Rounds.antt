-- ===== src/Scheduler/Preempted/Rounds.antt =====
-- What a task of thread-os-mp.c does when its CPU runs it: its last loop ends, it gets the free lock,
-- prints, and frees it.
use the_code_back_up_in_ubun.Base.{
  ℕ, zero, suc, ◌+◌, ◌%◌, ◌≤◌, ◌≡◌, refl, ◌∙◌, false, some, [], ◌∷◌, ◌++◌, ltb, update, update_self,
  arith, Bool-cases, inl, inr,
}
use the_code_back_up_in_ubun.SpinLock.{lock_round, unlock}
use the_code_back_up_in_ubun.Scheduler.Preempted.{
  trying, acquired, printed, counting, Context, in_func, Machine, func,
}
use the_code_back_up_in_ubun.Scheduler.Preempted.Kept.{Inv}
use the_code_back_up_in_ubun.Scheduler.Preempted.Excludes.{moved-Inv}
use the_code_back_up_in_ubun.Scheduler.Preempted.Turns.{Leads, stays, moves, Leads-trans, on_board}

module _ (ncpu : ℕ) (some_cpu : 1 ≤ ncpu) (le : ncpu ≤ 5) where
  -- What one step of the task on a CPU gives.
  pub record Ran (m m' : Machine) : Type 0 where
    pub leads : Leads ncpu m m'
    pub inv : Inv ncpu m'
    pub sched : m'.sched ≡ m.sched

  pub Ran-trans : (a b c : Machine) → Ran a b → Ran b c → Ran a c
  Ran-trans a b c ab bc = record {
    leads = Leads-trans ncpu a b c ab.leads bc.leads;
    inv = bc.inv;
    sched = bc.sched ∙ ab.sched;
  }

  ran :
      (t : ℕ) (m m' : Machine) (c : Context)
      → Inv ncpu m
      → m.running (t % ncpu) ≡ c
      → func (t % ncpu) c m ≡ some m'
      → m'.sched ≡ m.sched
      → Ran m m'
  ran t m m' c h at e sched =
      let e' : func (t % ncpu) (m.running (t % ncpu)) m ≡ some m' = rw at e in
      record {
        leads = moves (t % ncpu) m m' stays (on_board ncpu some_cpu le t) e';
        inv = moved-Inv ncpu (t % ncpu) m m' h (on_board ncpu some_cpu le t) e';
        sched = sched;
      }

  -- Back in the loop of lock, and nothing but the CPU has changed.
  pub record Back (t : ℕ) (m m' : Machine) : Type 0 where
    pub ran_to : Ran m m'
    pub there : m'.running (t % ncpu) ≡ in_func t trying
    pub word : m'.biglock ≡ m.biglock
    pub out : m'.out ≡ m.out

  count_over :
      (t i : ℕ) (m : Machine)
      → Inv ncpu m
      → m.running (t % ncpu) ≡ in_func t (counting i)
      → ltb i 100000 ≡ false
      → (m' : Machine) × Back t m m'
  unfolding func
  count_over t i m h at over =
      let m' : Machine = record m { running = update m.running (t % ncpu) (in_func t trying) } in
      (
        m',
        record {
          ran_to = ran t m m' (in_func t (counting i)) h at (rw (over, func) refl) refl;
          there = update_self m.running (t % ncpu) (in_func t trying);
          word = refl;
          out = refl;
        },
      )

  -- The last loop of func ends.
  pub count_down :
      (r t i : ℕ) (m : Machine)
      → Inv ncpu m
      → m.running (t % ncpu) ≡ in_func t (counting i)
      → 100000 ≤ i + r
      → (m' : Machine) × Back t m m'
  unfolding func
  count_down zero t i m h at enough = count_over t i m h at (ground arith)
  count_down (suc r) t i m h at enough = elim (Bool-cases (ltb i 100000)) [
    | inr over ↦ count_over t i m h at over
    | inl more ↦
        let m1 : Machine = record m {
          running = update m.running (t % ncpu) (in_func t (counting (i + 1)));
        } in
        let one : Ran m m1 = ran t m m1 (in_func t (counting i)) h at (rw (more, func) refl) refl in
        let (m', b) =
          count_down r t (i + 1) m1 one.inv
            (update_self m.running (t % ncpu) (in_func t (counting (i + 1)))) (omega arith) in
        (
          m',
          record {
            ran_to = Ran-trans m m1 m' one b.ran_to;
            there = b.there;
            word = b.word;
            out = b.out;
          },
        )
  ]

  -- A task that has the lock prints its line.
  pub prints :
      (t : ℕ) (m : Machine)
      → Inv ncpu m
      → m.running (t % ncpu) ≡ in_func t acquired
      → (m' : Machine) × Ran m m'
        × (m'.running (t % ncpu) ≡ in_func t printed)
        × (m'.out ≡ m.out ++ (t, t % ncpu) ∷ [])
  unfolding func
  prints t m h at =
      let m' : Machine = record m {
        running = update m.running (t % ncpu) (in_func t printed);
        out = m.out ++ (t, t % ncpu) ∷ [];
      } in
      (
        m',
        ran t m m' (in_func t acquired) h at refl refl,
        update_self m.running (t % ncpu) (in_func t printed),
        refl,
      )

  -- A task that tries for the free lock gets it and prints.
  pub takes :
      (t : ℕ) (m : Machine)
      → Inv ncpu m
      → m.running (t % ncpu) ≡ in_func t trying
      → m.biglock ≡ 0
      → (m' : Machine) × Ran m m' × (m'.out ≡ m.out ++ (t, t % ncpu) ∷ [])
  unfolding func lock_round
  takes t m h at free =
      let m1 : Machine = record m {
        running = update m.running (t % ncpu) (in_func t acquired);
        biglock = 1;
      } in
      let one : Ran m m1 =
        ran t m m1 (in_func t trying) h at (rw (free, func, lock_round) refl) refl in
      let (m', two, there, out) =
        prints t m1 one.inv (update_self m.running (t % ncpu) (in_func t acquired)) in
      (m', Ran-trans m m1 m' one two, out)

  -- A current task that stands before unlock frees the lock.
  pub unlocks :
      (t : ℕ) (m : Machine)
      → Inv ncpu m
      → m.running (t % ncpu) ≡ in_func t printed
      → (m' : Machine) × Ran m m' × (m'.biglock ≡ 0) × (m'.out ≡ m.out)
  unfolding func unlock
  unlocks t m h at =
      let m' : Machine = record m {
        running = update m.running (t % ncpu) (in_func t (counting 0));
        biglock = 0;
      } in
      (m', ran t m m' (in_func t printed) h at refl refl, refl, refl)
