-- ===== src/Scheduler/Preempted/Gains.antt =====
-- No task of thread-os-mp.c is locked out: interrupts come to the holder of biglock, which frees it,
-- and then to the task.
use the_code_back_up_in_ubun.Base.{
  ℕ, ◌%◌, ◌<◌, ◌≤◌, ◌≡◌, sym, ap, ◌∙◌, true, false, List, [], ◌∷◌, ◌++◌, append_assoc, append-nil,
  ◌==◌, arith, Bool-cases, inl, inr,
}
use the_code_back_up_in_ubun.Scheduler.Preempted.{
  Pc, trying, acquired, printed, counting, in_func, Machine, Reached,
}
use the_code_back_up_in_ubun.Scheduler.Preempted.Kept.{inside, Inv}
use the_code_back_up_in_ubun.Scheduler.Preempted.Excludes.{Reached-Inv}
use the_code_back_up_in_ubun.Scheduler.Preempted.Turns.{Leads, stays, Leads-trans, bring, runs_at}
use the_code_back_up_in_ubun.Scheduler.Preempted.Rounds.{
  Ran, Ran-trans, count_down, prints, takes, unlocks,
}

module _ (ncpu : ℕ) (some_cpu : 1 ≤ ncpu) (le : ncpu ≤ 5) where
  -- Whoever holds the lock, it is free again later on.
  record Freed (m m' : Machine) : Type 0 where
    leads : Leads ncpu m m'
    inv : Inv ncpu m'
    word : m'.biglock ≡ 0
    lines : List (ℕ × ℕ)
    out : m'.out ≡ m.out ++ lines

  holder_frees :
      (t : ℕ) (m : Machine) (pc : Pc)
      → Inv ncpu m
      → m.running (t % ncpu) ≡ in_func t pc
      → inside (in_func t pc) ≡ true
      → (m' : Machine) × Freed m m'
  holder_frees t m trying h at e = cc
  holder_frees t m (counting i) h at e = cc
  holder_frees t m printed h at e =
      let (m', r, word, out) = unlocks ncpu some_cpu le t m h at in
      (
        m',
        record {
          leads = r.leads;
          inv = r.inv;
          word = word;
          lines = [];
          out = out ∙ sym (append-nil m.out);
        },
      )
  holder_frees t m acquired h at e =
      let (m1, r1, at1, out1) = prints ncpu some_cpu le t m h at in
      let (m', r, word, out) = unlocks ncpu some_cpu le t m1 r1.inv at1 in
      let both = Ran-trans ncpu some_cpu le m m1 m' r1 r in
      (
        m',
        record {
          leads = both.leads;
          inv = both.inv;
          word = word;
          lines = (t, t % ncpu) ∷ [];
          out = out ∙ out1;
        },
      )

  frees : (m : Machine) → Inv ncpu m → (m' : Machine) × Freed m m'
  frees m h = elim (Bool-cases (m.biglock == 0)) [
    | inl e ↦ (
      m,
      record {
        leads = stays;
        inv = h;
        word = ground (arith, e);
        lines = [];
        out = sym (append-nil m.out);
      },
    )
    | inr e ↦
        let (t, lt, in_it) = h.guarded.held (ground (arith, e, h.guarded.bit)) in
        let (m1, b) = bring ncpu some_cpu le t m h lt in
        let (pc, own) = b.inv.own t lt in
        let (m', f) =
          holder_frees t m1 pc b.inv (runs_at ncpu some_cpu le t m1 (in_func t pc) b.now own)
            (ap inside (sym own ∙ b.unmoved t) ∙ in_it) in
        (
          m',
          record {
            leads = Leads-trans ncpu m m1 m' b.leads f.leads;
            inv = f.inv;
            word = f.word;
            lines = f.lines;
            out = f.out ∙ ap (λ o. o ++ f.lines) b.out;
          },
        )
  ]

  waiter_prints :
      (t : ℕ) (m : Machine) (pc : Pc)
      → Inv ncpu m
      → m.running (t % ncpu) ≡ in_func t pc
      → m.biglock ≡ 0
      → inside (in_func t pc) ≡ false
      → (m' : Machine) × Ran ncpu some_cpu le m m' × (m'.out ≡ m.out ++ (t, t % ncpu) ∷ [])
  waiter_prints t m trying h at free e = takes ncpu some_cpu le t m h at free
  waiter_prints t m acquired h at free e = cc
  waiter_prints t m printed h at free e = cc
  waiter_prints t m (counting i) h at free e =
      let (m1, b) = count_down ncpu some_cpu le 100000 t i m h at (omega arith) in
      let (m', r, out) = takes ncpu some_cpu le t m1 b.ran_to.inv b.there (b.word ∙ free) in
      (
        m',
        Ran-trans ncpu some_cpu le m m1 m' b.ran_to r,
        out ∙ ap (λ o. o ++ (t, t % ncpu) ∷ []) b.out,
      )

-- With one to five CPUs no task of thread-os-mp.c is ever locked out: from every machine that the
-- program leads to, whoever holds biglock and wherever it was interrupted, some steps and interrupts
-- lead to one in which any given task of the five has got the lock once more, and printed its line
-- last.
pub task_prints_again :
    (ncpu : ℕ) (m : Machine) (t : ℕ)
    → 1 ≤ ncpu
    → ncpu ≤ 5
    → Reached ncpu m
    → t < 5
    → (m' : Machine) × Leads ncpu m m'
      × (lines : List (ℕ × ℕ)) × (m'.out ≡ m.out ++ (lines ++ (t, t % ncpu) ∷ []))
task_prints_again ncpu m t lo le r lt =
    let (m1, f) = frees ncpu lo le m (Reached-Inv ncpu m le r) in
    let (m2, b) = bring ncpu lo le t m1 f.inv lt in
    let (pc, own) = b.inv.own t lt in
    let free2 : m2.biglock ≡ 0 = b.word ∙ f.word in
    let outside : inside (in_func t pc) ≡ false = elim (Bool-cases (inside (in_func t pc))) [
      | inl e ↦ absurd (ground (arith, free2, b.inv.guarded.taken t lt (ap inside own ∙ e)))
      | inr e ↦ e
    ] in
    let (m', r3, out) =
      waiter_prints ncpu lo le t m2 pc b.inv (runs_at ncpu lo le t m2 (in_func t pc) b.now own)
        free2 outside in
    (
      m',
      Leads-trans ncpu m m1 m' f.leads (Leads-trans ncpu m1 m2 m' b.leads r3.leads),
      f.lines,
      out
          ∙ (ap (λ o. o ++ (t, t % ncpu) ∷ []) (b.out ∙ f.out)
              ∙ append_assoc m.out f.lines ((t, t % ncpu) ∷ [])),
    )
