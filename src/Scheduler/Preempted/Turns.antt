-- ===== src/Scheduler/Preempted/Turns.antt =====
-- Interrupts bring each CPU of thread-os-mp.c to each of its tasks.
use native.Mathlib.Nat.{mod-lt}
use the_code_back_up_in_ubun.Base.{
  ℕ, zero, suc, ◌%◌, ◌<◌, ◌≤◌, ◌≡◌, ◌⊎◌, refl, sym, subst, ap, ◌∙◌, Option, none, some, ◌==◌,
  update, update_self, arith, Bool-cases, Option-cases, inl, inr,
}
use the_code_back_up_in_ubun.Scheduler.{State, seek, start, step_task, schedule}
use the_code_back_up_in_ubun.Scheduler.Multi.{
  distance, nearer, step_task-lt, start-small, switch_found,
}
use the_code_back_up_in_ubun.Scheduler.Preempted.{Context, Machine, func, interrupted}
use the_code_back_up_in_ubun.Scheduler.Views.{view-Switched}
use the_code_back_up_in_ubun.Scheduler.Preempted.Views.{view, interrupted_lem}
use the_code_back_up_in_ubun.Scheduler.Preempted.Kept.{Inv}
use the_code_back_up_in_ubun.Scheduler.Preempted.Excludes.{interrupted-Inv}

-- The machines that steps and interrupts lead to from one on.
pub data Leads (ncpu : ℕ) (m : Machine) : Machine → Type 0 where
  stays : Leads ncpu m m
  moves :
      (cpu : ℕ) (m' m'' : Machine)
      → Leads ncpu m m'
      → cpu < ncpu
      → func cpu (m'.running cpu) m' ≡ some m''
      → Leads ncpu m m''
  switches :
      (cpu : ℕ) (m' m'' : Machine)
      → Leads ncpu m m'
      → cpu < ncpu
      → interrupted ncpu cpu m' ≡ some m''
      → Leads ncpu m m''

pub Leads-trans : (ncpu : ℕ) (a b c : Machine) → Leads ncpu a b → Leads ncpu b c → Leads ncpu a c
Leads-trans ncpu a b _ ab stays = ab
Leads-trans ncpu a b _ ab (moves cpu m m' bc lt e) =
    moves cpu m m' (Leads-trans ncpu a b m ab bc) lt e
Leads-trans ncpu a b _ ab (switches cpu m m' bc lt e) =
    switches cpu m m' (Leads-trans ncpu a b m ab bc) lt e

-- The search of an interrupt finds the task t, or comes nearer to it.
seek-nearer :
    (ncpu t fuel s u d : ℕ)
    → s < 5
    → t < 5
    → seek Context (step_task Context 5) ncpu (t % ncpu) fuel s ≡ some u
    → distance Context 5 t s ≤ suc d
    → (u ≡ t) ⊎ (distance Context 5 t u ≤ d)
unfolding seek
seek-nearer ncpu t zero s u d lt lt' e le = cc
seek-nearer ncpu t (suc fuel) s u d lt lt' e le = elim (Bool-cases (step_task Context 5 s == t)) [
  | inl there ↦ inl (ground (arith, e, there))
  | inr on ↦
      let near : distance Context 5 t (step_task Context 5 s) ≤ d =
        nearer Context 5 t d s lt lt' (ground (arith, on)) le in
      elim (Bool-cases (step_task Context 5 s % ncpu == t % ncpu)) [
        | inl own ↦ inr (subst (λ x. distance Context 5 t x ≤ d) (ground (arith, e, own)) near)
        | inr other ↦
            let rest : seek Context (step_task Context 5) ncpu (t % ncpu) fuel
                  (step_task Context 5 s)
                ≡ some u =
              ground (arith, e, other) in
            seek-nearer ncpu t fuel (step_task Context 5 s) u d (step_task-lt Context 5 s lt) lt'
              rest (omega (arith, near))
      ]
]

sought :
    (ncpu cpu t : ℕ) (ctx back : Context) (s s' : State Context)
    → schedule Context ncpu cpu ctx s ≡ some (back, s')
    → s'.current cpu ≡ some t
    → seek Context (step_task Context 5) ncpu cpu 5 (start Context (s.current cpu)) ≡ some t
unfolding schedule
sought ncpu cpu t ctx back s s' e now =
    elim (Option-cases
      (seek Context (step_task Context 5) ncpu cpu 5 (start Context (s.current cpu)))) [
        | inl nothing ↦
            let stuck = switch_found Context (step_task Context 5) 5 ncpu cpu ctx s none nothing in
            absurd (ground (arith, stuck, e))
        | inr (u, found) ↦
            let done = switch_found Context (step_task Context 5) 5 ncpu cpu ctx s (some u) found in
            found
            ∙ (sym (update_self s.current cpu (some u))
                ∙ (ap (λ o. next_of o) (sym done ∙ e) ∙ now))
      ]
  where
    next_of : Option (Context × State Context) → Option ℕ
    next_of none = none
    next_of (some p) = p.1.current cpu

-- Behind some interrupts on its CPU the task t is current; nothing else has changed.
pub record Brought (ncpu t : ℕ) (m m' : Machine) : Type 0 where
  pub leads : Leads ncpu m m'
  pub inv : Inv ncpu m'
  pub now : m'.sched.current (t % ncpu) ≡ some t
  pub word : m'.biglock ≡ m.biglock
  pub out : m'.out ≡ m.out
  pub unmoved : (u : ℕ) → view ncpu m' u ≡ view ncpu m u

module _ (ncpu : ℕ) (some_cpu : 1 ≤ ncpu) (le : ncpu ≤ 5) where
  pub on_board : (t : ℕ) → t % ncpu < ncpu
  on_board t = mod-lt t some_cpu

  -- One interrupt more in front.
  interrupted_first :
      (t : ℕ) (m m1 m' : Machine)
      → interrupted ncpu (t % ncpu) m ≡ some m1
      → m1.biglock ≡ m.biglock
      → m1.out ≡ m.out
      → ((u : ℕ) → view ncpu m1 u ≡ view ncpu m u)
      → Brought ncpu t m1 m'
      → Brought ncpu t m m'
  interrupted_first t m m1 m' e word out unmoved b = record {
    leads = Leads-trans ncpu m m1 m' (switches (t % ncpu) m m1 stays (on_board t) e) b.leads;
    inv = b.inv;
    now = b.now;
    word = b.word ∙ word;
    out = b.out ∙ out;
    unmoved = λ u. b.unmoved u ∙ unmoved u;
  }

  bring_within :
      (d t : ℕ) (m : Machine)
      → Inv ncpu m
      → t < 5
      → distance Context 5 t (start Context (m.sched.current (t % ncpu))) ≤ d
      → (m' : Machine) × Brought ncpu t m m'
  bring_within zero t m h lt far =
      absurd (ground (arith, start-small Context ncpu (t % ncpu) m.sched (on_board t) h.placed))
  bring_within (suc d) t m h lt far =
      let cpu : ℕ = t % ncpu in
      let (u, s', e, e', sw) = interrupted_lem ncpu cpu m (on_board t) le h.placed in
      let m1 : Machine = record m { sched = s'; running = update m.running cpu (s'.context u) } in
      let h1 : Inv ncpu m1 = interrupted-Inv ncpu cpu u m s' h (on_board t) sw in
      let unmoved : (w : ℕ) → view ncpu m1 w ≡ view ncpu m w =
        view-Switched ncpu cpu u m.sched s' m.running h.placed (on_board t) sw in
      elim (seek-nearer ncpu t 5 (start Context (m.sched.current cpu)) u d
        (start-small Context ncpu cpu m.sched (on_board t) h.placed) lt
        (sought ncpu cpu u (m.running cpu) (s'.context u) m.sched s' e' sw.chosen) far) [
          | inl there ↦ (
            m1,
            record {
              leads = switches cpu m m1 stays (on_board t) e;
              inv = h1;
              now = sw.chosen ∙ ap some there;
              word = refl;
              out = refl;
              unmoved = unmoved;
            },
          )
          | inr closer ↦
              let (m', b) =
                bring_within d t m1 h1 lt (
                  subst (λ o. distance Context 5 t (start Context o) ≤ d) (sym sw.chosen) closer) in
              (m', interrupted_first t m m1 m' e refl refl unmoved b)
        ]

  pub bring : (t : ℕ) (m : Machine) → Inv ncpu m → t < 5 → (m' : Machine) × Brought ncpu t m m'
  bring t m h lt =
      bring_within (distance Context 5 t (start Context (m.sched.current (t % ncpu)))) t m h lt
        (omega arith)

  -- A current task runs where it stands.
  pub runs_at :
      (t : ℕ) (m : Machine) (c : Context)
      → m.sched.current (t % ncpu) ≡ some t
      → view ncpu m t ≡ c
      → m.running (t % ncpu) ≡ c
  runs_at t m c now e = ground (arith, now, e)
