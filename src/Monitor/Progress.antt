-- ===== src/Monitor/Progress.antt =====
-- What holds of a gated monitor in every reachable state: the phase, the exclusion, the life of the
-- process, and that guarded threads can move without a wake-up that comes from nowhere.
use the_code_back_up_in_ubun.Base.{
  ℕ, ◌≤◌, ◌≡◌, refl, inl, inr, ◌≢◌, ◌⊎◌, Bool, true, false, none, some, arith, List, Bool-cases,
  Option-cases,
}
use the_code_back_up_in_ubun.Monitor.{
  Monitor, start, testing, waiting, woken, printing, printed, leaving, System, Step, lock_before,
  sleep, pass, wake, relock, print, lock_after, finish, Reach, here, next,
}
use the_code_back_up_in_ubun.Monitor.Lock.{holding, Owned, Reach-Owned}
use the_code_back_up_in_ubun.Monitor.Gate.{Gate, active, visible, Phase, boot-Phase, move-Phase}
use the_code_back_up_in_ubun.Monitor.Gate.Steps.{
  pass_in, pass_out, print-Phase, finish_in, finish_out,
}

-- A wake-up that no broadcast caused.
abbrev pub spurious :
    {m : Monitor} {ch : ℕ → ℕ} {n : ℕ} {s t : System (Monitor.State m)} → Step m ch n s t → Bool
spurious (wake _ _) = true
spurious (pass _ _ _ _ _) = false
spurious _ = false

-- A step that needs no such wake-up.
abbrev pub CanMove : (m : Monitor) (ch : ℕ → ℕ) → ℕ → System (Monitor.State m) → Type 0
CanMove m ch n s = (t : System (Monitor.State m)) × (st : Step m ch n s t) × (spurious st ≡ false)

-- The thread that makes the step; a sleeper that wakes makes that step itself.
abbrev pub mover :
    {m : Monitor} {ch : ℕ → ℕ} {n : ℕ} {s t : System (Monitor.State m)} → Step m ch n s t → ℕ
mover (lock_before i _ _ _ _) = i
mover (sleep i _ _ _ _) = i
mover (pass i _ _ _ _) = i
mover (wake i _) = i
mover (relock i _ _) = i
mover (print i _) = i
mover (lock_after i _ _) = i
mover (finish i _ _ _) = i

-- A step of this thread that needs no such wake-up.
abbrev pub Moves : (m : Monitor) (ch : ℕ → ℕ) → ℕ → System (Monitor.State m) → ℕ → Type 0
Moves m ch n s i =
    (t : System (Monitor.State m)) × (st : Step m ch n s t) × (spurious st ≡ false) × (mover st ≡ i)

-- One behind which the mutex is free.
abbrev pub Frees : (m : Monitor) (ch : ℕ → ℕ) → ℕ → System (Monitor.State m) → ℕ → Type 0
Frees m ch n s j =
    (t : System (Monitor.State m)) × (st : Step m ch n s t) × (spurious st ≡ false)
    × (mover st ≡ j)
    × (t.owner ≡ none)

module _ {m : Monitor} (g : Gate m) (ch : ℕ → ℕ) where
  open m use {State, blocked, enter, leave, waits_on, wakes}
  open g use {guarded, Good, Live}

  Step-Phase : {n : ℕ} {s t : System State} → Step m ch n s t → Phase g ch s → Phase g ch t
  Step-Phase (lock_before i lo hi at free) ph =
      move-Phase g ch i testing at refl (λ c v. refl) (λ e. cc) ph
  Step-Phase (sleep i st at sh b) ph =
      move-Phase g ch i waiting at refl (λ c v. refl) (λ e st' sh'. ground arith) ph
  Step-Phase {s} (pass i st at sh b) ph = elim (Bool-cases (guarded (ch i))) [
    | inl gd ↦ inr (pass_in g ch s i st at sh b gd ph)
    | inr gd ↦ rw (g.enter_other (ch i) st gd) (rw sh at (pass_out g ch s i st at sh gd ph))
  ]
  Step-Phase (wake i at) ph = move-Phase g ch i woken at refl (λ c v. refl) (λ e. cc) ph
  Step-Phase (relock i at free) ph = move-Phase g ch i testing at refl (λ c v. refl) (λ e. cc) ph
  Step-Phase {s} (print i at) ph = print-Phase g ch s i at ph
  Step-Phase (lock_after i at free) ph =
      move-Phase g ch i leaving at refl (λ c v. refl) (λ e. cc) ph
  Step-Phase {s} (finish i st at sh) ph = elim (Bool-cases (guarded (ch i))) [
    | inl gd ↦ inl (finish_in g ch s i st at sh gd ph)
    | inr gd ↦ rw (g.leave_other (ch i) st gd) (finish_out g ch s i st at sh gd ph)
  ]

  pub Reach-Phase : {n : ℕ} {s : System State} → Reach m ch n s → Phase g ch s
  Reach-Phase here = boot-Phase g ch
  Reach-Phase (next r st) = Step-Phase st (Reach-Phase r)

  -- No assertion ever ends the process.
  pub alive : (s : System State) → Phase g ch s → (st : State) × (s.shared ≡ some st)
  alive s (inl r) = (r.st, r.at)
  alive s (inr b) = (b.st, b.at)

  -- Two guarded threads are never inside together.
  pub one_inside :
      {n : ℕ} {s : System State}
      → Reach m ch n s
      → (i j : ℕ) → active g ch s.pc i ≡ true
      → active g ch s.pc j ≡ true
      → i ≡ j
  one_inside {s} r i j a b = elim (Reach-Phase r) [
    | inl q ↦ absurd (ground (arith, q.none_in i))
    | inr z ↦ ground (arith, z.only i a, z.only j b)
  ]

  -- The output is always right for some state of the program.
  pub visible-Good : (s : System State) → Phase g ch s → (st : State) × Good st (visible g ch s.out)
  visible-Good s (inl r) = (r.st, r.good)
  visible-Good s (inr b) =
      let (t, entered, q, (u, left, good, woke)) =
        g.enter-Good (ch b.who) b.before b.seen b.good b.guard b.free in
      elim (s.pc b.who) as (λ p. s.pc b.who ≡ p → (st : State) × Good st (visible g ch s.out)) [
        | printing ↦ λ e. (b.before, ground (arith, b.shown, b.good))
        | printed ↦ λ e. (u, ground (arith, b.shown, good))
        | leaving ↦ λ e. (u, ground (arith, b.shown, good))
        | _ ↦ λ e. absurd (ground (arith, b.is_in))
      ]
        refl

  -- The owner of the mutex can move, and gives the mutex up with that step.
  owner-Frees :
      {n : ℕ} {s : System State} (st : State)
      → s.shared ≡ some st
      → (j : ℕ) → holding (s.pc j) ≡ true
      → Frees m ch n s j
  owner-Frees {n} {s} st sh j h =
      elim (s.pc j) as (λ p. s.pc j ≡ p → Frees m ch n s j) [
        | testing ↦ λ e. elim (Bool-cases (blocked (ch j) st)) [
          | inl b ↦ (_, sleep j st e sh b, refl, refl, refl)
          | inr b ↦ (_, pass j st e sh b, refl, refl, refl)
        ]
        | leaving ↦ λ e. (_, finish j st e sh, refl, refl, refl)
        | _ ↦ λ e. absurd (ground arith)
      ]
        refl

  -- With the mutex free, a thread that does not sleep can move.
  awake-Moves :
      {n : ℕ} {s : System State}
      → s.owner ≡ none
      → (i : ℕ) → (s.pc i ≡ start → (1 ≤ i) × (i ≤ n))
      → holding (s.pc i) ≡ false
      → s.pc i ≢ waiting
      → Moves m ch n s i
  awake-Moves {n} {s} free i in_range out up =
      elim (s.pc i) as (λ p. s.pc i ≡ p → Moves m ch n s i) [
        | start ↦ λ e. (_, lock_before i (in_range e).0 (in_range e).1 e free, refl, refl)
        | woken ↦ λ e. (_, relock i e free, refl, refl)
        | printing ↦ λ e. (_, print i e, refl, refl)
        | printed ↦ λ e. (_, lock_after i e free, refl, refl)
        | waiting ↦ λ e. absurd (up e)
        | _ ↦ λ e. absurd (ground arith)
      ]
        refl

  -- Some guarded thread could pass at the side where the sleepers may have been forgotten.
  abbrev pub Rescue : ℕ → Type 0
  Rescue n =
      (k : ℕ) (st : State) (v : List ℕ)
      → Good st v
      → Live k st
      → (i : ℕ) × (1 ≤ i)
        × (i ≤ n)
        × (guarded (ch i) ≡ true)
        × (waits_on (ch i) ≡ k)
        × (blocked (ch i) st ≡ false)

  -- A guarded thread is inside, or its test lets it pass now.
  abbrev pub Admitted : System State → ℕ → Type 0
  Admitted s i =
      (active g ch s.pc i ≡ true)
      ⊎ ((st : State) × (s.shared ≡ some st) × (blocked (ch i) st ≡ false))

  -- While the mutex is free, a guarded thread that is admitted can move; otherwise its owner can,
  -- and gives it up.
  abbrev pub CanGo : ℕ → System State → Type 0
  CanGo n s =
      ((s.owner ≡ none) × ((i : ℕ) × (guarded (ch i) ≡ true) × Admitted s i × Moves m ch n s i))
      ⊎ ((j : ℕ) × (s.owner ≡ some j) × Frees m ch n s j)

  not_held :
      {n : ℕ} {s : System State} → Owned n s → s.owner ≡ none → (i : ℕ) → holding (s.pc i) ≡ false
  not_held o free i = ground (arith, o.holder i)

  -- Every reachable state can go on so.
  pub reach-CanGo : {n : ℕ} {s : System State} → Rescue n → Reach m ch n s → CanGo n s
  reach-CanGo {n} {s} rescue r = elim (Option-cases s.owner) [
    | inr (j, own) ↦
        let (st, sh) = alive s (Reach-Phase r) in
        inr (j, own, owner-Frees st sh j ((Reach-Owned m ch r).held j own))
    | inl free ↦ elim (Reach-Phase r) [
      | inl q ↦
          let (i, lo, hi, gd, side, can) = rescue q.side q.st (visible g ch s.out) q.good q.live in
          inl (
            free,
            (
              i,
              gd,
              inr (q.st, q.at, can),
              awake-Moves free i (λ e. (lo, hi)) (not_held (Reach-Owned m ch r) free i)
                  (λ w. ground (arith, q.asleep i w side)),
            ),
          )
      | inr b ↦ inl (
        free,
        (
          b.who,
          b.guard,
          inl (ground (arith, b.is_in, b.guard)),
          awake-Moves free b.who (λ e. absurd (ground (arith, b.is_in)))
              (not_held (Reach-Owned m ch r) free b.who) (λ w. ground (arith, b.is_in)),
        ),
      )
    ]
  ]

  -- No deadlock: in every reachable state some thread can move, and no lost wake-up is made good by
  -- chance.
  pub no_deadlock : {n : ℕ} {s : System State} → Rescue n → Reach m ch n s → CanMove m ch n s
  no_deadlock rescue r = elim (reach-CanGo rescue r) [
    | inl (free, (i, gd, admitted, (t, st, calm, by))) ↦ (t, st, calm)
    | inr (j, own, (t, st, calm, by, freed)) ↦ (t, st, calm)
  ]
