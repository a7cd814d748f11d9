-- ===== src/Monitor.antt =====
-- The frame that multi-threads/fish.c and multi-threads/brac.c share: n threads, each of which
-- loops through `X_before(ch)`, `putchar(ch)` and `X_after(ch)` over one mutex and its condition
-- variables. A program is a value of `Monitor`; its threads interleave one `Step` at a time.
-- The mutex and the condition variables are those of pthreads: a lock is taken only if it is free,
-- a wait gives the mutex up and sleeps at once, a sleeper wakes by a broadcast or with no reason
-- at all, and takes the mutex again before it goes on.
pub mod Gate
pub mod Lock
pub mod Pace
pub mod Progress
pub mod Schedule
use the_code_back_up_in_ubun.Base.{
  ℕ, ◌≤◌, ◌≡◌, Bool, true, false, Option, none, some, List, [], ◌∷◌, ◌++◌, if◌then◌else◌, update,
}

-- What a program puts into the frame. A character is its code.
pub record Monitor : Type 1 where
  pub State : Type 0
  pub init : State
  -- the test of the `while` around the wait in `X_before`
  pub blocked : ℕ → State → Bool
  -- what follows that loop up to the unlock; `none` is a failed assertion or a write out of bounds
  pub enter : ℕ → State → Option State
  -- what `X_after` does between lock and unlock
  pub leave : ℕ → State → Option State
  -- the condition variable on which `X_before` waits
  pub waits_on : ℕ → ℕ
  -- does `X_after` broadcast on this condition variable?
  pub wakes : ℕ → ℕ → Bool

-- Where a thread stands.
pub data Pc : Type 0 where
  start : Pc  -- before the lock of `X_before`
  testing : Pc  -- at the `while` of `X_before`, with the mutex
  waiting : Pc  -- asleep in `pthread_cond_wait`
  woken : Pc  -- awake again, still without the mutex
  printing : Pc  -- `X_before` has returned, before `putchar`
  printed : Pc  -- before the lock of `X_after`
  leaving : Pc  -- in `X_after`, with the mutex

-- `none` in `shared` is a process that an assertion or a write out of bounds has ended.
pub record System (S : Type 0) : Type 0 where
  pub shared : Option S
  pub owner : Option ℕ
  pub pc : ℕ → Pc
  pub out : List ℕ

module _ (m : Monitor) (ch : ℕ → ℕ) where
  open m use {State, init, blocked, enter, leave, waits_on, wakes}

  -- A broadcast on the condition variables that `X_after(c)` names.
  abbrev pub broadcast : ℕ → (ℕ → Pc) → ℕ → Pc
  broadcast c pc i = elim (pc i) [
    | waiting ↦ (if wakes c (waits_on (ch i)) then woken else waiting)
    | p ↦ p
  ]

  abbrev pub boot : System State
  boot = record { shared = some init; owner = none; pc = λ _. start; out = [] }

  -- The threads have the numbers 1 to n, and thread i has the character `ch i`.
  pub data Step (n : ℕ) (s : System State) : System State → Type 0 where
    lock_before :
        (i : ℕ)
        → 1 ≤ i
        → i ≤ n
        → s.pc i ≡ start
        → s.owner ≡ none
        → Step n s (record s { owner = some i; pc = update s.pc i testing })
    sleep :
        (i : ℕ) (st : State)
        → s.pc i ≡ testing
        → s.shared ≡ some st
        → blocked (ch i) st ≡ true
        → Step n s (record s { owner = none; pc = update s.pc i waiting })
    pass :
        (i : ℕ) (st : State)
        → s.pc i ≡ testing
        → s.shared ≡ some st
        → blocked (ch i) st ≡ false
        → Step n s
            (record s { shared = enter (ch i) st; owner = none; pc = update s.pc i printing })
    wake : (i : ℕ) → s.pc i ≡ waiting → Step n s (record s { pc = update s.pc i woken })
    relock :
        (i : ℕ)
        → s.pc i ≡ woken
        → s.owner ≡ none
        → Step n s (record s { owner = some i; pc = update s.pc i testing })
    print :
        (i : ℕ)
        → s.pc i ≡ printing
        → Step n s (record s { pc = update s.pc i printed; out = s.out ++ ch i ∷ [] })
    lock_after :
        (i : ℕ)
        → s.pc i ≡ printed
        → s.owner ≡ none
        → Step n s (record s { owner = some i; pc = update s.pc i leaving })
    finish :
        (i : ℕ) (st : State)
        → s.pc i ≡ leaving
        → s.shared ≡ some st
        → Step n s (record s {
          shared = leave (ch i) st;
          owner = none;
          pc = broadcast (ch i) (update s.pc i start);
        })

  pub data Reach (n : ℕ) : System State → Type 0 where
    here : Reach n boot
    next : {s t : System State} → Reach n s → Step n s t → Reach n t
