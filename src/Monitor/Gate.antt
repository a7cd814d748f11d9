-- ===== src/Monitor/Gate.antt =====
-- A monitor whose guarded characters pass one at a time. `Gate` holds what a program has to show of
-- its test and its updates; this module says what follows for every interleaving.
pub mod Steps
use the_code_back_up_in_ubun.Base.{
  ℕ, ◌≤◌, ◌≡◌, refl, ◌⊎◌, inl, inr, ◌≢◌, Bool, true, false, Option, none, some, ◌==◌, update, arith,
  List, [], ◌∷◌, ◌++◌, keep, keep-append, ◌&&◌, Bool-cases, append-nil, zero, sym, ◌∙◌, ap,
}
use the_code_back_up_in_ubun.Monitor.{
  Monitor, Pc, start, testing, waiting, woken, printing, printed, leaving, System, broadcast, boot,
  Step, lock_before, sleep, pass, wake, relock, print, lock_after, finish, Reach, here, next,
}

-- `Good st v`: with no guarded thread inside, `st` is a right state after the output `v`.
-- While a guarded thread is inside, the gate is closed to every other.
-- `Live k st`: some thread that waits on the condition variable k could pass in `st`.
pub record Gate (m : Monitor) : Type 1 where
  pub guarded : ℕ → Bool
  pub Good : Monitor.State m → List ℕ → Type 0
  pub Live : ℕ → Monitor.State m → Type 0
  pub init-Good : Good (Monitor.init m) []
  pub init-Live : (k : ℕ) × Live k (Monitor.init m)
  pub enter-Good :
      (c : ℕ) (st : Monitor.State m) (v : List ℕ)
      → Good st v
      → guarded c ≡ true
      → Monitor.blocked m c st ≡ false
      → (t : Monitor.State m) × (Monitor.enter m c st ≡ some t)
        × ((d : ℕ) → guarded d ≡ true → Monitor.blocked m d t ≡ true)
        × ((u : Monitor.State m) × (Monitor.leave m c t ≡ some u)
            × Good u (v ++ c ∷ [])
            × ((k : ℕ) × (Monitor.wakes m c k ≡ true) × Live k u))
  pub enter_other :
      (c : ℕ) (st : Monitor.State m) → guarded c ≡ false → Monitor.enter m c st ≡ some st
  pub leave_other :
      (c : ℕ) (st : Monitor.State m) → guarded c ≡ false → Monitor.leave m c st ≡ some st

-- Between the return of `X_before` and the unlock of `X_after`.
abbrev pub inside : Pc → Bool
inside printing = true
inside printed = true
inside leaving = true
inside _ = false

-- What the output holds of the character of a thread that is inside.
abbrev pub sent : Pc → ℕ → List ℕ → List ℕ
sent printing c v = v
sent _ c v = v ++ c ∷ []

module _ {m : Monitor} (g : Gate m) (ch : ℕ → ℕ) where
  open m use {State, blocked, enter, leave, waits_on, wakes}
  open g use {guarded, Good, Live}

  abbrev pub active : (ℕ → Pc) → ℕ → Bool
  active pc i = inside (pc i) && guarded (ch i)

  -- The output without the characters that take no part.
  abbrev pub visible : List ℕ → List ℕ
  visible = keep guarded

  pub record Idle (sh : Option State) (pc : ℕ → Pc) (out : List ℕ) : Type 0 where
    pub st : State
    pub at : sh ≡ some st
    pub good : Good st (visible out)
    pub none_in : (i : ℕ) → active pc i ≡ false
    pub side : ℕ
    pub live : Live side st
    pub asleep : (i : ℕ) → pc i ≡ waiting → waits_on (ch i) ≡ side → blocked (ch i) st ≡ true

  pub record Busy (sh : Option State) (pc : ℕ → Pc) (out : List ℕ) : Type 0 where
    pub who : ℕ
    pub before : State
    pub st : State
    pub seen : List ℕ
    pub at : sh ≡ some st
    pub good : Good before seen
    pub guard : guarded (ch who) ≡ true
    pub free : blocked (ch who) before ≡ false
    pub entered : enter (ch who) before ≡ some st
    pub is_in : inside (pc who) ≡ true
    pub only : (i : ℕ) → active pc i ≡ true → i ≡ who
    pub shown : visible out ≡ sent (pc who) (ch who) seen

  abbrev pub Phase : System State → Type 0
  Phase s = Idle s.shared s.pc s.out ⊎ Busy s.shared s.pc s.out

  pub boot-Phase : Phase (boot m ch)
  boot-Phase = inl record {
    st = m.init;
    at = refl;
    good = g.init-Good;
    none_in = λ i. refl;
    side = g.init-Live.0;
    live = g.init-Live.1;
    asleep = λ i h. cc;
  }

  -- A thread moves, and neither passes the gate nor prints.
  module _ {sh : Option State} {pc : ℕ → Pc} {out : List ℕ} (i : ℕ) {p : Pc} (q : Pc)
      (here : pc i ≡ p) (same : inside q ≡ inside p)
      (told : (c : ℕ) (v : List ℕ) → sent q c v ≡ sent p c v)
      (slept : q ≡ waiting → (st : State) → sh ≡ some st → blocked (ch i) st ≡ true) where
    move-Idle : Idle sh pc out → Idle sh (update pc i q) out
    move-Idle r = record {
      st = r.st;
      at = r.at;
      good = r.good;
      none_in = λ j. ground (arith, r.none_in j);
      side = r.side;
      live = r.live;
      asleep = λ j w k. ground (arith, r.asleep j, λ (e : q ≡ waiting). slept e r.st r.at);
    }

    move-Busy : Busy sh pc out → Busy sh (update pc i q) out
    move-Busy b = record {
      who = b.who;
      before = b.before;
      st = b.st;
      seen = b.seen;
      at = b.at;
      good = b.good;
      guard = b.guard;
      free = b.free;
      entered = b.entered;
      is_in = ground (arith, b.is_in);
      only = λ j. ground (arith, b.only j, b.only i);
      shown = ground (arith, b.shown, told (ch b.who) b.seen);
    }

    pub move-Phase :
        Idle sh pc out ⊎ Busy sh pc out → Idle sh (update pc i q) out ⊎ Busy sh (update pc i q) out
    move-Phase (inl r) = inl (move-Idle r)
    move-Phase (inr b) = inr (move-Busy b)
