-- ===== src/Monitor/Gate/Steps.antt =====
-- Every step of a gated monitor keeps the phase: either no guarded thread is inside, or one is.
use the_code_back_up_in_ubun.Base.{
  ℕ, ◌≡◌, ◌⊎◌, inl, inr, true, false, some, update, arith, List, [], ◌∷◌, ◌++◌, keep-append,
  Bool-cases, append-nil, ◌∙◌, ap,
}
use the_code_back_up_in_ubun.Monitor.{
  Monitor, start, testing, printing, printed, leaving, System, broadcast,
}
use the_code_back_up_in_ubun.Monitor.Gate.{Gate, visible, Idle, Busy, Phase}

module _ {m : Monitor} (g : Gate m) (ch : ℕ → ℕ) where
  open m use {State, blocked, enter, leave, waits_on, wakes}
  open g use {guarded, Good, Live}

  visible-snoc_in :
      (out : List ℕ) (c : ℕ)
      → guarded c ≡ true
      → visible g ch (out ++ c ∷ []) ≡ visible g ch out ++ c ∷ []
  visible-snoc_in out c h =
      keep-append guarded out (c ∷ []) ∙ ap (λ w. visible g ch out ++ w) (rw h)

  visible-snoc_out :
      (out : List ℕ) (c : ℕ) → guarded c ≡ false → visible g ch (out ++ c ∷ []) ≡ visible g ch out
  visible-snoc_out out c h =
      keep-append guarded out (c ∷ [])
      ∙ ap (λ w. visible g ch out ++ w) (rw h)
      ∙ append-nil (visible g ch out)

  module _ (s : System State) (i : ℕ) where
    -- A guarded thread passes: no other is inside, since the gate is closed then.
    pub pass_in :
        (st : State)
        → s.pc i ≡ testing
        → s.shared ≡ some st
        → blocked (ch i) st ≡ false
        → guarded (ch i) ≡ true
        → Phase g ch s
        → Busy g ch (enter (ch i) st) (update s.pc i printing) s.out
    pass_in st at sh b gd (inl r) =
        let same : r.st ≡ st = ground (arith, r.at) in
        let good : Good st (visible g ch s.out) = rw same at r.good in
        let (t, entered, q, left) = g.enter-Good (ch i) st (visible g ch s.out) good gd b in
        record {
          who = i;
          before = st;
          st = t;
          seen = visible g ch s.out;
          at = entered;
          good = good;
          guard = gd;
          free = b;
          entered = entered;
          is_in = ground arith;
          only = λ j. ground (arith, r.none_in j);
          shown = ground arith;
        }
    pass_in st at sh b gd (inr z) =
        let (t, entered, q, left) = g.enter-Good (ch z.who) z.before z.seen z.good z.guard z.free in
        let same : t ≡ st = ground (arith, z.at, z.entered) in
        absurd (ground (arith, q (ch i) gd, same))

    -- Any other thread passes, and changes nothing.
    pub pass_out :
        (st : State)
        → s.pc i ≡ testing
        → s.shared ≡ some st
        → guarded (ch i) ≡ false
        → Phase g ch s
        → Idle g ch s.shared (update s.pc i printing) s.out
          ⊎ Busy g ch s.shared (update s.pc i printing) s.out
    pass_out st at sh gd (inl r) = inl record {
      st = r.st;
      at = r.at;
      good = r.good;
      none_in = λ j. ground (arith, r.none_in j);
      side = r.side;
      live = r.live;
      asleep = λ j w k. ground (arith, r.asleep j);
    }
    pass_out st at sh gd (inr b) = inr record {
      who = b.who;
      before = b.before;
      st = b.st;
      seen = b.seen;
      at = b.at;
      good = b.good;
      guard = b.guard;
      free = b.free;
      entered = b.entered;
      is_in = ground (arith, b.is_in);
      only = λ j. ground (arith, b.only j);
      shown = ground (arith, b.shown, b.guard);
    }

    pub print-Phase :
        s.pc i ≡ printing
        → Phase g ch s
        → Idle g ch s.shared (update s.pc i printed) (s.out ++ ch i ∷ [])
          ⊎ Busy g ch s.shared (update s.pc i printed) (s.out ++ ch i ∷ [])
    print-Phase at (inl r) =
        let out_c : guarded (ch i) ≡ false = ground (arith, r.none_in i) in
        inl record {
          st = r.st;
          at = r.at;
          good = rw (visible-snoc_out s.out (ch i) out_c) r.good;
          none_in = λ j. ground (arith, r.none_in j);
          side = r.side;
          live = r.live;
          asleep = λ j w k. ground (arith, r.asleep j);
        }
    print-Phase at (inr b) = inr record {
      who = b.who;
      before = b.before;
      st = b.st;
      seen = b.seen;
      at = b.at;
      good = b.good;
      guard = b.guard;
      free = b.free;
      entered = b.entered;
      is_in = ground (arith, b.is_in);
      only = λ j. ground (arith, b.only j);
      shown = elim (Bool-cases (guarded (ch i))) [
        | inl gd ↦
            let e : i ≡ b.who = b.only i (ground arith) in
            ground (arith, visible-snoc_in s.out (ch i) gd, b.shown)
        | inr gd ↦ ground (arith, visible-snoc_out s.out (ch i) gd, b.shown, b.guard)
      ];
    }

    pub finish_in :
        (st : State)
        → s.pc i ≡ leaving
        → s.shared ≡ some st
        → guarded (ch i) ≡ true
        → Phase g ch s
        → Idle g ch (leave (ch i) st) (broadcast m ch (ch i) (update s.pc i start)) s.out
    finish_in st at sh gd (inl r) = absurd (ground (arith, r.none_in i))
    finish_in st at sh gd (inr b) =
        let e : i ≡ b.who = b.only i (ground arith) in
        let (t, entered, q, (u, left, good, (k, wakes_k, live))) =
          g.enter-Good (ch b.who) b.before b.seen b.good b.guard b.free in
        let same : t ≡ st = ground (arith, b.at, b.entered) in
        record {
          st = u;
          at = ground (arith, left);
          good = ground (arith, good, b.shown);
          none_in = λ j. ground (arith, b.only j);
          side = k;
          live = ground (arith, live);
          asleep = λ j. ground (arith, wakes_k);
        }

    pub finish_out :
        (st : State)
        → s.pc i ≡ leaving
        → s.shared ≡ some st
        → guarded (ch i) ≡ false
        → Phase g ch s
        → Idle g ch (some st) (broadcast m ch (ch i) (update s.pc i start)) s.out
          ⊎ Busy g ch (some st) (broadcast m ch (ch i) (update s.pc i start)) s.out
    finish_out st at sh gd (inl r) = inl record {
      st = r.st;
      at = ground (arith, r.at);
      good = r.good;
      none_in = λ j. ground (arith, r.none_in j);
      side = r.side;
      live = r.live;
      asleep = λ j w k. ground (arith, r.asleep j);
    }
    finish_out st at sh gd (inr b) = inr record {
      who = b.who;
      before = b.before;
      st = b.st;
      seen = b.seen;
      at = ground (arith, b.at);
      good = b.good;
      guard = b.guard;
      free = b.free;
      entered = b.entered;
      is_in = ground (arith, b.is_in);
      only = λ j. ground (arith, b.only j);
      shown = ground (arith, b.shown, b.guard);
    }
