-- ===== src/Monitor/Lock.antt =====
-- The mutex of the frame in Monitor.antt: who owns it, and which threads can move.
use the_code_back_up_in_ubun.Base.{ℕ, ◌≡◌, Bool, true, false, some, update, arith}
use the_code_back_up_in_ubun.Monitor.{
  Monitor, Pc, start, testing, leaving, System, broadcast, Step, lock_before, sleep, pass, wake,
  relock, print, lock_after, finish, Reach, here, next,
}

-- The places at which a thread has the mutex.
abbrev pub holding : Pc → Bool
holding testing = true
holding leaving = true
holding _ = false

pub record Owned {S : Type 0} (n : ℕ) (s : System S) : Type 0 where
  pub holder : (i : ℕ) → holding (s.pc i) ≡ true → s.owner ≡ some i
  pub held : (i : ℕ) → s.owner ≡ some i → holding (s.pc i) ≡ true

module _ (m : Monitor) (ch : ℕ → ℕ) where
  holding-broadcast :
      (c : ℕ) (pc : ℕ → Pc) (i : ℕ) → holding (broadcast m ch c pc i) ≡ holding (pc i)
  holding-broadcast c pc i = ground arith

  pub Step-Owned :
      {n : ℕ} {s t : System (Monitor.State m)} → Owned n s → Step m ch n s t → Owned n t
  Step-Owned o (lock_before i lo hi at free) = record {
    holder = λ j. ground (arith, o.holder j);
    held = λ j. ground (arith, o.held j);
  }
  Step-Owned o (sleep i st at sh b) = record {
    holder = λ j. ground (arith, o.holder j, o.holder i);
    held = λ j. ground (arith, o.held j);
  }
  Step-Owned o (pass i st at sh b) = record {
    holder = λ j. ground (arith, o.holder j, o.holder i);
    held = λ j. ground (arith, o.held j);
  }
  Step-Owned o (wake i at) = record {
    holder = λ j. ground (arith, o.holder j);
    held = λ j. ground (arith, o.held j);
  }
  Step-Owned o (relock i at free) = record {
    holder = λ j. ground (arith, o.holder j);
    held = λ j. ground (arith, o.held j);
  }
  Step-Owned o (print i at) = record {
    holder = λ j. ground (arith, o.holder j);
    held = λ j. ground (arith, o.held j);
  }
  Step-Owned o (lock_after i at free) = record {
    holder = λ j. ground (arith, o.holder j);
    held = λ j. ground (arith, o.held j);
  }
  Step-Owned {s} o (finish i st at sh) = record {
    holder = λ j.
        ground (arith, o.holder j, o.holder i, holding-broadcast (ch i) (update s.pc i start) j);
    held = λ j. ground (arith, o.held j);
  }

  pub Reach-Owned : {n : ℕ} {s : System (Monitor.State m)} → Reach m ch n s → Owned n s
  Reach-Owned here = record { holder = λ i h. cc; held = λ i h. cc }
  Reach-Owned (next r st) = Step-Owned (Reach-Owned r) st

  -- The mutex excludes: two threads that are between a lock and an unlock are one.
  pub one_holder :
      {n : ℕ} {s : System (Monitor.State m)}
      → Reach m ch n s
      → (i j : ℕ) → holding (s.pc i) ≡ true
      → holding (s.pc j) ≡ true
      → i ≡ j
  one_holder r i j a b = ground (arith, (Reach-Owned r).holder i a, (Reach-Owned r).holder j b)
