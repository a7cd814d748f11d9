-- ===== src/SpinLock/Exchange.antt =====
-- The lock by exchange excludes, and loses no update.
use the_code_back_up_in_ubun.Base.{ℕ, ◌≡◌, refl, true, arith}
use the_code_back_up_in_ubun.SpinLock.{
  xchg_lock, lock_round, unlock, Pc, loaded, System, Step, come, spin, enter, load, store, leave,
  Reach, here, next, inside,
}

-- The value that a thread has loaded, or the sum if it has loaded none.
abbrev seen : System → Pc → ℕ
seen s (loaded v) = v
seen s _ = s.sum

record Inv (s : System) : Type 0 where
  taken : (i : ℕ) → inside (s.pc i) ≡ true → s.locked ≡ 1
  unique : (i j : ℕ) → inside (s.pc i) ≡ true → inside (s.pc j) ≡ true → i ≡ j
  fresh : (i : ℕ) → seen s (s.pc i) ≡ s.sum
  kept : s.sum ≡ s.done

Step-Inv : {s t : System} → Inv s → Step xchg_lock s t → Inv t
unfolding lock_round unlock
Step-Inv v (come i at) = record {
  taken = λ a. ground (arith, v.taken a);
  unique = λ a b. ground (arith, v.unique a b);
  fresh = λ a. ground (arith, v.fresh a);
  kept = v.kept;
}
Step-Inv v (spin i at held) = record {
  taken = λ a. ground (arith, v.taken a);
  unique = λ a b. ground (arith, v.unique a b);
  fresh = λ a. ground (arith, v.fresh a);
  kept = v.kept;
}
Step-Inv v (enter i at free) = record {
  taken = λ a. ground arith;
  unique = λ a b. ground (arith, v.taken a, v.taken b);
  fresh = λ a. ground (arith, v.fresh a);
  kept = v.kept;
}
Step-Inv v (load i at) = record {
  taken = λ a. ground (arith, v.taken a);
  unique = λ a b. ground (arith, v.unique a b, v.taken i);
  fresh = λ a. ground (arith, v.fresh a);
  kept = v.kept;
}
Step-Inv v (store i k at) = record {
  taken = λ a. ground (arith, v.taken a, v.taken i);
  unique = λ a b. ground (arith, v.unique a b, v.unique i a, v.unique i b);
  fresh = λ a. ground (arith, v.fresh a, v.unique i a);
  kept = ground (arith, v.kept, v.fresh i);
}
Step-Inv v (leave i at) = record {
  taken = λ a. ground (arith, v.unique i a);
  unique = λ a b. ground (arith, v.unique a b);
  fresh = λ a. ground (arith, v.fresh a);
  kept = v.kept;
}

Reach-Inv : {s : System} → Reach xchg_lock s → Inv s
Reach-Inv here = record { taken = λ i h. cc; unique = λ i j h. cc; fresh = λ i. refl; kept = refl }
Reach-Inv (next r st) = Step-Inv (Reach-Inv r) st

-- With the lock of threads.h, for any number of threads and in any interleaving: two threads
-- between the lock and the release are one, and the sum is the number of the increments.
pub exchange_excludes :
    (s : System)
    → Reach xchg_lock s
    → ((i j : ℕ) → inside (s.pc i) ≡ true → inside (s.pc j) ≡ true → i ≡ j) × (s.sum ≡ s.done)
exchange_excludes s r = ((Reach-Inv r).unique, (Reach-Inv r).kept)
