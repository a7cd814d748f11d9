-- ===== src/SpinLock/Broken.antt =====
-- The lock of spinlock.c loops while its compare-and-swap succeeds, and goes on when it fails.
use the_code_back_up_in_ubun.Base.{
  ℕ, suc, ◌≡◌, ◌≢◌, refl, ap, subst, true, some, ◌==◌, if◌then◌else◌, update, arith,
}
use the_code_back_up_in_ubun.SpinLock.{
  spinlock, spin_round, run_lock, trying, entered, stored, System, Step, come, spin, enter, load,
  store, Reach, here, next,
}

-- For a thread that runs alone `spin_lock` always returns, after two rounds if the lock was free
-- and after one if it was taken, and the lock is taken then.
pub run_lock-spinlock :
    (k locked : ℕ)
    → run_lock spinlock (suc (suc k)) locked ≡ some (if locked == 0 then 1 else locked)
unfolding run_lock spin_round
run_lock-spinlock k locked = ground arith

round_taken : (locked : ℕ) → locked ≢ 0 → spin_round locked ≡ (locked, true)
unfolding spin_round
round_taken locked taken = ground arith

-- A thread that tries a lock which is taken enters at once, whoever else is inside.
pub enters_taken :
    (s : System) (i : ℕ)
    → s.pc i ≡ trying
    → s.locked ≢ 0
    → Step spinlock s (record s { pc = update s.pc i entered })
enters_taken s i at taken =
    let e = round_taken s.locked taken in
    subst (λ k. Step spinlock s (record s { locked = k; pc = update s.pc i entered }))
      (ap (λ p. p.0) e) (enter i at (ap (λ p. p.1) e))

-- For any two threads there is a reachable state in which both are behind the lock of spinlock.c,
-- with the sum stored and the lock not yet released, and in which the sum is 1 after two stores: one
-- of the two increments is lost.
pub loses_update :
    (i j : ℕ)
    → i ≢ j
    → (s : System) × Reach spinlock s
      × (s.pc i ≡ stored)
      × (s.pc j ≡ stored)
      × (s.sum ≡ 1)
      × (s.done ≡ 2)
unfolding spin_round
loses_update i j apart = (
  _,
  next
      (next
        (next
          (next
            (next
              (next
                (next (next (next here (come i refl)) (come j (ground arith)))
                  (spin i (ground arith) refl))
                (enter i (ground arith) refl))
              (enter j (ground arith) refl))
            (load i (ground arith)))
          (load j (ground arith)))
        (store i 0 (ground arith)))
      (store j 0 (ground arith)),
  ground arith,
  ground arith,
  refl,
  refl,
)
