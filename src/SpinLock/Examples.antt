-- ===== src/SpinLock/Examples.antt =====
-- The theorems on the spin locks at concrete states.
use the_code_back_up_in_ubun.Base.{ℕ, ◌≡◌, refl, true, update, arith}
use the_code_back_up_in_ubun.SpinLock.{
  spinlock, xchg_lock, lock_round, trying, entered, stored, System, boot, come, enter, Reach, here,
  next, inside,
}
use the_code_back_up_in_ubun.SpinLock.Exchange.{exchange_excludes}
use the_code_back_up_in_ubun.SpinLock.Broken.{loses_update}

loses_update_example :
    (s : System) × Reach spinlock s
    × (s.pc 0 ≡ stored)
    × (s.pc 1 ≡ stored)
    × (s.sum ≡ 1)
    × (s.done ≡ 2)
loses_update_example = loses_update 0 1 (ground arith)

abbrev after_come : System
after_come = record boot { pc = update boot.pc 3 trying }

abbrev after_enter : System
after_enter = record after_come { locked = 1; pc = update after_come.pc 3 entered }

held-Reach : Reach xchg_lock after_enter
unfolding lock_round
held-Reach = next (next here (come 3 refl)) (enter 3 refl refl)

exchange_excludes_example :
    ((i j : ℕ) → inside (after_enter.pc i) ≡ true → inside (after_enter.pc j) ≡ true → i ≡ j)
    × (after_enter.sum ≡ after_enter.done)
exchange_excludes_example = exchange_excludes after_enter held-Reach
