-- ===== src/SpinLock.antt =====
-- The spin locks: that of multi-threads/spinlock.c, which loops on a compare-and-swap, and that of
-- multi-threads/threads.h and multi-threads/thread-os-mp.c, which loops on an exchange. Both guard
-- `sum++` here, a load and a store, as in do_sum1 of spinlock.c; each access of the lock is one
-- step, and threads interleave at will.
pub mod Exchange
pub mod Broken
mod Examples
use the_code_back_up_in_ubun.Base.{
  ℕ, zero, suc, ◌+◌, ◌≡◌, Bool, true, false, not, Option, none, some, ◌==◌, if◌then◌else◌, update,
}

-- `compare_and_swap`: what is stored, and what `sete` puts into `ret`: 1 if the swap was made.
unfoldable pub compare_and_swap : ℕ → ℕ → ℕ → ℕ × ℕ
compare_and_swap ptr old new = if ptr == old then (new, 1) else (ptr, 0)

-- `atomic_xchg`: what is stored, and the old value.
unfoldable pub atomic_xchg : ℕ → ℕ → ℕ × ℕ
atomic_xchg addr newval = (newval, addr)

-- A lock over one word: a round of its loop, which gives the word and whether the loop ends, and
-- the release.
pub record Lock : Type 0 where
  pub attempt : ℕ → ℕ × Bool
  pub release : ℕ → ℕ

-- `while(compare_and_swap(&lk->locked, 0, 1));`
unfoldable pub spin_round : ℕ → ℕ × Bool
unfolding compare_and_swap
spin_round locked = ((compare_and_swap locked 0 1).0, (compare_and_swap locked 0 1).1 == 0)

unfoldable pub spin_unlock : ℕ → ℕ
unfolding compare_and_swap
spin_unlock locked = (compare_and_swap locked 1 0).0

abbrev pub spinlock : Lock
spinlock = record { attempt = spin_round; release = spin_unlock }

-- The loop of `lock` in threads.h: it ends when the exchange gives 0.
unfoldable pub lock_round : ℕ → ℕ × Bool
unfolding atomic_xchg
lock_round locked = ((atomic_xchg locked 1).0, (atomic_xchg locked 1).1 == 0)

unfoldable pub unlock : ℕ → ℕ
unfolding atomic_xchg
unlock locked = (atomic_xchg locked 0).0

abbrev pub xchg_lock : Lock
xchg_lock = record { attempt = lock_round; release = unlock }

-- The whole of `spin_lock`, for a thread that runs alone: the word behind it, or `none` if the fuel
-- runs out.
unfoldable pub run_lock : Lock → ℕ → ℕ → Option ℕ
run_lock l zero locked = none
run_lock l (suc fuel) locked =
    let rest = run_lock l fuel (l.attempt locked).0 in
    if (l.attempt locked).1 then some (l.attempt locked).0 else rest

-- Where a thread stands in do_sum1.
pub data Pc : Type 0 where
  outside : Pc
  trying : Pc  -- in the loop of the lock
  entered : Pc  -- behind the lock, before the load of `sum`
  loaded : (value : ℕ) → Pc  -- before the store
  stored : Pc  -- before the release

-- `done` counts the stores.
pub record System : Type 0 where
  pub locked : ℕ
  pub sum : ℕ
  pub done : ℕ
  pub pc : ℕ → Pc

abbrev pub boot : System
boot = record { locked = 0; sum = 0; done = 0; pc = λ _. outside }

pub data Step (l : Lock) (s : System) : System → Type 0 where
  come : (i : ℕ) → s.pc i ≡ outside → Step l s (record s { pc = update s.pc i trying })
  spin :
      (i : ℕ)
      → s.pc i ≡ trying
      → (l.attempt s.locked).1 ≡ false
      → Step l s (record s { locked = (l.attempt s.locked).0 })
  enter :
      (i : ℕ)
      → s.pc i ≡ trying
      → (l.attempt s.locked).1 ≡ true
      → Step l s (record s { locked = (l.attempt s.locked).0; pc = update s.pc i entered })
  load : (i : ℕ) → s.pc i ≡ entered → Step l s (record s { pc = update s.pc i (loaded s.sum) })
  store :
      (i v : ℕ)
      → s.pc i ≡ loaded v
      → Step l s (record s { sum = v + 1; done = s.done + 1; pc = update s.pc i stored })
  leave :
      (i : ℕ)
      → s.pc i ≡ stored
      → Step l s (record s { locked = l.release s.locked; pc = update s.pc i outside })

pub data Reach (l : Lock) : System → Type 0 where
  here : Reach l boot
  next : {s t : System} → Reach l s → Step l s t → Reach l t

-- Between the lock and the release.
abbrev pub inside : Pc → Bool
inside outside = false
inside trying = false
inside _ = true
