-- ===== src/Sums.antt =====
-- multi-threads/sum.c and multi-threads/sum-atomic.c: four threads that add 1 to one sum, each of
-- them so many times; and multi-threads/bug.c, whose workers add 1 once each. `addq` loads and
-- stores, two steps that other processors can come between; `lock addq` is one step. The numbers
-- have 64 bits.
pub mod Bounds
mod Examples
pub mod Locked
pub mod Lost
use the_code_back_up_in_ubun.Base.{
  ℕ, zero, suc, ◌+◌, ◌-◌, ◌%◌, ◌^◌, ◌<◌, ◌≡◌, Option, none, some, ◌==◌, if◌then◌else◌, update,
}

-- The global, and of each thread the rounds that are left and what `addq` has loaded.
pub record System : Type 0 where
  pub sum : ℕ
  pub left : ℕ → ℕ
  pub loaded : ℕ → Option ℕ

-- The bound of the loop in `do_sum`, and the number of threads.
abbrev pub loop_bound : ℕ
loop_bound = 10000000

abbrev pub thread_count : ℕ
thread_count = 4

abbrev pub started : ℕ → System
started rounds = record { sum = 0; left = λ t. rounds; loaded = λ t. none }

-- A step of the thread t in `do_sum` of sum.c, with an empty PREFIX; `none` if its loop has ended.
unfoldable pub do_sum : ℕ → System → Option System
do_sum t s = elim (s.loaded t) [
  | none ↦
      if s.left t == 0 then none else some (record s { loaded = update s.loaded t (some s.sum) })
  | some v ↦ some (record s {
    sum = (v + 1) % 2 ^ 64;
    left = update s.left t (s.left t - 1);
    loaded = update s.loaded t none;
  })
]

-- The same in sum-atomic.c, where PREFIX is `lock`.
unfoldable pub do_locked_sum : ℕ → System → Option System
do_locked_sum t s =
    if s.left t == 0
    then none
    else some (record s { sum = (s.sum + 1) % 2 ^ 64; left = update s.left t (s.left t - 1) })

-- `workload` of bug.c, on `done`, which stands for the sum here.
unfoldable pub workload : ℕ → System → Option System
unfolding do_locked_sum
workload t s = do_locked_sum t s

-- What the steps of the threads lead to from `main` on, in any order.
pub data Reached (step : ℕ → System → Option System) (rounds : ℕ) : System → Type 0 where
  at_start : Reached step rounds (started rounds)
  stepped :
      (t : ℕ) (s s' : System)
      → t < thread_count
      → Reached step rounds s
      → step t s ≡ some s'
      → Reached step rounds s'

-- Every thread has returned, and `join` goes on to print.
abbrev pub Joined : System → Type 0
Joined s = (t : ℕ) → t < thread_count → s.left t ≡ 0

-- The rounds that are left of all threads.
abbrev pub all_left : (ℕ → ℕ) → ℕ
all_left left = left 0 + left 1 + left 2 + left 3
