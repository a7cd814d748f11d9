-- ===== src/FishDraft.antt =====
-- os-midterm/fish.c, an earlier fish.c without an automaton: the sum of the characters that are
-- printed tells where the fish is. `fish_before` does not compile, as it names a lock and a
-- condition that are not declared. Midterm has the threads.h beside it.
mod Examples
pub mod Signals
pub mod Midterm
use the_code_back_up_in_ubun.Base.{
  ℕ, zero, suc, ◌+◌, ◌%◌, Bool, List, [], ◌∷◌, ◌==◌, if◌then◌else◌, ltb, get_or,
}

-- The condition variables.
pub data Condition : Type 0 where
  underline : Condition
  big : Condition
  small : Condition

-- The globals.
pub record Draft : Type 0 where
  pub fish_sum : ℕ
  pub last : ℕ

-- `fish_init`, which also seeds rand().
unfoldable pub fish_init : Draft
fish_init = record { fish_sum = 0; last = 0 }

-- `fish_after` between lock and unlock: the globals, and the condition that it signals. `r` is the
-- value of rand(). What is added is a character, and the sum stays an int.
unfoldable pub fish_after : ℕ → ℕ → Draft → Draft × Condition
fish_after r ch s =
    let total = s.fish_sum + ch in
    let sum = if ltb 240 total then 0 else total in
    (
      record { fish_sum = sum; last = ch },
      if ltb 180 sum
          then underline
          else if ch == b'>'
          then small
          else if ch == b'<'
          then big
          else if r % 2 == 0
          then small
          else big,
    )

-- The character whose threads wait for the condition, as the comment in `fish_before` has it.
unfoldable pub waiter : Condition → ℕ
waiter underline = b'_'
waiter big = b'>'
waiter small = b'<'
