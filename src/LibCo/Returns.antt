-- ===== src/LibCo/Returns.antt =====
-- The address of callback that co_yield of libco/co-first.c writes on a new stack, byte by byte.
use the_code_back_up_in_ubun.Base.{
  ℕ, zero, suc, ◌+◌, ◌-◌, ◌*◌, ◌/◌, ◌%◌, ◌^◌, ◌<◌, ◌≡◌, arith, update,
}

-- `stack[at + i] = num % 256; num /= 256;` in so many rounds.
unfoldable pub put_bytes : ℕ → ℕ → ℕ → (ℕ → ℕ) → ℕ → ℕ
put_bytes zero at num stack = stack
put_bytes (suc rounds) at num stack =
    put_bytes rounds (at + 1) (num / 256) (update stack at (num % 256))

abbrev pub stack_size : ℕ
stack_size = 2 ^ 16

unfoldable pub put_callback : ℕ → (ℕ → ℕ) → ℕ → ℕ
unfolding put_bytes
put_callback callback stack = put_bytes 16 (stack_size - 32) callback stack

-- The branch for IA-32.
unfoldable pub put_callback_32 : ℕ → (ℕ → ℕ) → ℕ → ℕ
unfolding put_bytes
put_callback_32 callback stack = put_bytes 4 (stack_size - 40) (callback % 2 ^ 32) stack

-- What a return takes from the stack: the number of so many bytes, the lowest first.
abbrev pub number_at : ℕ → ℕ → (ℕ → ℕ) → ℕ
number_at zero at stack = 0
number_at (suc n) at stack = stack at + 256 * number_at n (at + 1) stack

-- The address of callback that co_yield of co-first.c writes on a new stack is the one that the
-- function of the coroutine returns to: on x86-64, where its stack begins 32 bytes below the end,
-- with its 64 bits, and on IA-32, where it begins 40 bytes below the end, with the lower 32.
pub put_callback-number_at :
    (callback : ℕ) (stack : ℕ → ℕ)
    → callback < 2 ^ 64
    → (number_at 8 (stack_size - 32) (put_callback callback stack) ≡ callback)
      × (number_at 4 (stack_size - 40) (put_callback_32 callback stack) ≡ callback % 2 ^ 32)
unfolding put_callback put_callback_32 put_bytes
put_callback-number_at callback stack lt = (omega arith, omega arith)
