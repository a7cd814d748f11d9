-- ===== src/ArrayCo/Returns.antt =====
-- The address of callback that `set_ret_addr` of libco/co.c writes, which is called
-- before the new coroutine is the current one.
use the_code_back_up_in_ubun.Base.{
  ℕ, ◌+◌, ◌-◌, ◌*◌, ◌%◌, ◌^◌, ◌<◌, ◌≡◌, ◌≢◌, arith, update, update_other, sym,
}
use the_code_back_up_in_ubun.LibCo.Returns.{put_bytes, stack_size, number_at}

unfoldable pub set_ret_addr : ℕ → (ℕ → ℕ) → ℕ → ℕ
unfolding put_bytes
set_ret_addr callback stack = put_bytes 16 (stack_size - 28) callback stack

-- The branch for IA-32, on the stacks of all coroutines: it writes on that of the current one.
unfoldable pub set_ret_addr_32 : ℕ → ℕ → (ℕ → ℕ → ℕ) → ℕ → ℕ → ℕ
unfolding put_bytes
set_ret_addr_32 callback current stacks =
    update stacks current (put_bytes 4 (stack_size - 36) (callback % 2 ^ 32) (stacks current))

-- `for(int i = 0; i < STACK_SIZE; i ++)` in co_start.
abbrev pub cleared : ℕ → ℕ
cleared at = 0

-- On the stack that co_start of libco/co.c clears, the function of a coroutine that co_yield enters
-- does not return to callback: on x86-64, 32 bytes below the end, it returns to the lower half of the
-- address of callback, moved up by 32 bits, and on IA-32, 40 bytes below the end, to NULL.
pub set_ret_addr-number_at :
    (callback current co : ℕ) (stacks : ℕ → ℕ → ℕ)
    → 0 < callback
    → callback < 2 ^ 64
    → co ≢ current
    → ((at : ℕ) → stacks co at ≡ cleared at)
    → (number_at 8 (stack_size - 32) (set_ret_addr callback (stacks co))
        ≡ callback % 2 ^ 32 * 2 ^ 32)
      × (number_at 8 (stack_size - 32) (set_ret_addr callback (stacks co)) ≢ callback)
      × (number_at 4 (stack_size - 40) (set_ret_addr_32 callback current stacks co) ≡ 0)
unfolding set_ret_addr set_ret_addr_32 put_bytes
set_ret_addr-number_at callback current co stacks nonzero lt other clear =
    let low : (i : ℕ) → stacks co (stack_size - 32 + i) ≡ 0 = λ i. clear (stack_size - 32 + i) in
    let untouched : set_ret_addr_32 callback current stacks co ≡ stacks co =
      update_other stacks _ (λ h. other (sym h)) in
    (
      omega (arith, low 0, low 1, low 2, low 3),
      omega (arith, low 0, low 1, low 2, low 3),
      rw untouched (
          omega (
            arith,
            clear (stack_size - 40),
            clear (stack_size - 39),
            clear (stack_size - 38),
            clear (stack_size - 37),
          )),
    )
