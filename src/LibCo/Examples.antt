-- ===== src/LibCo/Examples.antt =====
-- The address of callback on a stack of libco/co-first.c.
use the_code_back_up_in_ubun.LibCo.Returns.{
  put_callback, put_callback_32, stack_size, number_at, put_callback-number_at,
}
use the_code_back_up_in_ubun.Base.{◌%◌, ◌≡◌, arith, ◌+◌, ◌-◌, ◌^◌}

put_callback-number_at_example :
    (number_at 8 (stack_size - 32) (put_callback (2 ^ 47 + 77) (λ at. 9)) ≡ 2 ^ 47 + 77)
    × (number_at 4 (stack_size - 40) (put_callback_32 (2 ^ 47 + 77) (λ at. 9))
        ≡ (2 ^ 47 + 77) % 2 ^ 32)
put_callback-number_at_example = put_callback-number_at (2 ^ 47 + 77) (λ at. 9) (omega arith)
