-- ===== src/ArrayCo/Examples.antt =====
-- Three coroutines of libco/co.c: the first one runs, the second one is dead, and the last one waits
-- in its co_yield.
use the_code_back_up_in_ubun.Base.{
  ℕ, ◌≡◌, ◌≢◌, refl, true, some, [], ◌∷◌, ◌==◌, if◌then◌else◌, arith,
}
use the_code_back_up_in_ubun.ArrayCo.{
  State, entered, resumed, co_running, ready, set_status, suspend, co_yield,
}
use the_code_back_up_in_ubun.ArrayCo.Choice.{Choosable}
use the_code_back_up_in_ubun.ArrayCo.Yields.{co_yield-Choosable}

abbrev three : State
three = record {
  pool = λ i. if i == 0 then 10 else if i == 1 then 11 else if i == 2 then 12 else 0;
  pool_member = 3;
  current = 10;
  name = λ co. some (co ∷ []);
  status = λ co. if co == 12 then 3 else if co == 10 then 2 else 4;
  waiter = λ co. 5;
  tag = λ co. co == 5;
  context = λ co. co == 12;
}

third_ready : ready (suspend three) 2 ≡ true
unfolding ready suspend set_status
third_ready = refl

third_kept :
    (k : ℕ)
    → three.pool k ≢ 10
    → (three.status (three.pool k) == 3) ≡ true
    → three.context (three.pool k) ≡ true
third_kept k ne e = ground arith

co_yield-Choosable_example :
    (co : ℕ) × (s' : State) × Choosable (suspend three) co
    × (co_yield (0 ∷ 5 ∷ 7 ∷ []) three
        ≡ some (if (suspend three).status co == 1 then entered co else resumed co, s'))
    × (s'.current ≡ co)
    × (s'.status co ≡ co_running)
    × (s'.context 10 ≡ true)
co_yield-Choosable_example =
    co_yield-Choosable three (0 ∷ []) (7 ∷ []) 5 (omega arith) third_ready third_kept
