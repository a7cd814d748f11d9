-- ===== src/LibCo/Machine/Runs/Examples.antt =====
-- A program over libco/co-first.c: it starts a and b, at 10 and 11, and waits for a.
use the_code_back_up_in_ubun.Base.{
  ◌<◌, ◌≢◌, All, length, List, ℕ, ◌≡◌, refl, false, Option, none, some, [], ◌∷◌, update, arith,
}
use the_code_back_up_in_ubun.LibCo.{
  State, co_start, list_append, append_loop, rand_choose, fill, add, select, walk, first_index,
  index_again, take_apart, empty_pool, same_name, co_new,
}
use the_code_back_up_in_ubun.CString.{same}
use the_code_back_up_in_ubun.LibCo.Removal.{erase}
use the_code_back_up_in_ubun.LibCo.Machine.Callback.{Left}
use the_code_back_up_in_ubun.LibCo.Machine.{
  switch_to, callback, Point, resumes, Machine, Control, in_function, co_wait, co_yield,
}
use the_code_back_up_in_ubun.LibCo.Machine.Runs.{In, Reached, boot, start, wait, yield, Inv}
use the_code_back_up_in_ubun.LibCo.Machine.Runs.Safe.{
  Reached-Inv, yield-Reached, wait-Reached, callback-Reached,
}

abbrev at_first : Machine
at_first = record {
  state = record {
    name = λ p. none;
    status = λ p. 0;
    next = λ p. 0;
    brother = λ p. 0;
    current = 0;
  };
  context = λ p. none;
  freed = λ p. false;
}

abbrev state_of : State → Option State → State
state_of s none = s
state_of s (some s') = s'

abbrev begun : ℕ → ℕ → Machine → Machine
begun p name m = record m {
  state = state_of m.state (co_start 9 p (name ∷ []) m.state);
  freed = update m.freed p false;
}

abbrev machine_of : Machine → Option (Control × Machine) → Machine
machine_of m none = m
machine_of m (some (c, m')) = m'

abbrev both : Machine
both = begun 11 b'b' (begun 10 b'a' at_first)

abbrev waiting : Machine
waiting = machine_of both (co_wait 9 0 10 both)

both-Reached : Reached both (10 ∷ 11 ∷ [])
unfolding co_start list_append append_loop
both-Reached =
    start 9 11 (b'b' ∷ []) (begun 10 b'a' at_first) _ (10 ∷ [])
      (start 9 10 (b'a' ∷ []) at_first _ []
        (boot at_first (record {
          no_list = refl;
          head_status = refl;
          no_pool = λ p. refl;
          pool_name = refl;
          main_runs = refl;
        }))
        (omega arith) (omega arith) (omega arith) tt (omega arith) tt (omega arith) refl)
      (omega arith) (omega arith) (omega arith) (ground arith) (omega arith) (ground arith)
      (omega arith) refl

both_main : both.state.current ≡ 0
unfolding co_start list_append append_loop
both_main = refl

waiting-Reached : Reached waiting (10 ∷ 11 ∷ [])
unfolding co_start list_append append_loop co_wait
waiting-Reached =
    wait 9 0 10 _ both waiting (10 ∷ 11 ∷ []) both-Reached both_main (0, omega arith, refl)
      (omega arith) refl

wait-Reached_example :
    (c : Control) × (m' : Machine) × (co_wait 9 5 11 both ≡ some (c, m'))
    × Reached m' (10 ∷ 11 ∷ [])
    × In m'.state.current (10 ∷ 11 ∷ [])
wait-Reached_example =
    wait-Reached 9 5 11 both (10 ∷ 11 ∷ []) both-Reached both_main (1, omega arith, refl)
      (omega arith)

Reached-Inv_example : Inv waiting (10 ∷ 11 ∷ [])
Reached-Inv_example = Reached-Inv waiting (10 ∷ 11 ∷ []) waiting-Reached

waiting_current : waiting.state.current ≡ 10
unfolding co_start list_append append_loop co_wait
waiting_current = refl

yield-Reached_example :
    (c : Control) × (m' : Machine) × (co_yield 9 5 (in_function waiting.state.current) waiting
      ≡ some (c, m'))
    × Reached m' (10 ∷ 11 ∷ [])
    × In m'.state.current (10 ∷ 11 ∷ [])
yield-Reached_example =
    yield-Reached 9 5 waiting (10 ∷ 11 ∷ []) waiting-Reached
      (λ e. omega (arith, waiting_current, e)) (omega arith)

-- b is entered by the yield of a.
abbrev entered : Machine
entered = machine_of waiting (co_yield 9 5 (in_function 10) waiting)

entered_current : entered.state.current ≡ 11
unfolding co_start list_append append_loop co_wait co_yield rand_choose fill add select walk
    first_index index_again take_apart empty_pool same_name switch_to same
entered_current = refl

entered_name : entered.state.name entered.state.current ≡ some (b'b' ∷ [])
unfolding co_start list_append append_loop co_wait co_yield rand_choose fill add select walk
    first_index index_again take_apart empty_pool same_name switch_to same
entered_name = refl

abbrev left_over : List ℕ
left_over = erase entered.state (b'b' ∷ []) (10 ∷ 11 ∷ [])

left_over_old : All (λ x. entered.state.status x ≢ co_new) left_over × (0 < length left_over)
unfolding co_start list_append append_loop co_wait co_yield rand_choose fill add select walk
    first_index index_again take_apart empty_pool same_name switch_to same
left_over_old = ((omega arith, tt), omega arith)

entered-Reached : Reached entered (10 ∷ 11 ∷ [])
unfolding co_start list_append append_loop co_wait co_yield rand_choose fill add select walk
    first_index index_again take_apart empty_pool same_name switch_to same
entered-Reached =
    yield 9 5 _ waiting entered (10 ∷ 11 ∷ []) waiting-Reached
      (λ e. omega (arith, waiting_current, e)) (omega arith) refl

callback-Reached_example :
    (q : ℕ) × (point : Point) × (m' : Machine) × (callback 9 (5 ∷ []) entered
      ≡ some (resumes point, m'))
    × Left entered left_over q point m'
    × Reached m' left_over
callback-Reached_example =
    callback-Reached 9 5 [] (b'b' ∷ []) entered (10 ∷ 11 ∷ []) entered-Reached
      (λ e. omega (arith, entered_current, e)) entered_name left_over_old.0 left_over_old.1
      (omega arith)
