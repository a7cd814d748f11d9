-- ===== src/ArrayCo.antt =====
-- libco/co.c: the coroutines in an array. A coroutine is an address, 0 is NULL, and a field is a
-- function of the address. The output of each function's name is left out. Its co_start, in which
-- strcpy has no arguments, is modelled without that call: the name is what malloc left.
pub mod Choice
mod Examples
pub mod Last
pub mod Removal
pub mod Returns
pub mod Yields
use the_code_back_up_in_ubun.Base.{
  ℕ, zero, suc, ◌+◌, ◌-◌, ◌%◌, Bool, true, false, ◌&&◌, ◌||◌, Option, none, some, List, [], ◌∷◌,
  ◌==◌, if◌then◌else◌, ltb, leb, update,
}
use the_code_back_up_in_ubun.CString.{same}

-- `enum co_status`.
abbrev pub co_new : ℕ
co_new = 1

abbrev pub co_running : ℕ
co_running = 2

abbrev pub co_waiting : ℕ
co_waiting = 3

abbrev pub co_dead : ℕ
co_dead = 4

-- The globals, the fields of `struct co` that the functions below read, and of each context, whether
-- setjmp has set it: longjmp to one that is not set is undefined.
pub record State : Type 0 where
  pub pool : ℕ → ℕ
  pub pool_member : ℕ
  pub current : ℕ
  pub name : ℕ → Option (List ℕ)
  pub status : ℕ → ℕ
  pub waiter : ℕ → ℕ
  pub tag : ℕ → Bool
  pub context : ℕ → Bool

-- `!strcmp(a->name, b->name)`; `none` if one of them is NULL, as that of `current_co` is.
unfoldable pub same_name : State → ℕ → ℕ → Option Bool
same_name s a b = elim (s.name a) [
  | none ↦ none
  | some x ↦ elim (s.name b) [ none ↦ none | some y ↦ some (same x y) ]
]

-- The loop of `co_delete` from i on, with so many rounds to go: `pool[i]->name` is read before
-- pool[i] is compared with NULL.
unfoldable pub delete_loop : ℕ → ℕ → ℕ → State → Option State
unfolding same_name
delete_loop zero i co s = some s
delete_loop (suc rounds) i co s =
    let rest = delete_loop rounds (i + 1) co s in
    if s.pool i == 0 then none else elim (same_name s (s.pool i) co) [
      | none ↦ none
      | some found ↦ if found then some (record s { pool = update s.pool i 0 }) else rest
    ]

unfoldable pub co_delete : ℕ → State → Option State
unfolding delete_loop
co_delete co s = delete_loop s.pool_member 0 co s

-- `pool[i] != NULL && (pool[i]->status == CO_NEW || pool[i]->status == CO_WAITING)`.
unfoldable pub ready : State → ℕ → Bool
ready s i =
    if s.pool i == 0
    then false
    else (s.status (s.pool i) == co_new) || (s.status (s.pool i) == co_waiting)

-- The body of the loop of `rand_choose`, for an index: NULL if no test holds.
unfoldable pub near : State → ℕ → ℕ
unfolding ready
near s index =
    if ready s index
    then s.pool index
    else if leb 1 index && ready s (index - 1)
    then s.pool (index - 1)
    else if leb (index + 2) s.pool_member && ready s (index + 1)
    then s.pool (index + 1)
    else 0

-- `rand_choose`, over the values of rand(): `none` if the loop goes on behind them, or divides by
-- 0.
unfoldable pub rand_choose : List ℕ → State → Option (ℕ × List ℕ)
unfolding near
rand_choose [] s = none
rand_choose (r ∷ rs) s =
    let rest = rand_choose rs s in
    if s.pool_member == 0
    then none
    else if near s (r % s.pool_member) == 0
    then rest
    else some (near s (r % s.pool_member), rs)

unfoldable pub set_status : ℕ → ℕ → State → State
set_status co status s = record s { status = update s.status co status }

-- The loop of `callback`, with the values of rand() and so many rounds to go.
unfoldable pub choose_other : ℕ → List ℕ → State → Option ℕ
unfolding rand_choose same_name
choose_other zero rs s = none
choose_other (suc fuel) rs s = elim (rand_choose rs s) [
  | none ↦ none
  | some (co, rest) ↦ elim (same_name s co s.current) [
    | none ↦ none
    | some again ↦ if again then choose_other fuel rest s else some co
  ]
]

-- Where control goes: to the function of a coroutine, called or on its own stack; to the place that
-- set the context of one; or back to the caller.
pub data Control : Type 0 where
  called : (co : ℕ) → Control
  entered : (co : ℕ) → Control
  resumed : (co : ℕ) → Control
  returned : Control

-- `none` is also a longjmp to a context that is not set.
unfoldable pub callback : ℕ → List ℕ → State → Option (Control × State)
unfolding set_status co_delete choose_other
callback fuel rs s = elim (co_delete s.current (set_status s.current co_dead s)) [
  | none ↦ none
  | some s' ↦ elim (choose_other fuel rs s') [
    | none ↦ none
    | some co ↦ if s'.context co then some (resumed co, record s' { current = co }) else none
  ]
]

-- `co_start`, without the call of strcpy, with the address that malloc gives and the name that
-- stands there; it asserts that its arguments are not NULL, and no entry is behind the end of the
-- array.
unfoldable pub co_start : ℕ → Option (List ℕ) → ℕ → ℕ → ℕ → State → Option State
co_start new_co left name func arg s =
    if (name == 0) || ((func == 0) || (arg == 0))
    then none
    else if ltb s.pool_member 128
    then some (record s {
      name = update s.name new_co left;
      tag = update s.tag new_co false;
      context = update s.context new_co false;
      status = update s.status new_co co_new;
      waiter = update s.waiter new_co 0;
      pool = update s.pool s.pool_member new_co;
      pool_member = s.pool_member + 1;
    })
    else none

unfoldable pub current_xchg : ℕ → State → State
current_xchg co s =
    let status = update s.status s.current co_waiting in
    record s {
      current = co;
      waiter = update s.waiter co s.current;
      status = update status co co_running;
    }

-- The current coroutine waits, and setjmp sets its context.
unfoldable pub suspend : State → State
unfolding set_status
suspend s = record (set_status s.current co_waiting s) { context = update s.context s.current true }

-- `co_yield` up to where control leaves it. Behind setjmp the status of the choice decides; another
-- one fails an assertion, and a longjmp to a context that is not set is `none` too.
unfoldable pub co_yield : List ℕ → State → Option (Control × State)
unfolding set_status suspend rand_choose
co_yield rs s =
    let s' = suspend s in
    elim (rand_choose rs s') [
      | none ↦ none
      | some (choice, rest) ↦
          if s'.status choice == co_new
          then some (entered choice, record (set_status choice co_running s') { current = choice })
          else if s'.status choice == co_waiting
          then (if s'.context choice
              then some
                  (resumed choice, record (set_status choice co_running s') { current = choice })
              else none)
          else none
    ]

-- `co_wait` up to where control leaves it. A status that the enumeration does not have is none of
-- these and calls the function.
unfoldable pub co_wait : List ℕ → ℕ → State → Option (Control × State)
unfolding current_xchg co_yield
co_wait rs co s =
    let yielded = co_yield rs s in
    if co == 0
    then none
    else if s.status co == co_dead
    then some (returned, s)
    else if s.status co == co_waiting
    then yielded
    else some (called co, current_xchg co s)

-- The rest of `co_wait` when the function of the coroutine has returned; the assertion is that the
-- waiter has its tag. What free does to the coroutine is left out.
unfoldable pub wait_ends : State → Option State
unfolding set_status co_delete
wait_ends s = elim (co_delete s.current (set_status s.current co_dead s)) [
  | none ↦ none
  | some s' ↦
      let waiter = s'.waiter s'.current in
      if waiter == 0
      then none
      else if s'.tag waiter
      then some (record s' { current = waiter })
      else none
]
