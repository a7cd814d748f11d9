-- ===== src/LibCo/Machine.antt =====
-- The switches of libco/co-first.c: `co_wait`, `co_yield` and `callback`, up to where control leaves
-- the library. A saved context is the call of `co_yield` that set it.
pub mod Callback
pub mod Erasure
mod Examples
pub mod Good
pub mod Lost
pub mod Runs
pub mod Waits
pub mod Yields
use the_code_back_up_in_ubun.Base.{
  ℕ, Bool, true, false, ◌||◌, Option, none, some, List, [], ◌∷◌, ◌==◌, if◌then◌else◌, update,
}
use the_code_back_up_in_ubun.LibCo.{State, co_new, co_waiting, same_name, co_delete, rand_choose}

abbrev pub co_running : ℕ
co_running = 2

abbrev pub co_dead : ℕ
co_dead = 4

-- Who called `co_yield`: the function of a coroutine, or `co_wait` for a coroutine that waits.
pub data Point : Type 0 where
  in_function : (co : ℕ) → Point
  in_wait : (co : ℕ) → Point

-- Where control goes: to a function on the stack of the caller, to a function on the stack of its
-- coroutine, which returns to `callback`, to a point, or back to the caller.
pub data Control : Type 0 where
  calls : (co : ℕ) → Control
  enters : (co : ℕ) → Control
  resumes : (point : Point) → Control
  back : Control

-- `freed` are the blocks that were given to free: `none` is also a use of one of these.
pub record Machine : Type 0 where
  pub state : State
  pub context : ℕ → Option Point
  pub freed : ℕ → Bool

-- `co->status = status`.
abbrev pub set_status : ℕ → ℕ → State → State
set_status co status s = record s { status = update s.status co status }

-- Behind `rand_choose` in `co_yield`. The status of a coroutine that is entered stays CO_NEW.
unfoldable pub switch_to : ℕ → State → Machine → Option (Control × Machine)
switch_to co s m =
    if s.status co == co_new
    then some (enters co, record m { state = record s { current = co } })
    else if s.status co == co_waiting
    then elim (m.context co) [
      | none ↦ none
      | some point ↦
          some (
            resumes point,
            record m { state = set_status co co_running (record s { current = co }) },
          )
    ]
    else none

-- The machine behind the setjmp of `co_yield`.
abbrev pub saved : Point → Machine → Machine
saved point m = record m {
  state = set_status m.state.current co_waiting m.state;
  context = update m.context m.state.current (some point);
}

-- A block that the code reads or writes through p, which must not be NULL or freed.
abbrev pub unusable : Machine → ℕ → Bool
unusable m p = (p == 0) || m.freed p

unfoldable pub co_yield : ℕ → ℕ → Point → Machine → Option (Control × Machine)
unfolding switch_to rand_choose
co_yield fuel r point m =
    if unusable m m.state.current then none else elim (rand_choose fuel r (saved point m).state) [
      | none ↦ none
      | some p ↦ switch_to p.0 p.1 (saved point m)
    ]

-- The loop of `callback`, for the values that rand() gives.
unfoldable pub choose_waiting : ℕ → List ℕ → State → Option (ℕ × State)
unfolding rand_choose same_name
choose_waiting fuel [] s = none
choose_waiting fuel (r ∷ rs) s = elim (rand_choose fuel r s) [
  | none ↦ none
  | some p ↦
      let rest = choose_waiting fuel rs p.1 in
      if p.1.status p.0 == co_new then rest else elim (same_name p.1 p.0 p.1.current) [
        | none ↦ none
        | some again ↦ if again then rest else some p
      ]
]

-- Where a coroutine that was entered ends.
unfoldable pub callback : ℕ → List ℕ → Machine → Option (Control × Machine)
unfolding choose_waiting co_delete
callback fuel rs m =
    let s = set_status m.state.current co_dead m.state in
    elim (co_delete fuel s.current s) [
      | none ↦ none
      | some s1 ↦ elim (choose_waiting fuel rs s1) [
        | none ↦ none
        | some p ↦
            if p.1.status p.0 == co_waiting
            then elim (m.context p.0) [
              | none ↦ none
              | some point ↦ some (
                resumes point,
                record m { state = set_status p.0 co_running (record p.1 { current = p.0 }) },
              )
            ]
            else none
      ]
    ]

-- `co_wait`, up to the call of the function, the switch of `co_yield`, or the return.
unfoldable pub co_wait : ℕ → ℕ → ℕ → Machine → Option (Control × Machine)
unfolding co_yield
co_wait fuel r co m =
    let s = m.state in
    if m.freed co
    then none
    else if s.status co == co_dead
    then some (back, record m { state = record s { current = co }; freed = update m.freed co true })
    else if s.current == 0
    then (if s.status co == co_new
        then some
            (calls co, record m { state = set_status co co_running (record s { current = co }) })
        else if s.status co == co_waiting
        then co_yield fuel r (in_wait co) (record m { state = record s { current = co } })
        else some (back, m))
    else if m.freed s.current
    then none
    else some (
      calls co,
      record m {
        state =
            set_status co co_running (record (set_status s.current co_waiting s) { current = co });
      },
    )

-- The end of `co_wait`: the coroutine leaves the list and is freed.
unfoldable pub discard : ℕ → ℕ → Machine → Option Machine
unfolding co_delete
discard fuel co m = if unusable m co then none else elim (co_delete fuel co m.state) [
  | none ↦ none
  | some s ↦ some (record m { state = s; freed = update m.freed co true })
]

-- `co_wait` behind the function that the main program called.
unfoldable pub main_returns : ℕ → ℕ → Machine → Option Machine
unfolding discard
main_returns fuel co m =
    if unusable m m.state.current
    then none
    else let s = record (set_status m.state.current co_dead m.state) { current = 0 } in
      discard fuel co (record m { state = set_status co co_dead s })

-- `co_wait` behind the function that the coroutine `old` called.
unfoldable pub nested_returns : ℕ → ℕ → ℕ → Machine → Option Machine
unfolding discard
nested_returns fuel co old m =
    if unusable m m.state.current || unusable m old then none else elim (m.state.name old) [
      | none ↦ none
      | some _ ↦
          let s = record (set_status m.state.current co_dead m.state) { current = old } in
          discard fuel co (record m { state = set_status co co_dead (set_status old co_running s) })
    ]

-- `co_wait` behind its call of `co_yield`.
unfoldable pub wait_resumed : ℕ → ℕ → Machine → Option Machine
unfolding discard
wait_resumed fuel co m = elim (discard fuel co m) [
  | none ↦ none
  | some m' ↦ some (record m' { state = record m'.state { current = 0 } })
]
