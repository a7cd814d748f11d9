-- ===== src/LibCo.antt =====
-- libco/co-first.c: the list of coroutines and the choice of the next one. A coroutine is an address,
-- 0 is NULL, and a field is a function of the address. A loop over a list has fuel; `none` is a
-- failed assertion, a NULL that is read through, or the end of the fuel.
pub mod Choice
pub mod Creation
mod Examples
pub mod Indices
pub mod Machine
pub mod Names
pub mod Pool
pub mod Removal
pub mod Returns
pub mod Segments
use the_code_back_up_in_ubun.Base.{
  ℕ, zero, suc, ◌+◌, ◌-◌, ◌%◌, Bool, true, false, ◌||◌, Option, none, some, List, ◌==◌,
  if◌then◌else◌, leb, length, update,
}
use the_code_back_up_in_ubun.CString.{same}

-- `enum co_status`; the status of the two heads is 0.
abbrev pub co_new : ℕ
co_new = 1

abbrev pub co_waiting : ℕ
co_waiting = 3

-- `&co_list` and `&rand_pool`.
abbrev pub co_list_head : ℕ
co_list_head = 1

abbrev pub rand_pool_head : ℕ
rand_pool_head = 2

-- The fields of `struct co`, without the context and the stack, and the global.
pub record State : Type 0 where
  pub name : ℕ → Option (List ℕ)
  pub status : ℕ → ℕ
  pub next : ℕ → ℕ
  pub brother : ℕ → ℕ
  pub current : ℕ

-- The loop of `list_append`, and of `rand_pool_append`, over the field `link`.
unfoldable pub append_loop : ℕ → (ℕ → ℕ) → ℕ → ℕ → Option (ℕ → ℕ)
append_loop zero link temp new_co = none
append_loop (suc fuel) link temp new_co =
    let rest = append_loop fuel link (link temp) new_co in
    if link temp == 0 then some (update link temp new_co) else rest

unfoldable pub list_append : ℕ → ℕ → State → Option State
unfolding append_loop
list_append fuel new_co s = elim (append_loop fuel s.next co_list_head new_co) [
  | none ↦ none
  | some next ↦ some (record s { next = next })
]

-- `co_start`, with the address that malloc gives: the name has 32 bytes.
unfoldable pub co_start : ℕ → ℕ → List ℕ → State → Option State
unfolding list_append
co_start fuel new_co name s =
    if leb 32 (length name)
    then none
    else list_append fuel new_co (record s {
      name = update s.name new_co (some name);
      status = update s.status new_co co_new;
      next = update s.next new_co 0;
      brother = update s.brother new_co 0;
    })

-- `!strcmp(a->name, b->name)`.
unfoldable pub same_name : State → ℕ → ℕ → Option Bool
same_name s a b = elim (s.name a) [
  | none ↦ none
  | some x ↦ elim (s.name b) [ none ↦ none | some y ↦ some (same x y) ]
]

-- The loop of `co_delete`.
unfoldable pub delete_loop : ℕ → State → ℕ → ℕ → ℕ → Option State
unfolding same_name
delete_loop zero s node before_temp temp = none
delete_loop (suc fuel) s node before_temp temp =
    let rest = delete_loop fuel s node temp (s.next temp) in
    if temp == 0 then some s else elim (same_name s temp node) [
      | none ↦ none
      | some found ↦
          if found then some (record s { next = update s.next before_temp (s.next temp) }) else rest
    ]

unfoldable pub co_delete : ℕ → ℕ → State → Option State
unfolding delete_loop
co_delete fuel node s = delete_loop fuel s node co_list_head (s.next co_list_head)

abbrev pub ready : State → ℕ → Bool
ready s p = (s.status p == co_new) || (s.status p == co_waiting)

-- The body of the first loop of `rand_choose`: the field `brother`, and `count`.
unfoldable pub add : ℕ → State → ℕ → (ℕ → ℕ) → ℕ → Option ((ℕ → ℕ) × ℕ)
unfolding append_loop
add fuel s temp brother count =
    if ready s temp
    then elim (append_loop fuel brother rand_pool_head temp) [
      | none ↦ none
      | some brother' ↦ some (brother', count + 1)
    ]
    else some (brother, count)

-- The loop; `room` is the fuel of each append.
unfoldable pub fill : ℕ → ℕ → State → ℕ → (ℕ → ℕ) → ℕ → Option ((ℕ → ℕ) × ℕ)
unfolding add
fill room zero s temp brother count = none
fill room (suc fuel) s temp brother count =
    if temp == 0 then some (brother, count) else elim (add room s temp brother count) [
      | none ↦ none
      | some p ↦ fill room fuel s (s.next temp) p.0 p.1
    ]

-- `for(int i=0; i < index; i ++) pool = pool->brother;`
unfoldable pub walk : (ℕ → ℕ) → ℕ → ℕ → Option ℕ
walk brother zero pool = some pool
walk brother (suc index) pool =
    let rest = walk brother index (brother pool) in if pool == 0 then none else rest

-- `index`, for the value r of rand(), and the one that is taken if it gives the current coroutine.
unfoldable pub first_index : ℕ → ℕ → ℕ
first_index r count = if count == 0 then 0 else r % count + 1

unfoldable pub index_again : ℕ → ℕ → ℕ
index_again index count = if count == 2 then (count + 1) - index else (index + 1) % count + 1

-- The last loop: it takes the pool apart.
unfoldable pub take_apart : ℕ → (ℕ → ℕ) → ℕ → Option (ℕ → ℕ)
take_apart zero brother temp = none
take_apart (suc fuel) brother temp =
    let rest = take_apart fuel (update brother temp 0) (brother temp) in
    if brother temp == 0 then some brother else rest

unfoldable pub empty_pool : ℕ → (ℕ → ℕ) → Option (ℕ → ℕ)
unfolding take_apart
empty_pool fuel brother =
    if brother rand_pool_head == 0
    then none
    else take_apart fuel (update brother rand_pool_head 0) (brother rand_pool_head)

-- The coroutine of the first index, or that of the other index if its name is the current one's.
unfoldable pub select : State → (ℕ → ℕ) → ℕ → ℕ → Option ℕ
unfolding walk index_again same_name
select s brother index count = elim (walk brother index rand_pool_head) [
  | none ↦ none
  | some pool ↦ elim (same_name s pool s.current) [
    | none ↦ none
    | some again ↦
        if again then walk brother (index_again index count) rand_pool_head else some pool
  ]
]

-- `rand_choose(co_list_head, candidate, current)`: `candidate->brother`, and the state.
unfoldable pub rand_choose : ℕ → ℕ → State → Option (ℕ × State)
unfolding fill select empty_pool first_index
rand_choose fuel r s = elim (fill fuel fuel s co_list_head s.brother 0) [
  | none ↦ none
  | some p ↦ elim (select s p.0 (first_index r p.1) p.1) [
    | none ↦ none
    | some choice ↦ if choice == 0 then none else elim (empty_pool fuel p.0) [
      | none ↦ none
      | some brother ↦ some (choice, record s { brother = brother })
    ]
  ]
]
