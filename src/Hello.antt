-- ===== src/Hello.antt =====
-- multi-threads/hello-mt.c and multi-threads/cur.c: a main that creates n threads, 1000 in both,
-- each of which prints a static counter that it adds 1 to, and a function that prints when all are
-- joined. `x++` loads and stores, two steps that other threads can come between. The loop behind the
-- printf of hello-mt.c does nothing but take time. The counter stays an int.
pub mod Inv
pub mod Ends
pub mod Gaps
mod Examples
use the_code_back_up_in_ubun.Base.{
  ℕ, zero, suc, ◌+◌, ◌≡◌, Bool, true, false, Option, none, some, List, [], ◌∷◌, ◌++◌, ◌&&◌, ◌==◌,
  if◌then◌else◌, ltb, update,
}

-- Where a thread stands in `f`, with the value of `x++`.
pub data Pc : Type 0 where
  idle : Pc
  loaded : ℕ → Pc
  stored : ℕ → Pc
  returned : Pc

-- The static `x`, how many threads main has created, the threads, the numbers that are printed, and
-- whether `over` (`Done` in hello-mt.c) has printed its line behind them.
pub record State : Type 0 where
  pub x : ℕ
  pub created : ℕ
  pub pc : ℕ → Pc
  pub out : List ℕ
  pub over : Bool

abbrev pub started : State
started = record { x = 0; created = 0; pc = λ i. idle; out = []; over = false }

abbrev pub is_returned : Pc → Bool
is_returned returned = true
is_returned _ = false

-- The threads 1 to k have returned.
abbrev pub all_returned : ℕ → (ℕ → Pc) → Bool
all_returned zero pc = true
all_returned (suc k) pc = is_returned (pc (suc k)) && all_returned k pc

-- A step of the thread i in `f`, which stands there.
unfoldable pub f_at : Pc → ℕ → State → Option State
f_at idle i s = some (record s { pc = update s.pc i (loaded s.x) })
f_at (loaded v) i s = some (record s { x = v + 1; pc = update s.pc i (stored v) })
f_at (stored v) i s = some (record s { pc = update s.pc i returned; out = s.out ++ v ∷ [] })
f_at returned i s = none

-- The thread has been created.
unfoldable pub f : ℕ → State → Option State
unfolding f_at
f i s = if ltb s.created i then none else f_at (s.pc i) i s

-- A step of `main` with n threads: the next `create`, or at exit the joins, when all have returned.
unfoldable pub main : ℕ → State → Option State
main n s =
    if ltb s.created n
    then some (record s { created = s.created + 1 })
    else if s.over
    then none
    else if all_returned n s.pc
    then some (record s { over = true })
    else none

-- 0 is `main`, and the threads have the numbers from 1 on.
unfoldable pub step : ℕ → ℕ → State → Option State
unfolding f main
step n i s = if i == 0 then main n s else f i s

-- The states that steps lead to, in any order.
pub data Reached (n : ℕ) : State → Type 0 where
  at_start : Reached n started
  stepped : (i : ℕ) (s s' : State) → Reached n s → step n i s ≡ some s' → Reached n s'
