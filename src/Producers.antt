-- ===== src/Producers.antt =====
-- multi-threads/producer-consumer.c: three producers, the threads 0, 1 and 2, and a consumer, the
-- thread 3, with two semaphores of POSIX. A step of a thread is a call; `none` is a thread that
-- waits or has returned.
mod Examples
pub mod Progress
use the_code_back_up_in_ubun.Base.{
  ℕ, zero, suc, ◌+◌, ◌-◌, ◌≡◌, Option, none, some, List, [], ◌∷◌, ◌++◌, ◌==◌, if◌then◌else◌, ltb,
  update,
}

-- The semaphores, what each thread does next (P, printf, V, or it has returned), and the output.
pub record State : Type 0 where
  pub fill : ℕ
  pub empty : ℕ
  pub pc : ℕ → ℕ
  pub output : List ℕ

unfoldable pub producer : ℕ → State → Option State
producer t s =
    if s.pc t == 0
    then (if s.empty == 0
        then none
        else some (record s { empty = s.empty - 1; pc = update s.pc t 1 }))
    else if s.pc t == 1
    then some (record s { output = s.output ++ b'(' ∷ []; pc = update s.pc t 2 })
    else if s.pc t == 2
    then some (record s { fill = s.fill + 1; pc = update s.pc t 3 })
    else none

unfoldable pub consumer : ℕ → State → Option State
consumer t s =
    if s.pc t == 0
    then (if s.fill == 0 then none else some (record s { fill = s.fill - 1; pc = update s.pc t 1 }))
    else if s.pc t == 1
    then some (record s { output = s.output ++ b')' ∷ []; pc = update s.pc t 2 })
    else if s.pc t == 2
    then some (record s { empty = s.empty + 1; pc = update s.pc t 3 })
    else none

unfoldable pub step : ℕ → State → Option State
unfolding producer consumer
step t s = if ltb t 3 then producer t s else if t == 3 then consumer t s else none

-- `main` up to join.
abbrev pub started : State
started = record { fill = 0; empty = 1; pc = λ t. 0; output = [] }
