-- ===== src/Sperf.antt =====
-- mycode/sperf.c: the time that each system call takes, from the output of `strace -T`. This file
-- has the list of functions: append, sort, show. The child Trace has the loop of `main` that reads
-- the trace. Times are doubles: their type, sum, order and percentage are a parameter.
pub mod Entries
pub mod Recorded
mod Blocks
pub mod Child
pub mod Correct
pub mod Descriptors
mod Examples
pub mod Lines
mod Nodes
pub mod Parent
pub mod Pieces
pub mod Profile
pub mod Scan
pub mod Sorted
pub mod Trace
use the_code_back_up_in_ubun.Base.{
  ℕ, zero, suc, ◌+◌, Bool, true, false, Option, none, some, List, [], ◌∷◌, ◌==◌, if◌then◌else◌,
  length,
}
use the_code_back_up_in_ubun.CString.{same}
use the_code_back_up_in_ubun.Doubles.{Doubles}

module _ (d : Doubles) where
  open d use {Num, add, gt, percent}

  -- `func_time`; `next` is the list. `func` is the text in front of its NUL.
  pub record FuncTime : Type 0 where
    pub func : List ℕ
    pub time : Num

  -- The loop of `append` at the node q, with the nodes behind it.
  unfoldable pub append_at : FuncTime → List FuncTime → FuncTime → List FuncTime
  append_at q [] p =
      if same q.func p.func then record q { time = add q.time p.time } ∷ [] else q ∷ p ∷ []
  append_at q (r ∷ rs) p =
      if same q.func p.func
      then record q { time = add q.time p.time } ∷ r ∷ rs
      else q ∷ append_at r rs p

  unfoldable pub append : List FuncTime → FuncTime → List FuncTime
  unfolding append_at
  append [] p = p ∷ []
  append (q ∷ qs) p = append_at q qs p

  -- The inner loop of `sort`: p and the nodes behind it, the largest time moved to p.
  unfoldable pub sweep : FuncTime → List FuncTime → FuncTime × List FuncTime
  sweep p [] = (p, [])
  sweep p (q ∷ qs) =
      let rest = sweep (if gt q.time p.time then q else p) qs in
      (rest.0, (if gt q.time p.time then p else q) ∷ rest.1)

  -- The outer loop, n rounds at most; it stops at the last node.
  unfoldable pub sort_loop : ℕ → List FuncTime → List FuncTime
  unfolding sweep
  sort_loop zero ps = ps
  sort_loop (suc n) [] = []
  sort_loop (suc n) (p ∷ []) = p ∷ []
  sort_loop (suc n) (p ∷ q ∷ qs) = (sweep p (q ∷ qs)).0 ∷ sort_loop n (sweep p (q ∷ qs)).1

  -- `none` is the failed assertion on an empty list.
  unfoldable pub sort : List FuncTime → Option (List FuncTime)
  unfolding sort_loop
  sort [] = none
  sort (p ∷ ps) = some (sort_loop (length (p ∷ ps)) (p ∷ ps))

  -- The loop of `show`: `num` counts the lines from 1, and the eighth is the last.
  unfoldable pub show_loop : ℕ → List FuncTime → Num → List (List ℕ × ℕ)
  show_loop num [] total = []
  show_loop num (p ∷ ps) total =
      let rest = show_loop (num + 1) ps total in
      (p.func, percent p.time total) ∷ (if num == 8 then [] else rest)

  unfoldable pub show : List FuncTime → Num → Option (List (List ℕ × ℕ))
  unfolding show_loop
  show [] total = none
  show (p ∷ ps) total = some (show_loop 1 (p ∷ ps) total)
