-- ===== src/FishDraft/Midterm.antt =====
-- os-midterm/threads.h, which numbers the threads from 0 where multi-threads/threads.h numbers them
-- from 1; its other functions are the same text. And what os-midterm/fish.c has of threads: `main`, and the
-- character that `fish_thread` takes from `roles`.
pub mod Roles
use the_code_back_up_in_ubun.Base.{
  ℕ, zero, suc, ◌+◌, Bool, true, false, Option, none, some, List, [], ◌∷◌, ◌++◌, length, get_or,
}
use the_code_back_up_in_ubun.Threads.{Thread, Event, join_all}

-- `roles[id]`, with the NUL behind the text.
abbrev pub role_of : List ℕ → ℕ → ℕ
role_of roles id = get_or (roles ++ 0 ∷ []) id 0

module _ {F : Type 0} where
  unfoldable pub next_id : List (Thread F) → ℕ
  next_id [] = 0
  next_id (t ∷ ts) = t.id + 1

  -- `none` is the failed assertion after a `malloc` that returns NULL.
  unfoldable pub create : Bool → F → List (Thread F) → Option (List (Thread F))
  unfolding next_id
  create false fn ts = none
  create true fn ts = some (record { id = next_id ts; entry = fn } ∷ ts)

  -- `for (int i = 0; i < n; i++) create(fn);`, every allocation granted.
  unfoldable pub create_all : ℕ → F → List (Thread F) → Option (List (Thread F))
  unfolding create
  create_all zero fn ts = some ts
  create_all (suc n) fn ts = elim (create true fn ts) [
    | none ↦ none
    | some ts' ↦ create_all n fn ts'
  ]

  -- `main`, over the text of `roles`: the threads, and what join_all does at exit behind
  -- `join(NULL)`. `fish_thread` loops for ever, so that no thread returns.
  unfoldable pub main : {J : Type 0} → List ℕ → F → Option (List (Thread F) × List (Event J))
  unfolding create_all join_all
  main roles fish_thread = elim (create_all (length roles) fish_thread []) [
    | none ↦ none
    | some ts ↦ some (ts, join_all (λ id. false) ts none)
  ]
