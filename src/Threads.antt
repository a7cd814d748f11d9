-- ===== src/Threads.antt =====
-- multi-threads/threads.h, "Basics": the list of threads, their numbers, and the joins at exit.
-- A thread is started where it is created; how threads interleave is Monitor.antt. Which threads
-- return from their entry functions is a parameter of the joins.
mod Examples
pub mod Numbers
use the_code_back_up_in_ubun.Base.{
  ℕ, zero, suc, ◌+◌, Bool, true, false, Option, none, some, List, [], ◌∷◌, ◌++◌, if◌then◌else◌,
}

-- `struct thread`; the `next` pointer is the list. The entry function is a parameter.
pub record Thread (F : Type 0) : Type 0 where
  pub id : ℕ
  pub entry : F

-- What `join_all` does, in order; `waits` is a `pthread_join` for a thread that never returns, which
-- is never over.
pub data Event (J : Type 0) : Type 0 where
  joined : (id : ℕ) → Event J
  freed : (id : ℕ) → Event J
  called : J → Event J
  waits : (id : ℕ) → Event J

module _ {F : Type 0} where
  unfoldable pub next_id : List (Thread F) → ℕ
  next_id [] = 1
  next_id (t ∷ ts) = t.id + 1

  -- `none` is the failed assertion after a `malloc` that returns NULL.
  unfoldable pub create : Bool → F → List (Thread F) → Option (List (Thread F))
  unfolding next_id
  create false fn ts = none
  create true fn ts = some (record { id = next_id ts; entry = fn } ∷ ts)

  -- `for (int i = 0; i < n; i++) create(fn);`, every allocation granted.
  unfoldable pub create_all : ℕ → F → List (Thread F) → Option (List (Thread F))
  unfolding create
  create_all zero fn ts = some ts
  create_all (suc n) fn ts = elim (create true fn ts) [
    | none ↦ none
    | some ts' ↦ create_all n fn ts'
  ]

  -- `join_all`, over the numbers of the threads that return: the events up to the end, or up to the
  -- first join that is never over.
  unfoldable pub join_all : {J : Type 0} → (ℕ → Bool) → List (Thread F) → Option J → List (Event J)
  join_all returns [] none = []
  join_all returns [] (some f) = called f ∷ []
  join_all returns (t ∷ ts) f =
      let rest = join_all returns ts f in
      if returns t.id then joined t.id ∷ freed t.id ∷ rest else waits t.id ∷ []
