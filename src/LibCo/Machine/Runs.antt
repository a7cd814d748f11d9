-- ===== src/LibCo/Machine/Runs.antt =====
-- The machines that programs over libco/co-first.c lead to, whose main program waits for coroutines
-- of the list, whose coroutines do not wait, and which start no coroutine with a name of one that is
-- in the list.
pub mod Ends
mod Examples
pub mod Picks
pub mod Safe
pub mod Starts
pub mod Switches
use the_code_back_up_in_ubun.Base.{
  ℕ, zero, suc, ◌+◌, ◌<◌, ◌≤◌, ◌≡◌, ◌≢◌, ◌⊎◌, inl, inr, refl, ◌∙◌, ap, subst, true, false, Bool,
  Option, none, some, List, [], ◌∷◌, ◌++◌, length, get_or, All, keep, update, arith, Bool-cases,
}
use the_code_back_up_in_ubun.LibCo.{
  State, co_list_head, rand_pool_head, co_new, co_waiting, co_start,
}
use the_code_back_up_in_ubun.LibCo.Segments.{Away}
use the_code_back_up_in_ubun.LibCo.Removal.{erase}
use the_code_back_up_in_ubun.LibCo.Machine.{
  Machine, Point, in_function, Control, co_yield, callback, co_wait, main_returns, wait_resumed,
}
use the_code_back_up_in_ubun.LibCo.Machine.Good.{Good}

abbrev pub In : ℕ → List ℕ → Type 0
In x xs = (k : ℕ) × (k < length xs) × (get_or xs k 0 ≡ x)

-- Before the first call: the two heads alone, without names, and no coroutine current.
pub record AtStart (m : Machine) : Type 0 where
  pub no_list : m.state.next co_list_head ≡ 0
  pub head_status : m.state.status co_list_head ≡ 0
  pub no_pool : (p : ℕ) → m.state.brother p ≡ 0
  pub pool_name : m.state.name rand_pool_head ≡ none
  pub main_runs : m.state.current ≡ 0

-- A machine that a program leads to that gives each coroutine a name which no other of the list has,
-- with the coroutines of its list, in order. `fuel` is enough for the list, r and rs are
-- the values of rand().
pub data Reached : Machine → List ℕ → Type 0 where
  boot : (m : Machine) → AtStart m → Reached m []
  -- malloc gives a block that is not in use. The name is short, and no coroutine of the list has it:
  -- that is a demand on the program, co_start does not check it, and co_delete and callback, which
  -- compare names, need it.
  start :
      (fuel p : ℕ) (name : List ℕ) (m : Machine) (s : State) (xs : List ℕ)
      → Reached m xs
      → p ≢ 0
      → p ≢ co_list_head
      → p ≢ rand_pool_head
      → Away p xs
      → length name < 32
      → All (λ x. m.state.name x ≢ some name) xs
      → length xs + 2 ≤ fuel
      → co_start fuel p name m.state ≡ some s
      → Reached (record m { state = s; freed = update m.freed p false }) (xs ++ p ∷ [])
  -- The main program waits for a coroutine of the list.
  wait :
      (fuel r co : ℕ) (c : Control) (m m' : Machine) (xs : List ℕ)
      → Reached m xs
      → m.state.current ≡ 0
      → In co xs
      → length xs + 2 ≤ fuel
      → co_wait fuel r co m ≡ some (c, m')
      → Reached m' xs
  -- The function of a coroutine yields.
  yield :
      (fuel r : ℕ) (c : Control) (m m' : Machine) (xs : List ℕ)
      → Reached m xs
      → m.state.current ≢ 0
      → length xs + 2 ≤ fuel
      → co_yield fuel r (in_function m.state.current) m ≡ some (c, m')
      → Reached m' xs
  -- It returns, on its own stack.
  ended :
      (fuel : ℕ) (rs n : List ℕ) (c : Control) (m m' : Machine) (xs : List ℕ)
      → Reached m xs
      → m.state.current ≢ 0
      → m.state.name m.state.current ≡ some n
      → length xs + 2 ≤ fuel
      → callback fuel rs m ≡ some (c, m')
      → Reached m' (erase m.state n xs)
  -- It returns to the wait that called it.
  returned :
      (fuel co : ℕ) (n : List ℕ) (m m' : Machine) (xs : List ℕ)
      → Reached m xs
      → m.state.current ≡ co
      → co ≢ 0
      → m.state.name co ≡ some n
      → length xs + 2 ≤ fuel
      → main_returns fuel co m ≡ some m'
      → Reached m' (erase m.state n xs)
  -- The wait for a coroutine that waited goes on behind its yield, in the name of the coroutine.
  resumed :
      (fuel co : ℕ) (n : List ℕ) (m m' : Machine) (xs : List ℕ)
      → Reached m xs
      → m.state.current ≡ co
      → co ≢ 0
      → m.state.name co ≡ some n
      → length xs + 2 ≤ fuel
      → wait_resumed fuel co m ≡ some m'
      → Reached m' (erase m.state n xs)

-- A coroutine is new, or waits, or is the current one.
abbrev pub Settled : State → ℕ → Type 0
Settled s x = (s.status x ≡ co_new) ⊎ (s.status x ≡ co_waiting) ⊎ (x ≡ s.current)

-- What holds of all of them.
pub record Inv (m : Machine) (xs : List ℕ) : Type 0 where
  pub good : Good m xs
  pub pool_name : m.state.name rand_pool_head ≡ none
  pub current_listed : (m.state.current ≡ 0) ⊎ In m.state.current xs
  pub settled : All (Settled m.state) xs

-- What a call leaves, if it returns.
abbrev pub After {ℓ} : {A : Type ℓ} → (A → Type 0) → Option A → Type 0
After P none = Unit
After P (some a) = P a

pub All-tabulate :
    (P : ℕ → Type 0) (xs : List ℕ) → ((k : ℕ) → k < length xs → P (get_or xs k 0)) → All P xs
All-tabulate P [] f = tt
All-tabulate P (x ∷ xs) f = (f 0 (omega arith), All-tabulate P xs (λ k lt. f (suc k) (omega arith)))

-- What holds of all elements of the list only for members is a member.
pub In-All : (x : ℕ) (xs : List ℕ) → ((P : ℕ → Type 0) → All P xs → P x) → In x xs
In-All x xs f = f (λ y. In y xs) (All-tabulate (λ y. In y xs) xs (λ k lt. (k, lt, refl)))

pub All-In {ℓ} : (P : ℕ → Type ℓ) (x : ℕ) (xs : List ℕ) → All P xs → In x xs → P x
All-In P x [] h (k, lt, e) = absurd (omega arith)
All-In P x (y ∷ xs) (a, h) (zero, lt, e) = subst P e a
All-In P x (y ∷ xs) (a, h) (suc k, lt, e) = All-In P x xs h (k, (omega arith), e)

pub All-zip :
    (P Q R : ℕ → Type 0) (xs : List ℕ)
    → ((x : ℕ) → P x → Q x → R x)
    → All P xs
    → All Q xs
    → All R xs
All-zip P Q R [] f h h' = tt
All-zip P Q R (x ∷ xs) f (a, h) (b, h') = (f x a b, All-zip P Q R xs f h h')

pub keep-some : (f : ℕ → Bool) (x : ℕ) (xs : List ℕ) → In x xs → f x ≡ true → 0 < length (keep f xs)
keep-some f x [] (k, lt, e) t = absurd (omega arith)
keep-some f x (y ∷ xs) (zero, lt, e) t = rw (ap f e ∙ t) (omega arith)
keep-some f x (y ∷ xs) (suc k, lt, e) t = elim (Bool-cases (f y)) [
  | inl found ↦ rw found (omega arith)
  | inr other ↦ rw other (keep-some f x xs (k, omega arith, e) t)
]
