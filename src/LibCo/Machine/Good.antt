-- ===== src/LibCo/Machine/Good.antt =====
-- The lists of coroutines on which the switches of libco/co-first.c run.
use the_code_back_up_in_ubun.Base.{
  ℕ, ◌+◌, ◌<◌, ◌≤◌, ◌≡◌, ◌≢◌, ap, Bool, true, false, inl, inr, some, List, [], ◌∷◌, length, get_or,
  All, keep, Bool-cases,
}
use the_code_back_up_in_ubun.LibCo.{State, co_list_head, co_waiting, ready, rand_choose}
use the_code_back_up_in_ubun.LibCo.Names.{All-keep, All-get_or}
use the_code_back_up_in_ubun.LibCo.Choice.{WellFormed, pool_of, rand_choose_lem}
use the_code_back_up_in_ubun.LibCo.Machine.{Machine, Point}

-- The list is well formed, none of its coroutines is freed, and each that waits has a context.
pub record Good (m : Machine) (xs : List ℕ) : Type 0 where
  pub listed : WellFormed m.state xs
  pub live : All (λ x. m.freed x ≡ false) xs
  pub contexts :
      All (λ x. m.state.status x ≡ co_waiting → (point : Point) × (m.context x ≡ some point)) xs

-- The states of a list that is well formed with other statuses, and another current coroutine.
pub restatus-WellFormed :
    (s : State) (xs : List ℕ) (status brother : ℕ → ℕ) (current : ℕ)
    → WellFormed s xs
    → status co_list_head ≡ 0
    → ((p : ℕ) → brother p ≡ 0)
    → WellFormed (record s { status = status; brother = brother; current = current }) xs
restatus-WellFormed s xs status brother current w e zeros = record {
  listed = w.listed;
  own = w.own;
  off_pool = w.off_pool;
  head_status = e;
  no_pool = zeros;
  named = w.named;
  own_names = w.own_names;
}

pub keep-All : (f : ℕ → Bool) (xs : List ℕ) → All (λ x. f x ≡ true) (keep f xs)
keep-All f [] = tt
keep-All f (x ∷ xs) = elim (Bool-cases (f x)) [
  | inl e ↦ rw e (e, keep-All f xs)
  | inr e ↦ rw e (keep-All f xs)
]

pub All-map : (P Q : ℕ → Type 0) (xs : List ℕ) → ((x : ℕ) → P x → Q x) → All P xs → All Q xs
All-map P Q [] f h = tt
All-map P Q (x ∷ xs) f (a, h) = (f x a, All-map P Q xs f h)

-- A state of the list behind `rand_choose`, with the coroutine it chose.
pub record Chosen (fuel r : ℕ) (s : State) (xs : List ℕ) (q : ℕ) (brother : ℕ → ℕ) : Type 1 where
  pub run : rand_choose fuel r s ≡ some (q, record s { brother = brother })
  pub zeros : (p : ℕ) → brother p ≡ 0
  pub another : 2 ≤ length (pool_of s xs) → q ≢ s.current
  pub is_ready : ready s q ≡ true
  pub in_list : (P : ℕ → Type 0) → All P xs → P q

pub chosen_lem :
    (fuel r : ℕ) (s : State) (xs n : List ℕ)
    → WellFormed s xs
    → s.name s.current ≡ some n
    → 0 < length (pool_of s xs)
    → length xs + 2 ≤ fuel
    → (q : ℕ) × (brother : ℕ → ℕ) × Chosen fuel r s xs q brother
chosen_lem fuel r s xs n w e some_node enough =
    let (i, lt, (brother, run, zeros), other) =
      rand_choose_lem fuel r s xs n w e some_node enough in
    (
      get_or (pool_of s xs) i 0,
      brother,
      record {
        run = run;
        zeros = zeros;
        another = λ two h. other two (ap s.name h);
        is_ready = All-get_or (λ x. ready s x ≡ true) (pool_of s xs) i (keep-All (ready s) xs) lt;
        in_list = λ P h. All-get_or P (pool_of s xs) i (All-keep P (ready s) xs h) lt;
      },
    )
