-- ===== src/Brac.antt =====
-- multi-threads/brac.c: threads that print brackets so that they match and nest at most four deep.
-- The buffer holds the open brackets; a quota lets one thread print at a time. The bytes that
-- `malloc(5)` grants behind the five asked for are a parameter, `extra`: test_producer writes into
-- the first of them when the buffer is full.
pub mod Correct
mod Examples
pub mod Entered
pub mod Nesting
pub mod Table
use the_code_back_up_in_ubun.Base.{
  ℕ, zero, suc, ◌+◌, ◌-◌, Bool, true, false, not, ◌||◌, ◌&&◌, Option, none, some, List, [], ◌∷◌,
  ◌++◌, ◌==◌, ltb, if◌then◌else◌, get_or,
}
use the_code_back_up_in_ubun.CString.{strlen, store, strcpy, strcat, str_eq}
use the_code_back_up_in_ubun.Monitor.{Monitor}

abbrev pub five : ℕ → ℕ → ℕ → ℕ → ℕ → List ℕ
five a b c d e = a ∷ b ∷ c ∷ d ∷ e ∷ []

abbrev pub zeros : List ℕ
zeros = five 0 0 0 0 0

-- `states`: the buffers that a producer may reach.
abbrev pub states : List (List ℕ)
states =
    five b'(' b'(' b'(' b'(' 0
    ∷ five b'[' b'(' b'(' b'(' 0
    ∷ five b'[' b'[' b'(' b'(' 0
    ∷ five b'[' b'[' b'[' b'(' 0
    ∷ five b'[' b'[' b'[' b'[' 0
    ∷ five b'(' b'(' b'(' 0 0
    ∷ five b'[' b'(' b'(' 0 0
    ∷ five b'[' b'[' b'(' 0 0
    ∷ five b'[' b'[' b'[' 0 0
    ∷ five b'(' b'(' 0 0 0
    ∷ five b'[' b'(' 0 0 0
    ∷ five b'[' b'[' 0 0 0
    ∷ five b'(' 0 0 0 0
    ∷ five b'[' 0 0 0 0
    ∷ []

-- `bit` after `bit[0] = ch`.
abbrev pub bit : ℕ → List ℕ
bit c = c ∷ 0 ∷ []

module _ (extra : List ℕ) where
  -- `tmp`: five bytes set to NUL and what the block has behind them, with `buff` and `bit` in it.
  unfoldable pub joined : List ℕ → ℕ → Option (List ℕ)
  unfolding strcpy strcat
  joined buff c = elim (strcpy (zeros ++ extra) buff) [
    | none ↦ none
    | some tmp ↦ strcat tmp (bit c)
  ]

  -- The loop of `test_producer`, over the states that are left: each round makes `tmp` anew.
  unfoldable pub test_states : List (List ℕ) → List ℕ → ℕ → Option ℕ
  unfolding joined str_eq
  test_states [] buff c = some 0
  test_states (s ∷ ss) buff c = elim (joined buff c) [
    | none ↦ none
    | some tmp ↦ if str_eq tmp s then some 1 else test_states ss buff c
  ]

  unfoldable pub test_producer : List ℕ → ℕ → Option ℕ
  unfolding test_states
  test_producer buff c = test_states states buff c

-- The loop of `test_consumer`: the index of the first NUL, and 4 if none of the four is one. The
-- first argument counts the rounds that are left.
unfoldable pub find_end : ℕ → List ℕ → ℕ → ℕ
find_end zero buff i = i
find_end (suc k) buff i = if get_or buff i 0 == 0 then i else find_end k buff (i + 1)

-- `return 1` for the bracket that closes the one at the index.
unfoldable pub closes : ℕ → ℕ → ℕ
closes open_c c =
    if (open_c == b'(') && (c == b')') then 1 else if (open_c == b'[') && (c == b']') then 1 else 0

unfoldable pub test_consumer : List ℕ → ℕ → ℕ
unfolding strlen find_end closes
test_consumer buff c =
    if ltb (strlen buff) 1 then 0 else closes (get_or buff (find_end 4 buff 0 - 1) 0) c

-- The globals. `count` and `quota` do not go below 0 in any state that is reached.
pub record State : Type 0 where
  pub buff : List ℕ
  pub count : ℕ
  pub quota : ℕ

abbrev pub is_open : ℕ → Bool
is_open c = (c == b'[') || (c == b'(')

abbrev pub is_close : ℕ → Bool
is_close c = (c == b')') || (c == b']')

module _ (extra : List ℕ) where
  -- The test of the `while` in `brac_before`; `none` is a write behind the end of `tmp`.
  unfoldable pub wait_test : ℕ → State → Option Bool
  unfolding test_producer test_consumer
  wait_test c s =
      if is_open c
      then elim (test_producer extra s.buff c) [
        | none ↦ none
        | some r ↦ some ((r == 0) || not (s.quota == 1) || (s.count == 4))
      ]
      else if is_close c
      then some ((test_consumer s.buff c == 0) || not (s.quota == 1) || (s.count == 0))
      else some false

  unfoldable pub blocked : ℕ → State → Bool
  unfolding wait_test
  blocked c s = elim (wait_test c s) [ none ↦ false | some b ↦ b ]

  -- `quota --` behind the loop; a fault of the test ends the process.
  unfoldable pub enter : ℕ → State → Option State
  unfolding wait_test
  enter c s = elim (wait_test c s) [
    | none ↦ none
    | some _ ↦ some (if is_open c || is_close c then record s { quota = s.quota - 1 } else s)
  ]

-- `memset(&buff[len-1], '\0', 1)`; with an empty buffer that is before its beginning.
unfoldable pub drop_last : List ℕ → Option (List ℕ)
unfolding store strlen
drop_last buff = if strlen buff == 0 then none else store buff (strlen buff - 1) 0

-- `brac_after`, between lock and unlock.
unfoldable pub leave : ℕ → State → Option State
unfolding strcat drop_last
leave c s =
    if is_open c
    then elim (strcat s.buff (bit c)) [
      | none ↦ none
      | some b ↦ some (record { buff = b; count = s.count + 1; quota = s.quota + 1 })
    ]
    else if is_close c
    then elim (drop_last s.buff) [
      | none ↦ none
      | some b ↦ some (record { buff = b; count = s.count - 1; quota = s.quota + 1 })
    ]
    else some s

-- The condition variables.
abbrev pub empty_cv : ℕ
empty_cv = 0

abbrev pub fill_cv : ℕ
fill_cv = 1

-- `brac_thread` over `brac_before` and `brac_after`.
abbrev pub brac_monitor : List ℕ → Monitor
brac_monitor extra = record {
  State = State;
  init = record { buff = zeros; count = 0; quota = 1 };
  blocked = blocked extra;
  enter = enter extra;
  leave = leave;
  waits_on = λ c. if is_open c then empty_cv else fill_cv;
  wakes = λ c k. if is_open c then k == fill_cv else is_close c && (k == empty_cv);
}

-- "[[]](())" with its terminator.
abbrev pub roles : List ℕ
roles = b'[' ∷ b'[' ∷ b']' ∷ b']' ∷ b'(' ∷ b'(' ∷ b')' ∷ b')' ∷ 0 ∷ []

-- `roles[id]`. `create` numbers the threads from 1, so thread 8 reads the terminator.
abbrev pub role : ℕ → ℕ
role id = get_or roles id 0

-- One thread for each character of `roles`.
abbrev pub thread_count : ℕ
thread_count = 8
