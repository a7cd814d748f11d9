-- ===== src/Fish.antt =====
-- multi-threads/fish.c: threads that print `<`, `>` and `_` so that fish come out. The table of
-- rules drives one automaton under a mutex; a quota lets one thread print at a time.
pub mod Correct
mod Examples
pub mod Words
use the_code_back_up_in_ubun.Base.{
  ℕ, zero, suc, ◌+◌, ◌-◌, Bool, true, false, not, ◌||◌, ◌&&◌, Option, none, some, List, [], ◌∷◌,
  ◌==◌, if◌then◌else◌, get_or,
}
use the_code_back_up_in_ubun.Monitor.{Monitor}

-- `enum state`
abbrev pub state_a : ℕ
state_a = 1

abbrev pub state_b : ℕ
state_b = 2

abbrev pub state_c : ℕ
state_c = 3

abbrev pub state_d : ℕ
state_d = 4

abbrev pub state_e : ℕ
state_e = 5

abbrev pub state_f : ℕ
state_f = 6

pub record Rule : Type 0 where
  pub from : ℕ
  pub ch : ℕ
  pub to : ℕ

abbrev rule : ℕ → ℕ → ℕ → Rule
rule a c b = record { from = a; ch = c; to = b }

abbrev pub rules : List Rule
rules =
    rule state_a b'>' state_b
    ∷ rule state_b b'<' state_c
    ∷ rule state_c b'>' state_d
    ∷ rule state_d b'_' state_a
    ∷ rule state_a b'<' state_e
    ∷ rule state_e b'>' state_f
    ∷ rule state_f b'<' state_d
    ∷ []

-- The loop of `next`, over the rules that are left.
unfoldable pub next_in : List Rule → ℕ → ℕ → ℕ
next_in [] current c = 0
next_in (r ∷ rs) current c =
    if (r.from == current) && (r.ch == c) then r.to else next_in rs current c

-- `next(ch)`; 0 says that no rule applies.
unfoldable pub next : ℕ → ℕ → ℕ
unfolding next_in
next current c = next_in rules current c

-- The globals.
pub record State : Type 0 where
  pub current : ℕ
  pub quota : ℕ

unfoldable pub blocked : ℕ → State → Bool
unfolding next
blocked c s = (next s.current c == 0) || (s.quota == 0)

-- The assertion and `quota --`, which follow the wait.
unfoldable pub enter : ℕ → State → Option State
unfolding next
enter c s =
    if not (next s.current c == 0) && (s.quota == 1)
    then some (record s { quota = s.quota - 1 })
    else none

-- `fish_after`, between lock and unlock.
unfoldable pub leave : ℕ → State → Option State
unfolding next
leave c s = some (record { current = next s.current c; quota = s.quota + 1 })

-- `fish_thread` over `fish_before` and `fish_after`: one condition variable, 0.
abbrev pub fish_monitor : Monitor
fish_monitor = record {
  State = State;
  init = record { current = state_a; quota = 1 };
  blocked = blocked;
  enter = enter;
  leave = leave;
  waits_on = λ c. 0;
  wakes = λ c k. true;
}

-- "<<<<<>>>>___" with its terminator.
abbrev pub roles : List ℕ
roles = b'<' ∷ b'<' ∷ b'<' ∷ b'<' ∷ b'<' ∷ b'>' ∷ b'>' ∷ b'>' ∷ b'>' ∷ b'_' ∷ b'_' ∷ b'_' ∷ 0 ∷ []

-- `roles[id]`. `create` numbers the threads from 1, so thread 12 reads the terminator.
abbrev pub role : ℕ → ℕ
role id = get_or roles id 0

-- One thread for each character of `roles`.
abbrev pub thread_count : ℕ
thread_count = 12
