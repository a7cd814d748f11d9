-- ===== src/Brac/Correct.antt =====
-- brac.c meets its purpose in every interleaving of its eight threads, if the block of `tmp` has a
-- sixth byte; and what happens if it has not.
use the_code_back_up_in_ubun.Base.{
  ℕ, zero, suc, ◌+◌, ◌*◌, ◌≤◌, ◌≡◌, refl, inl, inr, ◌≢◌, true, false, none, some, List, [], ◌∷◌,
  length, arith, ◌∙◌, sym, ◌==◌,
}
use the_code_back_up_in_ubun.Monitor.{Monitor, System, Reach}
use the_code_back_up_in_ubun.Monitor.Gate.{Gate, active}
use the_code_back_up_in_ubun.Monitor.Progress.{
  CanGo, Reach-Phase, alive, one_inside, visible-Good, reach-CanGo,
}
use the_code_back_up_in_ubun.Monitor.Pace.{steps, chances, pace}
use the_code_back_up_in_ubun.Brac.{
  State, is_open, blocked, enter, leave, brac_monitor, empty_cv, role, thread_count,
}
use the_code_back_up_in_ubun.Brac.Table.{
  test_producer-paren, test_consumer-paren, test_consumer-bracket, test_producer-full,
}
use the_code_back_up_in_ubun.Brac.Nesting.{nest, nest-keep}
use the_code_back_up_in_ubun.Brac.Entered.{globals, open_brackets, Good, Live, guarded, enter-Good}

module _ (x : ℕ) (rest : List ℕ) where
  pub init-Good : Good (globals 0 0 1) []
  unfolding nest
  init-Good = record { a = 0; b = 0; small = omega arith; is = refl; nested = refl }

  pub enter_other : (c : ℕ) (st : State) → guarded c ≡ false → enter (x ∷ rest) c st ≡ some st
  unfolding enter
  enter_other c st h = ground arith

  pub leave_other : (c : ℕ) (st : State) → guarded c ≡ false → leave c st ≡ some st
  unfolding leave
  leave_other c st h = ground arith

  abbrev pub brac_gate : Gate (brac_monitor (x ∷ rest))
  brac_gate = record {
    guarded = guarded;
    Good = Good;
    Live = Live;
    init-Good = init-Good;
    init-Live = (empty_cv, inr (refl, omega arith));
    enter-Good = enter-Good x rest;
    enter_other = enter_other;
    leave_other = leave_other;
  }

  abbrev pub BracReach : System State → Type 0
  BracReach = Reach (brac_monitor (x ∷ rest)) role thread_count

  -- In every reachable state the brackets of the whole output match, whatever other characters
  -- stand between them: what is left open is some `[` and inside them some `(`, four at most.
  pub output-nests :
      (s : System State)
      → BracReach s
      → (a b : ℕ) × (a + b ≤ 4) × (nest [] s.out ≡ some (open_brackets a b))
  output-nests s r =
      let (st, g) = visible-Good brac_gate role s (Reach-Phase brac_gate role r) in
      (g.a, g.b, g.small, sym (nest-keep [] s.out) ∙ g.nested)

  -- While no thread that prints a bracket is between `brac_before` and the unlock of `brac_after`,
  -- the buffer holds the brackets that the output leaves open, `count` is their number, and the
  -- quota is 1.
  pub buffer-nests :
      (s : System State)
      → BracReach s
      → ((i : ℕ) → active brac_gate role s.pc i ≡ false)
      → (a b : ℕ) × (s.shared ≡ some (globals a b 1)) × (nest [] s.out ≡ some (open_brackets a b))
  buffer-nests s r quiet = elim (Reach-Phase brac_gate role r) [
    | inl q ↦
        let g = q.good in
        (g.a, g.b, ground (arith, q.at, g.is), sym (nest-keep [] s.out) ∙ g.nested)
    | inr z ↦ absurd (ground (arith, quiet z.who, z.is_in, z.guard))
  ]

  -- No write of `brac_before` or `brac_after` is out of bounds.
  pub memory_safe : (s : System State) → BracReach s → s.shared ≢ none
  memory_safe s r =
      let (st, sh) = alive brac_gate role s (Reach-Phase brac_gate role r) in ground arith

  -- Two threads that print brackets are never at the same time between the return of `brac_before`
  -- and the unlock of `brac_after`.
  pub one_bracket :
      (s : System State)
      → BracReach s
      → (i j : ℕ) → active brac_gate role s.pc i ≡ true
      → active brac_gate role s.pc j ≡ true
      → i ≡ j
  one_bracket s r i j a b = one_inside brac_gate role r i j a b

  passes_empty : (a b : ℕ) → a + b ≤ 3 → blocked (x ∷ rest) b'(' (globals a b 1) ≡ false
  unfolding blocked
  passes_empty a b h = ground (arith, test_producer-paren x rest a b)

  passes_fill_paren :
      (a b : ℕ) → suc a + b ≤ 4 → blocked (x ∷ rest) b')' (globals (suc a) b 1) ≡ false
  unfolding blocked
  passes_fill_paren a b h = ground (arith, test_consumer-paren (suc a) b h)

  passes_fill_bracket : (b : ℕ) → suc b ≤ 4 → blocked (x ∷ rest) b']' (globals 0 (suc b) 1) ≡ false
  unfolding blocked
  passes_fill_bracket b h = ground (arith, test_consumer-bracket 0 (suc b) (omega arith))

  Saved : ℕ → State → Type 0
  Saved k st =
      (i : ℕ) × (1 ≤ i)
      × (i ≤ thread_count)
      × (guarded (role i) ≡ true)
      × (Monitor.waits_on (brac_monitor (x ∷ rest)) (role i) ≡ k)
      × (blocked (x ∷ rest) (role i) st ≡ false)

  -- The thread 6 closes a `(`, the thread 2 a `[`, and the thread 4 opens.
  Saved-at : (k a b : ℕ) → a + b ≤ 4 → Live k (globals a b 1) → Saved k (globals a b 1)
  unfolding Saved
  Saved-at k zero zero s (inl (e, n)) = absurd (omega arith)
  Saved-at k zero (suc b) s (inl (e, n)) =
      (2, omega arith, omega arith, refl, sym e, passes_fill_bracket b (omega arith))
  Saved-at k (suc a) b s (inl (e, n)) =
      (6, omega arith, omega arith, refl, sym e, passes_fill_paren a b s)
  Saved-at k a b s (inr (e, n)) = (4, omega arith, omega arith, refl, sym e, passes_empty a b n)

  rescue : (k : ℕ) (st : State) (v : List ℕ) → Good st v → Live k st → Saved k st
  rescue k st v g l = rw g.is (Saved-at k g.a g.b g.small (rw g.is at l))

  -- The threads that print brackets never deadlock, whatever thread 8 does: in every reachable state
  -- in which the mutex is free, a thread that prints a bracket can make a step with no wake-up
  -- without a broadcast, and it is behind its `brac_before` already or the test in front of it lets
  -- it pass now; and if a thread holds the mutex, it can make a step that gives it up. Of the steps
  -- that led to the state, at most 16, 21 for each character of the output, the NULs included, and
  -- three for each wake-up without a broadcast were made.
  pub brac_goes_on :
      (s : System State) (r : BracReach s)
      → CanGo brac_gate role thread_count s
        × (steps (brac_monitor (x ∷ rest)) role r
            ≤ 16 + 21 * length s.out + 3 * chances (brac_monitor (x ∷ rest)) role r)
  unfolding Saved
  brac_goes_on s r = (reach-CanGo brac_gate role rescue r, pace (brac_monitor (x ∷ rest)) role r)

-- With a block of just the five bytes that are asked for, a producer that comes to its test while
-- four brackets are open, whatever the quota is, writes behind the block, whatever it wants to
-- print: the loop around the wait is left, and what follows it ends the process.
pub tmp_overflow :
    (a b q c : ℕ)
    → a + b ≡ 4
    → is_open c ≡ true
    → (blocked [] c (globals a b q) ≡ false) × (enter [] c (globals a b q) ≡ none)
unfolding blocked enter
tmp_overflow a b q c four op =
    let nz : (c == 0) ≡ false = ground arith in
    (
      ground (arith, test_producer-full a b c four nz),
      ground (arith, test_producer-full a b c four nz),
    )
