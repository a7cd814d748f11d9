-- ===== src/Fish/Correct.antt =====
-- fish.c meets its purpose in every interleaving of its twelve threads.
use the_code_back_up_in_ubun.Base.{
  ℕ, ◌≤◌, ◌≡◌, refl, ◌≢◌, inl, inr, true, false, none, some, List, [], ◌∷◌, ◌++◌, ◌+◌, ◌*◌, length,
  arith,
}
use the_code_back_up_in_ubun.Monitor.{System, Reach}
use the_code_back_up_in_ubun.Monitor.Gate.{Gate, inside, visible}
use the_code_back_up_in_ubun.Monitor.Progress.{
  CanMove, Reach-Phase, alive, one_inside, visible-Good, no_deadlock,
}
use the_code_back_up_in_ubun.Monitor.Pace.{steps, chances, pace}
use the_code_back_up_in_ubun.Fish.{
  next, State, blocked, enter, leave, fish_monitor, role, thread_count,
}
use the_code_back_up_in_ubun.Fish.Words.{empty, Swims, next-Swims}

pub record Good (st : State) (v : List ℕ) : Type 0 where
  pub one : st.quota ≡ 1
  pub swims : Swims st.current v

pub enter-Good :
    (c : ℕ) (st : State) (v : List ℕ)
    → Good st v
    → blocked c st ≡ false
    → (t : State) × (enter c st ≡ some t)
      × ((d : ℕ) → blocked d t ≡ true)
      × ((u : State) × (leave c t ≡ some u) × Good u (v ++ c ∷ []))
unfolding blocked enter leave
enter-Good c st v g b = (
  record st { quota = 0 },
  ground (arith, g.one),
  λ d. ground arith,
  (
    record { current = next st.current c; quota = 1 },
    refl,
    record { one = refl; swims = next-Swims st.current c v g.swims (ground arith) },
  ),
)

-- Every character of fish.c takes part.
pub no_other {ℓ} : {P : Type ℓ} → true ≡ false → P
no_other h = cc

abbrev pub fish_gate : Gate fish_monitor
fish_gate = record {
  guarded = λ c. true;
  Good = Good;
  Live = λ k st. k ≡ 0;
  init-Good = record {
    one = refl;
    swims = record { whole = []; part = []; school = empty; begun = inl (refl, refl); all = refl };
  };
  init-Live = (0, refl);
  enter-Good = λ c st v g gd b.
      let (t, e, q, (u, l, good)) = enter-Good c st v g b in
      (t, e, λ d gd'. q d, (u, l, good, (0, refl, refl)));
  enter_other = λ c st h. no_other h;
  leave_other = λ c st h. no_other h;
}

visible-all : (out : List ℕ) → visible fish_gate role out ≡ out
visible-all [] = refl
visible-all (c ∷ cs) = rw (visible-all cs)

abbrev pub FishReach : System State → Type 0
FishReach = Reach fish_monitor role thread_count

-- In every reachable state the whole output is a row of complete fish, each `><>_` or `<><_`,
-- followed by the beginning of one more.
pub output-Swims : (s : System State) → FishReach s → (q : ℕ) × Swims q s.out
output-Swims s r =
    let (st, g) = visible-Good fish_gate role s (Reach-Phase fish_gate role r) in
    (st.current, rw visible-all at g.swims)

-- The assertion in `fish_before` holds whenever a thread comes to it: the process never ends by it.
pub assert-holds : (s : System State) → FishReach s → s.shared ≢ none
assert-holds s r =
    let (st, sh) = alive fish_gate role s (Reach-Phase fish_gate role r) in ground arith

-- Two threads are never at the same time between the return of `fish_before` and the unlock of
-- `fish_after`.
pub one_prints :
    (s : System State)
    → FishReach s
    → (i j : ℕ) → inside (s.pc i) ≡ true
    → inside (s.pc j) ≡ true
    → i ≡ j
one_prints s r i j a b = one_inside fish_gate role r i j (ground arith) (ground arith)

-- Some thread can go on from each state of the automaton.
rescue :
    (k : ℕ) (st : State) (v : List ℕ)
    → Good st v
    → k ≡ 0
    → (i : ℕ) × (1 ≤ i) × (i ≤ thread_count) × (0 ≡ k) × (blocked (role i) st ≡ false)
unfolding blocked next
rescue k st v g e = elim g.swims.begun [
  | inl (q, p) ↦ (5, omega arith, omega arith, omega arith, rw (q, g.one))
  | inr (inl (q, p)) ↦ (1, omega arith, omega arith, omega arith, rw (q, g.one))
  | inr (inr (inl (q, p))) ↦ (5, omega arith, omega arith, omega arith, rw (q, g.one))
  | inr (inr (inr (inl (q, p)))) ↦ (9, omega arith, omega arith, omega arith, rw (q, g.one))
  | inr (inr (inr (inr (inl (q, p))))) ↦ (9, omega arith, omega arith, omega arith, rw (q, g.one))
  | inr (inr (inr (inr (inr (inl (q, p)))))) ↦
      (5, omega arith, omega arith, omega arith, rw (q, g.one))
  | inr (inr (inr (inr (inr (inr (q, p)))))) ↦
      (1, omega arith, omega arith, omega arith, rw (q, g.one))
]

-- The twelve threads never deadlock: in every reachable state some thread can move, and this needs
-- no wake-up without a broadcast.
pub fish-CanMove : (s : System State) → FishReach s → CanMove fish_monitor role thread_count s
fish-CanMove s r =
    no_deadlock fish_gate role
      (λ k st v g l. let (i, lo, hi, side, can) = rescue k st v g l in (i, lo, hi, refl, side, can))
      r

-- The twelve threads go on for ever: in every reachable state some thread can move with no wake-up
-- without a broadcast, and of the steps that led to it, at most 24, 29 for each character of the
-- output and three for each wake-up without a broadcast were made.
pub fish_goes_on :
    (s : System State) (r : FishReach s)
    → CanMove fish_monitor role thread_count s
      × (steps fish_monitor role r ≤ 24 + 29 * length s.out + 3 * chances fish_monitor role r)
fish_goes_on s r = (fish-CanMove s r, pace fish_monitor role r)
