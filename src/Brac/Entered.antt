-- ===== src/Brac/Entered.antt =====
-- One thread's turn at the gate of brac.c: what a bracket that passes does to the buffer.
use the_code_back_up_in_ubun.Base.{
  replicate, ℕ, zero, suc, ◌+◌, ◌≤◌, ◌≡◌, refl, ◌⊎◌, inl, inr, Bool, true, false, ◌||◌, some, List,
  [], ◌∷◌, ◌++◌, arith,
}
use the_code_back_up_in_ubun.Brac.{
  State, is_open, is_close, blocked, enter, leave, brac_monitor, empty_cv, fill_cv,
}
use the_code_back_up_in_ubun.Monitor.{Monitor}
use the_code_back_up_in_ubun.Brac.Table.{
  bytes, test_producer-paren, test_producer-bracket, test_consumer-paren, test_consumer-bracket,
  strcat-paren, strcat-bracket, drop_last_lem,
}
use the_code_back_up_in_ubun.Brac.Nesting.{nest, nest-snoc}

-- The globals when a brackets `(` are open inside b brackets `[`.
abbrev pub globals : ℕ → ℕ → ℕ → State
globals a b q = record { buff = bytes a b; count = a + b; quota = q }

-- The same, innermost first.
abbrev pub open_brackets : ℕ → ℕ → List ℕ
open_brackets a b = replicate a b'(' ++ replicate b b'['

pub record Good (st : State) (v : List ℕ) : Type 0 where
  pub a : ℕ
  pub b : ℕ
  pub small : a + b ≤ 4
  pub is : st ≡ globals a b 1
  pub nested : nest [] v ≡ some (open_brackets a b)

-- The condition variables whose sleepers may be able to pass.
abbrev pub Live : ℕ → State → Type 0
Live k st = ((k ≡ fill_cv) × (1 ≤ st.count)) ⊎ ((k ≡ empty_cv) × (st.count ≤ 3))

abbrev pub guarded : ℕ → Bool
guarded c = is_open c || is_close c

which : (c : ℕ) → guarded c ≡ true → (c ≡ b'(') ⊎ (c ≡ b'[') ⊎ (c ≡ b')') ⊎ (c ≡ b']')
which c h = ground arith

module _ (x : ℕ) (rest : List ℕ) where
  -- What follows for a bracket that passes in `st`.
  abbrev pub Entered : ℕ → State → List ℕ → Type 0
  Entered c st v =
      (t : State) × (enter (x ∷ rest) c st ≡ some t)
      × ((d : ℕ) → guarded d ≡ true → blocked (x ∷ rest) d t ≡ true)
      × ((u : State) × (leave c t ≡ some u)
          × Good u (v ++ c ∷ [])
          × ((k : ℕ) × (Monitor.wakes (brac_monitor (x ∷ rest)) c k ≡ true) × Live k u))

  -- With the quota used up nobody else passes.
  closed :
      (a b : ℕ)
      → a + b ≤ 4
      → (d : ℕ) → guarded d ≡ true
      → blocked (x ∷ rest) d (globals a b 0) ≡ true
  unfolding blocked
  closed a b small d gd = elim (which d gd) [
    | inl e ↦ rw e (ground (arith, test_producer-paren x rest a b small))
    | inr (inl e) ↦ rw e (ground (arith, test_producer-bracket x rest a b small))
    | inr (inr (inl e)) ↦ rw e (ground arith)
    | inr (inr (inr e)) ↦ rw e (ground arith)
  ]

  module _ (a b : ℕ) (v : List ℕ) (small : a + b ≤ 4)
      (nested : nest [] v ≡ some (open_brackets a b)) where
    enter_paren : blocked (x ∷ rest) b'(' (globals a b 1) ≡ false → Entered b'(' (globals a b 1) v
    unfolding blocked enter leave nest
    enter_paren h = (
      globals a b 0,
      ground (arith, test_producer-paren x rest a b small),
      closed a b small,
      (
        globals (suc a) b 1,
        ground (arith, strcat-paren a b small, test_producer-paren x rest a b small),
        record {
          a = suc a;
          b = b;
          small = ground (arith, test_producer-paren x rest a b small);
          is = refl;
          nested = nest-snoc [] v b'(' nested;
        },
        (fill_cv, refl, inl (refl, omega arith)),
      ),
    )

    bracket_empty : blocked (x ∷ rest) b'[' (globals a b 1) ≡ false → (a ≡ 0) × (b ≤ 3)
    unfolding blocked
    bracket_empty h = ground (arith, test_producer-bracket x rest a b small)

    close_paren-pos : blocked (x ∷ rest) b')' (globals a b 1) ≡ false → 1 ≤ a
    unfolding blocked
    close_paren-pos h = ground (arith, test_consumer-paren a b small)

    close_bracket-pos : blocked (x ∷ rest) b']' (globals a b 1) ≡ false → (a ≡ 0) × (1 ≤ b)
    unfolding blocked
    close_bracket-pos h = ground (arith, test_consumer-bracket a b small)

  enter_bracket :
      (b : ℕ) (v : List ℕ)
      → b ≤ 3
      → nest [] v ≡ some (open_brackets 0 b)
      → Entered b'[' (globals 0 b 1) v
  unfolding enter leave nest
  enter_bracket b v small nested = (
    globals 0 b 0,
    ground (arith, test_producer-bracket x rest 0 b (omega arith)),
    closed 0 b (omega arith),
    (
      globals 0 (suc b) 1,
      ground (arith, strcat-bracket b (omega arith)),
      record {
        a = 0;
        b = suc b;
        small = omega arith;
        is = refl;
        nested = nest-snoc [] v b'[' nested;
      },
      (fill_cv, refl, inl (refl, omega arith)),
    ),
  )

  enter_close_paren :
      (a b : ℕ) (v : List ℕ)
      → suc a + b ≤ 4
      → nest [] v ≡ some (open_brackets (suc a) b)
      → Entered b')' (globals (suc a) b 1) v
  unfolding enter leave nest
  enter_close_paren a b v small nested = (
    globals (suc a) b 0,
    refl,
    closed (suc a) b small,
    (
      globals a b 1,
      ground (arith, drop_last_lem (suc a) b small),
      record { a = a; b = b; small = omega arith; is = refl; nested = nest-snoc [] v b')' nested },
      (empty_cv, refl, inr (refl, omega arith)),
    ),
  )

  enter_close_bracket :
      (b : ℕ) (v : List ℕ)
      → suc b ≤ 4
      → nest [] v ≡ some (open_brackets 0 (suc b))
      → Entered b']' (globals 0 (suc b) 1) v
  unfolding enter leave nest
  enter_close_bracket b v small nested = (
    globals 0 (suc b) 0,
    refl,
    closed 0 (suc b) (omega arith),
    (
      globals 0 b 1,
      ground (arith, drop_last_lem 0 (suc b) (omega arith)),
      record { a = 0; b = b; small = omega arith; is = refl; nested = nest-snoc [] v b']' nested },
      (empty_cv, refl, inr (refl, omega arith)),
    ),
  )

  enter_at :
      (c a b : ℕ) (v : List ℕ)
      → a + b ≤ 4
      → nest [] v ≡ some (open_brackets a b)
      → (c ≡ b'(') ⊎ (c ≡ b'[') ⊎ (c ≡ b')') ⊎ (c ≡ b']')
      → blocked (x ∷ rest) c (globals a b 1) ≡ false
      → Entered c (globals a b 1) v
  enter_at c a b v s n (inl e) h = rw e (enter_paren a b v s n (rw e at h))
  enter_at c a b v s n (inr (inl e)) h =
      let (a0, room) = bracket_empty a b v s n (rw e at h) in
      rw (e, a0) (enter_bracket b v room (rw a0 at n))
  enter_at c zero b v s n (inr (inr (inl e))) h =
      absurd (omega (arith, close_paren-pos 0 b v s n (rw e at h)))
  enter_at c (suc a) b v s n (inr (inr (inl e))) h = rw e (enter_close_paren a b v s n)
  enter_at c a zero v s n (inr (inr (inr e))) h =
      absurd (omega (arith, (close_bracket-pos a 0 v s n (rw e at h)).1))
  enter_at c a (suc b) v s n (inr (inr (inr e))) h =
      let (a0, some_b) = close_bracket-pos a (suc b) v s n (rw e at h) in
      rw (e, a0) (enter_close_bracket b v (omega arith) (rw a0 at n))

  pub enter-Good :
      (c : ℕ) (st : State) (v : List ℕ)
      → Good st v
      → guarded c ≡ true
      → blocked (x ∷ rest) c st ≡ false
      → Entered c st v
  enter-Good c st v g gd h =
      rw g.is (enter_at c g.a g.b v g.small g.nested (which c gd) (rw g.is at h))
