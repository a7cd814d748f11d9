-- ===== src/Scheduler/Guarded.antt =====
-- What a lock keeps, over which of the five tasks are behind it.
use the_code_back_up_in_ubun.Base.{
  ℕ, ◌≤◌, ◌<◌, ◌≡◌, ◌≢◌, refl, sym, ap, ◌∙◌, Bool, true, false, ◌==◌, if◌then◌else◌, arith,
  Bool-cases, inl, inr,
}

-- The word of a lock and those of the five tasks that are inside.
pub record Guarded (is_in : ℕ → Bool) (word : ℕ) : Type 0 where
  pub taken : (t : ℕ) → t < 5 → is_in t ≡ true → word ≡ 1
  pub unique : (t u : ℕ) → t < 5 → u < 5 → is_in t ≡ true → is_in u ≡ true → t ≡ u
  pub held : word ≡ 1 → (t : ℕ) × (t < 5) × (is_in t ≡ true)
  pub bit : word ≤ 1

-- The task a comes to b, and no other moves.
abbrev pub Moves : (ℕ → Bool) → (ℕ → Bool) → ℕ → Bool → Type 0
Moves is_in is_in' a b = (t : ℕ) → is_in' t ≡ (if a == t then b else is_in t)

module _ (is_in is_in' : ℕ → Bool) (word a : ℕ) (small : a < 5) (g : Guarded is_in word) where
  pub Guarded-stay : Moves is_in is_in' a (is_in a) → Guarded is_in' word
  Guarded-stay mv = record {
    taken = λ t lt e. g.taken t lt (sym (same t) ∙ e);
    unique = λ t u lt lt' e e'. g.unique t u lt lt' (sym (same t) ∙ e) (sym (same u) ∙ e');
    held = λ w. let (t, lt, e) = g.held w in (t, lt, same t ∙ e);
    bit = g.bit;
  }
    where
      same : (t : ℕ) → is_in' t ≡ is_in t
      same t = elim (Bool-cases (a == t)) [
        | inl e ↦ mv t ∙ rw e (ap is_in (ground (arith, e)))
        | inr e ↦ mv t ∙ rw e refl
      ]

  pub Guarded-enter : Moves is_in is_in' a true → word ≡ 0 → Guarded is_in' 1
  Guarded-enter mv free = record {
    taken = λ t lt e. refl;
    unique = λ t u lt lt' e e'. only t lt e ∙ sym (only u lt' e');
    held = λ w. (a, small, mv a ∙ ground arith);
    bit = omega arith;
  }
    where
      only : (t : ℕ) → t < 5 → is_in' t ≡ true → t ≡ a
      only t lt e = ground (arith, mv t, e, g.taken t lt, free)

  pub Guarded-leave : Moves is_in is_in' a false → is_in a ≡ true → Guarded is_in' 0
  Guarded-leave mv mine = record {
    taken = λ t lt e. absurd (nobody t lt e);
    unique = λ t u lt lt' e e'. absurd (nobody t lt e);
    held = λ w. absurd (omega arith);
    bit = omega arith;
  }
    where
      nobody : (t : ℕ) → t < 5 → is_in' t ≢ true
      nobody t lt e = ground (arith, mv t, e, g.unique t a lt small, mine)
