-- ===== src/Base/Family.antt =====
-- Families indexed by a number, such as the program counters of the threads: a write at one index.
use Prim.Native.Nat.{ℕ, zero, suc, ◌+◌, ◌*◌, ◌≤◌, ◌<◌}
use mathlib.Core.Path.{◌≡◌, refl, ◌∙◌}
use mathlib.Core.Logic.{◌≢◌, inl, inr}
use native.Mathlib.Omega.{arith}
use native.Mathlib.Decide.{dec_lt}
use the_code_back_up_in_ubun.Base.Tests.{◌==◌, if◌then◌else◌, Bool-cases}

module _ {ℓ} {A : Type ℓ} where
  abbrev pub update : (ℕ → A) → ℕ → A → ℕ → A
  update f i a j = if i == j then a else f j

  pub update_self : (f : ℕ → A) (i : ℕ) (a : A) → update f i a i ≡ a
  update_self f i a = ground arith

  pub update_other : (f : ℕ → A) {i j : ℕ} (a : A) → i ≢ j → update f i a j ≡ f j
  update_other f a ne = ground arith

  -- The entries from i on, so many of them, set to the value of their index.
  abbrev pub set_range : (ℕ → A) → ℕ → ℕ → (ℕ → A) → ℕ → A
  set_range value zero i f = f
  set_range value (suc count) i f = set_range value count (i + 1) (update f i (value i))

  pub set_range_before :
      (value : ℕ → A) (count i j : ℕ) (f : ℕ → A) → j < i → set_range value count i f j ≡ f j
  set_range_before value zero i j f lt = refl
  set_range_before value (suc count) i j f lt =
      set_range_before value count (i + 1) j (update f i (value i)) (omega arith)
      ∙ update_other f (value i) (ground arith)

  pub set_range_lem :
      (value : ℕ → A) (count i j : ℕ) (f : ℕ → A)
      → i ≤ j
      → j < i + count
      → set_range value count i f j ≡ value j
  set_range_lem value zero i j f le lt = absurd (omega arith)
  set_range_lem value (suc count) i j f le lt = elim (dec_lt i j) [
    | yes l ↦ set_range_lem value count (i + 1) j (update f i (value i)) (omega arith) (omega arith)
    | no r ↦
        let here : i ≡ j = omega arith in
        set_range_before value count (i + 1) j (update f i (value i)) (omega arith) ∙ ground arith
  ]

-- The sum of w at 1 to k.
abbrev pub sum_to : (ℕ → ℕ) → ℕ → ℕ
sum_to w zero = 0
sum_to w (suc k) = sum_to w k + w (suc k)

pub sum_to-le :
    (w w' : ℕ → ℕ) (c k : ℕ) → ((i : ℕ) → w i ≤ w' i + c) → sum_to w k ≤ sum_to w' k + c * k
sum_to-le w w' c zero h = omega arith
sum_to-le w w' c (suc k) h = omega (arith, sum_to-le w w' c k h, h (suc k))

pub sum_to-const : (c k : ℕ) → sum_to (λ i. c) k ≡ c * k
sum_to-const c zero = omega arith
sum_to-const c (suc k) = omega (arith, sum_to-const c k)

module _ {ℓ} {A : Type ℓ} (w : A → ℕ) (f : ℕ → A) (i : ℕ) (a : A) where
  sum_to-update_behind :
      (k : ℕ) → suc k ≤ i → sum_to (λ j. w (update f i a j)) k ≡ sum_to (λ j. w (f j)) k
  sum_to-update_behind zero h = omega arith
  sum_to-update_behind (suc k) h = ground (arith, sum_to-update_behind k (omega arith))

  pub sum_to-update :
      (k : ℕ)
      → 1 ≤ i
      → i ≤ k
      → sum_to (λ j. w (update f i a j)) k + w (f i) ≡ sum_to (λ j. w (f j)) k + w a
  sum_to-update zero lo hi = absurd (omega arith)
  sum_to-update (suc k) lo hi = elim (Bool-cases (i == suc k)) [
    | inl this ↦ ground (arith, sum_to-update_behind k (ground arith))
    | inr other ↦ ground (arith, sum_to-update k lo (ground arith))
  ]
