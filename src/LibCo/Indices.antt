-- ===== src/LibCo/Indices.antt =====
-- The indices of `rand_choose` in libco/co-first.c.
use native.Mathlib.Nat.{mod-lt, mod-eq_of_lt, mod-eq-sub-mod}
use the_code_back_up_in_ubun.Base.{
  ℕ, suc, ◌+◌, ◌-◌, ◌%◌, ◌<◌, ◌≤◌, ◌≡◌, ◌≢◌, ◌∙◌, ap, ◌==◌, ltb, arith, Bool-cases, inl, inr,
}
use the_code_back_up_in_ubun.LibCo.{first_index, index_again}

pub first_index_lem :
    (r count : ℕ) → 0 < count → (k : ℕ) × (first_index r count ≡ suc k) × (k < count)
unfolding first_index
first_index_lem r count some_node = (r % count, ground arith, mod-lt r some_node)

mod_wrap : (k count : ℕ) → k < count → 3 ≤ count → (k + 2) % count ≢ k
mod_wrap k count lt le = elim (Bool-cases (ltb (k + 2) count)) [
  | inl small ↦ λ e. small_step (mod-eq_of_lt (ground arith)) e
  | inr large ↦
      λ e. large_step (ground arith) (mod-eq-sub-mod (ground arith)) (mod-eq_of_lt (ground arith)) e
]
  where
    small_step : (k + 2) % count ≡ k + 2 → (k + 2) % count ≢ k
    small_step a e = omega arith

    large_step :
        count ≤ k + 2
        → (k + 2) % count ≡ (k + 2 - count) % count
        → (k + 2 - count) % count ≡ k + 2 - count
        → (k + 2) % count ≢ k
    large_step le' a b e = omega arith

shifted : (k count : ℕ) → (suc k + 1) % count + 1 ≡ suc ((k + 2) % count)
shifted k count = let e : suc k + 1 ≡ k + 2 = omega arith in ap (λ m. m % count + 1) e ∙ omega arith

-- The second index is one of the pool, and another one if there are two.
pub index_again_lem :
    (k count : ℕ)
    → k < count
    → (k' : ℕ) × (index_again (suc k) count ≡ suc k') × (k' < count) × (2 ≤ count → k' ≢ k)
unfolding index_again
index_again_lem k count lt = elim (Bool-cases (count == 2)) [
  | inl two ↦ (1 - k, ground arith, ground arith, λ le. ground arith)
  | inr other ↦ (
    (k + 2) % count,
    rw other (shifted k count),
    mod-lt (k + 2) (omega arith),
    λ le. mod_wrap k count lt (ground arith),
  )
]
