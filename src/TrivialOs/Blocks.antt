-- ===== src/TrivialOs/Blocks.antt =====
-- The blocks that `kalloc` gives out.
use the_code_back_up_in_ubun.Base.{
  ℕ, ◌+◌, ◌-◌, ◌%◌, ◌^◌, ◌≤◌, ◌<◌, ◌≡◌, Bool, true, false, ◌==◌, if◌then◌else◌, arith,
}
use the_code_back_up_in_ubun.TrivialOs.{kalloc}

modulo :
    (x size : ℕ) → x + size < 2 ^ 64 → ((x + size) % 2 ^ 64 + (2 ^ 64 - size % 2 ^ 64)) % 2 ^ 64 ≡ x
modulo x size lt = omega arith

whole : (x size : ℕ) → x + size < 2 ^ 64 → (x + size) % 2 ^ 64 ≡ x + size
whole x size lt = omega arith

back :
    (first : Bool) (x y size : ℕ)
    → (if first then x else y) + size < 2 ^ 64
    → let brk' : ℕ = (if first then x + size else y + size) % 2 ^ 64 in
      Path
        (ℕ × ℕ)
        ((brk' + (2 ^ 64 - size % 2 ^ 64)) % 2 ^ 64, brk')
        (if first then x else y, (if first then x else y) + size)
back true x y size lt = λ i. (modulo x size lt i, whole x size lt i)
back false x y size lt = λ i. (modulo y size lt i, whole y size lt i)

module _ (round_up : ℕ → ℕ → ℕ) (heap_start : ℕ) where
  -- Where a block of this size begins.
  abbrev pub base : ℕ → ℕ → ℕ
  base size brk = if brk == 0 then heap_start else round_up brk size

  pub kalloc-base :
      (size brk : ℕ)
      → base size brk + size < 2 ^ 64
      → kalloc round_up heap_start size brk ≡ (base size brk, base size brk + size)
  unfolding kalloc
  kalloc-base size brk lt = back (brk == 0) heap_start (round_up brk size) size lt

module _ (round_up : ℕ → ℕ → ℕ) (heap_start : ℕ) (rounded : (a n : ℕ) → a ≤ round_up a n) where
  -- A block begins at the end of the one in front of it or higher.
  pub base_at_least : (size brk : ℕ) → brk ≤ base round_up heap_start size brk
  base_at_least size brk = ground (arith, rounded brk size)
