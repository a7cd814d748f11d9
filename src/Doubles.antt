-- ===== src/Doubles.antt =====
-- What sperf.c uses of C's doubles. The laws are those of the order on numbers that are no NaN.
use the_code_back_up_in_ubun.Base.{ℕ, ◌≡◌, Bool, true, false, Option, List}

pub record Doubles : Type 1 where
  pub Num : Type 0
  pub nought : Num
  pub add : Num → Num → Num
  pub gt : Num → Num → Bool
  -- `(unsigned int)(time / total * 100)`
  pub percent : Num → Num → ℕ
  -- `sscanf(text, "%lf", …)`; `none` if no number is found
  pub scan : List ℕ → Option Num
  pub gt_asymm : (a b : Num) → gt a b ≡ true → gt b a ≡ false
  -- Not larger is transitive.
  pub le_trans : (a b c : Num) → gt a b ≡ false → gt b c ≡ false → gt a c ≡ false
