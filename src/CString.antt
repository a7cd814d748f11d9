-- ===== src/CString.antt =====
-- C strings in byte arrays, as multi-threads/brac.c uses them. An array is a list of bytes; a write
-- behind its end gives `none`.
pub mod Copies
use the_code_back_up_in_ubun.Base.{
  ℕ, zero, suc, Bool, true, false, Option, none, some, List, [], ◌∷◌, ◌==◌, ◌&&◌, if◌then◌else◌,
}

-- The characters before the first NUL, or all of the array if it has none.
unfoldable pub text : List ℕ → List ℕ
text [] = []
text (c ∷ cs) = if c == 0 then [] else c ∷ text cs

unfoldable pub strlen : List ℕ → ℕ
strlen [] = 0
strlen (c ∷ cs) = if c == 0 then 0 else suc (strlen cs)

unfoldable pub store : List ℕ → ℕ → ℕ → Option (List ℕ)
store [] i v = none
store (x ∷ xs) zero v = some (v ∷ xs)
store (x ∷ xs) (suc i) v = elim (store xs i v) [ none ↦ none | some ys ↦ some (x ∷ ys) ]

-- The characters `src` and a NUL, written from index i on.
unfoldable pub copy_at : List ℕ → ℕ → List ℕ → Option (List ℕ)
unfolding store
copy_at dst i [] = store dst i 0
copy_at dst i (c ∷ cs) = elim (store dst i c) [ none ↦ none | some dst' ↦ copy_at dst' (suc i) cs ]

unfoldable pub strcpy : List ℕ → List ℕ → Option (List ℕ)
unfolding copy_at text
strcpy dst src = copy_at dst 0 (text src)

unfoldable pub strcat : List ℕ → List ℕ → Option (List ℕ)
unfolding copy_at text strlen
strcat dst src = copy_at dst (strlen dst) (text src)

unfoldable pub same : List ℕ → List ℕ → Bool
same [] [] = true
same (a ∷ as') (b ∷ bs) = (a == b) && same as' bs
same _ _ = false

-- `strcmp(a, b) == 0`
unfoldable pub str_eq : List ℕ → List ℕ → Bool
unfolding same text
str_eq a b = same (text a) (text b)
