-- ===== src/CString/Copies.antt =====
-- What the string functions write, in arrays that are long enough.
use the_code_back_up_in_ubun.Base.{
  ℕ, zero, suc, ◌+◌, ◌-◌, ◌<◌, ◌≤◌, ◌≡◌, ◌≢◌, refl, ◌∙◌, false, none, some, List, [], ◌∷◌, ◌++◌,
  ◌==◌, length, drop, All, arith, Option-cases, inl, inr,
}
use the_code_back_up_in_ubun.CString.{text, strlen, store, copy_at, strcpy, strcat}

-- Characters that are no NUL.
abbrev pub Text : List ℕ → Type 0
Text cs = All (λ c. c ≢ 0) cs

copy_at-suc :
    (y i : ℕ) (dst cs : List ℕ)
    → copy_at (y ∷ dst) (suc i) cs ≡ elim (copy_at dst i cs) [ none ↦ none | some d ↦ some (y ∷ d) ]
unfolding copy_at store
copy_at-suc y i dst [] = ground arith
copy_at-suc y i dst (c ∷ cs) = elim (Option-cases (store dst i c)) [
  | inl e ↦ rw (e, copy_at) refl
  | inr (d, e) ↦ rw (e, copy_at) (copy_at-suc y (suc i) d cs)
]

pub copy_at_front :
    (dst cs : List ℕ)
    → length cs < length dst
    → copy_at dst 0 cs ≡ some (cs ++ 0 ∷ drop (suc (length cs)) dst)
unfolding copy_at store
copy_at_front [] cs lt = absurd (omega arith)
copy_at_front (d ∷ dst) [] lt = refl
copy_at_front (d ∷ dst) (c ∷ cs) lt =
    copy_at-suc c 0 dst cs ∙ rw (copy_at_front dst cs (omega arith)) refl

pub copy_at_behind :
    (pre dst cs : List ℕ)
    → length cs < length dst
    → copy_at (pre ++ dst) (length pre) cs ≡ some (pre ++ (cs ++ 0 ∷ drop (suc (length cs)) dst))
copy_at_behind [] dst cs lt = copy_at_front dst cs lt
copy_at_behind (p ∷ pre) dst cs lt =
    copy_at-suc p (length pre) (pre ++ dst) cs ∙ rw (copy_at_behind pre dst cs lt) refl

pub text_lem : (cs rest : List ℕ) → Text cs → text (cs ++ 0 ∷ rest) ≡ cs
unfolding text
text_lem [] rest h = refl
text_lem (c ∷ cs) rest (ne, h) =
    let tested : (c == 0) ≡ false = ground arith in rw tested (rw (text_lem cs rest h) refl)

pub text_whole : (cs : List ℕ) → Text cs → text cs ≡ cs
unfolding text
text_whole [] h = refl
text_whole (c ∷ cs) (ne, h) =
    let tested : (c == 0) ≡ false = ground arith in rw tested (rw (text_whole cs h) refl)

pub strlen_lem : (cs rest : List ℕ) → Text cs → strlen (cs ++ 0 ∷ rest) ≡ length cs
unfolding strlen
strlen_lem [] rest h = refl
strlen_lem (c ∷ cs) rest (ne, h) =
    let tested : (c == 0) ≡ false = ground arith in rw tested (rw (strlen_lem cs rest h) refl)

pub strlen_whole : (cs : List ℕ) → Text cs → strlen cs ≡ length cs
unfolding strlen
strlen_whole [] h = refl
strlen_whole (c ∷ cs) (ne, h) =
    let tested : (c == 0) ≡ false = ground arith in rw tested (rw (strlen_whole cs h) refl)

pub length-drop : (n : ℕ) (xs : List ℕ) → length (drop n xs) ≡ length xs - n
length-drop zero xs = omega arith
length-drop (suc n) [] = omega arith
length-drop (suc n) (x ∷ xs) = omega (arith, length-drop n xs)

pub drop_all : (n : ℕ) (xs : List ℕ) → length xs ≤ n → drop n xs ≡ []
drop_all zero [] le = refl
drop_all zero (x ∷ xs) le = absurd (omega arith)
drop_all (suc n) [] le = refl
drop_all (suc n) (x ∷ xs) le = drop_all n xs (omega arith)

-- Copied and then joined in an array of just the bytes that it takes.
pub strcat-strcpy :
    (junk a b : List ℕ)
    → Text a
    → Text b
    → length junk ≡ length a + length b + 1
    → (s : List ℕ) × (strcpy junk a ≡ some s) × (strcat s b ≡ some (a ++ (b ++ 0 ∷ [])))
unfolding strcpy strcat
strcat-strcpy junk a b text_a text_b e =
    let rest : List ℕ = drop (suc (length a)) junk in
    let room : length rest ≡ length b = omega (arith, length-drop (suc (length a)) junk) in
    (
      a ++ 0 ∷ rest,
      rw (text_whole a text_a) (copy_at_front junk a (omega arith)),
      rw (text_whole b text_b) (
          rw (strlen_lem a rest text_a) (
            copy_at_behind a (0 ∷ rest) b (omega arith)
            ∙ rw (drop_all (length b) rest (omega arith)) refl)),
    )
