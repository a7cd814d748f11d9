-- ===== src/Brac/Nesting.antt =====
-- What brac.c is meant to print, told without its buffer: brackets that match, innermost first.
use the_code_back_up_in_ubun.Base.{
  ℕ, ◌≡◌, refl, false, ◌||◌, Option, none, some, List, [], ◌∷◌, ◌++◌, ◌==◌, if◌then◌else◌, arith,
  keep, Bool-cases, inl, inr, ◌∙◌, sym, ap,
}
use the_code_back_up_in_ubun.Brac.{is_open, is_close}

-- The open brackets, innermost first, after one more that closes `c`; `none` if it does not match.
pop : ℕ → List ℕ → Option (List ℕ)
pop c [] = none
pop c (d ∷ ds) = if d == c then some ds else none

bracket : ℕ → List ℕ → Option (List ℕ)
unfolding pop
bracket c st =
    if is_open c
    then some (c ∷ st)
    else if c == b')'
    then pop b'(' st
    else if c == b']'
    then pop b'[' st
    else some st

-- The brackets left open by an output, from those that were open before; other characters do not
-- count.
unfoldable pub nest : List ℕ → List ℕ → Option (List ℕ)
unfolding bracket
nest st [] = some st
nest st (c ∷ cs) = elim (bracket c st) [ none ↦ none | some st' ↦ nest st' cs ]

pub nest-snoc :
    (st v : List ℕ) (c : ℕ) {t : List ℕ}
    → nest st v ≡ some t
    → nest st (v ++ c ∷ []) ≡ nest t (c ∷ [])
unfolding nest
nest-snoc st [] c h = ground arith
nest-snoc st (x ∷ xs) c {t} h =
    elim (bracket x st)
        as (λ o.
          elim o [ none ↦ none | some st' ↦ nest st' xs ] ≡ some t
          → elim o [ none ↦ none | some st' ↦ nest st' (xs ++ c ∷ []) ] ≡ nest t (c ∷ [])) [
            | none ↦ λ e. cc
            | some u ↦ λ e. nest-snoc u xs c e
          ]
      h

bracket_other : (c : ℕ) (st : List ℕ) → (is_open c || is_close c) ≡ false → bracket c st ≡ some st
unfolding bracket
bracket_other c st h = ground arith

-- Other characters do not count.
pub nest-keep : (st out : List ℕ) → nest st (keep (λ c. is_open c || is_close c) out) ≡ nest st out
unfolding nest
nest-keep st [] = refl
nest-keep st (c ∷ cs) = elim (Bool-cases (is_open c || is_close c)) [
  | inl h ↦ rw h (λ i. elim (bracket c st) [ none ↦ none | some st' ↦ nest-keep st' cs i ])
  | inr h ↦ rw h (
      nest-keep st cs
      ∙ sym (
          unfold bracket in
          ap (λ o. elim o [ none ↦ none | some st' ↦ nest st' cs ]) (bracket_other c st h)))
]
