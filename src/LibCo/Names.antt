-- ===== src/LibCo/Names.antt =====
-- Names of the coroutines of libco/co-first.c, each of its own in the list, and so in the pool.
use the_code_back_up_in_ubun.Base.{
  ℕ, zero, suc, ◌<◌, ◌≤◌, ◌≡◌, ◌≢◌, refl, sym, ap, Bool, true, false, Option, none, some, List, [],
  ◌∷◌, length, get_or, All, keep, arith, Bool-cases, inl, inr,
}
use the_code_back_up_in_ubun.CString.{same}
use the_code_back_up_in_ubun.Sperf.Profile.{same_refl}
use the_code_back_up_in_ubun.LibCo.{State}

abbrev pub Named : State → ℕ → Type 0
Named s x = (n : List ℕ) × (s.name x ≡ some n)

abbrev pub OwnNames : State → List ℕ → Type 0
OwnNames s [] = Unit
OwnNames s (x ∷ xs) = All (λ y. s.name x ≢ s.name y) xs × OwnNames s xs

pub All-keep {ℓ} : (P : ℕ → Type ℓ) (f : ℕ → Bool) (xs : List ℕ) → All P xs → All P (keep f xs)
All-keep P f [] h = tt
All-keep P f (x ∷ xs) (a, h) = elim (Bool-cases (f x)) [
  | inl e ↦ rw e (a, All-keep P f xs h)
  | inr e ↦ rw e (All-keep P f xs h)
]

pub OwnNames-keep :
    (s : State) (f : ℕ → Bool) (xs : List ℕ) → OwnNames s xs → OwnNames s (keep f xs)
OwnNames-keep s f [] h = tt
OwnNames-keep s f (x ∷ xs) (a, h) = elim (Bool-cases (f x)) [
  | inl e ↦ rw e (All-keep (λ y. s.name x ≢ s.name y) f xs a, OwnNames-keep s f xs h)
  | inr e ↦ rw e (OwnNames-keep s f xs h)
]

pub All-get_or {ℓ} :
    (P : ℕ → Type ℓ) (xs : List ℕ) (k : ℕ) → All P xs → k < length xs → P (get_or xs k 0)
All-get_or P [] k h lt = absurd (omega arith)
All-get_or P (x ∷ xs) zero (a, h) lt = a
All-get_or P (x ∷ xs) (suc k) (a, h) lt = All-get_or P xs k h (omega arith)

pub names_apart :
    (s : State) (xs : List ℕ) (i j : ℕ)
    → OwnNames s xs
    → i < length xs
    → j < length xs
    → i ≢ j
    → s.name (get_or xs i 0) ≢ s.name (get_or xs j 0)
names_apart s [] i j h lt lt' ne = absurd (omega arith)
names_apart s (x ∷ xs) zero zero h lt lt' ne = absurd (ne refl)
names_apart s (x ∷ xs) zero (suc j) (a, h) lt lt' ne =
    All-get_or (λ y. s.name x ≢ s.name y) xs j a (omega arith)
names_apart s (x ∷ xs) (suc i) zero (a, h) lt lt' ne =
    λ e. All-get_or (λ y. s.name x ≢ s.name y) xs i a (omega arith) (sym e)
names_apart s (x ∷ xs) (suc i) (suc j) (a, h) lt lt' ne =
    names_apart s xs i j h (omega arith) (omega arith) (λ e. ne (ap suc e))

pub length-keep : (f : ℕ → Bool) (xs : List ℕ) → length (keep f xs) ≤ length xs
length-keep f [] = omega arith
length-keep f (x ∷ xs) = elim (Bool-cases (f x)) [
  | inl e ↦ rw e (omega (arith, length-keep f xs))
  | inr e ↦ rw e (omega (arith, length-keep f xs))
]

same_as : List ℕ → Option (List ℕ) → Bool
same_as n none = true
same_as n (some x) = same x n

pub differ : (m n : List ℕ) → same m n ≡ false → some m ≢ some n
unfolding same_as
differ m n apart h = absurd (ground (arith, ap (same_as n) h, same_refl n))
