-- ===== src/LibCo/Machine/Erasure.antt =====
-- The list of libco/co-first.c behind `co_delete` is as well formed as before.
use the_code_back_up_in_ubun.Base.{
  ℕ, ◌≤◌, ◌≡◌, ◌≢◌, refl, sym, ◌∙◌, ap, inl, inr, some, List, [], ◌∷◌, length, All, arith,
  Bool-cases,
}
use the_code_back_up_in_ubun.CString.{same}
use the_code_back_up_in_ubun.Sperf.Profile.{same-eq}
use the_code_back_up_in_ubun.LibCo.{State, co_list_head, rand_pool_head}
use the_code_back_up_in_ubun.LibCo.Segments.{Seg, Unique}
use the_code_back_up_in_ubun.LibCo.Names.{Named, OwnNames, differ}
use the_code_back_up_in_ubun.LibCo.Choice.{WellFormed}
use the_code_back_up_in_ubun.LibCo.Removal.{has_name, erase}
use the_code_back_up_in_ubun.LibCo.Machine.Good.{All-map}

pub All-erase {ℓ} : (P : ℕ → Type ℓ) (s : State) (n xs : List ℕ) → All P xs → All P (erase s n xs)
All-erase P s n [] h = tt
All-erase P s n (x ∷ xs) (a, h) = elim (Bool-cases (has_name s n x)) [
  | inl e ↦ rw e h
  | inr e ↦ rw e (a, All-erase P s n xs h)
]

pub Unique-erase : (s : State) (n xs : List ℕ) → Unique xs → Unique (erase s n xs)
Unique-erase s n [] h = tt
Unique-erase s n (x ∷ xs) (a, h) = elim (Bool-cases (has_name s n x)) [
  | inl e ↦ rw e h
  | inr e ↦ rw e (All-erase (λ y. x ≢ y) s n xs a, Unique-erase s n xs h)
]

pub OwnNames-erase : (s : State) (n xs : List ℕ) → OwnNames s xs → OwnNames s (erase s n xs)
OwnNames-erase s n [] h = tt
OwnNames-erase s n (x ∷ xs) (a, h) = elim (Bool-cases (has_name s n x)) [
  | inl e ↦ rw e h
  | inr e ↦ rw e (All-erase (λ y. s.name x ≢ s.name y) s n xs a, OwnNames-erase s n xs h)
]

pub length-erase : (s : State) (n xs : List ℕ) → length (erase s n xs) ≤ length xs
length-erase s n [] = omega arith
length-erase s n (x ∷ xs) = elim (Bool-cases (has_name s n x)) [
  | inl e ↦ rw e (omega arith)
  | inr e ↦ rw e (omega (arith, length-erase s n xs))
]

pub named_so : (s : State) (n m : List ℕ) (x : ℕ) → s.name x ≡ some m → has_name s n x ≡ same m n
named_so s n m x e = rw (e, has_name) refl

-- No coroutine behind the erasure has the name.
pub erased_apart :
    (s : State) (n xs : List ℕ)
    → All (Named s) xs
    → OwnNames s xs
    → All (λ x. s.name x ≢ some n) (erase s n xs)
erased_apart s n [] h h' = tt
erased_apart s n (x ∷ xs) ((m, e), h) (a, h') = elim (Bool-cases (same m n)) [
  | inl found ↦
      rw (named_so s n m x e ∙ found)
        (All-map _ _ xs (λ y ne e'. ne (e ∙ ap some (same-eq m n found) ∙ sym e')) a)
  | inr found ↦
      rw (named_so s n m x e ∙ found)
        ((λ e'. differ m n found (sym e ∙ e')), erased_apart s n xs h h')
]

pub erase-WellFormed :
    (s : State) (n xs : List ℕ) (next : ℕ → ℕ)
    → WellFormed s xs
    → Seg next (next co_list_head) (erase s n xs)
    → WellFormed (record s { next = next }) (erase s n xs)
erase-WellFormed s n xs next w seg = record {
  listed = seg;
  own = (All-erase (λ x. co_list_head ≢ x) s n xs w.own.0, Unique-erase s n xs w.own.1);
  off_pool = All-erase (λ x. rand_pool_head ≢ x) s n xs w.off_pool;
  head_status = w.head_status;
  no_pool = w.no_pool;
  named = All-erase (Named s) s n xs w.named;
  own_names = OwnNames-erase s n xs w.own_names;
}
