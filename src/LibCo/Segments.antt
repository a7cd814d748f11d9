-- ===== src/LibCo/Segments.antt =====
-- Linked lists of libco/co-first.c as lists: a segment from an address to NULL over a field.
use the_code_back_up_in_ubun.Base.{
  ℕ, zero, suc, ◌<◌, ◌≡◌, ◌≢◌, refl, sym, subst, ◌∙◌, some, List, [], ◌∷◌, ◌++◌, ◌==◌, length,
  get_or, All, update, update_self, update_other, arith, Bool-cases, inl, inr,
}
use the_code_back_up_in_ubun.LibCo.{append_loop, walk, take_apart}

abbrev pub Seg : (ℕ → ℕ) → ℕ → List ℕ → Type 0
Seg link p [] = p ≡ 0
Seg link p (x ∷ xs) = (p ≡ x) × (x ≢ 0) × Seg link (link x) xs

abbrev pub Away : ℕ → List ℕ → Type 0
Away p xs = All (λ x. p ≢ x) xs

abbrev pub Unique : List ℕ → Type 0
Unique [] = Unit
Unique (x ∷ xs) = Away x xs × Unique xs

abbrev pub last : ℕ → List ℕ → ℕ
last p [] = p
last p (x ∷ xs) = last x xs

-- A write outside leaves the segment.
pub Seg-update :
    (link : ℕ → ℕ) (p v q : ℕ) (xs : List ℕ)
    → Away p xs
    → Seg link q xs
    → Seg (update link p v) q xs
Seg-update link p v q [] away seg = seg
Seg-update link p v q (x ∷ xs) (ne, away) (e, some_x, seg) = (
  e,
  some_x,
  subst (λ k. Seg (update link p v) k xs) (sym (update_other link v ne))
      (Seg-update link p v (link x) xs away seg),
)

pub append_loop-last :
    (fuel : ℕ) (link : ℕ → ℕ) (p new_co : ℕ) (xs : List ℕ)
    → Seg link (link p) xs
    → length xs < fuel
    → append_loop fuel link p new_co ≡ some (update link (last p xs) new_co)
unfolding append_loop
append_loop-last zero link p new_co xs seg lt = absurd (omega arith)
append_loop-last (suc fuel) link p new_co [] seg lt = ground arith
append_loop-last (suc fuel) link p new_co (x ∷ xs) (e, some_x, seg) lt =
    ground (arith, append_loop-last fuel link x new_co xs seg (omega arith))

last-Away : (p x : ℕ) (xs : List ℕ) → Away p (x ∷ xs) → last x xs ≢ p
last-Away p x [] (a, b) = λ h. a (sym h)
last-Away p x (y ∷ ys) (a, b) = last-Away p y ys b

pub Seg-append :
    (link : ℕ → ℕ) (p new_co : ℕ) (xs : List ℕ)
    → Seg link (link p) xs
    → Unique (p ∷ xs)
    → Away new_co (p ∷ xs)
    → new_co ≢ 0
    → link new_co ≡ 0
    → Seg (update link (last p xs) new_co) (update link (last p xs) new_co p) (xs ++ new_co ∷ [])
Seg-append link p new_co [] seg u (a, b) some_new e =
    (update_self link p new_co, some_new, update_other link new_co (λ h. a (sym h)) ∙ e)
Seg-append link p new_co (x ∷ xs) (e', some_x, seg) (away, u) (a, bs) some_new e =
    let rest = Seg-append link x new_co xs seg u bs some_new e in
    (update_other link new_co (last-Away p x xs away) ∙ e', some_x, rest)

pub walk-get_or :
    (link : ℕ → ℕ) (p k : ℕ) (xs : List ℕ)
    → p ≢ 0
    → Seg link (link p) xs
    → k < length xs
    → walk link (suc k) p ≡ some (get_or xs k 0)
unfolding walk
walk-get_or link p k [] some_p seg lt = absurd (omega arith)
walk-get_or link p zero (x ∷ xs) some_p (e, some_x, seg) lt = ground arith
walk-get_or link p (suc k) (x ∷ xs) some_p (e, some_x, seg) lt =
    ground (arith, walk-get_or link x k xs some_x seg (omega arith))

pub Away-snoc : (p x : ℕ) (xs : List ℕ) → Away p xs → p ≢ x → Away p (xs ++ x ∷ [])
Away-snoc p x [] h ne = (ne, tt)
Away-snoc p x (y ∷ ys) (a, h) ne = (a, Away-snoc p x ys h ne)

pub Away-init : (p x : ℕ) (xs : List ℕ) → Away p (xs ++ x ∷ []) → Away p xs × (p ≢ x)
Away-init p x [] (a, h) = (tt, a)
Away-init p x (y ∷ ys) (a, h) = let (b, c) = Away-init p x ys h in ((a, b), c)

pub Unique-snoc : (xs : List ℕ) (x : ℕ) → Unique xs → Away x xs → Unique (xs ++ x ∷ [])
Unique-snoc [] x u h = (tt, tt)
Unique-snoc (y ∷ ys) x (a, u) (ne, h) = (Away-snoc y x ys a (λ e. ne (sym e)), Unique-snoc ys x u h)

pub Away-last : (p q : ℕ) (xs : List ℕ) → Away q (p ∷ xs) → last p xs ≢ q
Away-last p q [] (a, h) = λ e. a (sym e)
Away-last p q (x ∷ xs) (a, h) = Away-last x q xs h

-- The links of a segment that is taken apart are all NULL, if those of no other node are set.
pub take_apart_lem :
    (fuel : ℕ) (link : ℕ → ℕ) (p : ℕ) (xs : List ℕ)
    → length xs < fuel
    → Seg link (link p) xs
    → Unique (p ∷ xs)
    → ((q : ℕ) → Away q (p ∷ xs) → link q ≡ 0)
    → (link' : ℕ → ℕ) × (take_apart fuel link p ≡ some link') × ((q : ℕ) → link' q ≡ 0)
unfolding take_apart
take_apart_lem zero link p xs lt seg u outside = absurd (omega arith)
take_apart_lem (suc fuel) link p [] lt seg u outside = (
  link,
  rw seg refl,
  λ q. elim (Bool-cases (q == p)) [
    | inl same ↦ ground arith
    | inr apart ↦ outside q (ground arith)
  ],
)
take_apart_lem (suc fuel) link p (x ∷ xs) lt (e, some_x, seg) ((ne, away), u) outside =
    let link1 : ℕ → ℕ = update link p 0 in
    let seg1 : Seg link1 (link1 x) xs =
      subst (λ k. Seg link1 k xs) (sym (update_other link 0 ne))
        (Seg-update link p 0 (link x) xs away seg) in
    let (link', run, zeros) = take_apart_lem fuel link1 x xs (omega arith) seg1 u (λ q h.
      elim (Bool-cases (p == q)) [
        | inl same ↦ ground arith
        | inr apart ↦ ground (arith, outside q ((ground arith), h))
      ]) in
    (link', ground (arith, run), zeros)
