-- ===== src/Fish/Words.antt =====
-- The words that fish.c is meant to print, told without its automaton: a school is a row of whole
-- fish, and each state of the automaton stands for what has been printed of the next fish.
use the_code_back_up_in_ubun.Base.{
  ℕ, ◌≡◌, refl, ◌⊎◌, inl, inr, false, List, [], ◌∷◌, ◌++◌, ◌==◌, arith, append_assoc, sym,
  append-nil,
}
use the_code_back_up_in_ubun.Fish.{next, state_a, state_b, state_c, state_d, state_e, state_f}

-- `><>_` and `<><_`.
abbrev pub IsFish : List ℕ → Type 0
IsFish w = (w ≡ b'>' ∷ b'<' ∷ b'>' ∷ b'_' ∷ []) ⊎ (w ≡ b'<' ∷ b'>' ∷ b'<' ∷ b'_' ∷ [])

pub data School : List ℕ → Type 0 where
  empty : School []
  more : (w f : List ℕ) {u : List ℕ} → School w → IsFish f → u ≡ w ++ f → School u

-- The state and the beginning of a fish that it stands for.
abbrev pub Begun : ℕ → List ℕ → Type 0
Begun q p =
    ((q ≡ state_a) × (p ≡ []))
    ⊎ ((q ≡ state_b) × (p ≡ b'>' ∷ []))
    ⊎ ((q ≡ state_c) × (p ≡ b'>' ∷ b'<' ∷ []))
    ⊎ ((q ≡ state_d) × (p ≡ b'>' ∷ b'<' ∷ b'>' ∷ []))
    ⊎ ((q ≡ state_d) × (p ≡ b'<' ∷ b'>' ∷ b'<' ∷ []))
    ⊎ ((q ≡ state_e) × (p ≡ b'<' ∷ []))
    ⊎ ((q ≡ state_f) × (p ≡ b'<' ∷ b'>' ∷ []))

-- `v` is a school and the beginning of one more fish.
pub record Swims (q : ℕ) (v : List ℕ) : Type 0 where
  pub whole : List ℕ
  pub part : List ℕ
  pub school : School whole
  pub begun : Begun q part
  pub all : v ≡ whole ++ part

-- A rule that applies goes on with the fish, or ends it.
next-Begun :
    (q c : ℕ) (p : List ℕ)
    → Begun q p
    → (next q c == 0) ≡ false
    → Begun (next q c) (p ++ c ∷ []) ⊎ ((next q c ≡ state_a) × IsFish (p ++ c ∷ []))
unfolding next
next-Begun q c p b h = ground arith

-- The character goes on with the fish.
pub Swims-grows :
    (q q' c : ℕ) (v : List ℕ) (w : Swims q v)
    → Begun q' (w.part ++ c ∷ [])
    → (w' : Swims q' (v ++ c ∷ [])) × (w'.part ≡ w.part ++ c ∷ [])
Swims-grows q q' c v w on = (
  record {
    whole = w.whole;
    part = w.part ++ c ∷ [];
    school = w.school;
    begun = on;
    all = rw w.all (append_assoc w.whole w.part (c ∷ []));
  },
  refl,
)

-- The character ends the fish.
pub Swims-ends :
    (q q' c : ℕ) (v : List ℕ) (w : Swims q v)
    → q' ≡ state_a
    → IsFish (w.part ++ c ∷ [])
    → (w' : Swims q' (v ++ c ∷ [])) × (w'.part ≡ [])
Swims-ends q q' c v w q0 f = (
  record {
    whole = v ++ c ∷ [];
    part = [];
    school =
        more w.whole (w.part ++ c ∷ []) w.school f
          (rw w.all (append_assoc w.whole w.part (c ∷ [])));
    begun = inl (q0, refl);
    all = sym (append-nil (v ++ c ∷ []));
  },
  refl,
)

pub next-Swims :
    (q c : ℕ) (v : List ℕ) → Swims q v → (next q c == 0) ≡ false → Swims (next q c) (v ++ c ∷ [])
next-Swims q c v w h = elim (next-Begun q c w.part w.begun h) [
  | inl on ↦ (Swims-grows q (next q c) c v w on).0
  | inr (q0, f) ↦ (Swims-ends q (next q c) c v w q0 f).0
]
