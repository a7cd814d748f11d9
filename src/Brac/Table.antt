-- ===== src/Brac/Table.antt =====
-- The fifteen contents of the buffer of brac.c, and its tests and updates on each of them.
use the_code_back_up_in_ubun.Base.{
  ℕ, zero, suc, replicate, ◌+◌, ◌-◌, ◌≤◌, ◌≡◌, refl, false, ◌&&◌, none, some, List, [], ◌∷◌, ◌++◌,
  ◌==◌, ltb, if◌then◌else◌, arith,
}
use the_code_back_up_in_ubun.CString.{strcat}
use the_code_back_up_in_ubun.Brac.{test_producer, test_consumer, drop_last, bit}

abbrev pad : ℕ → List ℕ → List ℕ
pad zero xs = []
pad (suc n) [] = 0 ∷ pad n []
pad (suc n) (x ∷ xs) = x ∷ pad n xs

-- The buffer with b brackets `[` and a brackets `(` behind them.
abbrev pub bytes : ℕ → ℕ → List ℕ
bytes a b = pad 5 (replicate b b'[' ++ replicate a b'(')

-- A statement about all such buffers, from its fifteen cases.
small :
    (P : ℕ → ℕ → Type 0)
    → P 0 0
      × P 0 1
      × P 0 2
      × P 0 3
      × P 0 4
      × P 1 0
      × P 1 1
      × P 1 2
      × P 1 3
      × P 2 0
      × P 2 1
      × P 2 2
      × P 3 0
      × P 3 1
      × P 4 0
    → (a b : ℕ) → a + b ≤ 4
    → P a b
small P t zero zero h = t.0
small P t zero (suc zero) h = t.1
small P t zero (suc (suc zero)) h = t.2
small P t zero (suc (suc (suc zero))) h = t.3
small P t zero (suc (suc (suc (suc zero)))) h = t.4
small P t (suc zero) zero h = t.5
small P t (suc zero) (suc zero) h = t.6
small P t (suc zero) (suc (suc zero)) h = t.7
small P t (suc zero) (suc (suc (suc zero))) h = t.8
small P t (suc (suc zero)) zero h = t.9
small P t (suc (suc zero)) (suc zero) h = t.10
small P t (suc (suc zero)) (suc (suc zero)) h = t.11
small P t (suc (suc (suc zero))) zero h = t.12
small P t (suc (suc (suc zero))) (suc zero) h = t.13
small P t (suc (suc (suc (suc zero)))) zero h = t.14
small P t a b h = absurd (omega arith)

module _ (x : ℕ) (rest : List ℕ) where
  -- A `(` fits while there is room, a `[` only behind brackets `[`.
  pub test_producer-paren :
      (a b : ℕ)
      → a + b ≤ 4
      → test_producer (x ∷ rest) (bytes a b) b'(' ≡ some (if ltb (a + b) 4 then 1 else 0)
  unfolding test_producer
  test_producer-paren =
      small _
        (refl, refl, refl, refl, refl, refl, refl, refl, refl, refl, refl, refl, refl, refl, refl)

  pub test_producer-bracket :
      (a b : ℕ)
      → a + b ≤ 4
      → test_producer (x ∷ rest) (bytes a b) b'[' ≡ some (if (a == 0) && ltb b 4 then 1 else 0)
  unfolding test_producer
  test_producer-bracket =
      small _
        (refl, refl, refl, refl, refl, refl, refl, refl, refl, refl, refl, refl, refl, refl, refl)

pub test_consumer-paren :
    (a b : ℕ) → a + b ≤ 4 → test_consumer (bytes a b) b')' ≡ (if a == 0 then 0 else 1)
unfolding test_consumer
test_consumer-paren =
    small _
      (refl, refl, refl, refl, refl, refl, refl, refl, refl, refl, refl, refl, refl, refl, refl)

pub test_consumer-bracket :
    (a b : ℕ) → a + b ≤ 4 → test_consumer (bytes a b) b']' ≡ (if (a == 0) && ltb 0 b then 1 else 0)
unfolding test_consumer
test_consumer-bracket =
    small _
      (refl, refl, refl, refl, refl, refl, refl, refl, refl, refl, refl, refl, refl, refl, refl)

-- Appending `(` works while there is room, and would leave the array otherwise.
pub strcat-paren :
    (a b : ℕ)
    → a + b ≤ 4
    → strcat (bytes a b) (bit b'(') ≡ (if ltb (a + b) 4 then some (bytes (suc a) b) else none)
unfolding strcat
strcat-paren =
    small _
      (refl, refl, refl, refl, refl, refl, refl, refl, refl, refl, refl, refl, refl, refl, refl)

pub strcat-bracket :
    (b : ℕ)
    → b ≤ 4
    → strcat (bytes 0 b) (bit b'[') ≡ (if ltb b 4 then some (bytes 0 (suc b)) else none)
unfolding strcat
strcat-bracket zero h = refl
strcat-bracket (suc zero) h = refl
strcat-bracket (suc (suc zero)) h = refl
strcat-bracket (suc (suc (suc zero))) h = refl
strcat-bracket (suc (suc (suc (suc zero)))) h = refl
strcat-bracket (suc (suc (suc (suc (suc b))))) h = absurd (omega arith)

pub drop_last_lem :
    (a b : ℕ)
    → a + b ≤ 4
    → drop_last (bytes a b) ≡ (
        if a == 0
        then (if b == 0 then none else some (bytes 0 (b - 1)))
        else some (bytes (a - 1) b))
unfolding drop_last
drop_last_lem =
    small _
      (refl, refl, refl, refl, refl, refl, refl, refl, refl, refl, refl, refl, refl, refl, refl)

full : (P : ℕ → ℕ → Type 0) → P 0 4 × P 1 3 × P 2 2 × P 3 1 × P 4 0 → (a b : ℕ) → a + b ≡ 4 → P a b
full P t a b h =
    small (λ a b. ltb (a + b) 4 ≡ false → P a b)
      (
        λ e. cc,
        λ e. cc,
        λ e. cc,
        λ e. cc,
        λ e. t.0,
        λ e. cc,
        λ e. cc,
        λ e. cc,
        λ e. t.1,
        λ e. cc,
        λ e. cc,
        λ e. t.2,
        λ e. cc,
        λ e. t.3,
        λ e. t.4,
      )
      a b (omega arith) (ground arith)

-- With no byte behind the five of `tmp`, the NUL behind a fifth bracket has no place.
pub test_producer-full :
    (a b c : ℕ) → a + b ≡ 4 → (c == 0) ≡ false → test_producer [] (bytes a b) c ≡ none
unfolding test_producer
test_producer-full a b c h nz =
    full (λ a b. test_producer [] (bytes a b) c ≡ none)
      (ground arith, ground arith, ground arith, ground arith, ground arith) a b h
