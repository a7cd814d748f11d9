-- ===== src/Hello/Inv.antt =====
-- What holds of the counter of hello-mt.c and cur.c while the threads run.
use the_code_back_up_in_ubun.Base.{
  ℕ, zero, suc, ◌+◌, ◌≤◌, ◌<◌, ◌≡◌, ◌≢◌, ◌⊎◌, Bool, true, false, Option, none, some, List, [], ◌∷◌,
  ◌++◌, ◌==◌, ◌||◌, ltb, length, All, update, sum_to, sum_to-le, sum_to-const, arith, Bool-cases,
  inl, inr,
}
use the_code_back_up_in_ubun.Hello.{
  Pc, idle, loaded, stored, returned, State, started, is_returned, all_returned, main,
}

abbrev pub contains : List ℕ → ℕ → Bool
contains [] v = false
contains (w ∷ ws) v = (w == v) || contains ws v

pub contains-snoc :
    (ws : List ℕ) (w v : ℕ) → contains (ws ++ w ∷ []) v ≡ (contains ws v || (w == v))
contains-snoc [] w v = ground arith
contains-snoc (u ∷ us) w v = ground (arith, contains-snoc us w v)

-- Has the thread stored? Has it returned?
abbrev pub has_stored : Pc → ℕ
has_stored (stored v) = 1
has_stored returned = 1
has_stored _ = 0

abbrev pub has_returned : Pc → ℕ
has_returned returned = 1
has_returned _ = 0

-- The number j is printed, or a thread that has stored is about to print it.
abbrev pub Seen : State → ℕ → Type 0
Seen s j = ((i : ℕ) × (s.pc i ≡ stored j)) ⊎ (contains s.out j ≡ true)

-- What a thread may hold: no more than have stored, and no number behind a gap.
abbrev pub Holds : ℕ → State → Pc → Type 0
Holds n s idle = Unit
Holds n s (loaded v) = (v ≤ sum_to (λ i. has_stored (s.pc i)) n) × ((j : ℕ) → j < v → Seen s j)
Holds n s (stored v) = (v < sum_to (λ i. has_stored (s.pc i)) n) × ((j : ℕ) → j < v → Seen s j)
Holds n s returned = Unit

pub record Inv (n : ℕ) (s : State) : Type 0 where
  pub created : s.created ≤ n
  pub range : (i : ℕ) → s.pc i ≢ idle → (1 ≤ i) × (i ≤ n)
  pub bound : s.x ≤ sum_to (λ i. has_stored (s.pc i)) n
  pub gaps : (j : ℕ) → j < s.x → Seen s j
  pub held : (i : ℕ) → Holds n s (s.pc i)
  pub printed : All (λ v. v < n) s.out
  pub out_gaps : (v j : ℕ) → contains s.out v ≡ true → j < v → Seen s j
  pub counted : length s.out ≡ sum_to (λ i. has_returned (s.pc i)) n
  pub ended : s.over ≡ true → all_returned n s.pc ≡ true

pub started-Inv : (n : ℕ) → Inv n started
started-Inv n = record {
  created = omega arith;
  range = λ i ne. absurd (ground arith);
  bound = omega arith;
  gaps = λ j lt. absurd (omega arith);
  held = λ i. tt;
  printed = tt;
  out_gaps = λ v j h. cc;
  counted = omega (arith, sum_to-const 0 n);
  ended = λ h. cc;
}

unfoldable pub After : ℕ → Option State → Type 0
After n none = Unit
After n (some s) = Inv n s

pub main-Inv : (n : ℕ) (s : State) → Inv n s → After n (main n s)
unfolding main After
main-Inv n s h = elim (Bool-cases (ltb s.created n)) [
  | inl more ↦ rw more record {
    created = ground (arith, more);
    range = h.range;
    bound = h.bound;
    gaps = h.gaps;
    held = h.held;
    printed = h.printed;
    out_gaps = h.out_gaps;
    counted = h.counted;
    ended = h.ended;
  }
  | inr all ↦ elim (Bool-cases s.over) [
    | inl o ↦ rw (all, o) tt
    | inr o ↦ elim (Bool-cases (all_returned n s.pc)) [
      | inl r ↦
          rw (all, o, r)
            record {
              created = h.created;
              range = h.range;
              bound = h.bound;
              gaps = h.gaps;
              held = h.held;
              printed = h.printed;
              out_gaps = h.out_gaps;
              counted = h.counted;
              ended = λ e. r;
            }
      | inr r ↦ rw (all, o, r) tt
    ]
  ]
]

-- What a thread holds stays right while more threads have stored and more numbers are seen.
pub Holds-grown :
    (n : ℕ) (s s' : State)
    → sum_to (λ i. has_stored (s.pc i)) n ≤ sum_to (λ i. has_stored (s'.pc i)) n
    → ((j : ℕ) → Seen s j → Seen s' j)
    → (p : Pc) → Holds n s p
    → Holds n s' p
Holds-grown n s s' le see idle h = tt
Holds-grown n s s' le see (loaded v) h = (omega (arith, h.0), λ j lt. see j (h.1 j lt))
Holds-grown n s s' le see (stored v) h = (omega (arith, h.0), λ j lt. see j (h.1 j lt))
Holds-grown n s s' le see returned h = tt

pub range-update :
    (n : ℕ) (pc : ℕ → Pc) (i : ℕ) (p : Pc)
    → 1 ≤ i
    → i ≤ n
    → ((k : ℕ) → pc k ≢ idle → (1 ≤ k) × (k ≤ n))
    → (k : ℕ) → update pc i p k ≢ idle
    → (1 ≤ k) × (k ≤ n)
range-update n pc i p lo hi range k ne = elim (Bool-cases (i == k)) [
  | inl same ↦ (ground (arith, same), ground (arith, same))
  | inr other ↦ range k (ground (arith, other))
]

-- A thread that has not returned, so main has not printed its line.
pub not_over :
    (n : ℕ) (pc : ℕ → Pc) (i : ℕ)
    → 1 ≤ i
    → i ≤ n
    → is_returned (pc i) ≡ false
    → all_returned n pc ≡ false
not_over zero pc i lo hi e = absurd (omega arith)
not_over (suc n) pc i lo hi e = elim (Bool-cases (i == suc n)) [
  | inl same ↦ ground (arith, same, e)
  | inr other ↦ ground (arith, not_over n pc i lo (ground (arith, other)) e)
]

pub few_stored : (n : ℕ) (s : State) → sum_to (λ k. has_stored (s.pc k)) n ≤ n
few_stored n s =
    omega (
      arith,
      sum_to-le (λ k. has_stored (s.pc k)) (λ k. 0) 1 n (λ k. one (s.pc k)),
      sum_to-const 0 n,
    )
  where
    one : (p : Pc) → has_stored p ≤ 0 + 1
    one idle = omega arith
    one (loaded v) = omega arith
    one (stored v) = omega arith
    one returned = omega arith
