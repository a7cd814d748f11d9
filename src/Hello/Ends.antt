-- ===== src/Hello/Ends.antt =====
-- main of hello-mt.c and cur.c comes to its end.
use the_code_back_up_in_ubun.Base.{
  ℕ, zero, suc, ◌+◌, ◌*◌, ◌≤◌, ◌≡◌, ◌⊎◌, refl, subst, true, false, Option, none, some, ◌==◌,
  if◌then◌else◌, ltb, sum_to, sum_to-le, sum_to-const, sum_to-update, update, ◌++◌, [], ◌∷◌, arith,
  Bool-cases, inl, inr,
}
use the_code_back_up_in_ubun.Hello.{
  Pc, idle, loaded, stored, returned, State, is_returned, all_returned, f_at, f, main, step,
  Reached, at_start, stepped,
}
use the_code_back_up_in_ubun.Hello.Gaps.{Reached-Inv}

-- The steps that a thread has made.
abbrev progress : Pc → ℕ
progress idle = 0
progress (loaded v) = 1
progress (stored v) = 2
progress returned = 3

-- The steps that led to a state.
abbrev pub steps : {n : ℕ} {s : State} → Reached n s → ℕ
steps at_start = 0
steps (stepped i s s' r e) = suc (steps r)

-- The steps that main and the threads have made.
made : ℕ → State → ℕ
made n s = s.created + sum_to (λ i. progress (s.pc i)) n + (if s.over then 1 else 0)

MadeOne : ℕ → State → Option State → Type 0
MadeOne n s none = Unit
MadeOne n s (some s') = made n s' ≡ suc (made n s)

main-MadeOne : (n : ℕ) (s : State) → MadeOne n s (main n s)
unfolding main made MadeOne
main-MadeOne n s = elim (Bool-cases (ltb s.created n)) [
  | inl more ↦ rw more (omega arith)
  | inr all ↦ elim (Bool-cases s.over) [
    | inl o ↦ rw (all, o) tt
    | inr o ↦ elim (Bool-cases (all_returned n s.pc)) [
      | inl r ↦ rw (all, o, r) (omega arith)
      | inr r ↦ rw (all, o, r) tt
    ]
  ]
]

f_at-MadeOne :
    (n : ℕ) (s : State) (i : ℕ) (p : Pc) → 1 ≤ i → i ≤ n → s.pc i ≡ p → MadeOne n s (f_at p i s)
unfolding f_at made MadeOne
f_at-MadeOne n s i idle lo hi e = ground (arith, sum_to-update progress s.pc i (loaded s.x) n lo hi)
f_at-MadeOne n s i (loaded v) lo hi e =
    ground (arith, sum_to-update progress s.pc i (stored v) n lo hi)
f_at-MadeOne n s i (stored v) lo hi e =
    ground (arith, sum_to-update progress s.pc i returned n lo hi)
f_at-MadeOne n s i returned lo hi e = tt

step-MadeOne : (n i : ℕ) (s : State) → s.created ≤ n → MadeOne n s (step n i s)
unfolding step f MadeOne
step-MadeOne n i s le = elim (Bool-cases (i == 0)) [
  | inl main_moves ↦ rw main_moves (main-MadeOne n s)
  | inr other ↦ elim (Bool-cases (ltb s.created i)) [
    | inl early ↦ rw (other, early) tt
    | inr late ↦
        rw (other, late)
          (f_at-MadeOne n s i (s.pc i) (ground (arith, other)) (ground (arith, late, le)) refl)
  ]
]

made_lem : (n : ℕ) (s : State) (r : Reached n s) → steps r ≡ made n s
unfolding made MadeOne
made_lem n _ at_start = omega (arith, sum_to-const 0 n)
made_lem n _ (stepped i s s' r e) =
    let one : MadeOne n s (some s') =
      subst (MadeOne n s) e (step-MadeOne n i s (Reached-Inv n s r).created) in
    omega (arith, made_lem n s r, one)

three_each : (p : Pc) → progress p ≤ 0 + 3
three_each idle = omega arith
three_each (loaded v) = omega arith
three_each (stored v) = omega arith
three_each returned = omega arith

-- A thread that has not returned.
running :
    (k : ℕ) (pc : ℕ → Pc)
    → all_returned k pc ≡ false
    → (i : ℕ) × (1 ≤ i) × (i ≤ k) × (is_returned (pc i) ≡ false)
running zero pc e = cc
running (suc k) pc e = elim (Bool-cases (is_returned (pc (suc k)))) [
  | inl r ↦ let (i, lo, hi, q) = running k pc (ground (arith, r)) in (i, lo, omega arith, q)
  | inr q ↦ (suc k, omega arith, omega arith, q)
]

abbrev pub CanStep : ℕ → State → Type 0
CanStep n s = (i : ℕ) × (s' : State) × (step n i s ≡ some s')

main_can : (n : ℕ) (s s' : State) → main n s ≡ some s' → CanStep n s
unfolding step
main_can n s s' e = (0, s', e)

f_can :
    (n : ℕ) (s s' : State) (i : ℕ)
    → 1 ≤ i
    → i ≤ s.created
    → f_at (s.pc i) i s ≡ some s'
    → CanStep n s
unfolding step f
f_can n s s' i lo hi e =
    let other : (i == 0) ≡ false = ground arith in
    let late : ltb s.created i ≡ false = ground arith in (i, s', rw (other, late) e)

thread_can :
    (n : ℕ) (s : State) (i : ℕ) (p : Pc)
    → 1 ≤ i
    → i ≤ s.created
    → s.pc i ≡ p
    → is_returned p ≡ false
    → CanStep n s
unfolding f_at
thread_can n s i idle lo hi e q =
    f_can n s (record s { pc = update s.pc i (loaded s.x) }) i lo hi (rw (e, f_at) refl)
thread_can n s i (loaded v) lo hi e q =
    f_can n s (record s { x = v + 1; pc = update s.pc i (stored v) }) i lo hi (rw (e, f_at) refl)
thread_can n s i (stored v) lo hi e q =
    f_can n s (record s { pc = update s.pc i returned; out = s.out ++ v ∷ [] }) i lo hi
      (rw (e, f_at) refl)
thread_can n s i returned lo hi e q = cc

-- main of hello-mt.c and cur.c, with n threads, always ends: in every state that steps lead to, at
-- most 4n + 1 steps have been made, in whatever order, and unless the last line is printed, main or
-- a thread can make another one.
pub main_ends :
    (n : ℕ) (s : State) (r : Reached n s) → (steps r ≤ 4 * n + 1) × ((s.over ≡ true) ⊎ CanStep n s)
unfolding made main
main_ends n s r =
    let h = Reached-Inv n s r in
    let over_one : (if s.over then 1 else 0) ≤ 1 = ground arith in
    (
      omega (
        arith,
        made_lem n s r,
        h.created,
        over_one,
        sum_to-le (λ i. progress (s.pc i)) (λ i. 0) 3 n (λ i. three_each (s.pc i)),
        sum_to-const 0 n,
      ),
      elim (Bool-cases s.over) [
        | inl o ↦ inl o
        | inr o ↦ inr (elim (Bool-cases (ltb s.created n)) [
          | inl more ↦ main_can n s (record s { created = s.created + 1 }) (rw (more, main) refl)
          | inr all ↦ elim (Bool-cases (all_returned n s.pc)) [
            | inl done ↦ main_can n s (record s { over = true }) (rw (all, o, done, main) refl)
            | inr some_left ↦
                let (i, lo, hi, q) = running n s.pc some_left in
                thread_can n s i (s.pc i) lo (ground (arith, all)) refl q
          ]
        ])
      ],
    )
