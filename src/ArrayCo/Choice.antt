-- ===== src/ArrayCo/Choice.antt =====
-- `rand_choose` and `callback` of libco/co.c.
use the_code_back_up_in_ubun.Base.{
  ℕ, ◌+◌, ◌-◌, ◌%◌, ◌<◌, ◌≡◌, ◌≢◌, refl, sym, ◌∙◌, Bool, true, false, ◌&&◌, none, some, List, [],
  ◌∷◌, ◌++◌, ◌==◌, leb, arith, Bool-cases, inl, inr,
}
use the_code_back_up_in_ubun.ArrayCo.{State, ready, near, rand_choose}

-- A coroutine of the array that is new or waiting.
pub record Choosable (s : State) (co : ℕ) : Type 0 where
  pub index : ℕ
  pub inside : index < s.pool_member
  pub entry : s.pool index ≡ co
  pub is_ready : ready s index ≡ true

pub ready-entry : (s : State) (i : ℕ) → ready s i ≡ true → s.pool i ≢ 0
unfolding ready
ready-entry s i e null = ground (arith, e, null)

near_here : (s : State) (i : ℕ) → ready s i ≡ true → near s i ≡ s.pool i
unfolding near
near_here s i e = rw e refl

both : (a b : Bool) → (a && b) ≡ true → (a ≡ true) × (b ≡ true)
both true b e = (refl, e)
both false b e = absurd (ground (arith, e))

guarded : (a b : Bool) → (a ≡ true → b ≡ false) → (a && b) ≡ false
guarded true b h = h refl
guarded false b h = refl

less : (i n : ℕ) → leb (i + 2) n ≡ true → i + 1 < n
less i n e = ground (arith, e)

near-Choosable : (s : State) (i : ℕ) → i < s.pool_member → near s i ≢ 0 → Choosable s (near s i)
unfolding near
near-Choosable s i lt ne = elim (Bool-cases (ready s i)) [
  | inl here ↦ rw here (record { index = i; inside = lt; entry = refl; is_ready = here })
  | inr a ↦ elim (Bool-cases (leb 1 i && ready s (i - 1))) [
    | inl before ↦
        rw (a, before)
          (record {
            index = i - 1;
            inside = omega arith;
            entry = refl;
            is_ready = (both _ _ before).1;
          })
    | inr b ↦ elim (Bool-cases (leb (i + 2) s.pool_member && ready s (i + 1))) [
      | inl behind ↦
          rw (a, b, behind)
            (record {
              index = i + 1;
              inside = less i s.pool_member (both _ _ behind).0;
              entry = refl;
              is_ready = (both _ _ behind).1;
            })
      | inr c ↦ absurd (ne (rw (a, b, c) refl))
    ]
  ]
]

near_none :
    (s : State) (i : ℕ)
    → ((k : ℕ) → k < s.pool_member → ready s k ≡ false)
    → i < s.pool_member
    → near s i ≡ 0
unfolding near
near_none s i no_one lt =
    let before : (leb 1 i && ready s (i - 1)) ≡ false =
      guarded _ _ (λ _. no_one (i - 1) (omega arith)) in
    let behind : (leb (i + 2) s.pool_member && ready s (i + 1)) ≡ false =
      guarded _ _ (λ e. no_one (i + 1) (less i s.pool_member e)) in
    rw (no_one i lt, before, behind) refl

remainder : (r n : ℕ) → 0 < n → r % n < n
remainder r n lt = omega arith

-- While a coroutine is new or waiting, rand_choose of libco/co.c ends as soon as rand() gives its
-- index, and before if it is near; what it chooses is a coroutine of the array that is new or
-- waiting.
pub rand_choose-Choosable :
    (s : State) (front back : List ℕ) (r : ℕ)
    → 0 < s.pool_member
    → ready s (r % s.pool_member) ≡ true
    → (co : ℕ) × (rest : List ℕ) × (rand_choose (front ++ r ∷ back) s ≡ some (co, rest))
      × Choosable s co
unfolding rand_choose
rand_choose-Choosable s [] back r lt e =
    let i = r % s.pool_member in
    let chosen : near s i ≡ s.pool i = near_here s i e in
    let some_one : (near s i == 0) ≡ false = ground (arith, chosen, ready-entry s i e) in
    let members : (s.pool_member == 0) ≡ false = ground arith in
    (
      near s i,
      back,
      rw (members, some_one, rand_choose) refl,
      near-Choosable s i (remainder r s.pool_member lt)
          (λ null. ready-entry s i e (sym chosen ∙ null)),
    )
rand_choose-Choosable s (x ∷ front) back r lt e =
    let i = x % s.pool_member in
    let later = rand_choose-Choosable s front back r lt e in
    let members : (s.pool_member == 0) ≡ false = ground arith in
    elim (Bool-cases (near s i == 0)) [
      | inl none_near ↦ (later.0, later.1, rw (members, none_near, rand_choose) later.2, later.3)
      | inr some_near ↦ (
        near s i,
        front ++ r ∷ back,
        rw (members, some_near, rand_choose) refl,
        near-Choosable s i (remainder x s.pool_member lt) (ground (arith, some_near)),
      )
    ]

pub rand_choose-none :
    (s : State) (rs : List ℕ)
    → ((k : ℕ) → k < s.pool_member → ready s k ≡ false)
    → rand_choose rs s ≡ none
unfolding rand_choose
rand_choose-none s [] no_one = refl
rand_choose-none s (r ∷ rs) no_one = elim (Bool-cases (s.pool_member == 0)) [
  | inl empty ↦ rw (empty, rand_choose) refl
  | inr members ↦
      rw
        (
          members,
          near_none s (r % s.pool_member) no_one
              (remainder r s.pool_member (ground (arith, members))),
          rand_choose,
        )
        (rand_choose-none s rs no_one)
]
