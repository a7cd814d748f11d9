-- ===== src/Producers/Progress.antt =====
-- Every schedule of producer-consumer.c.
use the_code_back_up_in_ubun.Base.{
  ℕ, zero, suc, ◌+◌, ◌≤◌, ◌<◌, ◌≡◌, refl, ap, subst, Option, none, some, ◌==◌, if◌then◌else◌, ltb,
  leb, update, arith, Bool-cases, inl, inr, ==_iff, update_other, ◌∙◌,
}
use the_code_back_up_in_ubun.Producers.{State, producer, consumer, step, started}

-- The states that the steps of the threads lead to.
pub data Reached : State → Type 0 where
  at_start : Reached started
  stepped : (t : ℕ) (s s' : State) → Reached s → step t s ≡ some s' → Reached s'

-- 1 if a thread is behind its call of P, or of V.
abbrev behind_p : ℕ → ℕ
behind_p pc = if pc == 0 then 0 else 1

abbrev behind_v : ℕ → ℕ
behind_v pc = if leb 3 pc then 1 else 0

-- The sum over the producers.
abbrev total : (ℕ → ℕ) → (ℕ → ℕ) → ℕ
total g pc = g (pc 0) + g (pc 1) + g (pc 2)

total-update :
    (g : ℕ → ℕ) (pc : ℕ → ℕ) (t x : ℕ)
    → t < 3
    → total g (update pc t x) + g (pc t) ≡ total g pc + g x
total-update g pc zero x lt = omega arith
total-update g pc (suc zero) x lt = omega arith
total-update g pc (suc (suc zero)) x lt = omega arith
total-update g pc (suc (suc (suc t))) x lt = absurd (omega arith)

Counted : State → Type 0
Counted s =
    (s.empty + total behind_p s.pc ≡ 1 + behind_v (s.pc 3))
    × (s.fill + behind_p (s.pc 3) ≡ total behind_v s.pc)

After : Option State → Type 0
After none = Unit
After (some s) = Counted s

-- A producer at p goes on at x, and the semaphores change with it.
moved :
    (t p x : ℕ) (s s' : State)
    → t < 3
    → s.pc t ≡ p
    → s'.pc ≡ update s.pc t x
    → s'.empty + behind_p x ≡ s.empty + behind_p p
    → s'.fill + behind_v p ≡ s.fill + behind_v x
    → Counted s
    → Counted s'
unfolding Counted
moved t p x s s' lt at next empty fill c =
    let p_sum : total behind_p s'.pc + behind_p p ≡ total behind_p s.pc + behind_p x = rw (next) (
      subst (λ y. total behind_p (update s.pc t x) + behind_p y ≡ total behind_p s.pc + behind_p x)
        at (total-update behind_p s.pc t x lt)) in
    let v_sum : total behind_v s'.pc + behind_v p ≡ total behind_v s.pc + behind_v x = rw (next) (
      subst (λ y. total behind_v (update s.pc t x) + behind_v y ≡ total behind_v s.pc + behind_v x)
        at (total-update behind_v s.pc t x lt)) in
    let same : s'.pc 3 ≡ s.pc 3 = ap (λ f. f 3) next ∙ update_other s.pc x (omega arith) in
    let same_p : behind_p (s'.pc 3) ≡ behind_p (s.pc 3) = ap behind_p same in
    let same_v : behind_v (s'.pc 3) ≡ behind_v (s.pc 3) = ap behind_v same in
    (omega (arith, c.0, p_sum, empty, same_v), omega (arith, c.1, v_sum, fill, same_p))

producer-Counted : (t : ℕ) (s : State) → t < 3 → Counted s → After (producer t s)
unfolding producer After
producer-Counted t s lt c = elim (Bool-cases (s.pc t == 0)) [
  | inl e ↦ elim (Bool-cases (s.empty == 0)) [
    | inl n ↦ rw (e, n) tt
    | inr n ↦ rw (e, n) (moved t 0 1 s _ lt ((==_iff _ _).0 e) refl (ground (arith, n)) refl c)
  ]
  | inr n0 ↦ elim (Bool-cases (s.pc t == 1)) [
    | inl e ↦ rw (n0, e) (moved t 1 2 s _ lt ((==_iff _ _).0 e) refl refl refl c)
    | inr n1 ↦ elim (Bool-cases (s.pc t == 2)) [
      | inl e ↦ rw (n0, n1, e) (moved t 2 3 s _ lt ((==_iff _ _).0 e) refl refl (omega arith) c)
      | inr n2 ↦ rw (n0, n1, n2) tt
    ]
  ]
]

consumer_at :
    (s : State) (p : ℕ)
    → s.pc 3 ≡ p
    → Counted s
    → (s.empty + total behind_p s.pc ≡ 1 + behind_v p) × (s.fill + behind_p p ≡ total behind_v s.pc)
unfolding Counted
consumer_at s p at c =
    subst
      (λ y.
        (s.empty + total behind_p s.pc ≡ 1 + behind_v y)
        × (s.fill + behind_p y ≡ total behind_v s.pc))
      at c

consumer-Counted : (s : State) → Counted s → After (consumer 3 s)
unfolding consumer Counted After
consumer-Counted s c = elim (Bool-cases (s.pc 3 == 0)) [
  | inl e ↦ elim (Bool-cases (s.fill == 0)) [
    | inl n ↦ rw (e, n) tt
    | inr n ↦
        rw (e, n)
          (let here = consumer_at s 0 ((==_iff _ _).0 e) c in
            (omega (arith, here), ground (arith, n, here)))
  ]
  | inr n0 ↦ elim (Bool-cases (s.pc 3 == 1)) [
    | inl e ↦
        rw (n0, e)
          (let here = consumer_at s 1 ((==_iff _ _).0 e) c in
            (omega (arith, here), omega (arith, here)))
    | inr n1 ↦ elim (Bool-cases (s.pc 3 == 2)) [
      | inl e ↦
          rw (n0, n1, e)
            (let here = consumer_at s 2 ((==_iff _ _).0 e) c in
              (omega (arith, here), omega (arith, here)))
      | inr n2 ↦ rw (n0, n1, n2) tt
    ]
  ]
]

step-Counted : (t : ℕ) (s : State) → Counted s → After (step t s)
unfolding step After
step-Counted t s c = elim (Bool-cases (ltb t 3)) [
  | inl e ↦ rw e (producer-Counted t s (ground (arith, e)) c)
  | inr e ↦ elim (Bool-cases (t == 3)) [
    | inl three ↦ rw (e, three, (==_iff t 3).0 three) (consumer-Counted s c)
    | inr other ↦ rw (e, other) tt
  ]
]

Reached-Counted : (s : State) → Reached s → Counted s
unfolding Counted After
Reached-Counted _ at_start = (refl, refl)
Reached-Counted _ (stepped t s0 s1 r e) = subst After e (step-Counted t s0 (Reached-Counted s0 r))

behind_v_le : (pc : ℕ) → behind_v pc ≤ 1
behind_v_le pc = ground arith

-- In every state that the threads of producer-consumer.c reach, one of the three producers has not
-- returned: the join of main never ends.
pub producers_stuck : (s : State) → Reached s → ¬ ((s.pc 0 ≡ 3) × (s.pc 1 ≡ 3) × (s.pc 2 ≡ 3))
unfolding Counted
producers_stuck s r (a, b, c) =
    let counted = Reached-Counted s r in
    omega (arith, counted.0, ap behind_p a, ap behind_p b, ap behind_p c, behind_v_le (s.pc 3))
