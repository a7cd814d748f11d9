-- ===== src/Sums/Locked.antt =====
-- sum-atomic.c and bug.c, where an addition is one step.
use the_code_back_up_in_ubun.Base.{
  ℕ, zero, suc, ◌+◌, ◌-◌, ◌*◌, ◌^◌, ◌<◌, ◌≡◌, ◌↔◌, subst, Option, none, some, ◌==◌, update, arith,
  Bool-cases, inl, inr,
}
use the_code_back_up_in_ubun.Sums.{
  System, do_locked_sum, workload, Reached, at_start, stepped, Joined, all_left,
}

pub all_left-update :
    (left : ℕ → ℕ) (t x : ℕ) → t < 4 → all_left (update left t x) + left t ≡ all_left left + x
all_left-update left zero x lt = omega arith
all_left-update left (suc zero) x lt = omega arith
all_left-update left (suc (suc zero)) x lt = omega arith
all_left-update left (suc (suc (suc zero))) x lt = omega arith
all_left-update left (suc (suc (suc (suc t)))) x lt = absurd (omega arith)

-- What the rounds are for.
Counted : ℕ → System → Type 0
Counted rounds s = s.sum + all_left s.left ≡ 4 * rounds

After : ℕ → Option System → Type 0
After rounds none = Unit
After rounds (some s) = Counted rounds s

step-Counted :
    (rounds t : ℕ) (s : System)
    → t < 4
    → 4 * rounds < 2 ^ 64
    → Counted rounds s
    → After rounds (do_locked_sum t s)
unfolding do_locked_sum Counted After
step-Counted rounds t s lt small c = elim (Bool-cases (s.left t == 0)) [
  | inl e ↦ rw e tt
  | inr e ↦
      let some_left : 0 < s.left t = ground (arith, e) in
      rw e (omega (arith, all_left-update s.left t (s.left t - 1) lt, c, small, some_left))
]

Reached-Counted :
    (rounds : ℕ) (s : System)
    → 4 * rounds < 2 ^ 64
    → Reached do_locked_sum rounds s
    → Counted rounds s
unfolding Counted After
Reached-Counted rounds _ small at_start = omega arith
Reached-Counted rounds _ small (stepped t s0 s1 lt r e) =
    subst (After rounds) e (step-Counted rounds t s0 lt small (Reached-Counted rounds s0 small r))

-- When the four threads of sum-atomic.c have returned, whatever the order of their steps, the sum is
-- the number of all their rounds, if that has 64 bits.
pub locked_sum :
    (rounds : ℕ) (s : System)
    → 4 * rounds < 2 ^ 64
    → Reached do_locked_sum rounds s
    → Joined s
    → s.sum ≡ 4 * rounds
unfolding Counted
locked_sum rounds s small r joined =
    omega (arith, Reached-Counted rounds s small r, joined 0, joined 1, joined 2, joined 3)

workload-Counted : (s : System) → Reached workload 1 s → Counted 1 s
unfolding workload Counted After
workload-Counted _ at_start = omega arith
workload-Counted _ (stepped t s0 s1 lt r e) =
    subst (After 1) e (step-Counted 1 t s0 lt (omega arith) (workload-Counted s0 r))

below_four : (left : ℕ → ℕ) (t : ℕ) → t < 4 → all_left left ≡ 0 → left t ≡ 0
below_four left zero lt e = omega arith
below_four left (suc zero) lt e = omega arith
below_four left (suc (suc zero)) lt e = omega arith
below_four left (suc (suc (suc zero))) lt e = omega arith
below_four left (suc (suc (suc (suc t)))) lt e = absurd (omega arith)

-- The loop of main in bug.c ends, when it finds `nworkers` in `done`, behind the last worker's
-- addition.
pub workload_done : (s : System) → Reached workload 1 s → (s.sum ≡ 4) ↔ Joined s
unfolding Counted
workload_done s r =
    let c = workload-Counted s r in
    (
      (λ e t lt. below_four s.left t lt (omega (arith, c, e))),
      (λ joined. omega (arith, c, joined 0, joined 1, joined 2, joined 3)),
    )
