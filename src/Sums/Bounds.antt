-- ===== src/Sums/Bounds.antt =====
-- sum.c: how much can be lost.
use the_code_back_up_in_ubun.Base.{
  ℕ, ◌+◌, ◌-◌, ◌*◌, ◌%◌, ◌^◌, ◌≤◌, ◌<◌, ◌≡◌, refl, subst, ◌⊎◌, Option, none, some, ◌==◌, update,
  arith, Bool-cases, Option-cases, inl, inr, ==_iff, update_self,
}
use the_code_back_up_in_ubun.Sums.{System, do_sum, Reached, at_start, stepped, Joined, all_left}
use the_code_back_up_in_ubun.Sums.Locked.{all_left-update}

record Inv (rounds : ℕ) (s : System) : Type 0 where
  within : (t : ℕ) → s.left t ≤ rounds
  at_most : s.sum + all_left s.left ≤ 4 * rounds
  loaded_most : (t v : ℕ) → t < 4 → s.loaded t ≡ some v → v + all_left s.left ≤ 4 * rounds
  busy : (t v : ℕ) → s.loaded t ≡ some v → 0 < s.left t
  -- Behind the first store, and in a thread that has stored before.
  stored : (t : ℕ) → s.left t < rounds → 0 < s.sum
  loaded_stored : (t v : ℕ) → s.loaded t ≡ some v → s.left t < rounds → 0 < v
  -- The thread that has stored last.
  last : (w : ℕ) × ((s.left w ≡ rounds) ⊎ (0 < s.left w) ⊎ (2 ≤ s.sum)) × (w < 4)

load-Inv :
    (rounds t : ℕ) (s : System)
    → t < 4
    → 0 < s.left t
    → Inv rounds s
    → Inv rounds (record s { loaded = update s.loaded t (some s.sum) })
load-Inv rounds t s lt some_left i = record {
  within = i.within;
  at_most = i.at_most;
  loaded_most = λ u v u_lt e. ground (arith, i.at_most, i.loaded_most u v u_lt);
  busy = λ u v e. ground (arith, i.busy u v);
  stored = i.stored;
  loaded_stored = λ u v e h. ground (arith, i.stored u h, i.loaded_stored u v);
  last = i.last;
}

-- A store of a thread that has stored before is 2 at least.
last_store :
    (rounds t v : ℕ) (s : System)
    → 2 ≤ rounds
    → s.loaded t ≡ some v
    → Inv rounds s
    → v + 1 < 2 ^ 64
    → (update s.left t (s.left t - 1) t ≡ rounds)
      ⊎ (0 < update s.left t (s.left t - 1) t)
      ⊎ (2 ≤ (v + 1) % 2 ^ 64)
last_store rounds t v s two e i small = elim (Bool-cases (s.left t == 1)) [
  | inl one ↦
      let left_one : s.left t ≡ 1 = (==_iff _ _).0 one in
      inr (inr (omega (arith, i.loaded_stored t v e (omega arith))))
  | inr more ↦
      let busy = i.busy t v e in
      let left_more : 1 < s.left t = ground (arith, more) in
      inr (inl (rw (update_self s.left t (s.left t - 1)) (omega arith)))
]

store-Inv :
    (rounds t v : ℕ) (s : System)
    → t < 4
    → 2 ≤ rounds
    → 4 * rounds < 2 ^ 64
    → s.loaded t ≡ some v
    → Inv rounds s
    → Inv rounds (record s {
      sum = (v + 1) % 2 ^ 64;
      left = update s.left t (s.left t - 1);
      loaded = update s.loaded t none;
    })
store-Inv rounds t v s lt two small e i =
    let busy = i.busy t v e in
    let most = i.loaded_most t v lt e in
    let lower : all_left (update s.left t (s.left t - 1)) + 1 ≡ all_left s.left =
      omega (arith, all_left-update s.left t (s.left t - 1) lt) in
    let whole : (v + 1) % 2 ^ 64 ≡ v + 1 = omega arith in
    record {
      within = λ u. ground (arith, i.within u);
      at_most = rw whole (omega arith);
      loaded_most = λ u w u_lt e'. ground (arith, i.loaded_most u w u_lt, lower);
      busy = λ u w e'. ground (arith, i.busy u w);
      stored = λ u h. rw whole (omega arith);
      loaded_stored = λ u w e' h. ground (arith, i.loaded_stored u w);
      last = (t, last_store rounds t v s two e i (omega arith), lt);
    }

After : ℕ → Option System → Type 0
After rounds none = Unit
After rounds (some s) = Inv rounds s

step-Inv :
    (rounds t : ℕ) (s : System)
    → t < 4
    → 2 ≤ rounds
    → 4 * rounds < 2 ^ 64
    → Inv rounds s
    → After rounds (do_sum t s)
unfolding do_sum After
step-Inv rounds t s lt two small i = elim (Option-cases (s.loaded t)) [
  | inl e ↦ elim (Bool-cases (s.left t == 0)) [
    | inl n ↦ rw (e, n, do_sum) tt
    | inr n ↦ rw (e, n, do_sum) (load-Inv rounds t s lt (ground (arith, n)) i)
  ]
  | inr (v, e) ↦ rw (e, do_sum) (store-Inv rounds t v s lt two small e i)
]

Reached-Inv :
    (rounds : ℕ) (s : System)
    → 2 ≤ rounds
    → 4 * rounds < 2 ^ 64
    → Reached do_sum rounds s
    → Inv rounds s
unfolding After
Reached-Inv rounds _ two small at_start = record {
  within = λ t. omega arith;
  at_most = omega arith;
  loaded_most = λ t v lt e. cc;
  busy = λ t v e. cc;
  stored = λ t h. omega arith;
  loaded_stored = λ t v e h. cc;
  last = (0, inl refl, omega arith);
}
Reached-Inv rounds _ two small (stepped t s0 s1 lt r e) =
    subst (After rounds) e (step-Inv rounds t s0 lt two small (Reached-Inv rounds s0 two small r))

-- When the four threads of sum.c have returned, after two rounds or more each, whatever the order of
-- their loads and stores, the sum is 2 at least and the number of all their rounds at most, if that
-- has 64 bits.
pub sum_bounds :
    (rounds : ℕ) (s : System)
    → 2 ≤ rounds
    → 4 * rounds < 2 ^ 64
    → Reached do_sum rounds s
    → Joined s
    → (2 ≤ s.sum) × (s.sum ≤ 4 * rounds)
sum_bounds rounds s two small r joined =
    let i = Reached-Inv rounds s two small r in
    let (w, stores, w_lt) = i.last in
    (
      elim stores [
        | inl e ↦ omega (arith, joined w w_lt)
        | inr (inl e) ↦ omega (arith, joined w w_lt)
        | inr (inr e) ↦ e
      ],
      omega (arith, i.at_most),
    )
