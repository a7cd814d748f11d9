-- ===== src/Sums/Lost.antt =====
-- sum.c: an order of the steps in which nearly all additions are lost.
use the_code_back_up_in_ubun.Base.{
  ℕ, zero, suc, ◌+◌, ◌-◌, ◌*◌, ◌%◌, ◌^◌, ◌≤◌, ◌<◌, ◌≡◌, ◌≢◌, refl, sym, ap, ◌∙◌, Option, none, some,
  false, ◌==◌, update, update_self, update_other, arith, Bool-cases, inl, inr, ==_iff,
}
use the_code_back_up_in_ubun.Sums.{System, started, do_sum, Reached, at_start, stepped, Joined}

-- What a thread t leaves alone.
record Others (t : ℕ) (s s' : System) : Type 0 where
  left_kept : (u : ℕ) → u ≢ t → s'.left u ≡ s.left u
  loaded_kept : (u : ℕ) → u ≢ t → s'.loaded u ≡ s.loaded u

loads :
    (rounds t : ℕ) (s : System)
    → t < 4
    → Reached do_sum rounds s
    → s.loaded t ≡ none
    → s.left t ≢ 0
    → (s' : System) × Reached do_sum rounds s'
      × (s'.sum ≡ s.sum)
      × (s'.left ≡ s.left)
      × (s'.loaded t ≡ some s.sum)
      × Others t s s'
unfolding do_sum
loads rounds t s lt r e busy =
    let tested : (s.left t == 0) ≡ false = ground arith in
    (
      record s { loaded = update s.loaded t (some s.sum) },
      stepped t s _ lt r (rw (e, tested, do_sum) refl),
      refl,
      refl,
      update_self s.loaded t (some s.sum),
      record {
        left_kept = λ u ne. refl;
        loaded_kept = λ u ne. update_other s.loaded (some s.sum) (λ eq. ne (sym eq));
      },
    )

stores :
    (rounds t v m : ℕ) (s : System)
    → t < 4
    → Reached do_sum rounds s
    → s.loaded t ≡ some v
    → s.left t ≡ suc m
    → v + 1 < 2 ^ 64
    → (s' : System) × Reached do_sum rounds s'
      × (s'.sum ≡ v + 1)
      × (s'.left t ≡ m)
      × (s'.loaded t ≡ none)
      × Others t s s'
unfolding do_sum
stores rounds t v m s lt r e busy small = (
  record s {
    sum = (v + 1) % 2 ^ 64;
    left = update s.left t (s.left t - 1);
    loaded = update s.loaded t none;
  },
  stepped t s _ lt r (rw (e, do_sum) refl),
  omega arith,
  update_self s.left t (s.left t - 1) ∙ omega arith,
  update_self s.loaded t none,
  record {
    left_kept = λ u ne. update_other s.left (s.left t - 1) (λ eq. ne (sym eq));
    loaded_kept = λ u ne. update_other s.loaded none (λ eq. ne (sym eq));
  },
)

Others-trans : (t : ℕ) (s s' s'' : System) → Others t s s' → Others t s' s'' → Others t s s''
Others-trans t s s' s'' o o' = record {
  left_kept = λ u ne. o'.left_kept u ne ∙ o.left_kept u ne;
  loaded_kept = λ u ne. o'.loaded_kept u ne ∙ o.loaded_kept u ne;
}

-- The thread t makes k rounds, with m to go, and no other thread comes between.
runs :
    (rounds t k m : ℕ) (s : System)
    → t < 4
    → Reached do_sum rounds s
    → s.loaded t ≡ none
    → s.left t ≡ k + m
    → s.sum + k < 2 ^ 64
    → (s' : System) × Reached do_sum rounds s'
      × (s'.sum ≡ s.sum + k)
      × (s'.left t ≡ m)
      × (s'.loaded t ≡ none)
      × Others t s s'
runs rounds t zero m s lt r free e small = (
  s,
  r,
  omega arith,
  omega arith,
  free,
  record { left_kept = λ u ne. refl; loaded_kept = λ u ne. refl },
)
runs rounds t (suc k) m s lt r free e small =
    let (s1, r1, sum1, left1, loaded1, o1) = loads rounds t s lt r free (omega arith) in
    let (s2, r2, sum2, left2, free2, o2) =
      stores rounds t s.sum (k + m) s1 lt r1 loaded1 (ap (λ f. f t) left1 ∙ e ∙ omega arith)
        (omega arith) in
    let (s3, r3, sum3, left3, free3, o3) = runs rounds t k m s2 lt r2 free2 left2 (omega arith) in
    (s3, r3, omega arith, left3, free3, Others-trans t s s2 s3 (Others-trans t s s1 s2 o1 o2) o3)

-- A state that is reached, by its contents.
record Config (rounds sum : ℕ) (left : ℕ → ℕ) (loaded : ℕ → Option ℕ) : Type 0 where
  state : System
  reached : Reached do_sum rounds state
  sum_is : state.sum ≡ sum
  left_is : (t : ℕ) → state.left t ≡ left t
  loaded_is : (t : ℕ) → state.loaded t ≡ loaded t

at_update {ℓ} :
    {A : Type ℓ} (t : ℕ) (f g : ℕ → A) (a : A)
    → g t ≡ a
    → ((u : ℕ) → u ≢ t → g u ≡ f u)
    → (u : ℕ) → g u ≡ update f t a u
at_update t f g a here there u = elim (Bool-cases (t == u)) [
  | inl same ↦ rw same (ap g (sym ((==_iff t u).0 same)) ∙ here)
  | inr other ↦ rw other (there u (ground (arith, other)))
]

module _ (rounds t : ℕ) (lt : t < 4) {sum : ℕ} {left : ℕ → ℕ} {loaded : ℕ → Option ℕ}
    (c : Config rounds sum left loaded) where
  Config-loads : loaded t ≡ none → left t ≢ 0 → Config rounds sum left (update loaded t (some sum))
  Config-loads free busy =
      let (s, r, sum', left', loaded', o) =
        loads rounds t c.state lt c.reached (c.loaded_is t ∙ free)
          (λ e. busy (sym (c.left_is t) ∙ e)) in
      record {
        state = s;
        reached = r;
        sum_is = sum' ∙ c.sum_is;
        left_is = λ u. ap (λ f. f u) left' ∙ c.left_is u;
        loaded_is =
            at_update t loaded s.loaded (some sum) (loaded' ∙ ap some c.sum_is)
              (λ u ne. o.loaded_kept u ne ∙ c.loaded_is u);
      }

  Config-stores :
      (v m : ℕ)
      → loaded t ≡ some v
      → left t ≡ suc m
      → v + 1 < 2 ^ 64
      → Config rounds (v + 1) (update left t m) (update loaded t none)
  Config-stores v m busy e small =
      let (s, r, sum', left', loaded', o) =
        stores rounds t v m c.state lt c.reached (c.loaded_is t ∙ busy) (c.left_is t ∙ e) small in
      record {
        state = s;
        reached = r;
        sum_is = sum';
        left_is = at_update t left s.left m left' (λ u ne. o.left_kept u ne ∙ c.left_is u);
        loaded_is =
            at_update t loaded s.loaded none loaded' (λ u ne. o.loaded_kept u ne ∙ c.loaded_is u);
      }

  Config-runs :
      (k m : ℕ)
      → loaded t ≡ none
      → left t ≡ k + m
      → sum + k < 2 ^ 64
      → Config rounds (sum + k) (update left t m) (update loaded t none)
  Config-runs k m free e small =
      let (s, r, sum', left', loaded', o) =
        runs rounds t k m c.state lt c.reached (c.loaded_is t ∙ free) (c.left_is t ∙ e)
          (rw c.sum_is small) in
      record {
        state = s;
        reached = r;
        sum_is = sum' ∙ ap (λ x. x + k) c.sum_is;
        left_is = at_update t left s.left m left' (λ u ne. o.left_kept u ne ∙ c.left_is u);
        loaded_is =
            at_update t loaded s.loaded none loaded' (λ u ne. o.loaded_kept u ne ∙ c.loaded_is u);
      }

below_four : (f : ℕ → ℕ) → f 0 ≡ 0 → f 1 ≡ 0 → f 2 ≡ 0 → f 3 ≡ 0 → (t : ℕ) → t < 4 → f t ≡ 0
below_four f a b c d zero lt = a
below_four f a b c d (suc zero) lt = b
below_four f a b c d (suc (suc zero)) lt = c
below_four f a b c d (suc (suc (suc zero))) lt = d
below_four f a b c d (suc (suc (suc (suc t)))) lt = absurd (omega arith)

-- Also with two rounds or more each, the four threads of sum.c can all return with a sum of 2: the
-- first one stores over nearly all rounds of the others, and the second over the first one's.
pub sum_lost :
    (rounds : ℕ)
    → 2 ≤ rounds
    → 4 * rounds < 2 ^ 64
    → (s : System) × Reached do_sum rounds s × Joined s × (s.sum ≡ 2)
sum_lost rounds two small =
    let c0 : Config rounds 0 (λ t. rounds) (λ t. none) = record {
      state = started rounds;
      reached = at_start;
      sum_is = refl;
      left_is = λ t. refl;
      loaded_is = λ t. refl;
    } in
    let n = rounds - 1 in
    let c1 = Config-loads rounds 0 (omega arith) c0 refl (omega arith) in
    let c2 = Config-runs rounds 2 (omega arith) c1 rounds 0 refl (omega arith) (omega arith) in
    let c3 = Config-runs rounds 3 (omega arith) c2 rounds 0 refl (omega arith) (omega arith) in
    let c4 = Config-runs rounds 1 (omega arith) c3 n 1 refl (omega arith) (omega arith) in
    let c5 = Config-stores rounds 0 (omega arith) c4 0 n refl (omega arith) (omega arith) in
    let c6 = Config-loads rounds 1 (omega arith) c5 refl (omega arith) in
    let c7 = Config-runs rounds 0 (omega arith) c6 n 0 refl (omega arith) (omega arith) in
    let c8 = Config-stores rounds 1 (omega arith) c7 1 0 refl (omega arith) (omega arith) in
    (
      c8.state,
      c8.reached,
      below_four c8.state.left (c8.left_is 0) (c8.left_is 1) (c8.left_is 2) (c8.left_is 3),
      c8.sum_is,
    )
