-- ===== src/ArrayCo/Removal.antt =====
-- `co_delete` of libco/co.c.
use the_code_back_up_in_ubun.Base.{
  ℕ, zero, suc, ◌+◌, ◌<◌, ◌≤◌, ◌≡◌, ◌≢◌, refl, ◌∙◌, ap, true, false, none, some, ◌==◌, update,
  arith, dec_lt, update_self, update_other,
}
use the_code_back_up_in_ubun.ArrayCo.{State, same_name, delete_loop, co_delete}

unequal : (i j : ℕ) → i < j → (i == j) ≡ false
unequal i j lt = ground arith

not_first : (f : ℕ → ℕ) (i j : ℕ) → i < j → update f j 0 i ≡ f i
not_first f i j lt = update_other f 0 (omega arith)

-- The loop comes to entry j if the ones in front of it are other coroutines.
module _ (co j : ℕ) (s : State)
    (others : (i : ℕ) → i < j → (s.pool i ≢ 0) × (same_name s (s.pool i) co ≡ some false)) where
  delete_loop-found :
      (rounds i : ℕ)
      → i ≤ j
      → j < i + rounds
      → s.pool j ≢ 0
      → same_name s (s.pool j) co ≡ some true
      → delete_loop rounds i co s ≡ some (record s { pool = update s.pool j 0 })
  unfolding delete_loop
  delete_loop-found zero i le lt there found = absurd (omega arith)
  delete_loop-found (suc rounds) i le lt there found = elim (dec_lt i j) [
    | yes l ↦
        let o = others i l in
        let tested : (s.pool i == 0) ≡ false = ground (arith, o) in
        rw (tested, o.1, delete_loop)
          (delete_loop-found rounds (i + 1) (omega arith) (omega arith) there found)
    | no r ↦
        let here : i ≡ j = omega arith in
        let tested : (s.pool j == 0) ≡ false = ground arith in
        rw (here, tested, found, delete_loop)
          (ap (λ x. some (record s { pool = update s.pool x 0 })) here)
  ]

  delete_loop-null :
      (rounds i : ℕ) → i ≤ j → j < i + rounds → s.pool j ≡ 0 → delete_loop rounds i co s ≡ none
  unfolding delete_loop
  delete_loop-null zero i le lt null = absurd (omega arith)
  delete_loop-null (suc rounds) i le lt null = elim (dec_lt i j) [
    | yes l ↦
        let o = others i l in
        let tested : (s.pool i == 0) ≡ false = ground (arith, o) in
        rw (tested, o.1, delete_loop)
          (delete_loop-null rounds (i + 1) (omega arith) (omega arith) null)
    | no r ↦ let here : i ≡ j = omega arith in rw (here, null, delete_loop) refl
  ]

-- When the entries of the array are coroutines of libco/co.c with different names, no NULL among
-- them: co_delete of one of them puts NULL in its place, and a co_delete of another one behind it
-- then reads through this NULL.
pub delete_twice :
    (j k : ℕ) (s : State)
    → ((i : ℕ) → i < s.pool_member → s.pool i ≢ 0)
    → ((i i' : ℕ)
        → i < s.pool_member
        → i' < s.pool_member
        → same_name s (s.pool i) (s.pool i') ≡ some (i == i'))
    → j < k
    → k < s.pool_member
    → (s' : State) × (co_delete (s.pool j) s ≡ some s')
      × (s'.pool ≡ update s.pool j 0)
      × (co_delete (s.pool k) s' ≡ none)
unfolding co_delete same_name
delete_twice j k s full named lt k_lt = (
  record s { pool = update s.pool j 0 },
  delete_loop-found (s.pool j) j s
      (λ i h.
        (full i (omega arith), named i j (omega arith) (omega arith) ∙ ap some (unequal i j h)))
      s.pool_member 0 (omega arith) (omega arith) (full j (omega arith))
      (named j j (omega arith) (omega arith) ∙ ap some (ground arith)),
  refl,
  delete_loop-null (s.pool k) j (record s { pool = update s.pool j 0 })
      (λ i h.
        rw (not_first s.pool i j h) (
          full i (omega arith),
          named i k (omega arith) k_lt ∙ ap some (unequal i k (omega arith)),
        ))
      s.pool_member 0 (omega arith) (omega arith) (update_self s.pool j 0),
)
