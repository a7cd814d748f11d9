-- ===== src/Monitor/Schedule.antt =====
-- Reachable states by evaluation: the threads move in a given order.
use the_code_back_up_in_ubun.Base.{
  ℕ, suc, ◌≡◌, refl, inl, inr, Option, none, some, List, [], ◌∷◌, dec_lt, arith, Bool-cases,
  Option-cases,
}
use the_code_back_up_in_ubun.Monitor.{
  Monitor, start, testing, waiting, woken, printing, printed, leaving, System, boot, Step,
  lock_before, sleep, pass, wake, relock, print, lock_after, finish, Reach, here, next,
}

module _ (m : Monitor) (ch : ℕ → ℕ) (n : ℕ) where
  open m use {State, blocked}

  pub record Run : Type 0 where
    pub last : System State
    pub reach : Reach m ch n last

  Move : System State → Type 0
  Move s = Option ((t : System State) × Step m ch n s t)

  move_start : (s : System State) (i : ℕ) → s.pc i ≡ start → Move s
  unfolding Move dec_lt
  move_start s i e = elim (Option-cases s.owner) [
    | inr o ↦ none
    | inl free ↦ elim (dec_lt 0 i) [
      | no _ ↦ none
      | yes lo ↦ elim (dec_lt i (suc n)) [
        | no _ ↦ none
        | yes hi ↦ some (_, lock_before i lo (omega arith) e free)
      ]
    ]
  ]

  move_testing : (s : System State) (i : ℕ) → s.pc i ≡ testing → Move s
  unfolding Move Bool-cases Option-cases
  move_testing s i e = elim (Option-cases s.shared) [
    | inl dead ↦ none
    | inr (st, sh) ↦ elim (Bool-cases (blocked (ch i) st)) [
      | inl b ↦ some (_, sleep i st e sh b)
      | inr b ↦ some (_, pass i st e sh b)
    ]
  ]

  move : (s : System State) (i : ℕ) → Move s
  unfolding Move move_start move_testing Option-cases
  move s i =
      elim (s.pc i) as (λ p. s.pc i ≡ p → Move s) [
        | start ↦ λ e. move_start s i e
        | testing ↦ λ e. move_testing s i e
        | waiting ↦ λ e. some (_, wake i e)
        | woken ↦
            λ e. elim (Option-cases s.owner) [ inl free ↦ some (_, relock i e free) | inr o ↦ none ]
        | printing ↦ λ e. some (_, print i e)
        | printed ↦ λ e. elim (Option-cases s.owner) [
          | inl free ↦ some (_, lock_after i e free)
          | inr o ↦ none
        ]
        | leaving ↦ λ e. elim (Option-cases s.shared) [
          | inl dead ↦ none
          | inr (st, sh) ↦ some (_, finish i st e sh)
        ]
      ]
        refl

  go : Run → List ℕ → Run
  unfolding move Move
  go r [] = r
  go r (i ∷ is) = elim (move r.last i) [
    | none ↦ go r is
    | some (t, st) ↦ go (record { last = t; reach = next r.reach st }) is
  ]

  -- The state after the threads of the list have moved, those that cannot left out.
  unfoldable pub run : List ℕ → Run
  unfolding go
  run is = go (record { last = boot m ch; reach = here }) is
