-- ===== src/ArrayCo/Last.antt =====
-- `callback` of libco/co.c when no other coroutine of the array is new or waiting.
use the_code_back_up_in_ubun.Base.{
  ℕ, zero, suc, ◌+◌, ◌<◌, ◌≡◌, ◌≢◌, refl, subst, true, false, Option, none, some, List, ◌==◌,
  update, arith, Bool-cases, Option-cases, inl, inr,
}
use the_code_back_up_in_ubun.ArrayCo.{
  State, co_dead, same_name, delete_loop, co_delete, ready, set_status, choose_other, callback,
}
use the_code_back_up_in_ubun.ArrayCo.Choice.{rand_choose-none}

-- No coroutine of the array is new or waiting.
Idle : State → Type 0
Idle s = (k : ℕ) → k < s.pool_member → ready s k ≡ false

AfterDelete : Option State → Type 0
AfterDelete none = Unit
AfterDelete (some s) = Idle s

cleared-Idle : (s : State) (i : ℕ) → Idle s → Idle (record s { pool = update s.pool i 0 })
unfolding Idle ready
cleared-Idle s i idle k lt = elim (Bool-cases (i == k)) [
  | inl e ↦ rw e refl
  | inr e ↦ rw e (idle k lt)
]

delete_loop-Idle : (rounds i co : ℕ) (s : State) → Idle s → AfterDelete (delete_loop rounds i co s)
unfolding delete_loop AfterDelete
delete_loop-Idle zero i co s idle = idle
delete_loop-Idle (suc rounds) i co s idle = elim (Bool-cases (s.pool i == 0)) [
  | inl e ↦ rw (e, delete_loop) tt
  | inr e ↦ elim (Option-cases (same_name s (s.pool i) co)) [
    | inl n ↦ rw (e, n, delete_loop) tt
    | inr (true, n) ↦ rw (e, n, delete_loop) (cleared-Idle s i idle)
    | inr (false, n) ↦ rw (e, n, delete_loop) (delete_loop-Idle rounds (i + 1) co s idle)
  ]
]

dead-Idle :
    (s : State)
    → ((k : ℕ) → k < s.pool_member → s.pool k ≢ s.current → ready s k ≡ false)
    → Idle (set_status s.current co_dead s)
unfolding Idle ready set_status
dead-Idle s others k lt = elim (Bool-cases (s.current == s.pool k)) [
  | inl e ↦ rw e (ground arith)
  | inr e ↦ rw e (others k lt (ground (arith, e)))
]

choose_other-none : (fuel : ℕ) (rs : List ℕ) (s : State) → Idle s → choose_other fuel rs s ≡ none
unfolding choose_other Idle
choose_other-none zero rs s idle = refl
choose_other-none (suc fuel) rs s idle = rw (rand_choose-none s rs idle, choose_other) refl

-- When callback of libco/co.c runs and no coroutine of the array but the current one is new or
-- waiting, it does not end, or reads through NULL: whatever rand() gives, it goes on with no
-- coroutine, and not with the main program, which the array does not have.
pub callback_stuck :
    (s : State) (fuel : ℕ) (rs : List ℕ)
    → ((k : ℕ) → k < s.pool_member → s.pool k ≢ s.current → ready s k ≡ false)
    → callback fuel rs s ≡ none
unfolding callback co_delete AfterDelete
callback_stuck s fuel rs others =
    let dead = set_status s.current co_dead s in
    elim (Option-cases (co_delete s.current dead)) [
      | inl e ↦ rw (e, callback) refl
      | inr (s', e) ↦
          rw
            (
              e,
              choose_other-none fuel rs s' (
                  subst AfterDelete e
                    (delete_loop-Idle s.pool_member 0 s.current dead (dead-Idle s others))),
              callback,
            )
            refl
    ]
