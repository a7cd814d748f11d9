-- ===== src/ArrayCo/Yields.antt =====
-- `co_yield` of libco/co.c.
use the_code_back_up_in_ubun.Base.{
  ℕ, ◌%◌, ◌<◌, ◌≡◌, ◌≢◌, refl, subst, true, false, some, List, ◌∷◌, ◌++◌, ◌==◌, if◌then◌else◌,
  arith, Bool-cases, inl, inr,
}
use the_code_back_up_in_ubun.ArrayCo.{
  State, entered, resumed, co_new, co_running, co_waiting, ready, set_status, suspend, co_yield,
}
use the_code_back_up_in_ubun.ArrayCo.Choice.{Choosable, rand_choose-Choosable}

status_waiting :
    (s : State) (k : ℕ)
    → ready s k ≡ true
    → (s.status (s.pool k) == co_new) ≡ false
    → (s.status (s.pool k) == co_waiting) ≡ true
unfolding ready
status_waiting s k e n = ground (arith, e, n)

Choosable-waits :
    (s : State) (co : ℕ)
    → Choosable s co
    → (s.status co == co_new) ≡ false
    → (s.status co == co_waiting) ≡ true
Choosable-waits s co c =
    subst (λ x. (s.status x == co_new) ≡ false → (s.status x == co_waiting) ≡ true) c.entry
      (status_waiting s c.index c.is_ready)

Choosable-set :
    (s : State) (co : ℕ)
    → ((k : ℕ)
        → s.pool k ≢ s.current
        → (s.status (s.pool k) == co_waiting) ≡ true
        → s.context (s.pool k) ≡ true)
    → Choosable (suspend s) co
    → ((suspend s).status co == co_waiting) ≡ true
    → (suspend s).context co ≡ true
unfolding suspend set_status
Choosable-set s co kept c waits = elim (Bool-cases (s.current == co)) [
  | inl same ↦ ground arith
  | inr other ↦
      let old : (s.status co == co_waiting) ≡ true = ground arith in
      let at : s.pool c.index ≡ co = c.entry in
      let ne : s.pool c.index ≢ s.current = (λ e. ground arith) in
      let set : s.context (s.pool c.index) ≡ true = kept c.index ne (ground arith) in ground arith
]

-- When rand() gives, after any other values, the index of a coroutine of the array that is new or
-- waiting, the current one included, which waits then, and every other coroutine of the array that
-- waits has been suspended in a co_yield, so that its context is set: co_yield of libco/co.c goes on
-- with a coroutine that is new or waiting, enters it if it is new and resumes it if it waits, as the
-- current one, which runs; and the context of the coroutine that yields is set.
pub co_yield-Choosable :
    (s : State) (front back : List ℕ) (r : ℕ)
    → 0 < s.pool_member
    → ready (suspend s) (r % s.pool_member) ≡ true
    → ((k : ℕ)
        → s.pool k ≢ s.current
        → (s.status (s.pool k) == co_waiting) ≡ true
        → s.context (s.pool k) ≡ true)
    → (co : ℕ) × (s' : State) × Choosable (suspend s) co
      × (co_yield (front ++ r ∷ back) s
          ≡ some (if (suspend s).status co == co_new then entered co else resumed co, s'))
      × (s'.current ≡ co)
      × (s'.status co ≡ co_running)
      × (s'.context s.current ≡ true)
unfolding co_yield suspend set_status
co_yield-Choosable s front back r lt e kept =
    let s1 = suspend s in
    let chosen = rand_choose-Choosable s1 front back r lt e in
    let co = chosen.0 in
    (
      co,
      record (set_status co co_running s1) { current = co },
      chosen.3,
      elim (Bool-cases (s1.status co == co_new)) [
        | inl is_new ↦ rw (chosen.2, is_new, co_yield) refl
        | inr no_new ↦
            let waits : (s1.status co == co_waiting) ≡ true =
              Choosable-waits s1 co chosen.3 no_new in
            let set : s1.context co ≡ true = Choosable-set s co kept chosen.3 waits in
            rw (chosen.2, no_new, waits, set, co_yield) refl
      ],
      refl,
      ground arith,
      ground arith,
    )
