-- ===== src/LibCo/Machine/Lost.antt =====
-- What `co_wait` of libco/co-first.c loses: freed blocks that stay current, contexts that are
-- overwritten, and functions that begin again.
use the_code_back_up_in_ubun.Base.{
  ℕ, ◌+◌, ◌<◌, ◌≤◌, ◌≡◌, ◌≢◌, refl, sym, ◌∙◌, Bool, true, false, ◌||◌, none, some, List, [], ◌∷◌,
  ◌==◌, length, get_or, keep, update, arith,
}
use the_code_back_up_in_ubun.LibCo.{ready, co_new, co_waiting}
use the_code_back_up_in_ubun.LibCo.Choice.{pool_of}
use the_code_back_up_in_ubun.LibCo.Machine.{
  Machine, Point, in_wait, Control, calls, back, co_running, co_dead, set_status, saved, unusable,
  co_wait, co_yield,
}
use the_code_back_up_in_ubun.LibCo.Machine.Good.{Good}
use the_code_back_up_in_ubun.LibCo.Machine.Yields.{co_yield_lem}
use the_code_back_up_in_ubun.LibCo.Machine.Waits.{restatus-Good, at_k-usable}

-- If the program waits for a coroutine that is dead already, the freed coroutine is the current one
-- from then on: the next wait, for any coroutine that is not dead, writes to it, and so does the
-- next yield.
pub dead_wait_dangles :
    (fuel r co : ℕ) (m : Machine)
    → m.freed co ≡ false
    → m.state.status co ≡ co_dead
    → co ≢ 0
    → (m' : Machine) × (co_wait fuel r co m ≡ some (back, m'))
      × ((r' co' : ℕ) → m.state.status co' ≢ co_dead → co_wait fuel r' co' m' ≡ none)
      × ((r' : ℕ) (point : Point) → co_yield fuel r' point m' ≡ none)
unfolding co_wait co_yield
dead_wait_dangles fuel r co m live dead some_co = (
  record m { state = record m.state { current = co }; freed = update m.freed co true },
  ground arith,
  (λ r' co' ne. ground arith),
  (λ r' point. ground arith),
)

-- If a coroutine waits for one that has begun and waits itself, that one's function is called again
-- from its beginning.
pub nested_wait_restarts :
    (fuel r co : ℕ) (m : Machine)
    → unusable m m.state.current ≡ false
    → m.freed co ≡ false
    → m.state.status co ≡ co_waiting
    → (m' : Machine) × (co_wait fuel r co m ≡ some (calls co, m'))
      × (m'.state.current ≡ co)
      × (m'.context ≡ m.context)
unfolding co_wait
nested_wait_restarts fuel r co m usable live waits = (
  record m {
    state =
        set_status co co_running
          (record (set_status m.state.current co_waiting m.state) { current = co });
  },
  ground arith,
  refl,
  refl,
)

keep-same : (f f' : ℕ → Bool) (xs : List ℕ) → ((x : ℕ) → f x ≡ f' x) → keep f xs ≡ keep f' xs
keep-same f f' [] h = refl
keep-same f f' (x ∷ xs) h = rw (h x) (rw (keep-same f f' xs h) refl)

rewaits :
    (status : ℕ → ℕ) (co : ℕ)
    → status co ≡ co_waiting
    → (x : ℕ)
    → ((update status co co_waiting x == co_new) || (update status co co_waiting x == co_waiting))
      ≡ ((status x == co_new) || (status x == co_waiting))
rewaits status co e x = ground arith

unusable_live : (m : Machine) (co : ℕ) → unusable m co ≡ false → m.freed co ≡ false
unusable_live m co e = ground arith

pub co_wait-co_yield :
    (fuel r co : ℕ) (m : Machine)
    → m.state.current ≡ 0
    → m.state.status co ≡ co_waiting
    → m.freed co ≡ false
    → co_wait fuel r co m
      ≡ co_yield fuel r (in_wait co) (record m { state = record m.state { current = co } })
unfolding co_wait
co_wait-co_yield fuel r co m e e' live = rw (live, co_wait) (rw e' (rw e refl))

-- The coroutine that the program waits for, at k in the list.
module _ (fuel k : ℕ) (m : Machine) (xs : List ℕ) (g : Good m xs) (lt : k < length xs) where
  -- When the main program waits for a coroutine of a well-formed list that waits itself, while
  -- another one is new or waiting, the context of the first is replaced by that of the wait: what
  -- was left of its function is lost.
  pub waiting_wait_replaces :
      (r co : ℕ) (point : Point)
      → get_or xs k 0 ≡ co
      → m.state.current ≡ 0
      → m.state.status co ≡ co_waiting
      → m.context co ≡ some point
      → 2 ≤ length (pool_of m.state xs)
      → length xs + 2 ≤ fuel
      → (c : Control) × (m' : Machine) × (co_wait fuel r co m ≡ some (c, m'))
        × (m'.context co ≡ some (in_wait co))
        × (m'.state.current ≢ co)
  waiting_wait_replaces r co point e main_runs waits was two enough =
      let m1 : Machine = record m { state = record m.state { current = co } } in
      let g1 : Good m1 xs =
        restatus-Good m xs m.state.status co g g.listed.head_status (λ x h. h) in
      let same_pool : pool_of (saved (in_wait co) m1).state xs ≡ pool_of m.state xs =
        keep-same (ready (saved (in_wait co) m1).state) (ready m.state) xs
          (rewaits m.state.status co waits) in
      let (q, (c, m', run, y, g')) =
        co_yield_lem fuel r k (in_wait co) m1 xs g1 lt e (rw same_pool two) enough in
      (
        c,
        m',
        co_wait-co_yield fuel r co m main_runs waits
              (unusable_live m co (at_k-usable fuel k m xs g lt co e))
            ∙ run,
        y.kept,
        (λ h. y.another (sym y.current ∙ h)),
      )
