-- ===== src/LibCo/Machine/Runs/Safe.antt =====
-- The invariant of every machine that is reached, and what it lets the program do.
use the_code_back_up_in_ubun.Base.{
  ℕ, ◌+◌, ◌≤◌, ◌≡◌, ◌≢◌, inl, inr, sym, ◌∙◌, subst, false, some, List, [], ◌∷◌, ◌++◌, length,
  update, All, arith, get_or, refl, ◌<◌,
}
use the_code_back_up_in_ubun.LibCo.Removal.{erase}
use the_code_back_up_in_ubun.LibCo.Choice.{pool_of}
use the_code_back_up_in_ubun.LibCo.{State, co_new, ready}
use the_code_back_up_in_ubun.LibCo.Machine.Callback.{Left, callback_lem}
use the_code_back_up_in_ubun.LibCo.Machine.{
  Machine, Point, resumes, callback, set_status, co_dead, Control, in_function, co_wait, co_yield,
}
use the_code_back_up_in_ubun.LibCo.Machine.Runs.{
  In, AtStart, Reached, boot, start, wait, yield, ended, returned, resumed, Inv, After, All-In,
  keep-some,
}
use the_code_back_up_in_ubun.LibCo.Machine.Runs.Starts.{start-Inv}
use the_code_back_up_in_ubun.LibCo.Machine.Runs.Switches.{Switched, yield-Inv, wait-Inv}
use the_code_back_up_in_ubun.LibCo.Machine.Runs.Ends.{
  others, callback-Inv, returned-Inv, resumed-Inv,
}

boot-Inv : (m : Machine) → AtStart m → Inv m []
boot-Inv m a = record {
  good = record {
    listed = record {
      listed = a.no_list;
      own = (tt, tt);
      off_pool = tt;
      head_status = a.head_status;
      no_pool = a.no_pool;
      named = tt;
      own_names = tt;
    };
    live = tt;
    contexts = tt;
  };
  pool_name = a.pool_name;
  current_listed = inl a.main_runs;
  settled = tt;
}

-- A current coroutine is in the list.
current-In : (m : Machine) (xs : List ℕ) → Inv m xs → m.state.current ≢ 0 → In m.state.current xs
current-In m xs i ne = elim i.current_listed [ inl e ↦ absurd (ne e) | inr listed ↦ listed ]

called-In :
    (m : Machine) (co : ℕ) (xs : List ℕ) → Inv m xs → m.state.current ≡ co → co ≢ 0 → In co xs
called-In m co xs i cur ne = subst (λ x. In x xs) cur (current-In m xs i (λ e. ne (sym cur ∙ e)))

-- For programs that call co_start only with a name of less than 32 bytes that no coroutine of the
-- list has then, which co_start does not check. In every machine that their calls of
-- libco/co-first.c lead to from the start on, through co_start, waits of the main program for
-- coroutines of the list, yields, and returns of functions: the list is well formed, its coroutines
-- are not freed, each but the current one is new or waits, each that waits has a context, the pool
-- is empty, and the current coroutine, if there is one, is in the list.
pub Reached-Inv : (m : Machine) (xs : List ℕ) → Reached m xs → Inv m xs
Reached-Inv _ _ (boot m a) = boot-Inv m a
Reached-Inv _ _ (start fuel p name m s xs r a b c d e f g run) =
    let (s', run', i) = start-Inv fuel p name m xs (Reached-Inv m xs r) a b c d e f g in
    subst
      (After (λ s''. Inv (record m { state = s''; freed = update m.freed p false }) (xs ++ p ∷ [])))
      (sym run' ∙ run) i
Reached-Inv _ _ (wait fuel r co c m m' xs h main_runs listed enough run) =
    let (c', m'', run', i, _) =
      wait-Inv fuel r co m xs (Reached-Inv m xs h) main_runs listed enough in
    subst (After (Switched xs)) (sym run' ∙ run) i
Reached-Inv _ _ (yield fuel r c m m' xs h ne enough run) =
    let i0 = Reached-Inv m xs h in
    let (c', m'', run', i, _) =
      yield-Inv fuel r (in_function m.state.current) m xs i0 (current-In m xs i0 ne) enough in
    subst (After (Switched xs)) (sym run' ∙ run) i
Reached-Inv _ _ (ended fuel rs n c m m' xs h ne named enough run) =
    let i0 = Reached-Inv m xs h in
    subst (After (Switched _)) run
      (callback-Inv fuel rs n m xs i0 (current-In m xs i0 ne) named enough)
Reached-Inv _ _ (returned fuel co n m m' xs h cur ne named enough run) =
    let i0 = Reached-Inv m xs h in
    let (m'', run', i) =
      returned-Inv fuel co n m xs i0 (called-In m co xs i0 cur ne) cur named enough in
    subst (After (λ m1. Inv m1 (erase m.state n xs))) (sym run' ∙ run) i
Reached-Inv _ _ (resumed fuel co n m m' xs h cur ne named enough run) =
    let i0 = Reached-Inv m xs h in
    let (m'', run', i) =
      resumed-Inv fuel co n m xs i0 (called-In m co xs i0 cur ne) cur named enough in
    subst (After (λ m1. Inv m1 (erase m.state n xs))) (sym run' ∙ run) i

-- For programs that call co_start only with a name of less than 32 bytes that no coroutine of the
-- list has then, which co_start does not check. In every machine that their calls lead to with a
-- current coroutine, its co_yield goes on with a coroutine of the list, in such a machine again.
pub yield-Reached :
    (fuel r : ℕ) (m : Machine) (xs : List ℕ)
    → Reached m xs
    → m.state.current ≢ 0
    → length xs + 2 ≤ fuel
    → (c : Control) × (m' : Machine) × (co_yield fuel r (in_function m.state.current) m
        ≡ some (c, m'))
      × Reached m' xs
      × In m'.state.current xs
yield-Reached fuel r m xs h ne enough =
    let i = Reached-Inv m xs h in
    let (c, m', run, i', listed) =
      yield-Inv fuel r (in_function m.state.current) m xs i (current-In m xs i ne) enough in
    (c, m', run, yield fuel r c m m' xs h ne enough run, listed)

-- For programs that call co_start only with a name of less than 32 bytes that no coroutine of the
-- list has then, which co_start does not check. In every machine that their calls lead to without a
-- current coroutine, the main program's co_wait for any coroutine of the list goes on with one of
-- the list, in such a machine again.
pub wait-Reached :
    (fuel r co : ℕ) (m : Machine) (xs : List ℕ)
    → Reached m xs
    → m.state.current ≡ 0
    → In co xs
    → length xs + 2 ≤ fuel
    → (c : Control) × (m' : Machine) × (co_wait fuel r co m ≡ some (c, m'))
      × Reached m' xs
      × In m'.state.current xs
wait-Reached fuel r co m xs h main_runs listed enough =
    let (c, m', run, i', on) =
      wait-Inv fuel r co m xs (Reached-Inv m xs h) main_runs listed enough in
    (c, m', run, wait fuel r co c m m' xs h main_runs listed enough run, on)

-- What is left behind the current coroutine waits, if it is not new: the next choice has one.
rest_ready :
    (m : Machine) (xs n : List ℕ)
    → Inv m xs
    → m.state.name m.state.current ≡ some n
    → All (λ x. m.state.status x ≢ co_new) (erase m.state n xs)
    → 0 < length (erase m.state n xs)
    → 0 < length (pool_of (set_status m.state.current co_dead m.state) (erase m.state n xs))
rest_ready m xs n i named old some_node =
    let ys : List ℕ = erase m.state n xs in
    let s : State = set_status m.state.current co_dead m.state in
    let first : In (get_or ys 0 0) ys = (0, some_node, refl) in
    let (ne, h) = All-In _ (get_or ys 0 0) ys (others m xs n m.state.current i named) first in
    let ne' = All-In _ (get_or ys 0 0) ys old first in
    keep-some (ready s) (get_or ys 0 0) ys first (ground (arith, ne, ne', h))

-- For programs that call co_start only with a name of less than 32 bytes that no coroutine of the
-- list has then, which co_start does not check. In every machine that their calls lead to, when the
-- function of the current coroutine returns on its own stack, while there are others and none of
-- them is new: callback takes the current one out of the list, as dead, and resumes another one,
-- which waits, where it was saved, in such a machine again.
pub callback-Reached :
    (fuel r : ℕ) (rs n : List ℕ) (m : Machine) (xs : List ℕ)
    → Reached m xs
    → m.state.current ≢ 0
    → m.state.name m.state.current ≡ some n
    → All (λ x. m.state.status x ≢ co_new) (erase m.state n xs)
    → 0 < length (erase m.state n xs)
    → length xs + 2 ≤ fuel
    → (q : ℕ) × (point : Point) × (m' : Machine) × (callback fuel (r ∷ rs) m
        ≡ some (resumes point, m'))
      × Left m (erase m.state n xs) q point m'
      × Reached m' (erase m.state n xs)
callback-Reached fuel r rs n m xs h ne named old some_node enough =
    let i = Reached-Inv m xs h in
    let (k, lt, e) = current-In m xs i ne in
    let (q, point, m', run, left) =
      callback_lem fuel r k rs m xs n i.good lt e named old
        (rest_ready m xs n i named old some_node) enough in
    (q, point, m', run, left, ended fuel (r ∷ rs) n (resumes point) m m' xs h ne named enough run)
