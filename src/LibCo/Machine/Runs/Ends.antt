-- ===== src/LibCo/Machine/Runs/Ends.antt =====
-- `callback` and the ends of `co_wait` of libco/co-first.c from every machine that is reached.
use the_code_back_up_in_ubun.Base.{
  All, ℕ, ◌+◌, ◌≤◌, ◌≡◌, ◌≢◌, inl, inr, refl, sym, ap, ◌∙◌, subst, true, false, some, List, ◌==◌,
  length, update, update_other, arith, Bool-cases, Option-cases,
}
use the_code_back_up_in_ubun.LibCo.{State, co_list_head, co_waiting}
use the_code_back_up_in_ubun.LibCo.Choice.{WellFormed, Seg-some}
use the_code_back_up_in_ubun.LibCo.Removal.{erase, co_delete-erase}
use the_code_back_up_in_ubun.LibCo.Machine.{
  Machine, co_running, co_dead, set_status, unusable, choose_waiting, callback, main_returns,
  wait_resumed,
}
use the_code_back_up_in_ubun.LibCo.Machine.Erasure.{
  All-erase, erased_apart, erase-WellFormed, length-erase,
}
use the_code_back_up_in_ubun.LibCo.Machine.Good.{restatus-WellFormed, All-map}
use the_code_back_up_in_ubun.LibCo.Machine.Yields.{All-usable}
use the_code_back_up_in_ubun.LibCo.Machine.Callback.{still_waits}
use the_code_back_up_in_ubun.LibCo.Machine.Waits.{restatus-Good, discard_lem, main_returns-discard}
use the_code_back_up_in_ubun.LibCo.Machine.Runs.{In, Inv, Settled, After, All-In, All-zip}
use the_code_back_up_in_ubun.LibCo.Machine.Runs.Switches.{Switched}
use the_code_back_up_in_ubun.LibCo.Machine.Runs.Picks.{Picked, choose_waiting-Picked}

-- What is left behind the coroutine co, named n.
pub others :
    (m : Machine) (xs n : List ℕ) (co : ℕ)
    → Inv m xs
    → m.state.name co ≡ some n
    → All (λ x. (x ≢ co) × Settled m.state x) (erase m.state n xs)
others m xs n co i named =
    All-zip _ _ _ (erase m.state n xs) (λ x ne h. (λ e. ne (ap m.state.name e ∙ named), h))
      (erased_apart m.state n xs i.good.listed.named i.good.listed.own_names)
      (All-erase _ m.state n xs i.settled)

-- The machine behind a resume, for a coroutine that was picked.
Picked-Inv :
    (m : Machine) (xs n ys : List ℕ) (next : ℕ → ℕ) (q : ℕ) (s2 : State)
    → Inv m xs
    → ys ≡ erase m.state n xs
    → m.state.name m.state.current ≡ some n
    → WellFormed (record (set_status m.state.current co_dead m.state) { next = next }) ys
    → Picked (record (set_status m.state.current co_dead m.state) { next = next }) ys (q, s2)
    → Inv (record m { state = set_status q co_running (record s2 { current = q }) }) ys
Picked-Inv m xs n ys next q s2 i e named w p =
    let s1 : State = record (set_status m.state.current co_dead m.state) { next = next } in
    let good_at : Inv
        (record m {
          state = set_status q co_running (record s1 { brother = p.brother; current = q });
        })
        ys =
      record {
        good = record {
          listed =
              restatus-WellFormed s1 ys (update s1.status q co_running) p.brother q w
                (update_other s1.status co_running
                    (λ h. All-In (λ x. co_list_head ≢ x) q ys w.own.0 p.listed (sym h))
                  ∙ w.head_status)
                p.zeros;
          live = rw e (All-erase _ m.state n xs i.good.live);
          contexts = rw e (
              All-map _ _ (erase m.state n xs)
                (λ x f e'. f (still_waits m.state.status m.state.current q x e'))
                (All-erase _ m.state n xs i.good.contexts));
        };
        pool_name = i.pool_name;
        current_listed = inr p.listed;
        settled = rw e (
            All-map _ _ (erase m.state n xs) (λ x (ne, h). ground (arith, ne, h))
              (others m xs n m.state.current i named));
      } in
    subst (λ s. Inv (record m { state = set_status q co_running (record s { current = q }) }) ys)
      (sym p.state_is) good_at

-- `callback`, for the current coroutine, named n.
pub callback-Inv :
    (fuel : ℕ) (rs n : List ℕ) (m : Machine) (xs : List ℕ)
    → Inv m xs
    → In m.state.current xs
    → m.state.name m.state.current ≡ some n
    → length xs + 2 ≤ fuel
    → After (Switched (erase m.state n xs)) (callback fuel rs m)
unfolding callback
callback-Inv fuel rs n m xs i listed named enough =
    let w : WellFormed m.state xs = i.good.listed in
    let cur : ℕ = m.state.current in
    let off_head : co_list_head ≢ cur = All-In (λ x. co_list_head ≢ x) cur xs w.own.0 listed in
    let s : State = set_status cur co_dead m.state in
    let ys : List ℕ = erase m.state n xs in
    let w1 : WellFormed s xs =
      restatus-WellFormed m.state xs s.status m.state.brother cur w
        (update_other m.state.status co_dead (λ h. off_head (sym h)) ∙ w.head_status) w.no_pool in
    let (next, deleted, seg) =
      co_delete-erase fuel s cur n xs named w.listed w.own w.named (omega arith) in
    let s1 : State = record s { next = next } in
    let w2 : WellFormed s1 ys = erase-WellFormed s n xs next w1 seg in
    let picked =
      choose_waiting-Picked fuel rs s1 ys n w2 i.pool_name named
        (omega (arith, length-erase m.state n xs)) in
    elim (Option-cases (choose_waiting fuel rs s1)) [
      | inl e ↦ rw (deleted, callback) (rw e tt)
      | inr ((q, s2), e) ↦
          let p : Picked s1 ys (q, s2) = subst (After (Picked s1 ys)) e picked in
          elim (Bool-cases (s2.status q == co_waiting)) [
            | inl waits ↦ elim (Option-cases (m.context q)) [
              | inl none_there ↦ rw (deleted, callback) (rw e (rw waits (rw none_there tt)))
              | inr (point, there) ↦
                  rw (deleted, callback)
                    (rw e (rw waits (rw there (Picked-Inv m xs n ys next q s2 i refl named w2 p))))
            ]
            | inr other ↦ rw (deleted, callback) (rw e (rw other tt))
          ]
    ]

-- The end of the main program's wait for a coroutine that it called.
pub returned-Inv :
    (fuel co : ℕ) (n : List ℕ) (m : Machine) (xs : List ℕ)
    → Inv m xs
    → In co xs
    → m.state.current ≡ co
    → m.state.name co ≡ some n
    → length xs + 2 ≤ fuel
    → (m' : Machine) × (main_returns fuel co m ≡ some m') × Inv m' (erase m.state n xs)
returned-Inv fuel co n m xs i listed cur named enough =
    let w : WellFormed m.state xs = i.good.listed in
    let off_head : co_list_head ≢ co = All-In (λ x. co_list_head ≢ x) co xs w.own.0 listed in
    let usable : unusable m co ≡ false =
      All-In (λ x. unusable m x ≡ false) co xs
        (All-usable m xs (Seg-some m.state.next _ xs w.listed) i.good.live) listed in
    let status : ℕ → ℕ = update (update m.state.status m.state.current co_dead) co co_dead in
    let g1 =
      restatus-Good m xs status 0 i.good (ground (arith, off_head, w.head_status))
        (λ x h. ground arith) in
    let (next, run, g2) =
      discard_lem fuel co (record m { state = record m.state { status = status; current = 0 } }) xs
        n g1 usable named enough in
    (
      _,
      main_returns-discard fuel co m (rw cur usable) ∙ run,
      record {
        good = g2;
        pool_name = i.pool_name;
        current_listed = inl refl;
        settled =
            All-map _ _ (erase m.state n xs) (λ x (ne, h). ground (arith, ne, h, cur))
              (others m xs n co i named);
      },
    )

-- The end of its wait for a coroutine that waited.
pub resumed-Inv :
    (fuel co : ℕ) (n : List ℕ) (m : Machine) (xs : List ℕ)
    → Inv m xs
    → In co xs
    → m.state.current ≡ co
    → m.state.name co ≡ some n
    → length xs + 2 ≤ fuel
    → (m' : Machine) × (wait_resumed fuel co m ≡ some m') × Inv m' (erase m.state n xs)
unfolding wait_resumed
resumed-Inv fuel co n m xs i listed cur named enough =
    let w : WellFormed m.state xs = i.good.listed in
    let usable : unusable m co ≡ false =
      All-In (λ x. unusable m x ≡ false) co xs
        (All-usable m xs (Seg-some m.state.next _ xs w.listed) i.good.live) listed in
    let (next, run, g) = discard_lem fuel co m xs n i.good usable named enough in
    (
      _,
      rw (run, wait_resumed) refl,
      record {
        good =
            restatus-Good
              (record m { state = record m.state { next = next }; freed = update m.freed co true })
              (erase m.state n xs) m.state.status 0 g w.head_status (λ x h. h);
        pool_name = i.pool_name;
        current_listed = inl refl;
        settled =
            All-map _ _ (erase m.state n xs) (λ x (ne, h). ground (arith, ne, h, cur))
              (others m xs n co i named);
      },
    )
