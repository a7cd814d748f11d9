-- ===== src/LibCo/Machine/Runs/Switches.antt =====
-- `co_yield` and `co_wait` of libco/co-first.c from every machine that is reached.
use the_code_back_up_in_ubun.Base.{
  All, ℕ, ◌+◌, ◌<◌, ◌≤◌, ◌≡◌, ◌≢◌, ◌⊎◌, inl, inr, refl, sym, ◌∙◌, false, some, List, ◌==◌, length,
  update, update_other, arith, Bool-cases,
}
use the_code_back_up_in_ubun.LibCo.{State, co_list_head, co_new, co_waiting, ready}
use the_code_back_up_in_ubun.LibCo.Names.{Named}
use the_code_back_up_in_ubun.LibCo.Choice.{WellFormed, pool_of, Seg-some}
use the_code_back_up_in_ubun.LibCo.Machine.{
  Machine, Point, Control, calls, enters, resumes, co_running, set_status, saved, unusable,
  co_yield, co_wait, in_wait,
}
use the_code_back_up_in_ubun.LibCo.Machine.Good.{restatus-WellFormed, All-map, chosen_lem, Chosen}
use the_code_back_up_in_ubun.LibCo.Machine.Yields.{
  All-usable, context_lem, switch_to-new, switch_to-waiting, co_yield-switch_to,
}
use the_code_back_up_in_ubun.LibCo.Machine.Waits.{restatus-Good}
use the_code_back_up_in_ubun.LibCo.Machine.Lost.{co_wait-co_yield}
use the_code_back_up_in_ubun.LibCo.Machine.Runs.{
  In, Inv, Settled, In-All, All-In, All-zip, keep-some,
}

-- What a switch leaves.
abbrev pub Switched : List ℕ → Control × Machine → Type 0
Switched xs (c, m) = Inv m xs

module _ (m : Machine) (xs : List ℕ) (i : Inv m xs) (point : Point) (fuel r q : ℕ) (b : ℕ → ℕ) where
  abbrev s1 : State
  s1 = (saved point m).state

  module _ (h : Chosen fuel r s1 xs q b) (off_head : co_list_head ≢ m.state.current) where
    good_for :
        (status : ℕ → ℕ)
        → status co_list_head ≡ 0
        → ((x : ℕ) → x ≢ m.state.current → status x ≡ co_waiting → m.state.status x ≡ co_waiting)
        → ((x : ℕ)
            → Settled m.state x
            → Settled (record s1 { brother = b; current = q; status = status }) x)
        → Inv
            (record (saved point m) {
              state = record s1 { brother = b; current = q; status = status };
            })
            xs
    good_for status e f g = record {
      good = record {
        listed = restatus-WellFormed m.state xs status b q i.good.listed e h.zeros;
        live = i.good.live;
        contexts = All-map _ _ xs (λ x. context_lem m point (status x) x (f x)) i.good.contexts;
      };
      pool_name = i.pool_name;
      current_listed = inr (In-All q xs (λ P. h.in_list P));
      settled = All-map _ _ xs g i.settled;
    }

-- `co_yield`, called for a coroutine of the list, never fails.
pub yield-Inv :
    (fuel r : ℕ) (point : Point) (m : Machine) (xs : List ℕ)
    → Inv m xs
    → In m.state.current xs
    → length xs + 2 ≤ fuel
    → (c : Control) × (m' : Machine) × (co_yield fuel r point m ≡ some (c, m'))
      × Inv m' xs
      × In m'.state.current xs
yield-Inv fuel r point m xs i listed enough =
    let s1 : State = (saved point m).state in
    let cur : ℕ = m.state.current in
    let w : WellFormed m.state xs = i.good.listed in
    let off_head : co_list_head ≢ cur = All-In (λ x. co_list_head ≢ x) cur xs w.own.0 listed in
    let usable : unusable m cur ≡ false =
      All-In (λ x. unusable m x ≡ false) cur xs
        (All-usable m xs (Seg-some m.state.next _ xs w.listed) i.good.live) listed in
    let (n, named) = All-In (Named m.state) cur xs w.named listed in
    let w1 : WellFormed s1 xs =
      restatus-WellFormed m.state xs s1.status m.state.brother cur w
        (update_other m.state.status co_waiting (λ h. off_head (sym h)) ∙ w.head_status)
        w.no_pool in
    let some_ready : 0 < length (pool_of s1 xs) =
      keep-some (ready s1) cur xs listed (ground arith) in
    let (q, b, h) = chosen_lem fuel r s1 xs n w1 named some_ready enough in
    elim (Bool-cases (s1.status q == co_new)) [
      | inl found ↦ (
        enters q,
        record (saved point m) { state = record s1 { brother = b; current = q } },
        co_yield-switch_to fuel r q point m _ usable h.run
            ∙ switch_to-new q _ (saved point m) (ground arith),
        good_for m xs i point fuel r q b h off_head s1.status (ground (arith, w.head_status))
            (λ x ne e. ground arith) (λ x h. ground (arith, h)),
        In-All q xs (λ P. h.in_list P),
      )
      | inr found ↦
          let status : ℕ → ℕ = update s1.status q co_running in
          let waits : s1.status q ≡ co_waiting = ground (arith, h.is_ready) in
          let (point', e') =
            context_lem m point (s1.status q) q (λ ne e. ground arith) (h.in_list _ i.good.contexts)
              waits in
          (
            resumes point',
            record (saved point m) {
              state = record s1 { brother = b; current = q; status = status };
            },
            co_yield-switch_to fuel r q point m _ usable h.run
                ∙ switch_to-waiting q _ (saved point m) point' waits e',
            good_for m xs i point fuel r q b h off_head status
                (ground (arith, w.head_status, h.in_list (λ x. co_list_head ≢ x) w.own.0))
                (λ x ne e. ground arith) (λ x h. ground (arith, h)),
            In-All q xs (λ P. h.in_list P),
          )
    ]

-- With another current coroutine in place of none.
called :
    (m : Machine) (xs : List ℕ) (status : ℕ → ℕ) (co : ℕ)
    → Inv m xs
    → m.state.current ≡ 0
    → ((x : ℕ) → x ≢ co → status x ≡ m.state.status x)
    → All (Settled (record m.state { status = status; current = co })) xs
called m xs status co i main_runs f =
    All-zip _ _ _ xs
      (λ x h some_x. elim (Bool-cases (x == co)) [
        | inl same ↦ inr (inr (ground arith))
        | inr other ↦ let e = f x (ground arith) in ground (arith, h)
      ])
      i.settled (Seg-some m.state.next _ xs i.good.listed.listed)

-- `co_wait` of the main program, for a coroutine of the list.
pub wait-Inv :
    (fuel r co : ℕ) (m : Machine) (xs : List ℕ)
    → Inv m xs
    → m.state.current ≡ 0
    → In co xs
    → length xs + 2 ≤ fuel
    → (c : Control) × (m' : Machine) × (co_wait fuel r co m ≡ some (c, m'))
      × Inv m' xs
      × In m'.state.current xs
unfolding co_wait
wait-Inv fuel r co m xs i main_runs listed enough =
    let w : WellFormed m.state xs = i.good.listed in
    let live : m.freed co ≡ false = All-In (λ x. m.freed x ≡ false) co xs i.good.live listed in
    let off_head : co_list_head ≢ co = All-In (λ x. co_list_head ≢ x) co xs w.own.0 listed in
    let some_co : co ≢ 0 = All-In (λ x. x ≢ 0) co xs (Seg-some m.state.next _ xs w.listed) listed in
    let status : (m.state.status co ≡ co_new) ⊎ (m.state.status co ≡ co_waiting) =
      ground (arith, All-In (Settled m.state) co xs i.settled listed) in
    elim status [
      | inl fresh ↦ (
        calls co,
        record m { state = set_status co co_running (record m.state { current = co }) },
        ground arith,
        record {
          good =
              restatus-Good m xs (update m.state.status co co_running) co i.good
                (update_other m.state.status co_running (λ h. off_head (sym h)) ∙ w.head_status)
                (λ x h. ground arith);
          pool_name = i.pool_name;
          current_listed = inr listed;
          settled =
              called m xs (update m.state.status co co_running) co i main_runs
                (λ x ne. update_other m.state.status co_running (λ h. ne (sym h)));
        },
        listed,
      )
      | inr waits ↦
          let m0 : Machine = record m { state = record m.state { current = co } } in
          let (c, m', run, i', on) =
            yield-Inv fuel r (in_wait co) m0 xs
              (record {
                good = restatus-Good m xs m.state.status co i.good w.head_status (λ x h. h);
                pool_name = i.pool_name;
                current_listed = inr listed;
                settled = called m xs m.state.status co i main_runs (λ x ne. refl);
              })
              listed enough in
          (c, m', co_wait-co_yield fuel r co m main_runs waits live ∙ run, i', on)
    ]
