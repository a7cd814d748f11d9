-- ===== src/LibCo/Machine/Yields.antt =====
-- `co_yield` of libco/co-first.c hands over to another coroutine, and keeps the list in order.
use the_code_back_up_in_ubun.Base.{
  ℕ, ◌+◌, ◌<◌, ◌≤◌, ◌≡◌, ◌≢◌, refl, sym, subst, ◌∙◌, false, ◌⊎◌, inl, inr, some, List, [], ◌∷◌,
  ◌==◌, length, get_or, All, update, update_self, update_other, arith, Bool-cases,
}
use the_code_back_up_in_ubun.LibCo.{State, co_list_head, co_new, co_waiting, rand_choose}
use the_code_back_up_in_ubun.LibCo.Names.{Named, All-get_or}
use the_code_back_up_in_ubun.LibCo.Choice.{WellFormed, pool_of, Seg-some}
use the_code_back_up_in_ubun.LibCo.Machine.{
  Machine, Point, Control, enters, resumes, co_running, set_status, saved, switch_to, unusable,
  co_yield,
}
use the_code_back_up_in_ubun.LibCo.Machine.Good.{
  Good, restatus-WellFormed, All-map, Chosen, chosen_lem,
}

-- What `co_yield` has done when control leaves it: q is the coroutine that goes on.
pub record Yielded (m : Machine) (point : Point) (q : ℕ) (c : Control) (m' : Machine) : Type 0 where
  pub current : m'.state.current ≡ q
  pub another : q ≢ m.state.current
  pub control :
      (m.state.status q ≡ co_new) × (c ≡ enters q) × (m'.state.status q ≡ co_new)
      ⊎ (m.state.status q ≡ co_waiting)
        × (m'.state.status q ≡ co_running)
        × ((point' : Point) × (m.context q ≡ some point') × (c ≡ resumes point'))
  pub left : m'.state.status m.state.current ≡ co_waiting
  pub others : (p : ℕ) → p ≢ m.state.current → p ≢ q → m'.state.status p ≡ m.state.status p
  pub kept : m'.context m.state.current ≡ some point
  pub other_contexts : (p : ℕ) → p ≢ m.state.current → m'.context p ≡ m.context p

pub switch_to-new :
    (q : ℕ) (s : State) (m : Machine)
    → s.status q ≡ co_new
    → switch_to q s m ≡ some (enters q, record m { state = record s { current = q } })
unfolding switch_to
switch_to-new q s m e = rw (e, switch_to) refl

pub switch_to-waiting :
    (q : ℕ) (s : State) (m : Machine) (point : Point)
    → s.status q ≡ co_waiting
    → m.context q ≡ some point
    → switch_to q s m
      ≡ some
          (resumes point, record m { state = set_status q co_running (record s { current = q }) })
unfolding switch_to
switch_to-waiting q s m point e e' = rw (e, switch_to) (rw e' refl)

pub co_yield-switch_to :
    (fuel r q : ℕ) (point : Point) (m : Machine) (s : State)
    → unusable m m.state.current ≡ false
    → rand_choose fuel r (saved point m).state ≡ some (q, s)
    → co_yield fuel r point m ≡ switch_to q s (saved point m)
unfolding co_yield
co_yield-switch_to fuel r q point m s e e' = rw (e, co_yield) (rw e' refl)

-- A context for x in the new machine, where status' is its status there.
pub context_lem :
    (m : Machine) (point : Point) (status' x : ℕ)
    → (x ≢ m.state.current → status' ≡ co_waiting → m.state.status x ≡ co_waiting)
    → (m.state.status x ≡ co_waiting → (point' : Point) × (m.context x ≡ some point'))
    → status' ≡ co_waiting
    → (point' : Point) × (update m.context m.state.current (some point) x ≡ some point')
context_lem m point status' x f h e = elim (Bool-cases (m.state.current == x)) [
  | inl found ↦ (point, rw found refl)
  | inr found ↦ let (point', e') = h (f (ground arith) e) in (point', rw found e')
]

module _ (m : Machine) (xs : List ℕ) (g : Good m xs) (point : Point) (fuel r q : ℕ)
    (b : ℕ → ℕ) where
  abbrev s1 : State
  s1 = (saved point m).state

  entered :
      Chosen fuel r s1 xs q b
      → 2 ≤ length (pool_of s1 xs)
      → unusable m m.state.current ≡ false
      → co_list_head ≢ m.state.current
      → s1.status q ≡ co_new
      → (c : Control) × (m' : Machine) × (co_yield fuel r point m ≡ some (c, m'))
        × Yielded m point q c m'
        × Good m' xs
  entered h two usable off_head e =
      let another = h.another two in
      (
        enters q,
        record (saved point m) { state = record s1 { brother = b; current = q } },
        co_yield-switch_to fuel r q point m _ usable h.run ∙ switch_to-new q _ (saved point m) e,
        record {
          current = refl;
          another = another;
          control = inl (ground arith, refl, e);
          left = update_self m.state.status m.state.current co_waiting;
          others = λ p ne ne'. update_other m.state.status co_waiting (λ h. ne (sym h));
          kept = update_self m.context m.state.current (some point);
          other_contexts = λ p ne. update_other m.context (some point) (λ h. ne (sym h));
        },
        record {
          listed =
              restatus-WellFormed m.state xs s1.status b q g.listed
                (update_other m.state.status co_waiting (λ h. off_head (sym h))
                  ∙ g.listed.head_status)
                h.zeros;
          live = g.live;
          contexts =
              All-map _ _ xs (λ x. context_lem m point (s1.status x) x (λ ne e'. ground arith))
                g.contexts;
        },
      )

  resumed :
      Chosen fuel r s1 xs q b
      → 2 ≤ length (pool_of s1 xs)
      → unusable m m.state.current ≡ false
      → co_list_head ≢ m.state.current
      → co_list_head ≢ q
      → s1.status q ≡ co_waiting
      → (c : Control) × (m' : Machine) × (co_yield fuel r point m ≡ some (c, m'))
        × Yielded m point q c m'
        × Good m' xs
  resumed h two usable off_head off_head' e =
      let another = h.another two in
      let status : ℕ → ℕ = update s1.status q co_running in
      let waits : m.state.status q ≡ co_waiting = ground arith in
      let (point', e') = h.in_list _ g.contexts waits in
      (
        resumes point',
        record (saved point m) { state = record s1 { brother = b; current = q; status = status } },
        co_yield-switch_to fuel r q point m _ usable h.run
            ∙ switch_to-waiting q _ (saved point m) point' e
                (update_other m.context (some point) (λ h. another (sym h)) ∙ e'),
        record {
          current = refl;
          another = another;
          control = inr (waits, update_self s1.status q co_running, (point', e', refl));
          left = ground arith;
          others = λ p ne ne'. ground arith;
          kept = update_self m.context m.state.current (some point);
          other_contexts = λ p ne. update_other m.context (some point) (λ h. ne (sym h));
        },
        record {
          listed =
              restatus-WellFormed m.state xs status b q g.listed
                (ground (arith, g.listed.head_status)) h.zeros;
          live = g.live;
          contexts =
              All-map _ _ xs (λ x. context_lem m point (status x) x (λ ne e'. ground arith))
                g.contexts;
        },
      )

pub All-usable :
    (m : Machine) (xs : List ℕ)
    → All (λ x. x ≢ 0) xs
    → All (λ x. m.freed x ≡ false) xs
    → All (λ x. unusable m x ≡ false) xs
All-usable m [] h h' = tt
All-usable m (x ∷ xs) (a, h) (b, h') = (ground arith, All-usable m xs h h')

-- On a well-formed list of coroutines that are not freed, each with a context if it waits, with the
-- current one in it: if there is another one that is new or waiting, `co_yield` goes on with
-- such a one, which it enters if it is new and resumes where it was saved if it waits. The current
-- one waits then, and its point is kept; no other status or context is changed, and the list is
-- as it was.
pub co_yield_lem :
    (fuel r k : ℕ) (point : Point) (m : Machine) (xs : List ℕ)
    → Good m xs
    → k < length xs
    → get_or xs k 0 ≡ m.state.current
    → 2 ≤ length (pool_of (saved point m).state xs)
    → length xs + 2 ≤ fuel
    → (q : ℕ) × ((c : Control) × (m' : Machine) × (co_yield fuel r point m ≡ some (c, m'))
        × Yielded m point q c m'
        × Good m' xs)
co_yield_lem fuel r k point m xs g lt e two enough =
    let s1 : State = (saved point m).state in
    let cur : ℕ = m.state.current in
    let w : WellFormed m.state xs = g.listed in
    let off_head : co_list_head ≢ cur =
      subst (λ x. co_list_head ≢ x) e (All-get_or (λ x. co_list_head ≢ x) xs k w.own.0 lt) in
    let usable : unusable m cur ≡ false =
      subst (λ x. unusable m x ≡ false) e
        (All-get_or (λ x. unusable m x ≡ false) xs k
          (All-usable m xs (Seg-some m.state.next _ xs w.listed) g.live) lt) in
    let (n, named) = subst (Named m.state) e (All-get_or (Named m.state) xs k w.named lt) in
    let w1 : WellFormed s1 xs =
      restatus-WellFormed m.state xs s1.status m.state.brother cur w
        (update_other m.state.status co_waiting (λ h. off_head (sym h)) ∙ w.head_status)
        w.no_pool in
    let (q, b, h) = chosen_lem fuel r s1 xs n w1 named (omega arith) enough in
    (
      q,
      elim (Bool-cases (s1.status q == co_new)) [
        | inl found ↦ entered m xs g point fuel r q b h two usable off_head (ground arith)
        | inr found ↦
            resumed m xs g point fuel r q b h two usable off_head
              (h.in_list (λ x. co_list_head ≢ x) w.own.0) (ground (arith, h.is_ready))
      ],
    )
