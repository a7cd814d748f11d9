-- ===== src/LibCo/Machine/Callback.antt =====
-- `callback` of libco/co-first.c: a coroutine that was entered ends, and another one goes on.
use the_code_back_up_in_ubun.Base.{
  ℕ, ◌+◌, ◌<◌, ◌≤◌, ◌≡◌, ◌≢◌, refl, sym, subst, ◌∙◌, ap, false, inl, inr, some, List, ◌∷◌, ◌==◌,
  length, get_or, All, update, update_self, update_other, arith, Bool-cases,
}
use the_code_back_up_in_ubun.CString.{same}
use the_code_back_up_in_ubun.Sperf.Profile.{same-eq}
use the_code_back_up_in_ubun.LibCo.{
  State, co_list_head, co_new, co_waiting, rand_choose, same_name, co_delete,
}
use the_code_back_up_in_ubun.LibCo.Names.{Named, All-get_or}
use the_code_back_up_in_ubun.LibCo.Choice.{WellFormed, pool_of, same_name-some}
use the_code_back_up_in_ubun.LibCo.Removal.{erase, co_delete-erase}
use the_code_back_up_in_ubun.LibCo.Machine.{
  Machine, Point, resumes, co_running, co_dead, set_status, choose_waiting, callback,
}
use the_code_back_up_in_ubun.LibCo.Machine.Good.{Good, restatus-WellFormed, All-map, chosen_lem}
use the_code_back_up_in_ubun.LibCo.Machine.Erasure.{
  All-erase, length-erase, erased_apart, erase-WellFormed,
}

same_apart : (m n : List ℕ) → some m ≢ some n → same m n ≡ false
same_apart m n ne = elim (Bool-cases (same m n)) [
  | inl found ↦ absurd (ne (ap some (same-eq m n found)))
  | inr found ↦ found
]

choose_waiting_first :
    (fuel r : ℕ) (rs : List ℕ) (s s' : State) (q : ℕ)
    → rand_choose fuel r s ≡ some (q, s')
    → (s'.status q == co_new) ≡ false
    → same_name s' q s'.current ≡ some false
    → choose_waiting fuel (r ∷ rs) s ≡ some (q, s')
unfolding choose_waiting
choose_waiting_first fuel r rs s s' q e old apart =
    rw (e, choose_waiting) (rw (old) (rw (apart) refl))

callback_run :
    (fuel q : ℕ) (rs : List ℕ) (m : Machine) (s1 s2 : State) (point : Point)
    → co_delete fuel m.state.current (set_status m.state.current co_dead m.state) ≡ some s1
    → choose_waiting fuel rs s1 ≡ some (q, s2)
    → s2.status q ≡ co_waiting
    → m.context q ≡ some point
    → callback fuel rs m
      ≡ some
          (resumes point, record m { state = set_status q co_running (record s2 { current = q }) })
unfolding callback
callback_run fuel q rs m s1 s2 point e1 e2 e3 e4 = rw (e1, callback) (rw e2 (rw e3 (rw e4 refl)))

-- What `callback` has done: q is the coroutine that goes on, in the list ys.
pub record Left (m : Machine) (ys : List ℕ) (q : ℕ) (point : Point) (m' : Machine) : Type 0 where
  pub current : m'.state.current ≡ q
  pub another : q ≢ m.state.current
  pub waited : m.state.status q ≡ co_waiting
  pub resumed : m.context q ≡ some point
  pub runs : m'.state.status q ≡ co_running
  pub ended : m'.state.status m.state.current ≡ co_dead
  pub good : Good m' ys

pub still_waits :
    (status : ℕ → ℕ) (cur q x : ℕ)
    → update (update status cur co_dead) q co_running x ≡ co_waiting
    → status x ≡ co_waiting
still_waits status cur q x e = ground arith

-- On a well-formed list of coroutines with the current one in it, named n, none of the others new
-- and at least one waiting: `callback` takes the current one out of the list, as dead, and resumes
-- another one, which waits, where it was saved.
pub callback_lem :
    (fuel r k : ℕ) (rs : List ℕ) (m : Machine) (xs n : List ℕ)
    → Good m xs
    → k < length xs
    → get_or xs k 0 ≡ m.state.current
    → m.state.name m.state.current ≡ some n
    → All (λ x. m.state.status x ≢ co_new) (erase m.state n xs)
    → 0 < length (pool_of (set_status m.state.current co_dead m.state) (erase m.state n xs))
    → length xs + 2 ≤ fuel
    → (q : ℕ) × (point : Point) × (m' : Machine) × (callback fuel (r ∷ rs) m
        ≡ some (resumes point, m'))
      × Left m (erase m.state n xs) q point m'
callback_lem fuel r k rs m xs n g lt e named old some_node enough =
    let w : WellFormed m.state xs = g.listed in
    let cur : ℕ = m.state.current in
    let off_head : co_list_head ≢ cur =
      subst (λ x. co_list_head ≢ x) e (All-get_or (λ x. co_list_head ≢ x) xs k w.own.0 lt) in
    let s : State = set_status cur co_dead m.state in
    let ys : List ℕ = erase m.state n xs in
    let w1 : WellFormed s xs =
      restatus-WellFormed m.state xs s.status m.state.brother cur w
        (update_other m.state.status co_dead (λ h. off_head (sym h)) ∙ w.head_status) w.no_pool in
    let (next, deleted, seg) =
      co_delete-erase fuel s cur n xs named w.listed w.own w.named (omega arith) in
    let w2 : WellFormed (record s { next = next }) ys = erase-WellFormed s n xs next w1 seg in
    let (q, b, h) =
      chosen_lem fuel r (record s { next = next }) ys n w2 named some_node
        (omega (arith, length-erase m.state n xs)) in
    let ne : m.state.name q ≢ some n =
      h.in_list _ (erased_apart m.state n xs w.named w.own_names) in
    let another : q ≢ cur = (λ h'. ne (ap m.state.name h' ∙ named)) in
    let old_q : m.state.status q ≢ co_new = h.in_list _ old in
    let waits : m.state.status q ≡ co_waiting = ground (arith, h.is_ready) in
    let (point, context) = h.in_list _ (All-erase _ m.state n xs g.contexts) waits in
    let (nq, named_q) = h.in_list _ (All-erase (Named m.state) m.state n xs w.named) in
    let s2 : State = record s { next = next; brother = b } in
    let s2_waits : s2.status q ≡ co_waiting = ground arith in
    (
      q,
      point,
      record m { state = set_status q co_running (record s2 { current = q }) },
      callback_run fuel q (r ∷ rs) m (record s { next = next }) s2 point deleted
          (choose_waiting_first fuel r rs (record s { next = next }) s2 q h.run (ground arith)
            (same_name-some s2 q cur nq n named_q named
              ∙ ap some (same_apart nq n (λ h'. ne (named_q ∙ h')))))
          s2_waits context,
      record {
        current = refl;
        another = another;
        waited = waits;
        resumed = context;
        runs = update_self s.status q co_running;
        ended = update_other s.status co_running another ∙ update_self m.state.status cur co_dead;
        good = record {
          listed =
              restatus-WellFormed (record s { next = next }) ys (update s.status q co_running) b q
                w2
                (update_other s.status co_running (λ h'. h.in_list _ w2.own.0 (sym h'))
                  ∙ w2.head_status)
                h.zeros;
          live = All-erase _ m.state n xs g.live;
          contexts =
              All-map _ _ ys (λ x f e'. f (still_waits m.state.status cur q x e'))
                (All-erase _ m.state n xs g.contexts);
        };
      },
    )
