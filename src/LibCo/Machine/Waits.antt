-- ===== src/LibCo/Machine/Waits.antt =====
-- `co_wait` of libco/co-first.c in the main program: a new coroutine's function is called, and the
-- coroutine is gone behind it.
use the_code_back_up_in_ubun.Base.{
  ℕ, ◌+◌, ◌<◌, ◌≤◌, ◌≡◌, ◌≢◌, refl, sym, subst, ◌∙◌, ap, true, false, some, List, [], ◌∷◌, length,
  get_or, All, update, update_self, update_other, arith,
}
use the_code_back_up_in_ubun.LibCo.{co_list_head, co_new, co_waiting}
use the_code_back_up_in_ubun.LibCo.Names.{All-get_or}
use the_code_back_up_in_ubun.LibCo.Choice.{WellFormed, Seg-some}
use the_code_back_up_in_ubun.LibCo.Removal.{erase, co_delete-erase}
use the_code_back_up_in_ubun.LibCo.Machine.{
  Machine, calls, co_running, co_dead, set_status, unusable, co_wait, discard, main_returns,
}
use the_code_back_up_in_ubun.LibCo.Machine.Good.{Good, restatus-WellFormed, All-map}
use the_code_back_up_in_ubun.LibCo.Machine.Yields.{All-usable}
use the_code_back_up_in_ubun.LibCo.Machine.Erasure.{All-erase, erased_apart, erase-WellFormed}

All-live :
    (m : Machine) (co : ℕ) (n ys : List ℕ)
    → m.state.name co ≡ some n
    → All (λ x. m.state.name x ≢ some n) ys
    → All (λ x. m.freed x ≡ false) ys
    → All (λ x. update m.freed co true x ≡ false) ys
All-live m co n [] e h h' = tt
All-live m co n (y ∷ ys) e (ne, h) (live, h') = (
  update_other m.freed true (λ h''. ne (ap m.state.name (sym h'') ∙ e)) ∙ live,
  All-live m co n ys e h h',
)

pub restatus-Good :
    (m : Machine) (xs : List ℕ) (status : ℕ → ℕ) (current : ℕ)
    → Good m xs
    → status co_list_head ≡ 0
    → ((x : ℕ) → status x ≡ co_waiting → m.state.status x ≡ co_waiting)
    → Good (record m { state = record m.state { status = status; current = current } }) xs
restatus-Good m xs status current g e f = record {
  listed =
      restatus-WellFormed m.state xs status m.state.brother current g.listed e g.listed.no_pool;
  live = g.live;
  contexts = All-map _ _ xs (λ x h e'. h (f x e')) g.contexts;
}

-- On a well-formed list with a coroutine named n in it, which is not freed: it is taken out of the
-- list and freed, and what is left is a well-formed list.
pub discard_lem :
    (fuel co : ℕ) (m : Machine) (xs n : List ℕ)
    → Good m xs
    → unusable m co ≡ false
    → m.state.name co ≡ some n
    → length xs + 2 ≤ fuel
    → (next : ℕ → ℕ) × (discard fuel co m
        ≡ some
            (record m { state = record m.state { next = next }; freed = update m.freed co true }))
      × Good
          (record m { state = record m.state { next = next }; freed = update m.freed co true })
          (erase m.state n xs)
unfolding discard
discard_lem fuel co m xs n g usable named enough =
    let w : WellFormed m.state xs = g.listed in
    let (next, run, seg) =
      co_delete-erase fuel m.state co n xs named w.listed w.own w.named (omega arith) in
    (
      next,
      rw (usable, discard) (rw run refl),
      record {
        listed = erase-WellFormed m.state n xs next w seg;
        live =
            All-live m co n (erase m.state n xs) named
              (erased_apart m.state n xs w.named w.own_names) (All-erase _ m.state n xs g.live);
        contexts = All-erase _ m.state n xs g.contexts;
      },
    )

pub main_returns-discard :
    (fuel co : ℕ) (m : Machine)
    → unusable m m.state.current ≡ false
    → main_returns fuel co m
      ≡ discard fuel co (record m {
        state =
            set_status co co_dead
              (record (set_status m.state.current co_dead m.state) { current = 0 });
      })
unfolding main_returns
main_returns-discard fuel co m usable = rw (usable, main_returns) refl

-- The coroutine that the program waits for, at k in the list.
module _ (fuel k : ℕ) (m : Machine) (xs : List ℕ) (g : Good m xs) (lt : k < length xs) where
  head_apart : (co : ℕ) → get_or xs k 0 ≡ co → co_list_head ≢ co
  head_apart co e =
      subst (λ x. co_list_head ≢ x) e (All-get_or (λ x. co_list_head ≢ x) xs k g.listed.own.0 lt)

  pub at_k-usable : (co : ℕ) → get_or xs k 0 ≡ co → unusable m co ≡ false
  at_k-usable co e =
      subst (λ x. unusable m x ≡ false) e
        (All-get_or (λ x. unusable m x ≡ false) xs k
          (All-usable m xs (Seg-some m.state.next _ xs g.listed.listed) g.live) lt)

  -- When the main program waits for a new coroutine of a well-formed list, its function is called,
  -- with the coroutine running and current, on a list as before.
  pub wait_calls :
      (r co : ℕ)
      → get_or xs k 0 ≡ co
      → m.state.current ≡ 0
      → m.state.status co ≡ co_new
      → (m' : Machine) × (co_wait fuel r co m ≡ some (calls co, m'))
        × (m'.state.current ≡ co)
        × (m'.state.status co ≡ co_running)
        × Good m' xs
  unfolding co_wait
  wait_calls r co e main_runs fresh =
      let usable = at_k-usable co e in
      (
        record m { state = set_status co co_running (record m.state { current = co }) },
        ground arith,
        refl,
        update_self m.state.status co co_running,
        restatus-Good m xs (update m.state.status co co_running) co g
            (update_other m.state.status co_running (λ h. head_apart co e (sym h))
              ∙ g.listed.head_status)
            (λ x h. ground arith),
      )

  -- When that function has returned, with its coroutine current and in a well-formed list, the
  -- coroutine is dead, freed and out of the list, which is well formed, and none is current.
  pub main_returns_lem :
      (co : ℕ) (n : List ℕ)
      → get_or xs k 0 ≡ co
      → m.state.current ≡ co
      → m.state.name co ≡ some n
      → length xs + 2 ≤ fuel
      → (m' : Machine) × (main_returns fuel co m ≡ some m')
        × Good m' (erase m.state n xs)
        × (m'.state.current ≡ 0)
        × (m'.state.status co ≡ co_dead)
        × (m'.freed co ≡ true)
  main_returns_lem co n e cur named enough =
      let usable = at_k-usable co e in
      let status : ℕ → ℕ = update (update m.state.status m.state.current co_dead) co co_dead in
      let g1 =
        restatus-Good m xs status 0 g (ground (arith, head_apart co e, g.listed.head_status))
          (λ x h. ground arith) in
      let (next, run, g2) =
        discard_lem fuel co (record m { state = record m.state { status = status; current = 0 } })
          xs n g1 usable named enough in
      (
        _,
        main_returns-discard fuel co m (rw cur usable) ∙ run,
        g2,
        refl,
        update_self (update m.state.status m.state.current co_dead) co co_dead,
        update_self m.freed co true,
      )
