-- ===== src/LibCo/Machine/Runs/Starts.antt =====
-- `co_start` of libco/co-first.c from every machine that is reached.
use the_code_back_up_in_ubun.Base.{
  ℕ, zero, suc, ◌+◌, ◌<◌, ◌≤◌, ◌≡◌, ◌≢◌, inl, inr, ◌∙◌, false, some, List, [], ◌∷◌, ◌++◌, length,
  All, update, update_self, update_other, arith,
}
use the_code_back_up_in_ubun.LibCo.{State, co_list_head, rand_pool_head, co_start}
use the_code_back_up_in_ubun.LibCo.Segments.{Away}
use the_code_back_up_in_ubun.LibCo.Creation.{started, started-WellFormed, co_start-started}
use the_code_back_up_in_ubun.LibCo.Machine.{Machine}
use the_code_back_up_in_ubun.LibCo.Machine.Runs.{In, Inv, Settled}

All-snoc :
    (P Q : ℕ → Type 0) (p : ℕ) (xs : List ℕ)
    → ((x : ℕ) → p ≢ x → P x → Q x)
    → Away p xs
    → All P xs
    → Q p
    → All Q (xs ++ p ∷ [])
All-snoc P Q p [] f away h last = (last, tt)
All-snoc P Q p (x ∷ xs) f (ne, away) (a, h) last = (f x ne a, All-snoc P Q p xs f away h last)

In-append : (x p : ℕ) (xs : List ℕ) → In x xs → In x (xs ++ p ∷ [])
In-append x p [] (k, lt, e) = absurd (omega arith)
In-append x p (y ∷ xs) (zero, lt, e) = (0, omega arith, e)
In-append x p (y ∷ xs) (suc k, lt, e) =
    let (k', lt', e') = In-append x p xs (k, omega arith, e) in (suc k', omega arith, e')

pub start-Inv :
    (fuel p : ℕ) (name : List ℕ) (m : Machine) (xs : List ℕ)
    → Inv m xs
    → p ≢ 0
    → p ≢ co_list_head
    → p ≢ rand_pool_head
    → Away p xs
    → length name < 32
    → All (λ x. m.state.name x ≢ some name) xs
    → length xs + 2 ≤ fuel
    → (s : State) × (co_start fuel p name m.state ≡ some s)
      × Inv (record m { state = s; freed = update m.freed p false }) (xs ++ p ∷ [])
start-Inv fuel p name m xs i some_p off_list off_pool away short new enough = (
  started m.state p name xs,
  co_start-started fuel m.state p name xs i.good.listed some_p off_list away short (omega arith),
  record {
    good = record {
      listed = started-WellFormed m.state p name xs i.good.listed some_p off_list off_pool away new;
      live =
          All-snoc _ _ p xs (λ x ne e. update_other m.freed false ne ∙ e) away i.good.live
            (update_self m.freed p false);
      contexts =
          All-snoc _ _ p xs (λ x ne f e. f (ground arith)) away i.good.contexts (λ e. ground arith);
    };
    pool_name = update_other m.state.name (some name) off_pool ∙ i.pool_name;
    current_listed = elim i.current_listed [
      | inl e ↦ inl e
      | inr listed ↦ inr (In-append m.state.current p xs listed)
    ];
    settled =
        All-snoc (Settled m.state) (Settled (started m.state p name xs)) p xs
          (λ x ne h. ground (arith, h)) away i.settled (inl (ground arith));
  },
)
