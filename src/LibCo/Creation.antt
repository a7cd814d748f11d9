-- ===== src/LibCo/Creation.antt =====
-- `co_start` of libco/co-first.c: the new coroutine stands behind the others in the list.
use the_code_back_up_in_ubun.Base.{
  ℕ, ◌<◌, ◌≡◌, ◌≢◌, refl, sym, subst, ◌∙◌, false, some, List, [], ◌∷◌, ◌++◌, ◌==◌, leb, length, All,
  update, update_self, update_other, arith, Bool-cases, inl, inr,
}
use the_code_back_up_in_ubun.LibCo.{
  State, co_new, co_list_head, rand_pool_head, list_append, co_start,
}
use the_code_back_up_in_ubun.LibCo.Segments.{
  Seg, Away, last, Seg-update, append_loop-last, Seg-append, Away-snoc, Unique-snoc,
}
use the_code_back_up_in_ubun.LibCo.Names.{Named, OwnNames}
use the_code_back_up_in_ubun.LibCo.Choice.{WellFormed}

-- The names of the two states differ at p alone.
record Renamed (s s' : State) (p : ℕ) (name : List ℕ) : Type 0 where
  new_name : s'.name p ≡ some name
  old_name : (q : ℕ) → p ≢ q → s'.name q ≡ s.name q

Named-snoc :
    (s s' : State) (p : ℕ) (name xs : List ℕ)
    → Renamed s s' p name
    → Away p xs
    → All (Named s) xs
    → All (Named s') (xs ++ p ∷ [])
Named-snoc s s' p name [] r away h = ((name, r.new_name), tt)
Named-snoc s s' p name (x ∷ xs) r (ne, away) ((n, e), h) =
    ((n, r.old_name x ne ∙ e), Named-snoc s s' p name xs r away h)

apart_snoc :
    (s s' : State) (p x : ℕ) (name ys : List ℕ)
    → Renamed s s' p name
    → p ≢ x
    → s.name x ≢ some name
    → Away p ys
    → All (λ y. s.name x ≢ s.name y) ys
    → All (λ y. s'.name x ≢ s'.name y) (ys ++ p ∷ [])
apart_snoc s s' p x name [] r ne new away h =
    ((λ e. new (sym (r.old_name x ne) ∙ e ∙ r.new_name)), tt)
apart_snoc s s' p x name (y ∷ ys) r ne new (ne', away) (a, h) = (
  (λ e. a (sym (r.old_name x ne) ∙ e ∙ r.old_name y ne')),
  apart_snoc s s' p x name ys r ne new away h,
)

own_snoc :
    (s s' : State) (p : ℕ) (name xs : List ℕ)
    → Renamed s s' p name
    → Away p xs
    → All (λ x. s.name x ≢ some name) xs
    → OwnNames s xs
    → OwnNames s' (xs ++ p ∷ [])
own_snoc s s' p name [] r away new h = (tt, tt)
own_snoc s s' p name (x ∷ xs) r (ne, away) (a, new) (b, h) =
    (apart_snoc s s' p x name xs r ne a away b, own_snoc s s' p name xs r away new h)

-- The state that `co_start` leaves.
abbrev pub started : State → ℕ → List ℕ → List ℕ → State
started s p name xs = record s {
  name = update s.name p (some name);
  status = update s.status p co_new;
  next = update (update s.next p 0) (last co_list_head xs) p;
  brother = update s.brother p 0;
}

first_next :
    (s : State) (p : ℕ) (xs : List ℕ)
    → p ≢ co_list_head
    → Away p xs
    → Seg s.next (s.next co_list_head) xs
    → Seg (update s.next p 0) (update s.next p 0 co_list_head) xs
first_next s p xs ne away seg =
    subst (λ k. Seg (update s.next p 0) k xs) (sym (update_other s.next 0 ne))
      (Seg-update s.next p 0 (s.next co_list_head) xs away seg)

pub started-WellFormed :
    (s : State) (p : ℕ) (name xs : List ℕ)
    → WellFormed s xs
    → p ≢ 0
    → p ≢ co_list_head
    → p ≢ rand_pool_head
    → Away p xs
    → All (λ x. s.name x ≢ some name) xs
    → WellFormed (started s p name xs) (xs ++ p ∷ [])
started-WellFormed s p name xs w some_p off_list off_pool away new =
    let r : Renamed s (started s p name xs) p name = record {
      new_name = update_self s.name p (some name);
      old_name = λ q ne. update_other s.name (some name) ne;
    } in
    record {
      listed =
          Seg-append (update s.next p 0) co_list_head p xs
            (first_next s p xs off_list away w.listed) w.own (off_list, away) some_p
            (update_self s.next p 0);
      own = (
        Away-snoc co_list_head p xs w.own.0 (λ e. off_list (sym e)),
        Unique-snoc xs p w.own.1 away,
      );
      off_pool = Away-snoc rand_pool_head p xs w.off_pool (λ e. off_pool (sym e));
      head_status = update_other s.status co_new off_list ∙ w.head_status;
      no_pool = λ q. elim (Bool-cases (p == q)) [
        | inl found ↦ rw found refl
        | inr found ↦ rw found (w.no_pool q)
      ];
      named = Named-snoc s (started s p name xs) p name xs r away w.named;
      own_names = own_snoc s (started s p name xs) p name xs r away new w.own_names;
    }

pub co_start-started :
    (fuel : ℕ) (s : State) (p : ℕ) (name xs : List ℕ)
    → WellFormed s xs
    → p ≢ 0
    → p ≢ co_list_head
    → Away p xs
    → length name < 32
    → length xs < fuel
    → co_start fuel p name s ≡ some (started s p name xs)
unfolding co_start list_append
co_start-started fuel s p name xs w some_p off_list away short enough =
    let tested : leb 32 (length name) ≡ false = ground arith in
    rw tested (
      rw
        (
          append_loop-last fuel (update s.next p 0) co_list_head p xs
              (first_next s p xs off_list away w.listed) enough,
          list_append,
        )
        refl)

-- Given a block that is not in use, and a name of up to 31 bytes that no coroutine of the list has,
-- `co_start` returns, the new coroutine is the last of the list and new, the list stays well
-- formed, and no other coroutine's status is changed.
pub co_start-WellFormed :
    (fuel : ℕ) (s : State) (p : ℕ) (name xs : List ℕ)
    → WellFormed s xs
    → p ≢ 0
    → p ≢ co_list_head
    → p ≢ rand_pool_head
    → Away p xs
    → length name < 32
    → All (λ x. s.name x ≢ some name) xs
    → length xs < fuel
    → (s' : State) × (co_start fuel p name s ≡ some s')
      × WellFormed s' (xs ++ p ∷ [])
      × (s'.status p ≡ co_new)
      × ((q : ℕ) → p ≢ q → s'.status q ≡ s.status q)
co_start-WellFormed fuel s p name xs w some_p off_list off_pool away short new enough = (
  started s p name xs,
  co_start-started fuel s p name xs w some_p off_list away short enough,
  started-WellFormed s p name xs w some_p off_list off_pool away new,
  update_self s.status p co_new,
  λ q ne. update_other s.status co_new ne,
)
