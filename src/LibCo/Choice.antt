-- ===== src/LibCo/Choice.antt =====
-- `rand_choose` of libco/co-first.c: which coroutine it gives, and that the pool is empty behind it.
use the_code_back_up_in_ubun.Base.{
  ℕ, suc, ◌+◌, ◌<◌, ◌≤◌, ◌≡◌, ◌≢◌, refl, sym, subst, ◌∙◌, ap, Bool, false, none, some, List, [],
  ◌∷◌, ◌==◌, if◌then◌else◌, length, get_or, All, keep, update, update_other, arith, Bool-cases, inl,
  inr,
}
use the_code_back_up_in_ubun.CString.{same}
use the_code_back_up_in_ubun.Sperf.Profile.{same-eq}
use the_code_back_up_in_ubun.LibCo.{
  State, co_list_head, rand_pool_head, ready, fill, walk, first_index, index_again, empty_pool,
  same_name, select, rand_choose,
}
use the_code_back_up_in_ubun.LibCo.Segments.{
  Seg, Away, Unique, Seg-update, walk-get_or, take_apart_lem,
}
use the_code_back_up_in_ubun.LibCo.Pool.{Pool, fill_lem}
use the_code_back_up_in_ubun.LibCo.Names.{
  Named, OwnNames, All-keep, OwnNames-keep, All-get_or, names_apart, length-keep, differ,
}
use the_code_back_up_in_ubun.LibCo.Indices.{first_index_lem, index_again_lem}

-- The coroutines xs are the list, each with a name of its own, and the pool is empty.
pub record WellFormed (s : State) (xs : List ℕ) : Type 0 where
  pub listed : Seg s.next (s.next co_list_head) xs
  pub own : Unique (co_list_head ∷ xs)
  pub off_pool : Away rand_pool_head xs
  pub head_status : s.status co_list_head ≡ 0
  pub no_pool : (p : ℕ) → s.brother p ≡ 0
  pub named : All (Named s) xs
  pub own_names : OwnNames s xs

pub same_name-some :
    (s : State) (a b : ℕ) (x y : List ℕ)
    → s.name a ≡ some x
    → s.name b ≡ some y
    → same_name s a b ≡ some (same x y)
unfolding same_name
same_name-some s a b x y e e' = rw (e, same_name) (rw e' refl)

select_at :
    (s : State) (brother : ℕ → ℕ) (index count q : ℕ) (again : Bool)
    → walk brother index rand_pool_head ≡ some q
    → same_name s q s.current ≡ some again
    → select s brother index count
      ≡ (if again then walk brother (index_again index count) rand_pool_head else some q)
unfolding select
select_at s brother index count q again e e' = rw (e, select) (rw e' refl)

-- `select` gives a node of the pool, and one with another name than the current coroutine's if there
-- are two.
select_lem :
    (s : State) (brother : ℕ → ℕ) (ys : List ℕ) (k : ℕ) (n : List ℕ)
    → Pool brother ys
    → All (Named s) ys
    → OwnNames s ys
    → s.name s.current ≡ some n
    → k < length ys
    → (i : ℕ) × (i < length ys)
      × (select s brother (suc k) (length ys) ≡ some (get_or ys i 0))
      × (2 ≤ length ys → s.name (get_or ys i 0) ≢ s.name s.current)
select_lem s brother ys k n p named own e lt =
    let (m, e') = All-get_or (Named s) ys k named lt in
    let (k', again, lt', other) = index_again_lem k (length ys) lt in
    let walked = walk-get_or brother rand_pool_head k ys (omega arith) p.seg lt in
    let tested = same_name-some s (get_or ys k 0) s.current m n e' e in
    elim (Bool-cases (same m n)) [
      | inl found ↦ (
        k',
        lt',
        select_at s brother (suc k) (length ys) _ (same m n) walked tested
            ∙ rw found
                (rw again (walk-get_or brother rand_pool_head k' ys (omega arith) p.seg lt')),
        λ two h.
            names_apart s ys k' k own lt' lt (other two)
              (h ∙ e ∙ sym (ap some (same-eq m n found)) ∙ sym e'),
      )
      | inr found ↦ (
        k,
        lt,
        select_at s brother (suc k) (length ys) _ (same m n) walked tested ∙ rw found refl,
        λ two h. differ m n found (sym e' ∙ h ∙ e),
      )
    ]

empty_pool_lem :
    (fuel : ℕ) (brother : ℕ → ℕ) (ys : List ℕ)
    → Pool brother ys
    → 0 < length ys
    → length ys ≤ fuel
    → (brother' : ℕ → ℕ) × (empty_pool fuel brother ≡ some brother') × ((p : ℕ) → brother' p ≡ 0)
unfolding empty_pool
empty_pool_lem fuel brother [] p lt le = absurd (omega arith)
empty_pool_lem fuel brother (y ∷ ys) p lt le =
    let (e, some_y, seg) = p.seg in
    let ((ne, away), u) = p.unique in
    let b : ℕ → ℕ = update brother rand_pool_head 0 in
    let (brother', run, zeros) =
      take_apart_lem fuel b y ys (omega arith)
        (subst (λ k. Seg b k ys) (sym (update_other brother 0 ne))
          (Seg-update brother rand_pool_head 0 (brother y) ys away seg))
        u
        (λ q h. elim (Bool-cases (rand_pool_head == q)) [
          | inl same_node ↦ ground arith
          | inr apart ↦ ground (arith, p.outside q ((ground arith), h))
        ]) in
    (brother', ground (arith, run), zeros)

no-Pool : (brother : ℕ → ℕ) → ((p : ℕ) → brother p ≡ 0) → Pool brother []
no-Pool brother zeros = record {
  seg = zeros rand_pool_head;
  unique = (tt, tt);
  outside = λ q h. zeros q;
}

abbrev pub pool_of : State → List ℕ → List ℕ
pool_of s xs = keep (ready s) xs

off-Aways : (xs : List ℕ) → Away rand_pool_head xs → All (λ x. Away x (rand_pool_head ∷ [])) xs
off-Aways [] h = tt
off-Aways (x ∷ xs) (a, h) = (((λ e. a (sym e)), tt), off-Aways xs h)

keep_head :
    (s : State) (xs : List ℕ)
    → s.status co_list_head ≡ 0
    → keep (ready s) (co_list_head ∷ xs) ≡ pool_of s xs
keep_head s xs e = rw e refl

pub Seg-some : (link : ℕ → ℕ) (p : ℕ) (xs : List ℕ) → Seg link p xs → All (λ x. x ≢ 0) xs
Seg-some link p [] h = tt
Seg-some link p (x ∷ xs) (e, some_x, h) = (some_x, Seg-some link (link x) xs h)

rand_choose-select :
    (fuel r : ℕ) (s : State) (brother brother' : ℕ → ℕ) (count choice : ℕ)
    → fill fuel fuel s co_list_head s.brother 0 ≡ some (brother, count)
    → select s brother (first_index r count) count ≡ some choice
    → choice ≢ 0
    → empty_pool fuel brother ≡ some brother'
    → rand_choose fuel r s ≡ some (choice, record s { brother = brother' })
unfolding rand_choose
rand_choose-select fuel r s brother brother' count choice filled selected some_choice emptied =
    let tested : (choice == 0) ≡ false = ground arith in
    rw (filled, rand_choose) (rw selected (rw tested (rw emptied refl)))

filled_lem :
    (fuel : ℕ) (s : State) (xs : List ℕ)
    → WellFormed s xs
    → length xs + 2 ≤ fuel
    → (brother : ℕ → ℕ) × (fill fuel fuel s co_list_head s.brother 0
        ≡ some (brother, length (pool_of s xs)))
      × Pool brother (pool_of s xs)
filled_lem fuel s xs w le =
    let (brother, run, p) =
      fill_lem fuel fuel s co_list_head (co_list_head ∷ xs) [] s.brother 0
        (refl, (omega arith), w.listed) (omega arith) (omega arith) (no-Pool s.brother w.no_pool)
        w.own (((omega arith), tt), off-Aways xs w.off_pool) in
    (
      brother,
      run
          ∙ ap (λ m. some (brother, m))
              (counted (keep (ready s) (co_list_head ∷ xs)) (keep_head s xs w.head_status)),
      subst (Pool brother) (keep_head s xs w.head_status) p,
    )
  where
    counted : (ys : List ℕ) → ys ≡ pool_of s xs → 0 + length ys ≡ length (pool_of s xs)
    counted ys e = omega (arith, ap length e)

-- On a list of coroutines with names of their own, with an empty pool and a current coroutine that
-- has a name: while one is new or waiting, `rand_choose` returns, whatever rand() gives; it gives
-- such a coroutine, one with another name than the current one's if there are two, and leaves all
-- as it was, with no coroutine in the pool.
pub rand_choose_lem :
    (fuel r : ℕ) (s : State) (xs n : List ℕ)
    → WellFormed s xs
    → s.name s.current ≡ some n
    → 0 < length (pool_of s xs)
    → length xs + 2 ≤ fuel
    → (i : ℕ) × (i < length (pool_of s xs))
      × ((brother : ℕ → ℕ) × (rand_choose fuel r s
            ≡ some (get_or (pool_of s xs) i 0, record s { brother = brother }))
          × ((p : ℕ) → brother p ≡ 0))
      × (2 ≤ length (pool_of s xs) → s.name (get_or (pool_of s xs) i 0) ≢ s.name s.current)
rand_choose_lem fuel r s xs n w e some_node le =
    let ys : List ℕ = pool_of s xs in
    let (brother, filled, p) = filled_lem fuel s xs w le in
    let (k, at, lt) = first_index_lem r (length ys) some_node in
    let (i, lt', selected, other) =
      select_lem s brother ys k n p (All-keep (Named s) (ready s) xs w.named)
        (OwnNames-keep s (ready s) xs w.own_names) e lt in
    let (brother', emptied, zeros) =
      empty_pool_lem fuel brother ys p some_node (omega (arith, length-keep (ready s) xs)) in
    (
      i,
      lt',
      (
        brother',
        rand_choose-select fuel r s brother brother' (length ys) _ filled (rw at selected)
            (All-get_or (λ x. x ≢ 0) ys i (Seg-some brother _ ys p.seg) lt') emptied,
        zeros,
      ),
      other,
    )

nameless : (s : State) (a b : ℕ) → s.name a ≡ none → same_name s a b ≡ none
unfolding same_name
nameless s a b e = rw (e, same_name) refl

select_crashes :
    (s : State) (r count : ℕ) (brother : ℕ → ℕ)
    → s.name rand_pool_head ≡ none
    → count ≡ 0
    → select s brother (first_index r count) count ≡ none
unfolding select first_index
select_crashes s r count brother e empty =
    rw empty (rw (nameless s rand_pool_head s.current e, select) refl)

rand_choose_stops :
    (fuel r : ℕ) (s : State) (brother : ℕ → ℕ) (count : ℕ)
    → fill fuel fuel s co_list_head s.brother 0 ≡ some (brother, count)
    → select s brother (first_index r count) count ≡ none
    → rand_choose fuel r s ≡ none
unfolding rand_choose
rand_choose_stops fuel r s brother count filled crashed = rw (filled, rand_choose) (rw crashed refl)

-- On a list of coroutines with names of their own, with an empty pool whose head has no name: if
-- none is new or waiting, `rand_choose` fails, with any fuel from the length and two on.
pub rand_choose_crashes :
    (fuel r : ℕ) (s : State) (xs : List ℕ)
    → WellFormed s xs
    → s.name rand_pool_head ≡ none
    → length (pool_of s xs) ≡ 0
    → length xs + 2 ≤ fuel
    → rand_choose fuel r s ≡ none
rand_choose_crashes fuel r s xs w e empty le =
    let (brother, filled, p) = filled_lem fuel s xs w le in
    rand_choose_stops fuel r s brother (length (pool_of s xs)) filled
      (select_crashes s r (length (pool_of s xs)) brother e empty)
