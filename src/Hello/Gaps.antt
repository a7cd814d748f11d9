-- ===== src/Hello/Gaps.antt =====
-- The numbers that the threads of hello-mt.c and cur.c print: the additions can be lost, and still
-- there are no gaps.
use the_code_back_up_in_ubun.Base.{
  ℕ, zero, suc, ◌+◌, ◌≤◌, ◌<◌, ◌≡◌, refl, subst, ◌∙◌, true, false, List, [], ◌∷◌, ◌++◌, ◌==◌, ltb,
  length, length-append, All, update, sum_to, sum_to-update, arith, Bool-cases, inl, inr,
}
use the_code_back_up_in_ubun.Hello.{
  Pc, idle, loaded, stored, returned, State, is_returned, all_returned, f_at, f, step, Reached,
  at_start, stepped,
}
use the_code_back_up_in_ubun.Hello.Inv.{
  contains, contains-snoc, has_stored, has_returned, Seen, Holds, Inv, started-Inv, Holds-grown,
  range-update, not_over, few_stored, After, main-Inv,
}

module _ (n : ℕ) (s : State) (i : ℕ) (lo : 1 ≤ i) (hi : i ≤ n) (h : Inv n s) where
  -- A thread is at p now, and has not returned before.
  kept_running :
      (p : Pc)
      → is_returned (s.pc i) ≡ false
      → s.over ≡ true
      → all_returned n (update s.pc i p) ≡ true
  kept_running p e o = absurd (ground (arith, not_over n s.pc i lo hi e, h.ended o))

  held-update :
      (s' : State) (p : Pc)
      → sum_to (λ k. has_stored (s.pc k)) n ≤ sum_to (λ k. has_stored (s'.pc k)) n
      → ((j : ℕ) → Seen s j → Seen s' j)
      → Holds n s' p
      → (k : ℕ) → Holds n s' (update s.pc i p k)
  held-update s' p le see here k = elim (Bool-cases (i == k)) [
    | inl same ↦ rw same here
    | inr other ↦ rw other (Holds-grown n s s' le see (s.pc k) (h.held k))
  ]

  load-Inv : s.pc i ≡ idle → Inv n (record s { pc = update s.pc i (loaded s.x) })
  load-Inv at =
      let s' : State = record s { pc = update s.pc i (loaded s.x) } in
      let sums : sum_to (λ k. has_stored (s'.pc k)) n ≡ sum_to (λ k. has_stored (s.pc k)) n =
        ground (arith, sum_to-update has_stored s.pc i (loaded s.x) n lo hi) in
      let see : (j : ℕ) → Seen s j → Seen s' j =
        λ j seen. elim seen [ inl (k, e) ↦ inl (k, ground arith) | inr e ↦ inr e ] in
      record {
        created = h.created;
        range = range-update n s.pc i (loaded s.x) lo hi h.range;
        bound = omega (arith, h.bound);
        gaps = λ j lt. see j (h.gaps j lt);
        held =
            held-update s' (loaded s.x) (omega arith) see
              (omega (arith, h.bound), λ j lt. see j (h.gaps j lt));
        printed = h.printed;
        out_gaps = λ v j c lt. see j (h.out_gaps v j c lt);
        counted =
            h.counted ∙ ground (arith, sum_to-update has_returned s.pc i (loaded s.x) n lo hi);
        ended = kept_running (loaded s.x) (ground arith);
      }

  store-Inv :
      (v : ℕ) → s.pc i ≡ loaded v → Inv n (record s { x = v + 1; pc = update s.pc i (stored v) })
  store-Inv v at =
      let s' : State = record s { x = v + 1; pc = update s.pc i (stored v) } in
      let mine : Holds n s (loaded v) = subst (Holds n s) at (h.held i) in
      let sums : sum_to (λ k. has_stored (s'.pc k)) n ≡ suc (sum_to (λ k. has_stored (s.pc k)) n) =
        ground (arith, sum_to-update has_stored s.pc i (stored v) n lo hi) in
      let see : (j : ℕ) → Seen s j → Seen s' j =
        λ j seen. elim seen [ inl (k, e) ↦ inl (k, ground arith) | inr e ↦ inr e ] in
      record {
        created = h.created;
        range = range-update n s.pc i (stored v) lo hi h.range;
        bound = omega (arith, mine.0);
        gaps = λ j lt. elim (Bool-cases (j == v)) [
          | inl e ↦ inl (i, ground (arith, e))
          | inr e ↦ see j (mine.1 j (ground (arith, e)))
        ];
        held =
            held-update s' (stored v) (omega arith) see
              (omega (arith, mine.0), λ j lt. see j (mine.1 j lt));
        printed = h.printed;
        out_gaps = λ w j c lt. see j (h.out_gaps w j c lt);
        counted = h.counted ∙ ground (arith, sum_to-update has_returned s.pc i (stored v) n lo hi);
        ended = kept_running (stored v) (ground arith);
      }

  All-snoc : (ws : List ℕ) (w : ℕ) → All (λ v. v < n) ws → w < n → All (λ v. v < n) (ws ++ w ∷ [])
  All-snoc [] w hs lt = (lt, tt)
  All-snoc (u ∷ us) w (a, hs) lt = (a, All-snoc us w hs lt)

  print-Inv :
      (v : ℕ)
      → s.pc i ≡ stored v
      → Inv n (record s { pc = update s.pc i returned; out = s.out ++ v ∷ [] })
  print-Inv v at =
      let s' : State = record s { pc = update s.pc i returned; out = s.out ++ v ∷ [] } in
      let mine : Holds n s (stored v) = subst (Holds n s) at (h.held i) in
      let sums : sum_to (λ k. has_stored (s'.pc k)) n ≡ sum_to (λ k. has_stored (s.pc k)) n =
        ground (arith, sum_to-update has_stored s.pc i returned n lo hi) in
      let see : (j : ℕ) → Seen s j → Seen s' j = λ j seen. elim seen [
        | inl (k, e) ↦ elim (Bool-cases (i == k)) [
          | inl same ↦ inr (ground (arith, contains-snoc s.out v j, same, at, e))
          | inr other ↦ inl (k, ground (arith, other, e))
        ]
        | inr e ↦ inr (ground (arith, contains-snoc s.out v j, e))
      ] in
      record {
        created = h.created;
        range = range-update n s.pc i returned lo hi h.range;
        bound = omega (arith, h.bound);
        gaps = λ j lt. see j (h.gaps j lt);
        held = held-update s' returned (omega arith) see tt;
        printed = All-snoc s.out v h.printed (omega (arith, mine.0, few_stored n s));
        out_gaps = λ w j c lt. elim (Bool-cases (contains s.out w)) [
          | inl old ↦ see j (h.out_gaps w j old lt)
          | inr new ↦
              let this : v ≡ w = ground (arith, contains-snoc s.out v w, c, new) in
              see j (mine.1 j (omega arith))
        ];
        counted =
            length-append s.out (v ∷ [])
            ∙ ground (arith, h.counted, sum_to-update has_returned s.pc i returned n lo hi);
        ended = kept_running returned (ground arith);
      }

  f_at-Inv : (p : Pc) → s.pc i ≡ p → After n (f_at p i s)
  unfolding f_at After
  f_at-Inv idle at = load-Inv at
  f_at-Inv (loaded v) at = store-Inv v at
  f_at-Inv (stored v) at = print-Inv v at
  f_at-Inv returned at = tt

step-Inv : (n i : ℕ) (s : State) → Inv n s → After n (step n i s)
unfolding step f After
step-Inv n i s h = elim (Bool-cases (i == 0)) [
  | inl main_moves ↦ rw main_moves (main-Inv n s h)
  | inr other ↦ elim (Bool-cases (ltb s.created i)) [
    | inl early ↦ rw (other, early) tt
    | inr late ↦
        rw (other, late)
          (f_at-Inv n s i (ground (arith, other)) (ground (arith, late, h.created)) h (s.pc i) refl)
  ]
]

pub Reached-Inv : (n : ℕ) (s : State) → Reached n s → Inv n s
unfolding After
Reached-Inv n _ at_start = started-Inv n
Reached-Inv n _ (stepped i s s' r e) = subst (After n) e (step-Inv n i s (Reached-Inv n s r))

sum-all_returned :
    (k : ℕ) (pc : ℕ → Pc) → all_returned k pc ≡ true → sum_to (λ i. has_returned (pc i)) k ≡ k
sum-all_returned zero pc e = refl
sum-all_returned (suc k) pc e =
    let here : has_returned (pc (suc k)) ≡ 1 = ground arith in
    omega (arith, sum-all_returned k pc (ground arith), here)

-- When all have returned, what was seen is printed.
Seen-contains :
    (n : ℕ) (s : State) (j : ℕ)
    → Inv n s
    → all_returned n s.pc ≡ true
    → Seen s j
    → contains s.out j ≡ true
Seen-contains n s j h all (inl (i, e)) =
    let (lo, hi) = h.range i (ground (arith, e)) in
    absurd (ground (arith, not_over n s.pc i lo hi (ground (arith, e)), all))
Seen-contains n s j h all (inr e) = e

-- When `over` of cur.c, or `Done` of hello-mt.c, prints its line, whatever the order of the loads and
-- stores of the n threads: n numbers have been printed, each below n, and with a number every
-- smaller one; and x is n at most, and every number below it has been printed.
pub over-no_gaps :
    (n : ℕ) (s : State)
    → Reached n s
    → s.over ≡ true
    → (length s.out ≡ n)
      × All (λ v. v < n) s.out
      × ((v j : ℕ) → contains s.out v ≡ true → j < v → contains s.out j ≡ true)
      × (s.x ≤ n)
      × ((j : ℕ) → j < s.x → contains s.out j ≡ true)
over-no_gaps n s r o =
    let h = Reached-Inv n s r in
    let all = h.ended o in
    (
      h.counted ∙ sum-all_returned n s.pc all,
      h.printed,
      λ v j c lt. Seen-contains n s j h all (h.out_gaps v j c lt),
      omega (arith, h.bound, few_stored n s),
      λ j lt. Seen-contains n s j h all (h.gaps j lt),
    )
