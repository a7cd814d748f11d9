-- ===== src/Tree/Links/Rows.antt =====
-- The loops of tree/tree.c as a whole, where no node has three children.
use the_code_back_up_in_ubun.Base.{
  ℕ, zero, suc, ◌+◌, ◌<◌, ◌≡◌, ◌≢◌, refl, ◌∙◌, subst, inl, inr, some, ◌==◌, arith, Bool-cases,
}
use the_code_back_up_in_ubun.Tree.{
  depth_at, pid_at, ppid_at, child_at, peer_at, node_at, link, link_row, link_rows,
}
use the_code_back_up_in_ubun.Tree.Steps.{link_skips, link-first, link-second}
use the_code_back_up_in_ubun.Tree.Links.{Family, Linked, skip-Linked}
use the_code_back_up_in_ubun.Tree.Links.First.{first_memory, first-ids, first-Linked}
use the_code_back_up_in_ubun.Tree.Links.Second.{second_memory, second-ids, second-Linked}

-- The nodes keep their pids.
abbrev pub SamePids : ℕ → (ℕ → ℕ) → (ℕ → ℕ) → Type 0
SamePids lib m m' = (k : ℕ) → m' (pid_at (node_at lib k)) ≡ m (pid_at (node_at lib k))

module _ (fuel lib n : ℕ) (parent : ℕ → ℕ) (some_lib : lib ≢ 0) where
  -- The body at (i, j) for a child j of the node i.
  link-mine :
      (i j : ℕ) (m : ℕ → ℕ)
      → Linked lib n parent i j m
      → i < n
      → j < n
      → parent j ≡ i
      → (m' : ℕ → ℕ) × (link fuel (node_at lib i) (node_at lib j) m ≡ some m')
        × Linked lib n parent i (suc j) m'
        × SamePids lib m m'
  link-mine i j m h in_i in_j mine =
      let ids : m (ppid_at (node_at lib j)) ≡ m (pid_at (node_at lib i)) =
        ground (arith, h.family.ids i j in_i in_j) in
      elim (h.child i in_i) [
        | inl bare ↦ (
          first_memory lib i j m,
          link-first fuel (node_at lib i) (node_at lib j) _ m refl ids bare,
          first-Linked lib n parent i j m h in_i in_j mine some_lib bare,
          (λ k. (first-ids lib i j m k).0),
        )
        | inr (c, in_c, of_c, d, elder) ↦
            let before : c < j = ground arith in
            elim (h.peer c in_c) [
              | inl bare ↦ (
                second_memory lib i j c m,
                link-second fuel (node_at lib i) (node_at lib j) (node_at lib c) m elder ids
                    (omega arith) bare,
                second-Linked lib n parent i j c m h in_i in_j mine some_lib in_c of_c before elder
                    bare,
                (λ k. (second-ids lib i j c m k).0),
              )
              | inr (s, below, in_s, of_s, lt, d', e) ↦ absurd (
                  h.family.two c s j below (ground arith) in_j (ground arith) (ground arith)
                    (ground arith))
            ]
      ]

  link-Linked :
      (i j : ℕ) (m : ℕ → ℕ)
      → Linked lib n parent i j m
      → i < n
      → j < n
      → (m' : ℕ → ℕ) × (link fuel (node_at lib i) (node_at lib j) m ≡ some m')
        × Linked lib n parent i (suc j) m'
        × SamePids lib m m'
  link-Linked i j m h in_i in_j = elim (Bool-cases (parent j == i)) [
    | inl mine ↦ link-mine i j m h in_i in_j (ground arith)
    | inr other ↦ (
      m,
      link_skips fuel (node_at lib i) (node_at lib j) _ m refl
          (ground (arith, h.family.ids i j in_i in_j)),
      skip-Linked lib n parent i j m h (ground arith),
      (λ k. refl),
    )
  ]

  link_row-Linked :
      (i k j : ℕ) (m : ℕ → ℕ)
      → Linked lib n parent i j m
      → i < n
      → j + k ≡ n
      → (m' : ℕ → ℕ) × (link_row fuel lib i k j m ≡ some m')
        × Linked lib n parent i n m'
        × SamePids lib m m'
  unfolding link_row
  link_row-Linked i zero j m h in_i e =
      let e' : j ≡ n = omega arith in
      (m, refl, subst (λ k. Linked lib n parent i k m) e' h, (λ k. refl))
  link_row-Linked i (suc k) j m h in_i e =
      let (m1, run, h1, p1) = link-Linked i j m h in_i (omega arith) in
      let e1 : suc j ≡ j + 1 = omega arith in
      let (m2, run2, h2, p2) =
        link_row-Linked i k (j + 1) m1 (subst (λ k'. Linked lib n parent i k' m1) e1 h1) in_i
          (omega arith) in
      (m2, rw (run, link_row) run2, h2, (λ k'. p2 k' ∙ p1 k'))

  end_row : (i : ℕ) (m : ℕ → ℕ) → Linked lib n parent i n m → Linked lib n parent (i + 1) 0 m
  end_row i m h = record {
    family = h.family;
    child = λ k lt. elim (h.child k lt) [
      | inl e ↦ inl e
      | inr (c, lt', e, d, e') ↦ inr (c, lt', e, (ground arith), e')
    ];
    peer = λ c lt. elim (h.peer c lt) [
      | inl e ↦ inl e
      | inr (s, a, b, e, f, d, e') ↦ inr (s, a, b, e, f, (ground arith), e')
    ];
    complete = λ s lt lt' d. h.complete s lt lt' (ground arith);
    deeper = λ s lt lt' d. h.deeper s lt lt' (ground arith);
    top = h.top;
  }

  link_rows-Linked :
      (k i : ℕ) (m : ℕ → ℕ)
      → Linked lib n parent i 0 m
      → i + k ≡ n
      → (m' : ℕ → ℕ) × (link_rows fuel lib n k i m ≡ some m')
        × Linked lib n parent n 0 m'
        × SamePids lib m m'
  unfolding link_rows
  link_rows-Linked zero i m h e =
      let e' : i ≡ n = omega arith in
      (m, refl, subst (λ k. Linked lib n parent k 0 m) e' h, (λ k. refl))
  link_rows-Linked (suc k) i m h e =
      let (m1, run, h1, p1) = link_row-Linked i n 0 m h (omega arith) (omega arith) in
      let (m2, run2, h2, p2) = link_rows-Linked k (i + 1) m1 (end_row i m1 h1) (omega arith) in
      (m2, rw (run, link_rows) run2, h2, (λ k'. p2 k' ∙ p1 k'))

-- In an array of n nodes whose pids give each node its parent, which stands in front of it, or none,
-- and where no node has three children: the loops end on a memory without links, and behind them
-- the field child of each node is its first child, the field peer of that is the second, every
-- other child and peer is NULL, each depth is one more than the parent's, or 0, and the pids are as
-- before.
pub link_rows_lem :
    (fuel lib n : ℕ) (parent : ℕ → ℕ) (m : ℕ → ℕ)
    → lib ≢ 0
    → Family lib n parent m
    → ((k : ℕ)
        → k < n
        → (m (child_at (node_at lib k)) ≡ 0)
          × (m (peer_at (node_at lib k)) ≡ 0)
          × (m (depth_at (node_at lib k)) ≡ 0))
    → (m' : ℕ → ℕ) × (link_rows fuel lib n n 0 m ≡ some m')
      × Linked lib n parent n 0 m'
      × SamePids lib m m'
link_rows_lem fuel lib n parent m some_lib f clear =
    link_rows-Linked fuel lib n parent some_lib n 0 m
      (record {
        family = f;
        child = λ k lt. inl ((clear k lt).0);
        peer = λ c lt. inl ((clear c lt).1);
        complete = λ s lt lt' d. absurd (omega arith);
        deeper = λ s lt lt' d. absurd (omega arith);
        top = λ s lt out. (clear s lt).2;
      })
      (omega arith)
