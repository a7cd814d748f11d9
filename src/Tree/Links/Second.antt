-- ===== src/Tree/Links/Second.antt =====
-- The loops of tree/tree.c at the second child of a node.
use the_code_back_up_in_ubun.Base.{
  ℕ, suc, ◌+◌, ◌<◌, ◌≡◌, ◌≢◌, refl, ◌∙◌, ◌⊎◌, inl, inr, ◌==◌, if◌then◌else◌, update, arith,
  Bool-cases,
}
use the_code_back_up_in_ubun.Tree.{deepen, depth_at, pid_at, ppid_at, child_at, peer_at, node_at}
use the_code_back_up_in_ubun.Tree.Links.{Done, Linked}
use the_code_back_up_in_ubun.Tree.Links.Writes.{Family-write, deeper-write, top-write}

module _ (lib i j c : ℕ) (memory : ℕ → ℕ) where
  abbrev pub second_memory : ℕ → ℕ
  second_memory =
      deepen (node_at lib i) (node_at lib j)
        (update memory (peer_at (node_at lib c)) (node_at lib j))

  abbrev N : ℕ → ℕ
  N k = node_at lib k

  child_lem : (k : ℕ) → second_memory (child_at (N k)) ≡ memory (child_at (N k))
  child_lem k = ground arith

  peer_lem :
      (k : ℕ) → second_memory (peer_at (N k)) ≡ (if c == k then N j else memory (peer_at (N k)))
  peer_lem k = ground arith

  depth_lem :
      (k : ℕ)
      → second_memory (depth_at (N k))
        ≡ (if j == k then memory (depth_at (N i)) + 1 else memory (depth_at (N k)))
  depth_lem k = ground arith

  pub second-ids :
      (k : ℕ)
      → (second_memory (pid_at (N k)) ≡ memory (pid_at (N k)))
        × (second_memory (ppid_at (N k)) ≡ memory (ppid_at (N k)))
  second-ids k = (ground arith, ground arith)

module _ (lib n : ℕ) (parent : ℕ → ℕ) (i j c : ℕ) (m m' : ℕ → ℕ) (h : Linked lib n parent i j m)
    (in_i : i < n) (in_j : j < n) (mine : parent j ≡ i) (some_lib : lib ≢ 0) (in_c : c < n)
    (of_c : parent c ≡ i) (before : c < j) (elder : m (child_at (node_at lib i)) ≡ node_at lib c)
    (bare : m (peer_at (node_at lib c)) ≡ 0)
    (children : (k : ℕ) → m' (child_at (node_at lib k)) ≡ m (child_at (node_at lib k)))
    (peers : (k : ℕ)
      → m' (peer_at (node_at lib k))
        ≡ (if c == k then node_at lib j else m (peer_at (node_at lib k)))) where
  child-second :
      (k : ℕ)
      → k < n
      → (m' (child_at (node_at lib k)) ≡ 0)
        ⊎ ((c' : ℕ) × (c' < n)
            × (parent c' ≡ k)
            × Done lib n parent i (suc j) k c'
            × (m' (child_at (node_at lib k)) ≡ node_at lib c'))
  child-second k lt = elim (h.child k lt) [
    | inl e ↦ inl (children k ∙ e)
    | inr (c', lt', e, d, e') ↦ inr (c', lt', e, (ground arith), children k ∙ e')
  ]

  peer-second :
      (k : ℕ)
      → k < n
      → (m' (peer_at (node_at lib k)) ≡ 0)
        ⊎ ((s : ℕ) × (k < s)
            × (s < n)
            × (parent s ≡ parent k)
            × (parent s < n)
            × Done lib n parent i (suc j) (parent s) s
            × (m' (peer_at (node_at lib k)) ≡ node_at lib s))
  peer-second k lt = elim (Bool-cases (c == k)) [
    | inl same ↦ inr (
      j,
      (ground arith),
      in_j,
      (ground arith),
      (ground arith),
      inr (mine, (omega arith)),
      peers k ∙ rw same refl,
    )
    | inr other ↦ elim (h.peer k lt) [
      | inl e ↦ inl (peers k ∙ rw other e)
      | inr (s, a, b, e, f, d, e') ↦ inr (s, a, b, e, f, (ground arith), peers k ∙ rw other e')
    ]
  ]

  complete-second :
      (s : ℕ)
      → s < n
      → parent s < n
      → Done lib n parent i (suc j) (parent s) s
      → (m' (child_at (node_at lib (parent s))) ≡ node_at lib s)
        ⊎ ((c' : ℕ) × (c' < s)
            × (m' (child_at (node_at lib (parent s))) ≡ node_at lib c')
            × (m' (peer_at (node_at lib c')) ≡ node_at lib s))
  complete-second s lt lt' d = elim (Bool-cases (j == s)) [
    | inl same ↦
        inr (c, (ground arith), children (parent s) ∙ (ground arith), peers c ∙ (ground arith))
    | inr other ↦ elim (h.complete s lt lt' (ground arith)) [
      | inl e ↦ inl (children (parent s) ∙ e)
      | inr (c', below, e, e') ↦ elim (Bool-cases (c == c')) [
        | inl same ↦ absurd (ground arith)
        | inr apart ↦ inr (c', below, children (parent s) ∙ e, peers c' ∙ rw apart e')
      ]
    ]
  ]

-- The second child of a node.
pub second-Linked :
    (lib n : ℕ) (parent : ℕ → ℕ) (i j c : ℕ) (m : ℕ → ℕ)
    → Linked lib n parent i j m
    → i < n
    → j < n
    → parent j ≡ i
    → lib ≢ 0
    → c < n
    → parent c ≡ i
    → c < j
    → m (child_at (node_at lib i)) ≡ node_at lib c
    → m (peer_at (node_at lib c)) ≡ 0
    → Linked lib n parent i (suc j) (second_memory lib i j c m)
second-Linked lib n parent i j c m h in_i in_j mine some_lib in_c of_c before elder bare =
    let m' : ℕ → ℕ = second_memory lib i j c m in
    record {
      family =
          Family-write lib n parent i j m m' (second-ids lib i j c m) (depth_lem lib i j c m) in_i
            in_j mine h.family;
      child =
          child-second lib n parent i j c m m' h in_i in_j mine some_lib in_c of_c before elder bare
            (child_lem lib i j c m) (peer_lem lib i j c m);
      peer =
          peer-second lib n parent i j c m m' h in_i in_j mine some_lib in_c of_c before elder bare
            (child_lem lib i j c m) (peer_lem lib i j c m);
      complete =
          complete-second lib n parent i j c m m' h in_i in_j mine some_lib in_c of_c before elder
            bare (child_lem lib i j c m) (peer_lem lib i j c m);
      deeper =
          deeper-write lib n parent i j m m' (second-ids lib i j c m) (depth_lem lib i j c m) in_i
            in_j mine h;
      top =
          top-write lib n parent i j m m' (second-ids lib i j c m) (depth_lem lib i j c m) in_i in_j
            mine h;
    }
