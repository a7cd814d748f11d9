-- ===== src/Tree/Links/First.antt =====
-- The loops of tree/tree.c at the first child of a node.
use the_code_back_up_in_ubun.Base.{
  ℕ, suc, ◌+◌, ◌<◌, ◌≡◌, ◌≢◌, refl, ◌∙◌, ◌⊎◌, inl, inr, ◌==◌, if◌then◌else◌, update, arith,
  Bool-cases,
}
use the_code_back_up_in_ubun.Tree.{deepen, depth_at, pid_at, ppid_at, child_at, peer_at, node_at}
use the_code_back_up_in_ubun.Tree.Links.{Done, Linked}
use the_code_back_up_in_ubun.Tree.Links.Writes.{Family-write, deeper-write, top-write}

module _ (lib i j : ℕ) (memory : ℕ → ℕ) where
  abbrev pub first_memory : ℕ → ℕ
  first_memory =
      deepen (node_at lib i) (node_at lib j)
        (update memory (child_at (node_at lib i)) (node_at lib j))

  abbrev N : ℕ → ℕ
  N k = node_at lib k

  child_lem :
      (k : ℕ) → first_memory (child_at (N k)) ≡ (if i == k then N j else memory (child_at (N k)))
  child_lem k = ground arith

  peer_lem : (k : ℕ) → first_memory (peer_at (N k)) ≡ memory (peer_at (N k))
  peer_lem k = ground arith

  depth_lem :
      (k : ℕ)
      → first_memory (depth_at (N k))
        ≡ (if j == k then memory (depth_at (N i)) + 1 else memory (depth_at (N k)))
  depth_lem k = ground arith

  pub first-ids :
      (k : ℕ)
      → (first_memory (pid_at (N k)) ≡ memory (pid_at (N k)))
        × (first_memory (ppid_at (N k)) ≡ memory (ppid_at (N k)))
  first-ids k = (ground arith, ground arith)

module _ (lib n : ℕ) (parent : ℕ → ℕ) (i j : ℕ) (m m' : ℕ → ℕ) (h : Linked lib n parent i j m)
    (in_i : i < n) (in_j : j < n) (mine : parent j ≡ i) (some_lib : lib ≢ 0)
    (bare : m (child_at (node_at lib i)) ≡ 0)
    (children : (k : ℕ)
      → m' (child_at (node_at lib k))
        ≡ (if i == k then node_at lib j else m (child_at (node_at lib k))))
    (peers : (k : ℕ) → m' (peer_at (node_at lib k)) ≡ m (peer_at (node_at lib k))) where
  child-first :
      (k : ℕ)
      → k < n
      → (m' (child_at (node_at lib k)) ≡ 0)
        ⊎ ((c : ℕ) × (c < n)
            × (parent c ≡ k)
            × Done lib n parent i (suc j) k c
            × (m' (child_at (node_at lib k)) ≡ node_at lib c))
  child-first k lt = elim (Bool-cases (i == k)) [
    | inl same ↦
        inr
          (j, in_j, (ground arith), inr ((ground arith), (omega arith)), children k ∙ rw same refl)
    | inr other ↦ elim (h.child k lt) [
      | inl e ↦ inl (children k ∙ rw other e)
      | inr (c, lt', e, d, e') ↦ inr (c, lt', e, (ground arith), children k ∙ rw other e')
    ]
  ]

  complete-first :
      (s : ℕ)
      → s < n
      → parent s < n
      → Done lib n parent i (suc j) (parent s) s
      → (m' (child_at (node_at lib (parent s))) ≡ node_at lib s)
        ⊎ ((c : ℕ) × (c < s)
            × (m' (child_at (node_at lib (parent s))) ≡ node_at lib c)
            × (m' (peer_at (node_at lib c)) ≡ node_at lib s))
  complete-first s lt lt' d = elim (Bool-cases (i == parent s)) [
    | inl same ↦ elim (Bool-cases (j == s)) [
      | inl e ↦ inl (children (parent s) ∙ rw same (ground arith))
      | inr e ↦ absurd (none_yet s lt lt' (ground arith) (ground arith) bare)
    ]
    | inr other ↦ elim (h.complete s lt lt' (ground arith)) [
      | inl e ↦ inl (children (parent s) ∙ rw other e)
      | inr (c, below, e, e') ↦ inr (c, below, children (parent s) ∙ rw other e, peers c ∙ e')
    ]
  ]
    where
      none_yet :
          (s : ℕ) → s < n → parent s < n → parent s ≡ i → s < j → m (child_at (node_at lib i)) ≢ 0
      none_yet s lt lt' e before e0 = elim (h.complete s lt lt' (inr (e, before))) [
        | inl e1 ↦ ground arith
        | inr (c, below, e1, e2) ↦ ground arith
      ]

  peer-first :
      (c : ℕ)
      → c < n
      → (m' (peer_at (node_at lib c)) ≡ 0)
        ⊎ ((s : ℕ) × (c < s)
            × (s < n)
            × (parent s ≡ parent c)
            × (parent s < n)
            × Done lib n parent i (suc j) (parent s) s
            × (m' (peer_at (node_at lib c)) ≡ node_at lib s))
  peer-first c lt = elim (h.peer c lt) [
    | inl e ↦ inl (peers c ∙ e)
    | inr (s, a, b, e, f, d, e') ↦ inr (s, a, b, e, f, (ground arith), peers c ∙ e')
  ]

-- The first child of a node.
pub first-Linked :
    (lib n : ℕ) (parent : ℕ → ℕ) (i j : ℕ) (m : ℕ → ℕ)
    → Linked lib n parent i j m
    → i < n
    → j < n
    → parent j ≡ i
    → lib ≢ 0
    → m (child_at (node_at lib i)) ≡ 0
    → Linked lib n parent i (suc j) (first_memory lib i j m)
first-Linked lib n parent i j m h in_i in_j mine some_lib bare =
    let m' : ℕ → ℕ = first_memory lib i j m in
    record {
      family =
          Family-write lib n parent i j m m' (first-ids lib i j m) (depth_lem lib i j m) in_i in_j
            mine h.family;
      child =
          child-first lib n parent i j m m' h in_i in_j mine some_lib bare (child_lem lib i j m)
            (peer_lem lib i j m);
      peer =
          peer-first lib n parent i j m m' h in_i in_j mine some_lib bare (child_lem lib i j m)
            (peer_lem lib i j m);
      complete =
          complete-first lib n parent i j m m' h in_i in_j mine some_lib bare (child_lem lib i j m)
            (peer_lem lib i j m);
      deeper =
          deeper-write lib n parent i j m m' (first-ids lib i j m) (depth_lem lib i j m) in_i in_j
            mine h;
      top =
          top-write lib n parent i j m m' (first-ids lib i j m) (depth_lem lib i j m) in_i in_j mine
            h;
    }
