-- ===== src/Tree/Links/Writes.antt =====
-- What the writes of the loops of tree/tree.c leave as it was.
-- The loops of tree/tree.c at the first child of a node.
use the_code_back_up_in_ubun.Base.{
  ℕ, suc, ◌+◌, ◌<◌, ◌≤◌, ◌≡◌, inl, inr, ◌==◌, if◌then◌else◌, arith, Bool-cases,
}
use the_code_back_up_in_ubun.Tree.{depth_at, pid_at, ppid_at, node_at}
use the_code_back_up_in_ubun.Tree.Links.{Family, Done, Linked}

-- A memory m' that differs from m as the writes of the loop's body say.
module _ (lib n : ℕ) (parent : ℕ → ℕ) (i j : ℕ) (m m' : ℕ → ℕ)
    (ids : (k : ℕ)
      → (m' (pid_at (node_at lib k)) ≡ m (pid_at (node_at lib k)))
        × (m' (ppid_at (node_at lib k)) ≡ m (ppid_at (node_at lib k))))
    (depths : (k : ℕ)
      → m' (depth_at (node_at lib k))
        ≡ (if j == k then m (depth_at (node_at lib i)) + 1 else m (depth_at (node_at lib k))))
    (in_i : i < n) (in_j : j < n) (mine : parent j ≡ i) where
  pub Family-write : Family lib n parent m → Family lib n parent m'
  Family-write f = record {
    ids = λ a b lt lt'. rw ((ids b).1) (rw ((ids a).0) (f.ids a b lt lt'));
    in_front = f.in_front;
    two = f.two;
  }

  pub deeper-write :
      Linked lib n parent i j m
      → (s : ℕ) → s < n
      → parent s < n
      → Done lib n parent i (suc j) (parent s) s
      → m' (depth_at (node_at lib s)) ≡ m' (depth_at (node_at lib (parent s))) + 1
  deeper-write h s lt lt' d = elim (Bool-cases (j == s)) [
    | inl same ↦ ground (arith, depths s, depths (parent s), h.family.in_front s lt lt')
    | inr other ↦ ground (
      arith,
      depths s,
      depths (parent s),
      h.deeper s lt lt',
      h.family.in_front j in_j,
      h.family.in_front s lt lt',
    )
  ]

  pub top-write :
      Linked lib n parent i j m → (s : ℕ) → s < n → n ≤ parent s → m' (depth_at (node_at lib s)) ≡ 0
  top-write h s lt out = ground (arith, depths s, h.top s lt out)
