-- ===== src/Tree/Links.antt =====
-- The loops of tree/tree.c that link the nodes of the array, where no node has three children.
pub mod First
pub mod Rows
pub mod Second
pub mod Writes
use the_code_back_up_in_ubun.Base.{
  ℕ, zero, suc, ◌+◌, ◌*◌, ◌<◌, ◌≤◌, ◌≡◌, ◌≢◌, refl, ◌⊎◌, inl, inr, Bool, true, false, Option, none,
  some, ◌==◌, if◌then◌else◌, update, arith,
}
use the_code_back_up_in_ubun.Tree.{depth_at, pid_at, ppid_at, child_at, peer_at, node_at, link}

-- n nodes at lib; `parent j` is the index of the parent of the node j, or n or more if it has none.
module _ (lib n : ℕ) (parent : ℕ → ℕ) where
  abbrev pub at : ℕ → ℕ
  at i = node_at lib i

  -- The pids give the parents, a parent stands in front of its children, and it has two at most.
  pub record Family (memory : ℕ → ℕ) : Type 0 where
    pub ids :
        (i j : ℕ)
        → i < n
        → j < n
        → (memory (ppid_at (at j)) == memory (pid_at (at i))) ≡ (parent j == i)
    pub in_front : (j : ℕ) → j < n → parent j < n → parent j < j
    pub two :
        (a b c : ℕ)
        → a < b
        → b < c
        → c < n
        → parent c < n
        → parent a ≡ parent c
        → parent b ≢ parent c

  -- The pairs of the loops in front of (i, j).
  abbrev pub Done : ℕ → ℕ → ℕ → ℕ → Type 0
  Done i j i' j' = (i' < i) ⊎ (i' ≡ i) × (j' < j)

  -- The links in front of (i, j).
  pub record Linked (i j : ℕ) (memory : ℕ → ℕ) : Type 0 where
    pub family : Family memory
    pub child :
        (k : ℕ)
        → k < n
        → (memory (child_at (at k)) ≡ 0)
          ⊎ ((c : ℕ) × (c < n) × (parent c ≡ k) × Done i j k c × (memory (child_at (at k)) ≡ at c))
    pub peer :
        (c : ℕ)
        → c < n
        → (memory (peer_at (at c)) ≡ 0)
          ⊎ ((s : ℕ) × (c < s)
              × (s < n)
              × (parent s ≡ parent c)
              × (parent s < n)
              × Done i j (parent s) s
              × (memory (peer_at (at c)) ≡ at s))
    pub complete :
        (s : ℕ)
        → s < n
        → parent s < n
        → Done i j (parent s) s
        → (memory (child_at (at (parent s))) ≡ at s)
          ⊎ ((c : ℕ) × (c < s)
              × (memory (child_at (at (parent s))) ≡ at c)
              × (memory (peer_at (at c)) ≡ at s))
    pub deeper :
        (s : ℕ)
        → s < n
        → parent s < n
        → Done i j (parent s) s
        → memory (depth_at (at s)) ≡ memory (depth_at (at (parent s))) + 1
    pub top : (s : ℕ) → s < n → n ≤ parent s → memory (depth_at (at s)) ≡ 0

  pub skip-Linked :
      (i j : ℕ) (memory : ℕ → ℕ) → Linked i j memory → parent j ≢ i → Linked i (suc j) memory
  skip-Linked i j memory h ne = record {
    family = h.family;
    child = λ k lt. ground (arith, h.child k lt);
    peer = λ c lt. ground (arith, h.peer c lt);
    complete = λ s lt lt' d. h.complete s lt lt' (earlier s d);
    deeper = λ s lt lt' d. h.deeper s lt lt' (earlier s d);
    top = h.top;
  }
    where
      earlier : (s : ℕ) → Done i (suc j) (parent s) s → Done i j (parent s) s
      earlier s d = ground arith
