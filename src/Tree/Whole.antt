-- ===== src/Tree/Whole.antt =====
-- The loops of tree/tree.c and buildtree behind them.
use the_code_back_up_in_ubun.Base.{
  ℕ, zero, suc, ◌+◌, ◌<◌, ◌≤◌, ◌≡◌, ◌≢◌, refl, ◌∙◌, some, List, [], ◌∷◌, arith,
}
use the_code_back_up_in_ubun.Tree.{
  depth_at, pid_at, child_at, peer_at, node_at, link_rows, buildtree,
}
use the_code_back_up_in_ubun.Tree.Outline.{size, outline, pids_of, buildtree-outline}
use the_code_back_up_in_ubun.Tree.Links.{Family}
use the_code_back_up_in_ubun.Tree.Links.Rows.{SamePids, link_rows_lem}
use the_code_back_up_in_ubun.Tree.Children.{children, grow}
use the_code_back_up_in_ubun.Tree.Grown.{below_Holds}

outline_pids :
    (lib n : ℕ) (parent : ℕ → ℕ) (strings : ℕ → List ℕ) (m m' : ℕ → ℕ) (fuel d : ℕ) (ks : List ℕ)
    → SamePids lib m m'
    → outline strings (pids_of m') d (grow lib n parent fuel ks)
      ≡ outline strings (pids_of m) d (grow lib n parent fuel ks)
outline_pids lib n parent strings m m' zero d ks same = refl
outline_pids lib n parent strings m m' (suc fuel) d [] same = refl
outline_pids lib n parent strings m m' (suc fuel) d (k ∷ ks) same =
    rw
      (
        same k,
        outline_pids lib n parent strings m m' fuel (d + 1) (children parent k 0 n) same,
        outline_pids lib n parent strings m m' (suc fuel) d ks same,
      )
      refl

-- In an array of n nodes whose pids give each node but the first its parent, which stands in front
-- of it, or none, and where no node has three children, on a memory without links: the loops end,
-- and buildtree, with fuel for the nodes below the first, prints the first node and behind it, one
-- level deeper, the outline of the trees that the parents give, the children of each node in the
-- order of the array, with the strings and pids of the array.
pub link_rows-buildtree :
    (fuel fuel' lib n : ℕ) (parent : ℕ → ℕ) (strings : ℕ → List ℕ) (m : ℕ → ℕ)
    → lib ≢ 0
    → 0 < n
    → n ≤ parent 0
    → Family lib n parent m
    → ((k : ℕ)
        → k < n
        → (m (child_at (node_at lib k)) ≡ 0)
          × (m (peer_at (node_at lib k)) ≡ 0)
          × (m (depth_at (node_at lib k)) ≡ 0))
    → size (grow lib n parent n (children parent 0 0 n)) < fuel'
    → (m' : ℕ → ℕ) × (link_rows fuel lib n n 0 m ≡ some m')
      × (buildtree fuel' strings m' (node_at lib 0)
          ≡ some (
              record {
                depth = 0;
                string = strings (node_at lib 0);
                pid = m (pid_at (node_at lib 0));
              }
              ∷ outline strings (pids_of m) 1 (grow lib n parent n (children parent 0 0 n))))
link_rows-buildtree fuel fuel' lib n parent strings m some_lib some_node top family clear enough =
    let (m', run, linked, same) = link_rows_lem fuel lib n parent m some_lib family clear in
    let root = linked.top 0 some_node top in
    (
      m',
      run,
      buildtree-outline fuel' strings m' 0 (node_at lib 0)
            (grow lib n parent n (children parent 0 0 n)) root
            (below_Holds lib n parent some_lib m' linked n 0 0 some_node (omega arith) root) enough
          ∙ rw (same 0, outline_pids lib n parent strings m m' n 1 (children parent 0 0 n) same)
              refl,
    )
