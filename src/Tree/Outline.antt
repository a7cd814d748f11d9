-- ===== src/Tree/Outline.antt =====
-- `buildtree` of tree/tree.c prints the tree that the fields child and peer link, as an outline.
use the_code_back_up_in_ubun.Base.{
  ℕ, zero, suc, ◌+◌, ◌<◌, ◌≡◌, ◌≢◌, refl, ◌∙◌, false, some, List, [], ◌∷◌, ◌++◌, ◌==◌, arith,
}
use the_code_back_up_in_ubun.Tree.{
  depth_at, pid_at, child_at, peer_at, Line, line, build_peers, buildtree,
}

-- Trees side by side: the first one's root, the trees below it, and the others.
pub data Forest : Type 0 where
  bare : Forest
  tree : (root : ℕ) (below behind : Forest) → Forest

abbrev pub size : Forest → ℕ
size bare = 0
size (tree root below behind) = suc (size below + size behind)

-- The memory has the forest at the node p, its roots at the depth d.
abbrev pub Holds : (ℕ → ℕ) → ℕ → ℕ → Forest → Type 0
Holds memory d p bare = p ≡ 0
Holds memory d p (tree root below behind) =
    (p ≡ root)
    × (root ≢ 0)
    × (memory (depth_at root) ≡ d)
    × Holds memory (d + 1) (memory (child_at root)) below
    × Holds memory d (memory (peer_at root)) behind

-- Each node in front of those below it, one level deeper.
abbrev pub outline : (ℕ → List ℕ) → (ℕ → ℕ) → ℕ → Forest → List Line
outline strings pids d bare = []
outline strings pids d (tree root below behind) =
    record { depth = d; string = strings root; pid = pids root }
    ∷ (outline strings pids (d + 1) below ++ outline strings pids d behind)

abbrev pub pids_of : (ℕ → ℕ) → ℕ → ℕ
pids_of memory node = memory (pid_at node)

build_some :
    (fuel : ℕ) (strings : ℕ → List ℕ) (memory : ℕ → ℕ) (node : ℕ) (below behind : List Line)
    → node ≢ 0
    → build_peers fuel strings memory (memory (child_at node)) ≡ some below
    → build_peers fuel strings memory (memory (peer_at node)) ≡ some behind
    → build_peers (suc fuel) strings memory node
      ≡ some (line strings memory node ∷ (below ++ behind))
unfolding build_peers
build_some fuel strings memory node below behind some_node e e' =
    let tested : (node == 0) ≡ false = ground arith in rw (tested, build_peers) (rw e (rw e' refl))

build_peers-outline :
    (fuel : ℕ) (strings : ℕ → List ℕ) (memory : ℕ → ℕ) (d p : ℕ) (f : Forest)
    → Holds memory d p f
    → size f < fuel
    → build_peers fuel strings memory p ≡ some (outline strings (pids_of memory) d f)
unfolding build_peers
build_peers-outline zero strings memory d p f h lt = absurd (omega arith)
build_peers-outline (suc fuel) strings memory d p bare h lt = rw h refl
build_peers-outline (suc fuel) strings memory d p (tree root below behind) (e, some_root, at, h, h')
      lt =
    rw e (
      build_some fuel strings memory root _ _ some_root
        (build_peers-outline fuel strings memory (d + 1) (memory (child_at root)) below h
          (omega arith))
        (build_peers-outline fuel strings memory d (memory (peer_at root)) behind h' (omega arith))
      ∙ rw at refl)

-- If the memory has a forest below the node, the node and the forest with their depths,
-- `buildtree` returns, and prints the node and behind it the outline of the forest, one level
-- deeper.
pub buildtree-outline :
    (fuel : ℕ) (strings : ℕ → List ℕ) (memory : ℕ → ℕ) (d node : ℕ) (below : Forest)
    → memory (depth_at node) ≡ d
    → Holds memory (d + 1) (memory (child_at node)) below
    → size below < fuel
    → buildtree fuel strings memory node
      ≡ some (
          record { depth = d; string = strings node; pid = pids_of memory node }
          ∷ outline strings (pids_of memory) (d + 1) below)
unfolding buildtree
buildtree-outline fuel strings memory d node bare at h lt = rw (h, buildtree) (rw at refl)
buildtree-outline fuel strings memory d node (tree root below behind) at h lt =
    let built =
      build_peers-outline fuel strings memory (d + 1) (memory (child_at node))
        (tree root below behind) h lt in
    let tested : (memory (child_at node) == 0) ≡ false = ground (arith, h.0, h.1) in
    rw (tested, buildtree) (rw built (rw at refl))
