-- ===== src/Tree.antt =====
-- tree/tree.c: the process tree, linked in an array of nodes and printed. The memory is a function
-- of the byte address: the value of the field that starts there. A node is 96 bytes long.
mod Examples
pub mod Children
pub mod Grown
pub mod Links
pub mod Outline
pub mod Steps
pub mod Tail
pub mod Whole
use the_code_back_up_in_ubun.Base.{
  ℕ, zero, suc, ◌+◌, ◌*◌, Bool, true, false, not, ◌&&◌, Option, none, some, List, [], ◌∷◌, ◌++◌,
  ◌==◌, if◌then◌else◌, update,
}

-- `&node->depth` and so on, from the address of the node, which is that of its string.
abbrev pub depth_at : ℕ → ℕ
depth_at node = node + 64

abbrev pub pid_at : ℕ → ℕ
pid_at node = node + 68

abbrev pub ppid_at : ℕ → ℕ
ppid_at node = node + 72

abbrev pub child_at : ℕ → ℕ
child_at node = node + 80

abbrev pub peer_at : ℕ → ℕ
peer_at node = node + 88

-- `&lib[i]`.
abbrev pub node_at : ℕ → ℕ → ℕ
node_at lib i = lib + 96 * i

-- `none` is the end of the fuel.
unfoldable pub findpeertail : ℕ → (ℕ → ℕ) → ℕ → Option ℕ
findpeertail zero memory end = none
findpeertail (suc fuel) memory end =
    let rest = findpeertail fuel memory (memory (peer_at end)) in
    if memory (peer_at end) == 0 then some end else rest

-- `lib[j].depth = lib[i].depth + 1`.
abbrev pub deepen : ℕ → ℕ → (ℕ → ℕ) → ℕ → ℕ
deepen x y memory = update memory (depth_at y) (memory (depth_at x) + 1)

-- The body of both loops, for the nodes x and y: `lib[i]` and `lib[j]`. It is the field `peer` of
-- the child that findpeertail is called with, in place of the child.
unfoldable pub link : ℕ → ℕ → ℕ → (ℕ → ℕ) → Option (ℕ → ℕ)
unfolding findpeertail
link fuel x y memory =
    let child = memory (child_at x) in
    if (child == 0) && (memory (ppid_at y) == memory (pid_at x))
    then some (deepen x y (update memory (child_at x) y))
    else if not (child == 0) && (memory (ppid_at y) == memory (pid_at x))
    then (if memory (peer_at child) == 0
        then some (deepen x y (update memory (peer_at child) y))
        else elim (findpeertail fuel memory (peer_at child)) [
          | none ↦ none
          | some temp ↦ some (deepen x y (update memory (peer_at temp) y))
        ])
    else some memory

-- The inner loop, k rounds from j on, and the outer one, k rounds from i on, over n nodes.
unfoldable pub link_row : ℕ → ℕ → ℕ → ℕ → ℕ → (ℕ → ℕ) → Option (ℕ → ℕ)
unfolding link
link_row fuel lib i zero j memory = some memory
link_row fuel lib i (suc k) j memory = elim (link fuel (node_at lib i) (node_at lib j) memory) [
  | none ↦ none
  | some memory' ↦ link_row fuel lib i k (j + 1) memory'
]

unfoldable pub link_rows : ℕ → ℕ → ℕ → ℕ → ℕ → (ℕ → ℕ) → Option (ℕ → ℕ)
unfolding link_row
link_rows fuel lib n zero i memory = some memory
link_rows fuel lib n (suc k) i memory = elim (link_row fuel lib i n 0 memory) [
  | none ↦ none
  | some memory' ↦ link_rows fuel lib n k (i + 1) memory'
]

-- A line of the output: `depth` times two spaces, the string, and the pid.
pub record Line : Type 0 where
  pub depth : ℕ
  pub string : List ℕ
  pub pid : ℕ

abbrev pub line : (ℕ → List ℕ) → (ℕ → ℕ) → ℕ → Line
line strings memory node = record {
  depth = memory (depth_at node);
  string = strings node;
  pid = memory (pid_at node);
}

-- The `while` of `buildtree`, with its calls of `buildtree`, from temp_node on.
unfoldable pub build_peers : ℕ → (ℕ → List ℕ) → (ℕ → ℕ) → ℕ → Option (List Line)
build_peers zero strings memory temp_node = none
build_peers (suc fuel) strings memory temp_node = elim (temp_node == 0) [
  | true ↦ some []
  | false ↦ elim (build_peers fuel strings memory (memory (child_at temp_node))) [
    | none ↦ none
    | some below ↦ elim (build_peers fuel strings memory (memory (peer_at temp_node))) [
      | none ↦ none
      | some behind ↦ some (line strings memory temp_node ∷ (below ++ behind))
    ]
  ]
]

unfoldable pub buildtree : ℕ → (ℕ → List ℕ) → (ℕ → ℕ) → ℕ → Option (List Line)
unfolding build_peers
buildtree fuel strings memory node =
    if memory (child_at node) == 0
    then some (line strings memory node ∷ [])
    else elim (build_peers fuel strings memory (memory (child_at node))) [
      | none ↦ none
      | some ls ↦ some (line strings memory node ∷ ls)
    ]

-- What `main` stores of a node: the pid, the ppid, which the root has none of, and the string.
pub record Process : Type 0 where
  pub pid : ℕ
  pub ppid : Option ℕ
  pub string : List ℕ

abbrev process : ℕ → Option ℕ → List ℕ → Process
process pid ppid string = record { pid = pid; ppid = ppid; string = string }

abbrev hello : List ℕ
hello = b'H' ∷ b'e' ∷ b'l' ∷ b'l' ∷ b'o' ∷ b',' ∷ b' ' ∷ []

-- "Hello, Ice!", "Hello, Dream!" and "Hello, Angel!" are those of lib_lite.
abbrev pub lite_processes : List Process
lite_processes =
    process 992 (some 19) (hello ++ b'I' ∷ b'c' ∷ b'e' ∷ b'!' ∷ [])
    ∷ process 21 (some 19) (hello ++ b'D' ∷ b'r' ∷ b'e' ∷ b'a' ∷ b'm' ∷ b'!' ∷ [])
    ∷ process 32 (some 992) (hello ++ b'A' ∷ b'n' ∷ b'g' ∷ b'e' ∷ b'l' ∷ b'!' ∷ [])
    ∷ []

abbrev pub processes : List Process
processes =
    process 0 none (hello ++ b'w' ∷ b'o' ∷ b'r' ∷ b'l' ∷ b'd' ∷ b'!' ∷ [])
    ∷ process 19 (some 0) (hello ++ b'f' ∷ b'u' ∷ b't' ∷ b'u' ∷ b'r' ∷ b'e' ∷ b'!' ∷ [])
    ∷ process 29 (some 0) (hello ++ b'H' ∷ b'e' ∷ b'r' ∷ b'o' ∷ b'!' ∷ [])
    ∷ process 39 (some 0) (hello ++ b'Z' ∷ b'h' ∷ b'u' ∷ b'i' ∷ b'!' ∷ [])
    ∷ lite_processes

abbrev store_ppid : Option ℕ → ℕ → (ℕ → ℕ) → ℕ → ℕ
store_ppid none node memory = memory
store_ppid (some ppid) node memory = update memory (ppid_at node) ppid

-- The copies into `lib` and `lib_lite`; what is not stored is what the stack holds.
unfoldable pub load : List Process → ℕ → (ℕ → ℕ) → ℕ → ℕ
load [] node memory = memory
load (p ∷ ps) node memory =
    load ps (node + 96) (store_ppid p.ppid node (update memory (pid_at node) p.pid))

unfoldable pub load_strings : List Process → ℕ → (ℕ → List ℕ) → ℕ → List ℕ
load_strings [] node strings = strings
load_strings (p ∷ ps) node strings = load_strings ps (node + 96) (update strings node p.string)

-- The loop over `lib` that clears depth, child and peer, k rounds.
unfoldable pub clear_nodes : ℕ → ℕ → (ℕ → ℕ) → ℕ → ℕ
clear_nodes zero node memory = memory
clear_nodes (suc k) node memory =
    clear_nodes k (node + 96)
      (update (update (update memory (depth_at node) 0) (child_at node) 0) (peer_at node) 0)

-- `main`, over what the stack holds: the lines that `buildtree` prints.
unfoldable pub main : ℕ → ℕ → ℕ → (ℕ → ℕ) → Option (List Line)
unfolding load load_strings clear_nodes link_rows buildtree
main fuel lib lib_lite stack =
    let memory = clear_nodes 7 lib (load lite_processes lib_lite (load processes lib stack)) in
    let strings = load_strings processes lib (λ node. []) in
    elim (link_rows fuel lib_lite 3 3 0 memory) [
      | none ↦ none
      | some memory' ↦ elim (link_rows fuel lib 7 7 0 memory') [
        | none ↦ none
        | some memory'' ↦ buildtree fuel strings memory'' lib
      ]
    ]
