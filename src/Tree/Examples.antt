-- ===== src/Tree/Examples.antt =====
-- The third child of tree/tree.c in the array of its `main`, and what `main` prints.
use the_code_back_up_in_ubun.Base.{
  ℕ, ◌≡◌, refl, Option, none, some, List, [], ◌∷◌, map, ◌==◌, if◌then◌else◌,
}
use the_code_back_up_in_ubun.Tree.{
  lite_processes, processes, link, link_rows, Line, buildtree, main, load, load_strings,
  clear_nodes, link_row, findpeertail, build_peers,
}

-- The array of `main`, with zeros on the stack but for the root's ppid, when the loops over `lib`
-- come to i = 0 and j = 3: the nodes 1 and 2 are children of the root, and the node 3 is the next.
abbrev cleared : ℕ → ℕ
cleared =
    clear_nodes 7 1000
      (load lite_processes 5000 (load processes 1000 (λ a. if a == 1072 then 77 else 0)))

abbrev or_cleared : Option (ℕ → ℕ) → ℕ → ℕ
or_cleared none = cleared
or_cleared (some memory) = memory

abbrev two_linked : ℕ → ℕ
two_linked = or_cleared (link_row 9 1000 0 3 0 cleared)

-- The program, with zeros on the stack but for the root's ppid: the depths and the pids.
abbrev shape : Option (List Line) → List (ℕ × ℕ)
shape none = []
shape (some ls) = map (λ (l : Line). (l.depth, l.pid)) ls

main_runs :
    shape (main 20 1000 5000 (λ a. if a == 1072 then 77 else 0))
    ≡ (0, 0) ∷ (1, 19) ∷ (2, 992) ∷ (3, 32) ∷ (2, 21) ∷ (1, 29) ∷ (1, 39) ∷ []
unfolding main load load_strings clear_nodes link_rows link_row link findpeertail buildtree
    build_peers
main_runs = refl
