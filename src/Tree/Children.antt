-- ===== src/Tree/Children.antt =====
-- The children of a node of tree/tree.c, and the trees below nodes, by the parents alone.
use the_code_back_up_in_ubun.Base.{
  ℕ, zero, suc, ◌+◌, ◌<◌, ◌≤◌, ◌≡◌, ◌≢◌, refl, ap, true, false, List, [], ◌∷◌, ◌==◌, if◌then◌else◌,
  arith, dec_lt,
}
use the_code_back_up_in_ubun.Tree.{node_at}
use the_code_back_up_in_ubun.Tree.Outline.{Forest, bare, tree}

module _ (parent : ℕ → ℕ) where
  -- The children of the node k among so many nodes from i on, in the order of the array.
  abbrev pub children : ℕ → ℕ → ℕ → List ℕ
  children k i zero = []
  children k i (suc count) =
      if parent i == k then i ∷ children k (i + 1) count else children k (i + 1) count

  pub children_none :
      (k i count : ℕ) → ((j : ℕ) → i ≤ j → j < i + count → parent j ≢ k) → children k i count ≡ []
  children_none k i zero other = refl
  children_none k i (suc count) other =
      let tested : (parent i == k) ≡ false = ground (arith, other i) in
      rw tested (children_none k (i + 1) count (λ j le lt. other j (omega arith) (omega arith)))

  pub children_first :
      (k i count c rest : ℕ)
      → i + count ≡ suc c + rest
      → i ≤ c
      → parent c ≡ k
      → ((j : ℕ) → i ≤ j → j < c → parent j ≢ k)
      → children k i count ≡ c ∷ children k (suc c) rest
  children_first k i zero c rest e le mine other = absurd (omega arith)
  children_first k i (suc count) c rest e le mine other = elim (dec_lt i c) [
    | yes lt ↦
        let tested : (parent i == k) ≡ false = ground (arith, other i) in
        rw tested (
          children_first k (i + 1) count c rest (omega arith) (omega arith) mine
            (λ j le' lt'. other j (omega arith) lt'))
    | no lt ↦
        let here : i ≡ c = omega arith in
        let tested : (parent i == k) ≡ true = ground arith in
        let left : count ≡ rest = omega arith in
        rw (tested, here, left) (ap (λ x. c ∷ children k x rest) (omega arith))
  ]

-- The trees below nodes, with n nodes in the array: the fuel bounds the levels.
module _ (lib n : ℕ) (parent : ℕ → ℕ) where
  abbrev pub grow : ℕ → List ℕ → Forest
  grow zero ks = bare
  grow (suc fuel) [] = bare
  grow (suc fuel) (k ∷ ks) =
      tree (node_at lib k) (grow fuel (children parent k 0 n)) (grow (suc fuel) ks)
