-- ===== src/Tree/Grown.antt =====
-- The loops of tree/tree.c link the trees that the parents give.
use the_code_back_up_in_ubun.Base.{
  ℕ, zero, suc, ◌+◌, ◌-◌, ◌<◌, ◌≤◌, ◌≡◌, ◌≢◌, sym, ◌∙◌, ap, ◌⊎◌, inl, inr, [], ◌∷◌, arith,
}
use the_code_back_up_in_ubun.Tree.{depth_at, child_at, peer_at, node_at}
use the_code_back_up_in_ubun.Tree.Outline.{Holds}
use the_code_back_up_in_ubun.Tree.Links.{Linked}
use the_code_back_up_in_ubun.Tree.Children.{children, children_none, children_first, grow}

module _ (lib n : ℕ) (parent : ℕ → ℕ) (some_lib : lib ≢ 0) (m : ℕ → ℕ)
    (h : Linked lib n parent n 0 m) where
  at_injective : (a b : ℕ) → node_at lib a ≡ node_at lib b → a ≡ b
  at_injective a b e = omega arith

  -- A node without a child is no parent.
  childless : (k j : ℕ) → k < n → j < n → m (child_at (node_at lib k)) ≡ 0 → parent j ≢ k
  childless k j k_lt lt e mine = elim (h.complete j lt (omega arith) (inl (omega arith))) [
    | inl e' ↦ ground arith
    | inr (c, below, e', e'') ↦ ground arith
  ]

  -- A child of a node is the first one or the peer of that.
  child_or_peer :
      (k c j : ℕ)
      → k < n
      → j < n
      → m (child_at (node_at lib k)) ≡ node_at lib c
      → parent j ≡ k
      → (j ≡ c) ⊎ ((c < j) × (m (peer_at (node_at lib c)) ≡ node_at lib j))
  child_or_peer k c j k_lt lt e mine =
      let same = ap (λ x. m (child_at (node_at lib x))) mine in
      elim (h.complete j lt (omega arith) (inl (omega arith))) [
        | inl e' ↦ inl (at_injective j c (sym e' ∙ same ∙ e))
        | inr (c', below, e', e'') ↦
            let eldest : c' ≡ c = at_injective c' c (sym e' ∙ same ∙ e) in
            inr (omega arith, ap (λ x. m (peer_at (node_at lib x))) (sym eldest) ∙ e'')
      ]

  eldest_first :
      (k c : ℕ)
      → k < n
      → c < n
      → parent c ≡ k
      → m (child_at (node_at lib k)) ≡ node_at lib c
      → children parent k 0 n ≡ c ∷ children parent k (suc c) (n - suc c)
  eldest_first k c k_lt c_lt mine e =
      children_first parent k 0 n c (n - suc c) (omega arith) (omega arith) mine (λ j le lt of_k.
        elim (child_or_peer k c j k_lt (omega arith) e of_k) [
          | inl same ↦ omega arith
          | inr (older, _) ↦ omega arith
        ])

  one_child :
      (k c : ℕ)
      → k < n
      → c < n
      → parent c ≡ k
      → m (child_at (node_at lib k)) ≡ node_at lib c
      → m (peer_at (node_at lib c)) ≡ 0
      → children parent k 0 n ≡ c ∷ []
  one_child k c k_lt c_lt mine e alone =
      eldest_first k c k_lt c_lt mine e
      ∙ ap (λ ks. c ∷ ks)
          (children_none parent k (suc c) (n - suc c) (λ j le lt of_k.
            elim (child_or_peer k c j k_lt (omega arith) e of_k) [
              | inl same ↦ omega arith
              | inr (older, e') ↦ omega (arith, alone, e')
            ]))

  two_children :
      (k c s : ℕ)
      → k < n
      → c < s
      → s < n
      → parent c ≡ k
      → parent s ≡ k
      → m (child_at (node_at lib k)) ≡ node_at lib c
      → m (peer_at (node_at lib c)) ≡ node_at lib s
      → children parent k 0 n ≡ c ∷ s ∷ []
  two_children k c s k_lt older s_lt mine of_k e e' =
      let second = λ (j : ℕ) (c_lt : c < j) (lt : j < n) (of_j : parent j ≡ k).
        elim (child_or_peer k c j k_lt lt e of_j) as (λ x. j ≡ s) [
          | inl same ↦ absurd (omega arith)
          | inr (_, e'') ↦ at_injective j s (sym e'' ∙ e')
        ] in
      eldest_first k c k_lt (omega arith) mine e
      ∙ ap (λ ks. c ∷ ks)
          (children_first parent k (suc c) (n - suc c) s (n - suc s) (omega arith) older of_k
              (λ j le lt of_j. omega (arith, second j le (omega arith) of_j))
            ∙ ap (λ ks. s ∷ ks)
                (children_none parent k (suc s) (n - suc s)
                  (λ j le lt of_j. omega (arith, second j (omega arith) (omega arith) of_j))))

  deeper_lem :
      (k d c : ℕ)
      → k < n
      → c < n
      → parent c ≡ k
      → m (depth_at (node_at lib k)) ≡ d
      → m (depth_at (node_at lib c)) ≡ d + 1
  deeper_lem k d c k_lt c_lt mine deep =
      h.deeper c c_lt (omega arith) (inl (omega arith))
      ∙ ap (λ x. m (depth_at (node_at lib x)) + 1) mine
      ∙ ap (λ x. x + 1) deep

  -- The younger child has no peer.
  no_third :
      (k c s : ℕ)
      → c < s
      → s < n
      → k < n
      → parent c ≡ k
      → parent s ≡ k
      → m (peer_at (node_at lib s)) ≡ 0
  no_third k c s older s_lt k_lt mine of_k = elim (h.peer s s_lt) [
    | inl e ↦ e
    | inr (t, younger, t_lt, of_t, in_t, done, e) ↦
        absurd (h.family.two c s t older younger t_lt in_t (omega arith) (omega arith))
  ]

  -- The forest at the first child of each node, which has the depth d.
  pub below_Holds :
      (fuel k d : ℕ)
      → k < n
      → n ≤ k + fuel
      → m (depth_at (node_at lib k)) ≡ d
      → Holds m
          (d + 1)
          (m (child_at (node_at lib k)))
          (grow lib n parent fuel (children parent k 0 n))
  below_Holds zero k d k_lt le deep = absurd (omega arith)
  below_Holds (suc fuel) k d k_lt le deep = elim (h.child k k_lt) [
    | inl e ↦ rw (children_none parent k 0 n (λ j le' lt. childless k j k_lt (omega arith) e)) e
    | inr (c, c_lt, mine, done, e) ↦
        let deep_c = deeper_lem k d c k_lt c_lt mine deep in
        let below_c =
          below_Holds fuel c (d + 1) c_lt (omega (arith, h.family.in_front c c_lt)) deep_c in
        elim (h.peer c c_lt) [
          | inl alone ↦
              rw (one_child k c k_lt c_lt mine e alone) (e, omega arith, deep_c, below_c, alone)
          | inr (s, older, s_lt, of_s, in_s, done', e') ↦
              let of_k : parent s ≡ k = of_s ∙ mine in
              let deep_s = deeper_lem k d s k_lt s_lt of_k deep in
              rw (two_children k c s k_lt older s_lt mine of_k e e') (
                e,
                omega arith,
                deep_c,
                below_c,
                (
                  e',
                  omega arith,
                  deep_s,
                  below_Holds fuel s (d + 1) s_lt (omega (arith, h.family.in_front s s_lt)) deep_s,
                  no_third k c s older s_lt k_lt mine of_k,
                ),
              )
        ]
  ]
