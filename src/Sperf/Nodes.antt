-- ===== src/Sperf/Nodes.antt =====
-- `append` and `sort` of mycode/sperf.c on the nodes in memory. The children have what they do to the list.
pub mod Appends
pub mod Frames
pub mod Stored
pub mod Sweeps
use the_code_back_up_in_ubun.Base.{
  ℕ, zero, suc, ◌≡◌, ◌≢◌, Option, none, some, List, [], ◌∷◌, ◌==◌, if◌then◌else◌, update,
}
use the_code_back_up_in_ubun.CString.{same}
use the_code_back_up_in_ubun.Doubles.{Doubles}
use the_code_back_up_in_ubun.Sperf.{FuncTime, append, sort}

module _ (d : Doubles) where
  open d use {Num, add, gt}

  -- The fields of the nodes, by their addresses; `func` is the text in front of its NUL.
  pub record Nodes : Type 0 where
    pub next : ℕ → ℕ
    pub func : ℕ → List ℕ
    pub time : ℕ → Num

  -- `q->time += p->time`
  abbrev pub add_time : ℕ → ℕ → Nodes → Nodes
  add_time q p s = record s { time = update s.time q (add (s.time q) (s.time p)) }

  -- The loop of `append` from q on, and what is behind it.
  unfoldable pub append_from : ℕ → ℕ → ℕ → Nodes → Option Nodes
  append_from zero q p s = none
  append_from (suc fuel) q p s =
      let rest = append_from fuel (s.next q) p s in
      if same (s.func q) (s.func p)
      then some (add_time q p s)
      else if s.next q == 0
      then some (record s { next = update (update s.next q p) p 0 })
      else rest

  -- The head is given back too.
  unfoldable pub append_node : ℕ → ℕ → ℕ → Nodes → Option (ℕ × Nodes)
  unfolding append_from
  append_node fuel head p s =
      if head == 0
      then some (p, record s { next = update s.next p 0 })
      else elim (append_from fuel head p s) [ none ↦ none | some s' ↦ some (head, s') ]

  abbrev pub node : Nodes → ℕ → FuncTime d
  node s p = record { func = s.func p; time = s.time p }

  -- `func_time temp = *q; …`: the names and times of p and q exchanged.
  abbrev pub swap : ℕ → ℕ → Nodes → Nodes
  swap p q s = record s {
    func = update (update s.func q (s.func p)) p (s.func q);
    time = update (update s.time q (s.time p)) p (s.time q);
  }

  -- The body of the inner loop of `sort`.
  abbrev pub exchange : ℕ → ℕ → Nodes → Nodes
  exchange p q s = if gt (s.time q) (s.time p) then swap p q s else s

  -- The inner loop of `sort` from q on.
  unfoldable pub sweep_nodes : ℕ → ℕ → ℕ → Nodes → Option Nodes
  sweep_nodes zero p q s = if q == 0 then some s else none
  sweep_nodes (suc fuel) p q s =
      let rest = sweep_nodes fuel p ((exchange p q s).next q) (exchange p q s) in
      if q == 0 then some s else rest

  -- The outer loop from p on, each inner loop with as much fuel.
  unfoldable pub sort_nodes : ℕ → ℕ → Nodes → Option Nodes
  unfolding sweep_nodes
  sort_nodes zero p s = none
  sort_nodes (suc fuel) p s =
      let after : Option Nodes = elim (sweep_nodes fuel p (s.next p) s) [
        | none ↦ none
        | some s' ↦ sort_nodes fuel (s'.next p) s'
      ] in
      if s.next p == 0 then some s else after

  -- `sort(head)`; `none` is also the failed assertion.
  unfoldable pub sort_node : ℕ → ℕ → Nodes → Option Nodes
  unfolding sort_nodes
  sort_node fuel head s = if head == 0 then none else sort_nodes fuel head s

  -- `p->func = func; p->time = time; head = append(head, p); sort(head);` for a new node p.
  unfoldable pub store_sample : ℕ → ℕ → List ℕ → Num → ℕ → Nodes → Option (ℕ × Nodes)
  store_sample fuel p func time head s =
      let s1 : Nodes = record s { func = update s.func p func; time = update s.time p time } in
      elim (append_node fuel head p s1) [
        | none ↦ none
        | some (head', s2) ↦ elim (sort_node fuel head' s2) [
          | none ↦ none
          | some s3 ↦ some (head', s3)
        ]
      ]

  -- The samples one after the other, each with the block that malloc gives for it.
  unfoldable pub store_samples : ℕ → List (ℕ × FuncTime d) → ℕ → Nodes → Option (ℕ × Nodes)
  store_samples fuel [] head s = some (head, s)
  store_samples fuel ((p, x) ∷ rest) head s = elim (store_sample fuel p x.func x.time head s) [
    | none ↦ none
    | some (head', s') ↦ store_samples fuel rest head' s'
  ]

  -- The same on the list.
  unfoldable pub store_list : List (FuncTime d) → List (FuncTime d) → Option (List (FuncTime d))
  store_list [] xs = some xs
  store_list (x ∷ rest) xs = elim (sort d (append d xs x)) [
    | none ↦ none
    | some ys ↦ store_list rest ys
  ]

  -- The nodes from q on, at the addresses qs, are the list xs.
  abbrev pub Holds : Nodes → ℕ → List ℕ → List (FuncTime d) → Type 0
  Holds s q [] [] = q ≡ 0
  Holds s q [] (x ∷ xs) = ⊥
  Holds s q (a ∷ qs) [] = ⊥
  Holds s q (a ∷ qs) (x ∷ xs) = (q ≡ a) × (a ≢ 0) × (node s a ≡ x) × Holds s (s.next a) qs xs
