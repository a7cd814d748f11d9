-- ===== src/Sperf/Nodes/Stored.antt =====
-- The samples of mycode/sperf.c in memory: append and sort for one after the other.
use the_code_back_up_in_ubun.Base.{
  ℕ, suc, ◌+◌, ◌≤◌, ◌<◌, ◌≡◌, ◌≢◌, refl, sym, ap, subst, inl, inr, ◌∙◌, ◌⊎◌, false, some, ◌==◌,
  List, [], ◌∷◌, ◌++◌, length, length-append, update, arith, map,
}
use the_code_back_up_in_ubun.Doubles.{Doubles}
use the_code_back_up_in_ubun.Sperf.{FuncTime, append, sort_loop, sort}
use the_code_back_up_in_ubun.Sperf.Nodes.{
  Nodes, node, Holds, append_node, sort_nodes, sort_node, store_sample, store_samples, store_list,
}
use the_code_back_up_in_ubun.LibCo.Segments.{Away, Unique, Unique-snoc, Away-snoc}
use the_code_back_up_in_ubun.Sperf.Nodes.Frames.{Same, Holds-frame, length-Holds}
use the_code_back_up_in_ubun.Sperf.Nodes.Sweeps.{sort_nodes-sort_loop, sort_loop_enough}
use the_code_back_up_in_ubun.Sperf.Nodes.Appends.{append_node-append, append_some}

module _ (d : Doubles) where
  open d use {Num, add, gt}

  abbrev filled : ℕ → FuncTime d → Nodes d → Nodes d
  filled p x s = record s { func = update s.func p x.func; time = update s.time p x.time }

  filled-Same :
      (p : ℕ) (x : FuncTime d) (s : Nodes d) (qs : List ℕ) → Away p qs → Same d s (filled p x s) qs
  filled-Same p x s [] h = tt
  filled-Same p x s (b ∷ qs) (ne, h) = ((refl, ground arith), filled-Same p x s qs h)

  -- The list after one more sample, in the memory.
  abbrev Stored : ℕ → ℕ → FuncTime d → ℕ → Nodes d → List ℕ → List (FuncTime d) → Type 0
  Stored fuel p x head s qs xs =
      (head' : ℕ) × (s' : Nodes d) × (qs' : List ℕ) × (ys : List (FuncTime d)) × (store_sample d
          fuel p x.func x.time head s
        ≡ some (head', s'))
      × (sort d (append d xs x) ≡ some ys)
      × Holds d s' head' qs' ys
      × ((qs' ≡ qs) ⊎ (qs' ≡ qs ++ p ∷ []))

  grown_bounds :
      (p : ℕ) (qs qs' : List ℕ)
      → (qs' ≡ qs) ⊎ (qs' ≡ qs ++ p ∷ [])
      → Unique qs
      → Away p qs
      → Unique qs' × (length qs' ≤ suc (length qs))
  grown_bounds p qs qs' (inl e) u away = rw e (u, omega arith)
  grown_bounds p qs qs' (inr e) u away =
      rw e (Unique-snoc qs p u away, omega (arith, length-append {0} qs (p ∷ [])))

  store_sample_runs :
      (fuel p : ℕ) (x : FuncTime d) (head head' : ℕ) (s s2 s3 : Nodes d)
      → append_node d fuel head p (filled p x s) ≡ some (head', s2)
      → sort_node d fuel head' s2 ≡ some s3
      → store_sample d fuel p x.func x.time head s ≡ some (head', s3)
  unfolding store_sample
  store_sample_runs fuel p x head head' s s2 s3 e e' = ground (arith, e, e')

  -- The assertion of `sort` holds on a list with a node.
  sort_node_lem :
      (fuel head : ℕ) (s s' : Nodes d) (qs : List ℕ) (x : FuncTime d) (xs : List (FuncTime d))
      → Holds d s head qs (x ∷ xs)
      → sort_nodes d fuel head s ≡ some s'
      → sort_node d fuel head s ≡ some s'
  unfolding sort_node
  sort_node_lem fuel head s s' [] x xs h e = absurd h
  sort_node_lem fuel head s s' (a ∷ qs) x xs h e =
      let some_head : (head == 0) ≡ false = ground (arith, h.0, h.1) in rw some_head e

  sort_cons :
      (fuel : ℕ) (y : FuncTime d) (ys : List (FuncTime d))
      → length (y ∷ ys) ≤ fuel
      → sort d (y ∷ ys) ≡ some (sort_loop d fuel (y ∷ ys))
  unfolding sort
  sort_cons fuel y ys le =
      ap some (sort_loop_enough d (length (y ∷ ys)) fuel (y ∷ ys) (omega arith) le)

  store_sample_lem :
      (fuel p : ℕ) (x : FuncTime d) (head : ℕ) (s : Nodes d) (qs : List ℕ) (xs : List (FuncTime d))
      → Holds d s head qs xs
      → Unique qs
      → Away p qs
      → p ≢ 0
      → length qs < fuel
      → Stored fuel p x head s qs xs
  store_sample_lem fuel p x head s qs xs h u away some_p le =
      let s1 : Nodes d = filled p x s in
      let node_p : node d s1 p ≡ x = ground arith in
      let (head', s2, qs', run, held, grown) =
        append_node-append d fuel head p s1 qs xs
          (Holds-frame d s s1 head qs xs (filled-Same p x s qs away) h) u away some_p
          (omega arith) in
      let (y, ys, e) = append_some d xs x in
      let held' : Holds d s2 head' qs' (y ∷ ys) =
        subst (λ l. Holds d s2 head' qs' l) (ap (append d xs) node_p ∙ e) held in
      let (u', le') = grown_bounds p qs qs' grown u away in
      let (s3, run', sorted, _) =
        sort_nodes-sort_loop d fuel head' s2 qs' y ys held' u' (omega arith) in
      (
        head',
        s3,
        qs',
        sort_loop d fuel (y ∷ ys),
        store_sample_runs fuel p x head head' s s2 s3 run
            (sort_node_lem fuel head' s2 s3 qs' y ys held' run'),
        ap (sort d) e
            ∙ sort_cons fuel y ys (omega (arith, length-Holds d s2 head' qs' (y ∷ ys) held')),
        sorted,
        grown,
      )

  grown-Away :
      (p b : ℕ) (qs qs' : List ℕ)
      → (qs' ≡ qs) ⊎ (qs' ≡ qs ++ p ∷ [])
      → Away b qs
      → b ≢ p
      → Away b qs'
  grown-Away p b qs qs' (inl e) away ne = rw e away
  grown-Away p b qs qs' (inr e) away ne = rw e (Away-snoc b p qs away ne)

  -- Blocks that malloc can give one after the other, besides those of the list.
  abbrev pub Fresh : List ℕ → List (ℕ × FuncTime d) → Type 0
  Fresh qs [] = Unit
  Fresh qs ((p, x) ∷ rest) = (p ≢ 0) × Away p qs × Away p (map (λ r. r.0) rest) × Fresh qs rest

  grown-Fresh :
      (p : ℕ) (qs qs' : List ℕ) (rest : List (ℕ × FuncTime d))
      → (qs' ≡ qs) ⊎ (qs' ≡ qs ++ p ∷ [])
      → Away p (map (λ r. r.0) rest)
      → Fresh qs rest
      → Fresh qs' rest
  grown-Fresh p qs qs' [] g away f = tt
  grown-Fresh p qs qs' ((b, x) ∷ rest) g (ne, away) (some_b, away_b, others, f) = (
    some_b,
    grown-Away p b qs qs' g away_b (λ e. ne (sym e)),
    others,
    grown-Fresh p qs qs' rest g away f,
  )

  store_samples_next :
      (fuel p : ℕ) (x : FuncTime d) (rest : List (ℕ × FuncTime d)) (head head' : ℕ) (s s' : Nodes d)
      → store_sample d fuel p x.func x.time head s ≡ some (head', s')
      → store_samples d fuel ((p, x) ∷ rest) head s ≡ store_samples d fuel rest head' s'
  unfolding store_samples
  store_samples_next fuel p x rest head head' s s' e = rw (e, store_samples)

  store_list_next :
      (x : FuncTime d) (rest xs ys : List (FuncTime d))
      → sort d (append d xs x) ≡ some ys
      → store_list d (x ∷ rest) xs ≡ store_list d rest ys
  unfolding store_list
  store_list_next x rest xs ys e = rw (e, store_list)

  -- Storing samples with append and sort, on nodes in memory that are a list, each sample in a block
  -- of its own that is not in the list: it ends, and the nodes from the new head on are a list again,
  -- of blocks that are all different, which append and sort of the list model make of the old one.
  pub store_samples-store_list :
      (fuel : ℕ) (rest : List (ℕ × FuncTime d)) (head : ℕ) (s : Nodes d) (qs : List ℕ)
      (xs : List (FuncTime d))
      → Holds d s head qs xs
      → Unique qs
      → Fresh qs rest
      → length qs + length rest ≤ fuel
      → (head' : ℕ) × (s' : Nodes d) × (qs' : List ℕ) × (ys : List (FuncTime d)) × (store_samples d
            fuel rest head s
          ≡ some (head', s'))
        × (store_list d (map (λ r. r.1) rest) xs ≡ some ys)
        × Holds d s' head' qs' ys
        × Unique qs'
  unfolding store_samples store_list
  store_samples-store_list fuel [] head s qs xs h u f le = (head, s, qs, xs, refl, refl, h, u)
  store_samples-store_list fuel ((p, x) ∷ rest) head s qs xs h u (some_p, away, others, f) le =
      let (head1, s1, qs1, xs1, run, listed, held, grown) =
        store_sample_lem fuel p x head s qs xs h u away some_p (omega arith) in
      let (u1, le1) = grown_bounds p qs qs1 grown u away in
      let (head', s', qs', ys, runs, lists, holds, unique) =
        store_samples-store_list fuel rest head1 s1 qs1 xs1 held u1
          (grown-Fresh p qs qs1 rest grown others f) (omega arith) in
      (
        head',
        s',
        qs',
        ys,
        store_samples_next fuel p x rest head head1 s s1 run ∙ runs,
        store_list_next x _ xs xs1 listed ∙ lists,
        holds,
        unique,
      )
