-- ===== src/Sperf/Nodes/Appends.antt =====
-- `append` of mycode/sperf.c on the nodes in memory appends what `append` of the list does.
use the_code_back_up_in_ubun.Base.{
  ℕ, zero, suc, ◌≤◌, ◌≡◌, ◌≢◌, refl, sym, ap, subst, inl, inr, ◌∙◌, ◌⊎◌, true, false, Bool,
  Bool-cases, some, List, [], ◌∷◌, ◌++◌, ◌==◌, length, update, update_self, arith,
}
use the_code_back_up_in_ubun.CString.{same}
use the_code_back_up_in_ubun.Doubles.{Doubles}
use the_code_back_up_in_ubun.Sperf.{FuncTime, append, append_at}
use the_code_back_up_in_ubun.Sperf.Nodes.{Nodes, node, Holds, add_time, append_from, append_node}
use the_code_back_up_in_ubun.LibCo.Segments.{Away, Unique}
use the_code_back_up_in_ubun.Sperf.Nodes.Frames.{Same, Holds-frame}

module _ (d : Doubles) where
  open d use {Num, add, gt}

  add_time-node :
      (s : Nodes d) (a p : ℕ)
      → node d (add_time d a p s) a ≡ record { func = s.func a; time = add (s.time a) (s.time p) }
  add_time-node s a p = ground arith

  add_time-other : (s : Nodes d) (a p b : ℕ) → a ≢ b → node d (add_time d a p s) b ≡ node d s b
  add_time-other s a p b ne = ground arith

  add_time-Same : (s : Nodes d) (a p : ℕ) (qs : List ℕ) → Away a qs → Same d s (add_time d a p s) qs
  add_time-Same s a p [] h = tt
  add_time-Same s a p (b ∷ qs) (ne, h) =
      ((refl, add_time-other s a p b ne), add_time-Same s a p qs h)

  append_from_last :
      (fuel q p : ℕ) (s : Nodes d)
      → same (s.func q) (s.func p) ≡ false
      → s.next q ≡ 0
      → append_from d (suc fuel) q p s ≡ some (record s { next = update (update s.next q p) p 0 })
  unfolding append_from
  append_from_last fuel q p s new e = rw new (ground (arith, e))

  append_from_next :
      (fuel q p : ℕ) (s : Nodes d)
      → same (s.func q) (s.func p) ≡ false
      → (s.next q == 0) ≡ false
      → append_from d (suc fuel) q p s ≡ append_from d fuel (s.next q) p s
  unfolding append_from
  append_from_next fuel q p s new more = rw (new, more)

  -- What `append` leaves besides the nodes of its list: next and node of every other address.
  abbrev Apart : Nodes d → Nodes d → List ℕ → Type 0
  Apart s s' qs = (b : ℕ) → Away b qs → (s'.next b ≡ s.next b) × (node d s' b ≡ node d s b)

  -- A node of the name is found at a: its time grows.
  found_lem :
      (fuel a p : ℕ) (s : Nodes d) (qs : List ℕ) (x : FuncTime d) (xs : List (FuncTime d))
      → Holds d s a (a ∷ qs) (x ∷ xs)
      → Unique (a ∷ qs)
      → same (s.func a) (s.func p) ≡ true
      → (append_from d (suc fuel) a p s ≡ some (add_time d a p s))
        × Holds d (add_time d a p s) a (a ∷ qs) (record x { time = add x.time (s.time p) } ∷ xs)
        × Apart s (add_time d a p s) (p ∷ a ∷ qs)
  unfolding append_from
  found_lem fuel a p s qs x xs (e, some_a, ex, rest) (aw, u) found =
      let grow : FuncTime d → FuncTime d = λ n. record n { time = add n.time (s.time p) } in
      (
        rw found,
        (
          refl,
          some_a,
          add_time-node s a p ∙ ap grow ex,
          Holds-frame d s (add_time d a p s) (s.next a) qs xs (add_time-Same s a p qs aw) rest,
        ),
        λ b h. (refl, add_time-other s a p b (λ k. h.1.0 (sym k))),
      )

  same_name :
      (s : Nodes d) (a p : ℕ) (x : FuncTime d) {t : Bool}
      → node d s a ≡ x
      → same (s.func a) (s.func p) ≡ t
      → same x.func (s.func p) ≡ t
  same_name s a p x ex h = rw (← ex) h

  links_other :
      (next : ℕ → ℕ) (a p b : ℕ) → Away b (p ∷ a ∷ []) → update (update next a p) p 0 b ≡ next b
  links_other next a p b h = ground arith

  -- The list behind `append`: p is its new last node, or p's time is added to a node's.
  append_from-append_at :
      (fuel q p : ℕ) (s : Nodes d) (qs : List ℕ) (x : FuncTime d) (xs : List (FuncTime d))
      → Holds d s q qs (x ∷ xs)
      → Unique qs
      → Away p qs
      → p ≢ 0
      → length qs ≤ fuel
      → (s' : Nodes d) × (qs' : List ℕ) × (append_from d fuel q p s ≡ some s')
        × Holds d s' q qs' (append_at d x xs (node d s p))
        × ((qs' ≡ qs) ⊎ (qs' ≡ qs ++ p ∷ []))
        × Apart s s' (p ∷ qs)
  unfolding append_at
  append_from-append_at fuel q p s [] x xs h u away some_p le = absurd h
  append_from-append_at zero q p s (a ∷ qs) x xs h u away some_p le = absurd (omega arith)
  append_from-append_at (suc fuel) q p s (a ∷ []) x (y ∷ ys) (e, some_a, ex, rest) u away some_p
        le =
      absurd rest
  append_from-append_at (suc fuel) q p s (a ∷ b ∷ qs) x [] (e, some_a, ex, rest) u away some_p le =
      absurd rest
  append_from-append_at (suc fuel) q p s (a ∷ []) x [] (e, some_a, ex, rest) u (ne, away) some_p
        le =
      elim (Bool-cases (same (s.func a) (s.func p))) [
        | inl found ↦
            let (run, held, apart) =
              found_lem fuel a p s [] x [] (refl, some_a, ex, rest) u found in
            rw (e, same_name s a p x ex found)
              (add_time d a p s, a ∷ [], run, held, inl refl, apart)
        | inr new ↦
            rw (e, same_name s a p x ex new)
              (
                record s { next = update (update s.next a p) p 0 },
                a ∷ p ∷ [],
                append_from_last fuel a p s new rest,
                (refl, some_a, ex, (ground arith, some_p, refl, ground arith)),
                inr refl,
                λ b h. (links_other s.next a p b h, refl),
              )
      ]
  append_from-append_at (suc fuel) q p s (a ∷ b ∷ qs) x (y ∷ ys) (e, some_a, ex, rest) (aw, u)
        (ne, away) some_p le =
      elim (Bool-cases (same (s.func a) (s.func p))) [
        | inl found ↦
            let (run, held, apart) =
              found_lem fuel a p s (b ∷ qs) x (y ∷ ys) (refl, some_a, ex, rest) (aw, u) found in
            rw (e, same_name s a p x ex found)
              (add_time d a p s, a ∷ b ∷ qs, run, held, inl refl, apart)
        | inr new ↦
            let (s', qs', run, held, grown, apart) =
              append_from-append_at fuel (s.next a) p s (b ∷ qs) y ys rest u away some_p
                (omega arith) in
            rw (e, same_name s a p x ex new)
              (
                s',
                a ∷ qs',
                append_from_next fuel a p s new (ground (arith, rest.0, rest.1)) ∙ run,
                (
                  refl,
                  some_a,
                  (apart a ((λ k. ne (sym k)), aw)).1 ∙ ex,
                  subst (λ n. Holds d s' n qs' (append_at d y ys (node d s p)))
                      (sym (apart a ((λ k. ne (sym k)), aw)).0) held,
                ),
                elim grown [ inl k ↦ inl (ap (λ l. a ∷ l) k) | inr k ↦ inr (ap (λ l. a ∷ l) k) ],
                λ c h. apart c (h.0, h.1.1),
              )
      ]

  pub append_node-append :
      (fuel head p : ℕ) (s : Nodes d) (qs : List ℕ) (xs : List (FuncTime d))
      → Holds d s head qs xs
      → Unique qs
      → Away p qs
      → p ≢ 0
      → length qs ≤ fuel
      → (head' : ℕ) × (s' : Nodes d) × (qs' : List ℕ) × (append_node d fuel head p s
          ≡ some (head', s'))
        × Holds d s' head' qs' (append d xs (node d s p))
        × ((qs' ≡ qs) ⊎ (qs' ≡ qs ++ p ∷ []))
  unfolding append_node append
  append_node-append fuel head p s [] (x ∷ xs) h u away some_p le = absurd h
  append_node-append fuel head p s (a ∷ qs) [] h u away some_p le = absurd h
  append_node-append fuel head p s [] [] h u away some_p le = rw h (
    p,
    record s { next = update s.next p 0 },
    p ∷ [],
    refl,
    (refl, some_p, refl, update_self s.next p 0),
    inr refl,
  )
  append_node-append fuel head p s (a ∷ qs) (x ∷ xs) h u away some_p le =
      let (s', qs', run, held, grown, apart) =
        append_from-append_at fuel head p s (a ∷ qs) x xs h u away some_p le in
      let more : (head == 0) ≡ false = ground (arith, h.0, h.1) in
      (head, s', qs', rw (more, run), held, grown)

  pub append_some :
      (xs : List (FuncTime d)) (x : FuncTime d)
      → (y : FuncTime d) × (ys : List (FuncTime d)) × (append d xs x ≡ y ∷ ys)
  unfolding append append_at
  append_some [] x = (x, [], refl)
  append_some (q ∷ []) x = elim (Bool-cases (same q.func x.func)) [
    | inl h ↦ (record q { time = add q.time x.time }, [], rw h)
    | inr h ↦ (q, x ∷ [], rw h)
  ]
  append_some (q ∷ r ∷ rs) x = elim (Bool-cases (same q.func x.func)) [
    | inl h ↦ (record q { time = add q.time x.time }, r ∷ rs, rw h)
    | inr h ↦ (q, append_at d r rs x, rw h)
  ]
