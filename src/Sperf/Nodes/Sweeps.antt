-- ===== src/Sperf/Nodes/Sweeps.antt =====
-- `sort` of mycode/sperf.c on the nodes in memory exchanges what `sort` of the list does.
use the_code_back_up_in_ubun.Base.{
  ℕ, zero, suc, ◌≤◌, ◌≡◌, ◌≢◌, refl, sym, ap, subst, inl, inr, ◌∙◌, false, Bool-cases, some, List,
  [], ◌∷◌, ◌==◌, if◌then◌else◌, length, arith,
}
use the_code_back_up_in_ubun.Doubles.{Doubles}
use the_code_back_up_in_ubun.Sperf.{FuncTime, sweep, sort_loop}
use the_code_back_up_in_ubun.Sperf.Sorted.{length-sweep}
use the_code_back_up_in_ubun.Sperf.Nodes.{Nodes, node, Holds, exchange, sweep_nodes, sort_nodes}
use the_code_back_up_in_ubun.LibCo.Segments.{Away, Unique}
use the_code_back_up_in_ubun.Sperf.Nodes.Frames.{Same, Holds-frame}

module _ (d : Doubles) where
  open d use {Num, add, gt}

  exchange-fst :
      (s : Nodes d) (p q : ℕ)
      → p ≢ q
      → node d (exchange d p q s) p ≡ (if gt (s.time q) (s.time p) then node d s q else node d s p)
  exchange-fst s p q ne = elim (Bool-cases (gt (s.time q) (s.time p))) [
    | inl h ↦ rw h (ground arith)
    | inr h ↦ rw h
  ]

  exchange-snd :
      (s : Nodes d) (p q : ℕ)
      → p ≢ q
      → node d (exchange d p q s) q ≡ (if gt (s.time q) (s.time p) then node d s p else node d s q)
  exchange-snd s p q ne = elim (Bool-cases (gt (s.time q) (s.time p))) [
    | inl h ↦ rw h (ground arith)
    | inr h ↦ rw h
  ]

  exchange-next : (s : Nodes d) (p q : ℕ) → (exchange d p q s).next ≡ s.next
  exchange-next s p q = elim (Bool-cases (gt (s.time q) (s.time p))) [ inl h ↦ rw h | inr h ↦ rw h ]

  exchange-other :
      (s : Nodes d) (p q b : ℕ) → b ≢ p → b ≢ q → node d (exchange d p q s) b ≡ node d s b
  exchange-other s p q b np nq = elim (Bool-cases (gt (s.time q) (s.time p))) [
    | inl h ↦ rw h (ground arith)
    | inr h ↦ rw h
  ]

  exchange-Same :
      (s : Nodes d) (p q : ℕ) (qs : List ℕ) → Away p qs → Away q qs → Same d s (exchange d p q s) qs
  exchange-Same s p q [] hp hq = tt
  exchange-Same s p q (b ∷ qs) (np, hp) (nq, hq) = (
    (
      ap (λ f. f b) (exchange-next s p q),
      exchange-other s p q b (λ e. np (sym e)) (λ e. nq (sym e)),
    ),
    exchange-Same s p q qs hp hq,
  )

  -- What `sort` leaves: the links, and the nodes at all other addresses.
  abbrev Kept : Nodes d → Nodes d → List ℕ → Type 0
  Kept s s' qs = (s'.next ≡ s.next) × ((b : ℕ) → Away b qs → node d s' b ≡ node d s b)

  sweep_nodes-sweep :
      (fuel p q : ℕ) (s : Nodes d) (qs : List ℕ) (xs : List (FuncTime d))
      → Holds d s q qs xs
      → Unique (p ∷ qs)
      → length qs ≤ fuel
      → (s' : Nodes d) × (sweep_nodes d fuel p q s ≡ some s')
        × (node d s' p ≡ (sweep d (node d s p) xs).0)
        × Holds d s' q qs (sweep d (node d s p) xs).1
        × Kept s s' (p ∷ qs)
  unfolding sweep_nodes sweep
  sweep_nodes-sweep zero p q s [] [] e u le = (s, rw e, refl, e, (refl, λ b h. refl))
  sweep_nodes-sweep (suc fuel) p q s [] [] e u le = (s, rw e, refl, e, (refl, λ b h. refl))
  sweep_nodes-sweep fuel p q s [] (x ∷ xs) e u le = absurd e
  sweep_nodes-sweep fuel p q s (a ∷ qs) [] e u le = absurd e
  sweep_nodes-sweep zero p q s (a ∷ qs) (x ∷ xs) e u le = absurd (omega arith)
  sweep_nodes-sweep (suc fuel) p q s (a ∷ qs) (x ∷ xs) (e, some_a, ex, rest) ((ne, away), (aw, u))
        le =
      let s1 : Nodes d = exchange d p a s in
      let moved : Holds d s1 (s1.next a) qs xs =
        rw (ap (λ f. f a) (exchange-next s p a))
          (Holds-frame d s s1 (s.next a) qs xs (exchange-Same s p a qs away aw) rest) in
      let (s', run, top, held, (nexts, kept)) =
        sweep_nodes-sweep fuel p (s1.next a) s1 qs xs moved (away, u) (omega arith) in
      let fst_eq : node d s1 p ≡ (if gt x.time (s.time p) then x else node d s p) =
        rw (← ex) (exchange-fst s p a ne) in
      let snd_eq : node d s1 a ≡ (if gt x.time (s.time p) then node d s p else x) =
        rw (← ex) (exchange-snd s p a ne) in
      rw e (
        s',
        ground (arith, some_a, run),
        top ∙ ap (λ n. (sweep d n xs).0) fst_eq,
        (
          refl,
          some_a,
          kept a ((λ h. ne (sym h)), aw) ∙ snd_eq,
          rw (ap (λ f. f a) nexts, ← fst_eq) held,
        ),
        (
          nexts ∙ exchange-next s p a,
          λ b h. kept b (h.0, h.1.1) ∙ exchange-other s p a b h.0 h.1.0,
        ),
      )

  sort_nodes_lem :
      (fuel p : ℕ) (s s1 : Nodes d)
      → (s.next p == 0) ≡ false
      → sweep_nodes d fuel p (s.next p) s ≡ some s1
      → sort_nodes d (suc fuel) p s ≡ sort_nodes d fuel (s1.next p) s1
  unfolding sort_nodes
  sort_nodes_lem fuel p s s1 more e = rw (more, e)

  pub sort_nodes-sort_loop :
      (fuel p : ℕ) (s : Nodes d) (qs : List ℕ) (x : FuncTime d) (xs : List (FuncTime d))
      → Holds d s p qs (x ∷ xs)
      → Unique qs
      → length qs ≤ fuel
      → (s' : Nodes d) × (sort_nodes d fuel p s ≡ some s')
        × Holds d s' p qs (sort_loop d fuel (x ∷ xs))
        × Kept s s' qs
  unfolding sort_nodes sort_loop
  sort_nodes-sort_loop fuel p s [] x xs h u le = absurd h
  sort_nodes-sort_loop zero p s (a ∷ qs) x xs h u le = absurd (omega arith)
  sort_nodes-sort_loop (suc fuel) p s (a ∷ []) x [] (e, some_a, ex, last) u le =
      (s, ground (arith, e, last), (e, some_a, ex, last), (refl, λ b h. refl))
  sort_nodes-sort_loop (suc fuel) p s (a ∷ b ∷ qs) x [] (e, some_a, ex, last) u le = absurd last
  sort_nodes-sort_loop (suc fuel) p s (a ∷ []) x (y ∷ ys) (e, some_a, ex, last) u le = absurd last
  sort_nodes-sort_loop (suc fuel) p s (a ∷ b ∷ qs) x (y ∷ ys) (e, some_a, ex, rest) (aw, u) le =
      let (s1, run1, top, held, (nexts, kept)) =
        sweep_nodes-sweep fuel a (s.next a) s (b ∷ qs) (y ∷ ys) rest (aw, u) (omega arith) in
      let moved : Holds d s1 (s1.next a) (b ∷ qs) (sweep d x (y ∷ ys)).1 =
        rw (ap (λ f. f a) nexts, ← ex) held in
      let (s2, run2, held2, (nexts2, kept2)) =
        sort_nodes-sort_loop fuel (s1.next a) s1 (b ∷ qs) (if gt y.time x.time then x else y)
          (sweep d (if gt y.time x.time then y else x) ys).1 moved u (omega arith) in
      (
        s2,
        ap (λ n. sort_nodes d (suc fuel) n s) e
            ∙ sort_nodes_lem fuel a s s1 (ground (arith, rest.0, rest.1)) run1
            ∙ run2,
        (
          e,
          some_a,
          kept2 a aw ∙ top ∙ ap (λ n. (sweep d n (y ∷ ys)).0) ex,
          subst (λ n. Holds d s2 n (b ∷ qs) (sort_loop d fuel (sweep d x (y ∷ ys)).1))
              (sym (ap (λ f. f a) nexts2)) held2,
        ),
        (nexts2 ∙ nexts, λ c h. kept2 c h.1 ∙ kept c h),
      )

  -- Fuel behind the length changes nothing.
  pub sort_loop_enough :
      (m n : ℕ) (ps : List (FuncTime d))
      → length ps ≤ m
      → length ps ≤ n
      → sort_loop d m ps ≡ sort_loop d n ps
  unfolding sort_loop
  sort_loop_enough zero zero ps h k = refl
  sort_loop_enough zero (suc n) [] h k = refl
  sort_loop_enough (suc m) zero [] h k = refl
  sort_loop_enough (suc m) (suc n) [] h k = refl
  sort_loop_enough zero (suc n) (p ∷ ps) h k = absurd (omega arith)
  sort_loop_enough (suc m) zero (p ∷ ps) h k = absurd (omega arith)
  sort_loop_enough (suc m) (suc n) (p ∷ []) h k = refl
  sort_loop_enough (suc m) (suc n) (p ∷ q ∷ qs) h k =
      ap (λ l. (sweep d p (q ∷ qs)).0 ∷ l)
        (sort_loop_enough m n (sweep d p (q ∷ qs)).1 (omega (arith, length-sweep d p (q ∷ qs)))
          (omega (arith, length-sweep d p (q ∷ qs))))
