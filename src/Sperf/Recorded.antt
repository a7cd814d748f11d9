-- ===== src/Sperf/Recorded.antt =====
-- What the variables of sperf.c's parent stand for, and that a sample that is stored is added.
use the_code_back_up_in_ubun.Base.{
  ℕ, zero, suc, ◌+◌, ◌-◌, ◌≡◌, refl, inl, inr, false, Option, none, some, List, [], ◌∷◌, ◌++◌, ◌==◌,
  if◌then◌else◌, ltb, length, take, arith, ap, ◌∙◌, map, Bool-cases,
}
use the_code_back_up_in_ubun.Doubles.{Doubles}
use the_code_back_up_in_ubun.Sperf.{FuncTime, append, append_at, sort, sort_loop, show, show_loop}
use the_code_back_up_in_ubun.Sperf.Profile.{
  find, Distinct, append-Distinct, sort_loop-SameMap, after, find-after,
}
use the_code_back_up_in_ubun.Sperf.Sorted.{IsSorted, sort_loop-IsSorted}
use the_code_back_up_in_ubun.Sperf.Trace.{cleared, record_time, tick, Vars, ended}
use the_code_back_up_in_ubun.Sperf.Scan.{Without, cleared-Without}

module _ (d : Doubles) where
  open d use {Num, nought, add, percent}

  show_loop_at :
      (num k : ℕ) (ps : List (FuncTime d)) (total : Num)
      → num + k ≡ 8
      → show_loop d num ps total ≡ map (λ p. (p.func, percent p.time total)) (take (suc k) ps)
  unfolding show_loop
  show_loop_at num k [] total e = refl
  show_loop_at num zero (p ∷ ps) total e = ground arith
  show_loop_at num (suc k) (p ∷ ps) total e = ground (arith, show_loop_at (num + 1) k ps total)

  -- `show` prints the first eight nodes, or all if there are fewer, with their shares of the total;
  -- on the empty list its assertion fails.
  pub show-take :
      (ps : List (FuncTime d)) (total : Num)
      → show d ps total ≡ (
          if length ps == 0
          then none
          else some (map (λ p. (p.func, percent p.time total)) (take 8 ps)))
  unfolding show
  show-take [] total = refl
  show-take (p ∷ ps) total = ground (arith, show_loop_at 1 7 (p ∷ ps) total (omega arith))

  show-some :
      (ps : List (FuncTime d)) (total : Num)
      → (length ps == 0) ≡ false
      → (frame : List (List ℕ × ℕ)) × (show d ps total ≡ some frame)
  show-some ps total h =
      (map (λ p. (p.func, percent p.time total)) (take 8 ps), rw (show-take ps total, h))

  module _ (clock : ℕ → ℕ) where
    -- The variables of the loop stand for a map with the given times.
    pub record Holds (times : List ℕ → Option Num) (total : Num) (v : Vars d clock) : Type 0 where
      pub blank : Without b'<' v.s
      pub distinct : Distinct d v.head
      pub sorted : IsSorted d v.head
      pub found : (k : List ℕ) → find d k v.head ≡ times k
      pub sum : v.total_time ≡ total

    tick_lem :
        (v : Vars d clock)
        → (length v.head == 0) ≡ false
        → (w : Vars d clock) × (tick d clock v ≡ ended w)
          × (w.s ≡ v.s)
          × (w.head ≡ v.head)
          × (w.total_time ≡ v.total_time)
    unfolding tick
    tick_lem v h = elim (Bool-cases (ltb 100000 (clock v.calls - v.begin))) [
      | inl due ↦
          let (frame, shown) = show-some v.head v.total_time h in
          (
            record v {
              begin = clock v.calls;
              calls = v.calls + 1;
              frames = v.frames ++ frame ∷ [];
            },
            rw (due, shown),
            refl,
            refl,
            refl,
          )
      | inr early ↦ (record v { calls = v.calls + 1 }, rw early, refl, refl, refl)
    ]

    pub length-sort_loop :
        (n : ℕ) (p : FuncTime d) (ps : List (FuncTime d))
        → (length (sort_loop d n (p ∷ ps)) == 0) ≡ false
    unfolding sort_loop
    length-sort_loop zero p ps = ground arith
    length-sort_loop (suc n) p [] = ground arith
    length-sort_loop (suc n) p (q ∷ qs) = ground arith

    -- What `append` and `sort` make of the list.
    abbrev Stored : List (FuncTime d) → FuncTime d → List (FuncTime d) → Type 0
    Stored ps p qs =
        (sort d (append d ps p) ≡ some qs)
        × ((length qs == 0) ≡ false)
        × IsSorted d qs
        × Distinct d qs
        × ((k : List ℕ) → find d k qs ≡ find d k (append d ps p))

    sort-Stored :
        (ps : List (FuncTime d)) (p : FuncTime d) (qs : List (FuncTime d))
        → Distinct d qs
        → append d ps p ≡ qs
        → (length qs == 0) ≡ false
        → (rs : List (FuncTime d)) × Stored ps p rs
    unfolding sort
    sort-Stored ps p [] dis e h = absurd (ground arith)
    sort-Stored ps p (q ∷ qs) dis e h =
        let n : ℕ = length (q ∷ qs) in
        let (eq, dis') = sort_loop-SameMap d n (q ∷ qs) dis in
        (
          sort_loop d n (q ∷ qs),
          (
            rw e,
            length-sort_loop n q qs,
            sort_loop-IsSorted d n (q ∷ qs) (omega arith),
            dis',
            λ k. rw e (eq k),
          ),
        )

    length-append_at :
        (q : FuncTime d) (qs : List (FuncTime d)) (p : FuncTime d)
        → (length (append_at d q qs p) == 0) ≡ false
    unfolding append_at
    length-append_at q [] p = ground arith
    length-append_at q (r ∷ rs) p = ground arith

    length-append_some :
        (ps : List (FuncTime d)) (p : FuncTime d) → (length (append d ps p) == 0) ≡ false
    unfolding append
    length-append_some [] p = refl
    length-append_some (q ∷ qs) p = length-append_at q qs p

    record_time_lem :
        (v : Vars d clock) (f : List ℕ) (t : Num) (qs : List (FuncTime d))
        → sort d (append d v.head (record { func = f; time = t })) ≡ some qs
        → record_time d clock f t v
          ≡ tick d clock (record v { s = cleared; head = qs; total_time = add v.total_time t })
    unfolding record_time
    record_time_lem v f t qs e = ground arith

    pub record_time-Holds :
        (times : List ℕ → Option Num) (total : Num) (v : Vars d clock) (f : List ℕ) (t : Num)
        → Holds times total v
        → (w : Vars d clock) × (record_time d clock f t v ≡ ended w)
          × Holds (after d times (record { func = f; time = t })) (add total t) w
          × ((length w.head == 0) ≡ false)
    record_time-Holds times total v f t h =
        let p : FuncTime d = record { func = f; time = t } in
        let (qs, (sorted_by, some_q, sorted, dis, same_map)) =
          sort-Stored v.head p (append d v.head p) (append-Distinct d v.head p h.distinct) refl
            (length-append_some v.head p) in
        let (w, ticked, s_eq, head_eq, total_eq) =
          tick_lem (record v { s = cleared; head = qs; total_time = add v.total_time t }) some_q in
        (
          w,
          record_time_lem v f t qs sorted_by ∙ ticked,
          record {
            blank = rw s_eq (cleared-Without b'<' refl);
            distinct = rw head_eq dis;
            sorted = rw head_eq sorted;
            found = λ k.
                rw head_eq (same_map k ∙ find-after d times v.head p k (h.found k) (h.found f));
            sum = total_eq ∙ ap (λ n. add n t) h.sum;
          },
          rw head_eq some_q,
        )
