-- ===== src/Sperf/Nodes/Frames.antt =====
-- Lists of nodes of mycode/sperf.c in memory: what writes elsewhere leave.
use the_code_back_up_in_ubun.Base.{ℕ, suc, ◌≡◌, refl, ap, ◌∙◌, List, [], ◌∷◌, length, All}
use the_code_back_up_in_ubun.Doubles.{Doubles}
use the_code_back_up_in_ubun.Sperf.{FuncTime}
use the_code_back_up_in_ubun.Sperf.Nodes.{Nodes, node, Holds}

module _ (d : Doubles) where
  open d use {Num, add, gt}

  -- Each of the addresses has the same node and the same next as before.
  abbrev pub Same : Nodes d → Nodes d → List ℕ → Type 0
  Same s s' = All (λ a. (s'.next a ≡ s.next a) × (node d s' a ≡ node d s a))

  -- What is written elsewhere does not change the list.
  pub Holds-frame :
      (s s' : Nodes d) (q : ℕ) (qs : List ℕ) (xs : List (FuncTime d))
      → Same s s' qs
      → Holds d s q qs xs
      → Holds d s' q qs xs
  Holds-frame s s' q [] [] h e = e
  Holds-frame s s' q [] (x ∷ xs) h e = e
  Holds-frame s s' q (a ∷ qs) [] h e = e
  Holds-frame s s' q (a ∷ qs) (x ∷ xs) ((en, ea), h) (e, some_a, ex, rest) =
      (e, some_a, ea ∙ ex, rw en (Holds-frame s s' (s.next a) qs xs h rest))

  pub length-Holds :
      (s : Nodes d) (q : ℕ) (qs : List ℕ) (xs : List (FuncTime d))
      → Holds d s q qs xs
      → length xs ≡ length qs
  length-Holds s q [] [] e = refl
  length-Holds s q [] (x ∷ xs) e = absurd e
  length-Holds s q (a ∷ qs) [] e = absurd e
  length-Holds s q (a ∷ qs) (x ∷ xs) (_, _, _, rest) = ap suc (length-Holds s (s.next a) qs xs rest)
