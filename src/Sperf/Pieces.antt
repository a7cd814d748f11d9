-- ===== src/Sperf/Pieces.antt =====
-- What the calls `fgets(s, 300, …)` of mycode/sperf.c deliver of the bytes of the trace.
use the_code_back_up_in_ubun.Base.{
  sym, ℕ, suc, ◌-◌, ◌<◌, ◌≤◌, ◌≡◌, ◌⊎◌, inl, inr, refl, ◌∙◌, ap, true, false, ◌||◌, List, [], ◌∷◌,
  ◌++◌, ◌==◌, length, All, arith, append_assoc,
}
use the_code_back_up_in_ubun.Sperf.Trace.{deliveries, begin_with}
use the_code_back_up_in_ubun.Sperf.Scan.{Without}

-- The bytes that these pieces make up.
abbrev pub bytes_of : List (List ℕ) → List ℕ
bytes_of [] = []
bytes_of (got ∷ pieces) = got ++ bytes_of pieces

-- What one call delivers: a line of at most 299 bytes, its line feed included, or the end of a
-- longer one; or 299 bytes, of which at most the last one is a line feed.
pub record IsPiece (got : List ℕ) : Type 0 where
  pub body : List ℕ
  pub last : ℕ
  pub is : got ≡ body ++ last ∷ []
  pub one_line : Without 10 body
  pub stops : ((last ≡ 10) × (length body ≤ 298)) ⊎ (length body ≡ 298)

deliveries-piece :
    (body : List ℕ) (last room : ℕ) (behind : List ℕ)
    → Without 10 body
    → ((last ≡ 10) × (length body < room)) ⊎ (suc (length body) ≡ room)
    → deliveries room (body ++ last ∷ behind) ≡ (body ++ last ∷ []) ∷ deliveries 299 behind
unfolding deliveries begin_with
deliveries-piece [] last room behind w stops =
    let ends : ((last == 10) || (room == 1)) ≡ true = elim stops [
      | inl (line_feed, lt) ↦ rw line_feed refl
      | inr full ↦ ground (arith, full)
    ] in
    rw (ends, deliveries) refl
deliveries-piece (c ∷ body) last room behind (a, w) stops =
    let goes_on : ((c == 10) || (room == 1)) ≡ false = ground (arith, a, stops) in
    let rest = deliveries-piece body last (room - 1) behind w (elim stops [
      | inl (line_feed, lt) ↦ inl (line_feed, omega arith)
      | inr full ↦ inr (omega arith)
    ]) in
    rw (goes_on, deliveries, rest, begin_with) refl

-- The calls deliver just these pieces of their bytes.
pub deliveries-bytes_of :
    (pieces : List (List ℕ)) → All IsPiece pieces → deliveries 299 (bytes_of pieces) ≡ pieces
unfolding deliveries
deliveries-bytes_of [] h = refl
deliveries-bytes_of (got ∷ pieces) (p, h) =
    let stops : ((p.last ≡ 10) × (length p.body < 299)) ⊎ (suc (length p.body) ≡ 299) =
      elim p.stops [
        | inl (line_feed, le) ↦ inl (line_feed, omega arith)
        | inr full ↦ inr (omega arith)
      ] in
    ap (λ l. deliveries 299 (l ++ bytes_of pieces)) p.is
    ∙ ap (deliveries 299) (append_assoc p.body (p.last ∷ []) (bytes_of pieces))
    ∙ deliveries-piece p.body p.last 299 (bytes_of pieces) p.one_line stops
    ∙ ap (λ l. l ∷ deliveries 299 (bytes_of pieces)) (sym p.is)
    ∙ ap (λ ls. got ∷ ls) (deliveries-bytes_of pieces h)
