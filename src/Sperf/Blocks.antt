-- ===== src/Sperf/Blocks.antt =====
-- `Free` of mycode/sperf.c, on the blocks of memory that the list and its names are.
use the_code_back_up_in_ubun.Base.{
  ℕ, zero, suc, ◌≤◌, ◌≡◌, ◌≢◌, refl, sym, ◌∙◌, true, false, Bool, Option, none, some, List, [], ◌∷◌,
  ◌==◌, if◌then◌else◌, length, All, update, update_self, update_other, arith,
}
use the_code_back_up_in_ubun.LibCo.Segments.{Seg, Away, Unique}

-- The fields `next` and `func` of the nodes, by their addresses, and the blocks that are freed.
pub record Heap : Type 0 where
  pub next : ℕ → ℕ
  pub func : ℕ → ℕ
  pub freed : ℕ → Bool

-- `free`, which takes NULL, and must not be called for a block again.
abbrev pub free : ℕ → Heap → Option Heap
free p h =
    if p == 0
    then some h
    else if h.freed p
    then none
    else some (record h { freed = update h.freed p true })

-- `Free(head)`; a node that is freed must not be read.
unfoldable pub free_list : ℕ → ℕ → Heap → Option Heap
free_list zero p h = if p == 0 then some h else none
free_list (suc fuel) p h =
    if p == 0 then some h else if h.freed p then none else elim (free (h.func p) h) [
      | none ↦ none
      | some h1 ↦ elim (free p h1) [ none ↦ none | some h2 ↦ free_list fuel (h.next p) h2 ]
    ]

-- The blocks of the nodes and of their names.
abbrev pub blocks : (ℕ → ℕ) → List ℕ → List ℕ
blocks func [] = []
blocks func (p ∷ ps) = func p ∷ p ∷ blocks func ps

abbrev mark : (ℕ → Bool) → List ℕ → ℕ → Bool
mark freed [] = freed
mark freed (p ∷ ps) = mark (update freed p true) ps

mark-other : (freed : ℕ → Bool) (b : ℕ) (ps : List ℕ) → Away b ps → mark freed ps b ≡ freed b
mark-other freed b [] away = refl
mark-other freed b (p ∷ ps) (ne, away) =
    mark-other (update freed p true) b ps away ∙ update_other freed true (λ e. ne (sym e))

mark-kept : (freed : ℕ → Bool) (b : ℕ) (ps : List ℕ) → freed b ≡ true → mark freed ps b ≡ true
mark-kept freed b [] e = e
mark-kept freed b (p ∷ ps) e = mark-kept (update freed p true) b ps (ground arith)

mark-All : (freed : ℕ → Bool) (ps : List ℕ) → All (λ b. mark freed ps b ≡ true) ps
mark-All freed [] = tt
mark-All freed (p ∷ ps) = (
  mark-kept (update freed p true) p ps (update_self freed p true),
  mark-All (update freed p true) ps,
)

-- Blocks that are freed before leave the others live.
still_live :
    (freed : ℕ → Bool) (p : ℕ) (bs : List ℕ)
    → Away p bs
    → All (λ b. (b ≢ 0) × (freed b ≡ false)) bs
    → All (λ b. (b ≢ 0) × (update freed p true b ≡ false)) bs
still_live freed p [] away h = tt
still_live freed p (b ∷ bs) (ne, away) ((some_b, e), h) =
    ((some_b, update_other freed true ne ∙ e), still_live freed p bs away h)

free_list-mark :
    (fuel p : ℕ) (h : Heap) (ps : List ℕ)
    → Seg h.next p ps
    → Unique (blocks h.func ps)
    → All (λ b. (b ≢ 0) × (h.freed b ≡ false)) (blocks h.func ps)
    → length ps ≤ fuel
    → free_list fuel p h ≡ some (record h { freed = mark h.freed (blocks h.func ps) })
unfolding free_list
free_list-mark zero p h [] e u live enough = rw e refl
free_list-mark zero p h (x ∷ xs) seg u live enough = absurd (omega arith)
free_list-mark (suc fuel) p h [] e u live enough = rw e refl
free_list-mark (suc fuel) p h (x ∷ xs) (e, some_x, seg) ((ne, away), (away', u))
      ((some_f, f_live), ((_, x_live), live)) enough =
    let h1 : Heap = record h { freed = update h.freed (h.func x) true } in
    let h2 : Heap = record h1 { freed = update h1.freed x true } in
    let rest =
      free_list-mark fuel (h.next x) h2 xs seg u
        (still_live h1.freed x _ away' (still_live h.freed (h.func x) _ away live)) (omega arith) in
    let x_live' : h1.freed x ≡ false = update_other h.freed true ne ∙ x_live in
    ground (arith, e, rest, some_f, f_live, x_live, x_live', some_x)

-- Free of sperf.c ends, on a list whose nodes and names are different blocks that are not freed: it
-- reads no block that is freed, frees each of them, and none twice, and no other.
pub free_list_lem :
    (fuel p : ℕ) (h : Heap) (ps : List ℕ)
    → Seg h.next p ps
    → Unique (blocks h.func ps)
    → All (λ b. (b ≢ 0) × (h.freed b ≡ false)) (blocks h.func ps)
    → length ps ≤ fuel
    → (freed : ℕ → Bool) × (free_list fuel p h ≡ some (record h { freed = freed }))
      × All (λ b. freed b ≡ true) (blocks h.func ps)
      × ((b : ℕ) → Away b (blocks h.func ps) → freed b ≡ h.freed b)
free_list_lem fuel p h ps seg u live enough = (
  mark h.freed (blocks h.func ps),
  free_list-mark fuel p h ps seg u live enough,
  mark-All h.freed (blocks h.func ps),
  λ b. mark-other h.freed b (blocks h.func ps),
)
