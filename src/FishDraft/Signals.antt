-- ===== src/FishDraft/Signals.antt =====
-- What `fish_after` of os-midterm/fish.c counts and signals, told by the automaton of
-- multi-threads/fish.c.
use the_code_back_up_in_ubun.Base.{
  ℕ, ◌+◌, ◌≡◌, ◌≢◌, refl, ◌⊎◌, ◌∙◌, sym, ap, inl, inr, List, [], ◌∷◌, ◌++◌, arith,
}
use the_code_back_up_in_ubun.Fish.{next, next_in, state_a}
use the_code_back_up_in_ubun.Fish.Words.{Swims, Begun, IsFish, empty, Swims-grows, Swims-ends}
use the_code_back_up_in_ubun.FishDraft.{Draft, fish_init, fish_after, waiter}

-- The word of characters that fish may have printed, each in its turn, with the state of the
-- automaton behind it.
pub data Printed : List ℕ → ℕ → Draft → Type 0 where
  start : Printed [] state_a fish_init
  print :
      (r c : ℕ) (v : List ℕ) (q : ℕ) (s : Draft)
      → Printed v q s
      → next q c ≢ 0
      → Printed (v ++ c ∷ []) (next q c) (fish_after r c s).0

pub sum : List ℕ → ℕ
sum [] = 0
sum (c ∷ cs) = c + sum cs

fish_after-Begun :
    (r q c : ℕ) (p : List ℕ) (s : Draft)
    → Begun q p
    → s.fish_sum ≡ sum p
    → next q c ≢ 0
    → (Begun (next q c) (p ++ c ∷ []) × ((fish_after r c s).0.fish_sum ≡ sum (p ++ c ∷ [])))
      ⊎ ((next q c ≡ state_a) × IsFish (p ++ c ∷ []) × ((fish_after r c s).0.fish_sum ≡ 0))
unfolding next next_in fish_after sum
fish_after-Begun r q c p s h e ne = ground arith

fish_after-waiter :
    (r q c : ℕ) (p : List ℕ) (s : Draft)
    → Begun q p
    → s.fish_sum ≡ sum p
    → next q c ≢ 0
    → next (next q c) (waiter (fish_after r c s).1) ≢ 0
unfolding next next_in fish_after waiter sum
fish_after-waiter r q c p s h e ne = ground arith

start-sum : (w : Swims state_a []) × (fish_init.fish_sum ≡ sum w.part)
unfolding sum fish_init
start-sum =
    (record { whole = []; part = []; school = empty; begun = inl (refl, refl); all = refl }, refl)

Printed-sum :
    (v : List ℕ) (q : ℕ) (s : Draft) → Printed v q s → (w : Swims q v) × (s.fish_sum ≡ sum w.part)
unfolding sum
Printed-sum _ _ _ start = start-sum
Printed-sum _ _ _ (print r c v q s h ne) =
    let (w, e) = Printed-sum v q s h in
    elim (fish_after-Begun r q c w.part s w.begun e ne) [
      | inl (on, e1) ↦
          let (w', e') = Swims-grows q (next q c) c v w on in (w', e1 ∙ sym (ap sum e'))
      | inr (q0, f, e1) ↦
          let (w', e') = Swims-ends q (next q c) c v w q0 f in (w', e1 ∙ sym (ap sum e'))
    ]

-- While each character that os-midterm/fish.c prints is one that the rules of multi-threads/fish.c
-- allow: fish_sum is the sum of the characters of the fish that has been begun, 0 behind a whole one,
-- and fish_after, for a character that the rules allow next, signals, whatever rand() gives, the
-- condition of one that they allow behind it.
pub fish_after_lem :
    (v : List ℕ) (q r c : ℕ) (s : Draft)
    → Printed v q s
    → next q c ≢ 0
    → ((w : Swims q v) × (s.fish_sum ≡ sum w.part))
      × (next (next q c) (waiter (fish_after r c s).1) ≢ 0)
fish_after_lem v q r c s h ne =
    let (w, e) = Printed-sum v q s h in ((w, e), fish_after-waiter r q c w.part s w.begun e ne)
