-- ===== src/Scheduler/Single.antt =====
-- The interrupt handler of thread-os.c, on its one CPU: the tasks take turns.
use native.Mathlib.Nat.{mod-add-mod, mod-eq_of_lt}
use the_code_back_up_in_ubun.Base.{
  ℕ, suc, ◌+◌, ◌%◌, ◌<◌, ◌≡◌, refl, sym, ◌∙◌, ap, none, some, List, [], ◌∷◌, length, update, arith,
}
use the_code_back_up_in_ubun.Scheduler.{State, next_task, on_interrupt}

module _ {ℓ} (C : Type ℓ) where
  -- One interrupt after another, with the contexts that they interrupt.
  unfoldable pub interrupts : ℕ → List C → State C → State C
  unfolding on_interrupt
  interrupts n [] s = s
  interrupts n (c ∷ cs) s = interrupts n cs (on_interrupt C n c s).1

  -- An interrupt of a running task keeps its context, and goes on with that of the next.
  pub on_interrupt_lem :
      (n t : ℕ) (c : C) (s : State C)
      → s.current 0 ≡ some t
      → on_interrupt C n c s ≡ (
        update s.context t c (next_task C n t),
        record {
          context = update s.context t c;
          current = update s.current 0 (some (next_task C n t));
        },
      )
  unfolding on_interrupt
  on_interrupt_lem n t c s e = rw (e, on_interrupt) refl

  interrupts_turns :
      (n : ℕ) (cs : List C) (t : ℕ) (s : State C)
      → s.current 0 ≡ some (t % n)
      → (interrupts n cs s).current 0 ≡ some ((t + length cs) % n)
  unfolding interrupts next_task
  interrupts_turns n [] t s e = e ∙ ap (λ k. some (k % n)) (omega arith)
  interrupts_turns n (c ∷ cs) t s e =
      interrupts_turns n cs (suc t) _ (
        ap (λ p. p.1.current 0) (on_interrupt_lem n (t % n) c s e)
        ∙ ap some (mod-add-mod t n 1 ∙ ap (λ k. k % n) (omega arith)))
      ∙ ap (λ k. some (k % n)) (omega arith)

  first_lem :
      (n : ℕ) (c : C) (s : State C)
      → s.current 0 ≡ none
      → (on_interrupt C n c s).1.current 0 ≡ some 0
  unfolding on_interrupt
  first_lem n c s e = rw (e, on_interrupt) refl

  -- From the first interrupt on the tasks take turns: k interrupts later the task k is current,
  -- counted round and round, so each of the n tasks is current again after n interrupts.
  pub interrupts_round :
      (n : ℕ) (c : C) (cs : List C) (s : State C)
      → s.current 0 ≡ none
      → 0 < n
      → (interrupts n (c ∷ cs) s).current 0 ≡ some (length cs % n)
  unfolding interrupts
  interrupts_round n c cs s e some_task =
      interrupts_turns n cs 0 (on_interrupt C n c s).1
        (first_lem n c s e ∙ ap some (sym (mod-eq_of_lt some_task)))
      ∙ ap (λ k. some (k % n)) (omega arith)
