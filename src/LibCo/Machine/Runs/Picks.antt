-- ===== src/LibCo/Machine/Runs/Picks.antt =====
-- The loop of `callback` of libco/co-first.c: what it chooses on a list that is well formed.
use the_code_back_up_in_ubun.Base.{
  ℕ, ◌+◌, ◌≤◌, ◌≡◌, inl, inr, refl, true, false, Option, none, some, List, [], ◌∷◌, ◌==◌, length,
  arith, Bool-cases, Option-cases, dec_lt,
}
use the_code_back_up_in_ubun.LibCo.{State, rand_pool_head, co_new, same_name}
use the_code_back_up_in_ubun.LibCo.Choice.{WellFormed, pool_of, rand_choose_crashes}
use the_code_back_up_in_ubun.LibCo.Machine.{choose_waiting}
use the_code_back_up_in_ubun.LibCo.Machine.Good.{restatus-WellFormed, chosen_lem}
use the_code_back_up_in_ubun.LibCo.Machine.Runs.{In, After, In-All}

-- What `choose_waiting` gives.
pub record Picked (s : State) (ys : List ℕ) (p : ℕ × State) : Type 0 where
  pub brother : ℕ → ℕ
  pub state_is : p.1 ≡ record s { brother = brother }
  pub zeros : (x : ℕ) → brother x ≡ 0
  pub listed : In p.0 ys

Picked-weaken :
    (s : State) (ys : List ℕ) (b : ℕ → ℕ) (o : Option (ℕ × State))
    → After (Picked (record s { brother = b }) ys) o
    → After (Picked s ys) o
Picked-weaken s ys b none h = tt
Picked-weaken s ys b (some p) h = record {
  brother = h.brother;
  state_is = h.state_is;
  zeros = h.zeros;
  listed = h.listed;
}

pub choose_waiting-Picked :
    (fuel : ℕ) (rs : List ℕ) (s : State) (ys n : List ℕ)
    → WellFormed s ys
    → s.name rand_pool_head ≡ none
    → s.name s.current ≡ some n
    → length ys + 2 ≤ fuel
    → After (Picked s ys) (choose_waiting fuel rs s)
unfolding choose_waiting
choose_waiting-Picked fuel [] s ys n w pool_name named enough = tt
choose_waiting-Picked fuel (r ∷ rs) s ys n w pool_name named enough =
    elim (dec_lt 0 (length (pool_of s ys))) [
      | no empty ↦
          rw (rand_choose_crashes fuel r s ys w pool_name (omega arith) enough, choose_waiting) tt
      | yes some_ready ↦
          let (q, b, h) = chosen_lem fuel r s ys n w named some_ready enough in
          let s' : State = record s { brother = b } in
          let later = Picked-weaken s ys b (choose_waiting fuel rs s') (
            choose_waiting-Picked fuel rs s' ys n
              (restatus-WellFormed s ys s.status b s.current w w.head_status h.zeros) pool_name
              named enough) in
          let found : Picked s ys (q, s') = record {
            brother = b;
            state_is = refl;
            zeros = h.zeros;
            listed = In-All q ys (λ P. h.in_list P);
          } in
          elim (Bool-cases (s.status q == co_new)) [
            | inl fresh ↦ rw (h.run, choose_waiting) (rw fresh later)
            | inr old ↦ elim (Option-cases (same_name s' q s.current)) [
              | inl e ↦ rw (h.run, choose_waiting) (rw old (rw e tt))
              | inr (true, e) ↦ rw (h.run, choose_waiting) (rw old (rw e later))
              | inr (false, e) ↦ rw (h.run, choose_waiting) (rw old (rw e found))
            ]
          ]
    ]
