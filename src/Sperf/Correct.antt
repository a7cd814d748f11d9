-- ===== src/Sperf/Correct.antt =====
-- The loop of sperf.c's parent on the entries of a trace.
use the_code_back_up_in_ubun.Base.{
  ℕ, zero, suc, ◌≤◌, ◌≡◌, refl, false, Option, List, [], ◌∷◌, ◌++◌, ◌==◌, if◌then◌else◌, length,
  length-append, All, arith, sym, ap, ◌∙◌,
}
use the_code_back_up_in_ubun.Doubles.{Doubles}
use the_code_back_up_in_ubun.Sperf.Profile.{spent, spent-append, total_of, total_of-append}
use the_code_back_up_in_ubun.Sperf.Trace.{fgets, round, rounds, Vars, ended, ◌>>=◌, exit_group}
use the_code_back_up_in_ubun.Sperf.Scan.{Without-append, fgets-Without}
use the_code_back_up_in_ubun.Sperf.Entries.{
  Entry, IsEntry, whole, pieces, skipped, exiting, delivered, samples, trace, all_samples, front,
  angled,
}
use the_code_back_up_in_ubun.Sperf.Lines.{round-whole, round-pieces, round-Skipped, round-exiting}
use the_code_back_up_in_ubun.Sperf.Recorded.{Holds, record_time-Holds}

module _ (d : Doubles) where
  open d use {Num, nought, add, percent}

  module _ (clock : ℕ → ℕ) where
    rounds_lem :
        (fuel : ℕ) (got : List ℕ) (pipe pipe' : List (List ℕ)) (v w : Vars d clock)
        → round d clock pipe (record v { s = fgets got v.s }) ≡ ended (pipe', w)
        → rounds d clock (suc fuel) (got ∷ pipe) v ≡ rounds d clock fuel pipe' w
    unfolding rounds
    rounds_lem fuel got pipe pipe' v w e = ground arith

    -- What a round makes of the variables, and of the length of the list.
    abbrev Rounded : Entry d → List (List ℕ) → (List ℕ → Option Num) → Num → Vars d clock → Type 0
    Rounded e pipe times total v =
        (w : Vars d clock) × ((fuel : ℕ)
          → rounds d clock (suc fuel) (delivered d e pipe) v ≡ rounds d clock fuel pipe w)
        × Holds d clock (λ k. spent d k (times k) (samples d e)) (total_of d total (samples d e)) w
        × ((length w.head == 0) ≡ (if length (samples d e) == 0 then length v.head == 0 else false))

    round-Holds :
        (e : Entry d) (pipe : List (List ℕ)) (times : List ℕ → Option Num) (total : Num)
        (v : Vars d clock)
        → IsEntry d e
        → Holds d clock times total v
        → Rounded e pipe times total v
    unfolding spent total_of
    round-Holds (whole x) pipe times total v (is, fits) h =
        let (w, stored, holds, some_w) = record_time-Holds d clock times total v x.func x.time h in
        (
          w,
          λ fuel. rounds_lem fuel (front d x ++ angled d x) pipe pipe v w (
              round-whole d clock x is pipe v fits h.blank
              ∙ ap (λ o. o >>= λ v'. ended (pipe, v')) stored),
          holds,
          some_w,
        )
    round-Holds (pieces start between x) pipe times total v
          (is, start_fits, between_fit, w, ws, some_m, fits) h =
        let (u, stored, holds, some_u) = record_time-Holds d clock times total v x.func x.time h in
        (
          u,
          λ fuel. rounds_lem fuel (x.func ++ b'(' ∷ start) _ pipe v u (
              round-pieces d clock x is start between pipe v w ws some_m fits h.blank
              ∙ ap (λ o. o >>= λ v'. ended (pipe, v')) stored),
          holds,
          some_u,
        )
    round-Holds (skipped got) pipe times total v (skip, w, fits) h = (
      record v { s = fgets got v.s },
      λ fuel. rounds_lem fuel got pipe pipe v _ (round-Skipped d clock pipe v got skip),
      record {
        blank = fgets-Without b'<' got v.s refl w h.blank;
        distinct = h.distinct;
        sorted = h.sorted;
        found = h.found;
        sum = h.sum;
      },
      refl,
    )
    round-Holds (exiting r) pipe times total v (w, fits) h = (
      record v { s = fgets (exit_group ++ b'(' ∷ r) v.s },
      λ fuel.
          rounds_lem fuel (exit_group ++ b'(' ∷ r) pipe pipe v _ (round-exiting d clock pipe v r),
      record {
        blank =
            fgets-Without b'<' (exit_group ++ b'(' ∷ r) v.s refl
              (Without-append b'<' exit_group (b'(' ∷ r) (ground arith) (refl, w)) h.blank;
        distinct = h.distinct;
        sorted = h.sorted;
        found = h.found;
        sum = h.sum;
      },
      refl,
    )

    -- The loop on a trace.
    pub rounds-Holds :
        (fuel : ℕ) (es : List (Entry d)) (times : List ℕ → Option Num) (total : Num)
        (v : Vars d clock)
        → length es ≤ fuel
        → All (IsEntry d) es
        → Holds d clock times total v
        → (w : Vars d clock) × (rounds d clock fuel (trace d es) v ≡ ended w)
          × Holds d clock
              (λ k. spent d k (times k) (all_samples d es))
              (total_of d total (all_samples d es))
              w
          × ((length w.head == 0)
              ≡ (if length (all_samples d es) == 0 then length v.head == 0 else false))
    unfolding rounds spent total_of
    rounds-Holds zero [] times total v le is h = (v, refl, h, refl)
    rounds-Holds (suc fuel) [] times total v le is h = (v, refl, h, refl)
    rounds-Holds zero (e ∷ es) times total v le is h = absurd (omega arith)
    rounds-Holds (suc fuel) (e ∷ es) times total v le (i, is) h =
        let (w, step, holds, some_w) = round-Holds e (trace d es) times total v i h in
        let (u, run, holds_u, some_u) =
          rounds-Holds fuel es (λ k. spent d k (times k) (samples d e))
            (total_of d total (samples d e)) w (omega arith) is holds in
        (
          u,
          step fuel ∙ run,
          record {
            blank = holds_u.blank;
            distinct = holds_u.distinct;
            sorted = holds_u.sorted;
            found = λ k.
                holds_u.found k ∙ sym (spent-append d k (times k) (samples d e) (all_samples d es));
            sum = holds_u.sum ∙ sym (total_of-append d total (samples d e) (all_samples d es));
          },
          ground (arith, some_u, some_w, length-append (samples d e) (all_samples d es)),
        )
