-- ===== src/Sperf/Parent.antt =====
-- The parent's branch of sperf.c's main, from the first line of the trace to the last frame.
use the_code_back_up_in_ubun.Base.{
  ℕ, zero, suc, ◌≤◌, ◌<◌, ◌≡◌, refl, false, none, some, List, [], ◌∷◌, ◌++◌, ◌==◌, length,
  length-append, take, All, arith, ap, ◌∙◌, map,
}
use the_code_back_up_in_ubun.Doubles.{Doubles}
use the_code_back_up_in_ubun.Sperf.{FuncTime, sort, sort_loop, show}
use the_code_back_up_in_ubun.Sperf.Profile.{find, Distinct, sort_loop-SameMap, spent, total_of}
use the_code_back_up_in_ubun.Sperf.Sorted.{IsSorted, sort_loop-IsSorted}
use the_code_back_up_in_ubun.Sperf.Trace.{
  cleared, fgets, rounds, parent, parent_reads, Vars, ended, aborted, reads_forever,
}
use the_code_back_up_in_ubun.Sperf.Entries.{
  Entry, IsEntry, Sample, IsSample, whole, pieces, skipped, exiting, front, angled, Skipped,
  delivered, trace, all_samples,
}
use the_code_back_up_in_ubun.Sperf.Lines.{round_cut, round-Skipped}
use the_code_back_up_in_ubun.Sperf.Scan.{Without, cleared-Without}
use the_code_back_up_in_ubun.Sperf.Recorded.{show-take, Holds, length-sort_loop}
use the_code_back_up_in_ubun.Sperf.Pieces.{IsPiece, bytes_of, deliveries-bytes_of}
use the_code_back_up_in_ubun.Sperf.Correct.{rounds-Holds}

module _ (d : Doubles) (clock : ℕ → ℕ) where
  open d use {Num, nought, percent}

  abbrev first : Vars d clock
  first = record {
    s = cleared;
    head = [];
    total_time = nought;
    begin = clock 0;
    calls = 1;
    frames = [];
  }

  first-Holds : Holds d clock (λ k. none) nought first
  unfolding find
  first-Holds = record {
    blank = cleared-Without b'<' refl;
    distinct = tt;
    sorted = tt;
    found = λ k. refl;
    sum = refl;
  }

  -- The list that the last frame shows.
  pub record Profile (xs : List (FuncTime d)) (head : List (FuncTime d)) : Type 0 where
    pub sorted : IsSorted d head
    pub distinct : Distinct d head
    pub found : (k : List ℕ) → find d k head ≡ spent d k none xs

  finish :
      (w : Vars d clock) (xs : List (FuncTime d))
      → Holds d clock (λ k. spent d k none xs) (total_of d nought xs) w
      → (length w.head == 0) ≡ false
      → (head : List (FuncTime d)) × (sort d w.head ≡ some head)
        × ((length head == 0) ≡ false)
        × Profile xs head
  unfolding sort
  finish w xs h some_w = last w.head refl
    where
      last :
          (ps : List (FuncTime d))
          → w.head ≡ ps
          → (head : List (FuncTime d)) × (sort d w.head ≡ some head)
            × ((length head == 0) ≡ false)
            × Profile xs head
      last [] e = absurd (ground arith)
      last (p ∷ ps) e =
          let n : ℕ = length (p ∷ ps) in
          let (eq, dis) = sort_loop-SameMap d n (p ∷ ps) (rw e at h.distinct) in
          (
            sort_loop d n (p ∷ ps),
            rw e,
            length-sort_loop d clock n p ps,
            record {
              sorted = sort_loop-IsSorted d n (p ∷ ps) (omega arith);
              distinct = dis;
              found = λ k. eq k ∙ (rw e at h.found k);
            },
          )

  length-delivered :
      (e : Entry d) (pipe : List (List ℕ)) → length pipe < length (delivered d e pipe)
  length-delivered (whole x) pipe = omega arith
  length-delivered (pieces start between x) pipe =
      omega (arith, length-append {0} between ((x.middle ++ angled d x) ∷ pipe))
  length-delivered (skipped got) pipe = omega arith
  length-delivered (exiting r) pipe = omega arith

  length-trace : (es : List (Entry d)) → length es ≤ length (trace d es)
  length-trace [] = omega arith
  length-trace (e ∷ es) = omega (arith, length-delivered e (trace d es), length-trace es)

  parent_lem :
      (pipe : List (List ℕ)) (w : Vars d clock) (head : List (FuncTime d))
      (frame : List (List ℕ × ℕ))
      → rounds d clock (length pipe) pipe first ≡ ended w
      → sort d w.head ≡ some head
      → show d head w.total_time ≡ some frame
      → parent d clock pipe ≡ ended (w.frames ++ frame ∷ [])
  unfolding parent
  parent_lem pipe w head frame e s f = ground arith

  trace-Profile :
      (es : List (Entry d))
      → All (IsEntry d) es
      → 0 < length (all_samples d es)
      → (head : List (FuncTime d)) × Profile (all_samples d es) head
        × ((frames : List (List (List ℕ × ℕ))) × (parent d clock (trace d es)
              ≡ ended (
                  frames
                  ++ map
                      (λ p. (p.func, percent p.time (total_of d nought (all_samples d es))))
                      (take 8 head)
                    ∷ [])))
  trace-Profile es is some_x =
      let xs : List (FuncTime d) = all_samples d es in
      let (w, ended_w, holds, some_w) =
        rounds-Holds d clock (length (trace d es)) es (λ k. none) nought first (length-trace es) is
          first-Holds in
      let (head, sorted_w, some_head, profile) =
        finish w xs holds (ground (arith, some_w, some_x)) in
      let shown = show-take d head (total_of d nought xs) in
      (
        head,
        profile,
        (
          w.frames,
          parent_lem (trace d es) w head _ ended_w sorted_w
              (ap (show d head) holds.sum ∙ shown ∙ rw some_head),
        ),
      )

  -- The trace is a row of lines of system calls, one at least, whole or in pieces with no `<` in
  -- front of the last, and in any order with them lines that do not begin with a lower-case letter
  -- and lines of exit_group, both without a `<`; each is what one call of `fgets(s, 300, …)`
  -- delivers, a line of at most 299 bytes, or, as the pieces of a longer line of a system call, 299
  -- bytes or the end of the line. When the bytes of this trace are in the pipe, the parent ends,
  -- whatever the clock says, and the last frame that it shows has the first eight nodes of a list
  -- that is sorted by time, has no name twice, and gives each name the sum of its times, in the
  -- order of the trace, and no time to any other name; the shares are those of the sum of all times.
  pub parent-Profile :
      (es : List (Entry d))
      → All (IsEntry d) es
      → All IsPiece (trace d es)
      → 0 < length (all_samples d es)
      → (head : List (FuncTime d)) × Profile (all_samples d es) head
        × ((frames : List (List (List ℕ × ℕ))) × (parent_reads d clock (bytes_of (trace d es))
              ≡ ended (
                  frames
                  ++ map
                      (λ p. (p.func, percent p.time (total_of d nought (all_samples d es))))
                      (take 8 head)
                    ∷ [])))
  unfolding parent_reads
  parent-Profile es is pieces_fit some_x =
      let (head, profile, (frames, run)) = trace-Profile es is some_x in
      (
        head,
        profile,
        (frames, ap (parent d clock) (deliveries-bytes_of (trace d es) pieces_fit) ∙ run),
      )

  rounds_skip :
      (fuel : ℕ) (pipe : List (List ℕ)) (v : Vars d clock)
      → length pipe ≤ fuel
      → All Skipped pipe
      → (s : List ℕ) × (rounds d clock fuel pipe v ≡ ended (record v { s = s }))
  unfolding rounds
  rounds_skip zero [] v le h = (v.s, refl)
  rounds_skip (suc fuel) [] v le h = (v.s, refl)
  rounds_skip zero (got ∷ pipe) v le h = absurd (omega arith)
  rounds_skip (suc fuel) (got ∷ pipe) v le (a, h) =
      let (s, e) = rounds_skip fuel pipe (record v { s = fgets got v.s }) (omega arith) h in
      (s, rw (round-Skipped d clock pipe v got a) e)

  -- On a trace with no line of a system call, so also on an empty one, the assertion of `sort`
  -- fails.
  pub parent_aborts : (pipe : List (List ℕ)) → All Skipped pipe → parent d clock pipe ≡ aborted
  unfolding parent sort
  parent_aborts pipe h = let (s, e) = rounds_skip (length pipe) pipe first (omega arith) h in rw e

  -- If the trace is the beginning of a line of a system call, up to before its `<`, the parent
  -- calls fgets at the end of the file for ever.
  pub parent_hangs :
      (x : Sample d)
      → IsSample d x
      → Without b'<' (front d x)
      → parent d clock (front d x ∷ []) ≡ reads_forever
  unfolding parent rounds
  parent_hangs x is w = rw (round_cut d clock x is first w (cleared-Without b'<' refl))
