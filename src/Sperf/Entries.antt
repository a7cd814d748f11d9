-- ===== src/Sperf/Entries.antt =====
-- The trace that sperf.c reads: lines of system calls, `name(…) = … <time>`, whole or in pieces, and
-- the lines that are passed over.
use the_code_back_up_in_ubun.Base.{
  ℕ, ◌<◌, ◌≤◌, ◌≡◌, true, false, ◌&&◌, some, List, [], ◌∷◌, ◌++◌, leb, length, get_or, All,
}
use the_code_back_up_in_ubun.CString.{same}
use the_code_back_up_in_ubun.Doubles.{Doubles}
use the_code_back_up_in_ubun.Sperf.{FuncTime}
use the_code_back_up_in_ubun.Sperf.Trace.{exit_group}
use the_code_back_up_in_ubun.Sperf.Scan.{Without}

-- A line that does not begin with a lower-case letter.
abbrev pub Skipped : List ℕ → Type 0
Skipped got = (leb b'a' (get_or got 0 0) && leb (get_or got 0 0) b'z') ≡ false

module _ (d : Doubles) where
  open d use {Num, scan}

  -- `func(` middle `<` digits post, and the number that the digits stand for.
  pub record Sample : Type 0 where
    pub func : List ℕ
    pub middle : List ℕ
    pub digits : List ℕ
    pub post : List ℕ
    pub time : Num

  -- The end of the line from its `<` on.
  abbrev pub angled : Sample → List ℕ
  angled x = b'<' ∷ (x.digits ++ x.post)

  abbrev pub front : Sample → List ℕ
  front x = x.func ++ b'(' ∷ x.middle

  pub record IsSample (x : Sample) : Type 0 where
    pub lower : (leb b'a' (get_or x.func 0 0) && leb (get_or x.func 0 0) b'z') ≡ true
    pub no_paren : Without b'(' x.func
    pub no_nul : Without 0 x.func
    pub not_exit : same x.func exit_group ≡ false
    pub eight : length x.digits ≡ 8
    pub digits_angle : Without b'<' x.digits
    pub digits_nul : Without 0 x.digits
    pub number : scan x.digits ≡ some x.time
    pub post_angle : Without b'<' x.post

  -- What the trace has: a line of a system call that one fgets delivers, or one that is longer, with
  -- its first piece `func(` start and the pieces up to the one that has the `<`; a line that does
  -- not begin with a lower-case letter, as of signals and the end; and that of exit_group.
  pub data Entry : Type 0 where
    whole : Sample → Entry
    pieces : List ℕ → List (List ℕ) → Sample → Entry
    skipped : List ℕ → Entry
    exiting : List ℕ → Entry

  -- What the calls of fgets deliver of it, with the rest of the pipe behind it.
  abbrev pub delivered : Entry → List (List ℕ) → List (List ℕ)
  delivered (whole x) pipe = (front x ++ angled x) ∷ pipe
  delivered (pieces start between x) pipe =
      (x.func ++ b'(' ∷ start) ∷ (between ++ (x.middle ++ angled x) ∷ pipe)
  delivered (skipped got) pipe = got ∷ pipe
  delivered (exiting rest) pipe = (exit_group ++ b'(' ∷ rest) ∷ pipe

  abbrev pub samples : Entry → List (FuncTime d)
  samples (whole x) = record { func = x.func; time = x.time } ∷ []
  samples (pieces start between x) = record { func = x.func; time = x.time } ∷ []
  samples (skipped got) = []
  samples (exiting rest) = []

  -- A whole trace: what the pipe delivers, and its samples.
  abbrev pub trace : List Entry → List (List ℕ)
  trace [] = []
  trace (e ∷ es) = delivered e (trace es)

  abbrev pub all_samples : List Entry → List (FuncTime d)
  all_samples [] = []
  all_samples (e ∷ es) = samples e ++ all_samples es

  -- There is a `<` only in front of the time, but for the middle of a line, and each piece is what
  -- one call of `fgets(s, 300, …)` can deliver, 299 bytes at most: a longer line comes in several.
  abbrev pub IsEntry : Entry → Type 0
  IsEntry (whole x) = IsSample x × (length (front x ++ angled x) ≤ 299)
  IsEntry (pieces start between x) =
      IsSample x
      × (length (x.func ++ b'(' ∷ start) ≤ 299)
      × All (λ got. length got ≤ 299) between
      × Without b'<' (x.func ++ b'(' ∷ start)
      × All (Without b'<') between
      × (0 < length x.middle)
      × (length (x.middle ++ angled x) ≤ 299)
  IsEntry (skipped got) = Skipped got × Without b'<' got × (length got ≤ 299)
  IsEntry (exiting rest) = Without b'<' rest × (length (exit_group ++ b'(' ∷ rest) ≤ 299)
