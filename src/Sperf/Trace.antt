-- ===== src/Sperf/Trace.antt =====
-- The loop of `main` in mycode/sperf.c that reads the trace. The pipe is a list of bytes, of which
-- `deliveries` makes the pieces that the calls of fgets deliver, and then the end of the file; the
-- loop is over these pieces.
-- The n-th call of clock() returns `clock n`, a parameter, as are the doubles.
use the_code_back_up_in_ubun.Base.{
  ℕ, zero, suc, ◌+◌, ◌-◌, ◌&&◌, ◌||◌, not, Option, none, some, List, [], ◌∷◌, ◌++◌, ◌==◌, ltb, leb,
  if◌then◌else◌, length, get_or, take, drop, replicate,
}
use the_code_back_up_in_ubun.CString.{text, same}
use the_code_back_up_in_ubun.Doubles.{Doubles}
use the_code_back_up_in_ubun.Sperf.{FuncTime, append, sort, show}

-- How the loop, or a round of it, can end.
pub data Outcome {ℓ} (A : Type ℓ) : Type ℓ where
  ended : A → Outcome A
  aborted : Outcome A  -- an assertion fails
  out_of_bounds : Outcome A  -- a read behind the end of `s`
  no_number : Outcome A  -- sscanf finds no number, and `time` has no value
  reads_forever : Outcome A  -- the inner loop calls fgets at the end of the file again and again
  out_of_fuel : Outcome A

infixl 5 ◌>>=◌
abbrev pub ◌>>=◌ {ℓ κ} : {A : Type ℓ} {B : Type κ} → Outcome A → (A → Outcome B) → Outcome B
ended a >>= f = f a
aborted >>= f = aborted
out_of_bounds >>= f = out_of_bounds
no_number >>= f = no_number
reads_forever >>= f = reads_forever
out_of_fuel >>= f = out_of_fuel

-- `s` after `clear(s, 300)`.
unfoldable pub cleared : List ℕ
cleared = replicate 300 0

-- The next byte at the beginning of a piece that is not over.
unfoldable pub begin_with : ℕ → List (List ℕ) → List (List ℕ)
begin_with c [] = (c ∷ []) ∷ []
begin_with c (piece ∷ pieces) = (c ∷ piece) ∷ pieces

-- What the calls `fgets(s, 300, …)` deliver of the bytes of the pipe, one after the other: each the
-- bytes up to a line feed, which is included, but no more than fit, and 299 fit. The first argument
-- is the room for the piece that the next byte belongs to.
unfoldable pub deliveries : ℕ → List ℕ → List (List ℕ)
unfolding begin_with
deliveries room [] = []
deliveries room (c ∷ cs) =
    let over = (c == 10) || (room == 1) in
    let rest = deliveries (if over then 299 else room - 1) cs in
    if over then (c ∷ []) ∷ rest else begin_with c rest

-- fgets writes what it read, a piece of `deliveries`, and a NUL over the beginning of `s`.
unfoldable pub fgets : List ℕ → List ℕ → List ℕ
fgets got s = got ++ 0 ∷ drop (suc (length got)) s

-- `for (; s[index] != '('; index++);`
unfoldable pub paren_index : List ℕ → ℕ → Option ℕ
paren_index [] i = none
paren_index (c ∷ cs) i = if c == b'(' then some i else paren_index cs (i + 1)

-- `for (; index != 0; index--) if (s[index] == '<') break;`
unfoldable pub angle_index : ℕ → List ℕ → ℕ
angle_index zero s = 0
angle_index (suc i) s = if get_or s (suc i) 0 == b'<' then suc i else angle_index i s

-- `while (index == 0)`: what is left of the pipe, `s` and `index` behind the loop.
unfoldable pub await : List (List ℕ) → List ℕ → Outcome (List (List ℕ) × List ℕ × ℕ)
await [] s = if angle_index 299 s == 0 then reads_forever else ended ([], s, angle_index 299 s)
await (got ∷ pipe) s =
    let rest = await pipe (fgets got cleared) in
    if angle_index 299 s == 0 then rest else ended (got ∷ pipe, s, angle_index 299 s)

-- "exit_group"
abbrev pub exit_group : List ℕ
exit_group = b'e' ∷ b'x' ∷ b'i' ∷ b't' ∷ b'_' ∷ b'g' ∷ b'r' ∷ b'o' ∷ b'u' ∷ b'p' ∷ []

module _ (d : Doubles) where
  open d use {Num, scan}

  -- The time of the line in `s`, whose `<` is at the index: eight bytes are copied from behind it.
  unfoldable pub read_time : List ℕ → ℕ → Outcome Num
  unfolding text
  read_time s index =
      if ltb 300 (index + 9)
      then out_of_bounds
      else elim (scan (text (take 8 (drop (suc index) s)))) [
        | none ↦ no_number
        | some time ↦ ended time
      ]

module _ (d : Doubles) (clock : ℕ → ℕ) where
  open d use {Num, nought, add}

  -- The variables of the loop. `calls` counts the calls of clock(), `frames` what `show` printed.
  pub record Vars : Type 0 where
    pub s : List ℕ
    pub head : List (FuncTime d)
    pub total_time : Num
    pub begin : ℕ
    pub calls : ℕ
    pub frames : List (List (List ℕ × ℕ))

  -- `current - begin > CLOCKS_PER_SEC/10`, and what is shown then.
  unfoldable pub tick : Vars → Outcome Vars
  unfolding show
  tick v =
      let now : ℕ = clock v.calls in
      if ltb 100000 (now - v.begin)
      then elim (show d v.head v.total_time) [
        | none ↦ aborted
        | some frame ↦
            ended (record v { begin = now; calls = v.calls + 1; frames = v.frames ++ frame ∷ [] })
      ]
      else ended (record v { calls = v.calls + 1 })

  -- Behind the inner loop and the reading of the time: the sample is stored.
  unfoldable pub record_time : List ℕ → Num → Vars → Outcome Vars
  record_time func time v = elim (sort d (append d v.head (record { func = func; time = time }))) [
    | none ↦ aborted
    | some head ↦ tick (record v { s = cleared; head = head; total_time = add v.total_time time })
  ]

  -- A round of the loop, behind a call of fgets that filled `s`: what is left of the pipe, and the
  -- variables.
  unfoldable pub round : List (List ℕ) → Vars → Outcome (List (List ℕ) × Vars)
  round pipe v =
      if not (leb b'a' (get_or v.s 0 0) && leb (get_or v.s 0 0) b'z')
      then ended (pipe, v)
      else elim (paren_index v.s 0) [
        | none ↦ out_of_bounds
        | some index ↦
            let func = text (take index v.s) in
            if same func exit_group then ended (pipe, v) else do
              (pipe', s', at) ← await pipe v.s
              time ← read_time d s' at
              v' ← record_time func time v
              ended (pipe', v')
      ]

  -- The rounds, fuel of them at most, until fgets meets the end of the file.
  unfoldable pub rounds : ℕ → List (List ℕ) → Vars → Outcome Vars
  rounds fuel [] v = ended v
  rounds zero (got ∷ pipe) v = out_of_fuel
  rounds (suc fuel) (got ∷ pipe) v = do
    (pipe', v') ← round pipe (record v { s = fgets got v.s })
    rounds fuel pipe' v'

  -- The parent's branch of `main`: the frames that it shows, the last one behind the loop.
  unfoldable pub parent : List (List ℕ) → Outcome (List (List (List ℕ × ℕ)))
  parent pipe = do
    v ← rounds (length pipe) pipe (record {
      s = cleared;
      head = [];
      total_time = nought;
      begin = clock 0;
      calls = 1;
      frames = [];
    })
    elim (sort d v.head) [
      | none ↦ aborted
      | some head ↦ elim (show d head v.total_time) [
        | none ↦ aborted
        | some frame ↦ ended (v.frames ++ frame ∷ [])
      ]
    ]

  -- The same over the bytes that stand in the pipe.
  unfoldable pub parent_reads : List ℕ → Outcome (List (List (List ℕ × ℕ)))
  unfolding deliveries parent
  parent_reads bytes = parent (deliveries 299 bytes)
