-- ===== src/Sperf/Lines.antt =====
-- A round of the loop of sperf.c on an entry of the trace.
use the_code_back_up_in_ubun.Base.{
  ℕ, suc, ◌+◌, ◌-◌, ◌<◌, ◌≤◌, ◌≡◌, refl, true, false, ◌&&◌, some, List, [], ◌∷◌, ◌++◌, ltb, leb,
  length, get_or, take, drop, All, arith, sym, ap, ◌∙◌, length-append, take-append, append_assoc,
}
use the_code_back_up_in_ubun.CString.{text, same}
use the_code_back_up_in_ubun.Doubles.{Doubles}
use the_code_back_up_in_ubun.Sperf.Trace.{
  cleared, fgets, paren_index, angle_index, await, read_time, record_time, round, Vars, ended,
  reads_forever, ◌>>=◌, exit_group,
}
use the_code_back_up_in_ubun.Sperf.Scan.{
  Without, angle_index_none, Without-append, angle_index_lem, paren_index_lem, text_whole, rest_of,
  rest_of-Without, cleared-Without, fgets-rest_of, fgets-Without,
}
use the_code_back_up_in_ubun.Sperf.Entries.{Skipped, Sample, angled, front, IsSample}

module _ (d : Doubles) where
  open d use {Num}

  get_or-front : (xs ys : List ℕ) → 0 < length xs → get_or (xs ++ ys) 0 0 ≡ get_or xs 0 0
  get_or-front [] ys h = absurd (omega arith)
  get_or-front (x ∷ xs) ys h = refl

  lower_pos :
      (xs : List ℕ) → (leb b'a' (get_or xs 0 0) && leb (get_or xs 0 0) b'z') ≡ true → 0 < length xs
  lower_pos [] h = cc
  lower_pos (x ∷ xs) h = omega arith

  await_lem :
      (pipe : List (List ℕ)) (s : List ℕ) (a : ℕ)
      → angle_index 299 s ≡ a
      → 0 < a
      → await pipe s ≡ ended (pipe, s, a)
  unfolding await
  await_lem [] s a e p = ground arith
  await_lem (got ∷ pipe) s a e p = ground arith

  -- Pieces with no `<` are left out.
  await_pieces :
      (between : List (List ℕ)) (got : List ℕ) (pipe : List (List ℕ)) (s : List ℕ) (a : ℕ)
      → Without b'<' s
      → All (Without b'<') between
      → angle_index 299 (fgets got cleared) ≡ a
      → 0 < a
      → await (between ++ got ∷ pipe) s ≡ ended (pipe, fgets got cleared, a)
  unfolding await
  await_pieces [] got pipe s a w h e p =
      rw (angle_index_none 299 s w) (await_lem pipe (fgets got cleared) a e p)
  await_pieces (b ∷ bs) got pipe s a w (wb, h) e p = rw (angle_index_none 299 s w) (
      await_pieces bs got pipe (fgets b cleared) a
        (fgets-Without b'<' b cleared refl wb (cleared-Without b'<' refl)) h e p)

  take_at : (n : ℕ) (xs ys : List ℕ) → length xs ≡ n → take n (xs ++ ys) ≡ xs
  take_at n xs ys e = rw (← e) (take-append xs ys)

  drop_behind : (xs ys : List ℕ) (c : ℕ) → drop (suc (length xs)) (xs ++ c ∷ ys) ≡ ys
  drop_behind [] ys c = refl
  drop_behind (x ∷ xs) ys c = drop_behind xs ys c

  -- The way through `round` that stores a sample.
  round_lem :
      (clock : ℕ → ℕ) (pipe pipe' : List (List ℕ)) (v : Vars d clock) (i a : ℕ) (f s' : List ℕ)
      (t : Num)
      → (leb b'a' (get_or v.s 0 0) && leb (get_or v.s 0 0) b'z') ≡ true
      → paren_index v.s 0 ≡ some i
      → text (take i v.s) ≡ f
      → same f exit_group ≡ false
      → await pipe v.s ≡ ended (pipe', s', a)
      → read_time d s' a ≡ ended t
      → round d clock pipe v ≡ (record_time d clock f t v >>= λ v'. ended (pipe', v'))
  unfolding round
  round_lem clock pipe pipe' v i a f s' t low par name other wait time =
      rw (low, par, name, other, wait, time)

  -- The way through `round` that never ends.
  round_hangs :
      (clock : ℕ → ℕ) (v : Vars d clock) (i : ℕ) (f : List ℕ)
      → (leb b'a' (get_or v.s 0 0) && leb (get_or v.s 0 0) b'z') ≡ true
      → paren_index v.s 0 ≡ some i
      → text (take i v.s) ≡ f
      → same f exit_group ≡ false
      → angle_index 299 v.s ≡ 0
      → round d clock [] v ≡ reads_forever
  unfolding round await
  round_hangs clock v i f low par name other none_left = rw (low, par, name, other, none_left)

  -- The name in front of the first `(` of the buffer.
  module _ (f r : List ℕ) (no_nul : Without 0 f) where
    name_lem : text (take (length f) (f ++ b'(' ∷ r)) ≡ f
    name_lem = ap text (take-append f (b'(' ∷ r)) ∙ text_whole f no_nul

    lower_lem :
        (leb b'a' (get_or f 0 0) && leb (get_or f 0 0) b'z') ≡ true
        → (leb b'a' (get_or (f ++ b'(' ∷ r) 0 0) && leb (get_or (f ++ b'(' ∷ r) 0 0) b'z') ≡ true
    lower_lem low = rw (get_or-front f (b'(' ∷ r) (lower_pos f low)) low

    paren_lem : Without b'(' f → paren_index (f ++ b'(' ∷ r) 0 ≡ some (length f)
    paren_lem w = paren_index_lem f r 0 w ∙ ap some (omega arith)

  -- The buffer with the piece that has the `<`, behind m.
  module _ (x : Sample d) (is : IsSample d x) (m s : List ℕ) (some_m : 0 < length m)
      (fits : length (m ++ angled d x) ≤ 299) (blank : Without b'<' s) where
    behind : List ℕ
    behind = x.post ++ rest_of s (m ++ angled d x)

    buffer_lem : fgets (m ++ angled d x) s ≡ m ++ b'<' ∷ (x.digits ++ behind)
    unfolding behind
    buffer_lem =
        fgets-rest_of (m ++ angled d x) s
        ∙ append_assoc m (angled d x) (rest_of s (m ++ angled d x))
        ∙ ap (λ l. m ++ b'<' ∷ l) (append_assoc x.digits x.post (rest_of s (m ++ angled d x)))

    angle_lem : angle_index 299 (fgets (m ++ angled d x) s) ≡ length m
    unfolding behind
    angle_lem =
        ap (angle_index 299) buffer_lem
        ∙ angle_index_lem m (x.digits ++ behind) 299 (299 - length m) some_m
            (omega (arith, length-append {0} m (angled d x), fits))
            (Without-append b'<' x.digits behind is.digits_angle (
              Without-append b'<' x.post (rest_of s (m ++ angled d x)) is.post_angle
                (rest_of-Without b'<' s (m ++ angled d x) refl blank)))

    read_time_lem : read_time d (fgets (m ++ angled d x) s) (length m) ≡ ended x.time
    unfolding read_time
    read_time_lem =
        let room : ltb 300 (length m + 9) ≡ false =
          ground
            (arith, length-append m (angled d x), length-append x.digits x.post, fits, is.eight) in
        rw (
          buffer_lem,
          room,
          drop_behind m (x.digits ++ behind) b'<',
          take_at 8 x.digits behind is.eight,
          text_whole x.digits is.digits_nul,
          is.number,
        )

  module _ (clock : ℕ → ℕ) (x : Sample d) (is : IsSample d x) where
    -- A round whose buffer begins with `func(`.
    round_named :
        (pipe pipe' : List (List ℕ)) (v : Vars d clock) (r s' : List ℕ) (a : ℕ)
        → v.s ≡ x.func ++ b'(' ∷ r
        → await pipe v.s ≡ ended (pipe', s', a)
        → read_time d s' a ≡ ended x.time
        → round d clock pipe v ≡ (record_time d clock x.func x.time v >>= λ v'. ended (pipe', v'))
    round_named pipe pipe' v r s' a e wait time =
        round_lem clock pipe pipe' v (length x.func) a x.func s' x.time
          (rw e (lower_lem x.func r is.no_nul is.lower))
          (rw e (paren_lem x.func r is.no_nul is.no_paren)) (rw e (name_lem x.func r is.no_nul))
          is.not_exit wait time

    front_pos : 0 < length (front d x)
    front_pos = omega (arith, length-append {0} x.func (b'(' ∷ x.middle))

    opening :
        (r s : List ℕ)
        → fgets (x.func ++ b'(' ∷ r) s ≡ x.func ++ b'(' ∷ (r ++ rest_of s (x.func ++ b'(' ∷ r))
    opening r s =
        fgets-rest_of (x.func ++ b'(' ∷ r) s
        ∙ append_assoc x.func (b'(' ∷ r) (rest_of s (x.func ++ b'(' ∷ r))

    -- On a line of a system call the round stores exactly its name and its time, and reads no more
    -- of the pipe.
    pub round-whole :
        (pipe : List (List ℕ)) (v : Vars d clock)
        → length (front d x ++ angled d x) ≤ 299
        → Without b'<' v.s
        → round d clock pipe (record v { s = fgets (front d x ++ angled d x) v.s })
          ≡ (record_time d clock x.func x.time v >>= λ v'. ended (pipe, v'))
    unfolding record_time
    round-whole pipe v fits blank =
        let s1 : List ℕ = fgets (front d x ++ angled d x) v.s in
        round_named pipe pipe (record v { s = s1 }) (x.middle ++ angled d x ++ rest_of v.s _) s1
          (length (front d x))
          (ap (λ l. fgets l v.s) (append_assoc x.func (b'(' ∷ x.middle) (angled d x))
            ∙ opening (x.middle ++ angled d x) v.s)
          (await_lem pipe s1 (length (front d x))
            (angle_lem x is (front d x) v.s front_pos fits blank) front_pos)
          (read_time_lem x is (front d x) v.s front_pos fits blank)

    -- On a line in pieces it reads the others too.
    pub round-pieces :
        (start : List ℕ) (between pipe : List (List ℕ)) (v : Vars d clock)
        → Without b'<' (x.func ++ b'(' ∷ start)
        → All (Without b'<') between
        → 0 < length x.middle
        → length (x.middle ++ angled d x) ≤ 299
        → Without b'<' v.s
        → round d clock
            (between ++ (x.middle ++ angled d x) ∷ pipe)
            (record v { s = fgets (x.func ++ b'(' ∷ start) v.s })
          ≡ (record_time d clock x.func x.time v >>= λ v'. ended (pipe, v'))
    unfolding record_time
    round-pieces start between pipe v w ws some_m fits blank =
        let s1 : List ℕ = fgets (x.func ++ b'(' ∷ start) v.s in
        let blank' : Without b'<' cleared = cleared-Without b'<' refl in
        round_named (between ++ (x.middle ++ angled d x) ∷ pipe) pipe (record v { s = s1 })
          (start ++ rest_of v.s _) (fgets (x.middle ++ angled d x) cleared) (length x.middle)
          (opening start v.s)
          (await_pieces between (x.middle ++ angled d x) pipe s1 (length x.middle)
            (fgets-Without b'<' _ v.s refl w blank) ws
            (angle_lem x is x.middle cleared some_m fits blank') some_m)
          (read_time_lem x is x.middle cleared some_m fits blank')

    -- If the trace ends in such a line before its `<`, the inner loop calls fgets for ever.
    pub round_cut :
        (v : Vars d clock)
        → Without b'<' (front d x)
        → Without b'<' v.s
        → round d clock [] (record v { s = fgets (front d x) v.s }) ≡ reads_forever
    round_cut v w blank =
        let r : List ℕ = x.middle ++ rest_of v.s (front d x) in
        rw (opening x.middle v.s) (
          round_hangs clock (record v { s = x.func ++ b'(' ∷ r }) (length x.func) x.func
            (lower_lem x.func r is.no_nul is.lower) (paren_lem x.func r is.no_nul is.no_paren)
            (name_lem x.func r is.no_nul) is.not_exit
            (ap (angle_index 299) (sym (opening x.middle v.s))
              ∙ angle_index_none 299 _ (fgets-Without b'<' (front d x) v.s refl w blank)))

  get_or-fgets : (got s : List ℕ) → Skipped got → Skipped (fgets got s)
  unfolding fgets
  get_or-fgets [] s h = refl
  get_or-fgets (c ∷ cs) s h = h

  pub round-Skipped :
      (clock : ℕ → ℕ) (pipe : List (List ℕ)) (v : Vars d clock) (got : List ℕ)
      → Skipped got
      → round d clock pipe (record v { s = fgets got v.s })
        ≡ ended (pipe, record v { s = fgets got v.s })
  unfolding round
  round-Skipped clock pipe v got h = rw (get_or-fgets got v.s h)

  pub round-exiting :
      (clock : ℕ → ℕ) (pipe : List (List ℕ)) (v : Vars d clock) (r : List ℕ)
      → round d clock pipe (record v { s = fgets (exit_group ++ b'(' ∷ r) v.s })
        ≡ ended (pipe, record v { s = fgets (exit_group ++ b'(' ∷ r) v.s })
  unfolding round fgets paren_index text same
  round-exiting clock pipe v r = refl
