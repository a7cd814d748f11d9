-- ===== src/Sperf/Examples.antt =====
-- sperf.c with microseconds in place of doubles: runs, and its theorems at them.
use the_code_back_up_in_ubun.Sperf.Blocks.{Heap, free_list, free_list_lem}
use the_code_back_up_in_ubun.Sperf.Nodes.{Nodes, Holds, store_samples, store_list}
use the_code_back_up_in_ubun.Sperf.Nodes.Stored.{store_samples-store_list}
use the_code_back_up_in_ubun.LibCo.Segments.{Away, Unique}
use the_code_back_up_in_ubun.Base.{
  All, replicate, length, ◌≤◌, inl, inr, ℕ, ◌+◌, ◌-◌, ◌*◌, ◌/◌, ◌≡◌, refl, Bool, true, false, ◌&&◌,
  Option, none, some, List, [], ◌∷◌, ◌++◌, ◌==◌, if◌then◌else◌, ltb, leb, get_or, take, arith, map,
  not,
}
use the_code_back_up_in_ubun.CString.{text, same}
use the_code_back_up_in_ubun.Doubles.{Doubles}
use the_code_back_up_in_ubun.Sperf.{FuncTime, append, sort, show}
use the_code_back_up_in_ubun.Sperf.Trace.{
  cleared, fgets, round, rounds, parent, parent_reads, Outcome, ended, exit_group, await,
  paren_index, angle_index, record_time, read_time, tick,
}
use the_code_back_up_in_ubun.Sperf.Entries.{
  Sample, IsSample, Entry, IsEntry, whole, pieces, skipped, exiting, trace, all_samples,
}
use the_code_back_up_in_ubun.Sperf.Profile.{total_of}
use the_code_back_up_in_ubun.Sperf.Parent.{Profile, parent-Profile}
use the_code_back_up_in_ubun.Sperf.Pieces.{IsPiece, bytes_of}
use the_code_back_up_in_ubun.Sperf.Scan.{Without}
use the_code_back_up_in_ubun.Sperf.Descriptors.{Table, given, child_pipe, start_both}
use the_code_back_up_in_ubun.Sperf.Descriptors.Joined.{
  Fresh, ChildJoined, ParentJoined, start_both-joined,
}

-- The digits of a text, the point left out.
abbrev digits_from : ℕ → List ℕ → Option ℕ
digits_from n [] = some n
digits_from n (c ∷ cs) = digits_from (if c == b'.' then n else n * 10 + (c - b'0')) cs

gt_asymm : (a b : ℕ) → ltb b a ≡ true → ltb a b ≡ false
gt_asymm a b h = ground arith

le_trans : (a b c : ℕ) → ltb b a ≡ false → ltb c b ≡ false → ltb c a ≡ false
le_trans a b c h k = ground arith

abbrev micros : Doubles
micros = record {
  Num = ℕ;
  nought = 0;
  add = λ a b. a + b;
  gt = λ a b. ltb b a;
  percent = λ t total. t * 100 / total;
  scan = digits_from 0;
  gt_asymm = gt_asymm;
  le_trans = le_trans;
}

abbrev node : List ℕ → ℕ → FuncTime micros
node f t = record { func = f; time = t }

abbrev reads : List ℕ
reads = b'r' ∷ b'e' ∷ b'a' ∷ b'd' ∷ []

abbrev opens : List ℕ
opens = b'o' ∷ b'p' ∷ b'e' ∷ b'n' ∷ []

-- `f(3) = 0 <0.0000` and one more digit, `>` and a line feed.
abbrev sample : List ℕ → ℕ → Sample micros
sample f n = record {
  func = f;
  middle = b'3' ∷ b')' ∷ 0x20 ∷ b'=' ∷ 0x20 ∷ b'0' ∷ 0x20 ∷ [];
  digits = b'0' ∷ b'.' ∷ b'0' ∷ b'0' ∷ b'0' ∷ b'0' ∷ b'0' ∷ (b'0' + n) ∷ [];
  post = b'>' ∷ 10 ∷ [];
  time = n;
}

-- A line of a signal, of the end, and of exit_group behind its name.
abbrev signal : List ℕ
signal = b'-' ∷ b'-' ∷ b'-' ∷ 0x20 ∷ b'S' ∷ 10 ∷ []

abbrev the_end : List ℕ
the_end = b'+' ∷ b'+' ∷ b'+' ∷ 0x20 ∷ b'e' ∷ 10 ∷ []

-- The second reading comes in three pieces.
abbrev entries : List (Entry micros)
entries =
    whole (sample reads 2)
    ∷ whole (sample opens 3)
    ∷ skipped signal
    ∷ pieces (replicate 294 b'x') (replicate 299 b'x' ∷ []) (sample reads 4)
    ∷ exiting (b'0' ∷ b')' ∷ 10 ∷ [])
    ∷ skipped the_end
    ∷ []

-- A clock on which every reading is late enough for a frame.
abbrev slow : ℕ → ℕ
slow n = n * 200000

abbrev output : List (List (List ℕ × ℕ))
output =
    ((reads, 100) ∷ [])
    ∷ ((opens, 60) ∷ (reads, 40) ∷ [])
    ∷ ((reads, 66) ∷ (opens, 33) ∷ [])
    ∷ ((reads, 66) ∷ (opens, 33) ∷ [])
    ∷ []

parent-trace : parent micros slow (trace micros entries) ≡ ended output
unfolding parent rounds round fgets cleared await angle_index paren_index read_time record_time tick
    append sort show text same
parent-trace = refl

-- A line that is cut off at the end of the file: the inner loop reads for ever.
cut_off : parent micros slow ((opens ++ b'(' ∷ []) ∷ []) ≡ Outcome.reads_forever
unfolding parent rounds round fgets cleared await angle_index paren_index read_time record_time tick
    append sort show text same
cut_off = refl

abbrev lacks : ℕ → List ℕ → Bool
lacks c [] = true
lacks c (x ∷ xs) = not (x == c) && lacks c xs

lacks-Without : (c : ℕ) (xs : List ℕ) → lacks c xs ≡ true → Without c xs
lacks-Without c [] h = tt
lacks-Without c (x ∷ xs) h = (ground arith, lacks-Without c xs (ground arith))

abbrev digits_of : ℕ → List ℕ
digits_of n = (sample [] n).digits

sample-IsSample :
    (f : List ℕ) (n : ℕ)
    → (leb b'a' (get_or f 0 0) && leb (get_or f 0 0) b'z') ≡ true
    → lacks b'(' f ≡ true
    → lacks 0 f ≡ true
    → same f exit_group ≡ false
    → lacks b'<' (digits_of n) ≡ true
    → lacks 0 (digits_of n) ≡ true
    → digits_from 0 (digits_of n) ≡ some n
    → IsSample micros (sample f n)
sample-IsSample f n low par nul other angle dnul num = record {
  lower = low;
  no_paren = lacks-Without b'(' f par;
  no_nul = lacks-Without 0 f nul;
  not_exit = other;
  eight = refl;
  digits_angle = lacks-Without b'<' (digits_of n) angle;
  digits_nul = lacks-Without 0 (digits_of n) dnul;
  number = num;
  post_angle = lacks-Without b'<' (b'>' ∷ 10 ∷ []) refl;
}

read_IsSample : IsSample micros (sample reads 2)
unfolding same
read_IsSample = sample-IsSample reads 2 refl refl refl refl refl refl refl

open_IsSample : IsSample micros (sample opens 3)
unfolding same
open_IsSample = sample-IsSample opens 3 refl refl refl refl refl refl refl

more_IsSample : IsSample micros (sample reads 4)
unfolding same
more_IsSample = sample-IsSample reads 4 refl refl refl refl refl refl refl

entries-IsEntry : All (IsEntry micros) entries
entries-IsEntry = (
  (read_IsSample, omega arith),
  (
    (open_IsSample, omega arith),
    (
      (refl, lacks-Without b'<' signal refl, omega arith),
      (
        (
          more_IsSample,
          omega arith,
          (omega arith, tt),
          lacks-Without b'<' (reads ++ b'(' ∷ replicate 294 b'x') refl,
          (lacks-Without b'<' (replicate 299 b'x') refl, tt),
          omega arith,
          omega arith,
        ),
        (
          (lacks-Without b'<' (b'0' ∷ b')' ∷ 10 ∷ []) refl, omega arith),
          ((refl, lacks-Without b'<' the_end refl, omega arith), tt),
        ),
      ),
    ),
  ),
)

-- The last byte of a piece, and those in front of it.
abbrev last_of : List ℕ → ℕ
last_of got = get_or got (length got - 1) 0

abbrev body_of : List ℕ → List ℕ
body_of got = take (length got - 1) got

line-IsPiece :
    (got : List ℕ)
    → got ≡ body_of got ++ last_of got ∷ []
    → lacks 10 (body_of got) ≡ true
    → last_of got ≡ 10
    → length (body_of got) ≤ 298
    → IsPiece got
line-IsPiece got e one end le = record {
  body = body_of got;
  last = last_of got;
  is = e;
  one_line = lacks-Without 10 (body_of got) one;
  stops = inl (end, le);
}

full-IsPiece :
    (got : List ℕ)
    → got ≡ body_of got ++ last_of got ∷ []
    → lacks 10 (body_of got) ≡ true
    → length (body_of got) ≡ 298
    → IsPiece got
full-IsPiece got e one full = record {
  body = body_of got;
  last = last_of got;
  is = e;
  one_line = lacks-Without 10 (body_of got) one;
  stops = inr full;
}

entries-IsPiece : All IsPiece (trace micros entries)
entries-IsPiece = (
  line-IsPiece _ refl refl refl (omega arith),
  (
    line-IsPiece _ refl refl refl (omega arith),
    (
      line-IsPiece _ refl refl refl (omega arith),
      (
        full-IsPiece _ refl refl refl,
        (
          full-IsPiece _ refl refl refl,
          (
            line-IsPiece _ refl refl refl (omega arith),
            (
              line-IsPiece _ refl refl refl (omega arith),
              (line-IsPiece _ refl refl refl (omega arith), tt),
            ),
          ),
        ),
      ),
    ),
  ),
)

parent-Profile_example :
    (head : List (FuncTime micros)) × Profile micros slow (all_samples micros entries) head
    × ((frames : List (List (List ℕ × ℕ))) × (parent_reads micros slow
            (bytes_of (trace micros entries))
          ≡ ended (
              frames
              ++ map
                  (λ p. (p.func, p.time * 100 / total_of micros 0 (all_samples micros entries)))
                  (take 8 head)
                ∷ [])))
parent-Profile_example =
    parent-Profile micros slow entries entries-IsEntry entries-IsPiece (omega arith)

-- Two nodes at 10 and 20, with their names at 11 and 21.
abbrev two_nodes : Heap
two_nodes = record { next = λ p. if p == 10 then 20 else 0; func = λ p. p + 1; freed = λ p. false }

free_list_lem_example :
    (freed : ℕ → Bool) × (free_list 2 10 two_nodes ≡ some (record two_nodes { freed = freed }))
    × All (λ b. freed b ≡ true) (11 ∷ 10 ∷ 21 ∷ 20 ∷ [])
    × ((b : ℕ) → Away b (11 ∷ 10 ∷ 21 ∷ 20 ∷ []) → freed b ≡ false)
free_list_lem_example =
    free_list_lem 2 10 two_nodes (10 ∷ 20 ∷ []) (refl, omega arith, (refl, omega arith, refl))
      (ground arith) (ground arith) (omega arith)

-- Three samples in the blocks 10, 20 and 30 of a memory with other values in it.
abbrev three : List (ℕ × FuncTime micros)
three = (10, node reads 2) ∷ (20, node opens 3) ∷ (30, node reads 4) ∷ []

abbrev memory : Nodes micros
memory = record { next = λ p. 99; func = λ p. []; time = λ p. 7 }

-- The block 30 is in no list behind `append`, which has added its time to that of another.
three_listed : store_list micros (map (λ r. r.1) three) [] ≡ some (node reads 6 ∷ node opens 3 ∷ [])
unfolding store_list append sort same
three_listed = refl

store_samples-store_list_example :
    (head : ℕ) × (s : Nodes micros) × (qs : List ℕ) × (ys : List (FuncTime micros)) × (store_samples
        micros 3 three 0 memory
      ≡ some (head, s))
    × (store_list micros (map (λ r. r.1) three) [] ≡ some ys)
    × Holds micros s head qs ys
    × Unique qs
store_samples-store_list_example =
    store_samples-store_list micros 3 three 0 memory [] [] refl tt
      (
        omega arith,
        tt,
        (omega arith, (omega arith, tt)),
        (omega arith, tt, (omega arith, tt), (omega arith, tt, tt, tt)),
      )
      (omega arith)

-- The terminal at 0 and 2, and no stdout: the pipe has the descriptors 1 and 3.
abbrev no_stdout : Table
no_stdout x = if x == 0 then some (given 0) else if x == 2 then some (given 0) else none

no_stdout-Fresh : Fresh (1, 3) (some 1) no_stdout
unfolding child_pipe
no_stdout-Fresh = record {
  no_pipe = λ x. ground arith;
  read_free = refl;
  write_free = refl;
  apart = omega arith;
  null_free = λ n e. ground arith;
}

start_both-joined_example :
    ((child : Table) × (parent : Table) × (start_both (some (1, 3)) true (some 1) no_stdout
        ≡ some (child, parent))
      × ChildJoined (1, 3) (some 1) no_stdout child
      × ParentJoined (1, 3) no_stdout parent)
    × ((forks : Bool) → start_both none forks (some 1) no_stdout ≡ none)
    × (start_both (some (1, 3)) false (some 1) no_stdout ≡ none)
start_both-joined_example = start_both-joined (1, 3) (some 1) no_stdout no_stdout-Fresh
