-- ===== src/Monitor/Pace.antt =====
-- The pace of any program in the frame of Monitor.antt: how many steps its threads can make for the
-- characters that they print.
use the_code_back_up_in_ubun.Base.{
  ℕ, suc, ◌+◌, ◌*◌, ◌≤◌, ◌≡◌, ◌≢◌, [], ◌∷◌, ◌++◌, if◌then◌else◌, length, length-append, update,
  sum_to, sum_to-le, sum_to-const, sum_to-update, arith,
}
use the_code_back_up_in_ubun.Monitor.{
  Monitor, Pc, start, testing, waiting, woken, printing, printed, leaving, System, broadcast, Step,
  lock_before, sleep, pass, wake, relock, print, lock_after, finish, Reach, here, next,
}
use the_code_back_up_in_ubun.Monitor.Progress.{spurious}

-- What a thread can still do before it prints or sleeps, with n threads that it may wake.
weight : ℕ → Pc → ℕ
weight n start = 2
weight n testing = 1
weight n waiting = 0
weight n woken = 2
weight n printing = 0
weight n printed = n + n + 4
weight n leaving = n + n + 3

-- The weights of the threads 1 to k.
abbrev total : ℕ → (ℕ → Pc) → ℕ → ℕ
total n pc = sum_to (λ i. weight n (pc i))

-- The threads that stand somewhere are threads of the program.
abbrev pub InRange : ℕ → (ℕ → Pc) → Type 0
InRange n pc = (i : ℕ) → pc i ≢ start → (1 ≤ i) × (i ≤ n)

moved :
    (n : ℕ) (pc : ℕ → Pc) (i : ℕ) (q : Pc)
    → InRange n pc
    → pc i ≢ start
    → total n (update pc i q) n + weight n (pc i) ≡ total n pc n + weight n q
moved n pc i q r ne = sum_to-update (weight n) pc i q n (r i ne).0 (r i ne).1

module _ (m : Monitor) (ch : ℕ → ℕ) where
  open m use {State, waits_on, wakes}

  weight-broadcast :
      (n c : ℕ) (pc : ℕ → Pc) (i : ℕ) → weight n (broadcast m ch c pc i) ≤ weight n (pc i) + 2
  unfolding weight
  weight-broadcast n c pc i = ground arith

  total-broadcast :
      (n c : ℕ) (pc : ℕ → Pc) (k : ℕ) → total n (broadcast m ch c pc) k ≤ total n pc k + 2 * k
  total-broadcast n c pc k = sum_to-le _ _ 2 k (weight-broadcast n c pc)

  -- How many of the steps that led to a state are wake-ups that no broadcast caused.
  abbrev pub chance : {n : ℕ} {s t : System State} → Step m ch n s t → ℕ
  chance st = if spurious st then 1 else 0

  Step-InRange : {n : ℕ} {s t : System State} → Step m ch n s t → InRange n s.pc → InRange n t.pc
  Step-InRange (lock_before i lo hi at free) r = λ j ne. ground (arith, r j)
  Step-InRange (sleep i st at sh b) r = λ j ne. ground (arith, r j, r i)
  Step-InRange (pass i st at sh b) r = λ j ne. ground (arith, r j, r i)
  Step-InRange (wake i at) r = λ j ne. ground (arith, r j, r i)
  Step-InRange (relock i at free) r = λ j ne. ground (arith, r j, r i)
  Step-InRange (print i at) r = λ j ne. ground (arith, r j, r i)
  Step-InRange (lock_after i at free) r = λ j ne. ground (arith, r j, r i)
  Step-InRange (finish i st at sh) r = λ j ne. ground (arith, r j)

  Reach-InRange : {n : ℕ} {s : System State} → Reach m ch n s → InRange n s.pc
  Reach-InRange here = λ i ne. absurd (ground arith)
  Reach-InRange (next r st) = Step-InRange st (Reach-InRange r)

  -- A step takes some of the weight; a print and a chance wake-up give some back.
  Step-total :
      {n : ℕ} {s t : System State} (st : Step m ch n s t)
      → InRange n s.pc
      → suc (total n t.pc n) + (n + n + 5) * length s.out
        ≤ total n s.pc n + (n + n + 5) * length t.out + 3 * chance st
  unfolding weight
  Step-total {n} {s} (lock_before i lo hi at free) r =
      ground (arith, sum_to-update (weight n) s.pc i testing n lo hi)
  Step-total {n} {s} (sleep i st at sh b) r =
      ground (arith, moved n s.pc i waiting r (ground arith))
  Step-total {n} {s} (pass i st at sh b) r =
      ground (arith, moved n s.pc i printing r (ground arith))
  Step-total {n} {s} (wake i at) r = ground (arith, moved n s.pc i woken r (ground arith))
  Step-total {n} {s} (relock i at free) r = ground (arith, moved n s.pc i testing r (ground arith))
  Step-total {n} {s} (print i at) r =
      let more : length (s.out ++ ch i ∷ []) ≡ length s.out + 1 = length-append s.out (ch i ∷ []) in
      let step : total n (update s.pc i printed) n ≡ total n s.pc n + (n + n + 4) =
        ground (arith, moved n s.pc i printed r (ground arith)) in
      rw more (omega arith)
  Step-total {n} {s} (lock_after i at free) r =
      ground (arith, moved n s.pc i leaving r (ground arith))
  Step-total {n} {s} (finish i st at sh) r = ground (
    arith,
    moved n s.pc i start r (ground arith),
    total-broadcast n (ch i) (update s.pc i start) n,
  )

  -- The steps that led to a state, and the chance wake-ups among them.
  abbrev pub steps : {n : ℕ} {s : System State} → Reach m ch n s → ℕ
  steps here = 0
  steps (next r st) = suc (steps r)

  abbrev pub chances : {n : ℕ} {s : System State} → Reach m ch n s → ℕ
  chances here = 0
  chances (next r st) = chances r + chance st

  pace_lem :
      {n : ℕ} {s : System State} (r : Reach m ch n s)
      → steps r + total n s.pc n
        ≤ total n (λ i. start) n + (n + n + 5) * length s.out + 3 * chances r
  pace_lem here = omega arith
  pace_lem (next r st) = omega (arith, pace_lem r, Step-total st (Reach-InRange r))

  total-start : (n : ℕ) → total n (λ i. start) n ≡ 2 * n
  unfolding weight
  total-start n = sum_to-const 2 n

  -- Of the steps that led to a state all but two for each thread, and three for each chance wake-up,
  -- are paid for by the characters: at most 2n + 5 steps for each.
  pub pace :
      {n : ℕ} {s : System State} (r : Reach m ch n s)
      → steps r ≤ n + n + (n + n + 5) * length s.out + 3 * chances r
  pace {n} r = omega (arith, pace_lem r, total-start n)
