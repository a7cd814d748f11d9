-- ===== src/Sperf/Child.antt =====
-- The child's branch of `main` in mycode/sperf.c: the arguments of strace, and the search for it in
-- PATH. `junk` stands for what an array holds before it is written.
mod Examples
pub mod Arguments
pub mod Search
use the_code_back_up_in_ubun.Base.{
  ℕ, zero, suc, ◌+◌, Bool, true, false, Option, none, some, List, [], ◌∷◌, ◌++◌, ◌==◌,
  if◌then◌else◌, length, take, map,
}
use the_code_back_up_in_ubun.CString.{text, strlen, strcpy, strcat}

-- A pointer of `argv`, `none` is NULL.
abbrev pub Arg : Type 0
Arg = Option (List ℕ)

-- `array[i] = v`; `none` if it is out of bounds.
unfoldable pub put : List Arg → ℕ → Arg → Option (List Arg)
put [] i v = none
put (x ∷ xs) zero v = some (v ∷ xs)
put (x ∷ xs) (suc i) v = elim (put xs i v) [ none ↦ none | some ys ↦ some (x ∷ ys) ]

-- `for (size_t i = 0; i < argc; i++) exec_argv[i+1] = argv[i];` from i on.
unfoldable pub copy_args : List (List ℕ) → ℕ → List Arg → Option (List Arg)
unfolding put
copy_args [] i array = some array
copy_args (a ∷ as') i array = elim (put array (i + 1) (some a)) [
  | none ↦ none
  | some array' ↦ copy_args as' (i + 1) array'
]

-- "strace" and "-T".
abbrev pub strace : List ℕ
strace = b's' ∷ b't' ∷ b'r' ∷ b'a' ∷ b'c' ∷ b'e' ∷ []

abbrev pub option_t : List ℕ
option_t = b'-' ∷ b'T' ∷ []

-- `exec_argv`, an array of argc+2 pointers.
unfoldable pub exec_argv : List Arg → List (List ℕ) → Option (List Arg)
unfolding copy_args put
exec_argv junk argv = elim (copy_args argv 0 junk) [
  | none ↦ none
  | some array ↦ elim (put array 0 (some strace)) [
    | none ↦ none
    | some array1 ↦ elim (put array1 1 (some option_t)) [
      | none ↦ none
      | some array2 ↦ put array2 (length argv + 1) none
    ]
  ]
]

-- `strtok(…, ":")`: the separators in front are skipped; the token, and what is left behind the
-- separator that ends it, or `none` for NULL.
unfoldable pub span_token : List ℕ → List ℕ × List ℕ
span_token [] = ([], [])
span_token (c ∷ cs) =
    let rest = span_token cs in if c == b':' then ([], cs) else (c ∷ rest.0, rest.1)

unfoldable pub next_token : List ℕ → Option (List ℕ × List ℕ)
unfolding span_token
next_token [] = none
next_token (c ∷ cs) =
    let rest = next_token cs in if c == b':' then rest else some (span_token (c ∷ cs))

-- "/strace".
abbrev pub slash_strace : List ℕ
slash_strace = b'/' ∷ strace

-- `filename`, an array of strlen(path)+8 bytes; `none` is a write behind it.
unfoldable pub filename : List ℕ → List ℕ → Option (List ℕ)
unfolding strcpy strcat
filename junk path = elim (strcpy junk path) [ none ↦ none | some s ↦ strcat s slash_strace ]

-- How the child ends: execve starts a program, the loop ends and so does `main`, a write is out of
-- bounds, or there is no PATH, which strlen reads through.
pub data Ending : Type 0 where
  executes : (file : List ℕ) (argv : List Arg) → Ending
  returns : Ending
  overflows : Ending
  no_path : Ending
  out_of_fuel : Ending

-- `runs` are the files that execve can start; `junk n` is an array of n bytes.
module _ (runs : List ℕ → Bool) (junk : ℕ → List ℕ) where
  unfoldable pub try_paths : ℕ → List ℕ → List Arg → Ending
  unfolding next_token filename
  try_paths zero all_path argv = out_of_fuel
  try_paths (suc fuel) all_path argv = elim (next_token all_path) [
    | none ↦ returns
    | some p ↦ elim (filename (junk (strlen p.0 + 8)) p.0) [
      | none ↦ overflows
      | some file ↦
          let rest = try_paths fuel p.1 argv in
          if runs (text file) then executes (text file) argv else rest
    ]
  ]

  -- The branch, with the arguments of the program and its PATH.
  unfoldable pub child : List Arg → List (List ℕ) → Option (List ℕ) → Ending
  unfolding exec_argv try_paths
  child junk_argv argv path = elim (exec_argv junk_argv argv) [
    | none ↦ overflows
    | some args ↦ elim path [
      | none ↦ no_path
      | some all_path ↦ try_paths (suc (length all_path)) all_path args
    ]
  ]
