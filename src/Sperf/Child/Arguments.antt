-- ===== src/Sperf/Child/Arguments.antt =====
-- The arguments that mycode/sperf.c's child gives to strace, and the branch as a whole.
use the_code_back_up_in_ubun.Base.{
  ℕ, zero, suc, ◌+◌, ◌≤◌, ◌≡◌, refl, sym, ◌∙◌, ap, Bool, none, some, List, [], ◌∷◌, ◌++◌, length,
  drop, map, arith, append_assoc, length-append,
}
use the_code_back_up_in_ubun.CString.Copies.{Text}
use the_code_back_up_in_ubun.Sperf.Child.{Arg, put, copy_args, strace, option_t, exec_argv, child}
use the_code_back_up_in_ubun.Sperf.Child.Search.{files, first_run, try_paths-first_run}

-- strace with the option -T and the arguments behind the program's own name, and NULL.
abbrev pub args_of : List (List ℕ) → List Arg
args_of [] = some strace ∷ none ∷ []
args_of (a ∷ as') = some strace ∷ some option_t ∷ (map some as' ++ none ∷ [])

put-append :
    (pre : List Arg) (y v : Arg) (rest : List Arg)
    → put (pre ++ y ∷ rest) (length pre) v ≡ some (pre ++ v ∷ rest)
unfolding put
put-append [] y v rest = refl
put-append (x ∷ pre) y v rest = rw (put-append pre y v rest) refl

put_at :
    (i : ℕ) (pre : List Arg) (y v : Arg) (rest : List Arg)
    → i ≡ length pre
    → put (pre ++ y ∷ rest) i v ≡ some (pre ++ v ∷ rest)
put_at i pre y v rest e = rw e (put-append pre y v rest)

copy_args-append :
    (argv : List (List ℕ)) (i : ℕ) (pre rest : List Arg)
    → length pre ≡ i + 1
    → length argv ≤ length rest
    → copy_args argv i (pre ++ rest) ≡ some (pre ++ (map some argv ++ drop (length argv) rest))
unfolding copy_args
copy_args-append [] i pre rest e le = refl
copy_args-append (a ∷ as') i pre [] e le = absurd (omega arith)
copy_args-append (a ∷ as') i pre (y ∷ rest) e le =
    rw (put_at (i + 1) pre y (some a) rest (sym e), copy_args)
      (ap (copy_args as' (i + 1)) (sym (append_assoc pre (some a ∷ []) rest))
        ∙ copy_args-append as' (i + 1) (pre ++ some a ∷ []) rest
            (length-append pre (some a ∷ []) ∙ omega arith) (omega arith)
        ∙ ap some (append_assoc pre (some a ∷ []) (map some as' ++ drop (length as') rest)))

length-map : (as' : List (List ℕ)) → length (map (λ a. some a) as') ≡ length as'
length-map [] = refl
length-map (a ∷ as') = ap suc (length-map as')

drop_one : (n : ℕ) (xs : List Arg) → length xs ≡ n + 1 → (z : Arg) × (drop n xs ≡ z ∷ [])
drop_one n [] e = absurd (omega arith)
drop_one zero (x ∷ []) e = (x, refl)
drop_one zero (x ∷ y ∷ xs) e = absurd (omega arith)
drop_one (suc n) (x ∷ xs) e = drop_one n xs (omega arith)

-- In an array of argc+2 pointers `exec_argv` is strace, -T, the arguments behind the first, and
-- NULL, with no write out of bounds.
exec_argv_lem :
    (junk : List Arg) (argv : List (List ℕ))
    → length junk ≡ length argv + 2
    → exec_argv junk argv ≡ some (args_of argv)
unfolding exec_argv put
exec_argv_lem [] argv e = absurd (omega arith)
exec_argv_lem (j ∷ []) argv e = absurd (omega arith)
exec_argv_lem (j ∷ j' ∷ []) [] e = refl
exec_argv_lem (j ∷ j' ∷ j2 ∷ junk) [] e = absurd (omega arith)
exec_argv_lem (j ∷ j' ∷ junk) (a ∷ as') e =
    let (z, one) = drop_one (length as') junk (omega arith) in
    let copied =
      copy_args-append as' 1 (j ∷ some a ∷ []) junk refl (omega arith)
      ∙ ap (λ d. some (j ∷ some a ∷ (map (λ x. some x) as' ++ d))) one in
    rw (copied, copy_args)
      (put_at (length (a ∷ as') + 1) (some strace ∷ some option_t ∷ map (λ x. some x) as') z none []
        (omega (arith, length-map as')))

-- With the arguments and PATH of the program: the child calls execve with strace in the directories
-- of PATH, in order and without the empty ones, and with the arguments strace, -T, those of the
-- program behind its name, and NULL, until a call starts a program; it returns if none does. No
-- array is written out of bounds.
pub child-first_run :
    (runs : List ℕ → Bool) (junk : ℕ → List ℕ) (junk_argv : List Arg) (argv : List (List ℕ))
    (path : List ℕ)
    → ((n : ℕ) → length (junk n) ≡ n)
    → length junk_argv ≡ length argv + 2
    → Text path
    → child runs junk junk_argv argv (some path) ≡ first_run runs (files path) (args_of argv)
unfolding child
child-first_run runs junk junk_argv argv path sized e h =
    rw (exec_argv_lem junk_argv argv e, child)
      (try_paths-first_run runs junk sized (suc (length path)) path (args_of argv) h (omega arith))
