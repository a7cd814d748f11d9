-- ===== src/Sperf/Child/Examples.antt =====
-- The child of sperf.c with the PATH "/a::/b", where /b has strace.
use the_code_back_up_in_ubun.Base.{
  ℕ, zero, suc, ◌≡◌, refl, Bool, none, some, List, [], ◌∷◌, length, replicate, arith,
}
use the_code_back_up_in_ubun.CString.{same}
use the_code_back_up_in_ubun.Sperf.Child.{slash_strace, child}
use the_code_back_up_in_ubun.Sperf.Child.Search.{files, first_run}
use the_code_back_up_in_ubun.Sperf.Child.Arguments.{args_of, child-first_run}

abbrev path : List ℕ
path = b'/' ∷ b'a' ∷ b':' ∷ b':' ∷ b'/' ∷ b'b' ∷ []

abbrev runs : List ℕ → Bool
runs f = same f (b'/' ∷ b'b' ∷ slash_strace)

abbrev argv : List (List ℕ)
argv = (b's' ∷ []) ∷ (b'l' ∷ b's' ∷ []) ∷ []

length-replicate : (n : ℕ) → length {A = ℕ} (replicate n 7) ≡ n
length-replicate zero = refl
length-replicate (suc n) = omega (arith, length-replicate n)

child-first_run_example :
    child runs (λ n. replicate n 7) (replicate 4 none) argv (some path)
    ≡ first_run runs (files path) (args_of argv)
child-first_run_example =
    child-first_run runs (λ n. replicate n 7) (replicate 4 none) argv path length-replicate refl
      (omega arith)
