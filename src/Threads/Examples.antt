-- ===== src/Threads/Examples.antt =====
-- The theorem on threads.h at four threads, and the characters of the threads of brac.c.
use the_code_back_up_in_ubun.Base.{
  ℕ, ltb, Bool, true, arith, ◌≡◌, refl, some, List, [], ◌∷◌, ◌++◌, map,
}
use the_code_back_up_in_ubun.Threads.{Thread, waits, create_all, join_all}
use the_code_back_up_in_ubun.Threads.Numbers.{downto, joins, ids, create-join}
use the_code_back_up_in_ubun.Brac.{role, thread_count}

-- Four threads, of which the first never returns.
abbrev returns : ℕ → Bool
returns id = ltb 1 id

create-join_example :
    (ts : List (Thread ℕ)) × (create_all 4 5 [] ≡ some ts)
    × (ids ts ≡ downto 4)
    × (join_all returns ts (some true) ≡ joins (4 ∷ 3 ∷ 2 ∷ []) ++ waits 1 ∷ [])
create-join_example = create-join returns 1 3 5 true (λ i lt le. ground arith) (λ ne. refl)

-- The characters of the eight threads: the first `[` has none, and the last thread has the NUL.
brac_roles :
    map role (downto thread_count) ≡ 0 ∷ b')' ∷ b')' ∷ b'(' ∷ b'(' ∷ b']' ∷ b']' ∷ b'[' ∷ []
brac_roles = refl
