-- ===== src/FishDraft/Examples.antt =====
-- The first fish of os-midterm/fish.c.
use the_code_back_up_in_ubun.Base.{ℕ, ◌≡◌, ◌≢◌, refl, some, List, [], ◌∷◌, map, length, arith}
use the_code_back_up_in_ubun.Fish.{next, next_in, state_d}
use the_code_back_up_in_ubun.Fish.Words.{Swims}
use the_code_back_up_in_ubun.FishDraft.{Draft, Condition, fish_init, fish_after, waiter}
use the_code_back_up_in_ubun.FishDraft.Signals.{Printed, start, print, sum, fish_after_lem}
use mathlib.Core.List.{reverse}
use the_code_back_up_in_ubun.Threads
use the_code_back_up_in_ubun.Threads.{Thread, waits}
use the_code_back_up_in_ubun.Threads.Numbers.{ids}
use the_code_back_up_in_ubun.FishDraft.Midterm.{role_of, main}
use the_code_back_up_in_ubun.FishDraft.Midterm.Roles.{below, main-roles}

abbrev after : ℕ → Draft → Draft
after c s = (fish_after 0 c s).0

-- Behind `><>`.
abbrev no_tail : Draft
no_tail = after b'>' (after b'<' (after b'>' fish_init))

no_tail_sum : no_tail.fish_sum ≡ 184
unfolding fish_after fish_init
no_tail_sum = refl

no_tail_signal : (fish_after 0 b'>' (after b'<' (after b'>' fish_init))).1 ≡ Condition.underline
unfolding fish_after fish_init
no_tail_signal = refl

no_tail-Printed : Printed (b'>' ∷ b'<' ∷ b'>' ∷ []) state_d no_tail
unfolding next next_in
no_tail-Printed =
    print 0 b'>' (b'>' ∷ b'<' ∷ []) _ _
      (print 0 b'<' (b'>' ∷ []) _ _ (print 0 b'>' [] _ _ start (λ e. omega (arith, e)))
        (λ e. omega (arith, e)))
      (λ e. omega (arith, e))

fish_after_lem_example :
    ((w : Swims state_d (b'>' ∷ b'<' ∷ b'>' ∷ [])) × (no_tail.fish_sum ≡ sum w.part))
    × (next (next state_d b'_') (waiter (fish_after 3 b'_' no_tail).1) ≢ 0)
unfolding next next_in
fish_after_lem_example =
    fish_after_lem (b'>' ∷ b'<' ∷ b'>' ∷ []) state_d 3 b'_' no_tail no_tail-Printed
      (λ e. omega (arith, e))

-- "<<<<<>>>>___" behind its first character.
abbrev behind_first : List ℕ
behind_first = b'<' ∷ b'<' ∷ b'<' ∷ b'<' ∷ b'>' ∷ b'>' ∷ b'>' ∷ b'>' ∷ b'_' ∷ b'_' ∷ b'_' ∷ []

-- The entry function is 7, and that of join a number.
main-roles_example :
    ((ts : List (Thread ℕ)) × (main {J = ℕ} (b'<' ∷ behind_first) 7 ≡ some (ts, waits 11 ∷ []))
      × (ids ts ≡ below (length (b'<' ∷ behind_first)))
      × (map (role_of (b'<' ∷ behind_first)) (ids ts) ≡ reverse (b'<' ∷ behind_first)))
    × ((us : List (Thread ℕ)) × (Threads.create_all (length (b'<' ∷ behind_first)) 7 [] ≡ some us)
        × (map (role_of (b'<' ∷ behind_first)) (ids us) ≡ 0 ∷ reverse behind_first))
main-roles_example = main-roles b'<' behind_first 7
