-- ===== src/LibCo/Pool.antt =====
-- The pool of `rand_choose` in libco/co-first.c: its first loop links the coroutines that are new or
-- waiting, in the order of the list.
use the_code_back_up_in_ubun.Base.{
  ℕ, zero, suc, ◌+◌, ◌<◌, ◌≤◌, ◌≡◌, ◌≢◌, refl, sym, subst, ◌∙◌, ap, true, false, some, List, [],
  ◌∷◌, ◌++◌, length, All, keep, update, update_other, arith, Bool-cases, inl, inr, append-nil,
  append_assoc, length-append,
}
use the_code_back_up_in_ubun.LibCo.{State, rand_pool_head, ready, add, fill}
use the_code_back_up_in_ubun.LibCo.Segments.{
  Seg, Away, Unique, last, append_loop-last, Seg-append, Away-snoc, Away-init, Unique-snoc,
  Away-last,
}

-- The nodes ys hang on the head of the pool, and no other node is linked.
pub record Pool (brother : ℕ → ℕ) (ys : List ℕ) : Type 0 where
  pub seg : Seg brother (brother rand_pool_head) ys
  pub unique : Unique (rand_pool_head ∷ ys)
  pub outside : (q : ℕ) → Away q (rand_pool_head ∷ ys) → brother q ≡ 0

snoc-Pool :
    (brother : ℕ → ℕ) (ys : List ℕ) (x : ℕ)
    → Pool brother ys
    → Away x (rand_pool_head ∷ ys)
    → x ≢ 0
    → Pool (update brother (last rand_pool_head ys) x) (ys ++ x ∷ [])
snoc-Pool brother ys x p (a, away) some_x = record {
  seg =
      Seg-append brother rand_pool_head x ys p.seg p.unique (a, away) some_x
        (p.outside x (a, away));
  unique =
      (Away-snoc rand_pool_head x ys p.unique.0 (λ e. a (sym e)), Unique-snoc ys x p.unique.1 away);
  outside = λ q h.
      let (b, c) = Away-init q x ys h.1 in
      update_other brother x (Away-last rand_pool_head q ys (h.0, b)) ∙ p.outside q (h.0, b);
}

Aways-snoc :
    (ys : List ℕ) (x : ℕ) (xs : List ℕ)
    → Away x xs
    → All (λ k. Away k (rand_pool_head ∷ ys)) xs
    → All (λ k. Away k (rand_pool_head ∷ (ys ++ x ∷ []))) xs
Aways-snoc ys x [] h a = tt
Aways-snoc ys x (k ∷ ks) (ne, h) ((b, c), a) =
    ((b, Away-snoc k x ys c (λ e. ne (sym e))), Aways-snoc ys x ks h a)

add-some :
    (room : ℕ) (s : State) (x count : ℕ) (ys : List ℕ) (brother : ℕ → ℕ)
    → Pool brother ys
    → length ys < room
    → ready s x ≡ true
    → add room s x brother count ≡ some (update brother (last rand_pool_head ys) x, count + 1)
unfolding add
add-some room s x count ys brother p lt found =
    rw found (rw (append_loop-last room brother rand_pool_head x ys p.seg lt) refl)

add_skips :
    (room : ℕ) (s : State) (x count : ℕ) (brother : ℕ → ℕ)
    → ready s x ≡ false
    → add room s x brother count ≡ some (brother, count)
unfolding add
add_skips room s x count brother found = rw found refl

fill-add :
    (room fuel : ℕ) (s : State) (x count count' : ℕ) (brother brother' : ℕ → ℕ)
    → x ≢ 0
    → add room s x brother count ≡ some (brother', count')
    → fill room (suc fuel) s x brother count ≡ fill room fuel s (s.next x) brother' count'
unfolding fill
fill-add room fuel s x count count' brother brother' some_x run = ground (arith, run)

-- With enough fuel the loop links the ready nodes of the list behind the pool, in their order, and
-- counts them.
pub fill_lem :
    (room fuel : ℕ) (s : State) (temp : ℕ) (xs ys : List ℕ) (brother : ℕ → ℕ) (count : ℕ)
    → Seg s.next temp xs
    → length xs < fuel
    → length ys + length xs ≤ room
    → Pool brother ys
    → Unique xs
    → All (λ x. Away x (rand_pool_head ∷ ys)) xs
    → (brother' : ℕ → ℕ) × (fill room fuel s temp brother count
        ≡ some (brother', count + length (keep (ready s) xs)))
      × Pool brother' (ys ++ keep (ready s) xs)
unfolding fill
fill_lem room zero s temp xs ys brother count seg lt le p u aways = absurd (omega arith)
fill_lem room (suc fuel) s temp [] ys brother count seg lt le p u aways =
    (brother, ground arith, subst (Pool brother) (sym (append-nil ys)) p)
fill_lem room (suc fuel) s temp (x ∷ xs) ys brother count (e, some_x, seg) lt le p (a, u)
      (b, aways) =
    subst
      (λ k.
        (brother' : ℕ → ℕ) × (fill room (suc fuel) s k brother count
          ≡ some (brother', count + length (keep (ready s) (x ∷ xs))))
        × Pool brother' (ys ++ keep (ready s) (x ∷ xs)))
      (sym e)
      (elim (Bool-cases (ready s x)) [
        | inl found ↦
            let (brother', run, p') =
              fill_lem room fuel s (s.next x) xs (ys ++ x ∷ [])
                (update brother (last rand_pool_head ys) x) (count + 1) seg (omega arith)
                (omega (arith, length-append ys (x ∷ []))) (snoc-Pool brother ys x p b some_x) u
                (Aways-snoc ys x xs a aways) in
            (
              brother',
              fill-add room fuel s x count (count + 1) brother _ some_x
                    (add-some room s x count ys brother p (omega arith) found)
                  ∙ run
                  ∙ rw found (ap (λ k. some (brother', k)) (omega arith)),
              rw found (subst (Pool brother') (append_assoc ys (x ∷ []) (keep (ready s) xs)) p'),
            )
        | inr found ↦
            let (brother', run, p') =
              fill_lem room fuel s (s.next x) xs ys brother count seg (omega arith) (omega arith) p
                u aways in
            (
              brother',
              fill-add room fuel s x count count brother brother some_x
                    (add_skips room s x count brother found)
                  ∙ run
                  ∙ rw found refl,
              rw found p',
            )
      ])
