-- ===== src/LibCo/Removal.antt =====
-- `co_delete` of libco/co-first.c: the first coroutine with the name of the node leaves the list.
use the_code_back_up_in_ubun.Base.{
  ℕ, zero, suc, ◌<◌, ◌≡◌, ◌≢◌, refl, sym, subst, ◌∙◌, ap, Bool, false, none, some, List, [], ◌∷◌,
  ◌==◌, if◌then◌else◌, length, All, update, update_self, update_other, arith, Bool-cases, inl, inr,
}
use the_code_back_up_in_ubun.CString.{same}
use the_code_back_up_in_ubun.LibCo.{State, co_list_head, same_name, delete_loop, co_delete}
use the_code_back_up_in_ubun.LibCo.Segments.{Seg, Away, Unique, Seg-update}
use the_code_back_up_in_ubun.LibCo.Names.{Named}
use the_code_back_up_in_ubun.LibCo.Choice.{same_name-some}

abbrev pub has_name : State → List ℕ → ℕ → Bool
has_name s n x = elim (s.name x) [ none ↦ false | some m ↦ same m n ]

-- The list without the first node of the name.
abbrev pub erase : State → List ℕ → List ℕ → List ℕ
erase s n [] = []
erase s n (x ∷ xs) = if has_name s n x then xs else x ∷ erase s n xs

has_name-some : (s : State) (n m : List ℕ) (x : ℕ) → s.name x ≡ some m → has_name s n x ≡ same m n
has_name-some s n m x e = rw (e, has_name) refl

delete_found :
    (fuel : ℕ) (s : State) (node before_temp x : ℕ) (found : Bool)
    → x ≢ 0
    → same_name s x node ≡ some found
    → delete_loop (suc fuel) s node before_temp x ≡ (
        if found
        then some (record s { next = update s.next before_temp (s.next x) })
        else delete_loop fuel s node x (s.next x))
unfolding delete_loop
delete_found fuel s node before_temp x found some_x e =
    let tested : (x == 0) ≡ false = ground arith in rw (tested, delete_loop) (rw e refl)

delete_end :
    (fuel : ℕ) (s : State) (node before_temp : ℕ)
    → delete_loop (suc fuel) s node before_temp 0 ≡ some s
unfolding delete_loop
delete_end fuel s node before_temp = refl

-- What the loop leaves: the field `next` of a node outside is not changed.
record Erased (s : State) (n : List ℕ) (p : ℕ) (xs : List ℕ) (next : ℕ → ℕ) : Type 0 where
  listed : Seg next (next p) (erase s n xs)
  frame : (q : ℕ) → Away q (p ∷ xs) → next q ≡ s.next q

delete_loop_lem :
    (fuel : ℕ) (s : State) (node p : ℕ) (n xs : List ℕ)
    → s.name node ≡ some n
    → Seg s.next (s.next p) xs
    → Unique (p ∷ xs)
    → All (Named s) xs
    → length xs < fuel
    → (next : ℕ → ℕ) × (delete_loop fuel s node p (s.next p) ≡ some (record s { next = next }))
      × Erased s n p xs next
delete_loop_lem zero s node p n xs e seg u named lt = absurd (omega arith)
delete_loop_lem (suc fuel) s node p n [] e seg u named lt = (
  s.next,
  ap (delete_loop (suc fuel) s node p) seg ∙ delete_end fuel s node p,
  record { listed = seg; frame = λ q h. refl },
)
delete_loop_lem (suc fuel) s node p n (x ∷ xs) e (e1, some_x, seg) ((ne, away), u) ((m, e2), named)
      lt =
    let run = delete_found fuel s node p x (same m n) some_x (same_name-some s x node m n e2 e) in
    let begun = ap (delete_loop (suc fuel) s node p) e1 ∙ run in
    let seen = has_name-some s n m x e2 in
    elim (Bool-cases (same m n)) [
      | inl found ↦
          let next : ℕ → ℕ = update s.next p (s.next x) in
          (
            next,
            begun ∙ rw found refl,
            record {
              listed = rw (seen ∙ found) (
                  subst (λ k. Seg next k xs) (sym (update_self s.next p (s.next x)))
                    (Seg-update s.next p (s.next x) (s.next x) xs away seg));
              frame = λ q h. update_other s.next (s.next x) (λ same_node. h.0 (sym same_node));
            },
          )
      | inr found ↦
          let (next, rest, after) =
            delete_loop_lem fuel s node x n xs e seg u named (omega arith) in
          (
            next,
            begun ∙ rw found rest,
            record {
              listed = rw (seen ∙ found) (after.frame p (ne, away) ∙ e1, some_x, after.listed);
              frame = λ q h. after.frame q h.1;
            },
          )
    ]

-- On a list whose coroutines have names, `co_delete` returns, the first coroutine with the name of
-- the node is taken out of the list, the others stay in order, and nothing but the field `next` is
-- changed.
pub co_delete-erase :
    (fuel : ℕ) (s : State) (node : ℕ) (n xs : List ℕ)
    → s.name node ≡ some n
    → Seg s.next (s.next co_list_head) xs
    → Unique (co_list_head ∷ xs)
    → All (Named s) xs
    → length xs < fuel
    → (next : ℕ → ℕ) × (co_delete fuel node s ≡ some (record s { next = next }))
      × Seg next (next co_list_head) (erase s n xs)
unfolding co_delete
co_delete-erase fuel s node n xs e seg u named lt =
    let (next, run, after) = delete_loop_lem fuel s node co_list_head n xs e seg u named lt in
    (next, run, after.listed)
