-- ===== src/Sperf/Scan.antt =====
-- The searches of sperf.c in its buffer: the first `(`, the last `<`, and the bytes around them.
use the_code_back_up_in_ubun.Base.{
  ℕ, zero, suc, ◌+◌, ◌<◌, ◌≡◌, refl, false, some, List, [], ◌∷◌, ◌++◌, ◌==◌, length, get_or, drop,
  replicate, All, arith, ap, ◌∙◌,
}
use the_code_back_up_in_ubun.CString.{text}
use the_code_back_up_in_ubun.Sperf.Trace.{cleared, fgets, paren_index, angle_index}

-- No byte of the list is the byte c.
abbrev pub Without : ℕ → List ℕ → Type 0
Without c = All (λ x. (x == c) ≡ false)

pub Without-append : (c : ℕ) (xs ys : List ℕ) → Without c xs → Without c ys → Without c (xs ++ ys)
Without-append c [] ys h k = k
Without-append c (x ∷ xs) ys (a, h) k = (a, Without-append c xs ys h k)

Without-get_or :
    (c : ℕ) (xs : List ℕ) (i : ℕ) → (0 == c) ≡ false → Without c xs → (get_or xs i 0 == c) ≡ false
Without-get_or c [] i z h = z
Without-get_or c (x ∷ xs) zero z (a, h) = a
Without-get_or c (x ∷ xs) (suc i) z (a, h) = Without-get_or c xs i z h

get_or-append :
    (xs ys : List ℕ) (i j : ℕ) → i ≡ length xs + j → get_or (xs ++ ys) i 0 ≡ get_or ys j 0
get_or-append [] ys i j e = ap (λ n. get_or ys n 0) (omega arith)
get_or-append (x ∷ xs) ys zero j e = absurd (omega arith)
get_or-append (x ∷ xs) ys (suc i) j e = get_or-append xs ys i j (omega arith)

-- The search from any index at or behind the last `<` finds it.
pub angle_index_lem :
    (xs ys : List ℕ) (i n : ℕ)
    → 0 < length xs
    → i ≡ length xs + n
    → Without b'<' ys
    → angle_index i (xs ++ b'<' ∷ ys) ≡ length xs
unfolding angle_index
angle_index_lem xs ys zero n p e w = absurd (omega arith)
angle_index_lem xs ys (suc i) zero p e w =
    rw (get_or-append xs (b'<' ∷ ys) (suc i) 0 e) (omega arith)
angle_index_lem xs ys (suc i) (suc n) p e w =
    rw (get_or-append xs (b'<' ∷ ys) (suc i) (suc n) e, Without-get_or b'<' ys n refl w)
      (angle_index_lem xs ys i n p (omega arith) w)

pub angle_index_none : (i : ℕ) (xs : List ℕ) → Without b'<' xs → angle_index i xs ≡ 0
unfolding angle_index
angle_index_none zero xs w = refl
angle_index_none (suc i) xs w = rw (Without-get_or b'<' xs (suc i) refl w) (angle_index_none i xs w)

-- The search for `(` stops at the first one.
pub paren_index_lem :
    (xs ys : List ℕ) (i : ℕ)
    → Without b'(' xs
    → paren_index (xs ++ b'(' ∷ ys) i ≡ some (i + length xs)
unfolding paren_index
paren_index_lem [] ys i w = ap some (omega arith)
paren_index_lem (x ∷ xs) ys i (a, w) =
    rw a (paren_index_lem xs ys (i + 1) w ∙ ap some (omega arith))

pub text_whole : (xs : List ℕ) → Without 0 xs → text xs ≡ xs
unfolding text
text_whole [] w = refl
text_whole (x ∷ xs) (a, w) = rw a (ap (λ l. x ∷ l) (text_whole xs w))

Without-replicate : (c n : ℕ) → (0 == c) ≡ false → Without c (replicate n 0)
Without-replicate c zero z = tt
Without-replicate c (suc n) z = (z, Without-replicate c n z)

drop-Without : (c n : ℕ) (xs : List ℕ) → Without c xs → Without c (drop n xs)
drop-Without c zero xs w = w
drop-Without c (suc n) [] w = tt
drop-Without c (suc n) (x ∷ xs) (a, w) = drop-Without c n xs w

-- What stands behind a line that fgets read into the buffer s.
pub rest_of : List ℕ → List ℕ → List ℕ
rest_of s got = 0 ∷ drop (suc (length got)) s

pub rest_of-Without :
    (c : ℕ) (s got : List ℕ) → (0 == c) ≡ false → Without c s → Without c (rest_of s got)
unfolding rest_of
rest_of-Without c s got z w = (z, drop-Without c (suc (length got)) s w)

pub cleared-Without : (c : ℕ) → (0 == c) ≡ false → Without c cleared
unfolding cleared
cleared-Without c z = Without-replicate c 300 z

pub fgets-rest_of : (got s : List ℕ) → fgets got s ≡ got ++ rest_of s got
unfolding fgets rest_of
fgets-rest_of got s = refl

pub fgets-Without :
    (c : ℕ) (got s : List ℕ)
    → (0 == c) ≡ false
    → Without c got
    → Without c s
    → Without c (fgets got s)
fgets-Without c got s z w blank =
    rw (fgets-rest_of got s)
      (Without-append c got (rest_of s got) w (rest_of-Without c s got z blank))
