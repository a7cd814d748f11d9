-- ===== src/Sperf/Child/Search.antt =====
-- The search of mycode/sperf.c's child: the directories of PATH in order, without the empty ones.
use the_code_back_up_in_ubun.Base.{
  ℕ, zero, suc, ◌+◌, ◌<◌, ◌≤◌, ◌≡◌, refl, sym, ◌∙◌, ap, Bool, true, false, none, some, List, [],
  ◌∷◌, ◌++◌, ◌==◌, if◌then◌else◌, length, keep, map, arith, Bool-cases, ◌⊎◌, inl, inr, append_assoc,
}
use the_code_back_up_in_ubun.CString.{text, strlen}
use the_code_back_up_in_ubun.CString.Copies.{Text, text_lem, strlen_whole, strcat-strcpy}
use the_code_back_up_in_ubun.Sperf.Child.{
  Arg, slash_strace, span_token, next_token, filename, Ending, executes, returns, try_paths,
}

-- Split at every colon.
abbrev push : ℕ → List (List ℕ) → List (List ℕ)
push c [] = (c ∷ []) ∷ []
push c (w ∷ ws) = (c ∷ w) ∷ ws

pub split : List ℕ → List (List ℕ)
split [] = [] ∷ []
split (c ∷ cs) = if c == b':' then [] ∷ split cs else push c (split cs)

abbrev pub nonempty : List ℕ → Bool
nonempty [] = false
nonempty (c ∷ cs) = true

-- The files to try.
abbrev pub files : List ℕ → List (List ℕ)
files path = map (λ d. d ++ slash_strace) (keep nonempty (split path))

split-span_token :
    (cs : List ℕ)
    → (ws : List (List ℕ)) × (split cs ≡ (span_token cs).0 ∷ ws)
      × (keep nonempty ws ≡ keep nonempty (split (span_token cs).1))
unfolding split span_token
split-span_token [] = ([], refl, refl)
split-span_token (c ∷ cs) = elim (Bool-cases (c == b':')) [
  | inl found ↦ (split cs, rw found refl, rw found refl)
  | inr other ↦ let (ws, e, e') = split-span_token cs in (ws, rw other (rw e refl), rw other e')
]

span_token-parts :
    (cs : List ℕ)
    → (length (span_token cs).1 ≤ length cs)
      × (Text cs → Text (span_token cs).0 × Text (span_token cs).1)
unfolding span_token
span_token-parts [] = (omega arith, λ h. (tt, tt))
span_token-parts (c ∷ cs) = elim (Bool-cases (c == b':')) [
  | inl found ↦ rw found (omega arith, λ h. (tt, h.1))
  | inr other ↦
      let (le, parts) = span_token-parts cs in
      rw other (omega arith, λ h. ((h.0, (parts h.1).0), (parts h.1).1))
]

-- What a call of strtok finds.
record Token (path t r : List ℕ) : Type 0 where
  found : next_token path ≡ some (t, r)
  first : keep nonempty (split path) ≡ t ∷ keep nonempty (split r)
  shorter : length r < length path
  texts : Text path → Text t × Text r

Token-cases :
    (path : List ℕ)
    → (next_token path ≡ none) × (keep nonempty (split path) ≡ [])
      ⊎ ((t : List ℕ) × (r : List ℕ) × Token path t r)
unfolding next_token split span_token
Token-cases [] = inl (refl, refl)
Token-cases (c ∷ cs) = elim (Bool-cases (c == b':')) [
  | inl found ↦ elim (Token-cases cs) [
    | inl (e, e') ↦ inl (rw found e, rw found e')
    | inr (t, r, h) ↦ inr (
      t,
      r,
      record {
        found = rw found h.found;
        first = rw found h.first;
        shorter = omega (arith, h.shorter);
        texts = λ x. h.texts x.1;
      },
    )
  ]
  | inr other ↦
      let (ws, e, e') = split-span_token cs in
      let (le, parts) = span_token-parts cs in
      inr (
        c ∷ (span_token cs).0,
        (span_token cs).1,
        record {
          found = rw other refl;
          first = rw other (rw e (rw e' refl));
          shorter = omega arith;
          texts = λ x. ((x.0, (parts x.1).0), (parts x.1).1);
        },
      )
]

-- The first file that can be started.
abbrev pub first_run : (List ℕ → Bool) → List (List ℕ) → List Arg → Ending
first_run runs [] argv = returns
first_run runs (f ∷ fs) argv = if runs f then executes f argv else first_run runs fs argv

slash-Text : Text slash_strace
slash-Text = omega arith

Text-append : (a b : List ℕ) → Text a → Text b → Text (a ++ b)
Text-append [] b h h' = h'
Text-append (c ∷ cs) b (x, h) h' = (x, Text-append cs b h h')

filename_lem :
    (junk path : List ℕ)
    → Text path
    → length junk ≡ length path + 8
    → filename junk path ≡ some (path ++ (slash_strace ++ 0 ∷ []))
unfolding filename
filename_lem junk path h e =
    let (s, e1, e2) = strcat-strcpy junk path slash_strace h slash-Text (omega arith) in
    rw (e1, filename) e2

module _ (runs : List ℕ → Bool) (junk : ℕ → List ℕ) (sized : (n : ℕ) → length (junk n) ≡ n) where
  try_here :
      (fuel : ℕ) (path t r : List ℕ) (argv : List Arg)
      → next_token path ≡ some (t, r)
      → Text t
      → try_paths runs junk (suc fuel) path argv ≡ (
          if runs (t ++ slash_strace)
          then executes (t ++ slash_strace) argv
          else try_paths runs junk fuel r argv)
  unfolding try_paths
  try_here fuel path t r argv e h =
      let named : filename (junk (strlen t + 8)) t ≡ some (t ++ (slash_strace ++ 0 ∷ [])) =
        filename_lem (junk (strlen t + 8)) t h
          (sized (strlen t + 8) ∙ ap (λ n. n + 8) (strlen_whole t h)) in
      let whole : text (t ++ (slash_strace ++ 0 ∷ [])) ≡ t ++ slash_strace =
        ap text (sym (append_assoc t slash_strace (0 ∷ [])))
        ∙ text_lem (t ++ slash_strace) [] (Text-append t slash_strace h slash-Text) in
      rw (e, try_paths) (rw named (rw whole refl))

  try_stops :
      (fuel : ℕ) (path : List ℕ) (argv : List Arg)
      → next_token path ≡ none
      → try_paths runs junk (suc fuel) path argv ≡ returns
  unfolding try_paths
  try_stops fuel path argv e = rw (e, try_paths) refl

  -- Whatever PATH is: `execve` is called with strace in the directories of PATH, in order and
  -- without the empty ones, until one starts; every name fits the array that is made for it.
  pub try_paths-first_run :
      (fuel : ℕ) (path : List ℕ) (argv : List Arg)
      → Text path
      → length path < fuel
      → try_paths runs junk fuel path argv ≡ first_run runs (files path) argv
  try_paths-first_run zero path argv h lt = absurd (omega arith)
  try_paths-first_run (suc fuel) path argv h lt = elim (Token-cases path) [
    | inl (e, e') ↦ try_stops fuel path argv e ∙ rw e' refl
    | inr (t, r, k) ↦
        try_here fuel path t r argv k.found (k.texts h).0
        ∙ rw (try_paths-first_run fuel r argv (k.texts h).1 (omega (arith, k.shorter)))
            (rw k.first refl)
  ]
