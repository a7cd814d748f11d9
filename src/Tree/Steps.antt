-- ===== src/Tree/Steps.antt =====
-- The four ways through the body of the loops of tree/tree.c.
use the_code_back_up_in_ubun.Base.{ℕ, ◌≡◌, ◌≢◌, refl, true, false, some, ◌==◌, update, arith}
use the_code_back_up_in_ubun.Tree.{pid_at, ppid_at, child_at, peer_at, deepen, findpeertail, link}

module _ (fuel x y child : ℕ) (memory : ℕ → ℕ) (e : memory (child_at x) ≡ child) where
  pub link_skips : memory (ppid_at y) ≢ memory (pid_at x) → link fuel x y memory ≡ some memory
  unfolding link
  link_skips other =
      let mine : (memory (ppid_at y) == memory (pid_at x)) ≡ false = ground arith in
      rw (mine, link) (ground arith)

  pub link-first :
      memory (ppid_at y) ≡ memory (pid_at x)
      → child ≡ 0
      → link fuel x y memory ≡ some (deepen x y (update memory (child_at x) y))
  unfolding link
  link-first mine bare =
      let is_mine : (memory (ppid_at y) == memory (pid_at x)) ≡ true = ground arith in
      let is_bare : (memory (child_at x) == 0) ≡ true = ground arith in
      rw (is_mine, link) (rw is_bare refl)

  pub link-second :
      memory (ppid_at y) ≡ memory (pid_at x)
      → child ≢ 0
      → memory (peer_at child) ≡ 0
      → link fuel x y memory ≡ some (deepen x y (update memory (peer_at child) y))
  unfolding link
  link-second mine some_child bare =
      let is_mine : (memory (ppid_at y) == memory (pid_at x)) ≡ true = ground arith in
      let is_some : (child == 0) ≡ false = ground arith in
      let is_bare : (memory (peer_at child) == 0) ≡ true = ground arith in
      rw (is_mine, link) (rw e (rw is_some (rw is_bare refl)))

  pub link-tail :
      (temp : ℕ)
      → memory (ppid_at y) ≡ memory (pid_at x)
      → child ≢ 0
      → memory (peer_at child) ≢ 0
      → findpeertail fuel memory (peer_at child) ≡ some temp
      → link fuel x y memory ≡ some (deepen x y (update memory (peer_at temp) y))
  unfolding link
  link-tail temp mine some_child second found =
      let is_mine : (memory (ppid_at y) == memory (pid_at x)) ≡ true = ground arith in
      let is_some : (child == 0) ≡ false = ground arith in
      let is_second : (memory (peer_at child) == 0) ≡ false = ground arith in
      rw (is_mine, link) (rw e (rw is_some (rw is_second (rw found refl))))
