-- ===== src/TrivialOs/Faults.antt =====
-- A page fault and the system call behind it.
use the_code_back_up_in_ubun.Base.{
  ℕ, zero, suc, ◌+◌, ◌^◌, ◌≤◌, ◌<◌, ◌≡◌, ◌≢◌, ◌⊎◌, refl, ap, ◌∙◌, Bool, false, some, List, [], ◌∷◌,
  if◌then◌else◌, arith, Bool-cases, inl, inr, length, get_or, ltb, update, update_self,
  update_other,
}
use the_code_back_up_in_ubun.TrivialOs.{
  cmd, memcpy, vfs_read, event_pagefault, Mapping, Platform, Kernel, proc_pagefault, os_interrupt,
}
use the_code_back_up_in_ubun.TrivialOs.Blocks.{base, kalloc-base}

memcpy_outside :
    (memory : ℕ → ℕ) (dst : ℕ) (cs : List ℕ) (a : ℕ)
    → (a < dst) ⊎ (dst + length cs ≤ a)
    → memcpy memory dst cs a ≡ memory a
memcpy_outside memory dst [] a h = refl
memcpy_outside memory dst (c ∷ cs) a h =
    memcpy_outside (update memory dst c) (dst + 1) cs a (ground arith)
    ∙ update_other memory c (ground arith)

memcpy_inside :
    (memory : ℕ → ℕ) (dst : ℕ) (cs : List ℕ) (i : ℕ)
    → i < length cs
    → memcpy memory dst cs (dst + i) ≡ get_or cs i 0
memcpy_inside memory dst [] i lt = absurd (omega arith)
memcpy_inside memory dst (c ∷ cs) zero lt =
    memcpy_outside (update memory dst c) (dst + 1) cs (dst + 0) (inl (omega arith)) ∙ ground arith
memcpy_inside memory dst (c ∷ cs) (suc i) lt =
    ap (memcpy (update memory dst c) (dst + 1) cs) (omega arith)
    ∙ memcpy_inside (update memory dst c) (dst + 1) cs i (omega arith)

module _ {ℓ} {C : Type ℓ} (p : Platform C) where
  -- The program of the task.
  abbrev pub image : ℕ → List ℕ
  image t = if ltb t 3 then p.counter else p.hello

  vfs_read-image :
      (t buf : ℕ) (memory : ℕ → ℕ)
      → vfs_read p.hello p.counter (cmd t) buf memory ≡ memcpy memory buf (image t)
  unfolding vfs_read the_code_back_up_in_ubun.CString.same
  vfs_read-image t buf memory = elim (Bool-cases (ltb t 3)) [
    | inl e ↦ rw e refl
    | inr e ↦ rw e refl
  ]

  -- The kernel with this block, its end and this memory in front of the `_map` of a page fault.
  abbrev filled : ℕ → ℕ → Kernel C p → ℕ × ℕ → (ℕ → ℕ) → Kernel C p
  filled t ref k r memory =
      let m : Mapping = record { task = t; va = p.round_down ref p.pgsize; pa = r.0 } in
      let heap : ℕ × (ℕ → ℕ) = p.map_page m (r.1, memory) in
      record k { brk = heap.0; page = update k.page t r.0; memory = heap.1; mapped = m ∷ k.mapped }

  -- What the page fault of a task leaves, with the page at this block and the tables that `_map`
  -- writes at these addresses.
  pub record Loaded (tables : ℕ → Bool) (k k' : Kernel C p) (t ref block : ℕ) : Type ℓ where
    pub loaded : (i : ℕ) → i < length (image t) → k'.memory (block + i) ≡ get_or (image t) i 0
    pub kept :
        (a : ℕ) → (a < block) ⊎ (block + p.pgsize ≤ a) → tables a ≡ false → k'.memory a ≡ k.memory a
    pub page_here : k'.page t ≡ block
    pub page_there : (u : ℕ) → t ≢ u → k'.page u ≡ k.page u
    pub brk_behind : block + p.pgsize ≤ k'.brk
    pub mapped_now :
        k'.mapped ≡ record { task = t; va = p.round_down ref p.pgsize; pa = block } ∷ k.mapped
    pub sched_kept : k'.sched ≡ k.sched
    pub output_kept : k'.output ≡ k.output

  -- `_map` writes only tables, and does not lower `brk`.
  abbrev pub MapsTables : (ℕ → Bool) → Type 0
  MapsTables tables =
      (m : Mapping) (heap : ℕ × (ℕ → ℕ))
      → (heap.0 ≤ (p.map_page m heap).0)
        × ((a : ℕ) → tables a ≡ false → (p.map_page m heap).1 a ≡ heap.1 a)

  -- No byte of the page at this block is one of a table.
  abbrev pub NoTable : (ℕ → Bool) → ℕ → Type 0
  NoTable tables block = (i : ℕ) → i < p.pgsize → tables (block + i) ≡ false

  pub fault-Loaded :
      (tables : ℕ → Bool) (cpu t ref : ℕ) (ctx : C) (k : Kernel C p)
      → MapsTables tables
      → k.sched.current cpu ≡ some t
      → length (image t) ≤ p.pgsize
      → base p.round_up p.heap_start p.pgsize k.brk + p.pgsize < 2 ^ 64
      → NoTable tables (base p.round_up p.heap_start p.pgsize k.brk)
      → (k' : Kernel C p) × (os_interrupt C p (event_pagefault ref) cpu ctx k ≡ some (ctx, k'))
        × Loaded tables k k' t ref (base p.round_up p.heap_start p.pgsize k.brk)
  unfolding os_interrupt proc_pagefault
  fault-Loaded tables cpu t ref ctx k maps here fits lt apart =
      let block = base p.round_up p.heap_start p.pgsize k.brk in
      let m : Mapping = record { task = t; va = p.round_down ref p.pgsize; pa = block } in
      let (grown, unwritten) = maps m (block + p.pgsize, memcpy k.memory block (image t)) in
      (
        filled t ref k (block, block + p.pgsize) (memcpy k.memory block (image t)),
        rw (here, os_interrupt, proc_pagefault)
            (ap
                (λ r.
                  some (ctx, filled t ref k r (vfs_read p.hello p.counter (cmd t) r.0 k.memory)))
                (kalloc-base p.round_up p.heap_start p.pgsize k.brk lt)
              ∙ ap (λ memory. some (ctx, filled t ref k (block, block + p.pgsize) memory))
                  (vfs_read-image t block k.memory)),
        record {
          loaded = λ i i_lt.
              unwritten (block + i) (apart i (omega arith))
              ∙ memcpy_inside k.memory block (image t) i i_lt;
          kept = λ a out free.
              unwritten a free ∙ memcpy_outside k.memory block (image t) a (ground arith);
          page_here = update_self k.page t block;
          page_there = λ u ne. update_other k.page block ne;
          brk_behind = grown;
          mapped_now = refl;
          sched_kept = refl;
          output_kept = refl;
        },
      )
