-- ===== src/TrivialOs/Pages.antt =====
-- The pages of the processes in every state that the interrupts lead to.
use the_code_back_up_in_ubun.Base.{
  ℕ, ◌+◌, ◌*◌, ◌^◌, ◌≤◌, ◌<◌, ◌≡◌, refl, sym, ap, subst, Bool, false, Option, none, some, List, [],
  ◌∷◌, ◌==◌, if◌then◌else◌, length, get_or, All, arith, ◌∙◌, Option-cases, Bool-cases, inl, inr,
}
use the_code_back_up_in_ubun.Scheduler as Sched
use the_code_back_up_in_ubun.TrivialOs.{
  kalloc, Mapping, Event, event_syscall, event_pagefault, event_other, Platform, Kernel, os_init,
  proc_pagefault, proc_syscall, os_interrupt,
}
use the_code_back_up_in_ubun.TrivialOs.Blocks.{base, base_at_least, kalloc-base}
use the_code_back_up_in_ubun.TrivialOs.Faults.{image, Loaded, MapsTables, NoTable, fault-Loaded}
use the_code_back_up_in_ubun.TrivialOs.Boot.{proc_create_all-grows}

module _ {ℓ} {C : Type ℓ} (p : Platform C) where
  -- The states that interrupts lead to, one after the other, while the blocks do not go over the end
  -- of the addresses and kalloc gives none of the blocks of the tables again.
  pub data Reached (tables : ℕ → Bool) : Kernel C p → Type ℓ where
    booted : (before : Sched.State C) (memory : ℕ → ℕ) → Reached tables (os_init C p before memory)
    interrupted :
        (ev : Event) (cpu : ℕ) (ctx ctx' : C) (k k' : Kernel C p)
        → Reached tables k
        → base p.round_up p.heap_start p.pgsize k.brk + p.pgsize < 2 ^ 64
        → NoTable p tables (base p.round_up p.heap_start p.pgsize k.brk)
        → os_interrupt C p ev cpu ctx k ≡ some (ctx', k')
        → Reached tables k'

  -- The end of the block of `currents`.
  abbrev pub currents_end : ℕ
  currents_end = base p.round_up p.heap_start (p.ncpu * 8) p.vme_brk + p.ncpu * 8

  -- The pages that were mapped, the last one first: each lies below the one that was mapped behind
  -- it, the last one below the limit, and all behind the block of `currents`.
  abbrev pub Stacked : ℕ → List Mapping → Type 0
  Stacked limit [] = currents_end ≤ limit
  Stacked limit (m ∷ ms) = m.pa + p.pgsize ≤ limit × Stacked m.pa ms

  Stacked-weaken :
      (limit limit' : ℕ) (ms : List Mapping) → limit ≤ limit' → Stacked limit ms → Stacked limit' ms
  Stacked-weaken limit limit' [] le h = omega arith
  Stacked-weaken limit limit' (m ∷ ms) le h = (omega (arith, h.0), h.1)

  -- The page that was mapped last for the task, or 0.
  abbrev pub newest : ℕ → List Mapping → ℕ
  newest t [] = 0
  newest t (m ∷ ms) = if m.task == t then m.pa else newest t ms

  -- Each page begins with the program of its task.
  abbrev pub HoldPrograms : (ℕ → ℕ) → List Mapping → Type 0
  HoldPrograms memory =
      All (λ m.
        (i : ℕ) → i < length (image p m.task) → memory (m.pa + i) ≡ get_or (image p m.task) i 0)

  pub record PagesHold (tables : ℕ → Bool) (k : Kernel C p) : Type 0 where
    pub stacked : Stacked k.brk k.mapped
    pub apart : All (λ m. NoTable p tables m.pa) k.mapped
    pub programs : HoldPrograms k.memory k.mapped
    pub pages : (t : ℕ) → k.page t ≡ newest t k.mapped

  module _ (tables : ℕ → Bool) (one_cpu : p.ncpu ≡ 1) (rounded : (a n : ℕ) → a ≤ p.round_up a n)
      (room : currents_end < 2 ^ 64) (fits : (t : ℕ) → length (image p t) ≤ p.pgsize)
      (protects : (t : ℕ) (heap : ℕ × (ℕ → ℕ)) → heap.0 ≤ (p.protect t heap).0)
      (maps : MapsTables p tables) where
    -- A page fault writes behind the pages that are below its block.
    HoldPrograms-kept :
        (memory memory' : ℕ → ℕ) (limit block : ℕ) (ms : List Mapping)
        → ((a : ℕ) → a < block → tables a ≡ false → memory' a ≡ memory a)
        → limit ≤ block
        → Stacked limit ms
        → All (λ m. NoTable p tables m.pa) ms
        → HoldPrograms memory ms
        → HoldPrograms memory' ms
    HoldPrograms-kept memory memory' limit block [] kept le s free h = tt
    HoldPrograms-kept memory memory' limit block (m ∷ ms) kept le s (free, frees) (h, hs) = (
      λ i lt.
          kept (m.pa + i) (omega (arith, fits m.task, s.0)) (free i (omega (arith, fits m.task)))
          ∙ h i lt,
      HoldPrograms-kept memory memory' m.pa block ms kept (omega (arith, s.0)) s.1 frees hs,
    )

    -- The kernel behind a page fault.
    Loaded-PagesHold :
        (k k' : Kernel C p) (t ref block : ℕ)
        → k.brk ≤ block
        → NoTable p tables block
        → Loaded p tables k k' t ref block
        → PagesHold tables k
        → PagesHold tables k'
    Loaded-PagesHold k k' t ref block le free l h = record {
      stacked =
          rw l.mapped_now
            (omega (arith, l.brk_behind), Stacked-weaken k.brk block k.mapped le h.stacked);
      apart = rw l.mapped_now (free, h.apart);
      programs = rw l.mapped_now (
        l.loaded,
        HoldPrograms-kept k.memory k'.memory k.brk block k.mapped
            (λ a lt off. l.kept a (inl lt) off) le h.stacked h.apart h.programs,
      );
      pages = λ u. rw l.mapped_now (elim (Bool-cases (t == u)) [
        | inl same ↦ rw same (ap k'.page (sym (ground arith)) ∙ l.page_here)
        | inr other ↦ rw other (l.page_there u (ground arith) ∙ h.pages u)
      ]);
    }

    After : Option (C × Kernel C p) → Type 0
    After none = Unit
    After (some (ctx, k)) = PagesHold tables k

    interrupt-After :
        (ev : Event) (cpu : ℕ) (ctx : C) (k : Kernel C p)
        → PagesHold tables k
        → base p.round_up p.heap_start p.pgsize k.brk + p.pgsize < 2 ^ 64
        → NoTable p tables (base p.round_up p.heap_start p.pgsize k.brk)
        → After (os_interrupt C p ev cpu ctx k)
    unfolding os_interrupt proc_pagefault proc_syscall After
    interrupt-After (event_pagefault ref) cpu ctx k h lt free =
        elim (Option-cases (k.sched.current cpu)) [
          | inl here ↦ rw (here, os_interrupt, proc_pagefault) tt
          | inr (t, here) ↦
              let (k', run, loaded) =
                fault-Loaded p tables cpu t ref ctx k maps here (fits t) lt free in
              subst After (sym run) (
                Loaded-PagesHold k k' t ref _
                  (base_at_least p.round_up p.heap_start rounded p.pgsize k.brk) free loaded h)
        ]
    interrupt-After event_syscall cpu ctx k h lt free = elim (Option-cases (k.sched.current cpu)) [
      | inl here ↦ rw (here, os_interrupt, proc_syscall) tt
      | inr (t, here) ↦
          rw (here, os_interrupt, proc_syscall)
            record { stacked = h.stacked; apart = h.apart; programs = h.programs; pages = h.pages }
    ]
    interrupt-After event_other cpu ctx k h lt free =
        elim (Option-cases (Sched.schedule C p.ncpu cpu ctx k.sched)) [
          | inl none_there ↦ rw (none_there, os_interrupt) tt
          | inr (r, there) ↦
              rw (there, os_interrupt)
                record {
                  stacked = h.stacked;
                  apart = h.apart;
                  programs = h.programs;
                  pages = h.pages;
                }
        ]

    boot-PagesHold :
        (before : Sched.State C) (memory : ℕ → ℕ) → PagesHold tables (os_init C p before memory)
    unfolding os_init
    boot-PagesHold before memory =
        let size : ℕ = p.ncpu * 8 in
        let heap : ℕ × (ℕ → ℕ) = ((kalloc p.round_up p.heap_start size p.vme_brk).1, memory) in
        let start : heap.0 ≡ currents_end =
          ap (λ r. r.1) (kalloc-base p.round_up p.heap_start size p.vme_brk room) in
        record {
          stacked =
              omega (arith, start, proc_create_all-grows p protects 5 0 (before.context, heap));
          apart = tt;
          programs = tt;
          pages = λ t. refl;
        }

    pub Reached-PagesHold : (k : Kernel C p) → Reached tables k → PagesHold tables k
    unfolding After
    Reached-PagesHold _ (booted before memory) = boot-PagesHold before memory
    Reached-PagesHold _ (interrupted ev cpu ctx ctx' k0 k r lt free e) =
        subst After e (interrupt-After ev cpu ctx k0 (Reached-PagesHold k0 r) lt free)

    -- The pages lie one behind the other.
    pub pages_Stacked : (k : Kernel C p) → Reached tables k → Stacked k.brk k.mapped
    pages_Stacked k r = (Reached-PagesHold k r).stacked
