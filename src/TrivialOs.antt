-- ===== src/TrivialOs.antt =====
-- multi-threads/trivial-os.c: memory, files, page faults and system calls. Its scheduler is in the
-- module Scheduler. The kernel interface am.h is a parameter: the rounding of addresses, the heap,
-- the page size, the new contexts, a context's first argument, and what `_vme_init`, `_protect` and
-- `_map` make of `brk` and of the memory; so are the two program images, which the build includes.
mod Examples
pub mod Blocks
pub mod Boot
pub mod Calls
pub mod Faults
pub mod Pages
use Prim.Native.Nat.{bit_and}
use the_code_back_up_in_ubun.Base.{
  ℕ, zero, suc, ◌+◌, ◌-◌, ◌*◌, ◌%◌, ◌^◌, Bool, true, false, Option, none, some, List, [], ◌∷◌, ◌++◌,
  ◌==◌, if◌then◌else◌, ltb, length, update,
}
use the_code_back_up_in_ubun.CString.{same}
use the_code_back_up_in_ubun.Scheduler as Sched

-- `kalloc`, over ROUNDUP and the start of the heap: the block and the new `brk`, which is 0 before
-- the first call. Addresses have 64 bits.
unfoldable pub kalloc : (ℕ → ℕ → ℕ) → ℕ → ℕ → ℕ → ℕ × ℕ
kalloc round_up heap_start size brk =
    let brk' : ℕ = (if brk == 0 then heap_start + size else round_up brk size + size) % 2 ^ 64 in
    ((brk' + (2 ^ 64 - size % 2 ^ 64)) % 2 ^ 64, brk')

-- "/bin/hello" and "/bin/counter".
abbrev pub bin_hello : List ℕ
bin_hello = b'/' ∷ b'b' ∷ b'i' ∷ b'n' ∷ b'/' ∷ b'h' ∷ b'e' ∷ b'l' ∷ b'l' ∷ b'o' ∷ []

abbrev pub bin_counter : List ℕ
bin_counter = b'/' ∷ b'b' ∷ b'i' ∷ b'n' ∷ b'/' ∷ b'c' ∷ b'o' ∷ b'u' ∷ b'n' ∷ b't' ∷ b'e' ∷ b'r' ∷ []

-- `tasks[t].cmd`.
abbrev pub cmd : ℕ → List ℕ
cmd t = if ltb t 3 then bin_counter else bin_hello

abbrev pub memcpy : (ℕ → ℕ) → ℕ → List ℕ → ℕ → ℕ
memcpy memory dst [] = memory
memcpy memory dst (c ∷ cs) = memcpy (update memory dst c) (dst + 1) cs

-- `vfs_read`, over the two images.
unfoldable pub vfs_read : List ℕ → List ℕ → List ℕ → ℕ → (ℕ → ℕ) → ℕ → ℕ
vfs_read hello counter fname buf memory =
    let memory' : ℕ → ℕ = if same fname bin_hello then memcpy memory buf hello else memory in
    if same fname bin_counter then memcpy memory' buf counter else memory'

-- What `proc_syscall` prints: the number of the process, the CPU, and where the string stands.
pub record Puts : Type 0 where
  pub process : ℕ
  pub cpu : ℕ
  pub string : ℕ

-- A mapped page: its task, the virtual and the physical address.
pub record Mapping : Type 0 where
  pub task : ℕ
  pub va : ℕ
  pub pa : ℕ

pub data Event : Type 0 where
  event_syscall : Event
  event_pagefault : (ref : ℕ) → Event
  event_other : Event

-- The machine and the programs.
pub record Platform {ℓ} (C : Type ℓ) : Type ℓ where
  pub round_up : ℕ → ℕ → ℕ
  pub round_down : ℕ → ℕ → ℕ
  pub heap_start : ℕ
  pub pgsize : ℕ
  pub ncpu : ℕ
  pub ucontext : ℕ → C
  pub gpr1 : C → ℕ
  pub hello : List ℕ
  pub counter : List ℕ
  -- `brk` behind `_vme_init`; and `brk` and the memory behind `_protect` for a task, and behind `_map`:
  -- they take blocks of kalloc, which is their `pgalloc`, and write the tables of the pages.
  pub vme_brk : ℕ
  pub protect : ℕ → ℕ × (ℕ → ℕ) → ℕ × (ℕ → ℕ)
  pub map_page : Mapping → ℕ × (ℕ → ℕ) → ℕ × (ℕ → ℕ)

module _ {ℓ} (C : Type ℓ) (p : Platform C) where
  pub record Kernel : Type ℓ where
    pub sched : Sched.State C
    pub brk : ℕ
    pub page : ℕ → ℕ
    pub memory : ℕ → ℕ
    pub mapped : List Mapping
    pub output : List Puts
    pub intr : ℕ → Bool  -- of each CPU

  -- The contexts of the tasks, `brk` and the memory. The stack of the task and the entry of its
  -- address space give its context.
  unfoldable pub proc_create : ℕ → (ℕ → C) × (ℕ × (ℕ → ℕ)) → (ℕ → C) × (ℕ × (ℕ → ℕ))
  proc_create t made = (update made.0 t (p.ucontext t), p.protect t made.1)

  -- `proc_create(&tasks[i])` from i on, with so many rounds to go.
  unfoldable pub proc_create_all : ℕ → ℕ → (ℕ → C) × (ℕ × (ℕ → ℕ)) → (ℕ → C) × (ℕ × (ℕ → ℕ))
  unfolding proc_create
  proc_create_all zero i made = made
  proc_create_all (suc rounds) i made = proc_create_all rounds (i + 1) (proc_create i made)

  -- `currents[i] = NULL` from i on, with so many rounds to go.
  unfoldable pub clear_currents : ℕ → ℕ → (ℕ → Option ℕ) → ℕ → Option ℕ
  clear_currents zero i current = current
  clear_currents (suc rounds) i current = clear_currents rounds (i + 1) (update current i none)

  -- `os_init`, on the memory that `_vme_init` leaves.
  unfoldable pub os_init : Sched.State C → (ℕ → ℕ) → Kernel
  unfolding kalloc proc_create_all clear_currents
  os_init before memory =
      let heap : ℕ × (ℕ → ℕ) =
        ((kalloc p.round_up p.heap_start (p.ncpu * 8) p.vme_brk).1, memory) in
      let made = proc_create_all 5 0 (before.context, heap) in
      record {
        sched = record { context = made.0; current = clear_currents p.ncpu 0 before.current };
        brk = made.1.0;
        page = λ t. 0;
        memory = made.1.1;
        mapped = [];
        output = [];
        intr = λ cpu. false;
      }

  -- `none` is the NULL of a CPU without a task.
  unfoldable pub proc_pagefault : ℕ → ℕ → Kernel → Option Kernel
  unfolding kalloc vfs_read
  proc_pagefault cpu ptr k = elim (k.sched.current cpu) [
    | none ↦ none
    | some t ↦
        let va = p.round_down ptr p.pgsize in
        let r = kalloc p.round_up p.heap_start p.pgsize k.brk in
        let m : Mapping = record { task = t; va = va; pa = r.0 } in
        let heap = p.map_page m (r.1, vfs_read p.hello p.counter (cmd t) r.0 k.memory) in
        some (record k {
          brk = heap.0;
          page = update k.page t r.0;
          memory = heap.1;
          mapped = m ∷ k.mapped;
        })
  ]

  -- The lock is free again behind the call, and `spin_unlock` turns the interrupts on.
  unfoldable pub proc_syscall : ℕ → C → Kernel → Option Kernel
  proc_syscall cpu ctx k = elim (k.sched.current cpu) [
    | none ↦ none
    | some t ↦
        let pa = (k.page t + bit_and (p.gpr1 ctx) (p.pgsize - 1)) % 2 ^ 64 in
        some (record k {
          output = k.output ++ record { process = t + 1; cpu = cpu; string = pa } ∷ [];
          intr = update k.intr cpu true;
        })
  ]

  unfoldable pub os_interrupt : Event → ℕ → C → Kernel → Option (C × Kernel)
  unfolding proc_pagefault proc_syscall Sched.schedule
  os_interrupt event_syscall cpu ctx k =
      elim (proc_syscall cpu ctx (record k { intr = update k.intr cpu true })) [
        | none ↦ none
        | some k' ↦ some (ctx, k')
      ]
  os_interrupt (event_pagefault ref) cpu ctx k = elim (proc_pagefault cpu ref k) [
    | none ↦ none
    | some k' ↦ some (ctx, k')
  ]
  os_interrupt event_other cpu ctx k = elim (Sched.schedule C p.ncpu cpu ctx k.sched) [
    | none ↦ none
    | some r ↦ some (r.0, record k { sched = r.1 })
  ]
