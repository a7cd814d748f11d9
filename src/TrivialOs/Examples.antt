-- ===== src/TrivialOs/Examples.antt =====
-- A kernel of trivial-os.c on one CPU with pages of 4096 bytes. `_protect` and `_map` take a block
-- each, and `_map` writes an entry of its tables below 8192.
use the_code_back_up_in_ubun.Base.{
  Bool, ◌&&◌, ltb, update, ◌*◌, ℕ, ◌+◌, ◌-◌, ◌%◌, false, Option, none, some, [], ◌∷◌,
}
use the_code_back_up_in_ubun.TrivialOs.{
  Platform, Kernel, event_pagefault, event_other, os_init, os_interrupt,
}

abbrev round_up : ℕ → ℕ → ℕ
round_up a n = a + (n - a % n) % n

abbrev platform : Platform ℕ
platform = record {
  round_up = round_up;
  round_down = λ a n. a - a % n;
  heap_start = 4096;
  pgsize = 4096;
  ncpu = 1;
  ucontext = λ t. t;
  gpr1 = λ ctx. ctx;
  hello = 7 ∷ 8 ∷ 9 ∷ [];
  counter = 1 ∷ 2 ∷ [];
  vme_brk = 0;
  protect = λ t heap. (heap.0 + 4096, heap.1);
  map_page = λ m heap. (heap.0 + 4096, update heap.1 (4608 + m.task % 5 * 8) m.pa);
}

abbrev kernel : Kernel ℕ platform
kernel = record {
  sched = record { context = λ t. t; current = λ cpu. some 3 };
  brk = 4112;
  page = λ t. 0;
  memory = λ a. 0;
  mapped = [];
  output = [];
  intr = λ cpu. false;
}

-- The addresses of the tables.
abbrev tables : ℕ → Bool
tables a = ltb 4607 a && ltb a 8192

-- The scheduler gives CPU 0 a task, which then takes a page fault.
abbrev before : Kernel ℕ platform
before = os_init ℕ platform (record { context = λ t. 9; current = λ cpu. some 1 }) (λ a. 0)

abbrev kernel_of : Option (ℕ × Kernel ℕ platform) → Kernel ℕ platform
kernel_of none = kernel
kernel_of (some (ctx, k)) = k

abbrev running : Kernel ℕ platform
running = kernel_of (os_interrupt ℕ platform event_other 0 0 before)

abbrev faulted : Kernel ℕ platform
faulted = kernel_of (os_interrupt ℕ platform (event_pagefault 5000) 0 7 running)
