-- ===== src/TrivialOs/Calls/Excluded.antt =====
-- The lock of proc_syscall in trivial-os.c excludes, and its holder is never interrupted.
use the_code_back_up_in_ubun.Base.{
  ℕ, ◌+◌, ◌%◌, ◌<◌, ◌≤◌, ◌≡◌, refl, true, false, some, [], ◌∷◌, ◌++◌, All, update, update_self,
  arith,
}
use the_code_back_up_in_ubun.SpinLock.{unlock}
use the_code_back_up_in_ubun.TrivialOs.{Platform}
use the_code_back_up_in_ubun.TrivialOs.Calls.{
  opened, located, spinning, acquired, printed, released, leaving, Context, booting, in_user,
  in_call, Machine, call_step, Reached,
}
use the_code_back_up_in_ubun.TrivialOs.Calls.Stages.{inside, masked, IsLine, at}
use native.Mathlib.Nat.{mod-lt}
use the_code_back_up_in_ubun.TrivialOs.Calls.Traps.{Reached-Inv}

module _ {U : Type 0} (p : Platform (Context U)) where
  -- Steps of the system call on one CPU, with nothing between them.
  pub data Alone (cpu : ℕ) (m : Machine p) : Machine p → Type 0 where
    stays : Alone cpu m m
    goes :
        (m' m'' : Machine p)
        → Alone cpu m m'
        → call_step p cpu (m'.running cpu) m' ≡ some m''
        → Alone cpu m m''

  inside-masked : (c : Context U) → inside c ≡ true → masked c ≡ true
  inside-masked booting e = cc
  inside-masked (in_user u) e = cc
  inside-masked (in_call u opened) e = cc
  inside-masked (in_call u (located pa)) e = cc
  inside-masked (in_call u (spinning pa)) e = cc
  inside-masked (in_call u (acquired pa)) e = refl
  inside-masked (in_call u printed) e = refl
  inside-masked (in_call u released) e = cc
  inside-masked (in_call u leaving) e = cc

  -- A holder of the lock frees it.
  printed_frees :
      (m : Machine p) (cpu : ℕ) (u : U)
      → m.running cpu ≡ in_call u printed
      → (m' : Machine p) × (call_step p cpu (m.running cpu) m ≡ some m') × (m'.lock ≡ 0)
  unfolding call_step unlock
  printed_frees m cpu u e = (
    record m { running = update m.running cpu (in_call u released); lock = 0 },
    rw (e, call_step) refl,
    refl,
  )

  frees :
      (m : Machine p) (cpu t : ℕ) (c : Context U)
      → m.kernel.sched.current cpu ≡ some t
      → m.running cpu ≡ c
      → inside c ≡ true
      → (m' : Machine p) × Alone cpu m m' × (m'.lock ≡ 0)
  unfolding call_step
  frees m cpu t booting now e ins = cc
  frees m cpu t (in_user u) now e ins = cc
  frees m cpu t (in_call u opened) now e ins = cc
  frees m cpu t (in_call u (located pa)) now e ins = cc
  frees m cpu t (in_call u (spinning pa)) now e ins = cc
  frees m cpu t (in_call u released) now e ins = cc
  frees m cpu t (in_call u leaving) now e ins = cc
  frees m cpu t (in_call u printed) now e ins =
      let (m', step, free) = printed_frees m cpu u e in (m', goes m m' stays step, free)
  frees m cpu t (in_call u (acquired pa)) now e ins =
      let m1 : Machine p = record m {
        kernel = record m.kernel {
          output = m.kernel.output ++ record { process = t + 1; cpu = cpu; string = pa } ∷ [];
        };
        running = update m.running cpu (in_call u printed);
      } in
      let one : call_step p cpu (m.running cpu) m ≡ some m1 = rw (e, now, call_step) refl in
      let (m', step, free) =
        printed_frees m1 cpu u (update_self m.running cpu (in_call u printed)) in
      (m', goes m1 m' (goes m m1 stays one) step, free)

  -- In every machine that trivial-os.c leads to, with one to five CPUs and its system calls step by
  -- step among the interrupts: two tasks between the exchanges of spin_lock and spin_unlock are one,
  -- and the lock is 1 if one is there; a task whose call has turned the interrupts off is current on
  -- its CPU, with the interrupts of this CPU off; if the lock is 1, one CPU runs the holder so, and
  -- frees the lock by steps of its own with nothing between them; and each line of the output has the
  -- number of one of the five tasks and that task's CPU.
  pub calls_exclude :
      1 ≤ p.ncpu
      → p.ncpu ≤ 5
      → ((t : ℕ) → (u : U) × (p.ucontext t ≡ in_user u))
      → (m : Machine p) → Reached p m
      → ((t u : ℕ) → t < 5 → u < 5 → inside (at p m t) ≡ true → inside (at p m u) ≡ true → t ≡ u)
        × ((t : ℕ) → t < 5 → inside (at p m t) ≡ true → m.lock ≡ 1)
        × ((t : ℕ)
            → t < 5
            → masked (at p m t) ≡ true
            → (m.kernel.sched.current (t % p.ncpu) ≡ some t) × (m.kernel.intr (t % p.ncpu) ≡ false))
        × (m.lock ≡ 1
            → (cpu : ℕ) × (cpu < p.ncpu)
              × (inside (m.running cpu) ≡ true)
              × (m.kernel.intr cpu ≡ false)
              × ((m' : Machine p) × Alone cpu m m' × (m'.lock ≡ 0)))
        × All (IsLine p.ncpu) m.kernel.output
  calls_exclude some_cpu le programs m r =
      let h = Reached-Inv p some_cpu programs le m r in
      (
        h.guarded.unique,
        h.guarded.taken,
        h.quiet,
        λ taken.
            let (t, lt, ins) = h.guarded.held taken in
            let (now, off) = h.quiet t lt (inside-masked (at p m t) ins) in
            let runs : m.running (t % p.ncpu) ≡ at p m t = ground (arith, now) in
            let ins' : inside (m.running (t % p.ncpu)) ≡ true = rw runs ins in
            (
              t % p.ncpu,
              mod-lt t some_cpu,
              ins',
              off,
              frees m (t % p.ncpu) t (m.running (t % p.ncpu)) now refl ins',
            ),
        h.lines,
      )
