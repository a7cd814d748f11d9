-- ===== src/Lib.antt =====
-- Course programs on operating systems (multi-threads, mycode, libco, tree): the parts of them
-- that carry state, and what makes them correct.
--
-- The programs share the header multi-threads/threads.h, which numbers threads, joins them at exit
-- and has a spin lock; otherwise each file is a program of its own.
--
-- Threads: `create`, `join` and `join_all` of multi-threads/threads.h. A thread is its number and
--   what is known of it; the list is newest first, as `head` is, and `join_all` is the sequence of
--   joins and frees that it makes, up to the join of a thread that does not return; which threads
--   return is a parameter.
-- Monitor: a loop of threads over a lock, condition variables and a quota, as multi-threads/brac.c
--   and multi-threads/fish.c have it: wait while blocked, enter, unlock, print, lock, leave, signal,
--   unlock. A thread's program counter is at one of these points, a step is one thread's move to the
--   next, and the schedule is any sequence of steps; a wait can also end with no signal. The record
--   `Monitor` is the interface: what a program puts into the loop. Monitor/Lock and Monitor/Gate have
--   the invariants of every such program, Monitor/Progress, Monitor/Schedule and
--   Monitor/Pace the moves.
-- Brac: multi-threads/brac.c (`test_producer`, `test_consumer`, `brac_before`, `brac_after`,
--   `brac_thread`, `main`) with its buffer and the temporary blocks byte by byte, over the string
--   functions of CString. malloc gives five bytes; the bytes that happen to lie behind them are the
--   parameter `extra`. The eight threads start with any interleaving.
-- Fish: multi-threads/fish.c (`next`, `fish_before`, `fish_after`, `fish_thread`, `main`), the
--   automaton of its rules and its twelve threads.
-- Hello: multi-threads/hello-mt.c and multi-threads/cur.c: `f`, whose `x++` is a load and a store that
--   other threads can come between, and `main`, which creates n threads and, when all have returned,
--   prints one line more. The joins are that last step.
-- FishDraft: os-midterm/fish.c, an earlier fish.c that counts in place of an automaton: `fish_init` and
--   `fish_after`, one call of it a function. rand() is a parameter. FishDraft/Midterm has its `main` and
--   `roles` and the threads.h beside it, which numbers threads from 0.
-- Sperf: mycode/sperf.c. The list functions append, sort, show by recursion on the list behind the
--   pointer, in Sperf/Child the child's branch, from the arguments to execve, whose files that
--   can be started are a parameter, and in Sperf/Trace the loop of `main` that reads the trace. The
--   pipe is a list of bytes, of which the calls of fgets deliver pieces of 299 bytes at most; clock()
--   is a function of the number of the call. Doubles is the interface to C's doubles: sum, order,
--   percentage and scan, with the laws of an order. The loop runs on fuel, as many rounds as the pipe
--   has pieces, each of which takes one piece at least. Sperf/Pieces has what fgets delivers. Sperf/Blocks has `Free`, on the heap.
--   Sperf/Descriptors has the descriptors of both processes, from `pipe` on; the numbers of new ones are
--   parameters.
--   Sperf/Nodes has append and sort on the nodes in memory, whose fields are functions of the address.
-- SpinLock: the spin locks of multi-threads/spinlock.c and multi-threads/threads.h, as steps of
--   threads over one word, around `sum++`. A thread that runs alone needs two rounds of fuel.
-- Producers: multi-threads/producer-consumer.c, its four threads as steps over two semaphores, which
--   are numbers, as POSIX has them.
-- Sums: multi-threads/sum.c, sum-atomic.c and bug.c: four threads that add to one number, each step of
--   theirs a load, a store, or both under the lock prefix, for any number of rounds.
-- Scheduler: the interrupt handlers of multi-threads/thread-os.c, multi-threads/thread-os-mp.c (its
--   copy thread-os-mp-full.c is the same text) and `schedule` of multi-threads/trivial-os.c. A task
--   is its index, a context a value of any type; an interrupt is a function of the CPU, the context
--   and the state. The search for a task has five rounds of fuel, one for each task.
--   Scheduler/Tasks has the loops of main that make the tasks.
--   Scheduler/Preempted has thread-os-mp.c as a whole: each CPU, from mp_entry on, runs `func` as its
--   current task, with the lock of SpinLock around the printf, and an interrupt comes between any two
--   accesses, printfs and rounds. The handler is one step, since it touches what is its CPU's alone.
-- TrivialOs: the rest of multi-threads/trivial-os.c: kalloc, the two files, os_init, page faults,
--   system calls and os_interrupt, which calls `schedule` of Scheduler, as functions of the CPU and
--   the state of the kernel, with the memory by its addresses. The rounding macros, the heap, the
--   page size, the contexts and the two program images are parameters, and so is what `_vme_init`,
--   `_protect` and `_map`, which take their blocks of kalloc, make of `brk` and of the memory. A page
--   fault is one step: the theorem on the pages is about one CPU.
--   TrivialOs/Calls has proc_syscall step by step under its lock, on the CPUs of the kernel, with the
--   interrupts that the flag of each CPU lets through.
-- LibCo: libco/co-first.c: the list of coroutines (`list_append`, `co_start`, `co_delete`) and
--   `rand_choose`, on an explicit heap: a coroutine is an address and a field of `struct co` a
--   function of the address. rand() is a parameter, the loops have fuel, and the length of the list
--   and two more is enough.
--   LibCo/Machine has the switches, `co_wait`, `co_yield` and `callback`, each up to the place where
--   control leaves the library: the call of a function, the entry of a new stack, a longjmp, or the
--   return. A saved context is the call of co_yield that set it; a block that was freed is unusable.
--   LibCo/Machine/Runs has every machine that calls lead to, when the main program waits for
--   coroutines of the list, coroutines do not wait, and the program gives no coroutine a name that
--   another one of the list has: co_start does not check that, and co_delete compares names.
--   LibCo/Returns has the return address on a new stack.
-- ArrayCo: libco/co.c, the coroutines in an array, with the same limits. rand() is a list of values,
--   and a loop that chooses goes on as long as the list. co_start is without its call of strcpy, which
--   has no arguments; set_ret_addr is in ArrayCo/Returns. A context is set, by setjmp, or not, and a
--   longjmp to one that is not set is no result.
-- Tree: tree/tree.c: the array of nodes as a memory of fields at their byte addresses, the loops that
--   link it (the same text for lib and lib_lite), findpeertail, buildtree, and main over what the
--   stack holds. findpeertail and buildtree have fuel, one more than the nodes of the tree is enough.
--   Tree/Children has the tree that the parents alone give.
-- CString: strlen, strcpy, strcat and strcmp on bytes, as the C standard has them, with the write
--   that leaves its block as a failure.
-- Base: tests, lists and families over the native numbers.
--
-- Not modelled: the kernel interface am.h, pthreads and the C library beyond what is named above;
-- the output of the programs other than the characters and lines named above; the assembly that
-- switches stacks; the excerpts of the kernel xv6 (multi-threads/spinlock-xv6.c, xv6-exec.c);
-- `fish_before` of os-midterm/fish.c, which does not compile; the demonstrations that print one
-- thing; and tree/pstree_source_code.c, a program of a third party.
pub mod ArrayCo
pub mod Base
pub mod CString
pub mod Doubles
pub mod Monitor
pub mod Threads
pub mod Fish
pub mod Hello
pub mod FishDraft
pub mod Brac
pub mod Sperf
pub mod SpinLock
pub mod Producers
pub mod Scheduler
pub mod LibCo
pub mod Sums
pub mod Tree
pub mod TrivialOs
