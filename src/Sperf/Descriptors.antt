-- ===== src/Sperf/Descriptors.antt =====
-- The pipe between the child and the parent of mycode/sperf.c: what `main` makes of the file
-- descriptors, from `pipe` to the execve of the child and the first fgets of the parent. The numbers
-- that the kernel gives for new descriptors are parameters.
pub mod Joined
use the_code_back_up_in_ubun.Base.{ℕ, Bool, true, false, Option, none, some, update}

-- What a descriptor is open on: a file that sperf was started with, an end of the pipe, or
-- /dev/null.
pub data File : Type 0 where
  given : ℕ → File
  read_end : File
  write_end : File
  null : File

-- The open descriptors of a process.
abbrev pub Table : Type 0
Table = ℕ → Option File

abbrev pub close : ℕ → Table → Table
close fd t = update t fd none

-- It fails, and changes nothing, if `from` is not open.
abbrev pub dup2 : ℕ → ℕ → Table → Table
dup2 from to t = elim (t from) [ none ↦ t | some file ↦ update t to (some file) ]

-- `pipe(fildes)`.
abbrev pub pipe : ℕ × ℕ → Table → Table
pipe fildes t = update (update t fildes.0 (some read_end)) fildes.1 (some write_end)

-- `int fd = open("/dev/null", O_WRONLY); dup2(fd, STDOUT_FILENO);`, `none` if it cannot be opened.
unfoldable pub mute : Option ℕ → Table → Table
mute none t = t
mute (some fd) t = dup2 fd 1 (update t fd (some null))

-- The child's branch up to the open: `close(fildes[0]); dup2(fildes[1], STDERR_FILENO);`.
unfoldable pub child_pipe : ℕ × ℕ → Table → Table
child_pipe fildes t = dup2 fildes.1 2 (close fildes.0 t)

-- The parent's branch: `close(fildes[1]); … dup2(fildes[0], STDIN_FILENO);`.
unfoldable pub parent_pipe : ℕ × ℕ → Table → Table
parent_pipe fildes t = dup2 fildes.0 0 (close fildes.1 t)

-- The tables of the child and of the parent, or `none` for exit(1): when `pipe` fails, which is `none`
-- for the new descriptors, or `fork` does.
unfoldable pub start_both : Option (ℕ × ℕ) → Bool → Option ℕ → Table → Option (Table × Table)
unfolding mute child_pipe parent_pipe
start_both none forks fd t = none
start_both (some fildes) false fd t = none
start_both (some fildes) true fd t =
    some (mute fd (child_pipe fildes (pipe fildes t)), parent_pipe fildes (pipe fildes t))
