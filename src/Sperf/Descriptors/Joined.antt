-- ===== src/Sperf/Descriptors/Joined.antt =====
-- The two processes of sperf.c are joined by the pipe and by nothing else, whatever is open before.
use the_code_back_up_in_ubun.Base.{
  update, subst, Bool, false, ℕ, ◌≡◌, ◌≢◌, refl, true, Option, none, some, arith,
}
use the_code_back_up_in_ubun.Sperf.Descriptors.{
  File, read_end, write_end, null, Table, pipe, mute, close, dup2, child_pipe, parent_pipe,
  start_both,
}

-- The numbers of new descriptors are those of none that is open.
pub record Fresh (fildes : ℕ × ℕ) (fd : Option ℕ) (t : Table) : Type 0 where
  pub no_pipe : (x : ℕ) → (t x ≢ some read_end) × (t x ≢ some write_end)
  pub read_free : t fildes.0 ≡ none
  pub write_free : t fildes.1 ≡ none
  pub apart : fildes.0 ≢ fildes.1
  pub null_free : (n : ℕ) → fd ≡ some n → child_pipe fildes (pipe fildes t) n ≡ none

-- What the child has when it calls execve.
pub record ChildJoined (fildes : ℕ × ℕ) (fd : Option ℕ) (t child : Table) : Type 0 where
  pub writes : child 2 ≡ some write_end
  pub muted : fd ≢ none → child 1 ≡ some null
  pub reads_nowhere : (x : ℕ) → child x ≢ some read_end
  pub kept : (x : ℕ) → x ≢ 1 → x ≢ 2 → t x ≢ none → child x ≡ t x

-- What the parent has when it reads.
pub record ParentJoined (fildes : ℕ × ℕ) (t parent : Table) : Type 0 where
  pub reads : parent 0 ≡ some read_end
  pub writes_nowhere : (x : ℕ) → parent x ≢ some write_end
  pub kept : (x : ℕ) → x ≢ 0 → t x ≢ none → parent x ≡ t x

dup2_open :
    (from to : ℕ) (t : Table) (file : File)
    → t from ≡ some file
    → dup2 from to t ≡ update t to (some file)
dup2_open from to t file e = rw (e, dup2) refl

child_pipe_lem :
    (fildes : ℕ × ℕ) (t : Table)
    → fildes.0 ≢ fildes.1
    → child_pipe fildes (pipe fildes t) ≡ update (close fildes.0 (pipe fildes t)) 2 (some write_end)
unfolding child_pipe
child_pipe_lem fildes t ne =
    dup2_open fildes.1 2 (close fildes.0 (pipe fildes t)) write_end (ground arith)

mute_lem : (n : ℕ) (t : Table) → mute (some n) t ≡ update (update t n (some null)) 1 (some null)
unfolding mute
mute_lem n t = dup2_open n 1 (update t n (some null)) null (ground arith)

child_joined :
    (fildes : ℕ × ℕ) (fd : Option ℕ) (t : Table)
    → Fresh fildes fd t
    → ChildJoined fildes fd t (mute fd (child_pipe fildes (pipe fildes t)))
child_joined fildes none t f =
    unfold mute in
    rw (child_pipe_lem fildes t f.apart) record {
      writes = ground arith;
      muted = λ ne. absurd (ne refl);
      reads_nowhere = λ x. ground (arith, f.no_pipe x);
      kept = λ x ne ne' open_x. ground (arith, f.read_free, f.write_free);
    }
child_joined fildes (some n) t f =
    let free : update (close fildes.0 (pipe fildes t)) 2 (some write_end) n ≡ none =
      subst (λ s. s n ≡ none) (child_pipe_lem fildes t f.apart) (f.null_free n refl) in
    rw (mute_lem n (child_pipe fildes (pipe fildes t)), child_pipe_lem fildes t f.apart)
      record {
        writes = ground (arith, free);
        muted = λ ne. ground arith;
        reads_nowhere = λ x. ground (arith, f.no_pipe x);
        kept = λ x ne ne' open_x. ground (arith, f.read_free, f.write_free, free);
      }

parent_joined :
    (fildes : ℕ × ℕ) (fd : Option ℕ) (t : Table)
    → Fresh fildes fd t
    → ParentJoined fildes t (parent_pipe fildes (pipe fildes t))
unfolding parent_pipe
parent_joined fildes fd t f =
    let here : close fildes.1 (pipe fildes t) fildes.0 ≡ some read_end = ground (arith, f.apart) in
    rw (dup2_open fildes.0 0 (close fildes.1 (pipe fildes t)) read_end here) record {
      reads = ground arith;
      writes_nowhere = λ x. ground (arith, f.no_pipe x);
      kept = λ x ne open_x. ground (arith, f.read_free, f.write_free);
    }

-- Whatever descriptors are open when sperf.c starts, if the kernel gives new ones numbers that are
-- not open: the child's stderr is the pipe's end for writing, its stdout is /dev/null if that can
-- be opened, and it does not hold the end for reading; the parent's stdin is the end for reading,
-- and it does not hold the one for writing; every other descriptor that was open is as before; and
-- if pipe or fork fails, there are no such two processes.
pub start_both-joined :
    (fildes : ℕ × ℕ) (fd : Option ℕ) (t : Table)
    → Fresh fildes fd t
    → ((child : Table) × (parent : Table) × (start_both (some fildes) true fd t
          ≡ some (child, parent))
        × ChildJoined fildes fd t child
        × ParentJoined fildes t parent)
      × ((forks : Bool) → start_both none forks fd t ≡ none)
      × (start_both (some fildes) false fd t ≡ none)
unfolding start_both
start_both-joined fildes fd t f = (
  (
    mute fd (child_pipe fildes (pipe fildes t)),
    parent_pipe fildes (pipe fildes t),
    refl,
    child_joined fildes fd t f,
    parent_joined fildes fd t f,
  ),
  λ forks. refl,
  refl,
)
