-- ===== src/Files.antt =====
-- file.c, and from sysfile.c and proc.c the calls that keep file descriptors: the table of open
-- files, with a count of the descriptors that lead to each. A call is one step, as it is for a process
-- of one thread; threads of one process share the descriptors without a lock. Counts are plain
-- numbers: there are 64 times 16 descriptors, far fewer than 2 ^ 31. What a closed pipe or inode does
-- next is up to its component.
pub mod Table
pub mod Users
pub mod Calls
pub mod Exact
mod Tests
use mathlib.Core.Option
use os163_assi.Prelude.{
  ℕ, zero, suc, ◌+◌, ◌-◌, Bool, true, false, ◌&&◌, Option, none, some, List, [], ◌∷◌, if◌then◌else◌,
  ◌==◌, ltb, leb, get_elem?, set, update, minus_one, replicate,
}

pub data FileType : Type 0 where
  fd_none fd_pipe fd_inode : FileType

-- `struct file`
pub record File : Type 0 where
  pub ftype : FileType
  pub ref : ℕ
  pub readable : Bool
  pub writable : Bool
  pub pipe : ℕ
  pub ip : ℕ
  pub off : ℕ

-- `filealloc`: the first file without a reference.
filealloc_from : List File → ℕ → Option (ℕ × File)
filealloc_from [] i = none
filealloc_from (f ∷ rest) i = if f.ref == 0 then some (i, f) else filealloc_from rest (suc i)

allocated : List File → Option (ℕ × File) → Option (ℕ × List File)
allocated files none = none
allocated files (some (i, f)) = some (i, set files i (record f { ref = 1 }))

pub filealloc : List File → Option (ℕ × List File)
unfolding filealloc_from allocated
filealloc files = allocated files (filealloc_from files 0)

-- `filedup`; `none` is a panic.
dup_at : List File → ℕ → Option File → Option (List File)
dup_at files i none = none
dup_at files i (some f) =
    if ltb f.ref 1 then none else some (set files i (record f { ref = f.ref + 1 }))

pub filedup : ℕ → List File → Option (List File)
unfolding dup_at
filedup i files = dup_at files i (get_elem? files i)

-- `fileclose`; `none` is a panic. The value beside the table is the copy of the file, whose pipe or
-- inode is closed next, if this was its last reference.
close_at : List File → ℕ → Option File → Option (Option File × List File)
close_at files i none = none
close_at files i (some f) =
    if ltb f.ref 1
    then none
    else if ltb 0 (f.ref - 1)
    then some (none, set files i (record f { ref = f.ref - 1 }))
    else some
        (some (record f { ref = f.ref - 1 }), set files i (record f { ref = 0; ftype = fd_none }))

pub fileclose : ℕ → List File → Option (Option File × List File)
unfolding close_at
fileclose i files = close_at files i (get_elem? files i)

abbrev pub nofile : ℕ
nofile = 16

abbrev pub nfile : ℕ
nfile = 100

-- `fdalloc`: the first free descriptor of a process takes the file.
fdalloc_from : List (Option ℕ) → ℕ → Option ℕ
fdalloc_from [] fd = none
fdalloc_from (none ∷ rest) fd = some fd
fdalloc_from (some j ∷ rest) fd = fdalloc_from rest (suc fd)

pub fdalloc : List (Option ℕ) → Option ℕ
unfolding fdalloc_from
fdalloc ofile = fdalloc_from ofile 0

-- `ftable`, and `ofile` of each process, as indices of the table.
pub record System : Type 0 where
  pub files : List File
  pub ofile : ℕ → List (Option ℕ)

-- `argfd`; a negative descriptor is a number above 15 here.
fd_entry : Option (Option ℕ) → Option ℕ
fd_entry none = none
fd_entry (some e) = e

pub argfd : System → ℕ → ℕ → Option ℕ
unfolding fd_entry
argfd s p fd = if leb nofile fd then none else fd_entry (get_elem? (s.ofile p) fd)

-- `proc->ofile[fd] = f;`
abbrev pub put_fd : System → ℕ → ℕ → Option ℕ → System
put_fd s p fd e = record s { ofile = update s.ofile p (set (s.ofile p) fd e) }

-- `sys_dup` and `sys_close` touch the descriptors and then the file table, and hold no lock over both:
-- other processes run in between. `sys_dup` up to `fdalloc`, with the file and its new descriptor; none
-- where it returns -1.
dup_into : System → ℕ → ℕ → Option ℕ → Option (ℕ × ℕ × System)
dup_into s p i none = none
dup_into s p i (some fd) = some (i, fd, put_fd s p fd (some i))

dup_found : System → ℕ → Option ℕ → Option (ℕ × ℕ × System)
unfolding dup_into
dup_found s p none = none
dup_found s p (some i) = dup_into s p i (fdalloc (s.ofile p))

pub dup_begin : ℕ → ℕ → System → Option (ℕ × ℕ × System)
unfolding dup_found
dup_begin p fd s = dup_found s p (argfd s p fd)

-- `filedup(f)` of `sys_dup`; here and below none is a panic.
pub dup_end : ℕ → System → Option System
dup_end i s = Option.map (λ files'. record s { files = files' }) (filedup i s.files)

-- `sys_close` up to `proc->ofile[fd] = 0`, with the file; none where it returns -1.
close_found : System → ℕ → ℕ → Option ℕ → Option (ℕ × System)
close_found s p fd none = none
close_found s p fd (some i) = some (i, put_fd s p fd none)

pub close_begin : ℕ → ℕ → System → Option (ℕ × System)
unfolding close_found
close_begin p fd s = close_found s p fd (argfd s p fd)

-- `fileclose(f)` of `sys_close`
pub close_end : ℕ → System → Option System
close_end i s = Option.map (λ res. record s { files = res.1 }) (fileclose i s.files)

-- How `sys_open` fills the file in.
pub fill_in : ℕ → Bool → Bool → List File → ℕ → Option File → List File
fill_in ip readable writable files i none = files
fill_in ip readable writable files i (some f) =
    set files i
      (record f { ftype = fd_inode; ip = ip; off = 0; readable = readable; writable = writable })

-- With the file allocated: without a free descriptor the file is closed again.
open_with : ℕ → Bool → Bool → ℕ → System → ℕ → List File → Option ℕ → Option (ℕ × System)
open_with ip readable writable p s i files' none =
    Option.map (λ res. (minus_one, record s { files = res.1 })) (fileclose i files')
open_with ip readable writable p s i files' (some fd) = some (
  fd,
  record (put_fd s p fd (some i)) {
    files = fill_in ip readable writable files' i (get_elem? files' i);
  },
)

open_alloc : ℕ → Bool → Bool → ℕ → System → Option (ℕ × List File) → Option (ℕ × System)
unfolding open_with
open_alloc ip readable writable p s none = some (minus_one, s)
open_alloc ip readable writable p s (some (i, files')) =
    open_with ip readable writable p s i files' (fdalloc (s.ofile p))

-- `sys_open` from `filealloc` on, once the inode `ip` was found.
pub sys_open : ℕ → Bool → Bool → ℕ → System → Option (ℕ × System)
unfolding open_alloc
sys_open ip readable writable p s = open_alloc ip readable writable p s (filealloc s.files)

-- The loop of `fork` and `cow_fork`: the child has the descriptors of the parent.
pub dup_all : List (Option ℕ) → List File → Option (List File)
unfolding Option.bind
dup_all [] files = some files
dup_all (none ∷ rest) files = dup_all rest files
dup_all (some i ∷ rest) files = Option.bind (filedup i files) (dup_all rest)

-- The loop of `exit`.
pub close_all : List (Option ℕ) → List File → Option (List File)
unfolding Option.bind
close_all [] files = some files
close_all (none ∷ rest) files = close_all rest files
close_all (some i ∷ rest) files = Option.bind (fileclose i files) (λ res. close_all rest res.1)

-- `fork` of the process `p` into the process slot `child`, which has no open files since it exited.
pub fork_files : ℕ → ℕ → System → Option System
unfolding dup_all
fork_files p child s =
    Option.map (λ files'. record { files = files'; ofile = update s.ofile child (s.ofile p) })
      (dup_all (s.ofile p) s.files)

pub exit_files : ℕ → System → Option System
unfolding close_all
exit_files p s =
    Option.map
      (λ files'. record { files = files'; ofile = update s.ofile p (replicate nofile none) })
      (close_all (s.ofile p) s.files)

abbrev pub no_file : File
no_file = record {
  ftype = fd_none;
  ref = 0;
  readable = false;
  writable = false;
  pipe = 0;
  ip = 0;
  off = 0;
}

-- After boot.
abbrev pub boot : System
boot = record { files = replicate nfile no_file; ofile = λ p. replicate nofile none }
