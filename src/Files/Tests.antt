-- ===== src/Files/Tests.antt =====
-- A history of files: process 0 opens a file, duplicates its descriptor and forks process 1. Then
-- process 1 starts to duplicate a descriptor, and process 0 to close one.
use os163_assi.Prelude.{◌≡◌, ◌+◌, refl, arith, true}
use os163_assi.Files.{
  filealloc, filedup, fdalloc, argfd, dup_begin, dup_end, close_begin, sys_open, fork_files,
  dup_all, fill_in,
}
use os163_assi.Files.Table.{ref_of}
use os163_assi.Files.Users.{Running}
use os163_assi.Files.Exact.{
  Reach, start, later, dup_begins, dup_ends, close_begins, opens, forks, users, dups_open,
  closes_open, Calm, counts_are_exact, calls_never_panic,
}

half_done : (c : Running) × Reach c × (ref_of c.sys.files 0 ≡ 4)
unfolding filealloc filedup fdalloc argfd dup_begin dup_end close_begin sys_open fork_files dup_all
    fill_in
half_done = (
  _,
  later
      (later
        (later
          (later
            (later (later start (opens 0 7 _ true true (omega arith) refl refl))
              (dup_begins 0 0 _ _ (omega arith) refl refl))
            (dup_ends 0 _ _ (omega arith) refl refl))
          (forks 0 1 (omega arith) (omega arith) refl refl refl refl))
        (dup_begins 1 0 _ _ (omega arith) refl refl))
      (close_begins 0 1 _ (omega arith) refl refl),
  refl,
)

counts_are_exact_example :
    ref_of half_done.0.sys.files 0 + dups_open 0 half_done.0
    ≡ users 0 half_done.0 + closes_open 0 half_done.0
counts_are_exact_example = counts_are_exact 0 half_done.1

calls_never_panic_example : Calm half_done.0 1
calls_never_panic_example = calls_never_panic 1 half_done.1 (omega arith)
