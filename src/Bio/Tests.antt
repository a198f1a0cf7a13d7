-- ===== src/Bio/Tests.antt =====
-- Two blocks are asked for and one is given back.
use os163_assi.Prelude.{◌≤◌, List, refl, arith}
use os163_assi.Bio.{Buf, bget, brelse, cached, mark_busy, recycle, unlink, binit}
use os163_assi.Bio.Unique.{copies, Reach, start, later, gets, releases, one_buffer}

used : (bufs : List Buf) × Reach bufs
unfolding bget cached recycle mark_busy unlink brelse binit
used = (
  _,
  later (later (later start (gets 1 7 (omega arith) refl)) (gets 1 8 (omega arith) refl))
      (releases 0 refl),
)

one_buffer_example : copies 1 7 used.0 ≤ 1
one_buffer_example = one_buffer 1 7 used.1 (omega arith)
