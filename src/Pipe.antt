-- ===== src/Pipe.antt =====
-- pipe.c: a pipe is a ring of 512 bytes with two counters that run on modulo 2 ^ 32. `p->lock` makes
-- each pass from one `sleep` to the next one step; `sleep` gives the lock up, so a pass ends there,
-- and the loop that it stands in is entered again when the thread runs on.
pub mod Queue
pub mod Stream
pub mod Flow
mod Tests
use os163_assi.Prelude.{
  ℕ, zero, suc, ◌+◌, ◌-◌, ◌%◌, Bool, true, false, not, ◌&&◌, ◌||◌, Option, none, some, List, [],
  ◌∷◌, ◌++◌, if◌then◌else◌, ◌==◌, get_or, set, add32, sub32, length, minus_one,
}

abbrev pub pipesize : ℕ
pipesize = 512

-- `struct pipe`
pub record Pipe : Type 0 where
  pub bytes : List ℕ
  pub nread : ℕ
  pub nwrite : ℕ
  pub readopen : Bool
  pub writeopen : Bool

-- `pipealloc`, of the pipe itself; the page that `kalloc` returned holds what it held.
pub fresh : List ℕ → Pipe
fresh bytes = record { bytes = bytes; nread = 0; nwrite = 0; readopen = true; writeopen = true }

-- The two places where threads sleep: `&p->nread` and `&p->nwrite`.
pub data Chan : Type 0 where
  nread_chan nwrite_chan : Chan

-- What `pipeclose` leaves: the pipe or, once both ends are closed, nothing, and whom it wakes.
pub record Closed : Type 0 where
  pub pipe : Pipe
  pub freed : Bool
  pub wakes : Chan

-- `pipeclose`
pub close : Bool → Pipe → Closed
close true p =
    let p' = record p { writeopen = false } in
    record { pipe = p'; freed = not p'.readopen && not p'.writeopen; wakes = nread_chan }
close false p =
    let p' = record p { readopen = false } in
    record { pipe = p'; freed = not p'.readopen && not p'.writeopen; wakes = nwrite_chan }

abbrev pub is_full : Pipe → Bool
is_full p = p.nwrite == add32 p.nread pipesize

abbrev pub is_empty : Pipe → Bool
is_empty p = p.nread == p.nwrite

-- `p->data[p->nwrite++ % PIPESIZE] = c;`
pub put : Pipe → ℕ → Pipe
put p c = record p { bytes = set p.bytes (p.nwrite % pipesize) c; nwrite = add32 p.nwrite 1 }

-- How a pass through `pipewrite` ends: it returns the count of its bytes, it returns -1, or it sleeps on
-- `&p->nwrite`; in the last two cases with the bytes from `addr[i]` on, which it has not written.
pub data Written : Type 0 where
  wrote : Written
  refused : List ℕ → Written
  sleeping : List ℕ → Written

-- The loop of `pipewrite` over the bytes that are left, up to its end or the next `sleep`.
pub write : Bool → List ℕ → Pipe → Written × Pipe
unfolding put
write killed [] p = (wrote, p)
write killed (c ∷ rest) p =
    let further = write killed rest (put p c) in
    if is_full p
    then if not p.readopen || killed then (refused (c ∷ rest), p) else (sleeping (c ∷ rest), p)
    else further

-- `p->data[p->nread++ % PIPESIZE]`
pub next : Pipe → ℕ
next p = get_or p.bytes (p.nread % pipesize) 0

pub advance : Pipe → Pipe
advance p = record p { nread = add32 p.nread 1 }

-- Whom a pass of `pipewrite` wakes before it sleeps or returns.
pub write_wakes : Written → Option Chan
write_wakes wrote = some nread_chan
write_wakes (refused rest) = none
write_wakes (sleeping rest) = some nread_chan

-- `for(i = 0; i < n; i++)` of `piperead`, with the bytes that it copies out
pub copy : ℕ → Pipe → List ℕ × Pipe
unfolding next advance
copy zero p = ([], p)
copy (suc n) p =
    let further = copy n (advance p) in
    if is_empty p then ([], p) else (next p ∷ further.0, further.1)

-- How a pass through `piperead` ends: with the bytes read, with -1, or asleep on `&p->nread`.
pub data Reading : Type 0 where
  got : List ℕ → Reading
  interrupted : Reading
  waits : Reading

-- `piperead` of `n` bytes, up to its end or the next `sleep`
pub read : Bool → ℕ → Pipe → Reading × Pipe
unfolding copy
read killed n p =
    if is_empty p && p.writeopen
    then if killed then (interrupted, p) else (waits, p)
    else (got (copy n p).0, (copy n p).1)

-- Whom a pass of `piperead` wakes.
pub read_wakes : Reading → Option Chan
read_wakes (got out) = some nwrite_chan
read_wakes interrupted = none
read_wakes waits = none
