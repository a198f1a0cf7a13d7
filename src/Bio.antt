-- ===== src/Bio.antt =====
-- bio.c: the buffer cache. The linked list of buffers is a list in its order, the most recently used
-- first. The flags of a buffer are three truth values; its data is kept by the disk driver's requests,
-- which are not modelled. `bcache.lock` makes each pass one step.
pub mod Unique
mod Tests
use os163_assi.Prelude.{
  ℕ, zero, suc, Bool, true, false, not, ◌&&◌, ◌||◌, Option, none, some, List, [], ◌∷◌,
  if◌then◌else◌, ◌==◌, minus_one,
}

-- `struct buf`, named by its place in `bcache.buf`
pub record Buf : Type 0 where
  pub place : ℕ
  pub dev : ℕ
  pub blockno : ℕ
  pub busy : Bool
  pub valid : Bool
  pub dirty : Bool

abbrev pub nbuf : ℕ
nbuf = 30

-- `binit`: each buffer is put at the head in turn.
pub binit : ℕ → List Buf
binit zero = []
binit (suc n) =
    record { place = n; dev = minus_one; blockno = 0; busy = false; valid = false; dirty = false }
    ∷ binit n

abbrev pub is_for : ℕ → ℕ → Buf → Bool
is_for dev blockno b = b.dev == dev && b.blockno == blockno

-- The first loop of `bget`, forward from `head.next`.
pub cached : ℕ → ℕ → List Buf → Option Buf
cached dev blockno [] = none
cached dev blockno (b ∷ rest) = if is_for dev blockno b then some b else cached dev blockno rest

-- `b->flags |= B_BUSY`, at the buffer that the loop found
pub mark_busy : ℕ → ℕ → List Buf → List Buf
mark_busy dev blockno [] = []
mark_busy dev blockno (b ∷ rest) =
    if is_for dev blockno b then record b { busy = true } ∷ rest else b ∷ mark_busy dev blockno rest

recycle_here : ℕ → ℕ → Buf → List Buf → Option (List Buf) → Option (List Buf)
recycle_here dev blockno b rest (some rest') = some (b ∷ rest')
recycle_here dev blockno b rest none =
    if not b.busy && not b.dirty
    then some (
        record {
          place = b.place;
          dev = dev;
          blockno = blockno;
          busy = true;
          valid = false;
          dirty = false;
        }
        ∷ rest)
    else none

-- The second loop of `bget`, backward from `head.prev`: the last buffer that is neither busy nor
-- dirty.
pub recycle : ℕ → ℕ → List Buf → Option (List Buf)
unfolding recycle_here
recycle dev blockno [] = none
recycle dev blockno (b ∷ rest) = recycle_here dev blockno b rest (recycle dev blockno rest)

-- How a pass of `bget` ends: with the buffer for the block, which the caller holds, asleep on a
-- buffer, or in a panic.
pub data Got : Type 0 where
  got : List Buf → Got
  sleeps : (place : ℕ) → Got
  panics : Got

recycled : Option (List Buf) → Got
recycled none = panics
recycled (some bufs) = got bufs

bget_found : ℕ → ℕ → List Buf → Option Buf → Got
unfolding recycled
bget_found dev blockno bufs (some b) =
    if b.busy then sleeps b.place else got (mark_busy dev blockno bufs)
bget_found dev blockno bufs none = recycled (recycle dev blockno bufs)

-- `bget`, one pass from `loop`
pub bget : ℕ → ℕ → List Buf → Got
unfolding bget_found
bget dev blockno bufs = bget_found dev blockno bufs (cached dev blockno bufs)

-- The buffer at a place, and the list without it.
pub unlink : ℕ → List Buf → Option (Buf × List Buf)
unlink place [] = none
unlink place (b ∷ rest) = elim (b.place == place) [
  | true ↦ some (b, rest)
  | false ↦ elim (unlink place rest) [ none ↦ none | some (c, rest') ↦ some (c, b ∷ rest') ]
]

to_front : Option (Buf × List Buf) → Option (List Buf)
to_front none = none
to_front (some (b, rest)) = if b.busy then some (record b { busy = false } ∷ rest) else none

-- `brelse`; `none` is a panic.
pub brelse : ℕ → List Buf → Option (List Buf)
unfolding to_front
brelse place bufs = to_front (unlink place bufs)

-- The other two flags of a buffer, which `bwrite`, the disk driver and `log_write` change.
pub set_flags : ℕ → Bool → Bool → List Buf → List Buf
set_flags place valid dirty [] = []
set_flags place valid dirty (b ∷ rest) =
    (if b.place == place then record b { valid = valid; dirty = dirty } else b)
    ∷ set_flags place valid dirty rest
