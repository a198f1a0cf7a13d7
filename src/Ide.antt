-- ===== src/Ide.antt =====
-- ide.c: the queue of disk requests. `idelock` makes `ideintr` one step, and `iderw` up to its `sleep`.
-- A buffer is named by its number; the queue through `qnext` is the list of buffers. The disk is the
-- list of the commands that it got; what it returns is an argument of the interrupt.
pub mod History
pub mod Fifo
mod Tests
use os163_assi.Prelude.{
  ℕ, zero, suc, ◌+◌, ◌-◌, ◌*◌, ◌/◌, ◌%◌, Bool, true, false, not, ◌&&◌, ◌||◌, Option, none, some,
  List, [], ◌∷◌, ◌++◌, if◌then◌else◌, ◌==◌, leb, update,
}
use os163_assi.Kalloc.{Run, done, panicked}

-- The fields of `struct buf` that the driver uses
pub record DiskBuf : Type 0 where
  pub busy : Bool
  pub valid : Bool
  pub dirty : Bool
  pub dev : ℕ
  pub blockno : ℕ
  pub bytes : List ℕ

-- What `idestart` writes to the ports 0x1f3 to 0x1f6, and the bytes of a write
pub record Command : Type 0 where
  pub low : ℕ
  pub middle : ℕ
  pub high : ℕ
  pub drive : ℕ
  pub out : Option (List ℕ)

-- `idequeue`, the buffers, the commands with the buffers they are for, and the buffers that
-- `wakeup` was called for.
pub record Ide : Type 0 where
  pub queue : List ℕ
  pub bufs : ℕ → DiskBuf
  pub started : List (ℕ × Command)
  pub woken : List ℕ

abbrev pub fssize : ℕ
fssize = 1000

-- One sector holds a block.
pub command : DiskBuf → Command
command b = record {
  low = b.blockno % 256;
  middle = b.blockno / 256 % 256;
  high = b.blockno / 65536 % 256;
  drive = 0xe0 + b.dev % 2 * 16 + b.blockno / 16777216 % 16;
  out = if b.dirty then some b.bytes else none;
}

pub idestart : ℕ → Ide → Run Ide (Unit {0})
unfolding command
idestart b s =
    if leb fssize (s.bufs b).blockno
    then panicked
    else done tt (record s { started = s.started ++ ((b, command (s.bufs b)) ∷ []) })

start_first : List ℕ → Ide → Run Ide (Unit {0})
unfolding idestart
start_first [] s = done tt s
start_first (b ∷ queue) s = idestart b s

-- `ideintr`: whether `idewait(1)` finds no error, and the bytes that the disk then has
serve : Bool → List ℕ → List ℕ → Ide → Run Ide (Unit {0})
unfolding start_first
serve ok incoming [] s = done tt s
serve ok incoming (b ∷ queue) s =
    let old = s.bufs b in
    let new = record old {
      bytes = if not old.dirty && ok then incoming else old.bytes;
      valid = true;
      dirty = false;
    } in
    start_first queue
      (record s { queue = queue; bufs = update s.bufs b new; woken = s.woken ++ (b ∷ []) })

pub ideintr : Bool → List ℕ → Ide → Run Ide (Unit {0})
unfolding serve
ideintr ok incoming s = serve ok incoming s.queue s

is_first : ℕ → List ℕ → Bool
is_first b [] = false
is_first b (k ∷ queue) = k == b

-- `iderw` up to its `sleep`; `havedisk1` is what `ideinit` found.
pub iderw : Bool → ℕ → Ide → Run Ide (Unit {0})
unfolding idestart is_first
iderw havedisk1 b s =
    let queue = s.queue ++ (b ∷ []) in
    let s' = record s { queue = queue } in
    let buf = s.bufs b in
    if not buf.busy || (buf.valid && not buf.dirty) || (not (buf.dev == 0) && not havedisk1)
    then panicked
    else if is_first b queue
    then idestart b s'
    else done tt s'

-- The test of the loop of `iderw` around its `sleep`
pub is_done : DiskBuf → Bool
is_done b = b.valid && not b.dirty
