-- ===== src/Inode.antt =====
-- fs.c: the cache of inodes. `icache.lock` makes each pass up to a `sleep` one step. The inode on the
-- disk that `ilock` reads is given, and what `iput` writes to the disk is not modelled here.
pub mod Unique
mod Tests
use os163_assi.Prelude.{
  ℕ, zero, suc, ◌+◌, Bool, true, false, not, ◌&&◌, ◌||◌, Option, none, some, List, [], ◌∷◌,
  if◌then◌else◌, ◌==◌, update, find_first, add32, sub32, is_neg, replicate,
}

-- `struct dinode`
pub record Dinode : Type 0 where
  pub itype : ℕ
  pub major : ℕ
  pub minor : ℕ
  pub nlink : ℕ
  pub size : ℕ
  pub addrs : ℕ → ℕ

-- `struct inode`; `busy` and `valid` are the bits of `flags`.
pub record Inode : Type 0 where
  pub dev : ℕ
  pub inum : ℕ
  pub ref : ℕ
  pub busy : Bool
  pub valid : Bool
  pub copy : Dinode

abbrev pub ninode : ℕ
ninode = 50

-- `icache.inode`
abbrev pub Cache : Type 0
Cache = ℕ → Inode

-- `ip->ref > 0`, of an `int`
abbrev pub in_use : ℕ → Bool
in_use ref = not (ref == 0) && not (is_neg ref)

abbrev pub is_inode : ℕ → ℕ → Inode → Bool
is_inode dev inum ip = in_use ip.ref && (ip.dev == dev && ip.inum == inum)

-- `iget` once the cache was searched for the inode, and for an empty place. `none` is a panic.
got : ℕ → ℕ → Cache → Option ℕ → Option ℕ → Option (ℕ × Cache)
got dev inum c (some i) empty = some (i, update c i (record (c i) { ref = add32 (c i).ref 1 }))
got dev inum c none none = none
got dev inum c none (some i) =
    some (
      i,
      update c i (record (c i) { dev = dev; inum = inum; ref = 1; busy = false; valid = false }),
    )

-- `iget`
pub iget : ℕ → ℕ → Cache → Option (ℕ × Cache)
unfolding got
iget dev inum c =
    got dev inum c (find_first (λ i. is_inode dev inum (c i)) ninode 0)
      (find_first (λ i. (c i).ref == 0) ninode 0)

-- `idup`
pub idup : ℕ → Cache → Cache
idup i c = update c i (record (c i) { ref = add32 (c i).ref 1 })

-- How a pass ends of a call on one inode.
pub data Pass : Type 0 where
  done : Cache → Pass
  truncates : Cache → Pass  -- the caller goes on to free the inode, without `icache.lock`
  sleeps : Pass
  panics : Pass

-- The rest of `ilock` with the lock: the copy is read from the disk, unless it is valid.
locked : ℕ → Dinode → Cache → Pass
locked i on_disk c =
    if (c i).valid
    then done (update c i (record (c i) { busy = true }))
    else if on_disk.itype == 0
    then panics
    else done (update c i (record (c i) { busy = true; valid = true; copy = on_disk }))

-- `ilock` of the entry `i`, up to its end or its `sleep`
pub ilock : ℕ → Dinode → Cache → Pass
unfolding locked
ilock i on_disk c =
    if not (in_use (c i).ref) then panics else if (c i).busy then sleeps else locked i on_disk c

-- `iunlock`
pub iunlock : ℕ → Cache → Pass
iunlock i c =
    if not (c i).busy || not (in_use (c i).ref)
    then panics
    else done (update c i (record (c i) { busy = false }))

-- The copy that `itrunc` and `ip->type = 0` leave.
abbrev pub cleared : Dinode → Dinode
cleared d = record d { itype = 0; size = 0; addrs = λ n. 0 }

-- `iput`, up to its end or to the truncation of an inode without links.
pub iput : ℕ → Cache → Pass
iput i c =
    if (c i).ref == 1 && ((c i).valid && (c i).copy.nlink == 0)
    then if (c i).busy then panics else truncates (update c i (record (c i) { busy = true }))
    else done (update c i (record (c i) { ref = sub32 (c i).ref 1 }))

-- The end of `iput` behind the truncation.
pub iput_ends : ℕ → Cache → Cache
iput_ends i c = update c i (record (c i) {
  ref = sub32 (c i).ref 1;
  busy = false;
  valid = false;
  copy = cleared (c i).copy;
})
