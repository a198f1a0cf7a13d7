-- ===== src/Disk.antt =====
-- fs.c: the blocks of the file system and what is kept in them. A transaction sees each block as
-- `bread` and `log_write` give it, so the blocks are a function; the log makes the writes last.
pub mod Bits
pub mod Blocks
pub mod Writes
mod Tests
use mathlib.Core.Option
use os163_assi.Prelude.{
  ℕ, zero, suc, ◌+◌, ◌-◌, ◌*◌, ◌/◌, ◌%◌, ◌^◌, Bool, true, false, not, ◌&&◌, Option, none, some,
  if◌then◌else◌, ◌==◌, ltb, leb, update, find_first,
}

-- A block's bytes, by their places.
abbrev pub Block : Type 0
Block = ℕ → ℕ

abbrev pub bsize : ℕ
bsize = 512

-- Bits in a block of the free map.
abbrev pub bpb : ℕ
bpb = 4096

-- `sb.size` and `sb.bmapstart`, and the blocks of the device
pub record Disk : Type 0 where
  pub size : ℕ
  pub bmapstart : ℕ
  pub block : ℕ → Block

-- `m = 1 << (bi % 8)`
abbrev pub mask : ℕ → ℕ
mask bi = 2 ^ (bi % 8)

-- `(byte & m) != 0`, `byte | m` and `byte & ~m`, for a mask of one bit
pub is_set : ℕ → ℕ → Bool
is_set byte m = byte / m % 2 == 1

pub set_bit : ℕ → ℕ → ℕ
unfolding is_set
set_bit byte m = if is_set byte m then byte else byte + m

pub clear_bit : ℕ → ℕ → ℕ
unfolding is_set
clear_bit byte m = if is_set byte m then byte - m else byte

-- The byte of the free map for a block: `bp->data[bi/8]` in `BBLOCK(b, sb)`.
abbrev pub map_block : Disk → ℕ → ℕ
map_block d b = b / bpb + d.bmapstart

abbrev pub map_byte : Disk → ℕ → ℕ
map_byte d b = d.block (map_block d b) (b % bpb / 8)

unfoldable pub is_used : Disk → ℕ → Bool
unfolding is_set
is_used d b = is_set (map_byte d b) (mask (b % bpb))

abbrev pub put_byte : Disk → ℕ → ℕ → ℕ → Disk
put_byte d b i v = record d { block = update d.block b (update (d.block b) i v) }

-- `bzero`
abbrev pub bzero : ℕ → Disk → Disk
bzero b d = record d { block = update d.block b (λ i. 0) }

taken : Disk → Option ℕ → Option (ℕ × Disk)
unfolding set_bit
taken d none = none
taken d (some b) = some (
  b,
  bzero b (put_byte d (map_block d b) (b % bpb / 8) (set_bit (map_byte d b) (mask (b % bpb)))),
)

-- `balloc`: the two loops go through the numbers below `sb.size` in order. `none` is a panic.
pub balloc : Disk → Option (ℕ × Disk)
unfolding taken is_used
balloc d = taken d (find_first (λ b. not (is_used d b)) d.size 0)

-- `bfree`; `none` is a panic. It reads the superblock again, which does not change.
pub bfree : ℕ → Disk → Option Disk
unfolding is_used clear_bit
bfree b d =
    if not (is_used d b)
    then none
    else some (put_byte d (map_block d b) (b % bpb / 8) (clear_bit (map_byte d b) (mask (b % bpb))))
