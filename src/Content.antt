-- ===== src/Content.antt =====
-- fs.c: the contents of a file, in the blocks that `bmap` finds or allocates. The caller holds the
-- inode's lock and a transaction, so the inode and the blocks are passed along. What the log
-- answers to the `log_write` of each round of `writei` is an argument, as other operations fill it too;
-- for the calls of `log_write` by `balloc` it is taken to have room.
pub mod Word
pub mod Refs
pub mod Maps
pub mod Direct
pub mod Bmap
pub mod Read
pub mod Put
pub mod Round
pub mod Resize
pub mod Write
pub mod Back
pub mod Trunc
pub mod Tests
use os163_assi.Prelude.{
  ℕ, zero, suc, ◌+◌, ◌-◌, ◌*◌, ◌/◌, ◌%◌, ◌^◌, Bool, true, false, not, ◌&&◌, ◌||◌, Option, none,
  some, if◌then◌else◌, ◌==◌, ltb, leb, update, minus_one, add32,
}
use os163_assi.Disk.{Disk, Block, bsize, balloc}
use os163_assi.Inode.{Dinode}

abbrev pub ndirect : ℕ
ndirect = 12

abbrev pub nindirect : ℕ
nindirect = 128

-- `MAXFILE*BSIZE`
abbrev pub max_size : ℕ
max_size = 71680

-- `a[k]` for the block's data as an array of `uint`, and its assignment
pub word_at : Block → ℕ → ℕ
word_at a k = a (4 * k) + 256 * a (4 * k + 1) + 65536 * a (4 * k + 2) + 16777216 * a (4 * k + 3)

abbrev pub byte_of : ℕ → ℕ → ℕ
byte_of v i =
    if i == 0
    then v % 256
    else if i == 1
    then v / 256 % 256
    else if i == 2
    then v / 65536 % 256
    else v / 16777216 % 256

pub put_word : Block → ℕ → ℕ → Block
put_word a k v i = if i / 4 == k then byte_of v (i % 4) else a i

-- `if((addr = ip->addrs[k]) == 0) ip->addrs[k] = addr = balloc(ip->dev)`; `none` is a panic
stored : ℕ → Dinode → Option (ℕ × Disk) → Option (ℕ × Dinode × Disk)
stored k ip none = none
stored k ip (some (b, d)) = some (b, record ip { addrs = update ip.addrs k b }, d)

pub root_block : ℕ → Dinode → Disk → Option (ℕ × Dinode × Disk)
unfolding stored
root_block k ip d = if ip.addrs k == 0 then stored k ip (balloc d) else some (ip.addrs k, ip, d)

-- The entry `k` of the indirect block `addr`, allocated likewise
entered : ℕ → ℕ → Dinode → Option (ℕ × Disk) → Option (ℕ × Dinode × Disk)
entered addr k ip none = none
entered addr k ip (some (b, d)) =
    some (b, ip, record d { block = update d.block addr (put_word (d.block addr) k b) })

pub leaf_block : ℕ → Option (ℕ × Dinode × Disk) → Option (ℕ × Dinode × Disk)
unfolding entered
leaf_block k none = none
leaf_block k (some (addr, ip, d)) =
    let a = word_at (d.block addr) k in
    if a == 0 then entered addr k ip (balloc d) else some (a, ip, d)

-- `bmap`
pub bmap : Dinode → ℕ → Disk → Option (ℕ × Dinode × Disk)
unfolding root_block leaf_block
bmap ip bn d =
    if ltb bn ndirect
    then root_block bn ip d
    else if ltb (bn - ndirect) nindirect
    then leaf_block (bn - ndirect) (root_block ndirect ip d)
    else none

-- How `readi` and `writei` end: the result, the inode, the blocks and the caller's buffer.
pub data FileRun : Type 0 where
  returned : ℕ → Dinode → Disk → Block → FileRun
  panicked : FileRun
  starved : FileRun  -- out of fuel

-- `m = min(n - tot, BSIZE - off%BSIZE)`
abbrev pub chunk : ℕ → ℕ → ℕ
chunk left off = if ltb left (bsize - off % bsize) then left else bsize - off % bsize

-- `memmove` of `m` bytes, from the place `s` of one buffer to the place `t` of another
pub spliced : Block → ℕ → Block → ℕ → ℕ → Block
spliced dst t src s m i = if leb t i && ltb i (t + m) then src (s + (i - t)) else dst i

-- The loop of `readi`, with the bytes done and the place in the file
pub read_loop : ℕ → Dinode → Disk → Block → ℕ → ℕ → ℕ → FileRun
unfolding bmap spliced
read_loop zero ip d dst tot off n = if ltb tot n then starved else returned n ip d dst
read_loop (suc fuel) ip d dst tot off n = elim (ltb tot n) [
  | false ↦ returned n ip d dst
  | true ↦ elim (bmap ip (off / bsize) d) [
    | none ↦ panicked
    | some (b, ip', d') ↦
        let m = chunk (n - tot) off in
        read_loop fuel ip' d' (spliced dst tot (d'.block b) (off % bsize) m) (tot + m) (off + m) n
  ]
]

-- `readi` of an inode that is not a device
pub readi : Dinode → Disk → Block → ℕ → ℕ → FileRun
unfolding read_loop
readi ip d dst off n =
    if ltb ip.size off || ltb (add32 off n) off
    then returned minus_one ip d dst
    else if ltb ip.size (add32 off n)
    then read_loop (ip.size - off) ip d dst 0 off (ip.size - off)
    else read_loop n ip d dst 0 off n

-- The loop of `writei`, and the size behind it
abbrev pub resized : ℕ → ℕ → Dinode → Dinode
resized n off ip = if ltb 0 n && ltb ip.size off then record ip { size = off } else ip

-- The loop of `writei`. `room tot` says whether `log_write` finds room in the log in the round that
-- starts with the byte `tot` of the buffer; if not, it panics with "too big a transaction".
pub write_loop : (ℕ → Bool) → ℕ → Dinode → Disk → Block → ℕ → ℕ → ℕ → FileRun
unfolding bmap spliced
write_loop room zero ip d src tot off n =
    if ltb tot n then starved else returned n (resized n off ip) d src
write_loop room (suc fuel) ip d src tot off n = elim (ltb tot n) [
  | false ↦ returned n (resized n off ip) d src
  | true ↦ elim (bmap ip (off / bsize) d) [
    | none ↦ panicked
    | some (b, ip', d') ↦
        let m = chunk (n - tot) off in
        let rest =
          write_loop room fuel ip'
            (record d' { block = update d'.block b (spliced (d'.block b) (off % bsize) src tot m) })
            src (tot + m) (off + m) n in
        if room tot then rest else panicked
  ]
]

-- `writei` of an inode that is not a device, with what the log answers. The `iupdate` at the end is left
-- to the cache of inodes.
pub writei : (ℕ → Bool) → Dinode → Disk → Block → ℕ → ℕ → FileRun
unfolding write_loop
writei room ip d src off n =
    if ltb ip.size off || ltb (add32 off n) off
    then returned minus_one ip d src
    else if ltb max_size (add32 off n)
    then returned minus_one ip d src
    else write_loop room n ip d src 0 off n
