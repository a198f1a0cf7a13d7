-- ===== src/Content/Trunc.antt =====
-- fs.c: `itrunc` gives the blocks of a file back.
pub mod Gone
pub mod Frees
pub mod Whole
use os163_assi.Prelude.{ℕ, zero, suc, ◌+◌, Bool, true, false, Option, none, some, ◌==◌, update}
use os163_assi.Disk.{Disk, bfree}
use os163_assi.Inode.{Dinode}
use os163_assi.Content.{word_at}

-- `if(ip->addrs[i]){ bfree(ip->dev, ip->addrs[i]); ip->addrs[i] = 0; }`; `none` is a panic
dropped : ℕ → Dinode → Option Disk → Option (Dinode × Disk)
dropped i ip none = none
dropped i ip (some d) = some (record ip { addrs = update ip.addrs i 0 }, d)

pub drop_block : ℕ → Dinode → Disk → Option (Dinode × Disk)
unfolding dropped
drop_block i ip d = elim (ip.addrs i == 0) [
  | true ↦ some (ip, d)
  | false ↦ dropped i ip (bfree (ip.addrs i) d)
]

-- The loop over the direct blocks, for `n` rounds from `i` on
pub drop_direct : ℕ → ℕ → Dinode → Disk → Option (Dinode × Disk)
unfolding drop_block
drop_direct zero i ip d = some (ip, d)
drop_direct (suc n) i ip d = elim (drop_block i ip d) [
  | none ↦ none
  | some (ip', d') ↦ drop_direct n (suc i) ip' d'
]

-- `if(a[j]) bfree(ip->dev, a[j]);` for the indirect block `root`
pub drop_entry : ℕ → ℕ → Disk → Option Disk
drop_entry j root d = elim (word_at (d.block root) j == 0) [
  | true ↦ some d
  | false ↦ bfree (word_at (d.block root) j) d
]

pub drop_entries : ℕ → ℕ → ℕ → Disk → Option Disk
unfolding drop_entry
drop_entries zero j root d = some d
drop_entries (suc n) j root d = elim (drop_entry j root d) [
  | none ↦ none
  | some d' ↦ drop_entries n (suc j) root d'
]

-- The indirect block behind its entries
drop_root : Dinode → Option Disk → Option (Dinode × Disk)
unfolding drop_block
drop_root ip none = none
drop_root ip (some d) = drop_block 12 ip d

drop_indirect : Option (Dinode × Disk) → Option (Dinode × Disk)
unfolding drop_root drop_entries
drop_indirect none = none
drop_indirect (some (ip, d)) = elim (ip.addrs 12 == 0) [
  | true ↦ some (ip, d)
  | false ↦ drop_root ip (drop_entries 128 0 (ip.addrs 12) d)
]

emptied : Option (Dinode × Disk) → Option (Dinode × Disk)
emptied none = none
emptied (some (ip, d)) = some (record ip { size = 0 }, d)

-- `itrunc`; `iupdate` is left to the cache of inodes.
pub itrunc : Dinode → Disk → Option (Dinode × Disk)
unfolding drop_direct drop_indirect emptied
itrunc ip d = emptied (drop_indirect (drop_direct 12 0 ip d))
