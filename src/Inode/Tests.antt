-- ===== src/Inode/Tests.antt =====
-- Two inodes in the cache, of which the first is locked.
use os163_assi.Prelude.{◌≡◌, ◌≢◌, refl, arith, find_first, true, ◌==◌}
use os163_assi.Inode.{Dinode, Cache, iget, ilock}
use os163_assi.Inode.Unique.{Reach, start, later, gets, locks, one_inode}

abbrev on_disk : Dinode
on_disk = record { itype = 1; major = 0; minor = 0; nlink = 1; size = 0; addrs = λ n. 0 }

used : (c : Cache) × Reach c × (((c 0).inum == 7) ≡ true)
unfolding find_first iget ilock
used = (
  _,
  later (later (later start (gets 1 7 0 refl)) (gets 1 8 1 refl)) (locks 0 on_disk refl),
  refl,
)

one_inode_example : (used.0 0).inum ≢ (used.0 1).inum
unfolding used
one_inode_example = one_inode 0 1 used.1 (omega arith) (omega arith) (omega arith) refl refl refl
