-- ===== src/Disk/Writes.antt =====
-- fs.c: writes of blocks that hold no bits of the free map.
use os163_assi.Prelude.{ℕ, ◌≡◌, ◌≢◌, ◌<◌, ◌==◌, false, update, arith, refl, ◌∙◌}
use os163_assi.Disk.{Disk, Block, map_block, is_used}
use os163_assi.Disk.Blocks.{IsDisk}

-- A block is written that is not in the free map.
pub is_used-update :
    (d : Disk) (b : ℕ) (x : Block) (c : ℕ)
    → b ≢ map_block d c
    → is_used (record d { block = update d.block b x }) c ≡ is_used d c
unfolding is_used
is_used-update d b x c apart =
    let other : (b == map_block d c) ≡ false = ground arith in rw other refl

pub update-IsDisk :
    (d : Disk) (b : ℕ) (x : Block)
    → IsDisk d
    → ((c : ℕ) → c < d.size → b ≢ map_block d c)
    → ((i : ℕ) → x i < 256)
    → IsDisk (record d { block = update d.block b x })
update-IsDisk d b x good apart bytes = record {
  bytes = λ c i. ground (arith, bytes i, good.bytes c i);
  map_inside = good.map_inside;
  map_used = λ c lt.
      is_used-update d b x (map_block d c) (apart (map_block d c) (good.map_inside c lt))
      ∙ good.map_used c lt;
}
