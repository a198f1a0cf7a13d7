-- ===== src/Disk/Tests.antt =====
-- fs.c: a small device for `balloc` and `bfree`.
use os163_assi.Prelude.{ℕ, ◌≡◌, ◌<◌, if◌then◌else◌, ◌==◌, arith, refl}
use os163_assi.Disk.{Disk, map_block, is_used, balloc, bfree}
use os163_assi.Disk.Blocks.{IsDisk, Ballocs, Bfrees, balloc-Ballocs, bfree-Bfrees}

-- Three blocks, of which the last is the free map: block 1 is free.
abbrev small : Disk
small = record {
  size = 3;
  bmapstart = 2;
  block = λ b i. if b == 2 then (if i == 0 then 5 else 0) else 7;
}

small-IsDisk : IsDisk small
unfolding is_used
small-IsDisk = record {
  bytes = λ b i. ground arith;
  map_inside = λ c lt. omega arith;
  map_used = λ c lt. rw (there c lt) refl;
}
  where
    there : (c : ℕ) → c < 3 → map_block small c ≡ 2
    there c lt = omega arith

balloc-Ballocs_example : Ballocs small (balloc small)
balloc-Ballocs_example = balloc-Ballocs small small-IsDisk

bfree-Bfrees_example : Bfrees 0 small (bfree 0 small)
bfree-Bfrees_example = bfree-Bfrees 0 small small-IsDisk
