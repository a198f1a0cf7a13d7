-- ===== src/Content/Tests.antt =====
-- fs.c: a small file, a directory, on a small device.
use os163_assi.Prelude.{
  Bool, true, some, ℕ, ◌≡◌, ◌<◌, false, if◌then◌else◌, ◌==◌, ltb, arith, refl, Bool-cases, inl, inr,
}
use os163_assi.Disk.{Disk, Block, map_block, is_used}
use os163_assi.Disk.Blocks.{IsDisk}
use os163_assi.Inode.{Dinode}
use os163_assi.Content.{returned, readi, writei}
use os163_assi.Content.Trunc.{itrunc}
use os163_assi.Content.Trunc.Whole.{Truncated, itrunc-Truncated}
use os163_assi.Content.Back.{Back, readi-writei}
use os163_assi.Content.Refs.{block_ref, IsFile}
use os163_assi.Content.Read.{Readi, readi-Readi}
use os163_assi.Content.Write.{Writei, writei-Writei}

-- Block 1 holds the file, block 2 is free, and block 3 is the free map.
abbrev pub device : Disk
device = record {
  size = 4;
  bmapstart = 3;
  block = λ b i. if b == 3 then (if i == 0 then 11 else 0) else 7;
}

abbrev pub file : Dinode
file = record {
  itype = 1;
  major = 0;
  minor = 0;
  nlink = 1;
  size = 112;
  addrs = λ n. if n == 0 then 1 else 0;
}

device-IsDisk : IsDisk device
unfolding is_used
device-IsDisk = record {
  bytes = λ b i. ground arith;
  map_inside = λ c lt. omega arith;
  map_used = λ c lt. rw (there c lt) refl;
}
  where
    there : (c : ℕ) → c < 4 → map_block device c ≡ 3
    there c lt = omega arith

file_refs : (n : ℕ) → block_ref file device n ≡ (if n == 0 then 1 else 0)
unfolding block_ref
file_refs n = elim (Bool-cases (ltb n 13)) [
  | inl direct ↦ rw direct refl
  | inr entry ↦ let far : (n == 0) ≡ false = ground arith in rw (entry, far) refl
]

pub file-IsFile : IsFile file device
unfolding is_used
file-IsFile = record {
  disk = device-IsDisk;
  fits = omega arith;
  boot = refl;
  small = omega arith;
  inside = λ n lt nonzero. ground (arith, file_refs n);
  used = λ n lt nonzero. elim (Bool-cases (n == 0)) [
    | inl first ↦ rw (file_refs n, first) refl
    | inr gap ↦ absurd (ground (arith, file_refs n))
  ];
  apart = λ n c lt lt' nonzero e. ground (arith, file_refs n);
  once = λ n m lt lt' nonzero e. ground (arith, file_refs n, file_refs m);
}

readi-Readi_example : Readi file device (λ i. 0) 90 20 (readi file device (λ i. 0) 90 20)
readi-Readi_example = readi-Readi file device (λ i. 0) 90 20 file-IsFile (omega arith) (omega arith)

-- The log has room for whatever is written.
abbrev all_fit : ℕ → Bool
all_fit tot = true

writei-Writei_example :
    Writei all_fit file device (λ i. 5) 90 20 (writei all_fit file device (λ i. 5) 90 20)
writei-Writei_example =
    writei-Writei all_fit file device (λ i. 5) 90 20 file-IsFile (λ i. omega arith) (omega arith)
      (omega arith)

written :
    (ip' : Dinode) × (d' : Disk) × (src' : Block) × (writei all_fit file device (λ i. 5) 90 20
      ≡ returned 20 ip' d' src')
unfolding writei
written = (_, _, _, refl)

readi-writei_example : Back (λ i. 5) 20 (readi written.0 written.1 (λ i. 0) 90 20)
readi-writei_example =
    readi-writei all_fit file written.0 device written.1 (λ i. 5) written.2 (λ i. 0) 90 20
      file-IsFile (λ i. omega arith) (omega arith) (omega arith) written.3

itrunc-Truncated_example :
    (ip' : Dinode) × (d' : Disk) × (itrunc file device ≡ some (ip', d'))
    × Truncated file device ip' d'
itrunc-Truncated_example = itrunc-Truncated file device file-IsFile
