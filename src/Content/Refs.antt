-- ===== src/Content/Refs.antt =====
-- fs.c: the blocks that an inode refers to. Places 0 to 11 are the direct blocks, 12 is the indirect
-- block, and the places from 13 on are its entries.
use os163_assi.Prelude.{
  ℕ, ◌-◌, ◌≡◌, ◌≢◌, ◌<◌, ◌≤◌, true, if◌then◌else◌, ◌==◌, ltb, arith, ◌∙◌, Bool-cases, inl, inr,
}
use os163_assi.Disk.{Disk, map_block, is_used}
use os163_assi.Disk.Blocks.{IsDisk, Taken}
use os163_assi.Inode.{Dinode}
use os163_assi.Content.{word_at}

unfoldable pub block_ref : Dinode → Disk → ℕ → ℕ
block_ref ip d n =
    if ltb n 13
    then ip.addrs n
    else if ip.addrs 12 == 0
    then 0
    else word_at (d.block (ip.addrs 12)) (n - 13)

-- The blocks of a file are blocks of the device, in use, none of them belongs to the free map, and
-- none has two places; the boot block is in use, so that no block of a file is the number 0.
pub record IsFile (ip : Dinode) (d : Disk) : Type 0 where
  pub disk : IsDisk d
  pub fits : d.size < 4294967296
  pub boot : is_used d 0 ≡ true
  pub small : ip.size ≤ 71680
  pub inside : (n : ℕ) → n < 141 → block_ref ip d n ≢ 0 → block_ref ip d n < d.size
  pub used : (n : ℕ) → n < 141 → block_ref ip d n ≢ 0 → is_used d (block_ref ip d n) ≡ true
  pub apart :
      (n c : ℕ) → n < 141 → c < d.size → block_ref ip d n ≢ 0 → block_ref ip d n ≢ map_block d c
  pub once :
      (n m : ℕ)
      → n < 141
      → m < 141
      → block_ref ip d n ≢ 0
      → block_ref ip d n ≡ block_ref ip d m
      → n ≡ m

-- A file that gets the block `b`, which was free, at the place `n`.
pub grown-IsFile :
    (ip ip' : Dinode) (d d1 d' : Disk) (n b : ℕ)
    → IsFile ip d
    → Taken d b d1
    → IsDisk d'
    → d'.size ≡ d.size
    → d'.bmapstart ≡ d.bmapstart
    → ((c : ℕ) → c < d.size → is_used d' c ≡ is_used d1 c)
    → ((m : ℕ) → m < 141 → block_ref ip' d' m ≡ (if n == m then b else block_ref ip d m))
    → ip'.size ≡ ip.size
    → IsFile ip' d'
grown-IsFile ip ip' d d1 d' n b good taken disk size start bits refs sz =
    let grew : (c : ℕ) → c < d.size → is_used d' c ≡ (if b == c then true else is_used d c) =
      λ c lt. bits c lt ∙ taken.bits c lt in
    record {
      disk = disk;
      fits = omega (arith, good.fits);
      boot = rw (grew 0 (omega (arith, taken.inside))) (ground (arith, good.boot));
      small = omega (arith, good.small);
      inside = λ m lt nonzero. elim (Bool-cases (n == m)) [
        | inl here ↦ let e = refs m lt in ground (arith, taken.inside)
        | inr other ↦ let e = refs m lt in ground (arith, good.inside m lt)
      ];
      used = λ m lt nonzero. elim (Bool-cases (n == m)) [
        | inl here ↦ let e = refs m lt in ground (arith, taken.inside, grew b)
        | inr other ↦
            let e = refs m lt in
            ground (arith, good.inside m lt, good.used m lt, grew (block_ref ip d m))
      ];
      apart = λ m c lt lt' nonzero same. elim (Bool-cases (n == m)) [
        | inl here ↦ let e = refs m lt in ground (arith, good.disk.map_used c, taken.was_free)
        | inr other ↦ let e = refs m lt in ground (arith, good.apart m c lt)
      ];
      once = λ m k lt lt' nonzero e. elim (Bool-cases (n == m)) [
        | inl here ↦ elim (Bool-cases (n == k)) [
          | inl there ↦ ground arith
          | inr far ↦
              let r = refs m lt in
              let r' = refs k lt' in absurd (ground (arith, good.used k lt', taken.was_free))
        ]
        | inr other ↦ elim (Bool-cases (n == k)) [
          | inl there ↦
              let r = refs m lt in
              let r' = refs k lt' in absurd (ground (arith, good.used m lt, taken.was_free))
          | inr far ↦
              let r = refs m lt in let r' = refs k lt' in ground (arith, good.once m k lt lt')
        ]
      ];
    }
