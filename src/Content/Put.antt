-- ===== src/Content/Put.antt =====
-- fs.c: a write into a block that a file has.
use os163_assi.Prelude.{
  ℕ, ◌≡◌, ◌≢◌, ◌<◌, false, if◌then◌else◌, ◌==◌, ltb, update, arith, refl, ◌∙◌, Bool-cases, inl, inr,
}
use os163_assi.Disk.{Disk, Block, map_block, is_used}
use os163_assi.Disk.Writes.{is_used-update, update-IsDisk}
use os163_assi.Inode.{Dinode}
use os163_assi.Content.Refs.{block_ref, IsFile}
use os163_assi.Content.Maps.{byte_at, apart_root}

-- The blocks with block `b` set to `x`
abbrev pub with_block : Disk → ℕ → Block → Disk
with_block d b x = record d { block = update d.block b x }

-- `b` is the data block of the file at the place `n`.
pub record IsData (ip : Dinode) (d : Disk) (n b : ℕ) : Type 0 where
  pub below : n < 141
  pub data_place : n ≢ 12
  pub there : block_ref ip d n ≡ b
  pub real : b ≢ 0

data_apart :
    (ip : Dinode) (d : Disk) (n b : ℕ) → IsFile ip d → IsData ip d n b → (b == ip.addrs 12) ≡ false
data_apart ip d n b good at =
    let nonzero : block_ref ip d n ≢ 0 = λ e. at.real (ground (arith, at.there)) in
    ground (arith, at.there, apart_root ip d n good at.below at.data_place nonzero)

pub block_ref-with_block :
    (ip : Dinode) (d : Disk) (n b : ℕ) (x : Block) (m : ℕ)
    → IsFile ip d
    → IsData ip d n b
    → block_ref ip (with_block d b x) m ≡ block_ref ip d m
unfolding block_ref
block_ref-with_block ip d n b x m good at = elim (Bool-cases (ltb m 13)) [
  | inl direct ↦ rw direct refl
  | inr entry ↦ let far = data_apart ip d n b good at in rw (entry, far) refl
]

pub with_block-IsFile :
    (ip : Dinode) (d : Disk) (n b : ℕ) (x : Block)
    → IsFile ip d
    → IsData ip d n b
    → ((i : ℕ) → x i < 256)
    → IsFile ip (with_block d b x)
with_block-IsFile ip d n b x good at bytes =
    let nonzero : block_ref ip d n ≢ 0 = λ e. at.real (ground (arith, at.there)) in
    let apart : (c : ℕ) → c < d.size → b ≢ map_block d c =
      λ c lt e. good.apart n c at.below lt nonzero (at.there ∙ e) in
    let refs : (m : ℕ) → block_ref ip (with_block d b x) m ≡ block_ref ip d m =
      λ m. block_ref-with_block ip d n b x m good at in
    let bits : (c : ℕ) → c < d.size → is_used (with_block d b x) c ≡ is_used d c =
      λ c lt. is_used-update d b x c (apart c lt) in
    record {
      disk = update-IsDisk d b x good.disk apart bytes;
      fits = good.fits;
      boot = bits 0 (ground (arith, good.inside n at.below nonzero)) ∙ good.boot;
      small = good.small;
      inside = λ m lt real. let e = refs m in ground (arith, good.inside m lt);
      used = λ m lt real.
          let e = refs m in
          ground (arith, good.used m lt, good.inside m lt, bits (block_ref ip d m));
      apart = λ m c lt lt' real same. let e = refs m in ground (arith, good.apart m c lt);
      once = λ m k lt lt' real same.
          let e = refs m in let e' = refs k in ground (arith, good.once m k lt lt');
    }

-- The bytes at the place `n` are those of `x` now, and the others are as before.
pub byte_at-with_block :
    (ip : Dinode) (d : Disk) (n b : ℕ) (x : Block) (m i : ℕ)
    → IsFile ip d
    → IsData ip d n b
    → m < 141
    → byte_at ip (with_block d b x) m i ≡ (if n == m then x i else byte_at ip d m i)
unfolding byte_at
byte_at-with_block ip d n b x m i good at lt =
    let e = block_ref-with_block ip d n b x m good at in
    let nonzero : (b == 0) ≡ false = ground (arith, at.real) in
    elim (Bool-cases (n == m)) [
      | inl here ↦
          let e' : block_ref ip d m ≡ b = ground (arith, at.there) in
          rw (here, e, e', nonzero) (ground arith)
      | inr away ↦ elim (Bool-cases (block_ref ip d m == 0)) [
        | inl gap ↦ rw (away, e, gap) refl
        | inr there ↦
            let far : (b == block_ref ip d m) ≡ false =
              ground (arith, at.there, good.once n m at.below lt) in
            rw (away, e, there, far) refl
      ]
    ]

pub byte_at-IsData :
    (ip : Dinode) (d : Disk) (n b i : ℕ) → IsData ip d n b → byte_at ip d n i ≡ d.block b i
unfolding byte_at
byte_at-IsData ip d n b i at =
    let nonzero : (b == 0) ≡ false = ground (arith, at.real) in rw (at.there, nonzero) refl
