-- ===== src/Content/Maps.antt =====
-- fs.c: what `bmap` does to a file.
use os163_assi.Prelude.{
  ℕ, ◌≡◌, ◌≢◌, ◌<◌, false, if◌then◌else◌, ◌==◌, arith, refl, ◌∙◌, Bool-cases, inl, inr,
}
use os163_assi.Disk.{Disk, is_used}
use os163_assi.Disk.Blocks.{Taken}
use os163_assi.Inode.{Dinode}
use os163_assi.Content.Refs.{block_ref, IsFile}

-- The byte `i` of the block at the place `n`; a block that is not there reads as zeros.
unfoldable pub byte_at : Dinode → Disk → ℕ → ℕ → ℕ
byte_at ip d n i = if block_ref ip d n == 0 then 0 else d.block (block_ref ip d n) i

-- The file has the block `b` at the place `n` now, it has lost no block, and no byte differs.
pub record Mapped (ip : Dinode) (d : Disk) (n b : ℕ) (ip' : Dinode) (d' : Disk) : Type 0 where
  pub file : IsFile ip' d'
  pub there : block_ref ip' d' n ≡ b
  pub real : b ≢ 0
  pub same_size : ip'.size ≡ ip.size
  pub kept : (m : ℕ) → m < 141 → block_ref ip d m ≢ 0 → block_ref ip' d' m ≡ block_ref ip d m
  pub bytes : (m i : ℕ) → m < 141 → m ≢ 12 → byte_at ip' d' m i ≡ byte_at ip d m i

pub Mapped-trans :
    (ip ip1 ip2 : Dinode) (d d1 d2 : Disk) (n b n' b' : ℕ)
    → Mapped ip d n b ip1 d1
    → Mapped ip1 d1 n' b' ip2 d2
    → Mapped ip d n' b' ip2 d2
Mapped-trans ip ip1 ip2 d d1 d2 n b n' b' first second = record {
  file = second.file;
  there = second.there;
  real = second.real;
  same_size = second.same_size ∙ first.same_size;
  kept = λ m lt nonzero. let e = first.kept m lt nonzero in ground (arith, second.kept m lt);
  bytes = λ m i lt other. second.bytes m i lt other ∙ first.bytes m i lt other;
}

-- A block that was there before.
pub old-Mapped :
    (ip : Dinode) (d : Disk) (n b : ℕ)
    → IsFile ip d
    → block_ref ip d n ≡ b
    → b ≢ 0
    → Mapped ip d n b ip d
old-Mapped ip d n b good there real = record {
  file = good;
  there = there;
  real = real;
  same_size = refl;
  kept = λ m lt nonzero. refl;
  bytes = λ m i lt other. refl;
}

pub root_ref : (ip : Dinode) (d : Disk) → block_ref ip d 12 ≡ ip.addrs 12
unfolding block_ref
root_ref ip d = refl

-- A block of the file is not its indirect block, and a free block is neither.
pub apart_root :
    (ip : Dinode) (d : Disk) (m : ℕ)
    → IsFile ip d
    → m < 141
    → m ≢ 12
    → block_ref ip d m ≢ 0
    → block_ref ip d m ≢ ip.addrs 12
apart_root ip d m good lt other nonzero e =
    other (good.once m 12 lt (omega arith) nonzero (e ∙ cc (root_ref ip d)))

free_apart : (ip : Dinode) (d : Disk) (b : ℕ) → IsFile ip d → is_used d b ≡ false → b ≢ ip.addrs 12
free_apart ip d b good free e = elim (Bool-cases (ip.addrs 12 == 0)) [
  | inl gone ↦ ground (arith, good.boot)
  | inr there ↦ ground (arith, root_ref ip d, good.used 12)
]

-- A new block `b` at the place `n`, when every data block is left alone that the file had.
pub new-Mapped :
    (ip ip' : Dinode) (d d1 d' : Disk) (n b : ℕ)
    → IsFile ip d
    → IsFile ip' d'
    → Taken d b d1
    → block_ref ip d n ≡ 0
    → ((m : ℕ) → m < 141 → block_ref ip' d' m ≡ (if n == m then b else block_ref ip d m))
    → n < 141
    → ip'.size ≡ ip.size
    → ((c i : ℕ) → c ≢ ip.addrs 12 → d'.block c i ≡ d1.block c i)
    → Mapped ip d n b ip' d'
unfolding byte_at
new-Mapped ip ip' d d1 d' n b good good' taken gap refs lt sz rest =
    let real : b ≢ 0 = λ e. ground (arith, good.boot, taken.was_free) in
    record {
      file = good';
      there = refs n lt ∙ ground arith;
      real = real;
      same_size = sz;
      kept = λ m lt' nonzero. refs m lt' ∙ ground (arith);
      bytes = λ m i lt' other. elim (Bool-cases (n == m)) [
        | inl here ↦
            let e : block_ref ip' d' m ≡ b = refs m lt' ∙ ground arith in
            let e' : block_ref ip d m ≡ 0 = ground arith in
            let b_nonzero : (b == 0) ≡ false = ground arith in
            rw (e, e', b_nonzero)
              (rest b i (free_apart ip d b good taken.was_free) ∙ taken.zeroed i)
        | inr far ↦
            let e : block_ref ip' d' m ≡ block_ref ip d m = refs m lt' ∙ ground arith in
            elim (Bool-cases (block_ref ip d m == 0)) [
              | inl gap' ↦ rw (e, gap') refl
              | inr nonzero ↦
                  let nonzero' : block_ref ip d m ≢ 0 = ground arith in
                  rw (e, nonzero)
                    (rest (block_ref ip d m) i (apart_root ip d m good lt' other nonzero')
                      ∙ taken.kept (block_ref ip d m) i
                          (λ same. ground (arith, good.used m lt', taken.was_free))
                          (good.apart m b lt' taken.inside nonzero'))
            ]
      ];
    }
