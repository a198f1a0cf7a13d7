-- ===== src/Content/Bmap.antt =====
-- fs.c: `bmap` finds the block of a file, or gives it a new one.
use os163_assi.Prelude.{
  ℕ, ◌+◌, ◌-◌, ◌≡◌, ◌≢◌, ◌<◌, true, false, Option, none, some, if◌then◌else◌, ◌==◌, ltb, update,
  arith, refl, ◌∙◌, Bool-cases, inl, inr,
}
use os163_assi.Disk.{Disk, map_block, balloc}
use os163_assi.Disk.Blocks.{IsDisk, Taken, Ballocs, balloc-Ballocs}
use os163_assi.Disk.Writes.{is_used-update, update-IsDisk}
use os163_assi.Inode.{Dinode}
use os163_assi.Content.{word_at, put_word, root_block, leaf_block, bmap, entered}
use os163_assi.Content.Word.{word_at-put_word, word_at_cong, put_word-byte}
use os163_assi.Content.Refs.{block_ref, IsFile, grown-IsFile}
use os163_assi.Content.Maps.{Mapped, Mapped-trans, old-Mapped, new-Mapped, root_ref}
use os163_assi.Content.Direct.{Maps, root_block-Maps}

-- The block `d1` with the word `k` of the indirect block set to `b`
abbrev entered_disk : Dinode → Disk → ℕ → ℕ → Disk
entered_disk ip d1 k b = record d1 {
  block = update d1.block (ip.addrs 12) (put_word (d1.block (ip.addrs 12)) k b);
}

-- The indirect block keeps its words when a block is allocated.
root_words :
    (ip : Dinode) (d d1 : Disk) (b k : ℕ)
    → IsFile ip d
    → Taken d b d1
    → ip.addrs 12 ≢ 0
    → word_at (d1.block (ip.addrs 12)) k ≡ word_at (d.block (ip.addrs 12)) k
root_words ip d d1 b k good taken nonzero =
    let there : block_ref ip d 12 ≢ 0 = λ e. nonzero (cc (root_ref ip d)) in
    word_at_cong (d1.block (ip.addrs 12)) (d.block (ip.addrs 12)) k (λ i.
      taken.kept (ip.addrs 12) i
        (λ e. ground (arith, root_ref ip d, good.used 12 (omega arith) there, taken.was_free))
        (λ e. good.apart 12 b (omega arith) taken.inside there (root_ref ip d ∙ e)))

leaf_refs :
    (ip : Dinode) (d d1 : Disk) (k b m : ℕ)
    → IsFile ip d
    → Taken d b d1
    → k < 128
    → ip.addrs 12 ≢ 0
    → m < 141
    → block_ref ip (entered_disk ip d1 k b) m ≡ (if 13 + k == m then b else block_ref ip d m)
unfolding block_ref
leaf_refs ip d d1 k b m good taken lt nonzero lt' = elim (Bool-cases (ltb m 13)) [
  | inl direct ↦ let far : (13 + k == m) ≡ false = ground arith in rw (direct, far) refl
  | inr entry ↦
      let root : (ip.addrs 12 == 0) ≡ false = ground arith in
      let small : b < 4294967296 = omega (arith, good.fits, taken.inside) in
      let written : word_at
            (update d1.block (ip.addrs 12) (put_word (d1.block (ip.addrs 12)) k b) (ip.addrs 12))
            (m - 13)
          ≡ (if k == m - 13 then b else word_at (d1.block (ip.addrs 12)) (m - 13)) =
        ground (arith, word_at-put_word (d1.block (ip.addrs 12)) k b (m - 13) small) in
      let old = root_words ip d d1 b (m - 13) good taken nonzero in
      elim (Bool-cases (k == m - 13)) [
        | inl here ↦
            let there : (13 + k == m) ≡ true = ground arith in
            rw (entry, root, there) (written ∙ rw here refl)
        | inr far ↦
            let away : (13 + k == m) ≡ false = ground arith in
            rw (entry, root, away) (written ∙ rw far old)
      ]
]

entered-Maps :
    (ip : Dinode) (d : Disk) (k : ℕ) (r : Option (ℕ × Disk))
    → IsFile ip d
    → k < 128
    → ip.addrs 12 ≢ 0
    → block_ref ip d (13 + k) ≡ 0
    → Ballocs d r
    → Maps ip d (13 + k) (entered (ip.addrs 12) k ip r)
unfolding Ballocs Maps entered
entered-Maps ip d k none good lt nonzero gap full = gap
entered-Maps ip d k (some (b, d1)) good lt nonzero gap taken =
    let d' = entered_disk ip d1 k b in
    let x = put_word (d1.block (ip.addrs 12)) k b in
    let there : block_ref ip d 12 ≢ 0 = λ e. nonzero (cc (root_ref ip d)) in
    let apart : (c : ℕ) → c < d1.size → ip.addrs 12 ≢ map_block d1 c = λ c lt' e.
      good.apart 12 c (omega arith) (ground (arith, taken.same_size)) there
        (root_ref ip d ∙ e ∙ omega (arith, taken.same_map)) in
    let refs : (m : ℕ)
        → m < 141
        → block_ref ip d' m ≡ (if 13 + k == m then b else block_ref ip d m) =
      λ m lt'. leaf_refs ip d d1 k b m good taken lt nonzero lt' in
    let disk : IsDisk d' = update-IsDisk d1 (ip.addrs 12) x taken.still apart (λ i.
      put_word-byte (d1.block (ip.addrs 12)) k b i (λ j. taken.still.bytes (ip.addrs 12) j)) in
    let file =
      grown-IsFile ip ip d d1 d' (13 + k) b good taken disk taken.same_size taken.same_map
        (λ c lt'. is_used-update d1 (ip.addrs 12) x c (apart c (omega (arith, taken.same_size))))
        refs refl in
    new-Mapped ip ip d d1 d' (13 + k) b good file taken gap refs (omega arith) refl
      (λ c i far. ground arith)

pub entry_ref :
    (ip : Dinode) (d : Disk) (k : ℕ)
    → ip.addrs 12 ≢ 0
    → block_ref ip d (13 + k) ≡ word_at (d.block (ip.addrs 12)) k
unfolding block_ref
entry_ref ip d k nonzero =
    let direct : ltb (13 + k) 13 ≡ false = ground arith in
    let root : (ip.addrs 12 == 0) ≡ false = ground arith in
    let same : 13 + k - 13 ≡ k = omega arith in rw (direct, root, same) refl

pub entry_ref-zero :
    (ip : Dinode) (d : Disk) (k : ℕ) → ip.addrs 12 ≡ 0 → block_ref ip d (13 + k) ≡ 0
unfolding block_ref
entry_ref-zero ip d k gap =
    let direct : ltb (13 + k) 13 ≡ false = ground arith in rw (direct, gap) refl

leaf_block-Maps :
    (ip : Dinode) (d : Disk) (k : ℕ)
    → IsFile ip d
    → k < 128
    → ip.addrs 12 ≢ 0
    → Maps ip d (13 + k) (leaf_block k (some (ip.addrs 12, ip, d)))
unfolding leaf_block Maps
leaf_block-Maps ip d k good lt nonzero =
    let here : block_ref ip d (13 + k) ≡ word_at (d.block (ip.addrs 12)) k =
      entry_ref ip d k nonzero in
    elim (Bool-cases (word_at (d.block (ip.addrs 12)) k == 0)) [
      | inl gap ↦ rw gap (
          entered-Maps ip d k (balloc d) good lt nonzero (here ∙ ground arith)
            (balloc-Ballocs d good.disk))
      | inr there ↦
          rw there
            (old-Mapped ip d (13 + k) (word_at (d.block (ip.addrs 12)) k) good here (ground arith))
    ]

-- The place of the block `bn` of a file among the blocks that its inode refers to.
abbrev pub place : ℕ → ℕ
place bn = if ltb bn 12 then bn else bn + 1

Maps-trans :
    (ip ip' : Dinode) (d d' : Disk) (m b n : ℕ) (r : Option (ℕ × Dinode × Disk))
    → Mapped ip d m b ip' d'
    → n < 141
    → Maps ip' d' n r
    → Maps ip d n r
unfolding Maps
Maps-trans ip ip' d d' m b n none got lt gap = elim (Bool-cases (block_ref ip d n == 0)) [
  | inl e ↦ ground arith
  | inr there ↦ absurd (ground (arith, got.kept n lt))
]
Maps-trans ip ip' d d' m b n (some (c, ip2, d2)) got lt next =
    Mapped-trans ip ip' ip2 d d' d2 m b n c got next

indirect-Maps :
    (ip : Dinode) (d : Disk) (k : ℕ) (r : Option (ℕ × Dinode × Disk))
    → IsFile ip d
    → k < 128
    → Maps ip d 12 r
    → Maps ip d (13 + k) (leaf_block k r)
unfolding Maps leaf_block
indirect-Maps ip d k none good lt gap = entry_ref-zero ip d k (cc (root_ref ip d))
indirect-Maps ip d k (some (addr, ip', d')) good lt got =
    let root : ip'.addrs 12 ≡ addr = ground (arith, root_ref ip' d', got.there) in
    let nonzero : ip'.addrs 12 ≢ 0 = λ e. got.real (ground arith) in
    Maps-trans ip ip' d d' 12 addr (13 + k) (leaf_block k (some (addr, ip', d'))) got (omega arith)
      (rw (← root) (leaf_block-Maps ip' d' k got.file lt nonzero))

-- `bmap` of a block below `MAXFILE` panics only if the block is not there yet. Else the file has the
-- block at its place afterwards, which is not the block 0; it has all the blocks it had before, its
-- bytes are the same, where a missing block counts as zeros, and the file and the free map are sound.
pub bmap-Maps :
    (ip : Dinode) (d : Disk) (bn : ℕ) → IsFile ip d → bn < 140 → Maps ip d (place bn) (bmap ip bn d)
unfolding bmap
bmap-Maps ip d bn good lt = elim (Bool-cases (ltb bn 12)) [
  | inl direct ↦ rw direct (root_block-Maps ip d bn good (ground arith))
  | inr far ↦
      let near : ltb (bn - 12) 128 ≡ true = ground arith in
      let e : bn + 1 ≡ 13 + (bn - 12) = ground arith in
      rw (far, near, e)
        (indirect-Maps ip d (bn - 12) (root_block 12 ip d) good (omega arith)
          (root_block-Maps ip d 12 good (omega arith)))
]
