-- ===== src/Content/Direct.antt =====
-- fs.c: the blocks that `bmap` finds in the inode itself.
use os163_assi.Prelude.{
  ℕ, ◌-◌, ◌≡◌, ◌≢◌, ◌<◌, false, Option, none, some, if◌then◌else◌, ◌==◌, ltb, update, arith, refl,
  ◌∙◌, Bool-cases, inl, inr,
}
use os163_assi.Disk.{Disk, balloc}
use os163_assi.Disk.Blocks.{Taken, Ballocs, balloc-Ballocs}
use os163_assi.Inode.{Dinode}
use os163_assi.Content.{word_at, root_block, stored}
use os163_assi.Content.Word.{word_at_cong, word_at-zeros}
use os163_assi.Content.Refs.{block_ref, IsFile, grown-IsFile}
use os163_assi.Content.Maps.{Mapped, old-Mapped, new-Mapped}

-- What a search for the place `n` gives: it panics only if there is no block yet.
unfoldable pub Maps : Dinode → Disk → ℕ → Option (ℕ × Dinode × Disk) → Type 0
Maps ip d n none = block_ref ip d n ≡ 0
Maps ip d n (some (b, ip', d')) = Mapped ip d n b ip' d'

root_refs :
    (ip : Dinode) (d d1 : Disk) (k b m : ℕ)
    → IsFile ip d
    → Taken d b d1
    → k < 13
    → ip.addrs k ≡ 0
    → m < 141
    → block_ref (record ip { addrs = update ip.addrs k b }) d1 m
      ≡ (if k == m then b else block_ref ip d m)
unfolding block_ref
root_refs ip d d1 k b m good taken lt gap lt' = elim (Bool-cases (ltb m 13)) [
  | inl direct ↦ ground arith
  | inr entry ↦ elim (Bool-cases (k == 12)) [
    | inl root ↦
        let old : ip.addrs 12 ≡ 0 = ground arith in
        let zeros : word_at (d1.block b) (m - 13) ≡ 0 =
          word_at-zeros (d1.block b) (m - 13) taken.zeroed in
        let nonzero : (b == 0) ≡ false = ground (arith, good.boot, taken.was_free) in
        let far : (k == m) ≡ false = ground arith in rw (entry, root, far, old, nonzero) zeros
    | inr other ↦
        let far : (k == m) ≡ false = ground arith in
        elim (Bool-cases (ip.addrs 12 == 0)) [
          | inl no_root ↦ rw (entry, other, far, no_root) refl
          | inr root ↦
              let there : block_ref ip d 12 ≢ 0 = λ e. ground arith in
              rw (entry, other, far, root)
                (word_at_cong (d1.block (ip.addrs 12)) (d.block (ip.addrs 12)) (m - 13) (λ i.
                  taken.kept (ip.addrs 12) i
                    (λ e. ground (arith, good.used 12 (omega arith) there, taken.was_free))
                    (good.apart 12 b (omega arith) taken.inside there)))
        ]
  ]
]

stored-Maps :
    (ip : Dinode) (d : Disk) (k : ℕ) (r : Option (ℕ × Disk))
    → IsFile ip d
    → k < 13
    → ip.addrs k ≡ 0
    → block_ref ip d k ≡ 0
    → Ballocs d r
    → Maps ip d k (stored k ip r)
unfolding Ballocs Maps stored
stored-Maps ip d k none good lt gap gap' full = gap'
stored-Maps ip d k (some (b, d1)) good lt gap gap' taken =
    let ip' : Dinode = record ip { addrs = update ip.addrs k b } in
    let refs : (m : ℕ) → m < 141 → block_ref ip' d1 m ≡ (if k == m then b else block_ref ip d m) =
      λ m lt'. root_refs ip d d1 k b m good taken lt gap lt' in
    let file =
      grown-IsFile ip ip' d d1 d1 k b good taken taken.still taken.same_size taken.same_map
        (λ c lt'. refl) refs refl in
    new-Mapped ip ip' d d1 d1 k b good file taken gap' refs (omega arith) refl (λ c i far. refl)

pub direct_ref : (ip : Dinode) (d : Disk) (k : ℕ) → k < 13 → block_ref ip d k ≡ ip.addrs k
unfolding block_ref
direct_ref ip d k lt = ground arith

pub root_block-Maps :
    (ip : Dinode) (d : Disk) (k : ℕ) → IsFile ip d → k < 13 → Maps ip d k (root_block k ip d)
unfolding root_block Maps
root_block-Maps ip d k good lt = elim (Bool-cases (ip.addrs k == 0)) [
  | inl gap ↦ rw gap (
      stored-Maps ip d k (balloc d) good lt (ground arith) (direct_ref ip d k lt ∙ ground arith)
        (balloc-Ballocs d good.disk))
  | inr there ↦ rw there (old-Mapped ip d k (ip.addrs k) good (direct_ref ip d k lt) (ground arith))
]
