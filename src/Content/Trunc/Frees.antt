-- ===== src/Content/Trunc/Frees.antt =====
-- fs.c: `itrunc` frees the blocks of a file and no other.
use os163_assi.Prelude.{
  ℕ, zero, suc, ◌+◌, ◌≡◌, ◌≢◌, ◌<◌, ◌≤◌, some, ◌==◌, update, arith, refl, ◌∙◌, Bool-cases, inl, inr,
}
use os163_assi.Disk.{Disk, bfree}
use os163_assi.Inode.{Dinode}
use os163_assi.Content.{word_at}
use os163_assi.Content.Word.{word_at_cong}
use os163_assi.Content.Refs.{block_ref, IsFile}
use os163_assi.Content.Maps.{root_ref}
use os163_assi.Content.Direct.{direct_ref}
use os163_assi.Content.Bmap.{entry_ref}
use os163_assi.Content.Trunc.{drop_block, drop_direct, drop_entry, drop_entries}
use os163_assi.Content.Trunc.Gone.{turn, Gone, skip-Gone, bfree-Gone}

-- The loop of `itrunc` over the direct blocks before the place `i`.
pub record Begun (ip : Dinode) (d : Disk) (i : ℕ) (ip' : Dinode) (d' : Disk) : Type 0 where
  pub gone : Gone ip d i d'
  pub cleared : (m : ℕ) → m < i → ip'.addrs m ≡ 0
  pub left : (m : ℕ) → i ≤ m → ip'.addrs m ≡ ip.addrs m

drop_block-Begun :
    (ip ip' : Dinode) (d d' : Disk) (i : ℕ)
    → IsFile ip d
    → Begun ip d i ip' d'
    → i < 12
    → (ip2 : Dinode) × (d2 : Disk) × (drop_block i ip' d' ≡ some (ip2, d2))
      × Begun ip d (suc i) ip2 d2
unfolding drop_block
drop_block-Begun ip ip' d d' i good begun lt =
    let same : ip'.addrs i ≡ ip.addrs i = begun.left i (omega arith) in
    let first : turn i ≡ i = ground arith in
    let place : block_ref ip d (turn i) ≡ ip'.addrs i =
      rw first (direct_ref ip d i (omega arith) ∙ cc) in
    elim (Bool-cases (ip'.addrs i == 0)) [
      | inl gap ↦ (
        ip',
        d',
        (rw (gap, drop_block) refl),
        record {
          gone = skip-Gone ip d i d' begun.gone (place ∙ ground arith);
          cleared = λ m lt'. elim (Bool-cases (m == i)) [
            | inl now ↦ ground arith
            | inr before ↦ begun.cleared m (ground arith)
          ];
          left = λ m le. begun.left m (omega arith);
        },
      )
      | inr there ↦
          let nonzero : block_ref ip d (turn i) ≢ 0 = λ e. ground arith in
          let step = bfree-Gone ip d i d' good begun.gone (omega arith) nonzero in
          let freed : bfree (ip'.addrs i) d' ≡ some step.0 = cc (place, step.1) in
          (
            record ip' { addrs = update ip'.addrs i 0 },
            step.0,
            (rw (there, freed, drop_block) refl),
            record {
              gone = step.2;
              cleared = λ m lt'. ground (arith, begun.cleared m);
              left = λ m le. ground (arith, begun.left m);
            },
          )
    ]

pub drop_direct-Begun :
    (n i : ℕ) (ip ip' : Dinode) (d d' : Disk)
    → IsFile ip d
    → Begun ip d i ip' d'
    → i + n ≡ 12
    → (ip2 : Dinode) × (d2 : Disk) × (drop_direct n i ip' d' ≡ some (ip2, d2))
      × Begun ip d 12 ip2 d2
unfolding drop_direct
drop_direct-Begun zero i ip ip' d d' good begun e =
    let done : i ≡ 12 = omega arith in (ip', d', refl, rw done at begun)
drop_direct-Begun (suc n) i ip ip' d d' good begun e =
    let one = drop_block-Begun ip ip' d d' i good begun (omega arith) in
    let more = drop_direct-Begun n (suc i) ip one.0 d one.1 good one.3 (omega arith) in
    (more.0, more.1, rw (one.2, drop_direct) more.2, more.3)

drop_entry-Gone :
    (j : ℕ) (ip : Dinode) (d d' : Disk)
    → IsFile ip d
    → ip.addrs 12 ≢ 0
    → Gone ip d (12 + j) d'
    → j < 128
    → (d2 : Disk) × (drop_entry j (ip.addrs 12) d' ≡ some d2) × Gone ip d (suc (12 + j)) d2
unfolding drop_entry
drop_entry-Gone j ip d d' good nonzero gone lt =
    let there : block_ref ip d 12 ≢ 0 = λ e. nonzero (cc (root_ref ip d)) in
    let now : turn (12 + j) ≡ 13 + j = ground arith in
    let words : word_at (d'.block (ip.addrs 12)) j ≡ word_at (d.block (ip.addrs 12)) j =
      word_at_cong (d'.block (ip.addrs 12)) (d.block (ip.addrs 12)) j (λ i.
        gone.kept (ip.addrs 12) i
          (λ e lt' same. good.apart 12 e (omega arith) lt' there (root_ref ip d ∙ same))) in
    let place : block_ref ip d (turn (12 + j)) ≡ word_at (d'.block (ip.addrs 12)) j =
      rw now (entry_ref ip d j nonzero ∙ cc) in
    elim (Bool-cases (word_at (d'.block (ip.addrs 12)) j == 0)) [
      | inl gap ↦
          (d', rw (gap, drop_entry) refl, skip-Gone ip d (12 + j) d' gone (place ∙ ground arith))
      | inr used ↦
          let step = bfree-Gone ip d (12 + j) d' good gone (omega arith) (λ e. ground arith) in
          let freed : bfree (word_at (d'.block (ip.addrs 12)) j) d' ≡ some step.0 =
            cc (place, step.1) in
          (step.0, rw (used, freed, drop_entry) refl, step.2)
    ]

pub drop_entries-Gone :
    (n j : ℕ) (ip : Dinode) (d d' : Disk)
    → IsFile ip d
    → ip.addrs 12 ≢ 0
    → Gone ip d (12 + j) d'
    → j + n ≡ 128
    → (d2 : Disk) × (drop_entries n j (ip.addrs 12) d' ≡ some d2) × Gone ip d 140 d2
unfolding drop_entries
drop_entries-Gone zero j ip d d' good nonzero gone e =
    let done : 12 + j ≡ 140 = omega arith in (d', refl, rw done at gone)
drop_entries-Gone (suc n) j ip d d' good nonzero gone e =
    let one = drop_entry-Gone j ip d d' good nonzero gone (omega arith) in
    let next : suc (12 + j) ≡ 12 + suc j = omega arith in
    let more =
      drop_entries-Gone n (suc j) ip d one.0 good nonzero (rw next at one.2) (omega arith) in
    (more.0, rw (one.1, drop_entries) more.1, more.2)
