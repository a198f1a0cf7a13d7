-- ===== src/Content/Trunc/Whole.antt =====
-- fs.c: what is left of a file behind `itrunc`.
use os163_assi.Prelude.{
  ℕ, zero, suc, ◌+◌, ◌-◌, ◌≡◌, ◌≢◌, ◌<◌, false, some, if◌then◌else◌, ◌==◌, ltb, update, arith, refl,
  ◌∙◌, Bool-cases, inl, inr,
}
use os163_assi.Disk.{Disk, is_used, bfree}
use os163_assi.Disk.Blocks.{IsDisk}
use os163_assi.Inode.{Dinode}
use os163_assi.Content.Refs.{block_ref, IsFile}
use os163_assi.Content.Maps.{root_ref}
use os163_assi.Content.Bmap.{entry_ref-zero}
use os163_assi.Content.Trunc.{drop_block, drop_entries, drop_root, drop_indirect, itrunc}
use os163_assi.Content.Trunc.Gone.{turn, Gone, start-Gone, skip-Gone, bfree-Gone}
use os163_assi.Content.Trunc.Frees.{Begun, drop_direct-Begun, drop_entries-Gone}

-- The file is empty, the blocks it had are free, and every other block is in use or free as before.
pub record Truncated (ip : Dinode) (d : Disk) (ip' : Dinode) (d' : Disk) : Type 0 where
  pub size : ip'.size ≡ 0
  pub cleared : (m : ℕ) → m < 13 → ip'.addrs m ≡ 0
  pub disk : IsDisk d'
  pub freed : (n : ℕ) → n < 141 → block_ref ip d n ≢ 0 → is_used d' (block_ref ip d n) ≡ false
  pub rest :
      (c : ℕ)
      → c < d.size
      → ((n : ℕ) → n < 141 → block_ref ip d n ≢ 0 → block_ref ip d n ≢ c)
      → is_used d' c ≡ is_used d c

-- The turn of a place.
abbrev turn_of : ℕ → ℕ
turn_of n = if ltb n 12 then n else if n == 12 then 140 else n - 1

Gone-Truncated :
    (ip ip' : Dinode) (d d' : Disk)
    → Gone ip d 141 d'
    → ((m : ℕ) → m < 13 → ip'.addrs m ≡ 0)
    → Truncated ip d (record ip' { size = 0 }) d'
Gone-Truncated ip ip' d d' gone cleared = record {
  size = refl;
  cleared = cleared;
  disk = gone.disk;
  freed = λ n lt nonzero.
      let e : turn (turn_of n) ≡ n = ground arith in ground (arith, gone.free (turn_of n));
  rest = λ c lt other. gone.rest c lt (λ m lt' nonzero. other (turn m) (ground arith) nonzero);
}

-- Without an indirect block there is nothing to do for its entries.
skip_entries :
    (n j : ℕ) (ip : Dinode) (d d' : Disk)
    → ip.addrs 12 ≡ 0
    → Gone ip d (12 + j) d'
    → j + n ≡ 128
    → Gone ip d 140 d'
skip_entries zero j ip d d' gap gone e = let done : 12 + j ≡ 140 = omega arith in rw done at gone
skip_entries (suc n) j ip d d' gap gone e =
    let now : turn (12 + j) ≡ 13 + j = ground arith in
    let next : suc (12 + j) ≡ 12 + suc j = omega arith in
    let skipped = skip-Gone ip d (12 + j) d' gone (rw now (entry_ref-zero ip d j gap)) in
    skip_entries n (suc j) ip d d' gap (rw next at skipped) (omega arith)

drop_root-some :
    (ip : Dinode) (d d' : Disk)
    → (ip.addrs 12 == 0) ≡ false
    → bfree (ip.addrs 12) d ≡ some d'
    → drop_root ip (some d) ≡ some (record ip { addrs = update ip.addrs 12 0 }, d')
unfolding drop_root
drop_root-some ip d d' there freed = rw (there, freed, drop_block) refl

drop_indirect-Gone :
    (ip ip' : Dinode) (d d' : Disk)
    → IsFile ip d
    → Begun ip d 12 ip' d'
    → (ip2 : Dinode) × (d2 : Disk) × (drop_indirect (some (ip', d')) ≡ some (ip2, d2))
      × Gone ip d 141 d2
      × ((m : ℕ) → m < 13 → ip2.addrs m ≡ 0)
unfolding drop_indirect
drop_indirect-Gone ip ip' d d' good begun =
    let same : ip'.addrs 12 ≡ ip.addrs 12 = begun.left 12 (omega arith) in
    elim (Bool-cases (ip'.addrs 12 == 0)) [
      | inl gap ↦
          let no_root : ip.addrs 12 ≡ 0 = ground arith in
          (
            ip',
            d',
            rw (gap, drop_indirect) refl,
            skip-Gone ip d 140 d' (skip_entries 128 0 ip d d' no_root begun.gone refl)
                (root_ref ip d ∙ no_root),
            λ m lt. elim (Bool-cases (m == 12)) [
              | inl last ↦ ground arith
              | inr before ↦ begun.cleared m (ground arith)
            ],
          )
      | inr there ↦
          let nonzero : ip.addrs 12 ≢ 0 = λ e. ground arith in
          let entries = drop_entries-Gone 128 0 ip d d' good nonzero begun.gone refl in
          let step =
            bfree-Gone ip d 140 entries.0 good entries.2 (omega arith)
              (λ e. nonzero (cc (root_ref ip d, e))) in
          let dropped : drop_entries 128 0 (ip'.addrs 12) d' ≡ some entries.0 = rw same entries.1 in
          let freed : bfree (ip'.addrs 12) entries.0 ≡ some step.0 =
            cc (same, root_ref ip d, step.1) in
          (
            record ip' { addrs = update ip'.addrs 12 0 },
            step.0,
            rw (there, dropped, drop_indirect) (drop_root-some ip' entries.0 step.0 there freed),
            step.2,
            λ m lt. ground (arith, begun.cleared m),
          )
    ]

-- `itrunc` of a sound file never panics. The file is empty afterwards, every block it had is free,
-- every other block of the device is in use or free as before, and the free map is sound.
pub itrunc-Truncated :
    (ip : Dinode) (d : Disk)
    → IsFile ip d
    → (ip' : Dinode) × (d' : Disk) × (itrunc ip d ≡ some (ip', d')) × Truncated ip d ip' d'
unfolding itrunc
itrunc-Truncated ip d good =
    let direct =
      drop_direct-Begun 12 0 ip ip d d good
        (record {
          gone = start-Gone ip d good;
          cleared = λ m lt. absurd (omega arith);
          left = λ m le. refl;
        })
        refl in
    let rest = drop_indirect-Gone ip direct.0 d direct.1 good direct.3 in
    (
      record rest.0 { size = 0 },
      rest.1,
      rw (direct.2, rest.2) refl,
      Gone-Truncated ip rest.0 d rest.1 rest.3 rest.4,
    )
