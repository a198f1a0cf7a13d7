-- ===== src/Content/Trunc/Gone.antt =====
-- fs.c: the blocks of a file that `itrunc` has given back so far.
use os163_assi.Prelude.{
  ℕ, suc, ◌+◌, ◌≡◌, ◌≢◌, ◌<◌, true, false, some, if◌then◌else◌, ◌==◌, ltb, arith, refl, ◌∙◌,
  Bool-cases, Option-cases, inl, inr,
}
use os163_assi.Disk.{Disk, map_block, is_used, bfree}
use os163_assi.Disk.Blocks.{IsDisk, Freed, Bfrees, bfree-Bfrees}
use os163_assi.Inode.{Dinode}
use os163_assi.Content.Refs.{block_ref, IsFile}

-- The place that is freed in turn `k`: the direct blocks, the entries, and the indirect block.
abbrev pub turn : ℕ → ℕ
turn k = if ltb k 12 then k else if ltb k 140 then k + 1 else 12

-- After `k` turns, the blocks of these turns are free, every other block of the device is in use or
-- free as it was, and only the free map has changed.
pub record Gone (ip : Dinode) (d : Disk) (k : ℕ) (d' : Disk) : Type 0 where
  pub disk : IsDisk d'
  pub same_size : d'.size ≡ d.size
  pub same_map : d'.bmapstart ≡ d.bmapstart
  pub free :
      (m : ℕ) → m < k → block_ref ip d (turn m) ≢ 0 → is_used d' (block_ref ip d (turn m)) ≡ false
  pub rest :
      (c : ℕ)
      → c < d.size
      → ((m : ℕ) → m < k → block_ref ip d (turn m) ≢ 0 → block_ref ip d (turn m) ≢ c)
      → is_used d' c ≡ is_used d c
  pub kept : (c i : ℕ) → ((e : ℕ) → e < d.size → c ≢ map_block d e) → d'.block c i ≡ d.block c i

pub start-Gone : (ip : Dinode) (d : Disk) → IsFile ip d → Gone ip d 0 d
start-Gone ip d good = record {
  disk = good.disk;
  same_size = refl;
  same_map = refl;
  free = λ m lt nonzero. absurd (omega arith);
  rest = λ c lt other. refl;
  kept = λ c i other. refl;
}

-- A place without a block takes its turn.
pub skip-Gone :
    (ip : Dinode) (d : Disk) (k : ℕ) (d' : Disk)
    → Gone ip d k d'
    → block_ref ip d (turn k) ≡ 0
    → Gone ip d (suc k) d'
skip-Gone ip d k d' gone gap = record {
  disk = gone.disk;
  same_size = gone.same_size;
  same_map = gone.same_map;
  free = λ m lt nonzero. elim (Bool-cases (m == k)) [
    | inl now ↦ absurd (nonzero (let e : m ≡ k = ground arith in rw e gap))
    | inr before ↦ gone.free m (ground arith) nonzero
  ];
  rest = λ c lt other. gone.rest c lt (λ m lt' nonzero. other m (omega arith) nonzero);
  kept = gone.kept;
}

turn_bound : (k : ℕ) → k < 141 → turn k < 141
turn_bound k lt = ground arith

turns_differ : (m k : ℕ) → m < k → k < 141 → turn m ≢ turn k
turns_differ m k lt lt' e = ground arith

Freed-Gone :
    (ip : Dinode) (d : Disk) (k : ℕ) (d' d'' : Disk)
    → IsFile ip d
    → Gone ip d k d'
    → k < 141
    → block_ref ip d (turn k) ≢ 0
    → Freed d' (block_ref ip d (turn k)) d''
    → Gone ip d (suc k) d''
Freed-Gone ip d k d' d'' good gone lt nonzero f =
    let b = block_ref ip d (turn k) in
    let inside = good.inside (turn k) (turn_bound k lt) nonzero in
    record {
      disk = record {
        bytes = f.bytes;
        map_inside = λ c lt'. ground (arith, gone.disk.map_inside c, f.same_size, f.same_map);
        map_used = λ c lt'.
            let same : map_block d'' c ≡ map_block d' c = omega (arith, f.same_map) in
            let same' : map_block d' c ≡ map_block d c = omega (arith, gone.same_map) in
            let lt2 : c < d'.size = omega (arith, f.same_size) in
            let other =
              good.apart (turn k) c (turn_bound k lt) (omega (arith, gone.same_size)) nonzero in
            let away : (b == map_block d' c) ≡ false = ground arith in
            rw same (f.bits (map_block d' c) ∙ rw away (gone.disk.map_used c lt2));
      };
      same_size = f.same_size ∙ gone.same_size;
      same_map = f.same_map ∙ gone.same_map;
      free = λ m lt' nonzero'. elim (Bool-cases (m == k)) [
        | inl now ↦ let e : m ≡ k = ground arith in rw e (f.bits b ∙ ground arith)
        | inr before ↦ ground (arith, f.bits (block_ref ip d (turn m)), gone.free m)
      ];
      rest = λ c lt' other.
          let away : (b == c) ≡ false = ground (arith, other k (omega arith) nonzero) in
          f.bits c ∙ rw away (gone.rest c lt' (λ m lt2. other m (omega arith)));
      kept = λ c i other.
          f.kept c i (λ e. other b inside (omega (arith, gone.same_map))) ∙ gone.kept c i other;
    }

-- A block whose turn it is can be freed without a panic.
pub bfree-Gone :
    (ip : Dinode) (d : Disk) (k : ℕ) (d' : Disk)
    → IsFile ip d
    → Gone ip d k d'
    → k < 141
    → block_ref ip d (turn k) ≢ 0
    → (d'' : Disk) × (bfree (block_ref ip d (turn k)) d' ≡ some d'') × Gone ip d (suc k) d''
unfolding Bfrees
bfree-Gone ip d k d' good gone lt nonzero =
    let b = block_ref ip d (turn k) in
    let at = turn_bound k lt in
    let still : is_used d' b ≡ true =
      gone.rest b (good.inside (turn k) at nonzero) (λ m lt' nonzero' e.
        turns_differ m k lt' lt
          (good.once (turn m) (turn k) (turn_bound m (omega arith)) at nonzero' e))
      ∙ good.used (turn k) at nonzero in
    let frees = bfree-Bfrees b d' gone.disk in
    elim (Option-cases (bfree b d')) [
      | inl gave_up ↦ let free = rw gave_up at frees in absurd (ground arith)
      | inr (d'', e) ↦
          let done = rw e at frees in (d'', e, Freed-Gone ip d k d' d'' good gone lt nonzero done.1)
    ]
