-- ===== src/Content/Write.antt =====
-- fs.c: `writei` puts bytes into a file.
use os163_assi.Prelude.{
  ℕ, zero, suc, ◌+◌, ◌-◌, ◌/◌, ◌%◌, ◌≡◌, ◌≢◌, ◌<◌, ◌≤◌, ◌⊎◌, ap, ◌==◌, Bool, true, false, ◌&&◌,
  ◌||◌, Option, none, some, if◌then◌else◌, ltb, leb, arith, refl, ◌∙◌, Bool-cases, Option-cases,
  inl, inr, minus_one, add32,
}
use os163_assi.Disk.{Disk, Block}
use os163_assi.Inode.{Dinode}
use os163_assi.Content.{
  bmap, FileRun, returned, panicked, starved, chunk, spliced, resized, write_loop, writei, max_size,
}
use os163_assi.Content.Refs.{block_ref, IsFile}
use os163_assi.Content.Maps.{Mapped}
use os163_assi.Content.Direct.{Maps}
use os163_assi.Content.Bmap.{place, bmap-Maps}
use os163_assi.Content.Read.{content, Missing, Missing-Mapped, chunk-bounds}
use os163_assi.Content.Put.{with_block, block_ref-with_block, with_block-IsFile}
use os163_assi.Content.Round.{spliced-bytes, Mapped-IsData, round_bytes, two_parts}
use os163_assi.Content.Resize.{byte_at-resized, block_ref-resized, resized-IsFile}

-- The bytes of the file from `off` on are those of the buffer from `tot` to `n`, and the others are
-- as before. The file is sound, and has grown if it has to.
pub record Written (ip : Dinode) (d : Disk) (src : Block) (tot off n : ℕ) (ip' : Dinode) (d' : Disk)
    : Type 0 where
  pub file : IsFile ip' d'
  pub grown :
      ip'.size ≡ (if ltb 0 n && ltb ip.size (off + (n - tot)) then off + (n - tot) else ip.size)
  pub bytes :
      (pos : ℕ)
      → pos < 71680
      → content ip' d' pos ≡ (
          if leb off pos && ltb pos (off + (n - tot))
          then src (tot + (pos - off))
          else content ip d pos)
  pub kept : (m : ℕ) → m < 141 → block_ref ip d m ≢ 0 → block_ref ip' d' m ≢ 0
  pub present : (pos : ℕ) → off ≤ pos → pos < off + (n - tot) → Missing ip' d' pos → ⊥

-- The log had room in each round: at the start and wherever a block of the file begins.
abbrev pub Logged : (ℕ → Bool) → ℕ → ℕ → ℕ → Type 0
Logged room tot off n =
    (t : ℕ) → tot ≤ t → t < n → (t ≡ tot) ⊎ ((off + (t - tot)) % 512 ≡ 0) → room t ≡ true

-- A run of the loop panics only at a block that is not there yet or for want of room in the log.
unfoldable pub Writes : (ℕ → Bool) → Dinode → Disk → Block → ℕ → ℕ → ℕ → FileRun → Type 0
Writes room ip d src tot off n (returned r ip' d' src') =
    (r ≡ n) × (src' ≡ src) × Written ip d src tot off n ip' d' × Logged room tot off n
Writes room ip d src tot off n panicked =
    ((pos : ℕ) × (off ≤ pos) × (pos < off + (n - tot)) × Missing ip d pos)
    ⊎ ((done : ℕ) × (tot ≤ done) × (done < n) × (room done ≡ false))
Writes room ip d src tot off n starved = ⊥

-- A block of the file that begins behind the byte `tot` begins behind a chunk at `tot`.
behind :
    (tot off m t : ℕ)
    → tot ≤ t
    → t ≢ tot
    → m ≤ 512 - off % 512
    → (off + (t - tot)) % 512 ≡ 0
    → (tot + m ≤ t) × ((off + m + (t - (tot + m))) % 512 ≡ 0)
behind tot off m t from ne le aligned =
    let far : tot + m ≤ t = omega arith in
    let same : off + m + (t - (tot + m)) ≡ off + (t - tot) = omega arith in (far, rw same aligned)

write_chunk :
    (room : ℕ → Bool) (ip ip' : Dinode) (d d' : Disk) (src : Block) (tot off n b m : ℕ)
    (r : FileRun)
    → Mapped ip d (place (off / 512)) b ip' d'
    → room tot ≡ true
    → 0 < m
    → tot + m ≤ n
    → m ≤ 512 - off % 512
    → off + (n - tot) ≤ 71680
    → Writes room ip'
        (with_block d' b (spliced (d'.block b) (off % 512) src tot m))
        src
        (tot + m)
        (off + m)
        n
        r
    → Writes room ip d src tot off n r
unfolding Writes
write_chunk room ip ip' d d' src tot off n b m (returned r ip2 d2 src2) got fine one le le' top
      (e, e', done, logged) =
    let end : off + m + (n - (tot + m)) ≡ off + (n - tot) = omega arith in
    let at = Mapped-IsData ip ip' d d' off b got (omega arith) in
    let refs : (k : ℕ)
        → block_ref ip' (with_block d' b (spliced (d'.block b) (off % 512) src tot m)) k
          ≡ block_ref ip' d' k =
      λ k.
        block_ref-with_block ip' d' (place (off / 512)) b
          (spliced (d'.block b) (off % 512) src tot m) k got.file at in
    (
      e,
      e',
      record {
        file = done.file;
        grown = done.grown ∙ rw (end, got.same_size) refl;
        bytes = λ pos lt.
            done.bytes pos lt
            ∙ rw (end, round_bytes ip ip' d d' src tot off b m pos got (omega arith) le' lt)
                (two_parts src tot off n m pos (content ip d pos) le);
        kept = λ k lt nonzero. done.kept k lt (λ gap. ground (arith, refs k, got.kept k lt));
        present = λ pos from to gap. elim (Bool-cases (ltb pos (off + m))) [
          | inr later ↦ done.present pos (ground arith) (omega arith) gap
          | inl first ↦
              let e : place (pos / 512) ≡ place (off / 512) = ground arith in
              done.kept (place (off / 512)) at.below
                (λ gap'. ground (arith, refs (place (off / 512)), at.there, at.real)) (rw e at gap)
        ];
      },
      λ t from to start. elim start [
        | inl first ↦ ap room first ∙ fine
        | inr aligned ↦ elim (Bool-cases (t == tot)) [
          | inl first ↦ ap room (ground arith) ∙ fine
          | inr later ↦
              let (far, aligned') = behind tot off m t from (ground arith) le' aligned in
              logged t far to (inr aligned')
        ]
      ],
    )
write_chunk room ip ip' d d' src tot off n b m panicked got fine one le le' top
      (inl (pos, from, to, gap)) =
    let at = Mapped-IsData ip ip' d d' off b got (omega arith) in
    inl (
      pos,
      omega arith,
      omega arith,
      Missing-Mapped ip ip' d d' _ b pos got (omega arith) (
          cc (
            block_ref-with_block ip' d' (place (off / 512)) b
              (spliced (d'.block b) (off % 512) src tot m) (place (pos / 512)) got.file at)),
    )
write_chunk room ip ip' d d' src tot off n b m panicked got fine one le le' top
      (inr (done, from, to, full)) =
    inr (done, omega arith, to, full)
write_chunk room ip ip' d d' src tot off n b m starved got fine one le le' top stuck = stuck

write_all :
    (room : ℕ → Bool) (ip : Dinode) (d : Disk) (src : Block) (tot off n : ℕ)
    → IsFile ip d
    → tot ≡ n
    → off ≤ 71680
    → Writes room ip d src tot off n (returned n (resized n off ip) d src)
unfolding Writes
write_all room ip d src tot off n good done le = (
  refl,
  refl,
  record {
    file = resized-IsFile ip d off n good le;
    grown =
        let end : off + (n - tot) ≡ off = omega arith in
        rw end (elim (Bool-cases (ltb 0 n && ltb ip.size off)) [
          | inl grows ↦ rw grows refl
          | inr stays ↦ rw stays refl
        ]);
    bytes = λ pos lt.
        let out : (leb off pos && ltb pos (off + (n - tot))) ≡ false = ground arith in
        rw out (byte_at-resized ip d off n (place (pos / 512)) (pos % 512));
    kept = λ m lt nonzero gap. nonzero (cc (block_ref-resized ip d off n m));
    present = λ pos from to gap. absurd (omega arith);
  },
  λ t from to start. absurd (omega arith),
)

write_gap :
    (room : ℕ → Bool) (ip : Dinode) (d : Disk) (src : Block) (tot off n : ℕ)
    (r : Option (ℕ × Dinode × Disk))
    → r ≡ none
    → Maps ip d (place (off / 512)) r
    → tot < n
    → Writes room ip d src tot off n panicked
unfolding Writes Maps
write_gap room ip d src tot off n none e gap lt = inl (off, omega arith, omega arith, gap)
write_gap room ip d src tot off n (some x) e got lt = absurd cc

write_loop-Writes :
    (room : ℕ → Bool) (fuel : ℕ) (ip : Dinode) (d : Disk) (src : Block) (tot off n : ℕ)
    → IsFile ip d
    → ((i : ℕ) → src i < 256)
    → tot ≤ n
    → off + (n - tot) ≤ 71680
    → n - tot ≤ fuel
    → Writes room ip d src tot off n (write_loop room fuel ip d src tot off n)
unfolding write_loop Maps Writes
write_loop-Writes room zero ip d src tot off n good small le top enough =
    let over : ltb tot n ≡ false = ground arith in
    rw (over, write_loop) (write_all room ip d src tot off n good (omega arith) (omega arith))
write_loop-Writes room (suc fuel) ip d src tot off n good small le top enough =
    elim (Bool-cases (ltb tot n)) [
      | inr over ↦
          rw (over, write_loop)
            (write_all room ip d src tot off n good (ground arith) (omega arith))
      | inl more ↦
          let maps = bmap-Maps ip d (off / 512) good (ground arith) in
          elim (Option-cases (bmap ip (off / 512) d)) [
            | inl gone ↦
                rw (more, gone, write_loop)
                  (write_gap room ip d src tot off n (bmap ip (off / 512) d) gone maps
                    (ground arith))
            | inr ((b, ip', d'), e) ↦
                let got : Mapped ip d (place (off / 512)) b ip' d' = rw e at maps in
                let m = chunk (n - tot) off in
                let bounds = chunk-bounds (n - tot) off (ground arith) in
                let x = spliced (d'.block b) (off % 512) src tot m in
                let file =
                  with_block-IsFile ip' d' (place (off / 512)) b x got.file
                    (Mapped-IsData ip ip' d d' off b got (ground arith))
                    (λ i.
                      spliced-bytes (d'.block b) (off % 512) src tot m i
                        (λ j. got.file.disk.bytes b j) small) in
                elim (Bool-cases (room tot)) [
                  | inr full ↦
                      rw (more, e, write_loop, full) (inr (tot, omega arith, ground arith, full))
                  | inl fine ↦
                      rw (more, e, write_loop, fine)
                        (write_chunk room ip ip' d d' src tot off n b m _ got fine bounds.2
                          (omega (arith, bounds.0)) bounds.1 top
                          (write_loop-Writes room fuel ip' (with_block d' b x) src (tot + m)
                            (off + m) n file small (omega (arith, bounds.0))
                            (omega (arith, bounds.0)) (omega (arith, bounds.0, bounds.2))))
                ]
          ]
    ]

-- What `writei` gives: -1 and no change if the place is behind the end of the file, the sum with `n`
-- wraps around or the file would be too large.
unfoldable pub Writei : (ℕ → Bool) → Dinode → Disk → Block → ℕ → ℕ → FileRun → Type 0
Writei room ip d src off n r =
    if (ltb ip.size off || ltb (add32 off n) off) || ltb max_size (off + n)
    then r ≡ returned minus_one ip d src
    else Writes room ip d src 0 off n r

-- `writei` of a sound file gives -1 and changes nothing if the place is behind the end of the file,
-- the sum of place and length wraps around, or the end would be behind the greatest size of a file.
-- Else it panics only if a block of the part to write is not there yet, or if the log has no room for a
-- block of the part. Otherwise the log had room for each of them, and the number of bytes is returned;
-- then these bytes of the file are those of the buffer, every other byte of the file is as it was, the
-- size has grown to the end of the part if it was smaller, and the file and the free map are sound
-- again. For what `balloc` logs, the log is taken to have room.
pub writei-Writei :
    (room : ℕ → Bool) (ip : Dinode) (d : Disk) (src : Block) (off n : ℕ)
    → IsFile ip d
    → ((i : ℕ) → src i < 256)
    → off < 4294967296
    → n < 4294967296
    → Writei room ip d src off n (writei room ip d src off n)
unfolding writei Writei
writei-Writei room ip d src off n good small lt lt' =
    elim (Bool-cases (ltb ip.size off || ltb (add32 off n) off)) [
      | inl bad ↦ rw bad refl
      | inr fine ↦
          let whole : add32 off n ≡ off + n = ground arith in
          elim (Bool-cases (ltb max_size (off + n))) [
            | inl large ↦ rw (fine, whole, large) refl
            | inr fits ↦
                rw (fine, whole, fits)
                  (write_loop-Writes room n ip d src 0 off n good small (omega arith) (ground arith)
                    (omega arith))
          ]
    ]
