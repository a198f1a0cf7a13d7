-- ===== src/Content/Read.antt =====
-- fs.c: `readi` gives the bytes of a file.
use os163_assi.Prelude.{
  ℕ, zero, suc, ◌+◌, ◌-◌, ◌/◌, ◌%◌, ◌≡◌, ◌≢◌, ◌<◌, ◌≤◌, true, false, ◌&&◌, ◌||◌, Option, none, some,
  if◌then◌else◌, ◌==◌, ltb, leb, arith, refl, ◌∙◌, Bool-cases, Option-cases, inl, inr, minus_one,
  add32,
}
use os163_assi.Disk.{Disk, Block, bsize}
use os163_assi.Inode.{Dinode}
use os163_assi.Content.{
  bmap, FileRun, returned, panicked, starved, chunk, spliced, read_loop, readi,
}
use os163_assi.Content.Refs.{block_ref, IsFile}
use os163_assi.Content.Maps.{byte_at, Mapped}
use os163_assi.Content.Direct.{Maps}
use os163_assi.Content.Bmap.{place, bmap-Maps}

-- The byte of a file at a place.
abbrev pub content : Dinode → Disk → ℕ → ℕ
content ip d pos = byte_at ip d (place (pos / 512)) (pos % 512)

abbrev pub Missing : Dinode → Disk → ℕ → Type 0
Missing ip d pos = block_ref ip d (place (pos / 512)) ≡ 0

pub content-Mapped :
    (ip ip' : Dinode) (d d' : Disk) (n b pos : ℕ)
    → Mapped ip d n b ip' d'
    → pos < 71680
    → content ip' d' pos ≡ content ip d pos
content-Mapped ip ip' d d' n b pos got lt =
    got.bytes (place (pos / 512)) (pos % 512) (ground arith) (λ e. ground arith)

pub Missing-Mapped :
    (ip ip' : Dinode) (d d' : Disk) (n b pos : ℕ)
    → Mapped ip d n b ip' d'
    → pos < 71680
    → Missing ip' d' pos
    → Missing ip d pos
Missing-Mapped ip ip' d d' n b pos got lt gap =
    elim (Bool-cases (block_ref ip d (place (pos / 512)) == 0)) [
      | inl e ↦ ground arith
      | inr there ↦ absurd (ground (arith, got.kept (place (pos / 512)) (ground arith)))
    ]

-- A block that is there holds the bytes of its part of the file.
pub content-block :
    (ip : Dinode) (d : Disk) (off b k : ℕ)
    → block_ref ip d (place (off / 512)) ≡ b
    → b ≢ 0
    → k < 512 - off % 512
    → content ip d (off + k) ≡ d.block b (off % 512 + k)
unfolding byte_at
content-block ip d off b k there real lt =
    let e : (off + k) / 512 ≡ off / 512 = omega arith in
    let e' : (off + k) % 512 ≡ off % 512 + k = omega arith in
    let nonzero : (b == 0) ≡ false = ground arith in rw (e, e', there, nonzero) refl

-- The bytes from `tot` to `n` of the buffer are those of the file from `off` on, and the others are
-- as before. The file has the same bytes and is sound.
pub record Filled (ip : Dinode) (d : Disk) (dst : Block) (tot off n : ℕ) (ip' : Dinode) (d' : Disk)
    (dst' : Block) : Type 0 where
  pub file : IsFile ip' d'
  pub same_size : ip'.size ≡ ip.size
  pub same : (pos : ℕ) → pos < 71680 → content ip' d' pos ≡ content ip d pos
  pub gaps : (pos : ℕ) → pos < 71680 → Missing ip' d' pos → Missing ip d pos
  pub bytes :
      (i : ℕ) → dst' i ≡ (if leb tot i && ltb i n then content ip d (off + (i - tot)) else dst i)

unfoldable pub Reads : Dinode → Disk → Block → ℕ → ℕ → ℕ → FileRun → Type 0
Reads ip d dst tot off n (returned r ip' d' dst') = (r ≡ n) × Filled ip d dst tot off n ip' d' dst'
Reads ip d dst tot off n panicked =
    (pos : ℕ) × (off ≤ pos) × (pos < off + (n - tot)) × Missing ip d pos
Reads ip d dst tot off n starved = ⊥

chunk_bytes :
    (ip ip' : Dinode) (d d' : Disk) (dst : Block) (tot off n b m i : ℕ)
    → Mapped ip d (place (off / 512)) b ip' d'
    → tot + m ≤ n
    → m ≤ 512 - off % 512
    → off + (n - tot) ≤ 71680
    → (if leb (tot + m) i && ltb i n
        then content ip' d' (off + m + (i - (tot + m)))
        else spliced dst tot (d'.block b) (off % 512) m i)
      ≡ (if leb tot i && ltb i n then content ip d (off + (i - tot)) else dst i)
unfolding spliced
chunk_bytes ip ip' d d' dst tot off n b m i got le le' top =
    elim (Bool-cases (leb tot i && ltb i n)) [
      | inr out ↦
          let late : (leb (tot + m) i && ltb i n) ≡ false = ground arith in
          let here : (leb tot i && ltb i (tot + m)) ≡ false = ground arith in
          rw (out, late, here) refl
      | inl within ↦
          let kept =
            content-Mapped ip ip' d d' (place (off / 512)) b (off + (i - tot)) got (ground arith) in
          elim (Bool-cases (ltb i (tot + m))) [
            | inl now ↦
                let late : (leb (tot + m) i && ltb i n) ≡ false = ground arith in
                let here : (leb tot i && ltb i (tot + m)) ≡ true = ground arith in
                let read = content-block ip' d' off b (i - tot) got.there got.real (ground arith) in
                rw (within, late, here) (cc (read, kept))
            | inr later ↦
                let late : (leb (tot + m) i && ltb i n) ≡ true = ground arith in
                let e : off + m + (i - (tot + m)) ≡ off + (i - tot) = ground arith in
                rw (within, late, e) kept
          ]
    ]

read_chunk :
    (ip ip' : Dinode) (d d' : Disk) (dst : Block) (tot off n b m : ℕ) (r : FileRun)
    → Mapped ip d (place (off / 512)) b ip' d'
    → tot + m ≤ n
    → m ≤ 512 - off % 512
    → off + (n - tot) ≤ 71680
    → Reads ip' d' (spliced dst tot (d'.block b) (off % bsize) m) (tot + m) (off + m) n r
    → Reads ip d dst tot off n r
unfolding Reads spliced
read_chunk ip ip' d d' dst tot off n b m (returned r ip2 d2 dst2) got le le' top (e, done) = (
  e,
  record {
    file = done.file;
    same_size = done.same_size ∙ got.same_size;
    same = λ pos lt. done.same pos lt ∙ content-Mapped ip ip' d d' _ b pos got lt;
    gaps = λ pos lt gap. Missing-Mapped ip ip' d d' _ b pos got lt (done.gaps pos lt gap);
    bytes = λ i. done.bytes i ∙ chunk_bytes ip ip' d d' dst tot off n b m i got le le' top;
  },
)
read_chunk ip ip' d d' dst tot off n b m panicked got le le' top (pos, from, to, gap) =
    (pos, omega arith, omega arith, Missing-Mapped ip ip' d d' _ b pos got (omega arith) gap)
read_chunk ip ip' d d' dst tot off n b m starved got le le' top stuck = stuck

pub chunk-bounds :
    (left off : ℕ)
    → 0 < left
    → (chunk left off ≤ left) × (chunk left off ≤ 512 - off % 512) × (0 < chunk left off)
chunk-bounds left off lt = elim (Bool-cases (ltb left (512 - off % 512))) [
  | inl short ↦ rw short (omega arith, ground arith, lt)
  | inr long ↦ rw long (ground arith, omega arith, omega arith)
]

read_all :
    (ip : Dinode) (d : Disk) (dst : Block) (tot off n : ℕ)
    → IsFile ip d
    → n ≤ tot
    → Reads ip d dst tot off n (returned n ip d dst)
unfolding Reads
read_all ip d dst tot off n good le = (
  refl,
  record {
    file = good;
    same_size = refl;
    same = λ pos lt. refl;
    gaps = λ pos lt gap. gap;
    bytes = λ i. let out : (leb tot i && ltb i n) ≡ false = ground arith in rw out refl;
  },
)

read_gap :
    (ip : Dinode) (d : Disk) (dst : Block) (tot off n : ℕ) (r : Option (ℕ × Dinode × Disk))
    → r ≡ none
    → Maps ip d (place (off / 512)) r
    → tot < n
    → Reads ip d dst tot off n panicked
unfolding Reads Maps
read_gap ip d dst tot off n none e gap lt = (off, omega arith, omega arith, gap)
read_gap ip d dst tot off n (some x) e got lt = absurd cc

read_loop-Reads :
    (fuel : ℕ) (ip : Dinode) (d : Disk) (dst : Block) (tot off n : ℕ)
    → IsFile ip d
    → tot ≤ n
    → off + (n - tot) ≤ 71680
    → n - tot ≤ fuel
    → Reads ip d dst tot off n (read_loop fuel ip d dst tot off n)
unfolding read_loop Maps
read_loop-Reads zero ip d dst tot off n good le top enough =
    let over : ltb tot n ≡ false = ground arith in
    rw (over, read_loop) (read_all ip d dst tot off n good (omega arith))
read_loop-Reads (suc fuel) ip d dst tot off n good le top enough = elim (Bool-cases (ltb tot n)) [
  | inr over ↦ rw (over, read_loop) (read_all ip d dst tot off n good (ground arith))
  | inl more ↦
      let maps = bmap-Maps ip d (off / 512) good (ground arith) in
      elim (Option-cases (bmap ip (off / 512) d)) [
        | inl gone ↦
            rw (more, gone, read_loop)
              (read_gap ip d dst tot off n (bmap ip (off / 512) d) gone maps (ground arith))
        | inr ((b, ip', d'), e) ↦
            let got : Mapped ip d (place (off / 512)) b ip' d' = rw e at maps in
            let m = chunk (n - tot) off in
            let bounds = chunk-bounds (n - tot) off (ground arith) in
            rw (more, e, read_loop)
              (read_chunk ip ip' d d' dst tot off n b m _ got (omega (arith, bounds.0)) bounds.1 top
                (read_loop-Reads fuel ip' d' (spliced dst tot (d'.block b) (off % 512) m) (tot + m)
                  (off + m) n got.file (omega (arith, bounds.0)) (omega (arith, bounds.0))
                  (omega (arith, bounds.0, bounds.2))))
      ]
]

-- What `readi` gives: -1 and no change if the place is behind the end of the file or the sum with
-- `n` wraps around, and else the bytes up to the end of the file.
unfoldable pub Readi : Dinode → Disk → Block → ℕ → ℕ → FileRun → Type 0
Readi ip d dst off n r =
    if ltb ip.size off || ltb (add32 off n) off
    then r ≡ returned minus_one ip d dst
    else Reads ip d dst 0 off (if ltb ip.size (off + n) then ip.size - off else n) r

-- `readi` of a sound file gives -1 and changes nothing if the place is behind the end of the file or
-- the sum of place and length wraps around. Else it reads up to the end of the file: it panics only
-- if a block of that part is not there yet, and otherwise returns the number of bytes, puts these
-- bytes of the file into the buffer and leaves the rest of the buffer, every byte of the file and its
-- size as they were.
pub readi-Readi :
    (ip : Dinode) (d : Disk) (dst : Block) (off n : ℕ)
    → IsFile ip d
    → off < 4294967296
    → n < 4294967296
    → Readi ip d dst off n (readi ip d dst off n)
unfolding readi Readi
readi-Readi ip d dst off n good lt lt' =
    elim (Bool-cases (ltb ip.size off || ltb (add32 off n) off)) [
      | inl bad ↦ rw bad refl
      | inr fine ↦
          let whole : add32 off n ≡ off + n = ground arith in
          elim (Bool-cases (ltb ip.size (off + n))) [
            | inl long ↦
                rw (fine, whole, long)
                  (read_loop-Reads (ip.size - off) ip d dst 0 off (ip.size - off) good (omega arith)
                    (ground (arith, good.small)) (omega arith))
            | inr short ↦
                rw (fine, whole, short)
                  (read_loop-Reads n ip d dst 0 off n good (omega arith)
                    (ground (arith, good.small)) (omega arith))
          ]
    ]
