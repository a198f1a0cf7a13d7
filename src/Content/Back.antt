-- ===== src/Content/Back.antt =====
-- fs.c: what `writei` wrote, `readi` reads back.
use os163_assi.Prelude.{
  ℕ, ◌+◌, ◌-◌, ◌≡◌, ◌<◌, ◌≤◌, Bool, true, false, ◌&&◌, ◌||◌, if◌then◌else◌, ltb, leb, arith, refl,
  ◌∙◌, Bool-cases, inl, inr, minus_one, add32,
}
use os163_assi.Disk.{Disk, Block}
use os163_assi.Inode.{Dinode}
use os163_assi.Content.{FileRun, returned, panicked, starved, readi, writei, max_size}
use os163_assi.Content.Refs.{IsFile}
use os163_assi.Content.Read.{content, Reads, Readi, readi-Readi}
use os163_assi.Content.Write.{Written, Writes, Writei, writei-Writei}

-- A read of `n` bytes that gives those of `src`.
unfoldable pub Back : Block → ℕ → FileRun → Type 0
Back src n (returned r ip d dst) = (r ≡ n) × ((i : ℕ) → i < n → dst i ≡ src i)
Back src n panicked = ⊥
Back src n starved = ⊥

-- A file that was written to is long enough to be read there.
long_enough :
    (size size' off n : ℕ)
    → off ≤ size
    → size' ≡ (if ltb 0 n && ltb size (off + (n - 0)) then off + (n - 0) else size)
    → off + n ≤ size'
long_enough size size' off n le e = elim (Bool-cases (ltb 0 n && ltb size (off + (n - 0)))) [
  | inl grows ↦ ground arith
  | inr stays ↦ ground arith
]

read-Back :
    (ip ip' : Dinode) (d d' : Disk) (src dst : Block) (off n : ℕ) (r : FileRun)
    → Written ip d src 0 off n ip' d'
    → off + n ≤ 71680
    → Reads ip' d' dst 0 off n r
    → Back src n r
unfolding Reads Back
read-Back ip ip' d d' src dst off n (returned r ip2 d2 dst2) w top (e, filled) = (
  e,
  λ i lt.
      let in_buffer : (leb 0 i && ltb i n) ≡ true = ground arith in
      let in_file : (leb off (off + i) && ltb (off + i) (off + (n - 0))) ≡ true = ground arith in
      let e1 : i - 0 ≡ i = omega arith in
      let e2 : 0 + (off + i - off) ≡ i = omega arith in
      let read : dst2 i ≡ content ip' d' (off + i) = filled.bytes i ∙ rw (in_buffer, e1) refl in
      let wrote : content ip' d' (off + i) ≡ src i =
        w.bytes (off + i) (omega arith) ∙ rw (in_file, e2) refl in
      read ∙ wrote,
)
read-Back ip ip' d d' src dst off n panicked w top (pos, from, to, gap) = w.present pos from to gap
read-Back ip ip' d d' src dst off n starved w top stuck = stuck

-- If `writei` of a sound file returns the number of bytes that it was given, then `readi` of as many
-- bytes at the same place neither panics nor gives fewer, and it gives back these bytes.
pub readi-writei :
    (room : ℕ → Bool) (ip ip' : Dinode) (d d' : Disk) (src src' dst : Block) (off n : ℕ)
    → IsFile ip d
    → ((i : ℕ) → src i < 256)
    → off < 4294967296
    → n < 4294967295
    → writei room ip d src off n ≡ returned n ip' d' src'
    → Back src n (readi ip' d' dst off n)
unfolding Writei Writes Readi
readi-writei room ip ip' d d' src src' dst off n good small lt lt' done =
    let wrote : Writei room ip d src off n (returned n ip' d' src') =
      rw done at (writei-Writei room ip d src off n good small lt (omega arith)) in
    elim (Bool-cases ((ltb ip.size off || ltb (add32 off n) off) || ltb max_size (off + n))) [
      | inl bad ↦
          let same : returned n ip' d' src' ≡ returned minus_one ip d src = rw bad at wrote in
          absurd (ground arith)
      | inr fine ↦
          let w : Written ip d src 0 off n ip' d' = (rw fine at wrote).2 in
          let long = long_enough ip.size ip'.size off n (ground arith) w.grown in
          let ok : (ltb ip'.size off || ltb (add32 off n) off) ≡ false = ground arith in
          let whole : ltb ip'.size (off + n) ≡ false = ground arith in
          let r : Reads ip' d' dst 0 off n (readi ip' d' dst off n) =
            rw (ok, whole) at (readi-Readi ip' d' dst off n w.file lt (omega arith)) in
          read-Back ip ip' d d' src dst off n (readi ip' d' dst off n) w (ground arith) r
    ]
