-- ===== src/Content/Round.antt =====
-- fs.c: one round of the loop of `writei`.
use os163_assi.Prelude.{
  ℕ, ◌+◌, ◌-◌, ◌/◌, ◌%◌, ◌≡◌, ◌<◌, ◌≤◌, true, false, ◌&&◌, if◌then◌else◌, ◌==◌, ltb, leb, arith,
  refl, ◌∙◌, Bool-cases, inl, inr,
}
use os163_assi.Disk.{Disk, Block}
use os163_assi.Inode.{Dinode}
use os163_assi.Content.{spliced}
use os163_assi.Content.Maps.{Mapped}
use os163_assi.Content.Bmap.{place}
use os163_assi.Content.Read.{content, content-Mapped}
use os163_assi.Content.Put.{with_block, IsData, byte_at-with_block, byte_at-IsData}

pub spliced-bytes :
    (dst : Block) (t : ℕ) (src : Block) (s m i : ℕ)
    → ((j : ℕ) → dst j < 256)
    → ((j : ℕ) → src j < 256)
    → spliced dst t src s m i < 256
unfolding spliced
spliced-bytes dst t src s m i small small' = ground (arith, small i, small' (s + (i - t)))

pub Mapped-IsData :
    (ip ip' : Dinode) (d d' : Disk) (off b : ℕ)
    → Mapped ip d (place (off / 512)) b ip' d'
    → off < 71680
    → IsData ip' d' (place (off / 512)) b
Mapped-IsData ip ip' d d' off b got lt = record {
  below = ground arith;
  data_place = λ e. ground arith;
  there = got.there;
  real = got.real;
}

-- The bytes of the file after one round of the loop.
pub round_bytes :
    (ip ip' : Dinode) (d d' : Disk) (src : Block) (tot off b m pos : ℕ)
    → Mapped ip d (place (off / 512)) b ip' d'
    → off < 71680
    → m ≤ 512 - off % 512
    → pos < 71680
    → content ip' (with_block d' b (spliced (d'.block b) (off % 512) src tot m)) pos
      ≡ (if leb off pos && ltb pos (off + m) then src (tot + (pos - off)) else content ip d pos)
unfolding spliced
round_bytes ip ip' d d' src tot off b m pos got lt le lt' =
    let at = Mapped-IsData ip ip' d d' off b got lt in
    let x = spliced (d'.block b) (off % 512) src tot m in
    let start =
      byte_at-with_block ip' d' (place (off / 512)) b x (place (pos / 512)) (pos % 512) got.file at
        (ground arith) in
    let kept = content-Mapped ip ip' d d' (place (off / 512)) b pos got lt' in
    start ∙ elim (Bool-cases (leb off pos && ltb pos (off + m))) [
      | inl now ↦
          let same : (place (off / 512) == place (pos / 512)) ≡ true = ground arith in
          let inner : (leb (off % 512) (pos % 512) && ltb (pos % 512) (off % 512 + m)) ≡ true =
            ground arith in
          let e : pos % 512 - off % 512 ≡ pos - off = ground arith in rw (now, same, inner, e) refl
      | inr not_now ↦ elim (Bool-cases (off / 512 == pos / 512)) [
        | inl near ↦
            let same : (place (off / 512) == place (pos / 512)) ≡ true = ground arith in
            let inner : (leb (off % 512) (pos % 512) && ltb (pos % 512) (off % 512 + m)) ≡ false =
              ground arith in
            let e : pos / 512 ≡ off / 512 = ground arith in
            let byte : content ip' d' pos ≡ d'.block b (pos % 512) =
              rw e (byte_at-IsData ip' d' (place (off / 512)) b (pos % 512) at) in
            rw (not_now, same, inner) (cc (byte, kept))
        | inr far ↦
            let other : (place (off / 512) == place (pos / 512)) ≡ false = ground arith in
            rw (not_now, other) kept
      ]
    ]

-- The bytes of the rounds that follow, and those of this round.
pub two_parts :
    (src : Block) (tot off n m pos c : ℕ)
    → tot + m ≤ n
    → (if leb (off + m) pos && ltb pos (off + (n - tot))
        then src (tot + m + (pos - (off + m)))
        else if leb off pos && ltb pos (off + m)
        then src (tot + (pos - off))
        else c)
      ≡ (if leb off pos && ltb pos (off + (n - tot)) then src (tot + (pos - off)) else c)
two_parts src tot off n m pos c le = elim (Bool-cases (leb off pos && ltb pos (off + (n - tot)))) [
  | inr out ↦
      let late : (leb (off + m) pos && ltb pos (off + (n - tot))) ≡ false = ground arith in
      let now : (leb off pos && ltb pos (off + m)) ≡ false = ground arith in
      rw (out, late, now) refl
  | inl within ↦ elim (Bool-cases (ltb pos (off + m))) [
    | inl first ↦
        let late : (leb (off + m) pos && ltb pos (off + (n - tot))) ≡ false = ground arith in
        let now : (leb off pos && ltb pos (off + m)) ≡ true = ground arith in
        rw (within, late, now) refl
    | inr later ↦
        let late : (leb (off + m) pos && ltb pos (off + (n - tot))) ≡ true = ground arith in
        let e : tot + m + (pos - (off + m)) ≡ tot + (pos - off) = ground arith in
        rw (within, late, e) refl
  ]
]
