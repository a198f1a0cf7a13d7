-- ===== src/Disk/Blocks.antt =====
-- fs.c: `balloc` and `bfree` on the free map.
use os163_assi.Prelude.{
  ℕ, ◌/◌, ◌%◌, ◌^◌, ◌≡◌, ◌<◌, Bool, true, false, not, Option, none, some, if◌then◌else◌, ◌==◌,
  arith, refl, Bool-cases, Option-cases, inl, inr, find_first, Found, find_first-Found,
  find_first-none,
}
use os163_assi.Disk.{
  Disk, bpb, mask, is_set, set_bit, clear_bit, map_block, map_byte, is_used, put_byte, bzero, taken,
  balloc, bfree,
}
use os163_assi.Disk.Bits.{is_set-set_bit, is_set-clear_bit, set_bit_bound, clear_bit_bound}

-- Every place of every block holds a byte, and the blocks of the free map are in use, as `mkfs`
-- leaves them.
pub record IsDisk (d : Disk) : Type 0 where
  pub bytes : (b i : ℕ) → d.block b i < 256
  pub map_inside : (c : ℕ) → c < d.size → map_block d c < d.size
  pub map_used : (c : ℕ) → c < d.size → is_used d (map_block d c) ≡ true

is_used_lem : (d : Disk) (c : ℕ) → is_used d c ≡ is_set (map_byte d c) (mask (c % bpb))
unfolding is_used
is_used_lem d c = refl

map_byte-put_byte :
    (d : Disk) (m i v c : ℕ)
    → map_byte (put_byte d m i v) c ≡ (
        if m == map_block d c then (if i == c % bpb / 8 then v else map_byte d c) else map_byte d c)
map_byte-put_byte d m i v c = ground arith

differ_block : (d : Disk) (b c : ℕ) → (map_block d b == map_block d c) ≡ false → (b == c) ≡ false
differ_block d b c far = ground arith

differ_byte : (b c : ℕ) → (b % bpb / 8 == c % bpb / 8) ≡ false → (b == c) ≡ false
differ_byte b c far = ground arith

differ_bit : (b c : ℕ) → (b % bpb % 8 == c % bpb % 8) ≡ false → (b == c) ≡ false
differ_bit b c far = ground arith

-- Two blocks whose bits of the free map are in one place are one block.
one_place :
    (d : Disk) (b c : ℕ)
    → (map_block d b == map_block d c) ≡ true
    → (b % bpb / 8 == c % bpb / 8) ≡ true
    → (b % bpb % 8 == c % bpb % 8) ≡ true
    → (b == c) ≡ true
one_place d b c e e' e'' = ground arith

same_byte :
    (d : Disk) (b c : ℕ)
    → (map_block d b == map_block d c) ≡ true
    → (b % bpb / 8 == c % bpb / 8) ≡ true
    → map_byte d b ≡ map_byte d c
same_byte d b c e e' = ground arith

-- A write to the byte that holds the bit of `b` changes no other bit, if it changes none in the byte.
is_used-put_byte :
    (d : Disk) (b c v : ℕ) (bit : Bool)
    → ((j : ℕ)
        → j < 8
        → is_set v (2 ^ j) ≡ (if b % bpb % 8 == j then bit else is_set (map_byte d b) (2 ^ j)))
    → is_used (put_byte d (map_block d b) (b % bpb / 8) v) c ≡ (if b == c then bit else is_used d c)
is_used-put_byte d b c v bit writes =
    let start = is_used_lem (put_byte d (map_block d b) (b % bpb / 8) v) c in
    let bits = writes (c % bpb % 8) (omega arith) in
    let byte = map_byte-put_byte d (map_block d b) (b % bpb / 8) v c in
    elim (Bool-cases (map_block d b == map_block d c)) [
      | inr far ↦ rw start (rw byte (rw far (rw (differ_block d b c far) (cc (is_used_lem d c)))))
      | inl near ↦ elim (Bool-cases (b % bpb / 8 == c % bpb / 8)) [
        | inr apart ↦
            rw start
              (rw byte (rw near (rw apart (rw (differ_byte b c apart) (cc (is_used_lem d c))))))
        | inl same ↦ elim (Bool-cases (b % bpb % 8 == c % bpb % 8)) [
          | inl this ↦ rw start (
              rw byte
                (rw near (rw same (rw (one_place d b c near same this) rw bits (rw this refl)))))
          | inr other ↦ rw start (
              rw byte (
                rw near (
                  rw same (
                    rw (differ_bit b c other) rw bits
                      (rw other (rw (same_byte d b c near same) (cc (is_used_lem d c))))))))
        ]
      ]
    ]

-- `balloc` gives a block `b` of the device that was free. Of the bits for the
-- device's blocks, its own alone changes, and is now set; the block is full of zeros; every other block but that of its bit keeps its bytes.
pub record Taken (d : Disk) (b : ℕ) (d' : Disk) : Type 0 where
  pub inside : b < d.size
  pub was_free : is_used d b ≡ false
  pub lowest : (c : ℕ) → c < b → is_used d c ≡ true
  pub bits : (c : ℕ) → c < d.size → is_used d' c ≡ (if b == c then true else is_used d c)
  pub zeroed : (i : ℕ) → d'.block b i ≡ 0
  pub kept : (c i : ℕ) → (c ≡ b → ⊥) → (c ≡ map_block d b → ⊥) → d'.block c i ≡ d.block c i
  pub still : IsDisk d'
  pub same_size : d'.size ≡ d.size
  pub same_map : d'.bmapstart ≡ d.bmapstart

-- `bfree` of a block in use clears its bit of the free map and no other, and leaves every other
-- block as it was.
pub record Freed (d : Disk) (b : ℕ) (d' : Disk) : Type 0 where
  pub bits : (c : ℕ) → is_used d' c ≡ (if b == c then false else is_used d c)
  pub kept : (c i : ℕ) → (c ≡ map_block d b → ⊥) → d'.block c i ≡ d.block c i
  pub bytes : (c i : ℕ) → d'.block c i < 256
  pub same_size : d'.size ≡ d.size
  pub same_map : d'.bmapstart ≡ d.bmapstart

set_writes :
    (d : Disk) (b j : ℕ)
    → IsDisk d
    → j < 8
    → is_set (set_bit (map_byte d b) (mask (b % bpb))) (2 ^ j)
      ≡ (if b % bpb % 8 == j then true else is_set (map_byte d b) (2 ^ j))
set_writes d b j good lt =
    is_set-set_bit (map_byte d b) (b % bpb % 8) j (good.bytes _ _) (omega arith) lt

clear_writes :
    (d : Disk) (b j : ℕ)
    → IsDisk d
    → j < 8
    → is_set (clear_bit (map_byte d b) (mask (b % bpb))) (2 ^ j)
      ≡ (if b % bpb % 8 == j then false else is_set (map_byte d b) (2 ^ j))
clear_writes d b j good lt =
    is_set-clear_bit (map_byte d b) (b % bpb % 8) j (good.bytes _ _) (omega arith) lt

-- Zeroing a block that holds no bits of the free map changes none.
is_used-bzero :
    (d : Disk) (b c : ℕ) → (b == map_block d c) ≡ false → is_used (bzero b d) c ≡ is_used d c
unfolding is_used
is_used-bzero d b c apart = rw apart

put_bound :
    (d : Disk) (m i v : ℕ)
    → ((b i' : ℕ) → d.block b i' < 256)
    → v < 256
    → (b i' : ℕ) → (put_byte d m i v).block b i' < 256
put_bound d m i v bytes lt b i' = ground (arith, bytes b i', bytes m i')

put_byte-Taken :
    (d : Disk) (b : ℕ)
    → IsDisk d
    → Found (λ b. not (is_used d b)) 0 d.size b
    → Taken d b (
        bzero b
          (put_byte d (map_block d b) (b % bpb / 8) (set_bit (map_byte d b) (mask (b % bpb)))))
put_byte-Taken d b good found =
    let v = set_bit (map_byte d b) (mask (b % bpb)) in
    let marked = put_byte d (map_block d b) (b % bpb / 8) v in
    let free : is_used d b ≡ false = ground (arith, found.hit) in
    let apart : (c : ℕ) → c < d.size → (b == map_block d c) ≡ false =
      λ c lt. ground (arith, good.map_used c lt) in
    let bits : (c : ℕ)
        → c < d.size
        → is_used (bzero b marked) c ≡ (if b == c then true else is_used d c) =
      λ c lt.
        rw (is_used-bzero marked b c (apart c lt))
          (is_used-put_byte d b c v true (λ j lt'. set_writes d b j good lt')) in
    record {
      inside = omega (arith, found.below);
      was_free = free;
      lowest = λ c lt. ground (arith, found.missed c);
      bits = bits;
      zeroed = λ i. ground arith;
      kept = λ c i other other'. ground arith;
      still = record {
        bytes = λ c i. elim (Bool-cases (b == c)) [
          | inl here ↦ rw here (omega arith)
          | inr there ↦ rw there (
              put_bound d (map_block d b) (b % bpb / 8) v good.bytes
                (set_bit_bound (map_byte d b) (b % bpb % 8) (good.bytes _ _) (omega arith)) c i)
        ];
        map_inside = good.map_inside;
        map_used = λ c lt.
            rw (bits (map_block d c) (good.map_inside c lt)) (ground (arith, good.map_used c lt));
      };
      same_size = refl;
      same_map = refl;
    }

-- What `balloc` gives.
unfoldable pub Ballocs : Disk → Option (ℕ × Disk) → Type 0
Ballocs d none = (c : ℕ) → c < d.size → is_used d c ≡ true
Ballocs d (some (b, d')) = Taken d b d'

-- `balloc` on a disk whose free map is kept right: when it panics, every block of the device is in
-- use, and when it gives a block, that is the free block with the least number, only its bit of the
-- free map is set, the block is full of zeros, and every other block keeps its bytes, but for the
-- block of the free map with its bit.
pub balloc-Ballocs : (d : Disk) → IsDisk d → Ballocs d (balloc d)
unfolding balloc taken Ballocs
balloc-Ballocs d good = elim (Option-cases (find_first (λ b. not (is_used d b)) d.size 0)) [
  | inl none_left ↦
      rw none_left (λ c lt. ground (arith, find_first-none (λ b. not (is_used d b)) d.size 0 c))
  | inr (b, first) ↦ rw first (put_byte-Taken d b good (find_first-Found _ d.size 0 b first))
]

-- What `bfree` of block `b` gives.
unfoldable pub Bfrees : ℕ → Disk → Option Disk → Type 0
Bfrees b d none = is_used d b ≡ false
Bfrees b d (some d') = is_used d b ≡ true × Freed d b d'

freed-Bfrees :
    (b : ℕ) (d : Disk) (used : Bool)
    → is_used d b ≡ used
    → IsDisk d
    → Bfrees b d (
        if not used
        then none
        else some
            (put_byte d (map_block d b) (b % bpb / 8) (clear_bit (map_byte d b) (mask (b % bpb)))))
unfolding Bfrees
freed-Bfrees b d false free good = free
freed-Bfrees b d true used good = (
  used,
  record {
    bits = λ c.
        is_used-put_byte d b c (clear_bit (map_byte d b) (mask (b % bpb))) false
          (λ j lt. clear_writes d b j good lt);
    kept = λ c i other. ground arith;
    bytes =
        put_bound d (map_block d b) (b % bpb / 8) (clear_bit (map_byte d b) (mask (b % bpb)))
          good.bytes (clear_bit_bound (map_byte d b) (b % bpb % 8) (good.bytes _ _) (omega arith));
    same_size = refl;
    same_map = refl;
  },
)

-- `bfree` on a disk whose free map is kept right: it panics only when the block is free, and else it
-- clears the block's bit of the free map and no other, and every block but the one with that bit
-- keeps its bytes.
pub bfree-Bfrees : (b : ℕ) (d : Disk) → IsDisk d → Bfrees b d (bfree b d)
unfolding bfree
bfree-Bfrees b d good = freed-Bfrees b d (is_used d b) refl good
