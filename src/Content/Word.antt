-- ===== src/Content/Word.antt =====
-- fs.c: the words of an indirect block.
use os163_assi.Prelude.{
  ℕ, ◌+◌, ◌*◌, ◌/◌, ◌%◌, ◌≡◌, ◌<◌, if◌then◌else◌, ◌==◌, arith, refl, Bool-cases, inl, inr,
}
use os163_assi.Disk.{Block}
use os163_assi.Content.{word_at, put_word, byte_of}

four_bytes :
    (v : ℕ)
    → v < 4294967296
    → v % 256 + 256 * (v / 256 % 256) + 65536 * (v / 65536 % 256) + 16777216 * (v / 16777216 % 256)
      ≡ v
four_bytes v lt = omega arith

put_word_at :
    (a : Block) (k v j i t : ℕ)
    → i / 4 ≡ j
    → i % 4 ≡ t
    → put_word a k v i ≡ (if k == j then byte_of v t else a i)
unfolding put_word
put_word_at a k v j i t e e' = rw (e, e') (ground arith)

pub word_at-put_word :
    (a : Block) (k v j : ℕ)
    → v < 4294967296
    → word_at (put_word a k v) j ≡ (if k == j then v else word_at a j)
unfolding word_at
word_at-put_word a k v j lt =
    rw
      (
        put_word_at a k v j (4 * j) 0 (omega arith) (omega arith),
        put_word_at a k v j (4 * j + 1) 1 (omega arith) (omega arith),
        put_word_at a k v j (4 * j + 2) 2 (omega arith) (omega arith),
        put_word_at a k v j (4 * j + 3) 3 (omega arith) (omega arith),
      )
      (elim (Bool-cases (k == j)) [
        | inl here ↦ rw here (four_bytes v lt)
        | inr apart ↦ rw apart refl
      ])

pub put_word-byte : (a : Block) (k v i : ℕ) → ((j : ℕ) → a j < 256) → put_word a k v i < 256
unfolding put_word
put_word-byte a k v i bytes = ground (arith, bytes i)

pub word_at_cong : (a a' : Block) (k : ℕ) → ((i : ℕ) → a i ≡ a' i) → word_at a k ≡ word_at a' k
unfolding word_at
word_at_cong a a' k same =
    rw (same (4 * k), same (4 * k + 1), same (4 * k + 2), same (4 * k + 3)) refl

pub word_at-zeros : (a : Block) (k : ℕ) → ((i : ℕ) → a i ≡ 0) → word_at a k ≡ 0
unfolding word_at
word_at-zeros a k zeros =
    rw (zeros (4 * k), zeros (4 * k + 1), zeros (4 * k + 2), zeros (4 * k + 3)) refl
