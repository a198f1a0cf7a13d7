-- ===== src/Bytes/Move.antt =====
-- string.c: what `memmove` and `memcmp` do, byte by byte.
use os163_assi.Prelude.{
  ℕ, zero, suc, ◌+◌, ◌-◌, ◌≡◌, ◌≤◌, ◌<◌, ◌^◌, ◌⊎◌, inl, inr, Bool, false, ◌&&◌, if◌then◌else◌, ltb,
  leb, update, arith, Bool-cases, ◌↔◌, refl,
}
use os163_assi.Bytes.{Mem, forward, backward, memmove, memcmp}

-- Whether an address lies in the run of `n` bytes at `d`.
abbrev pub within : ℕ → ℕ → ℕ → Bool
within d n a = leb d a && ltb a (d + n)

-- The memory with `n` bytes from `s` copied to `d` at once.
abbrev pub moved : ℕ → ℕ → ℕ → Mem → Mem
moved d s n mem a = if within d n a then mem (s + (a - d)) else mem a

forward-moved :
    (n d s : ℕ) (mem : Mem) (a : ℕ)
    → (d ≤ s) ⊎ (s + n ≤ d)
    → forward n d s mem a ≡ moved d s n mem a
unfolding forward
forward-moved zero d s mem a way = ground arith
forward-moved (suc n) d s mem a way =
    ground (arith, forward-moved n (suc d) (suc s) (update mem d (mem s)) a (later_way way))
  where
    later_way : (d ≤ s) ⊎ (s + suc n ≤ d) → (suc d ≤ suc s) ⊎ (suc s + n ≤ suc d)
    later_way (inl h) = inl (omega arith)
    later_way (inr h) = inr (omega arith)

backward-moved : (n d s : ℕ) (mem : Mem) (a : ℕ) → s < d → backward n d s mem a ≡ moved d s n mem a
unfolding backward
backward-moved zero d s mem a way = ground arith
backward-moved (suc n) d s mem a way =
    ground (arith, backward-moved n d s (update mem (d + n) (mem (s + n))) a way)

-- `memmove` copies right however the two runs overlap, if the source does not end at the top of the
-- address space: afterwards each byte of the target is what the byte of the source was before, and
-- no other byte changes.
pub memmove-moved :
    (dst src n : ℕ) (mem : Mem) (a : ℕ)
    → src + n < 2 ^ 32
    → dst + n ≤ 2 ^ 32
    → memmove dst src n mem a ≡ moved dst src n mem a
unfolding memmove
memmove-moved dst src n mem a fits fits' = elim (Bool-cases (ltb src dst && ltb dst (src + n))) [
  | inl over ↦ ground (arith, backward-moved n dst src mem a (ground arith))
  | inr apart ↦ ground (arith, forward-moved n dst src mem a (apart_way (ground arith)))
]
  where
    apart_way : (ltb src dst && ltb dst (src + n)) ≡ false → (dst ≤ src) ⊎ (src + n ≤ dst)
    apart_way h = elim (Bool-cases (ltb src dst)) [
      | inl low ↦ inr (ground arith)
      | inr high ↦ inl (ground arith)
    ]

-- Two runs compare equal just if they hold the same bytes.
memcmp-eq-zero :
    (s1 s2 n : ℕ) (mem : Mem)
    → ((a : ℕ) → mem a < 256)
    → (memcmp s1 s2 n mem ≡ 0) ↔ ((i : ℕ) → i < n → mem (s1 + i) ≡ mem (s2 + i))
unfolding memcmp
memcmp-eq-zero s1 s2 zero mem bytes = (λ h i lt. absurd (omega arith), λ h. refl)
memcmp-eq-zero s1 s2 (suc n) mem bytes =
    let (there, back) = memcmp-eq-zero (suc s1) (suc s2) n mem bytes in
    (
      λ h. extend (ground (arith, bytes s1, bytes s2)) (there (ground (arith, bytes s1, bytes s2))),
      λ h.
          ground (arith, h 0 (omega arith), back (λ i lt. ground (arith, h (suc i) (omega arith)))),
    )
  where
    extend :
        mem s1 ≡ mem s2
        → ((i : ℕ) → i < n → mem (suc s1 + i) ≡ mem (suc s2 + i))
        → (i : ℕ) → i < suc n
        → mem (s1 + i) ≡ mem (s2 + i)
    extend same rest zero lt = ground arith
    extend same rest (suc i) lt = ground (arith, rest i (omega arith))
