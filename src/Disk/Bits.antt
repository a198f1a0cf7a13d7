-- ===== src/Disk/Bits.antt =====
-- fs.c: the bits of a byte of the free map.
use os163_assi.Prelude.{
  ℕ, zero, suc, ◌^◌, ◌≡◌, ◌<◌, Bool, true, false, not, ◌&&◌, if◌then◌else◌, ◌==◌, ltb, arith, refl,
}
use os163_assi.Disk.{is_set, set_bit, clear_bit}

all_under : ℕ → (ℕ → Bool) → Bool
all_under zero p = true
all_under (suc n) p = p n && all_under n p

all_under_sound : (n : ℕ) (p : ℕ → Bool) (x : ℕ) → all_under n p ≡ true → x < n → p x ≡ true
unfolding all_under
all_under_sound zero p x h lt = absurd (omega arith)
all_under_sound (suc n) p x h lt = ground (arith, all_under_sound n p x)

abbrev same : Bool → Bool → Bool
same true b = b
same false b = not b

same_sound : (a b : Bool) → same a b ≡ true → a ≡ b
same_sound true true h = refl
same_sound true false h = cc
same_sound false true h = cc
same_sound false false h = refl

-- What the two writes do to every bit of every byte, checked for all of them.
abbrev set_right : ℕ → ℕ → ℕ → Bool
set_right byte k j =
    same (is_set (set_bit byte (2 ^ k)) (2 ^ j)) (if k == j then true else is_set byte (2 ^ j))
    && ltb (set_bit byte (2 ^ k)) 256

abbrev clear_right : ℕ → ℕ → ℕ → Bool
clear_right byte k j =
    same (is_set (clear_bit byte (2 ^ k)) (2 ^ j)) (if k == j then false else is_set byte (2 ^ j))
    && ltb (clear_bit byte (2 ^ k)) 256

bits_checked :
    all_under 256
      (λ byte. all_under 8 (λ k. all_under 8 (λ j. set_right byte k j && clear_right byte k j)))
    ≡ true
unfolding all_under is_set set_bit clear_bit
bits_checked = refl

checked :
    (byte k j : ℕ)
    → byte < 256
    → k < 8
    → j < 8
    → (set_right byte k j && clear_right byte k j) ≡ true
checked byte k j lt lt' lt'' =
    all_under_sound 8 (λ j. set_right byte k j && clear_right byte k j) j
      (all_under_sound 8 (λ k. all_under 8 (λ j. set_right byte k j && clear_right byte k j)) k
        (all_under_sound 256
          (λ byte. all_under 8 (λ k. all_under 8 (λ j. set_right byte k j && clear_right byte k j)))
          byte bits_checked lt)
        lt')
      lt''

and_left : (a b : Bool) → (a && b) ≡ true → a ≡ true
and_left true b h = refl
and_left false b h = h

and_right : (a b : Bool) → (a && b) ≡ true → b ≡ true
and_right true b h = h
and_right false b h = cc

pub is_set-set_bit :
    (byte k j : ℕ)
    → byte < 256
    → k < 8
    → j < 8
    → is_set (set_bit byte (2 ^ k)) (2 ^ j) ≡ (if k == j then true else is_set byte (2 ^ j))
is_set-set_bit byte k j lt lt' lt'' =
    same_sound (is_set (set_bit byte (2 ^ k)) (2 ^ j))
      (if k == j then true else is_set byte (2 ^ j))
      (and_left _ _
        (and_left (set_right byte k j) (clear_right byte k j) (checked byte k j lt lt' lt'')))

pub is_set-clear_bit :
    (byte k j : ℕ)
    → byte < 256
    → k < 8
    → j < 8
    → is_set (clear_bit byte (2 ^ k)) (2 ^ j) ≡ (if k == j then false else is_set byte (2 ^ j))
is_set-clear_bit byte k j lt lt' lt'' =
    same_sound (is_set (clear_bit byte (2 ^ k)) (2 ^ j))
      (if k == j then false else is_set byte (2 ^ j))
      (and_left _ _
        (and_right (set_right byte k j) (clear_right byte k j) (checked byte k j lt lt' lt'')))

pub set_bit_bound : (byte k : ℕ) → byte < 256 → k < 8 → set_bit byte (2 ^ k) < 256
set_bit_bound byte k lt lt' = ground (
  arith,
  and_right
      (same (is_set (set_bit byte (2 ^ k)) (2 ^ k)) (if k == k then true else is_set byte (2 ^ k)))
      (ltb (set_bit byte (2 ^ k)) 256)
      (and_left (set_right byte k k) (clear_right byte k k) (checked byte k k lt lt' lt')),
)

pub clear_bit_bound : (byte k : ℕ) → byte < 256 → k < 8 → clear_bit byte (2 ^ k) < 256
clear_bit_bound byte k lt lt' = ground (
  arith,
  and_right
      (same (is_set (clear_bit byte (2 ^ k)) (2 ^ k))
        (if k == k then false else is_set byte (2 ^ k)))
      (ltb (clear_bit byte (2 ^ k)) 256)
      (and_right (set_right byte k k) (clear_right byte k k) (checked byte k k lt lt' lt')),
)
