-- ===== src/Prelude/Word.antt =====
-- The 32-bit integers of the program. An `int` and a `uint` are both kept as the bit pattern, a
-- number below 2 ^ 32; only an order on `int` reads the sign.
use Prim.Native.Nat.{ℕ, ◌+◌, ◌-◌, ◌%◌, ◌^◌}
use mathlib.Core.Bool.{Bool}
use os163_assi.Prelude.Tests.{leb}

abbrev pub word : ℕ
word = 2 ^ 32

-- `-1` as an `int`
abbrev pub minus_one : ℕ
minus_one = 0xffff_ffff

abbrev pub add32 : ℕ → ℕ → ℕ
add32 a b = (a + b) % 2 ^ 32

abbrev pub sub32 : ℕ → ℕ → ℕ
sub32 a b = (a + 2 ^ 32 - b) % 2 ^ 32

-- The sign bit of an `int`.
abbrev pub is_neg : ℕ → Bool
is_neg a = leb (2 ^ 31) a
