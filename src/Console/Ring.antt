-- ===== src/Console/Ring.antt =====
-- console.c: the bytes of the ring, those that may be read and those that may still be erased.
use os163_assi.Prelude.{
  ℕ, suc, ◌+◌, ◌%◌, ◌^◌, ◌≡◌, ◌≤◌, ◌<◌, ◌∙◌, ap, List, [], ◌∷◌, ◌++◌, get_or, get_or-set, set,
  sub32, length, arith, window, length-window, window_ext, window_last,
}
use mathlib.Core.Path.{ap₂}
use os163_assi.Console.{Input, input_buf}

pub record IsValid (i : Input) : Type 0 where
  pub room : length i.buf ≡ input_buf
  pub read_word : i.r < 2 ^ 32
  pub write_word : i.w < 2 ^ 32
  pub edit_word : i.e < 2 ^ 32
  pub ordered : sub32 i.w i.r ≤ sub32 i.e i.r
  pub bounded : sub32 i.e i.r ≤ input_buf

-- The byte at a counter value
abbrev pub ring : List ℕ → ℕ → ℕ
ring bytes k = get_or bytes (k % input_buf) 0

-- The complete lines, and the line that is being typed.
pub record View : Type 0 where
  pub ready : List ℕ
  pub line : List ℕ

unfoldable pub view : Input → View
view i = record {
  ready = window (ring i.buf) i.r (sub32 i.w i.r);
  line = window (ring i.buf) i.w (sub32 i.e i.w);
}

-- A window depends on its start only round the ring.
pub window_shift :
    (bytes : List ℕ) (r s n : ℕ)
    → r % input_buf ≡ s % input_buf
    → window (ring bytes) r n ≡ window (ring bytes) s n
window_shift bytes r s n e =
    window_ext (ring bytes) (ring bytes) r s n (λ k lt. ap (λ i. get_or bytes i 0) (omega arith))

-- A write behind a window leaves it, and right behind it makes it longer.
pub window-set :
    (bytes : List ℕ) (r m n i c : ℕ)
    → length bytes ≡ input_buf
    → m ≤ n
    → n < input_buf
    → i ≡ (r + n) % input_buf
    → window (ring (set bytes i c)) r m ≡ window (ring bytes) r m
window-set bytes r m n i c len le lt e =
    window_ext (ring (set bytes i c)) (ring bytes) r r m
      (λ k below. ground (arith, get_or-set bytes i ((r + k) % input_buf) c 0 (omega arith)))

pub window-set_last :
    (bytes : List ℕ) (r n i c : ℕ)
    → length bytes ≡ input_buf
    → n < input_buf
    → i ≡ (r + n) % input_buf
    → window (ring (set bytes i c)) r (suc n) ≡ window (ring bytes) r n ++ (c ∷ [])
window-set_last bytes r n i c len lt e =
    window_last (ring (set bytes i c)) r n
    ∙ ap₂ ◌++◌ (window-set bytes r n n i c len (omega arith) lt e) (
        ap (λ x. x ∷ [])
          (ground (arith, get_or-set bytes i ((r + n) % input_buf) c 0 (omega arith))))

-- How many bytes there are.
pub length-ready : (i : Input) → length (view i).ready ≡ sub32 i.w i.r
unfolding view
length-ready i = length-window (ring i.buf) i.r (sub32 i.w i.r)

pub length-line : (i : Input) → length (view i).line ≡ sub32 i.e i.w
unfolding view
length-line i = length-window (ring i.buf) i.w (sub32 i.e i.w)
