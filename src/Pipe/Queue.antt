-- ===== src/Pipe/Queue.antt =====
-- A pipe is a queue of at most 512 bytes.
use os163_assi.Prelude.{
  window, length-window, window_ext, window_last, ℕ, suc, ◌+◌, ◌%◌, ◌^◌, ◌≡◌, ◌≤◌, ◌<◌, ◌∙◌, ap,
  refl, Bool, true, false, List, [], ◌∷◌, ◌++◌, get_or, get_or-set, set, length-set, add32, sub32,
  length, arith,
}
use mathlib.Core.Path.{ap₂}
use os163_assi.Pipe.{Pipe, close, fresh, pipesize, is_full, is_empty, put, next, advance}

-- How many bytes are in the pipe.
abbrev pub count : Pipe → ℕ
count p = sub32 p.nwrite p.nread

pub record IsValid (p : Pipe) : Type 0 where
  pub room : length p.bytes ≡ pipesize
  pub read_word : p.nread < 2 ^ 32
  pub write_word : p.nwrite < 2 ^ 32
  pub bounded : count p ≤ pipesize

-- The byte at a counter value
abbrev ring : List ℕ → ℕ → ℕ
ring bytes k = get_or bytes (k % pipesize) 0

-- The bytes in the pipe, oldest first.
pub contents : Pipe → List ℕ
contents p = window (ring p.bytes) p.nread (count p)

-- A window depends on its start only round the ring.
window_shift :
    (bytes : List ℕ) (r s n : ℕ)
    → r % pipesize ≡ s % pipesize
    → window (ring bytes) r n ≡ window (ring bytes) s n
window_shift bytes r s n e =
    window_ext (ring bytes) (ring bytes) r s n (λ k lt. ap (λ i. get_or bytes i 0) (omega arith))

-- A write just behind a window that leaves room extends it by that byte.
window-set :
    (bytes : List ℕ) (r n i c : ℕ)
    → length bytes ≡ pipesize
    → n < pipesize
    → i ≡ (r + n) % pipesize
    → window (ring (set bytes i c)) r (suc n) ≡ window (ring bytes) r n ++ (c ∷ [])
window-set bytes r n i c len lt e =
    window_last (ring (set bytes i c)) r n
    ∙ ap₂ ◌++◌
        (window_ext (ring (set bytes i c)) (ring bytes) r r n
          (λ k below. ground (arith, get_or-set bytes i ((r + k) % pipesize) c 0 (omega arith))))
        (ap (λ x. x ∷ [])
          (ground (arith, get_or-set bytes i ((r + n) % pipesize) c 0 (omega arith))))

pub length-contents : (p : Pipe) → length (contents p) ≡ count p
unfolding contents
length-contents p = length-window (ring p.bytes) p.nread (count p)

-- A pipe that is not full takes a byte at its end.
pub put-append :
    (p : Pipe) (c : ℕ)
    → IsValid p
    → is_full p ≡ false
    → IsValid (put p c)
      × (contents (put p c) ≡ contents p ++ (c ∷ []))
      × (count (put p c) ≡ suc (count p))
unfolding put contents
put-append p c v h =
    let room : count p < pipesize = ground arith in
    let counted : sub32 (add32 p.nwrite 1) p.nread ≡ suc (count p) = omega arith in
    (
      record {
        room = length-set p.bytes (p.nwrite % pipesize) c ∙ v.room;
        read_word = v.read_word;
        write_word = omega arith;
        bounded = omega arith;
      },
      rw counted
          (window-set p.bytes p.nread (count p) (p.nwrite % pipesize) c v.room room (omega arith)),
      counted,
    )

-- A pipe that is not empty gives up its oldest byte.
pub advance-tail :
    (p : Pipe)
    → IsValid p
    → is_empty p ≡ false
    → IsValid (advance p) × (contents p ≡ next p ∷ contents (advance p))
unfolding advance contents next window
advance-tail p v h =
    let counted : count p ≡ suc (sub32 p.nwrite (add32 p.nread 1)) = ground arith in
    (
      record {
        room = v.room;
        read_word = omega arith;
        write_word = v.write_word;
        bounded = omega arith;
      },
      rw counted (
          ap (λ l. get_or p.bytes (p.nread % pipesize) 0 ∷ l)
            (window_shift p.bytes (p.nread + 1) (add32 p.nread 1) (sub32 p.nwrite (add32 p.nread 1))
              (omega arith))),
    )

-- Closing an end keeps the bytes.
pub close-contents :
    (writable : Bool) (p : Pipe)
    → IsValid p
    → IsValid (close writable p).pipe × (contents (close writable p).pipe ≡ contents p)
unfolding close contents
close-contents true p v = (
  record { room = v.room; read_word = v.read_word; write_word = v.write_word; bounded = v.bounded },
  refl,
)
close-contents false p v = (
  record { room = v.room; read_word = v.read_word; write_word = v.write_word; bounded = v.bounded },
  refl,
)

-- A fresh pipe is empty.
pub fresh-contents :
    (bytes : List ℕ)
    → length bytes ≡ pipesize
    → IsValid (fresh bytes) × (contents (fresh bytes) ≡ [])
unfolding fresh contents window
fresh-contents bytes len = (
  record { room = len; read_word = omega arith; write_word = omega arith; bounded = omega arith },
  refl,
)
