-- ===== src/Bio/Unique.antt =====
-- bio.c: a block is never cached in two buffers.
use os163_assi.Prelude.{
  ℕ, zero, suc, ◌+◌, ◌≡◌, ◌≢◌, ◌≤◌, Bool, ◌&&◌, none, some, List, [], ◌∷◌, ◌==◌, bit, arith, refl,
  minus_one, Bool-cases, Option-cases, inl, inr,
}
use os163_assi.Bio.{
  Buf, nbuf, binit, is_for, cached, mark_busy, recycle, got, bget, unlink, brelse, set_flags,
}

-- How many buffers are for a block.
pub copies : ℕ → ℕ → List Buf → ℕ
copies dev blockno [] = 0
copies dev blockno (b ∷ rest) = bit (is_for dev blockno b) + copies dev blockno rest

-- The kernel's devices are numbered from 1; no block is asked for of the device -1.
pub data Step (bufs : List Buf) : List Buf → Type 0 where
  gets :
      (dev blockno : ℕ) {bufs' : List Buf}
      → dev ≢ minus_one
      → bget dev blockno bufs ≡ got bufs'
      → Step bufs bufs'
  flags : (place : ℕ) (valid dirty : Bool) → Step bufs (set_flags place valid dirty bufs)
  releases : (place : ℕ) {bufs' : List Buf} → brelse place bufs ≡ some bufs' → Step bufs bufs'

pub data Reach : List Buf → Type 0 where
  start : Reach (binit nbuf)
  later : {bufs bufs' : List Buf} → Reach bufs → Step bufs bufs' → Reach bufs'

copies-binit : (n dev blockno : ℕ) → dev ≢ minus_one → copies dev blockno (binit n) ≡ 0
unfolding binit copies
copies-binit zero dev blockno real = refl
copies-binit (suc n) dev blockno real = ground (arith, copies-binit n dev blockno real)

cached-copies :
    (dev blockno : ℕ) (bufs : List Buf)
    → cached dev blockno bufs ≡ none
    → copies dev blockno bufs ≡ 0
unfolding cached copies
cached-copies dev blockno [] h = refl
cached-copies dev blockno (b ∷ rest) h = ground (arith, cached-copies dev blockno rest)

mark_busy-copies :
    (dev blockno d k : ℕ) (bufs : List Buf)
    → copies d k (mark_busy dev blockno bufs) ≡ copies d k bufs
unfolding mark_busy copies
mark_busy-copies dev blockno d k [] = refl
mark_busy-copies dev blockno d k (b ∷ rest) = ground (arith, mark_busy-copies dev blockno d k rest)

recycle-copies :
    (dev blockno d k : ℕ) (bufs bufs' : List Buf)
    → recycle dev blockno bufs ≡ some bufs'
    → copies d k bufs' ≤ copies d k bufs + bit (dev == d && blockno == k)
unfolding recycle copies
recycle-copies dev blockno d k [] bufs' h = absurd cc
recycle-copies dev blockno d k (b ∷ rest) bufs' h = elim (Option-cases (recycle dev blockno rest)) [
  | inl e ↦ ground arith
  | inr (rest', e) ↦ ground (arith, recycle-copies dev blockno d k rest rest' e)
]

unlink-copies :
    (place d k : ℕ) (bufs rest' : List Buf) (b : Buf)
    → unlink place bufs ≡ some (b, rest')
    → copies d k bufs ≡ bit (is_for d k b) + copies d k rest'
unfolding unlink copies
unlink-copies place d k [] rest' b h = absurd cc
unlink-copies place d k (c ∷ rest) rest' b h = elim (Bool-cases (c.place == place)) [
  | inl here ↦ ground arith
  | inr there ↦ elim (Option-cases (unlink place rest)) [
    | inl e ↦ absurd (ground arith)
    | inr ((b', rest2), e) ↦ ground (arith, unlink-copies place d k rest rest2 b' e)
  ]
]

bget-copies :
    (dev blockno d k : ℕ) (bufs bufs' : List Buf)
    → bget dev blockno bufs ≡ got bufs'
    → copies d k bufs ≤ 1
    → copies d k bufs' ≤ 1
unfolding bget
bget-copies dev blockno d k bufs bufs' h few = elim (Option-cases (cached dev blockno bufs)) [
  | inr (b, e) ↦ ground (arith, mark_busy-copies dev blockno d k bufs)
  | inl e ↦ elim (Option-cases (recycle dev blockno bufs)) [
    | inl full ↦ absurd (ground arith)
    | inr (bufs2, e2) ↦
        ground
          (arith, recycle-copies dev blockno d k bufs bufs2 e2, cached-copies dev blockno bufs e)
  ]
]

brelse-copies :
    (place d k : ℕ) (bufs bufs' : List Buf)
    → brelse place bufs ≡ some bufs'
    → copies d k bufs' ≡ copies d k bufs
unfolding brelse copies
brelse-copies place d k bufs bufs' h = elim (Option-cases (unlink place bufs)) [
  | inl e ↦ absurd (ground arith)
  | inr ((b, rest), e) ↦ ground (arith, unlink-copies place d k bufs rest b e)
]

set_flags-copies :
    (place d k : ℕ) (valid dirty : Bool) (bufs : List Buf)
    → copies d k (set_flags place valid dirty bufs) ≡ copies d k bufs
unfolding set_flags copies
set_flags-copies place d k valid dirty [] = refl
set_flags-copies place d k valid dirty (b ∷ rest) = elim (Bool-cases (b.place == place)) [
  | inl here ↦ ground (arith, set_flags-copies place d k valid dirty rest)
  | inr there ↦ ground (arith, set_flags-copies place d k valid dirty rest)
]

-- In every reachable state, at most one buffer is for a given block of a device.
pub one_buffer :
    {bufs : List Buf} (dev blockno : ℕ) → Reach bufs → dev ≢ minus_one → copies dev blockno bufs ≤ 1
one_buffer dev blockno start real = omega (arith, copies-binit nbuf dev blockno real)
one_buffer dev blockno (later {bufs} {bufs'} r (gets d k asked runs)) real =
    bget-copies d k dev blockno bufs bufs' runs (one_buffer dev blockno r real)
one_buffer dev blockno (later {bufs} r (flags place valid dirty)) real =
    omega
      (arith, set_flags-copies place dev blockno valid dirty bufs, one_buffer dev blockno r real)
one_buffer dev blockno (later {bufs} {bufs'} r (releases place runs)) real =
    omega (arith, brelse-copies place dev blockno bufs bufs' runs, one_buffer dev blockno r real)
