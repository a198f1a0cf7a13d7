-- ===== src/Content/Resize.antt =====
-- fs.c: the size that `writei` gives a file.
use os163_assi.Prelude.{ℕ, ◌≡◌, ◌≤◌, ◌&&◌, ltb, refl, Bool-cases, inl, inr}
use os163_assi.Disk.{Disk}
use os163_assi.Inode.{Dinode}
use os163_assi.Content.{resized}
use os163_assi.Content.Refs.{block_ref, IsFile}
use os163_assi.Content.Maps.{byte_at}

-- The size of a file says nothing about its blocks.
pub sized-IsFile :
    (ip : Dinode) (d : Disk) (off : ℕ)
    → IsFile ip d
    → off ≤ 71680
    → IsFile (record ip { size = off }) d
unfolding block_ref
sized-IsFile ip d off good le = record {
  disk = good.disk;
  fits = good.fits;
  boot = good.boot;
  small = le;
  inside = good.inside;
  used = good.used;
  apart = good.apart;
  once = good.once;
}

pub byte_at-resized :
    (ip : Dinode) (d : Disk) (off n m i : ℕ) → byte_at (resized n off ip) d m i ≡ byte_at ip d m i
unfolding byte_at block_ref
byte_at-resized ip d off n m i = elim (Bool-cases (ltb 0 n && ltb ip.size off)) [
  | inl grows ↦ rw grows refl
  | inr stays ↦ rw stays refl
]

pub block_ref-resized :
    (ip : Dinode) (d : Disk) (off n m : ℕ) → block_ref (resized n off ip) d m ≡ block_ref ip d m
unfolding block_ref
block_ref-resized ip d off n m = elim (Bool-cases (ltb 0 n && ltb ip.size off)) [
  | inl grows ↦ rw grows refl
  | inr stays ↦ rw stays refl
]

pub resized-IsFile :
    (ip : Dinode) (d : Disk) (off n : ℕ) → IsFile ip d → off ≤ 71680 → IsFile (resized n off ip) d
resized-IsFile ip d off n good le = elim (Bool-cases (ltb 0 n && ltb ip.size off)) [
  | inl grows ↦ rw grows (sized-IsFile ip d off good le)
  | inr stays ↦ rw stays good
]
