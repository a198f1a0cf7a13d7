-- ===== src/Dir/Entries.antt =====
-- fs.c: the entries of a directory, which reading leaves as they were.
use os163_assi.Prelude.{
  ℕ, ◌+◌, ◌-◌, ◌*◌, ◌≡◌, ◌<◌, Bool, not, ◌&&◌, if◌then◌else◌, ◌==◌, ltb, leb, arith, refl, ◌∙◌,
  Bool-cases, inl, inr,
}
use os163_assi.Disk.{Disk, Block}
use os163_assi.Inode.{Dinode}
use os163_assi.Content.Refs.{IsFile}
use os163_assi.Content.Read.{content}
use os163_assi.Dir.{inum_of, namecmp}

-- The entry `k` of a directory, and whether it has the name.
abbrev pub entry_at : Dinode → Disk → ℕ → Block
entry_at ip d k i = if leb 0 i && ltb i 16 then content ip d (16 * k + (i - 0)) else 0

unfoldable pub has_name : Dinode → Disk → Block → ℕ → Bool
has_name ip d name k = not (inum_of (entry_at ip d k) == 0) && namecmp name (entry_at ip d k) == 0

-- Reading entries leaves the directory as it was.
pub record Kept (ip : Dinode) (d : Disk) (ip' : Dinode) (d' : Disk) : Type 0 where
  pub file : IsFile ip' d'
  pub same_size : ip'.size ≡ ip.size
  pub same : (pos : ℕ) → pos < 71680 → content ip' d' pos ≡ content ip d pos

entry_bytes :
    (ip ip' : Dinode) (d d' : Disk) (k i : ℕ)
    → Kept ip d ip' d'
    → 16 * k < 71680
    → entry_at ip' d' k i ≡ entry_at ip d k i
entry_bytes ip ip' d d' k i kept lt = elim (Bool-cases (leb 0 i && ltb i 16)) [
  | inl inside ↦ rw inside (kept.same (16 * k + (i - 0)) (ground arith))
  | inr outside ↦ rw outside refl
]

pub entry_at-Kept :
    (ip ip' : Dinode) (d d' : Disk) (k : ℕ)
    → Kept ip d ip' d'
    → 16 * k < 71680
    → entry_at ip' d' k ≡ entry_at ip d k
entry_at-Kept ip ip' d d' k kept lt = λ j i. entry_bytes ip ip' d d' k i kept lt j

pub has_name-Kept :
    (ip ip' : Dinode) (d d' : Disk) (name : Block) (k : ℕ)
    → Kept ip d ip' d'
    → 16 * k < 71680
    → has_name ip' d' name k ≡ has_name ip d name k
unfolding has_name
has_name-Kept ip ip' d d' name k kept lt = λ j.
    not (inum_of (entry_at-Kept ip ip' d d' k kept lt j) == 0)
    && namecmp name (entry_at-Kept ip ip' d d' k kept lt j) == 0

pub Kept-trans :
    (ip ip1 ip2 : Dinode) (d d1 d2 : Disk)
    → Kept ip d ip1 d1
    → Kept ip1 d1 ip2 d2
    → Kept ip d ip2 d2
Kept-trans ip ip1 ip2 d d1 d2 a b = record {
  file = b.file;
  same_size = b.same_size ∙ a.same_size;
  same = λ pos lt. b.same pos lt ∙ a.same pos lt;
}
