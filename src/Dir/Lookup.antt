-- ===== src/Dir/Lookup.antt =====
-- fs.c: `dirlookup` finds the first entry with a name.
use os163_assi.Prelude.{ℕ, ◌*◌, ◌%◌, ◌≡◌, ◌≢◌, ◌<◌, ◌≤◌, ◌⊎◌, true, false}
use os163_assi.Disk.{Disk, Block}
use os163_assi.Inode.{Dinode}
use os163_assi.Content.Read.{Missing}
use os163_assi.Dir.{inum_of, Look, found, absent, gives_up, unfinished}
use os163_assi.Dir.Entries.{entry_at, has_name, Kept}

-- The first entry from `k` on that has the name.
pub record First (ip : Dinode) (d : Disk) (name : Block) (k inum off : ℕ) : Type 0 where
  pub at : ℕ
  pub from : k ≤ at
  pub offset : off ≡ 16 * at
  pub inside : off < ip.size
  pub named : has_name ip d name at ≡ true
  pub number : inum ≡ inum_of (entry_at ip d at)
  pub before : (j : ℕ) → k ≤ j → j < at → has_name ip d name j ≡ false

-- What a search from the entry `k` on gives.
unfoldable pub Looks : Dinode → Disk → Block → ℕ → Look → Type 0
Looks ip d name k (found inum off ip' d') = First ip d name k inum off × Kept ip d ip' d'
Looks ip d name k (absent ip' d') =
    ((j : ℕ) → k ≤ j → 16 * j < ip.size → has_name ip d name j ≡ false) × Kept ip d ip' d'
Looks ip d name k gives_up = (ip.size % 16 ≢ 0) ⊎ ((pos : ℕ) × (pos < ip.size) × Missing ip d pos)
Looks ip d name k unfinished = ⊥
