-- ===== src/Dir.antt =====
-- fs.c: directories, files of entries of 16 bytes, each with an inode number and a name.
pub mod Entries
pub mod Lookup
mod Tests
use os163_assi.Prelude.{
  ℕ, zero, suc, ◌+◌, ◌-◌, ◌*◌, Bool, true, false, not, ◌&&◌, if◌then◌else◌, ◌==◌, ltb,
}
use os163_assi.Bytes.{Mem, strncmp}
use os163_assi.Disk.{Disk, Block}
use os163_assi.Inode.{Dinode}
use os163_assi.Content.{FileRun, returned, panicked, starved, readi}

-- `sizeof(struct dirent)`, and the fields of an entry in a buffer
abbrev pub entry_size : ℕ
entry_size = 16

abbrev pub inum_of : Block → ℕ
inum_of de = de 0 + 256 * de 1

-- `namecmp(name, de.name) == 0`, with the name at 0 and the entry at 16
abbrev pub both : Block → Block → Mem
both name de a = if ltb a 16 then name a else de (a - 16)

pub namecmp : Block → Block → ℕ
namecmp name de = strncmp 0 18 14 (both name de)

-- How `dirlookup` ends: the number that goes to `iget` and the entry's place, or a null pointer.
pub data Look : Type 0 where
  found : (inum off : ℕ) → Dinode → Disk → Look
  absent : Dinode → Disk → Look
  gives_up : Look  -- a panic
  unfinished : Look  -- out of fuel

-- One entry that was read
judged : Block → ℕ → Block → Dinode → Disk → Look → Look
unfolding namecmp
judged name off de ip d next =
    if inum_of de == 0
    then next
    else if namecmp name de == 0
    then found (inum_of de) off ip d
    else next

-- The loop of `dirlookup` from the entry `k` on
pub look : ℕ → Dinode → Disk → Block → ℕ → Look
unfolding judged
look zero ip d name k = if ltb (16 * k) ip.size then unfinished else absent ip d
look (suc fuel) ip d name k = elim (ltb (16 * k) ip.size) [
  | false ↦ absent ip d
  | true ↦ elim (readi ip d (λ i. 0) (16 * k) entry_size) [
    | panicked ↦ gives_up
    | starved ↦ unfinished
    | returned r ip' d' de ↦
        let next = look fuel ip' d' name (suc k) in
        if r == entry_size then judged name (16 * k) de ip' d' next else gives_up
  ]
]

-- `dirlookup` of a directory
pub dirlookup : Dinode → Disk → Block → Look
unfolding look
dirlookup ip d name = if ip.itype == 1 then look ip.size ip d name 0 else gives_up
