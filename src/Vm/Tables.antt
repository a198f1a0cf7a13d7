-- ===== src/Vm/Tables.antt =====
-- Reads and writes of page table entries.
use os163_assi.Prelude.{
  ℕ, ◌≡◌, Bool, ◌&&◌, true, false, some, if◌then◌else◌, ◌==◌, arith, Option-cases, inl, inr,
}
use os163_assi.Kalloc.{done, panicked}
use os163_assi.Vm.{Flags, walkpgdir_alloc, map_page, Machine, Pte, pdx, ptx, walkpgdir, set_pte}

-- Do two addresses name one entry of one directory?
abbrev pub same_place : ℕ → ℕ → ℕ → ℕ → Bool
same_place d va d' va' = (d == d') && (pdx va == pdx va') && (ptx va == ptx va')

-- A write of an entry is read back at its place, and nowhere else.
pub walkpgdir-set_pte :
    (m : Machine) (d va : ℕ) (old new : Pte) (d' va' : ℕ)
    → walkpgdir m d va ≡ some old
    → walkpgdir (set_pte m d va new) d' va'
      ≡ (if same_place d va d' va' then some new else walkpgdir m d' va')
unfolding walkpgdir set_pte
walkpgdir-set_pte m d va old new d' va' h = elim (Option-cases (m.dir d (pdx va))) [
  | inl e ↦ ground arith
  | inr (t, e) ↦ rw e (ground arith)
]

-- Where there is a page table, a walk that may allocate changes nothing.
walkpgdir_alloc-some :
    (m : Machine) (d va : ℕ) (old : Pte)
    → walkpgdir m d va ≡ some old
    → walkpgdir_alloc m d va ≡ some m
unfolding walkpgdir walkpgdir_alloc
walkpgdir_alloc-some m d va old h = elim (Option-cases (m.dir d (pdx va))) [
  | inl e ↦ let h' = rw e at h in cc
  | inr (t, e) ↦ rw e
]

-- A page is mapped at an entry that is there and not present.
pub map_page-fresh :
    (m : Machine) (d va pa : ℕ) (perm : Flags) (old : Pte)
    → walkpgdir m d va ≡ some old
    → old.flags.present ≡ false
    → map_page m d va pa perm
      ≡ done 0 (set_pte m d va (record { addr = pa; flags = record perm { present = true } }))
unfolding map_page
map_page-fresh m d va pa perm old h unset = rw (walkpgdir_alloc-some m d va old h, h, unset)

-- A page is not mapped over another: the kernel panics.
pub map_page-panics :
    (m : Machine) (d va pa : ℕ) (perm : Flags) (old : Pte)
    → walkpgdir m d va ≡ some old
    → old.flags.present ≡ true
    → map_page m d va pa perm ≡ panicked
unfolding map_page
map_page-panics m d va pa perm old h set = rw (walkpgdir_alloc-some m d va old h, h, set)
