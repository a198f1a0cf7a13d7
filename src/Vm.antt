-- ===== src/Vm.antt =====
-- vm.c: page tables. A page directory is named by its address and has 1024 places, each with a page
-- table or none; a page table has 1024 entries. The bits of an entry are the fields of `Flags`: the
-- kernel sets no others, and those that the hardware sets (accessed, dirty) are not modelled.
pub mod Tables
pub mod Cow
pub mod User
use os163_assi.Prelude.{
  ℕ, zero, suc, ◌+◌, ◌-◌, ◌*◌, ◌/◌, ◌%◌, ◌^◌, Bool, true, false, Option, none, some, if◌then◌else◌,
  ◌==◌, ltb, leb, update, add32, sub32, minus_one,
}
use os163_assi.Kalloc.{Memory, Run, done, panicked, pgsize, pgrounddown, v2p, p2v, kalloc, kfree}

-- `PTE_P`, `PTE_W`, `PTE_U` and `PTE_SH`
pub record Flags : Type 0 where
  pub present : Bool
  pub writable : Bool
  pub user : Bool
  pub shared : Bool

-- A `pte_t`: `PTE_ADDR` and `PTE_FLAGS`
pub record Pte : Type 0 where
  pub addr : ℕ
  pub flags : Flags

abbrev pub no_flags : Flags
no_flags = record { present = false; writable = false; user = false; shared = false }

abbrev pub zero_pte : Pte
zero_pte = record { addr = 0; flags = no_flags }

-- A page of entries, and the address of that page.
pub record PageTable : Type 0 where
  pub frame : ℕ
  pub entry : ℕ → Pte

-- The memory, `page_counters`, and the page directories by their addresses.
pub record Machine : Type 0 where
  pub mem : Memory
  pub counter : ℕ → ℕ
  pub dir : ℕ → ℕ → Option PageTable

-- `PDX`, `PTX` and `PA_INX`
abbrev pub pdx : ℕ → ℕ
pdx va = va / 4194304 % 1024

abbrev pub ptx : ℕ → ℕ
ptx va = va / 4096 % 1024

abbrev pub pa_inx : ℕ → ℕ
pa_inx pa = pa / 4096

pte_of : Option PageTable → ℕ → Option Pte
pte_of none i = none
pte_of (some t) i = some (t.entry i)

-- `walkpgdir(pgdir, va, 0)`: what the returned pointer points at, `none` for the null pointer.
pub walkpgdir : Machine → ℕ → ℕ → Option Pte
unfolding pte_of
walkpgdir m d va = pte_of (m.dir d (pdx va)) (ptx va)

put_table : Machine → ℕ → ℕ → PageTable → Machine
put_table m d i t = record m { dir = update m.dir d (update (m.dir d) i (some t)) }

put_in : Machine → ℕ → ℕ → Pte → Option PageTable → Machine
unfolding put_table
put_in m d va pte none = m
put_in m d va pte (some t) =
    put_table m d (pdx va) (record t { entry = update t.entry (ptx va) pte })

-- `*pte = …` through the pointer that `walkpgdir` returned.
pub set_pte : Machine → ℕ → ℕ → Pte → Machine
unfolding put_in
set_pte m d va pte = put_in m d va pte (m.dir d (pdx va))

new_table : Machine → ℕ → ℕ → Option ℕ × Memory → Option Machine
unfolding put_table
new_table m d va (none, mem') = none
new_table m d va (some v, mem') =
    some
      (put_table (record m { mem = mem' }) d (pdx va) (record { frame = v; entry = λ i. zero_pte }))

alloc_table : Machine → ℕ → ℕ → Option PageTable → Option Machine
unfolding new_table
alloc_table m d va none = new_table m d va (kalloc m.mem)
alloc_table m d va (some t) = some m

-- `walkpgdir(pgdir, va, 1)`: afterwards there is a page table for `va`; `none` if there is no memory
-- for a new one.
pub walkpgdir_alloc : Machine → ℕ → ℕ → Option Machine
unfolding alloc_table
walkpgdir_alloc m d va = alloc_table m d va (m.dir d (pdx va))

-- The entry for one page in `mappages`: a panic if there is one already.
write_pte : Machine → ℕ → ℕ → ℕ → Flags → Option Pte → Run Machine ℕ
write_pte m d a pa perm none = done minus_one m
write_pte m d a pa perm (some pte) =
    if pte.flags.present
    then panicked
    else done 0 (set_pte m d a (record { addr = pa; flags = record perm { present = true } }))

map_with : ℕ → ℕ → ℕ → Flags → Option Machine → Machine → Run Machine ℕ
unfolding write_pte
map_with d a pa perm none m = done minus_one m
map_with d a pa perm (some m') m = write_pte m' d a pa perm (walkpgdir m' d a)

-- One round of the loop of `mappages`.
pub map_page : Machine → ℕ → ℕ → ℕ → Flags → Run Machine ℕ
unfolding map_with
map_page m d a pa perm = map_with d a pa perm (walkpgdir_alloc m d a) m

-- The loop makes a round for each page from `a` to `last`.
mappages_loop : ℕ → Machine → ℕ → ℕ → ℕ → Flags → Run Machine ℕ
mappages_loop zero m d a pa perm = done 0 m
mappages_loop (suc rounds) m d a pa perm = elim (map_page m d a pa perm) [
  | panicked ↦ panicked
  | done r m' ↦
      let rest = mappages_loop rounds m' d (add32 a pgsize) (add32 pa pgsize) perm in
      if r == 0 then rest else done r m'
]

-- `mappages`
pub mappages : Machine → ℕ → ℕ → ℕ → ℕ → Flags → Run Machine ℕ
unfolding mappages_loop
mappages m d va size pa perm =
    let a = pgrounddown va in
    let last = pgrounddown (sub32 (add32 va size) 1) in
    mappages_loop (suc (sub32 last a / pgsize)) m d a pa perm

-- `inc_counter`
pub inc_counter : ℕ → Machine → Machine
inc_counter pa m = record m {
  counter =
      update m.counter (pa_inx pa)
        (if m.counter (pa_inx pa) == 0 then 2 else m.counter (pa_inx pa) + 1);
}
