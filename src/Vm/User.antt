-- ===== src/Vm/User.antt =====
-- vm.c: the memory of a process: it grows and shrinks, is loaded, copied and freed, and the kernel
-- writes into it. A kernel page fault ends in the panic of `trap`.
pub mod Copy
pub mod Rounds
pub mod Written
pub mod Free
pub mod Guard
mod Tests
use os163_assi.Prelude.{
  ℕ, zero, suc, ◌+◌, ◌-◌, ◌*◌, ◌/◌, Bool, true, false, Option, none, some, List, [], ◌∷◌,
  if◌then◌else◌, ◌==◌, ltb, leb, update, add32, sub32, minus_one, length, take, drop, set,
  replicate,
}
use os163_assi.Kalloc.{
  Memory, Run, done, panicked, pgsize, pgroundup, pgrounddown, v2p, p2v, kalloc, kfree, phystop,
  kernbase,
}
use os163_assi.Vm.{
  Flags, no_flags, Pte, zero_pte, PageTable, Machine, pa_inx, walkpgdir, set_pte, mappages,
}
use os163_assi.Vm.Cow.{cow_deallocuvm}

-- `PTE_W|PTE_U`
abbrev pub user_page : Flags
user_page = record no_flags { writable = true; user = true }

pub then_run : {S A B : Type 0} → Run S A → (A → S → Run S B) → Run S B
then_run panicked next = panicked
then_run (done a s) next = next a s

-- `memset(mem, 0, PGSIZE)` of a page at `v`
abbrev pub zeroed : Machine → ℕ → Memory → Machine
zeroed m v mem' = record m {
  mem = record mem' { page = update mem'.page (v2p v) (replicate 4096 0) };
}

-- Bytes from place `off` of a page on
pub write_at : List ℕ → ℕ → List ℕ → List ℕ
write_at page off [] = page
write_at page off (b ∷ bytes) = write_at (set page off b) (off + 1) bytes

pub store : Machine → ℕ → ℕ → List ℕ → Machine
unfolding write_at
store m pa off bytes = record m {
  mem = record m.mem { page = update m.mem.page pa (write_at (m.mem.page pa) off bytes) };
}

-- `clearpteu`
clear_at : Machine → ℕ → ℕ → Option Pte → Run Machine (Unit {0})
clear_at m d uva none = panicked
clear_at m d uva (some pte) =
    done tt (set_pte m d uva (record pte { flags = record pte.flags { user = false } }))

pub clearpteu : Machine → ℕ → ℕ → Run Machine (Unit {0})
unfolding clear_at
clearpteu m d uva = clear_at m d uva (walkpgdir m d uva)

-- `inituvm`; `kalloc` is not asked for null, and then the `memset` faults.
init_with : ℕ → List ℕ → Machine → Option ℕ × Memory → Run Machine (Unit {0})
unfolding store
init_with d init m (none, mem') = panicked
init_with d init m (some v, mem') =
    then_run (mappages (zeroed m v mem') d 0 pgsize (v2p v) user_page)
      (λ r m'. done tt (store m' (v2p v) 0 init))

pub inituvm : Machine → ℕ → List ℕ → Run Machine (Unit {0})
unfolding init_with
inituvm m d init = if leb pgsize (length init) then panicked else init_with d init m (kalloc m.mem)

-- What `uva2ka` returns: a kernel address or null. Where there is no page table, it reads the entry
-- through a null pointer.
pub data Ka : Type 0 where
  ka : ℕ → Ka
  null : Ka
  wild : Ka

ka_of : Option Pte → Ka
ka_of none = wild
ka_of (some pte) =
    if pte.flags.present then if pte.flags.user then ka (p2v pte.addr) else null else null

pub uva2ka : Machine → ℕ → ℕ → Ka
unfolding ka_of
uva2ka m d uva = ka_of (walkpgdir m d uva)

-- How `copyout` ends: with a result, in a read through null, or out of fuel.
pub data Copied : Type 0 where
  copied : ℕ → Machine → Copied
  astray : Copied
  starved : Copied

-- The number of bytes for one page
pub part : ℕ → ℕ → ℕ
part va len = let n = pgsize - (va - pgrounddown va) in if ltb len n then len else n

-- `copyout` on fuel, of the bytes that are left
pub copyout_loop : ℕ → Machine → ℕ → ℕ → List ℕ → Copied
unfolding part store
copyout_loop zero m d va buf = starved
copyout_loop (suc fuel) m d va [] = copied 0 m
copyout_loop (suc fuel) m d va (b ∷ bytes) =
    let buf = b ∷ bytes in
    let va0 = pgrounddown va in
    let n = part va (length buf) in
    elim (uva2ka m d va0) [
      | wild ↦ astray
      | null ↦ copied minus_one m
      | ka pa0 ↦
          copyout_loop fuel (store m (v2p pa0) (va - va0) (take n buf)) d (add32 va0 pgsize)
            (drop n buf)
    ]

-- Each round copies a byte at least.
pub copyout : Machine → ℕ → ℕ → List ℕ → Copied
unfolding copyout_loop
copyout m d va buf = copyout_loop (suc (length buf)) m d va buf

pub page_refs : Machine → ℕ → ℕ
page_refs m ppn = m.counter ppn

module _ (end : ℕ) where
  -- One round of `deallocuvm` at an entry
  free_pte : Machine → ℕ → ℕ → Pte → Run Machine (Unit {0})
  free_pte m d va pte =
      if pte.flags.present
      then if pte.addr == 0 then panicked else elim (kfree end (p2v pte.addr) m.mem) [
        | panicked ↦ panicked
        | done _ mem' ↦ done tt (set_pte (record m { mem = mem' }) d va zero_pte)
      ]
      else done tt m

  -- The loop of `deallocuvm` from `a` up to `oldsz`, on fuel
  dealloc_loop : ℕ → Machine → ℕ → ℕ → ℕ → Option (Run Machine (Unit {0}))
  unfolding free_pte
  dealloc_loop zero m d a oldsz = none
  dealloc_loop (suc fuel) m d a oldsz = elim (ltb a oldsz) [
    | false ↦ some (done tt m)
    | true ↦ elim (walkpgdir m d a) [
      | none ↦ dealloc_loop fuel m d (add32 (add32 a (1023 * pgsize)) pgsize) oldsz
      | some pte ↦ elim (free_pte m d a pte) [
        | panicked ↦ some panicked
        | done _ m' ↦ dealloc_loop fuel m' d (add32 a pgsize) oldsz
      ]
    ]
  ]

  -- `deallocuvm`; the value is the new size.
  pub deallocuvm : ℕ → Machine → ℕ → ℕ → ℕ → Option (ℕ × Run Machine (Unit {0}))
  unfolding dealloc_loop
  deallocuvm fuel m d oldsz newsz =
      if leb oldsz newsz
      then some (oldsz, done tt m)
      else elim (dealloc_loop fuel m d (pgroundup newsz) oldsz) [
        | none ↦ none
        | some res ↦ some (newsz, res)
      ]
