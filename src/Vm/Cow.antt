-- ===== src/Vm/Cow.antt =====
-- vm.c: copy-on-write. `cow_shareuvm` lets a child share the pages of its parent, the page fault
-- handler `cow_copyuvm` gives a writer its own copy, and `cow_deallocuvm` drops one reference.
-- `pg_count_lock` makes each of them one step.
pub mod Fault
pub mod Alias
pub mod Handled
pub mod Share
mod Tests
use os163_assi.Prelude.{
  ℕ, zero, suc, ◌+◌, ◌-◌, ◌*◌, ◌/◌, Bool, true, false, Option, none, some, if◌then◌else◌, ◌==◌, ltb,
  leb, update, add32, sub32, minus_one,
}
use os163_assi.Kalloc.{
  Memory, Run, done, panicked, pgsize, pgroundup, v2p, p2v, kalloc, kfree, phystop,
}
use os163_assi.Vm.{Flags, Pte, zero_pte, Machine, pa_inx, walkpgdir, set_pte, map_page, inc_counter}

-- `*pte &= ~PTE_SH; *pte |= PTE_W;`, after `*pte = addr | flags`
abbrev pub own : ℕ → Flags → Pte
own addr flags = record { addr = addr; flags = record flags { shared = false; writable = true } }

-- `memmove(mem, p2v(pa), PGSIZE)`, the counter of the copy, the new entry, and the old page's counter.
copy_to : Machine → ℕ → ℕ → Pte → Option ℕ × Memory → Bool × Machine
copy_to m d va pte (none, mem') = (false, m)
copy_to m d va pte (some v, mem') =
    let counted = update m.counter (pa_inx (v2p v)) 1 in
    let copied = record m {
      mem = record mem' { page = update mem'.page (v2p v) (mem'.page pte.addr) };
      counter = update counted (pa_inx pte.addr) (sub32 (counted (pa_inx pte.addr)) 1);
    } in
    (true, set_pte copied d va (own (v2p v) pte.flags))

-- The fault at `va` of a process of size `sz`, once its entry is known.
fault_at : Machine → ℕ → ℕ → ℕ → Option Pte → Bool × Machine
unfolding copy_to
fault_at m d sz va none = (false, m)
fault_at m d sz va (some pte) =
    if pte.flags.shared
    then if ltb va sz
      then if ltb 1 (m.counter (pa_inx pte.addr))
        then copy_to m d va pte (kalloc m.mem)
        else (true, set_pte m d va (own pte.addr pte.flags))
      else (false, m)
    else (false, m)

-- `cow_copyuvm`, for the directory `d` of the current process, its size, and the faulting address;
-- false for a null result. `page_counters` holds counts of mappings, far below 2 ^ 31.
pub cow_copyuvm : Machine → ℕ → ℕ → ℕ → Bool × Machine
unfolding fault_at
cow_copyuvm m d sz va = fault_at m d sz va (walkpgdir m d va)

-- `*pte |= PTE_SH; *pte &= ~PTE_W;`
abbrev pub share_pte : Pte → Pte
share_pte pte = record pte { flags = record pte.flags { shared = true; writable = false } }

count_shared : ℕ → Run Machine ℕ → Run Machine ℕ
count_shared pa panicked = panicked
count_shared pa (done r m) = if r == 0 then done 0 (inc_counter pa m) else done r m

share_at : Machine → ℕ → ℕ → ℕ → Option Pte → Run Machine ℕ
unfolding count_shared
share_at m parent child va none = panicked
share_at m parent child va (some pte) =
    if pte.flags.present
    then count_shared pte.addr
        (map_page (set_pte m parent va (share_pte pte)) child va pte.addr (share_pte pte).flags)
    else panicked

-- One round of `cow_shareuvm`: the page at `va`, which is aligned. The result is -1 for `goto bad`.
pub share_page : Machine → ℕ → ℕ → ℕ → Run Machine ℕ
unfolding share_at
share_page m parent child va = share_at m parent child va (walkpgdir m parent va)

-- The loop of `cow_shareuvm` over the pages from `i` up to `sz`.
share_loop : ℕ → Machine → ℕ → ℕ → ℕ → Run Machine ℕ
unfolding share_page
share_loop zero m parent child i = done 0 m
share_loop (suc rounds) m parent child i = elim (share_page m parent child i) [
  | panicked ↦ panicked
  | done r m' ↦
      let rest = share_loop rounds m' parent child (i + pgsize) in
      if r == 0 then rest else done r m'
]

-- The loop makes a round for each page that begins below `sz`.
abbrev pub pages : ℕ → ℕ
pages sz = (sz + 4095) / 4096

-- `cow_shareuvm` behind its `setupkvm`, which gave the child its directory.
pub share_all : Machine → ℕ → ℕ → ℕ → Run Machine ℕ
unfolding share_loop
share_all m parent child sz = share_loop (pages sz) m parent child 0

module _ (end : ℕ) where
  -- The counted page of one entry in `cow_deallocuvm`: the last reference frees it.
  drop_page : Machine → ℕ → Run Machine (Unit {0})
  drop_page m pa =
      let counter' = update m.counter (pa_inx pa) (sub32 (m.counter (pa_inx pa)) 1) in
      if counter' (pa_inx pa) == 0
      then elim (kfree end (p2v pa) m.mem) [
        | panicked ↦ panicked
        | done _ mem' ↦ done tt (record m { mem = mem'; counter = counter' })
      ]
      else done tt (record m { counter = counter' })

  clear_pte : ℕ → ℕ → Run Machine (Unit {0}) → Run Machine (Unit {0})
  clear_pte d va panicked = panicked
  clear_pte d va (done _ m) = done tt (set_pte m d va zero_pte)

  -- One round of `cow_deallocuvm` at an entry.
  pub drop_pte : Machine → ℕ → ℕ → Pte → Run Machine (Unit {0})
  unfolding drop_page clear_pte
  drop_pte m d va pte =
      if pte.flags.present
      then if pte.addr == 0 then panicked else clear_pte d va (drop_page m pte.addr)
      else done tt m

  -- The loop from `a` up to `oldsz`, on fuel. Where there is no page table it skips 1023 pages.
  cow_dealloc_loop : ℕ → Machine → ℕ → ℕ → ℕ → Option (Run Machine (Unit {0}))
  unfolding drop_pte
  cow_dealloc_loop zero m d a oldsz = none
  cow_dealloc_loop (suc fuel) m d a oldsz = elim (ltb a oldsz) [
    | false ↦ some (done tt m)
    | true ↦ elim (walkpgdir m d a) [
      | none ↦ cow_dealloc_loop fuel m d (add32 (add32 a (1023 * pgsize)) pgsize) oldsz
      | some pte ↦ elim (drop_pte m d a pte) [
        | panicked ↦ some panicked
        | done _ m' ↦ cow_dealloc_loop fuel m' d (add32 a pgsize) oldsz
      ]
    ]
  ]

  -- `cow_deallocuvm`; the value is the new size.
  pub cow_deallocuvm : ℕ → Machine → ℕ → ℕ → ℕ → Option (ℕ × Run Machine (Unit {0}))
  unfolding cow_dealloc_loop
  cow_deallocuvm fuel m d oldsz newsz =
      if leb oldsz newsz
      then some (oldsz, done tt m)
      else elim (cow_dealloc_loop fuel m d (pgroundup newsz) oldsz) [
        | none ↦ none
        | some res ↦ some (newsz, res)
      ]
