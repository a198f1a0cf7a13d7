-- ===== src/Vm/Cow/Fault.antt =====
-- What the page fault handler `cow_copyuvm` does, on every branch.
use os163_assi.Prelude.{
  ℕ, ◌-◌, ◌≡◌, ◌≤◌, ◌<◌, Bool, true, false, ◌&&◌, none, some, if◌then◌else◌, ◌==◌, ltb, update,
  arith, ap, ◌∙◌, Option-cases, inl, inr, refl, sub32, ◌^◌,
}
use os163_assi.Kalloc.{Memory, v2p, kalloc}
use os163_assi.Kalloc.Valid.{kalloc-page}
use os163_assi.Vm.{Machine, Pte, pa_inx, walkpgdir, set_pte}
use os163_assi.Vm.Tables.{same_place, walkpgdir-set_pte}
use os163_assi.Vm.Cow.{own, copy_to, fault_at, cow_copyuvm}

-- A write of an entry changes neither memory nor counters.
pub set_pte-mem : (m : Machine) (d va : ℕ) (pte : Pte) → (set_pte m d va pte).mem ≡ m.mem
unfolding set_pte
set_pte-mem m d va pte = ground arith

pub set_pte-counter :
    (m : Machine) (d va : ℕ) (pte : Pte) → (set_pte m d va pte).counter ≡ m.counter
unfolding set_pte
set_pte-counter m d va pte = ground arith

-- The handler refuses, and changes nothing, where no entry is mapped, the entry is not shared, or
-- the address lies outside the process.
pub cow_copyuvm-refuses :
    (m : Machine) (d sz va : ℕ)
    → ((pte : Pte) → walkpgdir m d va ≡ some pte → (pte.flags.shared && ltb va sz) ≡ false)
    → cow_copyuvm m d sz va ≡ (false, m)
unfolding cow_copyuvm
cow_copyuvm-refuses m d sz va bad = elim (Option-cases (walkpgdir m d va)) [
  | inl e ↦ rw e
  | inr (pte, e) ↦ rw e (ground (arith, bad pte e))
]

module _ (m : Machine) (d sz va : ℕ) (pte : Pte) (at : walkpgdir m d va ≡ some pte)
    (sh : pte.flags.shared ≡ true) (inside : va < sz) where
  -- What a fault may leave behind: the entry is replaced by one that may be written, and no other.
  pub record Owned (res : Bool × Machine) (addr : ℕ) : Type 0 where
    pub answer : res.0 ≡ true
    pub entries :
        (d' va' : ℕ)
        → walkpgdir res.1 d' va'
          ≡ (if same_place d va d' va' then some (own addr pte.flags) else walkpgdir m d' va')

  -- At a shared entry below the size of the process, a page that nobody else maps is not copied: the
  -- entry becomes writable, and memory and counters stay as they are.
  pub cow_copyuvm-last :
      m.counter (pa_inx pte.addr) ≤ 1
      → Owned (cow_copyuvm m d sz va) pte.addr
        × ((cow_copyuvm m d sz va).1.mem ≡ m.mem)
        × ((cow_copyuvm m d sz va).1.counter ≡ m.counter)
  unfolding cow_copyuvm
  cow_copyuvm-last few =
      let in_place : fault_at m d sz va (some pte)
          ≡ (true, set_pte m d va (own pte.addr pte.flags)) =
        ground arith in
      rw (at, in_place)
        (
          record { answer = refl; entries = λ d' va'. walkpgdir-set_pte m d va pte _ d' va' at },
          set_pte-mem m d va _,
          set_pte-counter m d va _,
        )

  -- With more than one user and no free page, the handler gives up and changes nothing.
  pub cow_copyuvm_no_memory :
      1 < m.counter (pa_inx pte.addr) → (kalloc m.mem).0 ≡ none → cow_copyuvm m d sz va ≡ (false, m)
  unfolding cow_copyuvm
  cow_copyuvm_no_memory many out = rw at (ground (arith, out))

  -- What the copy for a writer leaves behind: the entry leads to the page `v`, which holds what the
  -- shared page holds; no other page is written; the new page is counted once, the shared page once
  -- less, and no other counter changes.
  pub record Copied (res : Bool × Machine) (v : ℕ) : Type 0 where
    pub owned : Owned res (v2p v)
    pub pages :
        (pa : ℕ) → res.1.mem.page pa ≡ (if v2p v == pa then m.mem.page pte.addr else m.mem.page pa)
    pub counts :
        (k : ℕ)
        → res.1.counter k ≡ (
            if pa_inx pte.addr == k
            then m.counter k - 1
            else if pa_inx (v2p v) == k
            then 1
            else m.counter k)

  module _ (v : ℕ) (many : 1 < m.counter (pa_inx pte.addr))
      (small : m.counter (pa_inx pte.addr) < 2 ^ 31)
      (apart : (pa_inx (v2p v) == pa_inx pte.addr) ≡ false) where
    copy_to-Copied :
        (mem' : Memory) → mem'.page ≡ m.mem.page → Copied (copy_to m d va pte (some v, mem')) v
    unfolding copy_to walkpgdir
    copy_to-Copied mem' same =
        let c : Machine = record m {
          mem = record mem' { page = update mem'.page (v2p v) (mem'.page pte.addr) };
          counter =
              update (update m.counter (pa_inx (v2p v)) 1) (pa_inx pte.addr)
                (sub32 (update m.counter (pa_inx (v2p v)) 1 (pa_inx pte.addr)) 1);
        } in
        let new = own (v2p v) pte.flags in
        record {
          owned = record {
            answer = refl;
            entries = λ d' va'. walkpgdir-set_pte c d va pte new d' va' at;
          };
          pages = λ pa. rw (set_pte-mem c d va new, same);
          counts = λ k. rw (set_pte-counter c d va new) (ground arith);
        }

    -- At a shared entry below the size of the process, whose page has more than one user and fewer
    -- than 2 ^ 31, and with a free page, which is another one, the handler makes a copy for the writer.
    pub cow_copyuvm-copies : (kalloc m.mem).0 ≡ some v → Copied (cow_copyuvm m d sz va) v
    unfolding cow_copyuvm
    cow_copyuvm-copies got =
        let found : kalloc m.mem ≡ (some v, (kalloc m.mem).1) =
          ap (λ o. (o, (kalloc m.mem).1)) got in
        let copies : fault_at m d sz va (some pte) ≡ copy_to m d va pte (kalloc m.mem) =
          ground arith in
        rw (at, copies ∙ ap (copy_to m d va pte) found)
          (copy_to-Copied (kalloc m.mem).1 (kalloc-page m.mem))
