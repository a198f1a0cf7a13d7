-- ===== src/Vm/Cow/Alias.antt =====
-- Isolation: a page that one process may write is in no other mapping of a process, and the page fault
-- handler keeps it so. The mappings of processes are those below KERNBASE, with the guard pages, which
-- the process itself may not use.
use os163_assi.Prelude.{
  ℕ, ◌%◌, ◌≡◌, ◌≢◌, ◌≤◌, ◌<◌, Bool, true, false, ◌&&◌, some, ◌==◌, ltb, arith, ap, ◌∙◌, sym,
  Option-cases, Bool-cases, inl, inr, ◌^◌,
}
use os163_assi.Kalloc.{v2p, kalloc}
use os163_assi.Kalloc.Valid.{has, IsValid, Taken, good-aligned, kalloc-IsValid}
use os163_assi.Vm.{Machine, Pte, pa_inx, pdx, walkpgdir}
use os163_assi.Vm.Tables.{same_place}
use os163_assi.Vm.Cow.{own, cow_copyuvm}
use os163_assi.Vm.Cow.Fault.{
  Owned, cow_copyuvm-refuses, cow_copyuvm-last, cow_copyuvm_no_memory, cow_copyuvm-copies,
}

-- `pte` is the entry of a page at address `va` of directory `d`, below KERNBASE.
pub record ProcessPage (m : Machine) (d va : ℕ) (pte : Pte) : Type 0 where
  pub at : walkpgdir m d va ≡ some pte
  pub present : pte.flags.present ≡ true
  pub below : pdx va < 512

-- Of two mappings of one page none may be written.
abbrev pub NoAlias : Machine → Type 0
NoAlias m =
    (d va d' va' : ℕ) (pte pte' : Pte)
    → ProcessPage m d va pte
    → ProcessPage m d' va' pte'
    → same_place d va d' va' ≡ false
    → pte.addr ≡ pte'.addr
    → pte.flags.writable ≡ false

-- A page that is counted at most once is in one mapping.
abbrev pub CountsAreSound : Machine → Type 0
CountsAreSound m =
    (d va d' va' : ℕ) (pte pte' : Pte)
    → ProcessPage m d va pte
    → ProcessPage m d' va' pte'
    → same_place d va d' va' ≡ false
    → m.counter (pa_inx pte.addr) ≤ 1
    → pte.addr ≢ pte'.addr

-- No free page is in a mapping.
abbrev pub FreeIsUnmapped : Machine → Type 0
FreeIsUnmapped m =
    (d va v : ℕ) (pte : Pte)
    → ProcessPage m d va pte
    → has v m.mem.freelist ≡ true
    → pte.addr ≢ v2p v

module _ (m : Machine) (d sz va : ℕ) (pte : Pte) (at : walkpgdir m d va ≡ some pte)
    (sh : pte.flags.shared ≡ true) (inside : va < sz) where
  -- An entry elsewhere that is there afterwards was there before.
  elsewhere :
      {res : Bool × Machine} {addr : ℕ}
      → Owned m d sz va pte at sh inside res addr
      → (d' va' : ℕ) (pte' : Pte) → ProcessPage res.1 d' va' pte'
      → same_place d va d' va' ≡ false
      → ProcessPage m d' va' pte'
  elsewhere o d' va' pte' p out = record {
    at = ground (arith, o.entries d' va', p.at);
    present = p.present;
    below = p.below;
  }

  -- The entry itself keeps its other flags.
  itself :
      {res : Bool × Machine} {addr : ℕ}
      → Owned m d sz va pte at sh inside res addr
      → (d' va' : ℕ) (pte' : Pte) → ProcessPage res.1 d' va' pte'
      → same_place d va d' va' ≡ true
      → pte' ≡ own addr pte.flags
  itself o d' va' pte' p here = ground (arith, o.entries d' va', p.at)

  -- If no other mapping leads to the new page, the writer has it alone.
  Owned-NoAlias :
      {res : Bool × Machine} {addr : ℕ}
      → Owned m d sz va pte at sh inside res addr
      → ((d' va' : ℕ) (pte' : Pte)
          → ProcessPage m d' va' pte'
          → same_place d va d' va' ≡ false
          → addr ≢ pte'.addr)
      → NoAlias m
      → NoAlias res.1
  Owned-NoAlias o alone safe d1 va1 d2 va2 p1 p2 u1 u2 apart e =
      elim (Bool-cases (same_place d va d1 va1)) [
        | inl here1 ↦
            let out2 : same_place d va d2 va2 ≡ false = ground arith in
            let e1 = ap (λ (p : Pte). p.addr) (itself o d1 va1 p1 u1 here1) in
            absurd (alone d2 va2 p2 (elsewhere o d2 va2 p2 u2 out2) out2 (sym e1 ∙ e))
        | inr out1 ↦ elim (Bool-cases (same_place d va d2 va2)) [
          | inl here2 ↦
              let e2 = ap (λ (p : Pte). p.addr) (itself o d2 va2 p2 u2 here2) in
              absurd (alone d1 va1 p1 (elsewhere o d1 va1 p1 u1 out1) out1 (sym e2 ∙ sym e))
          | inr out2 ↦
              safe d1 va1 d2 va2 p1 p2 (elsewhere o d1 va1 p1 u1 out1)
                (elsewhere o d2 va2 p2 u2 out2) apart e
        ]
      ]

  -- The copy leads to a page that was free, so no other mapping leads there.
  copy-NoAlias :
      (end v : ℕ)
      → ProcessPage m d va pte
      → 1 < m.counter (pa_inx pte.addr)
      → m.counter (pa_inx pte.addr) < 2 ^ 31
      → pte.addr % 4096 ≡ 0
      → IsValid end m.mem
      → NoAlias m
      → FreeIsUnmapped m
      → (kalloc m.mem).0 ≡ some v
      → NoAlias (cow_copyuvm m d sz va).1
  copy-NoAlias end v u many small aligned valid safe unmapped got =
      Owned-NoAlias (cow_copyuvm-copies m d sz va pte at sh inside v many small apart got).owned
        (λ d' va' pte' u' out e. unmapped d' va' v pte' u' free (sym e)) safe
    where
      taken : Taken end m.mem (kalloc m.mem)
      taken = kalloc-IsValid end m.mem valid

      free : has v m.mem.freelist ≡ true
      free = taken.was_free v got

      apart : (pa_inx (v2p v) == pa_inx pte.addr) ≡ false
      apart =
          let page = good-aligned end v (taken.good v got) in
          let ne = unmapped d va v pte u free in ground arith

  shared_fault :
      (end : ℕ)
      → ProcessPage m d va pte
      → m.counter (pa_inx pte.addr) < 2 ^ 31
      → pte.addr % 4096 ≡ 0
      → IsValid end m.mem
      → NoAlias m
      → CountsAreSound m
      → FreeIsUnmapped m
      → NoAlias (cow_copyuvm m d sz va).1
  shared_fault end u small aligned valid safe sound unmapped =
      elim (Bool-cases (ltb 1 (m.counter (pa_inx pte.addr)))) [
        | inr few ↦
            Owned-NoAlias (cow_copyuvm-last m d sz va pte at sh inside (ground arith)).0
              (λ d' va' pte' u' out. sound d va d' va' pte pte' u u' out (ground arith)) safe
        | inl many ↦ elim (Option-cases (kalloc m.mem).0) [
          | inl none_left ↦
              rw (cow_copyuvm_no_memory m d sz va pte at sh inside (ground arith) none_left) safe
          | inr (v, got) ↦ copy-NoAlias end v u (ground arith) small aligned valid safe unmapped got
        ]
      ]

-- A machine whose shared entries are present, below KERNBASE and lead to page addresses, whose counters
-- are counts of mappings, and on which writable pages are private. A shared entry may be a guard page.
pub record IsIsolated (end : ℕ) (m : Machine) : Type 0 where
  pub valid : IsValid end m.mem
  pub safe : NoAlias m
  pub sound : CountsAreSound m
  pub unmapped : FreeIsUnmapped m
  pub shared_below :
      (d va : ℕ) (pte : Pte)
      → walkpgdir m d va ≡ some pte
      → pte.flags.shared ≡ true
      → ProcessPage m d va pte × (pte.addr % 4096 ≡ 0) × (m.counter (pa_inx pte.addr) < 2 ^ 31)

-- Isolation survives every page fault. On a machine where free pages are unmapped, the counters
-- tell when a page is in a single mapping, and no writable page of a process is in two mappings, the
-- same holds of writable pages after the handler has run, whatever the address and whichever way it ends.
pub cow_copyuvm-NoAlias :
    (end : ℕ) (m : Machine) (d sz va : ℕ) → IsIsolated end m → NoAlias (cow_copyuvm m d sz va).1
cow_copyuvm-NoAlias end m d sz va iso = elim (Option-cases (walkpgdir m d va)) [
  | inl e ↦ rw (cow_copyuvm-refuses m d sz va (λ pte at. cc)) iso.safe
  | inr (pte, at) ↦ elim (Bool-cases (pte.flags.shared && ltb va sz)) [
    | inr refused ↦ rw (cow_copyuvm-refuses m d sz va (λ pte' at'. ground arith)) iso.safe
    | inl fine ↦
        let sh : pte.flags.shared ≡ true = ground arith in
        let (u, aligned, small) = iso.shared_below d va pte at sh in
        shared_fault m d sz va pte at sh (ground arith) end u small aligned iso.valid iso.safe
          iso.sound iso.unmapped
  ]
]
