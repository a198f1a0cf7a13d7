-- ===== src/Vm/Cow/Share.antt =====
-- One round of `cow_shareuvm`: parent and child share a page.
use os163_assi.Prelude.{
  ℕ, ◌+◌, ◌≡◌, true, false, some, if◌then◌else◌, ◌==◌, arith, ap, ◌∙◌, sym, refl,
}
use os163_assi.Kalloc.{Memory, done}
use os163_assi.Vm.{Machine, Pte, pa_inx, walkpgdir, set_pte, map_page, inc_counter}
use os163_assi.Vm.Tables.{same_place, walkpgdir-set_pte, map_page-fresh}
use os163_assi.Vm.Cow.{share_pte, share_page, share_at, count_shared}
use os163_assi.Vm.Cow.Fault.{set_pte-mem, set_pte-counter}

-- What both processes see of a page once they share it.
pub record Shared (m : Machine) (parent child va : ℕ) (pte : Pte) (m' : Machine) : Type 0 where
  pub in_parent : walkpgdir m' parent va ≡ some (share_pte pte)
  pub in_child : walkpgdir m' child va ≡ some (share_pte pte)
  pub elsewhere :
      (d' va' : ℕ) (old : Pte)
      → same_place parent va d' va' ≡ false
      → same_place child va d' va' ≡ false
      → walkpgdir m d' va' ≡ some old
      → walkpgdir m' d' va' ≡ some old
  pub page : m'.mem.page ≡ m.mem.page
  pub counted :
      m'.counter (pa_inx pte.addr)
      ≡ (if m.counter (pa_inx pte.addr) == 0 then 2 else m.counter (pa_inx pte.addr) + 1)
  pub others : (k : ℕ) → (pa_inx pte.addr == k) ≡ false → m'.counter k ≡ m.counter k

-- Let the page be mapped and present in the parent, and not in the child, which has a page table for
-- it. Then the round succeeds: both entries lead to the page, shared and not writable; no other entry
-- and no page changes; and the page's counter goes up by one, or to two from zero.
share_page-Shared :
    (m : Machine) (parent child va : ℕ) (pte old : Pte)
    → (parent == child) ≡ false
    → walkpgdir m parent va ≡ some pte
    → pte.flags.present ≡ true
    → walkpgdir m child va ≡ some old
    → old.flags.present ≡ false
    → (m' : Machine) × (share_page m parent child va ≡ done 0 m') × Shared m parent child va pte m'
unfolding share_page inc_counter walkpgdir
share_page-Shared m parent child va pte old apart at there free unset = (m3, runs, both)
  where
    m1 : Machine
    m1 = set_pte m parent va (share_pte pte)

    m2 : Machine
    m2 = set_pte m1 child va (share_pte pte)

    m3 : Machine
    m3 = inc_counter pte.addr m2

    in_m1 :
        (d' va' : ℕ)
        → walkpgdir m1 d' va'
          ≡ (if same_place parent va d' va' then some (share_pte pte) else walkpgdir m d' va')
    in_m1 d' va' = walkpgdir-set_pte m parent va pte (share_pte pte) d' va' at

    free1 : walkpgdir m1 child va ≡ some old
    free1 = ground (arith, in_m1 child va)

    in_m2 :
        (d' va' : ℕ)
        → walkpgdir m2 d' va'
          ≡ (if same_place child va d' va' then some (share_pte pte) else walkpgdir m1 d' va')
    in_m2 d' va' = walkpgdir-set_pte m1 child va old (share_pte pte) d' va' free1

    mapped : map_page m1 child va pte.addr (share_pte pte).flags ≡ done 0 m2
    mapped =
        map_page-fresh m1 child va pte.addr (share_pte pte).flags old free1 unset
        ∙ ap
            (λ b. done 0 (
              set_pte m1 child va
                (record { addr = pte.addr; flags = record (share_pte pte).flags { present = b } })))
            (sym there)

    runs : share_page m parent child va ≡ done 0 m3
    runs =
        let body : share_at m parent child va (some pte)
            ≡ count_shared pte.addr (map_page m1 child va pte.addr (share_pte pte).flags) =
          ground arith in
        rw at (body ∙ ap (count_shared pte.addr) mapped)

    in_m3 : (d' va' : ℕ) → walkpgdir m3 d' va' ≡ walkpgdir m2 d' va'
    in_m3 d' va' = refl

    count2 : m2.counter ≡ m.counter
    count2 =
        set_pte-counter m1 child va (share_pte pte) ∙ set_pte-counter m parent va (share_pte pte)

    both : Shared m parent child va pte m3
    both = record {
      in_parent = in_m3 parent va ∙ ground (arith, in_m1 parent va, in_m2 parent va);
      in_child = in_m3 child va ∙ ground (arith, in_m2 child va);
      elsewhere = λ d' va' o out1 out2 e. in_m3 d' va' ∙ ground (arith, in_m1 d' va', in_m2 d' va');
      page =
          ap (λ (x : Memory). x.page)
            (set_pte-mem m1 child va (share_pte pte) ∙ set_pte-mem m parent va (share_pte pte));
      counted = rw count2 (ground arith);
      others = λ k ne. rw count2 (ground arith);
    }
