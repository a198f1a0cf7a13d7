-- ===== src/Vm/Cow/Tests.antt =====
-- A page that two processes share: the page at 0x103000 behind address 0 of the directories 1 and 2,
-- on a machine with one free page.
use os163_assi.Prelude.{
  ℕ, ◌≡◌, ◌<◌, ◌%◌, true, false, ◌&&◌, ◌||◌, none, some, if◌then◌else◌, ◌==◌, arith, refl, ap, [],
  ◌∷◌,
}
use os163_assi.Kalloc.{is_bad}
use os163_assi.Vm.{Machine, Pte, PageTable, zero_pte, walkpgdir, pdx}
use os163_assi.Vm.Cow.{cow_copyuvm}
use os163_assi.Vm.Cow.Handled.{Handled}
use os163_assi.Vm.Cow.Alias.{ProcessPage, NoAlias, IsIsolated, cow_copyuvm-NoAlias}

abbrev read_only : Pte
read_only = record {
  addr = 0x10_3000;
  flags = record { present = true; writable = false; user = true; shared = true };
}

abbrev one_page : Pte → PageTable
one_page pte = record { frame = 0x8010_2000; entry = λ i. if i == 0 then pte else zero_pte }

abbrev two_processes : ℕ → Machine
two_processes users = record {
  mem = record { freelist = 0x8010_4000 ∷ []; page = λ pa. pa ∷ [] };
  counter = λ k. users;
  dir = λ d i. if ((d == 1) || (d == 2)) && (i == 0) then some (one_page read_only) else none;
}

abbrev m : Machine
m = two_processes 2

-- Every page of the two processes is the shared one.
only_page : (d va : ℕ) (pte : Pte) → ProcessPage m d va pte → pte ≡ read_only
unfolding walkpgdir
only_page d va pte u = ground (arith, u.at, u.present)

shared_entry :
    (d va : ℕ) (pte : Pte) → walkpgdir m d va ≡ some pte → pte.flags.shared ≡ true → pte ≡ read_only
unfolding walkpgdir
shared_entry d va pte at sh = ground arith

table_zero : (d va : ℕ) (pte : Pte) → walkpgdir m d va ≡ some pte → pdx va < 512
unfolding walkpgdir
table_zero d va pte at = ground arith

m-IsIsolated : IsIsolated 0x8010_0000 m
unfolding is_bad
m-IsIsolated = record {
  valid = refl;
  safe = λ d va d' va' pte pte' u u' apart e.
      ap (λ (p : Pte). p.flags.writable) (only_page d va pte u);
  sound = λ d va d' va' pte pte' u u' apart few. absurd (omega arith);
  unmapped = λ d va v pte u free e. ground (arith, only_page d va pte u);
  shared_below = λ d va pte at sh.
      let e = shared_entry d va pte at sh in
      (
        record {
          at = at;
          present = ap (λ (p : Pte). p.flags.present) e;
          below = table_zero d va pte at;
        },
        ap (λ (p : Pte). p.addr % 4096) e,
        ground arith,
      );
}

cow_copyuvm-NoAlias_example : NoAlias (cow_copyuvm m 1 4096 0x123).1
cow_copyuvm-NoAlias_example = cow_copyuvm-NoAlias 0x8010_0000 m 1 4096 0x123 m-IsIsolated
