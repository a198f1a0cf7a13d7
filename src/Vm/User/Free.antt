-- ===== src/Vm/User/Free.antt =====
-- vm.c: `deallocuvm` comes to its end and takes the pages away.
use os163_assi.Prelude.{
  ℕ, zero, suc, ◌+◌, ◌/◌, ◌%◌, ◌^◌, ◌≡◌, ◌≤◌, ◌<◌, ◌∙◌, refl, inl, inr, true, false, ◌&&◌, some,
  ◌==◌, ltb, leb, add32, arith, Bool-cases,
}
use os163_assi.Kalloc.{Run, done, pgsize, pgroundup, p2v, is_bad, kernbase}
use os163_assi.Kalloc.Valid.{kfree_good}
use os163_assi.Vm.{Pte, zero_pte, Machine, walkpgdir, set_pte}
use os163_assi.Vm.Tables.{same_place, walkpgdir-set_pte}
use os163_assi.Vm.User.{free_pte, dealloc_loop, deallocuvm}
use os163_assi.Vm.User.Rounds.{same_page}

-- The pages of the directory `d` from number `lo` up to `hi` are gone, and nothing else is changed.
pub record Cleared (m : Machine) (d lo hi : ℕ) (m' : Machine) : Type 0 where
  pub inside :
      (b : ℕ)
      → b < 2 ^ 32
      → lo ≤ b / 4096
      → b / 4096 < hi
      → (pte : Pte) × (walkpgdir m' d b ≡ some pte) × (pte.flags.present ≡ false)
  pub outside :
      (d' b : ℕ)
      → b < 2 ^ 32
      → ((d == d') && leb lo (b / 4096) && ltb (b / 4096) hi) ≡ false
      → walkpgdir m' d' b ≡ walkpgdir m d' b

module _ (end : ℕ) where
  -- An entry that `deallocuvm` can free: it has a page table, and a frame that `kalloc` gives out.
  pub record Freeable (m : Machine) (d a : ℕ) : Type 0 where
    pub pte : Pte
    pub walk : walkpgdir m d a ≡ some pte
    pub frame :
        pte.flags.present ≡ true → ((pte.addr == 0) ≡ false) × (is_bad end (p2v pte.addr) ≡ false)

  record Freed (m : Machine) (d a : ℕ) (pte : Pte) (res : Run Machine (Unit {0})) : Type 0 where
    machine : Machine
    ends : res ≡ done tt machine
    here : (pte' : Pte) × (walkpgdir machine d a ≡ some pte') × (pte'.flags.present ≡ false)
    elsewhere : (d' b : ℕ) → same_place d a d' b ≡ false → walkpgdir machine d' b ≡ walkpgdir m d' b

  free_pte-Freed :
      (m : Machine) (d a : ℕ) (f : Freeable m d a) → Freed m d a f.pte (free_pte end m d a f.pte)
  unfolding free_pte walkpgdir
  free_pte-Freed m d a f = elim (Bool-cases f.pte.flags.present) [
    | inr absent ↦ record {
      machine = m;
      ends = rw absent refl;
      here = (f.pte, f.walk, absent);
      elsewhere = λ d' b e. refl;
    }
    | inl there ↦
        let (some_frame, good) = f.frame there in
        let (mem', freed) = kfree_good end (p2v f.pte.addr) m.mem good in
        let self : same_place d a d a ≡ true = ground arith in
        record {
          machine = set_pte (record m { mem = mem' }) d a zero_pte;
          ends = rw (there, some_frame, freed) refl;
          here = (
            zero_pte,
            walkpgdir-set_pte (record m { mem = mem' }) d a f.pte zero_pte d a f.walk
                ∙ rw self refl,
            refl,
          );
          elsewhere = λ d' b e.
              walkpgdir-set_pte (record m { mem = mem' }) d a f.pte zero_pte d' b f.walk
              ∙ rw e refl;
        }
  ]

  -- Pages from `a` on that lie below `oldsz`
  abbrev AllFreeable : Machine → ℕ → ℕ → ℕ → Type 0
  AllFreeable m d a oldsz = (b : ℕ) → a ≤ b → b < oldsz → b % 4096 ≡ 0 → Freeable m d b

  other_place :
      (d a b : ℕ)
      → a < 2 ^ 32
      → b < 2 ^ 32
      → (a / 4096 == b / 4096) ≡ false
      → same_place d a d b ≡ false
  other_place d a b la lb e = ground arith

  kept_entry :
      (m m1 : Machine) (d a : ℕ)
      → walkpgdir m1 d a ≡ walkpgdir m d a
      → Freeable m d a
      → Freeable m1 d a
  kept_entry m m1 d a e f = record { pte = f.pte; walk = e ∙ f.walk; frame = f.frame }

  abbrev pages_up : ℕ → ℕ
  pages_up sz = (sz + 4095) / 4096

  -- One page, and what is left when it has gone
  dealloc_round :
      (fuel : ℕ) (m m1 : Machine) (d a oldsz : ℕ) (pte : Pte)
      → ltb a oldsz ≡ true
      → walkpgdir m d a ≡ some pte
      → free_pte end m d a pte ≡ done tt m1
      → dealloc_loop end (suc fuel) m d a oldsz ≡ dealloc_loop end fuel m1 d (add32 a pgsize) oldsz
  unfolding dealloc_loop
  dealloc_round fuel m m1 d a oldsz pte below walk freed =
      rw (below, walk, freed, dealloc_loop) refl

  also_first :
      (m m1 m' : Machine) (d a hi : ℕ) (pte : Pte)
      → a < 2 ^ 32
      → a % 4096 ≡ 0
      → a / 4096 < hi
      → ((pte' : Pte) × (walkpgdir m1 d a ≡ some pte') × (pte'.flags.present ≡ false))
      → ((d' b : ℕ) → same_place d a d' b ≡ false → walkpgdir m1 d' b ≡ walkpgdir m d' b)
      → Cleared m1 d (suc (a / 4096)) hi m'
      → Cleared m d (a / 4096) hi m'
  also_first m m1 m' d a hi pte la aligned below here elsewhere c = record {
    inside = λ b lb ge lt. elim (Bool-cases (a / 4096 == b / 4096)) [
      | inr later ↦ c.inside b lb (ground arith) lt
      | inl first ↦
          let (pte', walk, absent) = here in
          let past : ((d == d) && leb (suc (a / 4096)) (b / 4096) && ltb (b / 4096) hi) ≡ false =
            ground arith in
          (pte', c.outside d b lb past ∙ same_page m1 d b a (ground arith) ∙ walk, absent)
    ];
    outside = λ d' b lb out.
        let past : ((d == d') && leb (suc (a / 4096)) (b / 4096) && ltb (b / 4096) hi) ≡ false =
          ground arith in
        let other : same_place d a d' b ≡ false = ground arith in
        c.outside d' b lb past ∙ elsewhere d' b other;
  }

  from_number :
      (m m' : Machine) (d lo lo' hi : ℕ) → lo ≡ lo' → Cleared m d lo hi m' → Cleared m d lo' hi m'
  from_number m m' d lo lo' hi e c = rw e at c

  dealloc_loop-Cleared :
      (fuel : ℕ) (m : Machine) (d a oldsz : ℕ)
      → a % 4096 ≡ 0
      → a ≤ kernbase
      → oldsz ≤ kernbase
      → 0 < fuel
      → pages_up oldsz < a / 4096 + fuel
      → AllFreeable m d a oldsz
      → (m' : Machine) × (dealloc_loop end fuel m d a oldsz ≡ some (done tt m'))
        × Cleared m d (a / 4096) (pages_up oldsz) m'
  unfolding dealloc_loop
  dealloc_loop-Cleared zero m d a oldsz aligned low small some_fuel fuel_left free =
      absurd (omega arith)
  dealloc_loop-Cleared (suc fuel) m d a oldsz aligned low small some_fuel fuel_left free =
      elim (Bool-cases (ltb a oldsz)) [
        | inr end_reached ↦
            let over : pages_up oldsz ≤ a / 4096 = ground arith in
            (
              m,
              rw (end_reached, dealloc_loop) refl,
              record { inside = λ b lb ge lt. absurd (omega arith); outside = λ d' b lb out. refl },
            )
        | inl below ↦
            let f = free a (omega arith) (ground arith) aligned in
            let freed = free_pte-Freed m d a f in
            let next : add32 a pgsize ≡ a + 4096 = ground arith in
            let number : add32 a pgsize / 4096 ≡ suc (a / 4096) = ground arith in
            let more : a / 4096 < pages_up oldsz = ground arith in
            let (m', ends, c) =
              dealloc_loop-Cleared fuel freed.machine d (add32 a pgsize) oldsz (omega arith)
                (ground arith) small (omega arith) (omega arith)
                (λ b ge lt al.
                  kept_entry m freed.machine d b
                    (freed.elsewhere d b
                      (other_place d a b (omega arith) (omega arith) (ground arith)))
                    (free b (omega arith) lt al)) in
            (
              m',
              dealloc_round fuel m freed.machine d a oldsz f.pte below f.walk freed.ends ∙ ends,
              also_first m freed.machine m' d a (pages_up oldsz) f.pte (omega arith) aligned more
                  freed.here freed.elsewhere
                  (from_number freed.machine m' d _ _ (pages_up oldsz) number c),
            )
      ]

  -- `deallocuvm` of a process that shrinks, whose pages have page tables and frames that may be freed:
  -- it comes to its end without a panic, the pages from the new size up are gone, and no other entry
  -- of any directory is changed. 2 ^ 19 + 1 rounds are enough below KERNBASE.
  pub deallocuvm-Cleared :
      (m : Machine) (d oldsz newsz : ℕ)
      → newsz < oldsz
      → oldsz ≤ kernbase
      → AllFreeable m d newsz oldsz
      → (m' : Machine) × (deallocuvm end (2 ^ 19 + 1) m d oldsz newsz ≡ some (newsz, done tt m'))
        × Cleared m d ((newsz + 4095) / 4096) (pages_up oldsz) m'
  unfolding deallocuvm
  deallocuvm-Cleared m d oldsz newsz less small free =
      let shrinks : leb oldsz newsz ≡ false = ground arith in
      let number : pgroundup newsz / 4096 ≡ (newsz + 4095) / 4096 = omega arith in
      let (m', ends, c) =
        dealloc_loop-Cleared (2 ^ 19 + 1) m d (pgroundup newsz) oldsz (omega arith) (omega arith)
          small (omega arith) (omega arith) (λ b ge lt al. free b (omega arith) lt al) in
      (m', rw (shrinks, ends) refl, from_number m m' d _ _ (pages_up oldsz) number c)
