-- ===== src/Kalloc/Range.antt =====
-- `freerange`, by which the two phases of the start-up hand the physical pages to the allocator.
use os163_assi.Prelude.{
  ℕ, zero, suc, ◌+◌, ◌-◌, ◌*◌, ◌/◌, ◌%◌, ◌^◌, ◌≡◌, ◌≤◌, ◌<◌, Bool, true, false, ◌&&◌, some, List,
  [], ◌∷◌, ltb, leb, update, add32, arith, refl, ap, ◌∙◌,
}
use os163_assi.Kalloc.{
  Memory, pgsize, pgroundup, phystop, kernbase, v2p, done, freed_page, is_bad, kfree, freerange,
  freerange_loop,
}
use os163_assi.Kalloc.Valid.{has, IsValid}

-- The pages of `[p, p + k * PGSIZE)` in front of a list, the last one first.
abbrev pub push_pages : ℕ → ℕ → List ℕ → List ℕ
push_pages zero p l = l
push_pages (suc k) p l = push_pages k (p + pgsize) (p ∷ l)

-- No page of the list stands at `p` or above.
abbrev pub all_below : ℕ → List ℕ → Bool
all_below p [] = true
all_below p (w ∷ rest) = ltb w p && all_below p rest

all_below-has : (p : ℕ) (l : List ℕ) → all_below p l ≡ true → has p l ≡ false
all_below-has p [] h = refl
all_below-has p (w ∷ rest) h = ground (arith, all_below-has p rest)

all_below_mono : (p r : ℕ) (l : List ℕ) → p ≤ r → all_below p l ≡ true → all_below r l ≡ true
all_below_mono p r [] le h = refl
all_below_mono p r (w ∷ rest) le h = ground (arith, all_below_mono p r rest le)

module _ (end : ℕ) where
  -- A page between the kernel's end and the top of the memory passes the test of `kfree`.
  good_page :
      (p : ℕ)
      → p % pgsize ≡ 0
      → end ≤ p
      → kernbase ≤ p
      → p < kernbase + phystop
      → is_bad end p ≡ false
  unfolding is_bad
  good_page p aligned above kernel top = ground arith

  freerange_loop-frees :
      (k fuel p vend : ℕ) (mem : Memory)
      → k < fuel
      → p % pgsize ≡ 0
      → end ≤ p
      → kernbase ≤ p
      → vend ≤ kernbase + phystop
      → p + k * pgsize ≤ vend
      → vend < p + k * pgsize + pgsize
      → all_below p mem.freelist ≡ true
      → IsValid end mem
      → (mem' : Memory) × (freerange_loop end fuel p vend mem ≡ some (done tt mem'))
        × IsValid end mem'
        × (mem'.freelist ≡ push_pages k p mem.freelist)
  unfolding freerange_loop
  freerange_loop-frees k zero p vend mem lt aligned above kernel top fits last below valid =
      absurd (omega arith)
  freerange_loop-frees zero (suc fuel) p vend mem lt aligned above kernel top fits last below
        valid =
      let stop : leb (add32 p pgsize) vend ≡ false = ground arith in
      (mem, rw (stop, freerange_loop), valid, refl)
  freerange_loop-frees (suc k) (suc fuel) p vend mem lt aligned above kernel top fits last below
        valid =
      let go : leb (add32 p pgsize) vend ≡ true = ground arith in
      let good = good_page p aligned above kernel (omega arith) in
      let mem1 : Memory = record {
        freelist = p ∷ mem.freelist;
        page = update mem.page (v2p p) (freed_page mem.freelist);
      } in
      let here : kfree end p mem ≡ done tt mem1 = unfold kfree in rw good in
      let next : add32 p pgsize ≡ p + pgsize = omega arith in
      let (mem', e, v, l) =
        freerange_loop-frees k fuel (add32 p pgsize) vend mem1 (omega arith) (omega arith)
          (omega arith) (omega arith) top (omega arith) (omega arith)
          (ground (arith, all_below_mono p (add32 p pgsize) mem.freelist (omega arith)))
          (ground (arith, all_below-has p mem.freelist)) in
      (
        mem',
        rw (go, freerange_loop, here) e,
        v,
        l ∙ ap (λ a. push_pages k a (p ∷ mem.freelist)) next,
      )

  -- Let the range lie above the kernel and in the mapped memory, and every free page below it. Then
  -- `freerange` ends, does not panic, and puts exactly the whole pages of the range on the free list,
  -- which stays good.
  pub freerange-frees :
      (vstart vend : ℕ) (mem : Memory)
      → end ≤ vstart
      → kernbase ≤ vstart
      → vstart ≤ vend
      → vend ≤ kernbase + phystop
      → pgroundup vstart ≤ vend
      → all_below (pgroundup vstart) mem.freelist ≡ true
      → IsValid end mem
      → (mem' : Memory) × (freerange end vstart vend mem ≡ some (done tt mem'))
        × IsValid end mem'
        × (mem'.freelist
            ≡ push_pages ((vend - pgroundup vstart) / pgsize) (pgroundup vstart) mem.freelist)
  unfolding freerange
  freerange-frees vstart vend mem above kernel le top fits below valid =
      freerange_loop-frees ((vend - pgroundup vstart) / pgsize) (2 ^ 20 + 1) (pgroundup vstart) vend
        mem (omega arith) (omega arith) (omega arith) (omega arith) top (omega arith) (omega arith)
        below valid
