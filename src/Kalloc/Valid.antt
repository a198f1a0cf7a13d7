-- ===== src/Kalloc/Valid.antt =====
-- The free list holds good pages, none of them twice, and the allocator keeps it so.
use os163_assi.Prelude.{
  ℕ, ◌%◌, ◌≡◌, ◌<◌, Bool, true, false, not, ◌&&◌, ◌||◌, Option, none, some, List, [], ◌∷◌, ◌==◌,
  update, arith, refl,
}
use os163_assi.Kalloc.{Memory, phystop, v2p, done, freed_page, is_bad, kfree, kalloc}

abbrev pub has : ℕ → List ℕ → Bool
has v [] = false
has v (w ∷ rest) = v == w || has v rest

-- `kalloc` writes no page.
pub kalloc-page : (mem : Memory) → (kalloc mem).1.page ≡ mem.page
unfolding kalloc
kalloc-page mem = at mem.freelist mem.page
  where
    at :
        (l : List ℕ) (page : ℕ → List ℕ)
        → (kalloc (record { freelist = l; page = page })).1.page ≡ page
    at [] page = refl
    at (v ∷ rest) page = refl

module _ (end : ℕ) where
  -- A good page lies in the physical memory, at a multiple of the page size.
  pub good-aligned : (v : ℕ) → is_bad end v ≡ false → (v2p v % 4096 ≡ 0) × (v2p v < phystop)
  unfolding is_bad
  good-aligned v h = ground arith

  abbrev pub all_good : List ℕ → Bool
  all_good [] = true
  all_good (v ∷ rest) = not (is_bad end v) && not (has v rest) && all_good rest

  -- Every free page is aligned, lies above the kernel and below the top of the memory, and stands in
  -- the list once.
  abbrev pub IsValid : Memory → Type 0
  IsValid mem = all_good mem.freelist ≡ true

  -- What `kalloc` may do to a memory.
  pub record Taken (mem : Memory) (res : Option ℕ × Memory) : Type 0 where
    pub valid : IsValid res.1
    pub same_pages : res.1.page ≡ mem.page
    pub good : (v : ℕ) → res.0 ≡ some v → is_bad end v ≡ false
    pub was_free : (v : ℕ) → res.0 ≡ some v → has v mem.freelist ≡ true
    pub no_longer : (v : ℕ) → res.0 ≡ some v → has v res.1.freelist ≡ false
    pub others :
        (v w : ℕ) → res.0 ≡ some v → (w == v) ≡ false → has w res.1.freelist ≡ has w mem.freelist
    pub empty : res.0 ≡ none → mem.freelist ≡ []

  -- `kalloc` keeps the free list good and writes no page. What it returns is a good page that was
  -- free and is no longer, and every other page stays as free as it was; it returns null only if no
  -- page was free.
  pub kalloc-IsValid : (mem : Memory) → IsValid mem → Taken mem (kalloc mem)
  unfolding kalloc
  kalloc-IsValid mem valid = take mem.freelist mem.page valid
    where
      take :
          (l : List ℕ) (page : ℕ → List ℕ)
          → all_good l ≡ true
          → Taken
              (record { freelist = l; page = page })
              (kalloc (record { freelist = l; page = page }))
      take [] page h = record {
        valid = h;
        same_pages = refl;
        good = λ v e. cc;
        was_free = λ v e. cc;
        no_longer = λ v e. cc;
        others = λ v w e ne. cc;
        empty = λ e. refl;
      }
      take (u ∷ rest) page h = record {
        valid = ground arith;
        same_pages = refl;
        good = λ v e. ground arith;
        was_free = λ v e. ground arith;
        no_longer = λ v e. ground arith;
        others = λ v w e ne. ground arith;
        empty = λ e. cc;
      }

  -- A good page that is not free can be freed: the list stays good, and `kalloc` hands this page out
  -- next and then has the list as it was.
  kalloc-kfree :
      (v : ℕ) (mem : Memory)
      → IsValid mem
      → is_bad end v ≡ false
      → has v mem.freelist ≡ false
      → (mem' : Memory) × (kfree end v mem ≡ done tt mem')
        × IsValid mem'
        × ((kalloc mem').0 ≡ some v)
        × ((kalloc mem').1.freelist ≡ mem.freelist)
  unfolding kfree kalloc
  kalloc-kfree v mem valid good out = (
    record {
      freelist = v ∷ mem.freelist;
      page = update mem.page (v2p v) (freed_page mem.freelist);
    },
    rw good,
    ground arith,
    refl,
    refl,
  )

  -- A page that passes the test is freed, whatever else is free.
  pub kfree_good :
      (v : ℕ) (mem : Memory)
      → is_bad end v ≡ false
      → (mem' : Memory) × (kfree end v mem ≡ done tt mem')
  unfolding kfree
  kfree_good v mem good = (
    record {
      freelist = v ∷ mem.freelist;
      page = update mem.page (v2p v) (freed_page mem.freelist);
    },
    rw good refl,
  )
