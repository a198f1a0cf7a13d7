-- ===== src/Kalloc.antt =====
-- kalloc.c: the allocator of physical pages. The free pages are a list of kernel addresses; the link
-- that a free page holds in its first word is that list's order, and is written out as well.
-- `kmem.lock` makes each function one step, and is not modelled here.
pub mod Valid
pub mod Range
mod Tests
use os163_assi.Prelude.{
  ℕ, zero, suc, ◌+◌, ◌-◌, ◌*◌, ◌/◌, ◌%◌, ◌^◌, Bool, true, false, not, ◌||◌, Option, none, some,
  List, [], ◌∷◌, ◌++◌, if◌then◌else◌, ◌==◌, ltb, leb, replicate, update, add32, sub32,
}

abbrev pub pgsize : ℕ
pgsize = 4096

-- Top of the physical memory, and where the kernel maps its start.
abbrev pub phystop : ℕ
phystop = 0xE00_0000

abbrev pub kernbase : ℕ
kernbase = 0x8000_0000

abbrev pub v2p : ℕ → ℕ
v2p a = sub32 a kernbase

abbrev pub p2v : ℕ → ℕ
p2v a = add32 a kernbase

-- `PGROUNDUP` and `PGROUNDDOWN`: the mask `~(PGSIZE-1)` clears the low twelve bits.
abbrev pub pgrounddown : ℕ → ℕ
pgrounddown a = a / 4096 * 4096

abbrev pub pgroundup : ℕ → ℕ
pgroundup sz = pgrounddown (add32 sz 4095)

-- `kmem.freelist`, and what each page holds, by its physical address.
pub record Memory : Type 0 where
  pub freelist : List ℕ
  pub page : ℕ → List ℕ

-- A machine that runs on, with a value, or that has halted in `panic`.
pub data Run (S A : Type 0) : Type 0 where
  done : A → S → Run S A
  panicked : Run S A

-- The four bytes of a word in memory.
abbrev pub bytes_of : ℕ → List ℕ
bytes_of n = n % 256 ∷ n / 256 % 256 ∷ n / 65536 % 256 ∷ n / 16777216 % 256 ∷ []

abbrev pub next_free : List ℕ → ℕ
next_free [] = 0
next_free (v ∷ rest) = v

-- The page as `kfree` leaves it: filled with 1, and the link over its first word.
freed_page : List ℕ → List ℕ
freed_page freelist = bytes_of (next_free freelist) ++ replicate 4092 1

-- `end`, the first address behind the kernel, comes from the linker.
module _ (end : ℕ) where
  -- The test that makes `kfree` panic.
  unfoldable pub is_bad : ℕ → Bool
  is_bad v = not (v % pgsize == 0) || ltb v end || leb phystop (v2p v)

  pub kfree : ℕ → Memory → Run Memory (Unit {0})
  unfolding is_bad freed_page
  kfree v mem =
      if is_bad v
      then panicked
      else done tt (record {
        freelist = v ∷ mem.freelist;
        page = update mem.page (v2p v) (freed_page mem.freelist);
      })

  -- `for(; p + PGSIZE <= vend; p += PGSIZE) kfree(p);` on fuel
  freerange_loop : ℕ → ℕ → ℕ → Memory → Option (Run Memory (Unit {0}))
  freerange_loop zero p vend mem = none
  freerange_loop (suc fuel) p vend mem = elim (leb (add32 p pgsize) vend) [
    | false ↦ some (done tt mem)
    | true ↦ elim (kfree p mem) [
      | panicked ↦ some panicked
      | done _ mem' ↦ freerange_loop fuel (add32 p pgsize) vend mem'
    ]
  ]

  -- With a round for each page of the address space, and one for the last test.
  pub freerange : ℕ → ℕ → Memory → Option (Run Memory (Unit {0}))
  unfolding freerange_loop
  freerange vstart vend mem = freerange_loop (2 ^ 20 + 1) (pgroundup vstart) vend mem

-- `none` is the null pointer.
unfoldable pub kalloc : Memory → Option ℕ × Memory
kalloc mem = elim mem.freelist [
  | [] ↦ (none, mem)
  | v ∷ rest ↦ (some v, record mem { freelist = rest })
]
