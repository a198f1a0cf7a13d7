-- ===== src/Kalloc/Tests.antt =====
-- The allocator above a kernel that ends at 0x80100800: two pages and a half are handed to it.
use os163_assi.Prelude.{ℕ, ◌≡◌, refl, some, [], ◌∷◌, arith}
use os163_assi.Kalloc.{Memory, done, is_bad, freerange}
use os163_assi.Kalloc.Valid.{IsValid}
use os163_assi.Kalloc.Range.{push_pages, freerange-frees}

abbrev end : ℕ
end = 0x8010_0800

abbrev two_pages : Memory
two_pages = record { freelist = 0x8010_2000 ∷ 0x8010_1000 ∷ []; page = λ pa. [] }

two_pages-IsValid : IsValid end two_pages
unfolding is_bad
two_pages-IsValid = refl

abbrev no_pages : Memory
no_pages = record { freelist = []; page = λ pa. [] }

freerange-frees_example :
    (mem' : Memory) × (freerange end 0x8010_0800 0x8010_3800 no_pages ≡ some (done tt mem'))
    × IsValid end mem'
    × (mem'.freelist ≡ push_pages 2 0x8010_1000 [])
freerange-frees_example =
    freerange-frees end 0x8010_0800 0x8010_3800 no_pages (omega arith) (omega arith) (omega arith)
      (omega arith) (omega arith) refl refl
