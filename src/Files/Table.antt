-- ===== src/Files/Table.antt =====
-- What the calls of file.c do to the reference counts, and how often a file stands in a list of
-- descriptors.
use os163_assi.Prelude.{
  ℕ, zero, suc, ◌+◌, ◌-◌, ◌≡◌, ◌≤◌, ◌<◌, Bool, Option, none, some, List, [], ◌∷◌, ◌==◌, ltb,
  get_elem?, set, arith, bit, Bool-cases, Option-cases, get_elem?-set, refl, inl, inr,
}
use os163_assi.Files.{
  File, fd_none, fd_inode, fill_in, filealloc, filealloc_from, filedup, fileclose, fdalloc,
  fdalloc_from, dup_all, close_all,
}

abbrev pub ref_in : Option File → ℕ
ref_in none = 0
ref_in (some f) = f.ref

-- The count of a file, 0 for none.
abbrev pub ref_of : List File → ℕ → ℕ
ref_of files i = ref_in (get_elem? files i)

-- `fileclose` and `filedup` on the counts.
pub filedup_lem :
    (i : ℕ) (files : List File)
    → 0 < ref_of files i
    → (files' : List File) × (filedup i files ≡ some files')
      × ((k : ℕ) → ref_of files' k ≡ ref_of files k + bit (i == k))
unfolding filedup
filedup_lem i files pos = elim (Option-cases (get_elem? files i)) [
  | inl e ↦ absurd (ground arith)
  | inr (f, e) ↦ (
    set files i (record f { ref = f.ref + 1 }),
    ground arith,
    λ k. ground (arith, get_elem?-set files i k (record f { ref = f.ref + 1 }) f e),
  )
]

-- The counts after one reference more, or one less.
abbrev pub Gained : List File → List File → ℕ → Type 0
Gained files files' i = (k : ℕ) → ref_of files' k ≡ ref_of files k + bit (i == k)

pub fileclose_lem :
    (i : ℕ) (files : List File)
    → 0 < ref_of files i
    → (out : Option File) × (files' : List File) × (fileclose i files ≡ some (out, files'))
      × Gained files' files i
unfolding fileclose
fileclose_lem i files pos = elim (Option-cases (get_elem? files i)) [
  | inl e ↦ absurd (ground arith)
  | inr (f, e) ↦ elim (Bool-cases (ltb 0 (f.ref - 1))) [
    | inl more ↦ (
      none,
      set files i (record f { ref = f.ref - 1 }),
      ground arith,
      λ k. ground (arith, get_elem?-set files i k (record f { ref = f.ref - 1 }) f e),
    )
    | inr last ↦ (
      some (record f { ref = f.ref - 1 }),
      set files i (record f { ref = 0; ftype = fd_none }),
      ground arith,
      λ k. ground (arith, get_elem?-set files i k (record f { ref = 0; ftype = fd_none }) f e),
    )
  ]
]

filealloc_from_lem :
    (files : List File) (base i : ℕ) (f : File)
    → filealloc_from files base ≡ some (i, f)
    → (base ≤ i) × (get_elem? files (i - base) ≡ some f) × (f.ref ≡ 0)
unfolding filealloc_from
filealloc_from_lem [] base i f h = absurd cc
filealloc_from_lem (g ∷ rest) base i f h = elim (Bool-cases (g.ref == 0)) [
  | inl here ↦ (ground arith, ground arith, ground arith)
  | inr on ↦
      let (le, at, zeroed) = filealloc_from_lem rest (suc base) i f (ground arith) in
      (omega arith, ground arith, zeroed)
]

pub filealloc_lem :
    (files files' : List File) (i : ℕ) → filealloc files ≡ some (i, files') → Gained files files' i
unfolding filealloc
filealloc_lem files files' i h k = elim (Option-cases (filealloc_from files 0)) [
  | inl e ↦ absurd (ground arith)
  | inr ((j, f), e) ↦
      let (le, at, zeroed) = filealloc_from_lem files 0 j f e in
      ground (arith, get_elem?-set files j k (record f { ref = 1 }) f (ground arith))
]

fdalloc_from_lem :
    (ofile : List (Option ℕ)) (base fd : ℕ)
    → fdalloc_from ofile base ≡ some fd
    → (base ≤ fd) × (get_elem? ofile (fd - base) ≡ some none)
unfolding fdalloc_from
fdalloc_from_lem [] base fd h = absurd cc
fdalloc_from_lem (none ∷ rest) base fd h = (ground arith, ground arith)
fdalloc_from_lem (some j ∷ rest) base fd h =
    let (le, at) = fdalloc_from_lem rest (suc base) fd h in (omega arith, ground arith)

pub fdalloc_lem :
    (ofile : List (Option ℕ)) (fd : ℕ) → fdalloc ofile ≡ some fd → get_elem? ofile fd ≡ some none
unfolding fdalloc
fdalloc_lem ofile fd h = ground (arith, fdalloc_from_lem ofile 0 fd h)

-- How many of the descriptors lead to the file `i`.
abbrev pub leads : ℕ → Option ℕ → ℕ
leads i none = 0
leads i (some j) = bit (j == i)

abbrev pub count : ℕ → List (Option ℕ) → ℕ
count i [] = 0
count i (e ∷ rest) = leads i e + count i rest

pub count-set :
    (ofile : List (Option ℕ)) (fd i : ℕ) (old new : Option ℕ)
    → get_elem? ofile fd ≡ some old
    → count i (set ofile fd new) + leads i old ≡ count i ofile + leads i new
count-set [] fd i old new h = absurd cc
count-set (e ∷ rest) zero i old new h = ground arith
count-set (e ∷ rest) (suc fd) i old new h = omega (arith, count-set rest fd i old new h)

pub dup_all_lem :
    (ofile : List (Option ℕ)) (files : List File)
    → ((i : ℕ) → 0 < count i ofile → 0 < ref_of files i)
    → (files' : List File) × (dup_all ofile files ≡ some files')
      × ((k : ℕ) → ref_of files' k ≡ ref_of files k + count k ofile)
unfolding dup_all
dup_all_lem [] files live = (files, refl, λ k. omega arith)
dup_all_lem (none ∷ rest) files live =
    let (files', runs, counts) = dup_all_lem rest files (λ i pos. live i (omega arith)) in
    (files', runs, λ k. omega (arith, counts k))
dup_all_lem (some i ∷ rest) files live =
    let (files1, dups, gains) = filedup_lem i files (live i (ground arith)) in
    let (files2, runs, counts) =
      dup_all_lem rest files1 (λ k pos. ground (arith, gains k, live k)) in
    (files2, rw dups runs, λ k. omega (arith, counts k, gains k))

pub close_all_lem :
    (ofile : List (Option ℕ)) (files : List File)
    → ((i : ℕ) → count i ofile ≤ ref_of files i)
    → (files' : List File) × (close_all ofile files ≡ some files')
      × ((k : ℕ) → ref_of files' k + count k ofile ≡ ref_of files k)
unfolding close_all
close_all_lem [] files live = (files, refl, λ k. omega arith)
close_all_lem (none ∷ rest) files live =
    let (files', runs, counts) = close_all_lem rest files (λ i. omega (arith, live i)) in
    (files', runs, λ k. omega (arith, counts k))
close_all_lem (some i ∷ rest) files live =
    let (out, files1, closes, gains) = fileclose_lem i files (ground (arith, live i)) in
    let (files2, runs, counts) = close_all_lem rest files1 (λ k. ground (arith, gains k, live k)) in
    (files2, rw closes runs, λ k. omega (arith, counts k, gains k))

pub fill_in-ref :
    (ip i k : ℕ) (readable writable : Bool) (files : List File)
    → ref_of (fill_in ip readable writable files i (get_elem? files i)) k ≡ ref_of files k
unfolding fill_in
fill_in-ref ip i k readable writable files = elim (Option-cases (get_elem? files i)) [
  | inl e ↦ ground arith
  | inr (f, e) ↦ ground (
    arith,
    get_elem?-set files i k
        (record f { ftype = fd_inode; ip = ip; off = 0; readable = readable; writable = writable })
        f e,
  )
]
