-- ===== src/Files/Users.antt =====
-- The processes with their open files, where each may be inside a call, and how many references to a
-- file they hold.
use os163_assi.Prelude.{
  ℕ, zero, suc, ◌+◌, ◌-◌, ◌≡◌, ◌≤◌, ◌<◌, Option, none, List, ◌==◌, arith, false, bit, Bool-cases,
  refl, inl, inr, replicate,
}
use os163_assi.Files.{System}
use os163_assi.Files.Table.{ref_of, count}

-- Where a process stands: outside of `dup` and `close`, between `fdalloc` and `filedup` for a file and
-- its new descriptor, or between the clearing of the descriptor and `fileclose`.
pub data Pc : Type 0 where
  idle : Pc
  duping : (i fd : ℕ) → Pc
  closing : (i : ℕ) → Pc

pub record Running : Type 0 where
  pub sys : System
  pub pc : ℕ → Pc

-- The references of a process to the file `k`: one for each descriptor, but none yet for the one that
-- waits for `filedup`, and one still for the one that waits for `fileclose`.
unfoldable pub holds : ℕ → List (Option ℕ) → Pc → ℕ
holds k l idle = count k l
holds k l (duping i fd) = count k l - bit (i == k)
holds k l (closing i) = count k l + bit (i == k)

-- The sum over the first `n` processes.
unfoldable pub total : ℕ → (ℕ → ℕ) → ℕ
total zero f = 0
total (suc n) f = f n + total n f

abbrev pub nproc : ℕ
nproc = 64

pub record IsCounted (c : Running) : Type 0 where
  pub counted : (k : ℕ) → ref_of c.sys.files k ≡ total nproc (λ p. holds k (c.sys.ofile p) (c.pc p))
  pub twice : (p i fd : ℕ) → c.pc p ≡ duping i fd → 2 ≤ count i (c.sys.ofile p)

total_same : (n : ℕ) (f g : ℕ → ℕ) → ((q : ℕ) → q < n → f q ≡ g q) → total n f ≡ total n g
unfolding total
total_same zero f g same = refl
total_same (suc n) f g same =
    omega (arith, same n (omega arith), total_same n f g (λ q lt. same q (omega arith)))

-- A change at one process.
pub total_moved :
    (n p : ℕ) (f g : ℕ → ℕ)
    → ((q : ℕ) → (p == q) ≡ false → f q ≡ g q)
    → p < n
    → total n f + g p ≡ total n g + f p
unfolding total
total_moved zero p f g same lt = absurd (omega arith)
total_moved (suc n) p f g same lt = elim (Bool-cases (p == n)) [
  | inl here ↦
      let e : n ≡ p = ground arith in
      let before : total n f ≡ total n g = total_same n f g (λ q lt. same q (ground arith)) in
      rw e (omega (arith, rw e at before))
  | inr there ↦ omega (arith, same n there, total_moved n p f g same (ground arith))
]

pub total_has : (n p : ℕ) (f : ℕ → ℕ) → p < n → f p ≤ total n f
unfolding total
total_has zero p f lt = absurd (omega arith)
total_has (suc n) p f lt = elim (Bool-cases (n == p)) [
  | inl here ↦ let e : n ≡ p = ground arith in rw e (omega arith)
  | inr there ↦ omega (arith, total_has n p f (ground arith))
]

pub total_zero : (n : ℕ) (f : ℕ → ℕ) → ((q : ℕ) → f q ≡ 0) → total n f ≡ 0
unfolding total
total_zero zero f e = refl
total_zero (suc n) f e = omega (arith, e n, total_zero n f e)

pub count-empty : (i n : ℕ) → count i (replicate n none) ≡ 0
count-empty i zero = refl
count-empty i (suc n) = omega (arith, count-empty i n)
