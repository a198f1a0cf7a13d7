-- ===== src/Vm/Cow/Handled.antt =====
-- What processes see of a page fault: nothing but that the page at the address may be written.
use os163_assi.Prelude.{ℕ, ◌≡◌, Bool, true, false, not, ◌&&◌, ◌||◌, Option, none, some, ltb}
use os163_assi.Kalloc.{kalloc}
use os163_assi.Vm.{Machine, Pte, pa_inx, walkpgdir}
use os163_assi.Vm.Cow.Alias.{ProcessPage}

pub is_some : Option ℕ → Bool
is_some none = false
is_some (some v) = true

-- Does the handler find a shared entry inside the process, and a page for it?
unfoldable pub can_write : Machine → ℕ → ℕ → Option Pte → Bool
unfolding is_some
can_write m sz va none = false
can_write m sz va (some pte) =
    pte.flags.shared
    && ltb va sz
    && (not (ltb 1 (m.counter (pa_inx pte.addr))) || is_some (kalloc m.mem).0)

-- Each page of each process is still there, and holds what it held.
abbrev pub SamePages : Machine → Machine → Type 0
SamePages m m' =
    (d' va' : ℕ) (pte' : Pte)
    → ProcessPage m d' va' pte'
    → (new : Pte) × ProcessPage m' d' va' new × (m'.mem.page new.addr ≡ m.mem.page pte'.addr)

pub record Handled (m : Machine) (d sz va : ℕ) (res : Bool × Machine) : Type 0 where
  pub answer : res.0 ≡ can_write m sz va (walkpgdir m d va)
  pub pages : SamePages m res.1
  pub writable :
      res.0 ≡ true
      → (new : Pte) × (walkpgdir res.1 d va ≡ some new)
        × (new.flags.writable ≡ true)
        × (new.flags.shared ≡ false)
  pub unchanged : res.0 ≡ false → res.1 ≡ m
