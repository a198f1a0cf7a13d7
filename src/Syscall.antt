-- ===== src/Syscall.antt =====
-- syscall.c: how a system call fetches its arguments from the memory of the process. A process sees
-- its own `sz` bytes; an address is unsigned, and its sums wrap around modulo 2 ^ 32.
pub mod Args
mod Tests
use os163_assi.Prelude.{
  ℕ, zero, suc, ◌+◌, ◌-◌, ◌*◌, Bool, true, false, ◌||◌, Option, none, some, if◌then◌else◌, ◌==◌,
  ltb, leb, add32,
}
use os163_assi.Bytes.{Mem}

-- `*(int*)(addr)`
abbrev pub int_at : Mem → ℕ → ℕ
int_at mem a = mem a + 256 * mem (a + 1) + 65536 * mem (a + 2) + 16777216 * mem (a + 3)

-- The process, as these functions see it: its size, its memory, and the user's stack pointer.
pub record Proc : Type 0 where
  pub sz : ℕ
  pub mem : Mem
  pub esp : ℕ

-- `fetchint`; `none` is -1.
pub fetchint : Proc → ℕ → Option ℕ
fetchint proc addr =
    if leb proc.sz addr || ltb proc.sz (add32 addr 4) then none else some (int_at proc.mem addr)

-- `for(s = *pp; s < ep; s++) if(*s == 0) return s - *pp;`, for the bytes that are left up to `ep`
scan : ℕ → ℕ → ℕ → Mem → Option ℕ
scan zero s len mem = none
scan (suc left) s len mem =
    let rest = scan left (suc s) (suc len) mem in if mem s == 0 then some len else rest

-- `fetchstr`: the length of the string at `addr`
pub fetchstr : Proc → ℕ → Option ℕ
unfolding scan
fetchstr proc addr = if leb proc.sz addr then none else scan (proc.sz - addr) addr 0 proc.mem

-- `argint`
pub argint : Proc → ℕ → Option ℕ
unfolding fetchint
argint proc n = fetchint proc (add32 (add32 proc.esp 4) (4 * n))

ptr_checked : Proc → ℕ → Option ℕ → Option ℕ
ptr_checked proc size none = none
ptr_checked proc size (some i) =
    if leb proc.sz i || ltb proc.sz (add32 i size) then none else some i

-- `argptr`: the pointer to a block of `size` bytes
pub argptr : Proc → ℕ → ℕ → Option ℕ
unfolding ptr_checked
argptr proc n size = ptr_checked proc size (argint proc n)

str_checked : Proc → Option ℕ → Option (ℕ × ℕ)
str_checked proc none = none
str_checked proc (some addr) = elim (fetchstr proc addr) [
  | none ↦ none
  | some len ↦ some (addr, len)
]

-- `argstr`: the pointer and the length
pub argstr : Proc → ℕ → Option (ℕ × ℕ)
unfolding str_checked
argstr proc n = str_checked proc (argint proc n)
