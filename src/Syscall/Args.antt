-- ===== src/Syscall/Args.antt =====
-- What a system call may rely on when its arguments were accepted, and that they are accepted
-- whenever they are good.
use os163_assi.Prelude.{
  ℕ, zero, suc, ◌+◌, ◌-◌, ◌≡◌, ◌≤◌, ◌<◌, ◌^◌, ◌↔◌, inl, inr, false, some, ◌==◌, arith, Bool-cases,
  Option-cases, refl,
}
use os163_assi.Bytes.{Mem}
use os163_assi.Bytes.Strings.{ended}
use os163_assi.Syscall.{Proc, fetchstr, argint, argptr, scan}

-- With a non-negative size, and a process that lies below the kernel, `argptr` accepts a pointer just
-- if the argument can be read and the whole block lies in the process, behind a pointer that does.
pub argptr_iff :
    (proc : Proc) (n size v : ℕ)
    → proc.sz ≤ 2 ^ 31
    → size < 2 ^ 31
    → (argptr proc n size ≡ some v)
      ↔ ((argint proc n ≡ some v) × (v < proc.sz) × (v + size ≤ proc.sz))
unfolding argptr
argptr_iff proc n size v low nonneg = elim (Option-cases (argint proc n)) [
  | inl e ↦ (λ h. absurd (ground arith), λ h. absurd (ground (arith, h.0)))
  | inr (w, e) ↦
      (λ h. (ground arith, ground arith, ground arith), λ h. ground (arith, h.0, h.1, h.2))
]

-- What `fetchstr` finds at `addr`: a string of `len` bytes without a nul, a nul behind it, all of it
-- in the process.
pub record IsString (proc : Proc) (addr len : ℕ) : Type 0 where
  pub inside : addr + len < proc.sz
  pub plain : ended proc.mem addr len ≡ false
  pub nul : proc.mem (addr + len) ≡ 0

scan_found :
    (left s len v : ℕ) (mem : Mem)
    → scan left s len mem ≡ some v
    → (k : ℕ) × (v ≡ len + k) × (k < left) × (ended mem s k ≡ false) × (mem (s + k) ≡ 0)
unfolding scan ended
scan_found zero s len v mem h = absurd cc
scan_found (suc left) s len v mem h = elim (Bool-cases (mem s == 0)) [
  | inl nul ↦ (0, ground arith, omega arith, refl, ground arith)
  | inr on ↦
      let (k, eq, lt, plain, at) = scan_found left (suc s) (suc len) v mem (ground arith) in
      (suc k, omega arith, omega arith, ground arith, ground arith)
]

scan_finds :
    (left s len k : ℕ) (mem : Mem)
    → k < left
    → ended mem s k ≡ false
    → mem (s + k) ≡ 0
    → scan left s len mem ≡ some (len + k)
unfolding scan ended
scan_finds zero s len k mem lt plain at = absurd (omega arith)
scan_finds (suc left) s len zero mem lt plain at = ground arith
scan_finds (suc left) s len (suc k) mem lt plain at =
    ground
      (arith, scan_finds left (suc s) (suc len) k mem (omega arith) (ground arith) (ground arith))

-- `fetchstr` gives a length just if a string of that length lies in the process, with its nul.
pub fetchstr-IsString :
    (proc : Proc) (addr len : ℕ) → (fetchstr proc addr ≡ some len) ↔ IsString proc addr len
unfolding fetchstr
fetchstr-IsString proc addr len = (there, back)
  where
    there : fetchstr proc addr ≡ some len → IsString proc addr len
    there h =
        let (k, eq, lt, plain, at) =
          scan_found (proc.sz - addr) addr 0 len proc.mem (ground arith) in
        record { inside = omega arith; plain = ground arith; nul = ground arith }

    back : IsString proc addr len → fetchstr proc addr ≡ some len
    back s =
        let finds =
          scan_finds (proc.sz - addr) addr 0 len proc.mem (omega (arith, s.inside)) s.plain s.nul in
        ground (arith, s.inside)
