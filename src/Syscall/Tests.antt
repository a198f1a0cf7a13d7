-- ===== src/Syscall/Tests.antt =====
-- A process of 8192 bytes, whose first argument is the pointer 100 to a string of two bytes.
use os163_assi.Prelude.{◌+◌, ◌≡◌, ◌≤◌, ◌<◌, ◌↔◌, ◌==◌, if◌then◌else◌, refl, some, arith}
use os163_assi.Syscall.{Proc, argint, argptr, fetchstr}
use os163_assi.Syscall.Args.{argptr_iff, IsString, fetchstr-IsString}

abbrev proc : Proc
proc = record {
  sz = 8192;
  mem = λ a. if a == 8004 then 100 else if a == 100 then 104 else if a == 101 then 105 else 0;
  esp = 8000;
}

argptr_iff_example :
    (argptr proc 0 8000 ≡ some 100)
    ↔ ((argint proc 0 ≡ some 100) × (100 < proc.sz) × (100 + 8000 ≤ proc.sz))
argptr_iff_example = argptr_iff proc 0 8000 100 (omega arith) (omega arith)

accepted : argptr proc 0 8000 ≡ some 100
unfolding argptr argint
accepted = refl

fetchstr-IsString_example : (fetchstr proc 100 ≡ some 2) ↔ IsString proc 100 2
fetchstr-IsString_example = fetchstr-IsString proc 100 2
