-- ===== src/Bytes.antt =====
-- string.c: the byte and string functions, on a memory that is a function from addresses to bytes.
-- A run of bytes that a caller names lies in the address space, so no pointer wraps around.
pub mod Move
pub mod Strings
mod Tests
use os163_assi.Prelude.{
  ℕ, zero, suc, ◌+◌, ◌-◌, Bool, true, false, ◌&&◌, Option, none, some, if◌then◌else◌, ◌==◌, ltb,
  update, sub32, add32, is_neg,
}

abbrev pub Mem : Type 0
Mem = ℕ → ℕ

-- `while(n-- > 0) *d++ = *s++;`
pub forward : ℕ → ℕ → ℕ → Mem → Mem
forward zero d s mem = mem
forward (suc n) d s mem = forward n (suc d) (suc s) (update mem d (mem s))

-- `while(n-- > 0) *--d = *--s;`, from the ends `d + n` and `s + n`
pub backward : ℕ → ℕ → ℕ → Mem → Mem
backward zero d s mem = mem
backward (suc n) d s mem = backward n d s (update mem (d + n) (mem (s + n)))

-- `memmove`, and `memcpy`, which calls it
pub memmove : ℕ → ℕ → ℕ → Mem → Mem
unfolding forward backward
memmove dst src n mem =
    if ltb src dst && ltb dst (add32 src n) then backward n dst src mem else forward n dst src mem

-- `memcmp`: the difference of the first two bytes that differ, as an `int`
pub memcmp : ℕ → ℕ → ℕ → Mem → ℕ
memcmp s1 s2 zero mem = 0
memcmp s1 s2 (suc n) mem =
    let rest = memcmp (suc s1) (suc s2) n mem in
    if mem s1 == mem s2 then rest else sub32 (mem s1) (mem s2)

-- `strncmp`
pub strncmp : ℕ → ℕ → ℕ → Mem → ℕ
strncmp p q zero mem = 0
strncmp p q (suc n) mem =
    let rest = strncmp (suc p) (suc q) n mem in
    if mem p == 0
    then sub32 (mem p) (mem q)
    else if mem p == mem q
    then rest
    else sub32 (mem p) (mem q)

-- `while(n-- > 0) *s++ = 0;`
pub zeros : ℕ → ℕ → Mem → Mem
zeros zero s mem = mem
zeros (suc n) s mem = zeros n (suc s) (update mem s 0)

-- `strncpy`: the copy goes up to a nul, and the rest is filled with nuls.
strncpy_loop : ℕ → ℕ → ℕ → Mem → Mem
unfolding zeros
strncpy_loop zero s t mem = mem
strncpy_loop (suc n) s t mem =
    let rest = strncpy_loop n (suc s) (suc t) (update mem s (mem t)) in
    if mem t == 0 then zeros n (suc s) (update mem s (mem t)) else rest

pub strncpy : ℕ → ℕ → ℕ → Mem → Mem
unfolding strncpy_loop
strncpy s t n mem = if is_neg n then mem else strncpy_loop n s t mem

-- `while(--n > 0 && (*s++ = *t++) != 0); *s = 0;`, for the bytes that are left
safe_loop : ℕ → ℕ → ℕ → Mem → Mem
safe_loop zero s t mem = update mem s 0
safe_loop (suc left) s t mem =
    let rest = safe_loop left (suc s) (suc t) (update mem s (mem t)) in
    if mem t == 0 then update (update mem s (mem t)) (suc s) 0 else rest

pub safestrcpy : ℕ → ℕ → ℕ → Mem → Mem
unfolding safe_loop
safestrcpy s t zero mem = mem
safestrcpy s t (suc left) mem = if is_neg (suc left) then mem else safe_loop left s t mem

-- `strlen`, on fuel
pub strlen : ℕ → ℕ → Mem → Option ℕ
strlen zero s mem = none
strlen (suc fuel) s mem = elim (mem s == 0) [
  | true ↦ some 0
  | false ↦ elim (strlen fuel (suc s) mem) [ none ↦ none | some n ↦ some (suc n) ]
]
