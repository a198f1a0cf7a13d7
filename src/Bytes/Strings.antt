-- ===== src/Bytes/Strings.antt =====
-- string.c: what `strncpy`, `safestrcpy`, `strlen` and `strncmp` do.
use os163_assi.Prelude.{
  ℕ, zero, suc, ◌+◌, ◌-◌, ◌≡◌, ◌≤◌, ◌<◌, ◌^◌, ◌⊎◌, inl, inr, Bool, true, false, ◌||◌, if◌then◌else◌,
  ◌==◌, update, arith, Bool-cases, ◌↔◌, refl, some,
}
use os163_assi.Bytes.{Mem, zeros, strncpy_loop, strncpy, safe_loop, safestrcpy, strlen, strncmp}
use os163_assi.Bytes.Move.{within}

-- Whether a nul stands among the first `i` bytes at `t`.
unfoldable pub ended : Mem → ℕ → ℕ → Bool
ended mem t zero = false
ended mem t (suc i) = mem t == 0 || ended mem (suc t) i

-- What `strncpy` promises: the string, and nuls behind it.
abbrev pub padded : ℕ → ℕ → ℕ → Mem → Mem
padded s t n mem a =
    if within s n a then if ended mem t (a - s) then 0 else mem (t + (a - s)) else mem a

zeros_lem : (n s : ℕ) (mem : Mem) (a : ℕ) → zeros n s mem a ≡ (if within s n a then 0 else mem a)
unfolding zeros
zeros_lem zero s mem a = ground arith
zeros_lem (suc n) s mem a = ground (arith, zeros_lem n (suc s) (update mem s 0) a)

ended_pos :
    (mem : Mem) (t i : ℕ) → 0 < i → ended mem t i ≡ (mem t == 0 || ended mem (suc t) (i - 1))
unfolding ended
ended_pos mem t zero h = absurd (omega arith)
ended_pos mem t (suc i) h = ground arith

ended-update :
    (i t s v : ℕ) (mem : Mem) → (s < t) ⊎ (t + i ≤ s) → ended (update mem s v) t i ≡ ended mem t i
unfolding ended
ended-update zero t s v mem apart = refl
ended-update (suc i) t s v mem (inl h) =
    ground (arith, ended-update i (suc t) s v mem (inl (omega arith)))
ended-update (suc i) t s v mem (inr h) =
    ground (arith, ended-update i (suc t) s v mem (inr (omega arith)))

strncpy_loop_lem :
    (n s t : ℕ) (mem : Mem) (a : ℕ)
    → (s + n ≤ t) ⊎ (t + n ≤ s)
    → strncpy_loop n s t mem a ≡ padded s t n mem a
unfolding strncpy_loop ended
strncpy_loop_lem zero s t mem a apart = ground arith
strncpy_loop_lem (suc n) s t mem a apart =
    let mem1 : Mem = update mem s (mem t) in
    elim (Bool-cases (mem t == 0)) [
      | inl nul ↦ ground (arith, zeros_lem n (suc s) mem1 a, ended_pos mem t (a - s))
      | inr more ↦ elim (Bool-cases (within (suc s) n a)) [
        | inl deep ↦ ground (
          arith,
          strncpy_loop_lem n (suc s) (suc t) mem1 a (way apart),
          ended_pos mem t (a - s),
          ended-update (a - suc s) (suc t) s (mem t) mem (gap apart (ground arith)),
        )
        | inr else_where ↦
            ground (
              arith,
              strncpy_loop_lem n (suc s) (suc t) mem1 a (way apart),
              ended_pos mem t (a - s),
            )
      ]
    ]
  where
    way : (s + suc n ≤ t) ⊎ (t + suc n ≤ s) → (suc s + n ≤ suc t) ⊎ (suc t + n ≤ suc s)
    way (inl h) = inl (omega arith)
    way (inr h) = inr (omega arith)

    gap :
        (s + suc n ≤ t) ⊎ (t + suc n ≤ s) → a - suc s ≤ n → (s < suc t) ⊎ (suc t + (a - suc s) ≤ s)
    gap (inl h) deep = inl (omega arith)
    gap (inr h) deep = inr (omega arith)

-- Into a run apart from the source, `strncpy` writes the string up to its nul, and nuls from there to
-- the end of the run; no other byte changes.
strncpy-padded :
    (s t n : ℕ) (mem : Mem) (a : ℕ)
    → n < 2 ^ 31
    → (s + n ≤ t) ⊎ (t + n ≤ s)
    → strncpy s t n mem a ≡ padded s t n mem a
unfolding strncpy
strncpy-padded s t n mem a small apart = ground (arith, strncpy_loop_lem n s t mem a apart)

safe_loop_outside :
    (left s t : ℕ) (mem : Mem) (a : ℕ)
    → within s (suc left) a ≡ false
    → safe_loop left s t mem a ≡ mem a
unfolding safe_loop
safe_loop_outside zero s t mem a out = ground arith
safe_loop_outside (suc left) s t mem a out =
    ground (arith, safe_loop_outside left (suc s) (suc t) (update mem s (mem t)) a (ground arith))

safe_loop_prefix :
    (left s t i : ℕ) (mem : Mem)
    → (s + left < t) ⊎ (t + left < s)
    → i < left
    → ended mem t i ≡ false
    → safe_loop left s t mem (s + i) ≡ mem (t + i)
unfolding safe_loop ended
safe_loop_prefix zero s t i mem apart lt more = absurd (omega arith)
safe_loop_prefix (suc left) s t zero mem apart lt more =
    ground (arith, safe_loop_outside left (suc s) (suc t) (update mem s (mem t)) s (ground arith))
safe_loop_prefix (suc left) s t (suc i) mem apart lt more = elim (Bool-cases (mem t == 0)) [
  | inl nul ↦ absurd (ground arith)
  | inr on ↦ ground (
    arith,
    safe_loop_prefix left (suc s) (suc t) i (update mem s (mem t)) (way apart) (omega arith)
        (ground (arith, ended-update i (suc t) s (mem t) mem (gap apart))),
    apart,
  )
]
  where
    way : (s + suc left < t) ⊎ (t + suc left < s) → (suc s + left < suc t) ⊎ (suc t + left < suc s)
    way (inl h) = inl (omega arith)
    way (inr h) = inr (omega arith)

    gap : (s + suc left < t) ⊎ (t + suc left < s) → (s < suc t) ⊎ (suc t + i ≤ s)
    gap (inl h) = inl (omega arith)
    gap (inr h) = inr (omega arith)

safe_loop_ends : (left s t : ℕ) (mem : Mem) → ended (safe_loop left s t mem) s (suc left) ≡ true
unfolding safe_loop ended
safe_loop_ends zero s t mem = ground arith
safe_loop_ends (suc left) s t mem = elim (Bool-cases (mem t == 0)) [
  | inl nul ↦ ground arith
  | inr on ↦ ground (arith, safe_loop_ends left (suc s) (suc t) (update mem s (mem t)))
]

-- What `safestrcpy` promises of the run of `n` bytes at `s`.
pub record SafeCopy (s t n : ℕ) (mem res : Mem) : Type 0 where
  pub outside : (a : ℕ) → within s n a ≡ false → res a ≡ mem a
  pub prefix : (i : ℕ) → suc i < n → ended mem t i ≡ false → res (s + i) ≡ mem (t + i)
  pub ends : ended res s n ≡ true

-- Into a run of at least one byte, apart from the source, `safestrcpy` writes the string up to its nul
-- as far as it fits; the run then holds a nul, and no byte outside it changes.
safestrcpy-SafeCopy :
    (s t n : ℕ) (mem : Mem)
    → 0 < n
    → n < 2 ^ 31
    → (s + n ≤ t) ⊎ (t + n ≤ s)
    → SafeCopy s t n mem (safestrcpy s t n mem)
unfolding safestrcpy
safestrcpy-SafeCopy s t zero mem pos small apart = absurd (omega arith)
safestrcpy-SafeCopy s t (suc left) mem pos small apart =
    let runs : safestrcpy s t (suc left) mem ≡ safe_loop left s t mem = ground arith in
    rw runs (record {
      outside = λ a out. safe_loop_outside left s t mem a out;
      prefix = λ i lt more. safe_loop_prefix left s t i mem (way apart) (omega arith) more;
      ends = safe_loop_ends left s t mem;
    })
  where
    way : (s + suc left ≤ t) ⊎ (t + suc left ≤ s) → (s + left < t) ⊎ (t + left < s)
    way (inl h) = inl (omega arith)
    way (inr h) = inr (omega arith)

-- `strlen` ends at the first nul: with fuel for the bytes before it, the length is the number of them.
strlen_lem :
    (fuel s n : ℕ) (mem : Mem)
    → ended mem s n ≡ false
    → mem (s + n) ≡ 0
    → n < fuel
    → strlen fuel s mem ≡ some n
unfolding strlen ended
strlen_lem zero s n mem more nul lt = absurd (omega arith)
strlen_lem (suc fuel) s zero mem more nul lt = ground arith
strlen_lem (suc fuel) s (suc n) mem more nul lt =
    ground (arith, strlen_lem fuel (suc s) n mem (ground arith) (ground arith) (omega arith))

-- `strncmp` gives 0 just if the two strings agree in each of the first `n` bytes up to the nul.
strncmp-eq-zero :
    (p q n : ℕ) (mem : Mem)
    → ((a : ℕ) → mem a < 256)
    → (strncmp p q n mem ≡ 0)
      ↔ ((i : ℕ) → i < n → ended mem p i ≡ false → mem (p + i) ≡ mem (q + i))
unfolding strncmp ended
strncmp-eq-zero p q zero mem bytes = (λ h i lt more. absurd (omega arith), λ h. refl)
strncmp-eq-zero p q (suc n) mem bytes =
    let (there, back) = strncmp-eq-zero (suc p) (suc q) n mem bytes in
    (
      λ h.
          extend (ground (arith, bytes p, bytes q))
            (λ on. there (ground (arith, bytes p, bytes q))),
      λ h. elim (Bool-cases (mem p == 0)) [
        | inl nul ↦ ground (arith, h 0 (omega arith) refl)
        | inr on ↦ ground (
          arith,
          h 0 (omega arith) refl,
          back (λ i lt more. ground (arith, h (suc i) (omega arith) (ground arith))),
        )
      ],
    )
  where
    extend :
        mem p ≡ mem q
        → ((mem p == 0) ≡ false
            → (i : ℕ) → i < n
            → ended mem (suc p) i ≡ false
            → mem (suc p + i) ≡ mem (suc q + i))
        → (i : ℕ) → i < suc n
        → ended mem p i ≡ false
        → mem (p + i) ≡ mem (q + i)
    extend same rest zero lt more = ground arith
    extend same rest (suc i) lt more =
        ground (arith, rest (ground arith) i (omega arith) (ground arith))
