-- ===== src/Log/Region.antt =====
-- What the two loops of the log write, and where.
use os163_assi.Prelude.{
  ℕ, suc, ◌+◌, ◌-◌, ◌≡◌, ◌≤◌, ◌∙◌, refl, Bool, true, false, ◌⊎◌, inl, inr, List, [], ◌∷◌,
  if◌then◌else◌, ◌==◌, ltb, length, update, arith, Bool-cases, take-append_length,
}
use os163_assi.Log.{Block, Store, bwrite, encode, decode, write_log_loop, install_loop, has}

-- The header that `write_head` writes is what `read_head` reads.
pub decode-encode : (blocks : List ℕ) (old : Block) → decode (encode blocks old) ≡ blocks
unfolding decode encode
decode-encode blocks old = take-append_length blocks _

-- The `n` blocks from `at` on.
abbrev pub in_region : ℕ → ℕ → ℕ → Bool
in_region at n b = if ltb b at then false else ltb b (at + n)

-- All listed blocks lie outside a region.
abbrev pub all_outside : ℕ → ℕ → List ℕ → Bool
all_outside at n [] = true
all_outside at n (b ∷ blocks) = if in_region at n b then false else all_outside at n blocks

-- The blocks from `at` on hold what `c` holds for the listed blocks, in order.
abbrev pub Logged : List ℕ → ℕ → (ℕ → Block) → (ℕ → Block) → Type 0
Logged [] at c d = Unit {0}
Logged (b ∷ blocks) at c d = (d at ≡ c b) × Logged blocks (suc at) c d

-- `write_log` writes inside its region only.
pub write_log_loop-outside :
    (blocks : List ℕ) (at : ℕ) (st : Store) (x : ℕ)
    → in_region at (length blocks) x ≡ false
    → ((write_log_loop blocks at st).disk x ≡ st.disk x)
      × ((write_log_loop blocks at st).cache x ≡ st.cache x)
unfolding write_log_loop
write_log_loop-outside [] at st x h = (refl, refl)
write_log_loop-outside (b ∷ blocks) at st x h =
    ground
      (arith, write_log_loop-outside blocks (suc at) (bwrite at (st.cache b) st) x (ground arith))

pub write_log_loop-power :
    (blocks : List ℕ) (at : ℕ) (st : Store)
    → (write_log_loop blocks at st).power ≡ st.power - length blocks
unfolding write_log_loop
write_log_loop-power [] at st = omega arith
write_log_loop-power (b ∷ blocks) at st =
    omega (arith, write_log_loop-power blocks (suc at) (bwrite at (st.cache b) st))

-- The copies in the log: in the cache in any case, and on the disk with enough power.
pub write_log_loop-Logged :
    (blocks : List ℕ) (at lo n : ℕ) (c : ℕ → Block) (st : Store)
    → lo ≤ at
    → at + length blocks ≤ lo + n
    → all_outside lo n blocks ≡ true
    → ((x : ℕ) → in_region lo n x ≡ false → st.cache x ≡ c x)
    → Logged blocks at c (write_log_loop blocks at st).cache
      × (length blocks ≤ st.power → Logged blocks at c (write_log_loop blocks at st).disk)
unfolding write_log_loop
write_log_loop-Logged [] at lo n c st le fits out same = (tt, λ p. tt)
write_log_loop-Logged (b ∷ blocks) at lo n c st le fits out same =
    let st1 = bwrite at (st.cache b) st in
    let value : st.cache b ≡ c b = same b (ground arith) in
    let (cached, logged) =
      write_log_loop-Logged blocks (suc at) lo n c st1 (omega arith) (omega arith) (ground arith)
        (λ x h. ground (arith, same x)) in
    let (d, e) = write_log_loop-outside blocks (suc at) st1 at (ground arith) in
    ((e ∙ ground arith, cached), λ p. (d ∙ ground arith, logged (omega arith)))

-- What is logged stays logged where the region is left alone.
pub Logged-ext :
    (blocks : List ℕ) (at : ℕ) (c d d' : ℕ → Block)
    → ((x : ℕ) → in_region at (length blocks) x ≡ true → d' x ≡ d x)
    → Logged blocks at c d
    → Logged blocks at c d'
Logged-ext [] at c d d' same logged = tt
Logged-ext (b ∷ blocks) at c d d' same logged = (
  same at (ground arith) ∙ logged.0,
  Logged-ext blocks (suc at) c d d' (λ x h. same x (ground arith)) logged.1,
)

-- Installing one block leaves the copies of the others in the log.
Logged-bwrite :
    (b at lo n : ℕ) (blocks : List ℕ) (c : ℕ → Block) (v : Block) (st : Store)
    → lo ≤ at
    → at + length blocks ≤ lo + n
    → in_region lo n b ≡ false
    → Logged blocks at c st.cache
    → Logged blocks at c (bwrite b v st).cache
unfolding bwrite
Logged-bwrite b at lo n blocks c v st le fits out logged =
    Logged-ext blocks at c st.cache (update st.cache b v) (λ x h. ground arith) logged

-- `install_trans` writes the listed blocks only, and writes there what the log holds for them.
pub install_loop-mixed :
    (blocks : List ℕ) (at lo n : ℕ) (c : ℕ → Block) (st : Store) (x : ℕ)
    → lo ≤ at
    → at + length blocks ≤ lo + n
    → all_outside lo n blocks ≡ true
    → Logged blocks at c st.cache
    → ((install_loop blocks at st).disk x ≡ st.disk x)
      ⊎ ((has x blocks ≡ true) × ((install_loop blocks at st).disk x ≡ c x))
unfolding install_loop
install_loop-mixed [] at lo n c st x le fits out logged = inl refl
install_loop-mixed (b ∷ blocks) at lo n c st x le fits out logged =
    let kept =
      Logged-bwrite b (suc at) lo n blocks c (st.cache at) st (omega arith) (omega arith)
        (ground arith) logged.1 in
    elim (install_loop-mixed blocks (suc at) lo n c (bwrite b (st.cache at) st) x (omega arith)
      (omega arith) (ground arith) kept) [
        | inr (h, e) ↦ inr (ground arith, e)
        | inl e ↦ elim (Bool-cases (b == x)) [
          | inr other ↦ inl (e ∙ ground arith)
          | inl hit ↦ elim (Bool-cases (st.power == 0)) [
            | inl dead ↦ inl (e ∙ ground arith)
            | inr live ↦ inr (ground arith, e ∙ ground (arith, logged.0))
          ]
        ]
      ]

-- With enough power `install_trans` brings every listed block to its place.
pub install_loop-full :
    (blocks : List ℕ) (at lo n : ℕ) (c : ℕ → Block) (st : Store) (x : ℕ)
    → lo ≤ at
    → at + length blocks ≤ lo + n
    → all_outside lo n blocks ≡ true
    → Logged blocks at c st.cache
    → length blocks ≤ st.power
    → (install_loop blocks at st).disk x ≡ (if has x blocks then c x else st.disk x)
unfolding install_loop
install_loop-full [] at lo n c st x le fits out logged p = refl
install_loop-full (b ∷ blocks) at lo n c st x le fits out logged p =
    let kept =
      Logged-bwrite b (suc at) lo n blocks c (st.cache at) st (omega arith) (omega arith)
        (ground arith) logged.1 in
    install_loop-full blocks (suc at) lo n c (bwrite b (st.cache at) st) x (omega arith)
      (omega arith) (ground arith) kept (omega arith)
    ∙ ground (arith, logged.0)

pub install_loop-power :
    (blocks : List ℕ) (at : ℕ) (st : Store)
    → (install_loop blocks at st).power ≡ st.power - length blocks
unfolding install_loop
install_loop-power [] at st = omega arith
install_loop-power (b ∷ blocks) at st =
    omega (arith, install_loop-power blocks (suc at) (bwrite b (st.cache at) st))

-- Without power nothing reaches the disk.
pub install_loop-dead :
    (blocks : List ℕ) (at : ℕ) (st : Store) (x : ℕ)
    → st.power ≡ 0
    → (install_loop blocks at st).disk x ≡ st.disk x
unfolding install_loop
install_loop-dead [] at st x p = refl
install_loop-dead (b ∷ blocks) at st x p =
    install_loop-dead blocks (suc at) (bwrite b (st.cache at) st) x (omega arith) ∙ ground arith
