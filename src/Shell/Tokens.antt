-- ===== src/Shell/Tokens.antt =====
-- sh.c: what `gettoken` and `peek` leave of a line.
use os163_assi.Prelude.{
  ℕ, suc, ◌≡◌, ◌≢◌, ◌≤◌, ◌<◌, true, false, ◌||◌, List, [], ◌∷◌, ◌==◌, length, arith, refl, ap,
  Bool-cases, inl, inr,
}
use os163_assi.Shell.{
  strchr, whitespace, symbols, skip_white, span_word, greater, token_at, gettoken, starts, peek,
}

pub length-skip_white : (s : List ℕ) → length (skip_white s) ≤ length s
unfolding skip_white
length-skip_white [] = omega arith
length-skip_white (c ∷ s) = elim (Bool-cases (strchr whitespace c)) [
  | inl white ↦ rw white (omega (arith, length-skip_white s))
  | inr black ↦ rw black (omega arith)
]

pub skip_white-skip_white : (s : List ℕ) → skip_white (skip_white s) ≡ skip_white s
unfolding skip_white
skip_white-skip_white [] = refl
skip_white-skip_white (c ∷ s) = elim (Bool-cases (strchr whitespace c)) [
  | inl white ↦ rw white (skip_white-skip_white s)
  | inr black ↦ rw black (rw black refl)
]

length-span_word : (s : List ℕ) → length (span_word s).1 ≤ length s
unfolding span_word
length-span_word [] = omega arith
length-span_word (c ∷ s) = elim (Bool-cases (strchr whitespace c || strchr symbols c)) [
  | inl stop ↦ rw stop (omega arith)
  | inr on ↦ rw on (omega (arith, length-span_word s))
]

length-greater : (s : List ℕ) → length (greater s).rest ≤ length s
unfolding greater
length-greater [] = omega arith
length-greater (c ∷ s) = elim (Bool-cases (c == 62)) [
  | inl two ↦ rw two (omega (arith, length-skip_white s))
  | inr one ↦ rw one (length-skip_white (c ∷ s))
]

plain_byte :
    (c : ℕ)
    → strchr (124 ∷ 40 ∷ 41 ∷ 59 ∷ 38 ∷ 60 ∷ []) c ≡ false
    → (c == 62) ≡ false
    → strchr symbols c ≡ false
unfolding strchr
plain_byte c other word = ground arith

-- A token takes a byte at least.
token_takes :
    (c : ℕ) (s : List ℕ) → strchr whitespace c ≡ false → length (token_at (c ∷ s)).rest ≤ length s
unfolding token_at span_word
token_takes c s black = elim (Bool-cases (strchr (124 ∷ 40 ∷ 41 ∷ 59 ∷ 38 ∷ 60 ∷ []) c)) [
  | inl symbol ↦ rw symbol (length-skip_white s)
  | inr other ↦ elim (Bool-cases (c == 62)) [
    | inl arrow ↦ rw (other, arrow) (length-greater s)
    | inr word ↦
        let plain : strchr symbols c ≡ false = plain_byte c other word in
        rw (other, word, black, plain)
          (omega (arith, length-skip_white (span_word s).1, length-span_word s))
  ]
]

-- `gettoken` behind a `peek` that has passed over white space.
pub gettoken-skip_white : (s : List ℕ) → gettoken (skip_white s) ≡ gettoken s
unfolding gettoken
gettoken-skip_white s = rw (skip_white-skip_white s) refl

head_black : (s u : List ℕ) (c : ℕ) → skip_white s ≡ c ∷ u → strchr whitespace c ≡ false
unfolding skip_white
head_black [] u c e = absurd cc
head_black (x ∷ s) u c e = elim (Bool-cases (strchr whitespace x)) [
  | inl white ↦ head_black s u c (rw white at e)
  | inr black ↦ ground arith
]

taken_at : (s u : List ℕ) → skip_white s ≡ u → length (token_at u).rest ≤ length s
unfolding token_at
taken_at s [] e = omega arith
taken_at s (c ∷ u) e =
    let le : suc (length u) ≤ length s = omega (arith, length-skip_white s, ap length e) in
    omega (arith, token_takes c u (head_black s u c e))

pub length-gettoken : (s : List ℕ) → length (gettoken s).rest ≤ length s
unfolding gettoken
length-gettoken s = taken_at s (skip_white s) refl

kind_takes :
    (s u : List ℕ) → skip_white s ≡ u → (token_at u).kind ≢ 0 → length (token_at u).rest < length s
unfolding token_at
kind_takes s [] e kind = absurd (kind refl)
kind_takes s (c ∷ u) e kind =
    let le : suc (length u) ≤ length s = omega (arith, length-skip_white s, ap length e) in
    omega (arith, token_takes c u (head_black s u c e))

-- A token that is not the end of the line takes a byte.
pub gettoken_takes : (s : List ℕ) → (gettoken s).kind ≢ 0 → length (gettoken s).rest < length s
unfolding gettoken
gettoken_takes s kind = kind_takes s (skip_white s) refl kind

peek_at :
    (toks s u : List ℕ)
    → skip_white s ≡ u
    → starts toks u ≡ true
    → length (token_at u).rest < length s
unfolding starts
peek_at toks s [] e h = absurd cc
peek_at toks s (c ∷ u) e h =
    let le : suc (length u) ≤ length s = omega (arith, length-skip_white s, ap length e) in
    omega (arith, token_takes c u (head_black s u c e))

-- So does the token that `peek` has seen.
pub peek_takes :
    (toks s : List ℕ) → peek toks s ≡ true → length (gettoken (skip_white s)).rest < length s
unfolding peek gettoken
peek_takes toks s h = rw (skip_white-skip_white s) (peek_at toks s (skip_white s) refl h)
