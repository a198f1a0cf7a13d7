-- ===== src/Grep.antt =====
-- grep.c: the matcher of regular expressions, and the loop over the lines of a file. A string is the
-- list of its bytes up to the nul.
pub mod Match
pub mod Words
pub mod Lines
mod Tests
use os163_assi.Prelude.{
  ℕ, zero, suc, Bool, true, false, ◌&&◌, ◌||◌, List, [], ◌∷◌, ◌++◌, if◌then◌else◌, ◌==◌,
}

-- `*text == '\0'`
at_nul : List ℕ → Bool
at_nul [] = true
at_nul (_ ∷ _) = false

-- `*text!='\0' && (re[0]=='.' || re[0]==*text)`, and then `here` behind that byte
one_byte : ℕ → (List ℕ → Bool) → List ℕ → Bool
one_byte c here [] = false
one_byte c here (t ∷ text) = if c == 46 || c == t then here text else false

-- The loop of `matchstar`, with `matchhere` of the rest of the pattern
pub star : (List ℕ → Bool) → ℕ → List ℕ → Bool
star here c [] = here []
star here c (t ∷ text) =
    let further = star here c text in
    if here (t ∷ text) then true else if t == c || c == 46 then further else false

-- `matchhere`; its call of `matchstar` has the rest of the pattern.
pub matchhere : List ℕ → List ℕ → Bool
unfolding at_nul one_byte star
matchhere [] text = true
matchhere (c ∷ []) text = if c == 36 then at_nul text else one_byte c (λ t. matchhere [] t) text
matchhere (c ∷ d ∷ re) text =
    if d == 42
    then star (λ t. matchhere re t) c text
    else one_byte c (λ t. matchhere (d ∷ re) t) text

-- `do … while(*text++ != '\0');` of `match`
pub search : (List ℕ → Bool) → List ℕ → Bool
search here [] = here []
search here (t ∷ text) = let further = search here text in if here (t ∷ text) then true else further

pub matches : List ℕ → List ℕ → Bool
unfolding search matchhere
matches [] text = search (matchhere []) text
matches (c ∷ re) text = if c == 94 then matchhere re text else search (matchhere (c ∷ re)) text

-- What the inner loop of `grep` writes, the bytes from `p` on that it leaves, and whether `p` has
-- moved from `buf`.
pub record Scan : Type 0 where
  pub shown : List ℕ
  pub rest : List ℕ
  pub moved : Bool

-- The inner loop: `seen` are the bytes from `p` up to where `strchr` looks for the next newline.
pub scan_lines : List ℕ → List ℕ → List ℕ → Scan
unfolding matches
scan_lines re seen [] = record { shown = []; rest = seen; moved = false }
scan_lines re seen (c ∷ s) =
    let line = seen ++ (c ∷ []) in
    let next_line = scan_lines re [] s in
    let further = scan_lines re line s in
    if c == 0
    then record { shown = []; rest = seen ++ (c ∷ s); moved = false }
    else if c == 10
    then record {
      shown = (if matches re seen then line else []) ++ next_line.shown;
      rest = next_line.rest;
      moved = true;
    }
    else further

-- The loop of `grep` over what each `read` returns, at most as many bytes as `buf` has room for.
pub grep : List ℕ → List ℕ → List (List ℕ) → List ℕ
unfolding scan_lines
grep re held [] = []
grep re held (chunk ∷ chunks) =
    let s = scan_lines re [] (held ++ chunk) in
    s.shown ++ grep re (if s.moved then s.rest else []) chunks
