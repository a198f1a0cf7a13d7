-- ===== src/Grep/Lines.antt =====
-- grep.c: the lines that `grep` writes, when its input comes in pieces.
use os163_assi.Prelude.{
  ℕ, ◌≡◌, ◌∙◌, ap, sym, refl, inl, inr, true, false, List, [], ◌∷◌, ◌++◌, if◌then◌else◌, ◌==◌,
  Bool-cases,
}
use mathlib.Core.List.{append_assoc, append-nil}
use os163_assi.Grep.{matches, scan_lines, grep}

-- Neither newline nor nul
unfoldable pub AllInside : List ℕ → Type 0
AllInside [] = Unit
AllInside (c ∷ s) = ((c == 10) ≡ false) × ((c == 0) ≡ false) × AllInside s

unfoldable pub NoNul : List ℕ → Type 0
NoNul [] = Unit
NoNul (c ∷ s) = ((c == 0) ≡ false) × NoNul s

abbrev pub HasNewline : List ℕ → Type 0
HasNewline s = (u : List ℕ) × (v : List ℕ) × (s ≡ u ++ (10 ∷ v))

unfoldable pub AreChunks : List (List ℕ) → Type 0
AreChunks [] = Unit
AreChunks (chunk ∷ chunks) = NoNul chunk × HasNewline chunk × AreChunks chunks

unfoldable pub AreLines : List (List ℕ) → Type 0
AreLines [] = Unit
AreLines (l ∷ ls) = AllInside l × AreLines ls

unfoldable pub concat : List (List ℕ) → List ℕ
concat [] = []
concat (s ∷ ss) = s ++ concat ss

unfoldable pub unlines : List (List ℕ) → List ℕ
unlines [] = []
unlines (l ∷ ls) = l ++ (10 ∷ unlines ls)

-- The lines that match
unfoldable pub selected : List ℕ → List (List ℕ) → List ℕ
selected re [] = []
selected re (l ∷ ls) = (if matches re l then l ++ (10 ∷ []) else []) ++ selected re ls

-- Bytes of one line are passed over.
scan_inside :
    (re seen a b : List ℕ) → AllInside a → scan_lines re seen (a ++ b) ≡ scan_lines re (seen ++ a) b
unfolding scan_lines AllInside
scan_inside re seen [] b inside = rw (append-nil seen) refl
scan_inside re seen (c ∷ a) b (line, nul, inside) =
    rw (line, nul)
      (scan_inside re (seen ++ (c ∷ [])) a b inside ∙ rw (append_assoc seen (c ∷ []) a) refl)

-- The loop may stop behind any byte and go on with what it has left.
scan_lines-append :
    (re seen a b : List ℕ)
    → NoNul a
    → (scan_lines re seen (a ++ b)).shown
      ≡ (scan_lines re seen a).shown ++ (scan_lines re (scan_lines re seen a).rest b).shown
unfolding scan_lines NoNul
scan_lines-append re seen [] b nul = refl
scan_lines-append re seen (c ∷ a) b (nul, nuls) = elim (Bool-cases (c == 10)) [
  | inl newline ↦
      let shown = if matches re seen then seen ++ (c ∷ []) else [] in
      rw (nul, newline)
        (ap (λ l. shown ++ l) (scan_lines-append re [] a b nuls)
          ∙ sym (
              append_assoc shown (scan_lines re [] a).shown
                (scan_lines re (scan_lines re [] a).rest b).shown))
  | inr inside ↦ rw (nul, inside) (scan_lines-append re (seen ++ (c ∷ [])) a b nuls)
]

AllInside-append :
    (s : List ℕ) (c : ℕ)
    → AllInside s
    → (c == 10) ≡ false
    → (c == 0) ≡ false
    → AllInside (s ++ (c ∷ []))
unfolding AllInside
AllInside-append [] c inside line nul = (line, nul, tt)
AllInside-append (d ∷ s) c (line', nul', inside) line nul =
    (line', nul', AllInside-append s c inside line nul)

scan_rest : (re seen a : List ℕ) → AllInside seen → NoNul a → AllInside (scan_lines re seen a).rest
unfolding scan_lines NoNul AllInside
scan_rest re seen [] inside nul = inside
scan_rest re seen (c ∷ a) inside (nul, nuls) = elim (Bool-cases (c == 10)) [
  | inl newline ↦ rw (nul, newline) (scan_rest re [] a tt nuls)
  | inr other ↦
      rw (nul, other)
        (scan_rest re (seen ++ (c ∷ [])) a (AllInside-append seen c inside other nul) nuls)
]

scan_moved :
    (re seen u v : List ℕ)
    → NoNul (u ++ (10 ∷ v))
    → (scan_lines re seen (u ++ (10 ∷ v))).moved ≡ true
unfolding scan_lines NoNul
scan_moved re seen [] v nul = refl
scan_moved re seen (c ∷ u) v (nul, nuls) = elim (Bool-cases (c == 10)) [
  | inl newline ↦ rw (nul, newline) refl
  | inr other ↦ rw (nul, other) (scan_moved re (seen ++ (c ∷ [])) u v nuls)
]

NoNul-append : (a b : List ℕ) → AllInside a → NoNul b → NoNul (a ++ b)
unfolding NoNul AllInside
NoNul-append [] b inside nul = nul
NoNul-append (c ∷ a) b (line, nul', inside) nul = (nul', NoNul-append a b inside nul)

moved_at :
    (re held chunk : List ℕ)
    → NoNul (held ++ chunk)
    → HasNewline chunk
    → (scan_lines re [] (held ++ chunk)).moved ≡ true
moved_at re held chunk nul (u, v, split) =
    let whole : held ++ chunk ≡ (held ++ u) ++ (10 ∷ v) =
      ap (λ l. held ++ l) split ∙ sym (append_assoc held u (10 ∷ v)) in
    rw whole (scan_moved re [] (held ++ u) v (rw whole at nul))

grep_whole :
    (re held : List ℕ) (chunks : List (List ℕ))
    → AllInside held
    → AreChunks chunks
    → grep re held chunks ≡ (scan_lines re [] (held ++ concat chunks)).shown
unfolding grep concat AreChunks scan_lines AllInside
grep_whole re held [] inside good = sym (ap (λ s. s.shown) (scan_inside re [] held [] inside))
grep_whole re held (chunk ∷ chunks) inside (nul, newline, good) =
    let nul' = NoNul-append held chunk inside nul in
    let s = scan_lines re [] (held ++ chunk) in
    let inside' = scan_rest re [] (held ++ chunk) tt nul' in
    rw (moved_at re held chunk nul' newline) (
      ap (λ l. s.shown ++ l)
        (grep_whole re s.rest chunks inside' good
          ∙ ap (λ t. t.shown) (scan_inside re [] s.rest (concat chunks) inside'))
      ∙ sym (scan_lines-append re [] (held ++ chunk) (concat chunks) nul')
      ∙ ap (λ l. (scan_lines re [] l).shown) (append_assoc held chunk (concat chunks)))

scan_lines-unlines :
    (re : List ℕ) (ls : List (List ℕ)) (tail : List ℕ)
    → AreLines ls
    → AllInside tail
    → (scan_lines re [] (unlines ls ++ tail)).shown ≡ selected re ls
unfolding unlines selected scan_lines AreLines
scan_lines-unlines re [] tail good inside =
    ap (λ l. (scan_lines re [] l).shown) (sym (append-nil tail))
    ∙ ap (λ s. s.shown) (scan_inside re [] tail [] inside)
scan_lines-unlines re (l ∷ ls) tail (line, good) inside =
    ap (λ s. (scan_lines re [] s).shown) (append_assoc l (10 ∷ unlines ls) tail)
    ∙ ap (λ s. s.shown) (scan_inside re [] l (10 ∷ (unlines ls ++ tail)) line)
    ∙ ap (λ s. (if matches re l then l ++ (10 ∷ []) else []) ++ s)
        (scan_lines-unlines re ls tail good inside)

-- `grep` writes the lines that match, in order, and each whole, however its input is cut into what
-- the calls of `read` return, as long as each piece has a newline in it; what comes behind the last
-- newline is not written.
pub grep-unlines :
    (re : List ℕ) (chunks ls : List (List ℕ)) (tail : List ℕ)
    → concat chunks ≡ unlines ls ++ tail
    → AreChunks chunks
    → AreLines ls
    → AllInside tail
    → grep re [] chunks ≡ selected re ls
unfolding AllInside
grep-unlines re chunks ls tail whole good lines inside =
    grep_whole re [] chunks tt good
    ∙ ap (λ s. (scan_lines re [] s).shown) whole
    ∙ scan_lines-unlines re ls tail lines inside

-- A piece without a newline is thrown away, with the part of the line that came before it.
pub grep_lost :
    (re held chunk : List ℕ) (chunks : List (List ℕ))
    → AllInside (held ++ chunk)
    → grep re held (chunk ∷ chunks) ≡ grep re [] chunks
unfolding grep scan_lines
grep_lost re held chunk chunks inside =
    let none : scan_lines re [] (held ++ chunk)
        ≡ record { shown = []; rest = held ++ chunk; moved = false } =
      ap (scan_lines re []) (sym (append-nil (held ++ chunk)))
      ∙ scan_inside re [] (held ++ chunk) [] inside in
    rw none refl
