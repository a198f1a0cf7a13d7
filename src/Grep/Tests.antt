-- ===== src/Grep/Tests.antt =====
-- `grep ^a*b` of two lines, in two pieces.
use os163_assi.Prelude.{ℕ, ◌≡◌, ◌↔◌, refl, true, List, [], ◌∷◌, ◌++◌}
use os163_assi.Grep.{matches, grep}
use os163_assi.Grep.Words.{Found, matches-Found}
use os163_assi.Grep.Lines.{
  AllInside, NoNul, AreChunks, AreLines, concat, unlines, selected, grep-unlines,
}

abbrev pattern_ab : List ℕ
pattern_ab = 94 ∷ 97 ∷ 42 ∷ 98 ∷ []

abbrev chunks : List (List ℕ)
chunks = (97 ∷ 10 ∷ 97 ∷ []) ∷ (98 ∷ 10 ∷ 99 ∷ []) ∷ []

abbrev two_lines : List (List ℕ)
two_lines = (97 ∷ []) ∷ (97 ∷ 98 ∷ []) ∷ []

matches-Found_example :
    (matches pattern_ab (97 ∷ 97 ∷ 98 ∷ 99 ∷ []) ≡ true) ↔ Found pattern_ab (97 ∷ 97 ∷ 98 ∷ 99 ∷ [])
matches-Found_example = matches-Found pattern_ab (97 ∷ 97 ∷ 98 ∷ 99 ∷ [])

chunks-AreChunks : AreChunks chunks
unfolding AreChunks NoNul
chunks-AreChunks = (
  (refl, (refl, (refl, tt))),
  (97 ∷ [], 97 ∷ [], refl),
  ((refl, (refl, (refl, tt))), (98 ∷ [], 99 ∷ [], refl), tt),
)

two_lines-AreLines : AreLines two_lines
unfolding AreLines AllInside
two_lines-AreLines = ((refl, refl, tt), ((refl, refl, (refl, refl, tt)), tt))

one_byte_inside : AllInside (99 ∷ [])
unfolding AllInside
one_byte_inside = (refl, refl, tt)

chunks_whole : concat chunks ≡ unlines two_lines ++ (99 ∷ [])
unfolding concat unlines
chunks_whole = refl

grep-unlines_example : grep pattern_ab [] chunks ≡ selected pattern_ab two_lines
grep-unlines_example =
    grep-unlines pattern_ab chunks two_lines (99 ∷ []) chunks_whole chunks-AreChunks
      two_lines-AreLines one_byte_inside

-- Only the second line matches.
second_line : grep pattern_ab [] chunks ≡ 97 ∷ 98 ∷ 10 ∷ []
unfolding grep
second_line = refl
