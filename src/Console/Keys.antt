-- ===== src/Console/Keys.antt =====
-- console.c: what a key does to the line that is being typed.
use os163_assi.Prelude.{
  window, window_last, ℕ, suc, ◌+◌, ◌%◌, ◌≡◌, ◌∙◌, ap, sym, refl, true, false, ◌||◌, List, [], ◌∷◌,
  ◌++◌, if◌then◌else◌, ◌==◌, leb, get_or, sub32, length, arith,
}
use os163_assi.Console.{Input, input_buf, before}
use os163_assi.Console.Ring.{ring, IsValid, View, view}

-- The line that is being typed has no newline.
unfoldable pub OneLine : List ℕ → Type 0
OneLine [] = Unit
OneLine (c ∷ line) = ((c == 10) ≡ false) × OneLine line

pub record Good (i : Input) : Type 0 where
  pub valid : IsValid i
  pub one_line : OneLine (view i).line

-- The discipline, on lists: the last byte can be erased, or all of the line; a byte that fits is
-- appended; and the line is handed over when it is complete or there is no more room.
unfoldable pub butlast : List ℕ → List ℕ
butlast [] = []
butlast (c ∷ []) = []
butlast (c ∷ d ∷ line) = c ∷ butlast (d ∷ line)

unfoldable pub typed : ℕ → View → View
typed c v =
    if c == 10 || c == 4 || suc (length v.ready + length v.line) == 128
    then record { ready = v.ready ++ (v.line ++ (c ∷ [])); line = [] }
    else record v { line = v.line ++ (c ∷ []) }

unfoldable pub key : ℕ → View → View
unfolding butlast typed
key c v =
    if c == 16
    then v
    else if c == 21
    then record v { line = [] }
    else if c == 8 || c == 127
    then record v { line = butlast v.line }
    else if c == 0 || leb 128 (length v.ready + length v.line)
    then v
    else if c == 13
    then typed 10 v
    else typed c v

butlast-append : (line : List ℕ) (c : ℕ) → butlast (line ++ (c ∷ [])) ≡ line
unfolding butlast
butlast-append [] c = refl
butlast-append (d ∷ []) c = refl
butlast-append (d ∷ f ∷ line) c = ap (λ l. d ∷ l) (butlast-append (f ∷ line) c)

pub OneLine-append :
    (line : List ℕ) (c : ℕ) → OneLine line → (c == 10) ≡ false → OneLine (line ++ (c ∷ []))
unfolding OneLine
OneLine-append [] c one other = (other, tt)
OneLine-append (d ∷ line) c (other', one) other = (other', OneLine-append line c one other)

front_and_last :
    (line : List ℕ) (c : ℕ) → OneLine (line ++ (c ∷ [])) → OneLine line × ((c == 10) ≡ false)
unfolding OneLine
front_and_last [] c one = (tt, one.0)
front_and_last (d ∷ line) c (other, one) =
    let (front, last) = front_and_last line c one in ((other, front), last)

-- `input.e--` takes the last byte off the line.
unfoldable pub shorter : Input → Input
shorter i = record i { e = sub32 i.e 1 }

line_front :
    (i : Input)
    → IsValid i
    → (i.e == i.w) ≡ false
    → IsValid (shorter i)
      × ((view i).line ≡ (view (shorter i)).line ++ (before i ∷ []))
      × ((view (shorter i)).ready ≡ (view i).ready)
unfolding view shorter before
line_front i v more =
    let counted : sub32 i.e i.w ≡ suc (sub32 (sub32 i.e 1) i.w) =
      ground (arith, v.write_word, v.edit_word) in
    let place : (i.w + sub32 (sub32 i.e 1) i.w) % input_buf ≡ sub32 i.e 1 % input_buf =
      omega (arith, v.write_word, v.edit_word) in
    (
      record {
        room = v.room;
        read_word = v.read_word;
        write_word = v.write_word;
        edit_word = omega arith;
        ordered =
            omega (arith, counted, v.ordered, v.bounded, v.read_word, v.write_word, v.edit_word);
        bounded =
            omega (arith, counted, v.ordered, v.bounded, v.read_word, v.write_word, v.edit_word);
      },
      rw counted (
          window_last (ring i.buf) i.w (sub32 (sub32 i.e 1) i.w)
          ∙ ap (λ k. window (ring i.buf) i.w (sub32 (sub32 i.e 1) i.w) ++ (get_or i.buf k 0 ∷ []))
              place),
      refl,
    )

pub line_empty : (i : Input) → IsValid i → (i.e == i.w) ≡ true → (view i).line ≡ []
unfolding view window
line_empty i v same =
    let counted : sub32 i.e i.w ≡ 0 = ground (arith, v.write_word, v.edit_word) in rw counted refl

pub shorter-Good :
    (i : Input)
    → Good i
    → (i.e == i.w) ≡ false
    → Good (shorter i)
      × ((before i == 10) ≡ false)
      × ((view (shorter i)).line ≡ butlast (view i).line)
      × ((view (shorter i)).ready ≡ (view i).ready)
shorter-Good i g more =
    let (v, split, ready) = line_front i g.valid more in
    let (front, last) =
      front_and_last (view (shorter i)).line (before i) (rw split at g.one_line) in
    (
      record { valid = v; one_line = front },
      last,
      rw split (sym (butlast-append (view (shorter i)).line (before i))),
      ready,
    )
