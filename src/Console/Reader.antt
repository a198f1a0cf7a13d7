-- ===== src/Console/Reader.antt =====
-- console.c: `consoleread` takes the bytes of complete lines, oldest first.
use os163_assi.Prelude.{
  window, ℕ, zero, suc, ◌+◌, ◌%◌, ◌≡◌, ◌∙◌, ap, sym, refl, inl, inr, Bool, true, false, List, [],
  ◌∷◌, if◌then◌else◌, ◌==◌, ltb, get_or, add32, sub32, arith, Bool-cases,
}
use os163_assi.Console.{
  Input, input_buf, Ended, finished, interrupted, asleep, Pass, next_byte, pass_byte, consoleread,
}
use os163_assi.Console.Ring.{view, window_shift}
use os163_assi.Console.Keys.{Good}

-- The bytes that are read, how the pass ends, and the bytes that stay ready.
pub record Read : Type 0 where
  pub bytes : List ℕ
  pub ended : Ended
  pub rest : List ℕ

-- A pass on a list of bytes: it stops behind a newline, in front of a `C('D')` that comes after other
-- bytes, behind one that comes first, and where the bytes are used up.
unfoldable pub reads : Bool → ℕ → ℕ → List ℕ → Read
reads killed target zero ready = record { bytes = []; ended = finished; rest = ready }
reads killed target (suc n) [] = record {
  bytes = [];
  ended = if killed then interrupted else asleep (suc n);
  rest = [];
}
reads killed target (suc n) (c ∷ ready) =
    let further = reads killed target n ready in
    if c == 4
    then record {
      bytes = [];
      ended = finished;
      rest = if ltb (suc n) target then c ∷ ready else ready;
    }
    else if c == 10
    then record { bytes = c ∷ []; ended = finished; rest = ready }
    else record further { bytes = c ∷ further.bytes }

pass_byte-tail :
    (i : Input)
    → Good i
    → (i.r == i.w) ≡ false
    → Good (pass_byte i)
      × ((view i).ready ≡ next_byte i ∷ (view (pass_byte i)).ready)
      × ((view (pass_byte i)).line ≡ (view i).line)
unfolding pass_byte next_byte view window
pass_byte-tail i g more =
    let v = g.valid in
    let counted : sub32 i.w i.r ≡ suc (sub32 i.w (add32 i.r 1)) =
      ground (arith, v.read_word, v.write_word) in
    let all : sub32 i.e i.r ≡ suc (sub32 i.e (add32 i.r 1)) =
      omega (arith, counted, v.ordered, v.bounded, v.read_word, v.write_word, v.edit_word) in
    (
      record {
        valid = record {
          room = v.room;
          read_word = omega arith;
          write_word = v.write_word;
          edit_word = v.edit_word;
          ordered = omega (arith, counted, all, v.ordered);
          bounded = omega (arith, all, v.bounded);
        };
        one_line = g.one_line;
      },
      rw counted (
          ap (λ l. get_or i.buf (i.r % input_buf) 0 ∷ l)
            (window_shift i.buf (i.r + 1) (add32 i.r 1) (sub32 i.w (add32 i.r 1)) (omega arith))),
      refl,
    )

ready_empty : (i : Input) → Good i → (i.r == i.w) ≡ true → (view i).ready ≡ []
unfolding view window
ready_empty i g same =
    let counted : sub32 i.w i.r ≡ 0 = ground (arith, g.valid.read_word, g.valid.write_word) in
    rw counted refl

-- `input.r--` behind `input.r++`
back_again : (i : Input) → Good i → record (pass_byte i) { r = sub32 (pass_byte i).r 1 } ≡ i
unfolding pass_byte
back_again i g =
    let same : sub32 (add32 i.r 1) 1 ≡ i.r = omega (arith, g.valid.read_word) in
    ap (λ k. record i { r = k }) same

-- A pass does what it is to do on the list of ready bytes.
abbrev pub Gives : Read → List ℕ → Pass → Type 0
Gives want line p =
    Good p.input
    × (p.bytes ≡ want.bytes)
    × (p.ended ≡ want.ended)
    × ((view p.input).ready ≡ want.rest)
    × ((view p.input).line ≡ line)

stop_at_end :
    (i : Input) (late : Bool) (ready : List ℕ)
    → Good i
    → (i.r == i.w) ≡ false
    → next_byte i ∷ ready ≡ (view i).ready
    → ready ≡ (view (pass_byte i)).ready
    → Good (if late then record (pass_byte i) { r = sub32 (pass_byte i).r 1 } else pass_byte i)
      × ((view (
            if late
            then record (pass_byte i) { r = sub32 (pass_byte i).r 1 }
            else pass_byte i)).ready
          ≡ (if late then next_byte i ∷ ready else ready))
      × ((view (
            if late
            then record (pass_byte i) { r = sub32 (pass_byte i).r 1 }
            else pass_byte i)).line
          ≡ (view i).line)
stop_at_end i true ready g more here after = rw (back_again i g) (g, sym here, refl)
stop_at_end i false ready g more here after =
    let (g', front, line) = pass_byte-tail i g more in (g', sym after, line)

pub consoleread-reads :
    (killed : Bool) (target n : ℕ) (i : Input)
    → Good i
    → Gives (reads killed target n (view i).ready) (view i).line (consoleread killed target n i)
unfolding consoleread reads
consoleread-reads killed target zero i g = (g, refl, refl, refl, refl)
consoleread-reads killed target (suc n) i g = elim (Bool-cases (i.r == i.w)) [
  | inl empty ↦ rw (empty, ready_empty i g empty) (g, refl, refl, refl, refl)
  | inr more ↦
      let (g', front, line) = pass_byte-tail i g more in
      elim (Bool-cases (next_byte i == 4)) [
        | inl end ↦
            let (g2, r2, l2) =
              stop_at_end i (ltb (suc n) target) (view (pass_byte i)).ready g more (sym front)
                refl in
            rw (more, front, end) (g2, refl, refl, r2, l2)
        | inr other ↦ elim (Bool-cases (next_byte i == 10)) [
          | inl newline ↦ rw (more, front, other, newline) (g', refl, refl, refl, line)
          | inr byte ↦
              let (g2, b2, e2, r2, l2) = consoleread-reads killed target n (pass_byte i) g' in
              rw (more, front, other, byte) (g2, ap (λ l. next_byte i ∷ l) b2, e2, r2, l2 ∙ line)
        ]
      ]
]
