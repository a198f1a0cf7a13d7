-- ===== src/Console/Line.antt =====
-- console.c: `consoleintr` against the discipline on lists.
use os163_assi.Prelude.{
  ℕ, zero, suc, ◌+◌, ◌≡◌, ◌≢◌, ◌<◌, ◌∙◌, ap, refl, inl, inr, true, false, not, ◌&&◌, ◌||◌, some,
  List, [], ◌∷◌, if◌then◌else◌, ◌==◌, ltb, leb, sub32, length, arith, Bool-cases,
}
use mathlib.Core.Path.{ap₂}
use os163_assi.Console.{
  Input, input_buf, Typing, rub, kill_line, erase, newline, enter, press, presses, consoleintr,
}
use os163_assi.Console.Ring.{View, view, length-ready, length-line}
use os163_assi.Console.Keys.{Good, butlast, typed, key, shorter, shorter-Good, line_empty}
use os163_assi.Console.Store.{keep_byte-typed}

abbrev Becomes : View → Typing → Type 0
Becomes v t = Good t.input × (view t.input ≡ v)

same_view :
    (v : View) (i : Input) (line : List ℕ)
    → (view i).ready ≡ v.ready
    → (view i).line ≡ line
    → view i ≡ record v { line = line }
same_view v i line r l = ap₂ (λ ready line. record { ready = ready; line = line }) r l

nothing_typed : (i : Input) → Good i → (i.e == i.w) ≡ true → (view i).line ≡ []
nothing_typed i g same = line_empty i g.valid same

rub-butlast :
    (t : Typing)
    → Good t.input
    → (t.input.e == t.input.w) ≡ false
    → Becomes (record (view t.input) { line = butlast (view t.input).line }) (rub t)
unfolding rub shorter
rub-butlast t g more =
    let (g', other, line, ready) = shorter-Good t.input g more in
    (g', same_view (view t.input) (shorter t.input) _ ready line)

erase-butlast :
    (t : Typing)
    → Good t.input
    → Becomes (record (view t.input) { line = butlast (view t.input).line }) (erase t)
unfolding erase butlast
erase-butlast t g = elim (Bool-cases (t.input.e == t.input.w)) [
  | inr more ↦ rw more (rub-butlast t g more)
  | inl same ↦
      let none = nothing_typed t.input g same in
      rw same (g, same_view (view t.input) t.input _ refl (none ∙ rw none refl))
]

length-butlast : (c : ℕ) (line : List ℕ) → suc (length (butlast (c ∷ line))) ≡ length (c ∷ line)
unfolding butlast
length-butlast c [] = refl
length-butlast c (d ∷ line) = ap suc (length-butlast d line)

butlast_shorter : (line : List ℕ) → length line ≢ 0 → suc (length (butlast line)) ≡ length line
butlast_shorter [] h = absurd (h refl)
butlast_shorter (c ∷ line) h = length-butlast c line

-- `C('U')` comes to the start of the line.
kill_line-empty :
    (fuel : ℕ) (t : Typing)
    → Good t.input
    → length (view t.input).line < fuel
    → (t' : Typing) × (kill_line fuel t ≡ some t')
      × Becomes (record (view t.input) { line = [] }) t'
unfolding kill_line rub shorter
kill_line-empty zero t g lt = absurd (omega arith)
kill_line-empty (suc fuel) t g lt = elim (Bool-cases (t.input.e == t.input.w)) [
  | inl same ↦ (
    t,
    rw (same, kill_line) refl,
    (g, same_view (view t.input) t.input [] refl (nothing_typed t.input g same)),
  )
  | inr more ↦
      let (g', other, line, ready) = shorter-Good t.input g more in
      let there : length (view t.input).line ≢ 0 =
        ground (arith, length-line t.input, g.valid.write_word, g.valid.edit_word) in
      let fewer : length (view (shorter t.input)).line < fuel =
        omega (arith, butlast_shorter (view t.input).line there, ap length line) in
      let (t', e, (g2, v2)) = kill_line-empty fuel (rub t) g' fewer in
      (
        t',
        rw (more, other, kill_line) e,
        (g2, v2 ∙ ap (λ r. record { ready = r; line = [] }) ready),
      )
]

enter-typed :
    (c : ℕ) (t : Typing)
    → Good t.input
    → c < 256
    → Becomes
        (if c == 0 || leb 128 (length (view t.input).ready + length (view t.input).line)
          then view t.input
          else if c == 13
          then typed 10 (view t.input)
          else typed c (view t.input))
        (enter c t)
unfolding enter newline
enter-typed c t g byte =
    let i = t.input in
    let v = g.valid in
    let held : length (view i).ready + length (view i).line ≡ sub32 i.e i.r = omega (
      arith,
      length-ready i,
      length-line i,
      v.ordered,
      v.bounded,
      v.read_word,
      v.write_word,
      v.edit_word,
    ) in
    elim (Bool-cases (c == 0 || leb 128 (length (view i).ready + length (view i).line))) [
      | inl refused ↦
          let refused' : (not (c == 0) && ltb (sub32 i.e i.r) input_buf) ≡ false =
            ground (arith, held) in
          rw (refused, refused') (g, refl)
      | inr taken ↦
          let taken' : (not (c == 0) && ltb (sub32 i.e i.r) input_buf) ≡ true =
            ground (arith, held) in
          let room : sub32 i.e i.r < input_buf = ground (arith, held) in
          rw (taken, taken')
            (elim (Bool-cases (c == 13)) [
              | inl return ↦ rw return (keep_byte-typed 10 t g room (omega arith))
              | inr other ↦ rw other (keep_byte-typed c t g room byte)
            ])
    ]

press-key :
    (c : ℕ) (t : Typing)
    → Good t.input
    → c < 256
    → (t' : Typing) × (press c t ≡ some t') × Becomes (key c (view t.input)) t'
unfolding press key
press-key c t g byte = elim (Bool-cases (c == 16)) [
  | inl dump ↦ rw dump (record t { dumps = true }, refl, (g, refl))
  | inr other ↦ elim (Bool-cases (c == 21)) [
    | inl kill ↦
        let short : length (view t.input).line < suc input_buf = omega (
          arith,
          length-line t.input,
          g.valid.ordered,
          g.valid.bounded,
          g.valid.read_word,
          g.valid.write_word,
          g.valid.edit_word,
        ) in
        rw (other, kill) (kill_line-empty (suc input_buf) t g short)
    | inr other' ↦ elim (Bool-cases (c == 8 || c == 127)) [
      | inl back ↦ rw (other, other', back) (erase t, refl, erase-butlast t g)
      | inr plain ↦ rw (other, other', plain) (enter c t, refl, enter-typed c t g byte)
    ]
  ]
]

-- What `getc` returns is a byte.
unfoldable pub AreBytes : List ℕ → Type 0
AreBytes [] = Unit
AreBytes (c ∷ cs) = (c < 256) × AreBytes cs

unfoldable pub keys : List ℕ → View → View
unfolding key
keys [] v = v
keys (c ∷ cs) v = keys cs (key c v)

presses-keys :
    (cs : List ℕ) (t : Typing)
    → Good t.input
    → AreBytes cs
    → (t' : Typing) × (presses cs t ≡ some t') × Becomes (keys cs (view t.input)) t'
unfolding presses AreBytes keys
presses-keys [] t g bytes = (t, refl, (g, refl))
presses-keys (c ∷ cs) t g (byte, bytes) =
    let (t1, e1, (g1, v1)) = press-key c t g byte in
    let (t2, e2, (g2, v2)) = presses-keys cs t1 g1 bytes in
    (t2, rw (e1, presses) e2, (g2, v2 ∙ ap (keys cs) v1))

-- `consoleintr` returns, whatever bytes are typed, and does to the lines what the keys are to do: a
-- byte is appended, a backspace takes the last byte of the unfinished line, `C('U')` all of it.
pub consoleintr-keys :
    (cs : List ℕ) (i : Input)
    → Good i
    → AreBytes cs
    → (t : Typing) × (consoleintr cs i ≡ some t) × Becomes (keys cs (view i)) t
unfolding consoleintr
consoleintr-keys cs i g bytes =
    presses-keys cs (record { input = i; shown = []; wakes = false; dumps = false }) g bytes
