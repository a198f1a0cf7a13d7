-- ===== src/Console/Store.antt =====
-- console.c: a byte is stored behind the line, which is handed over when it is complete.
use os163_assi.Prelude.{
  window, window-append, ℕ, suc, ◌+◌, ◌%◌, ◌≡◌, ◌<◌, ◌∙◌, ap, refl, inl, inr, Bool, false, ◌||◌, [],
  ◌∷◌, ◌++◌, ◌==◌, length-set, add32, sub32, length, arith, Bool-cases,
}
use mathlib.Core.Path.{ap₂}
use os163_assi.Console.{Input, input_buf, Typing, push, completes, keep_byte}
use os163_assi.Console.Ring.{
  ring, IsValid, view, window_shift, window-set, window-set_last, length-ready, length-line,
}
use os163_assi.Console.Keys.{OneLine, OneLine-append, Good, typed}

-- The counters of the ring that is one byte longer.
counts :
    (i : Input)
    → IsValid i
    → sub32 i.e i.r < input_buf
    → (sub32 (add32 i.e 1) i.w ≡ suc (sub32 i.e i.w))
      × (sub32 (add32 i.e 1) i.r ≡ sub32 i.w i.r + suc (sub32 i.e i.w))
      × (sub32 i.e i.r ≡ sub32 i.w i.r + sub32 i.e i.w)
counts i v room = (
  omega (arith, v.ordered, v.bounded, v.read_word, v.write_word, v.edit_word),
  omega (arith, v.ordered, v.bounded, v.read_word, v.write_word, v.edit_word),
  omega (arith, v.ordered, v.bounded, v.read_word, v.write_word, v.edit_word),
)

push-line :
    (c : ℕ) (i : Input)
    → IsValid i
    → sub32 i.e i.r < input_buf
    → c < 256
    → IsValid (push c i)
      × ((view (push c i)).line ≡ (view i).line ++ (c ∷ []))
      × ((view (push c i)).ready ≡ (view i).ready)
unfolding push view
push-line c i v room byte =
    let (line, all, parts) = counts i v room in
    let same : c % 256 ≡ c = omega arith in
    (
      record {
        room = length-set i.buf (i.e % input_buf) (c % 256) ∙ v.room;
        read_word = v.read_word;
        write_word = v.write_word;
        edit_word = omega arith;
        ordered = omega (arith, all, v.ordered);
        bounded = omega (arith, all, parts);
      },
      rw line (
            window-set_last i.buf i.w (sub32 i.e i.w) (i.e % input_buf) (c % 256) v.room
              (omega (arith, parts)) (omega (arith, v.write_word, v.edit_word)))
          ∙ ap (λ x. (view i).line ++ (x ∷ [])) same,
      window-set i.buf i.r (sub32 i.w i.r) (sub32 i.e i.r) (i.e % input_buf) (c % 256) v.room
          v.ordered room (omega (arith, v.read_word, v.edit_word)),
    )

-- `input.w = input.e;`
handed : Input → Input
handed i = record i { w = i.e }

handed-view :
    (i : Input)
    → IsValid i
    → IsValid (handed i)
      × (view (handed i) ≡ record { ready = (view i).ready ++ (view i).line; line = [] })
unfolding handed view window
handed-view i v =
    let parts : sub32 i.e i.r ≡ sub32 i.w i.r + sub32 i.e i.w =
      omega (arith, v.ordered, v.bounded, v.read_word, v.write_word, v.edit_word) in
    let nothing : sub32 i.e i.e ≡ 0 = omega (arith, v.edit_word) in
    let here : window (ring i.buf) (i.r + sub32 i.w i.r) (sub32 i.e i.w)
        ≡ window (ring i.buf) i.w (sub32 i.e i.w) =
      window_shift i.buf (i.r + sub32 i.w i.r) i.w (sub32 i.e i.w)
        (omega (arith, v.read_word, v.write_word)) in
    (
      record {
        room = v.room;
        read_word = v.read_word;
        write_word = v.edit_word;
        edit_word = v.edit_word;
        ordered = omega arith;
        bounded = v.bounded;
      },
      rw (parts, nothing)
          (ap (λ l. record { ready = l; line = [] })
            (window-append (ring i.buf) i.r (sub32 i.w i.r) (sub32 i.e i.w)
              ∙ ap (λ l. window (ring i.buf) i.r (sub32 i.w i.r) ++ l) here)),
    )

-- There is no more room exactly when all of the buffer is ready or on the line.
full_word :
    (c : ℕ) (i : Input)
    → IsValid i
    → sub32 i.e i.r < input_buf
    → completes c (push c i)
      ≡ (c == 10 || c == 4 || suc (length (view i).ready + length (view i).line) == 128)
unfolding completes push
full_word c i v room =
    let (line, all, parts) = counts i v room in
    let full : (add32 i.e 1 == add32 i.r input_buf)
        ≡ (suc (length (view i).ready + length (view i).line) == 128) =
      ground (arith, parts, length-ready i, length-line i, v.read_word, v.edit_word) in
    ap (λ b. c == 10 || c == 4 || b) full

not_newline : (c : ℕ) (b : Bool) → (c == 10 || c == 4 || b) ≡ false → (c == 10) ≡ false
not_newline c b h = ground arith

pub keep_byte-typed :
    (c : ℕ) (t : Typing)
    → Good t.input
    → sub32 t.input.e t.input.r < input_buf
    → c < 256
    → Good (keep_byte c t).input × (view (keep_byte c t).input ≡ typed c (view t.input))
unfolding keep_byte typed handed OneLine
keep_byte-typed c t g room byte =
    let i = t.input in
    let (v, line, ready) = push-line c i g.valid room byte in
    let whole = full_word c i g.valid room in
    elim (Bool-cases (completes c (push c i))) [
      | inl done ↦
          let done' = rw whole at done in
          let (v', all) = handed-view (push c i) v in
          rw (done, done')
            (record { valid = v'; one_line = rw all tt }, all ∙ rw (ready, line) refl)
      | inr more ↦
          let more' = rw whole at more in
          rw (more, more')
            (
              record {
                valid = v;
                one_line =
                    rw line (OneLine-append (view i).line c g.one_line (not_newline c _ more'));
              },
              ap₂ (λ r l. record { ready = r; line = l }) ready line,
            )
    ]
