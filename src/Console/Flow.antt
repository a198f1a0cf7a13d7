-- ===== src/Console/Flow.antt =====
-- console.c: keys and readers in any order.
use os163_assi.Prelude.{
  window, ℕ, ◌≡◌, ◌≤◌, ◌∙◌, ap, refl, Bool, Option, none, some, List, [], ◌∷◌, ◌++◌, sub32, length,
  arith,
}
use mathlib.Core.Path.{ap₂}
use os163_assi.Console.{Input, input_buf, consoleintr, consoleread}
use os163_assi.Console.Ring.{View, view}
use os163_assi.Console.Keys.{OneLine, Good}
use os163_assi.Console.Line.{AreBytes, keys, consoleintr-keys}
use os163_assi.Console.Reader.{reads, consoleread-reads}

-- A call of `consoleintr` with the bytes that come in, or a pass of some `consoleread`
pub data Event : Type 0 where
  typing : (cs : List ℕ) → Event
  reading : (killed : Bool) (target n : ℕ) → Event

unfoldable pub AreKeys : List Event → Type 0
unfolding AreBytes
AreKeys [] = Unit
AreKeys (typing cs ∷ events) = AreBytes cs × AreKeys events
AreKeys (reading killed target n ∷ events) = AreKeys events

-- The input with all that has been handed to readers
pub record Console : Type 0 where
  pub input : Input
  pub received : List ℕ

react : Event → Console → Option Console
react (typing cs) s = elim (consoleintr cs s.input) [
  | none ↦ none
  | some t ↦ some (record s { input = t.input })
]
react (reading killed target n) s =
    let p = consoleread killed target n s.input in
    some (record { input = p.input; received = s.received ++ p.bytes })

pub run : List Event → Console → Option Console
unfolding react
run [] s = some s
run (event ∷ events) s = elim (react event s) [ none ↦ none | some s' ↦ run events s' ]

-- The same on lists
pub record Lines : Type 0 where
  pub lines : View
  pub received : List ℕ

unfoldable pub line_react : Event → Lines → Lines
unfolding keys reads
line_react (typing cs) l = record l { lines = keys cs l.lines }
line_react (reading killed target n) l =
    let p = reads killed target n l.lines.ready in
    record { lines = record l.lines { ready = p.rest }; received = l.received ++ p.bytes }

unfoldable pub line_run : List Event → Lines → Lines
unfolding line_react
line_run [] l = l
line_run (event ∷ events) l = line_run events (line_react event l)

abbrev pub shown_as : Console → Lines
shown_as s = record { lines = view s.input; received = s.received }

-- `input` as the kernel starts
abbrev pub start : List ℕ → Console
start buf = record { input = record { buf = buf; r = 0; w = 0; e = 0 }; received = [] }

react_agrees :
    (event : Event) (s : Console)
    → Good s.input
    → AreKeys (event ∷ [])
    → (s' : Console) × (react event s ≡ some s')
      × Good s'.input
      × (shown_as s' ≡ line_react event (shown_as s))
unfolding react line_react AreKeys
react_agrees (typing cs) s g (bytes, _) =
    let (t, e, (g', v)) = consoleintr-keys cs s.input g bytes in
    (
      record s { input = t.input },
      rw (e, react) refl,
      g',
      ap (λ v. record { lines = v; received = s.received }) v,
    )
react_agrees (reading killed target n) s g _ =
    let (g', bytes, ended, ready, line) = consoleread-reads killed target n s.input g in
    let p = consoleread killed target n s.input in
    (
      record { input = p.input; received = s.received ++ p.bytes },
      refl,
      g',
      ap₂ (λ v b. record { lines = v; received = s.received ++ b })
          (ap₂ (λ r l. record { ready = r; line = l }) ready line) bytes,
    )

run_agrees :
    (events : List Event) (s : Console)
    → Good s.input
    → AreKeys events
    → (s' : Console) × (run events s ≡ some s')
      × Good s'.input
      × (shown_as s' ≡ line_run events (shown_as s))
unfolding run line_run AreKeys
run_agrees [] s g _ = (s, refl, g, refl)
run_agrees (event ∷ events) s g bytes =
    let (s1, e1, g1, v1) = react_agrees event s g (first event bytes) in
    let (s2, e2, g2, v2) = run_agrees events s1 g1 (others event bytes) in
    (s2, rw (e1, run) e2, g2, v2 ∙ ap (line_run events) v1)
  where
    first : (event : Event) → AreKeys (event ∷ events) → AreKeys (event ∷ [])
    first (typing cs) h = (h.0, tt)
    first (reading killed target n) h = tt

    others : (event : Event) → AreKeys (event ∷ events) → AreKeys events
    others (typing cs) h = h.1
    others (reading killed target n) h = h

start-Good : (buf : List ℕ) → length buf ≡ input_buf → Good (start buf).input
unfolding view OneLine window
start-Good buf len = record {
  valid = record {
    room = len;
    read_word = omega arith;
    write_word = omega arith;
    edit_word = omega arith;
    ordered = omega arith;
    bounded = omega arith;
  };
  one_line = tt;
}

-- The console is a line discipline. Whatever bytes are typed and whatever threads read, in whatever
-- order from the start of the kernel on, `consoleintr` always returns, the readers get the bytes that
-- the discipline on lists gives them, and the ring holds its ready bytes and its unfinished line.
pub run-line_run :
    (buf : List ℕ) (events : List Event)
    → length buf ≡ input_buf
    → AreKeys events
    → (s : Console) × (run events (start buf) ≡ some s)
      × (shown_as s
          ≡ line_run events (record { lines = record { ready = []; line = [] }; received = [] }))
unfolding view window
run-line_run buf events len bytes =
    let (s, e, g, v) = run_agrees events (start buf) (start-Good buf len) bytes in (s, e, v)

-- The counters keep their order and their distance in every such history: from `r` to `w` and from
-- there to `e`, and never more than 128 bytes, though each goes round at 2 ^ 32.
pub run_bounded :
    (buf : List ℕ) (events : List Event)
    → length buf ≡ input_buf
    → AreKeys events
    → (s : Console) × (run events (start buf) ≡ some s)
      × (sub32 s.input.w s.input.r ≤ sub32 s.input.e s.input.r)
      × (sub32 s.input.e s.input.r ≤ input_buf)
run_bounded buf events len bytes =
    let (s, e, g, v) = run_agrees events (start buf) (start-Good buf len) bytes in
    (s, e, g.valid.ordered, g.valid.bounded)
