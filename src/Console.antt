-- ===== src/Console.antt =====
-- console.c: the line that is being typed. `cons.lock` makes a call of `consoleintr` one step, and of
-- `consoleread` each pass up to the next `sleep`. A character of the buffer is a byte.
pub mod Ring
pub mod Keys
pub mod Store
pub mod Line
pub mod Reader
pub mod Flow
mod Tests
use os163_assi.Prelude.{
  ℕ, zero, suc, ◌+◌, ◌-◌, ◌%◌, Bool, true, false, not, ◌&&◌, ◌||◌, Option, none, some, List, [],
  ◌∷◌, ◌++◌, if◌then◌else◌, ◌==◌, ltb, get_or, set, add32, sub32,
}

abbrev pub input_buf : ℕ
input_buf = 128

-- `struct input`
pub record Input : Type 0 where
  pub buf : List ℕ
  pub r : ℕ
  pub w : ℕ
  pub e : ℕ

-- What `consoleintr` works on, with the characters that it gives to `consputc`, and whether it calls
-- `wakeup(&input.r)` and `procdump`.
pub record Typing : Type 0 where
  pub input : Input
  pub shown : List ℕ
  pub wakes : Bool
  pub dumps : Bool

-- `BACKSPACE`
abbrev pub backspace : ℕ
backspace = 256

-- `input.e--; consputc(BACKSPACE);`
pub rub : Typing → Typing
rub t = record t {
  input = record t.input { e = sub32 t.input.e 1 };
  shown = t.shown ++ (backspace ∷ []);
}

pub before : Input → ℕ
before i = get_or i.buf (sub32 i.e 1 % input_buf) 0

-- The loop of `C('U')`
pub kill_line : ℕ → Typing → Option Typing
unfolding rub before
kill_line zero t = none
kill_line (suc fuel) t =
    let more = kill_line fuel (rub t) in
    if not (t.input.e == t.input.w) && not (before t.input == 10) then more else some t

pub erase : Typing → Typing
unfolding rub
erase t = if t.input.e == t.input.w then t else rub t

-- `c = (c == '\r') ? '\n' : c;`
pub newline : ℕ → ℕ
newline c = if c == 13 then 10 else c

-- `input.buf[input.e++ % INPUT_BUF] = c;`
pub push : ℕ → Input → Input
push c i = record i { buf = set i.buf (i.e % input_buf) (c % 256); e = add32 i.e 1 }

-- `c == '\n' || c == C('D') || input.e == input.r+INPUT_BUF`
pub completes : ℕ → Input → Bool
completes c i = c == 10 || c == 4 || i.e == add32 i.r input_buf

pub keep_byte : ℕ → Typing → Typing
unfolding push completes
keep_byte c t =
    let i = push c t.input in
    if completes c i
    then record t { input = record i { w = i.e }; shown = t.shown ++ (c ∷ []); wakes = true }
    else record t { input = i; shown = t.shown ++ (c ∷ []) }

-- The `default` of the `switch`
pub enter : ℕ → Typing → Typing
unfolding newline keep_byte
enter c t =
    if not (c == 0) && ltb (sub32 t.input.e t.input.r) input_buf then keep_byte (newline c) t else t

-- The `switch` of `consoleintr`; no line is longer than the buffer.
pub press : ℕ → Typing → Option Typing
unfolding kill_line erase enter
press c t =
    if c == 16
    then some (record t { dumps = true })
    else if c == 21
    then kill_line (suc input_buf) t
    else if c == 8 || c == 127
    then some (erase t)
    else some (enter c t)

pub presses : List ℕ → Typing → Option Typing
unfolding press
presses [] t = some t
presses (c ∷ cs) t = elim (press c t) [ none ↦ none | some t' ↦ presses cs t' ]

-- `consoleintr`, with what `getc` returns up to the first negative number
pub consoleintr : List ℕ → Input → Option Typing
unfolding presses
consoleintr cs i = presses cs (record { input = i; shown = []; wakes = false; dumps = false })

-- How a pass of `consoleread` ends: it returns the number of bytes, it returns -1, or it sleeps on
-- `&input.r` with so many bytes still to read.
pub data Ended : Type 0 where
  finished : Ended
  interrupted : Ended
  asleep : (n : ℕ) → Ended

-- A pass: the bytes that it copies out, how it ends, and the input
pub record Pass : Type 0 where
  pub bytes : List ℕ
  pub ended : Ended
  pub input : Input

-- `input.buf[input.r++ % INPUT_BUF]`
pub next_byte : Input → ℕ
next_byte i = get_or i.buf (i.r % input_buf) 0

pub pass_byte : Input → Input
pass_byte i = record i { r = add32 i.r 1 }

-- The loop of `consoleread`
pub consoleread : Bool → ℕ → ℕ → Input → Pass
unfolding next_byte pass_byte
consoleread killed target zero i = record { bytes = []; ended = finished; input = i }
consoleread killed target (suc n) i =
    let c = next_byte i in
    let i' = pass_byte i in
    let back = record i' { r = sub32 i'.r 1 } in
    let further = consoleread killed target n i' in
    if i.r == i.w
    then record { bytes = []; ended = if killed then interrupted else asleep (suc n); input = i }
    else if c == 4
    then record { bytes = []; ended = finished; input = if ltb (suc n) target then back else i' }
    else if c == 10
    then record { bytes = c ∷ []; ended = finished; input = i' }
    else record further { bytes = c ∷ further.bytes }
