-- ===== src/Console/Tests.antt =====
-- Lines that are typed, corrected and read: `a`, `b`, a backspace, a return, and `c`.
use os163_assi.Prelude.{
  ℕ, ◌≡◌, ◌≤◌, refl, some, List, [], ◌∷◌, false, sub32, replicate, length-replicate, arith,
}
use os163_assi.Console.{input_buf}
use os163_assi.Console.Flow.{
  Event, typing, reading, AreKeys, Console, run, line_run, shown_as, start, run-line_run,
  run_bounded,
}
use os163_assi.Console.Line.{AreBytes}

abbrev ring : List ℕ
ring = replicate 128 0

abbrev events : List Event
events =
    typing (97 ∷ 98 ∷ 127 ∷ 13 ∷ [])
    ∷ reading false 10 10
    ∷ typing (99 ∷ 21 ∷ 4 ∷ [])
    ∷ reading false 1 1
    ∷ []

events-AreKeys : AreKeys events
unfolding AreKeys AreBytes
events-AreKeys = (
  (omega arith, (omega arith, (omega arith, (omega arith, tt)))),
  ((omega arith, (omega arith, (omega arith, tt))), tt),
)

run-line_run_example :
    (s : Console) × (run events (start ring) ≡ some s)
    × (shown_as s
        ≡ line_run events (record { lines = record { ready = []; line = [] }; received = [] }))
run-line_run_example = run-line_run ring events (length-replicate {A = ℕ} 128 0) events-AreKeys

run_bounded_example :
    (s : Console) × (run events (start ring) ≡ some s)
    × (sub32 s.input.w s.input.r ≤ sub32 s.input.e s.input.r)
    × (sub32 s.input.e s.input.r ≤ input_buf)
run_bounded_example = run_bounded ring events (length-replicate {A = ℕ} 128 0) events-AreKeys

-- The reader gets `a` and the newline, and then the end of the file.
corrected :
    (line_run events (record { lines = record { ready = []; line = [] }; received = [] })).received
    ≡ 97 ∷ 10 ∷ []
unfolding line_run
corrected = refl
