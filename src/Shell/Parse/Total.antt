-- ===== src/Shell/Parse/Total.antt =====
-- sh.c: the parser comes to an end on every line.
use os163_assi.Prelude.{
  ℕ, zero, suc, ◌+◌, ◌*◌, ◌≡◌, ◌≤◌, ◌<◌, true, List, [], ◌∷◌, ◌==◌, leb, length, arith, Bool-cases,
  inl, inr,
}
use os163_assi.Shell.{skip_white, gettoken, peek, word_kind, Cmd, exec_cmd, back_cmd, add_arg}
use os163_assi.Shell.Tokens.{
  skip_white-skip_white, length-skip_white, length-gettoken, gettoken_takes, peek_takes,
}
use os163_assi.Shell.Parse.{
  Parsed, parsed, syntax, starved, maxargs, redirected, redirs_loop, parseredirs, then_parsed,
  args_loop, simple, backs_loop, closed, parseline, parsepipe, parseexec, parseblock, at_end,
  finished, parsecmd,
}

-- The parser has ended, and has left no more than `n` bytes.
unfoldable pub Fits : ℕ → Parsed → Type 0
Fits n (parsed c s) = length s ≤ n
Fits n syntax = Unit
Fits n starved = ⊥

weaken-Fits : (m n : ℕ) (r : Parsed) → m ≤ n → Fits m r → Fits n r
unfolding Fits
weaken-Fits m n (parsed c s) le h = omega arith
weaken-Fits m n syntax le h = h
weaken-Fits m n starved le h = h

then_parsed-Fits :
    (m n : ℕ) (r : Parsed) (next : Cmd → List ℕ → Parsed)
    → Fits m r
    → ((c : Cmd) (s : List ℕ) → length s ≤ m → Fits n (next c s))
    → Fits n (then_parsed r next)
unfolding Fits then_parsed
then_parsed-Fits m n (parsed c s) next h on = on c s h
then_parsed-Fits m n syntax next h on = h
then_parsed-Fits m n starved next h on = h

redirs_loop-Fits :
    (fuel : ℕ) (c : Cmd) (s : List ℕ) → length s < fuel → Fits (length s) (redirs_loop fuel c s)
unfolding redirs_loop Fits
redirs_loop-Fits zero c s lt = omega arith
redirs_loop-Fits (suc fuel) c s lt = elim (Bool-cases (peek (60 ∷ 62 ∷ []) s)) [
  | inr done ↦ rw (done, redirs_loop) (length-skip_white s)
  | inl more ↦
      let tok = gettoken (skip_white s) in
      let file = gettoken tok.rest in
      let less : length tok.rest < length s = peek_takes (60 ∷ 62 ∷ []) s more in
      let less' : length file.rest ≤ length tok.rest = length-gettoken tok.rest in
      elim (Bool-cases (file.kind == word_kind)) [
        | inl word ↦
            rw (more, word, redirs_loop)
              (weaken-Fits (length file.rest) (length s) _ (omega arith)
                (redirs_loop-Fits fuel (redirected tok.kind file.text c) file.rest (omega arith)))
        | inr other ↦ rw (more, other, redirs_loop) tt
      ]
]

parseredirs-Fits : (c : Cmd) (s : List ℕ) → Fits (length s) (parseredirs c s)
unfolding parseredirs
parseredirs-Fits c s = redirs_loop-Fits (suc (length s)) c s (omega arith)

args_loop-Fits :
    (fuel argc : ℕ) (c : Cmd) (s : List ℕ)
    → length s < fuel
    → Fits (length s) (args_loop fuel argc c s)
unfolding args_loop Fits
args_loop-Fits zero argc c s lt = omega arith
args_loop-Fits (suc fuel) argc c s lt = elim (Bool-cases (peek (124 ∷ 41 ∷ 38 ∷ 59 ∷ []) s)) [
  | inl done ↦ rw (done, args_loop) (length-skip_white s)
  | inr more ↦
      let tok = gettoken (skip_white s) in
      let le : length tok.rest ≤ length (skip_white s) = length-gettoken (skip_white s) in
      let le' : length (skip_white s) ≤ length s = length-skip_white s in
      elim (Bool-cases (tok.kind == 0)) [
        | inl end ↦ rw (more, end, args_loop) (omega arith)
        | inr there ↦ elim (Bool-cases (tok.kind == word_kind)) [
          | inr other ↦ rw (more, there, other, args_loop) tt
          | inl word ↦ elim (Bool-cases (leb maxargs (suc argc))) [
            | inl full ↦ rw (more, there, word, full, args_loop) tt
            | inr room ↦
                let less : length tok.rest < length s =
                  omega (arith, gettoken_takes (skip_white s) (ground arith)) in
                rw (more, there, word, room, args_loop)
                  (then_parsed-Fits (length tok.rest) (length s)
                    (parseredirs (add_arg tok.text c) tok.rest) (args_loop fuel (suc argc))
                    (parseredirs-Fits (add_arg tok.text c) tok.rest)
                    (λ c' s' h.
                      weaken-Fits (length s') (length s) _ (omega arith)
                        (args_loop-Fits fuel (suc argc) c' s' (omega arith))))
          ]
        ]
      ]
]

simple-Fits : (s : List ℕ) → Fits (length s) (simple s)
unfolding simple
simple-Fits s =
    then_parsed-Fits (length s) (length s) (parseredirs (exec_cmd []) s) _
      (parseredirs-Fits (exec_cmd []) s)
      (λ c s' h.
        weaken-Fits (length s') (length s) _ h
          (args_loop-Fits (suc (length s')) 0 c s' (omega arith)))

backs_loop-Fits :
    (fuel : ℕ) (c : Cmd) (s : List ℕ) → length s < fuel → Fits (length s) (backs_loop fuel c s)
unfolding backs_loop Fits
backs_loop-Fits zero c s lt = omega arith
backs_loop-Fits (suc fuel) c s lt = elim (Bool-cases (peek (38 ∷ []) s)) [
  | inr done ↦ rw (done, backs_loop) (length-skip_white s)
  | inl more ↦
      let rest = (gettoken (skip_white s)).rest in
      let less : length rest < length s = peek_takes (38 ∷ []) s more in
      rw (more, backs_loop)
        (weaken-Fits (length rest) (length s) _ (omega arith)
          (backs_loop-Fits fuel (back_cmd c) rest (omega arith)))
]

closed-Fits : (c : Cmd) (s : List ℕ) → Fits (length s) (closed c s)
unfolding closed Fits
closed-Fits c s = elim (Bool-cases (peek (41 ∷ []) s)) [
  | inr bad ↦ rw bad tt
  | inl there ↦
      let rest = (gettoken (skip_white s)).rest in
      rw there (
        weaken-Fits (length rest) (length s) _ (omega (arith, peek_takes (41 ∷ []) s there))
          (parseredirs-Fits c rest))
]

block_takes :
    (s : List ℕ)
    → peek (40 ∷ []) s ≡ true
    → length (gettoken (skip_white (skip_white s))).rest < length s
block_takes s h = rw (skip_white-skip_white s) (peek_takes (40 ∷ []) s h)

mutual
  unfolding parseline Fits

  parseline-Fits :
      (fuel : ℕ) (s : List ℕ) → 4 * length s + 4 ≤ fuel → Fits (length s) (parseline fuel s)
  parseline-Fits zero s le = omega arith
  parseline-Fits (suc fuel) s le =
      then_parsed-Fits (length s) (length s) (parsepipe fuel s) _
        (parsepipe-Fits fuel s (omega arith))
        (λ c s1 h1.
          then_parsed-Fits (length s1) (length s) (backs_loop (suc (length s1)) c s1) _
            (backs_loop-Fits (suc (length s1)) c s1 (omega arith))
            (λ c2 s2 h2. elim (Bool-cases (peek (59 ∷ []) s2)) [
              | inr done ↦ rw done (omega (arith, length-skip_white s2))
              | inl more ↦
                  let rest = (gettoken (skip_white s2)).rest in
                  let less : length rest < length s2 = peek_takes (59 ∷ []) s2 more in
                  rw more (
                    then_parsed-Fits (length rest) (length s) (parseline fuel rest) _
                      (parseline-Fits fuel rest (omega arith)) (λ c3 s3 h3. omega arith))
            ]))

  pub parsepipe-Fits :
      (fuel : ℕ) (s : List ℕ) → 4 * length s + 3 ≤ fuel → Fits (length s) (parsepipe fuel s)
  parsepipe-Fits zero s le = omega arith
  parsepipe-Fits (suc fuel) s le =
      then_parsed-Fits (length s) (length s) (parseexec fuel s) _
        (parseexec-Fits fuel s (omega arith))
        (λ c s1 h1. elim (Bool-cases (peek (124 ∷ []) s1)) [
          | inr done ↦ rw done (omega (arith, length-skip_white s1))
          | inl more ↦
              let rest = (gettoken (skip_white s1)).rest in
              let less : length rest < length s1 = peek_takes (124 ∷ []) s1 more in
              rw more (
                then_parsed-Fits (length rest) (length s) (parsepipe fuel rest) _
                  (parsepipe-Fits fuel rest (omega arith)) (λ c3 s3 h3. omega arith))
        ])

  pub parseexec-Fits :
      (fuel : ℕ) (s : List ℕ) → 4 * length s + 2 ≤ fuel → Fits (length s) (parseexec fuel s)
  parseexec-Fits zero s le = omega arith
  parseexec-Fits (suc fuel) s le = elim (Bool-cases (peek (40 ∷ []) s)) [
    | inr plain ↦
        rw (plain, parseexec)
          (weaken-Fits (length (skip_white s)) (length s) _ (length-skip_white s)
            (simple-Fits (skip_white s)))
    | inl block ↦
        rw (block, parseexec)
          (parseblock-Fits fuel (skip_white s) (length s) (block_takes s block) (omega arith))
  ]

  parseblock-Fits :
      (fuel : ℕ) (s : List ℕ) (n : ℕ)
      → length (gettoken (skip_white s)).rest < n
      → 4 * n + 1 ≤ fuel
      → Fits n (parseblock fuel s)
  parseblock-Fits zero s n lt le = omega arith
  parseblock-Fits (suc fuel) s n lt le =
      let rest = (gettoken (skip_white s)).rest in
      elim (Bool-cases (peek (40 ∷ []) s)) [
        | inr bad ↦ rw bad tt
        | inl there ↦ rw there (
            then_parsed-Fits (length rest) n (parseline fuel rest) closed
              (parseline-Fits fuel rest (omega arith))
              (λ c s' h. weaken-Fits (length s') n (closed c s') (omega arith) (closed-Fits c s')))
      ]

all_or_none : (c : Cmd) (s : List ℕ) → Fits 0 (at_end c s)
unfolding at_end Fits
all_or_none c [] = omega arith
all_or_none c (x ∷ s) = tt

-- The parser of the shell comes to an end on every line: it gives a command for the whole line or
-- panics over its syntax, and the fuel of four calls for each byte is enough.
pub parsecmd-Fits : (s : List ℕ) → Fits 0 (parsecmd s)
unfolding parsecmd finished
parsecmd-Fits s =
    then_parsed-Fits (length s) 0 (parseline (4 * length s + 4) s) _
      (parseline-Fits (4 * length s + 4) s (omega arith)) (λ c s' h. all_or_none c (skip_white s'))
