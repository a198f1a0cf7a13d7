-- ===== src/Shell/Parse/Steps.antt =====
-- sh.c: a call of `parsepipe` or `parseline`, when what it calls succeeds.
use os163_assi.Prelude.{ℕ, zero, suc, ◌≡◌, ◌≤◌, ◌<◌, true, List, ◌∷◌, length, arith, refl, ◌∙◌}
use os163_assi.Shell.{strchr, Cmd, back_cmd, list_cmd, pipe_cmd}
use os163_assi.Shell.Parse.{parsed, then_parsed, backs_loop, parseline, parsepipe, parseexec}
use os163_assi.Shell.Parse.Print.{put_ands, with_backs}
use os163_assi.Shell.Parse.Words.{
  Tight, begins, after_pipeline, after_ands, after_line, Tight-black, begins-Tight, no_and, no_bar,
  no_semicolon, pipeline_in_command, ands_in_pipeline, line_in_ands,
}
use os163_assi.Shell.Parse.Exec.{IsSymbol, symbols_are, symbol_rest, peek_symbol}

-- `parsepipe`
pub pipe_last :
    (fuel : ℕ) (s : List ℕ) (c : Cmd) (s1 : List ℕ)
    → parseexec fuel s ≡ parsed c s1
    → begins after_pipeline s1 ≡ true
    → parsepipe (suc fuel) s ≡ parsed c s1
unfolding parsepipe then_parsed
pipe_last fuel s c s1 e h =
    rw (e, no_bar s1 h, parsepipe) (rw (begins-Tight s1 (pipeline_in_command s1 h)) refl)

pub pipe_more :
    (fuel : ℕ) (s : List ℕ) (c : Cmd) (s2 : List ℕ) (r : Cmd) (s3 : List ℕ)
    → parseexec fuel s ≡ parsed c (124 ∷ 32 ∷ s2)
    → Tight s2
    → parsepipe fuel s2 ≡ parsed r s3
    → parsepipe (suc fuel) s ≡ parsed (pipe_cmd c r) s3
unfolding parsepipe then_parsed
pipe_more fuel s c s2 r s3 e tight e' =
    rw
      (
        e,
        peek_symbol 124 (32 ∷ s2) symbols_are.0,
        symbol_rest 124 s2 symbols_are.0 tight,
        e',
        parsepipe,
      )
      refl

-- The loop over `&`
Tight-put_ands : (n : ℕ) (rest : List ℕ) → Tight rest → Tight (put_ands n rest)
unfolding put_ands IsSymbol
Tight-put_ands zero rest tight = tight
Tight-put_ands (suc n) rest tight = Tight-black 38 _ symbols_are.4.0

backs_round :
    (fuel : ℕ) (c : Cmd) (s : List ℕ)
    → Tight s
    → backs_loop (suc fuel) c (38 ∷ 32 ∷ s) ≡ backs_loop fuel (back_cmd c) s
unfolding backs_loop
backs_round fuel c s tight =
    rw (peek_symbol 38 (32 ∷ s) symbols_are.4, symbol_rest 38 s symbols_are.4 tight, backs_loop)
      refl

backs_end :
    (fuel : ℕ) (c : Cmd) (s : List ℕ)
    → begins after_ands s ≡ true
    → backs_loop (suc fuel) c s ≡ parsed c s
unfolding backs_loop
backs_end fuel c s h =
    rw (no_and s h, backs_loop)
      (rw (begins-Tight s (pipeline_in_command s (ands_in_pipeline s h))) refl)

pub backs_loop-put_ands :
    (n fuel : ℕ) (c : Cmd) (rest : List ℕ)
    → begins after_ands rest ≡ true
    → length (put_ands n rest) < fuel
    → backs_loop fuel c (put_ands n rest) ≡ parsed (with_backs n c) rest
unfolding put_ands with_backs
backs_loop-put_ands n zero c rest h lt = absurd (omega arith)
backs_loop-put_ands zero (suc fuel) c rest h lt = backs_end fuel c rest h
backs_loop-put_ands (suc n) (suc fuel) c rest h lt =
    backs_round fuel c (put_ands n rest) (
      Tight-put_ands n rest
        (begins-Tight rest (pipeline_in_command rest (ands_in_pipeline rest h))))
    ∙ backs_loop-put_ands n fuel (back_cmd c) rest h (omega arith)

-- `parseline`
pub line_last :
    (fuel : ℕ) (s : List ℕ) (c : Cmd) (n : ℕ) (s2 : List ℕ)
    → parsepipe fuel s ≡ parsed c (put_ands n s2)
    → begins after_line s2 ≡ true
    → parseline (suc fuel) s ≡ parsed (with_backs n c) s2
unfolding parseline then_parsed
line_last fuel s c n s2 e h =
    let h' = line_in_ands s2 h in
    rw
      (
        e,
        backs_loop-put_ands n (suc (length (put_ands n s2))) c s2 h' (omega arith),
        no_semicolon s2 h,
        parseline,
      )
      (rw (begins-Tight s2 (pipeline_in_command s2 (ands_in_pipeline s2 h'))) refl)

pub begins_semicolon : (s : List ℕ) → begins after_ands (59 ∷ s) ≡ true
unfolding begins strchr
begins_semicolon s = refl

pub line_more :
    (fuel : ℕ) (s : List ℕ) (c : Cmd) (n : ℕ) (s3 : List ℕ) (r : Cmd) (s4 : List ℕ)
    → parsepipe fuel s ≡ parsed c (put_ands n (59 ∷ 32 ∷ s3))
    → Tight s3
    → parseline fuel s3 ≡ parsed r s4
    → parseline (suc fuel) s ≡ parsed (list_cmd (with_backs n c) r) s4
unfolding parseline then_parsed
line_more fuel s c n s3 r s4 e tight e' =
    rw
      (
        e,
        backs_loop-put_ands n (suc (length (put_ands n (59 ∷ 32 ∷ s3)))) c (59 ∷ 32 ∷ s3)
            (begins_semicolon _) (omega arith),
        peek_symbol 59 (32 ∷ s3) symbols_are.3,
        symbol_rest 59 s3 symbols_are.3 tight,
        e',
        parseline,
      )
      refl

-- The length of what is left when a pipeline has been read, and of its `&`.
pub length-put_ands : (n : ℕ) (rest : List ℕ) → length rest ≤ length (put_ands n rest)
unfolding put_ands
length-put_ands zero rest = omega arith
length-put_ands (suc n) rest = omega (arith, length-put_ands n rest)
