-- ===== src/Shell/Parse/Args.antt =====
-- sh.c: `parseexec` reads the arguments that are written.
use os163_assi.Prelude.{
  ℕ, zero, suc, ◌+◌, ◌≡◌, ◌≤◌, ◌<◌, true, false, List, [], ◌∷◌, leb, length, arith, refl, ◌∙◌,
}
use os163_assi.Shell.{peek, Cmd, exec_cmd, add_arg}
use os163_assi.Shell.Parse.{parsed, maxargs, args_loop, simple}
use os163_assi.Shell.Parse.Print.{
  Redir, from, to, onto, Arg, put_text, put_redirs, put_args, with_redirs, with_args, IsWord,
  AreRedirs, AreArgs,
}
use os163_assi.Shell.Parse.Words.{
  Tight, begins, after_command, gettoken-put_text, Tight-put_text, begins-Tight, no_redir,
  peek_nothing, gettoken_nothing, peek_after, redir_word, after_word,
}
use os163_assi.Shell.Parse.Redirs.{Tight-put_redirs, parseredirs-put_redirs, length-put_text}

args_end :
    (fuel argc : ℕ) (c : Cmd) (rest : List ℕ)
    → begins after_command rest ≡ true
    → args_loop (suc fuel) argc c rest ≡ parsed c rest
unfolding args_loop
args_end fuel argc c [] h =
    rw (peek_nothing after_command, args_loop) (rw (begins-Tight [] h, gettoken_nothing) refl)
args_end fuel argc c (x ∷ rest) h =
    rw (peek_after x rest h, args_loop) (rw (begins-Tight (x ∷ rest) h) refl)

args_round :
    (fuel argc : ℕ) (c : Cmd) (w : List ℕ) (rs : List Redir) (more : List ℕ)
    → IsWord w
    → AreRedirs rs
    → argc < 9
    → Tight more
    → peek (60 ∷ 62 ∷ []) more ≡ false
    → args_loop (suc fuel) argc c (put_text w (put_redirs rs more))
      ≡ args_loop fuel (suc argc) (with_redirs rs (add_arg w c)) more
unfolding args_loop
args_round fuel argc c w rs more word redirs few tight end =
    let behind = put_redirs rs more in
    let room : leb maxargs (suc argc) ≡ false = ground arith in
    rw
      (
        after_word w behind word,
        Tight-put_text w behind word,
        gettoken-put_text w behind word (Tight-put_redirs rs more tight),
        room,
        parseredirs-put_redirs rs (add_arg w c) more redirs tight end,
        args_loop,
      )
      refl

-- In front of further arguments there is no redirection.
pub args_front :
    (args : List Arg) (rest : List ℕ)
    → AreArgs args
    → begins after_command rest ≡ true
    → Tight (put_args args rest) × (peek (60 ∷ 62 ∷ []) (put_args args rest) ≡ false)
unfolding put_args AreArgs
args_front [] rest good h = (begins-Tight rest h, no_redir rest h)
args_front (a ∷ args) rest (word, redirs, good) h =
    (Tight-put_text a.word _ word, redir_word a.word _ word)

length-put_redirs : (rs : List Redir) (rest : List ℕ) → length rest ≤ length (put_redirs rs rest)
unfolding put_redirs
length-put_redirs [] rest = omega arith
length-put_redirs (from f ∷ rs) rest =
    omega (arith, length-put_text f (put_redirs rs rest), length-put_redirs rs rest)
length-put_redirs (to f ∷ rs) rest =
    omega (arith, length-put_text f (put_redirs rs rest), length-put_redirs rs rest)
length-put_redirs (onto f ∷ rs) rest =
    omega (arith, length-put_text f (put_redirs rs rest), length-put_redirs rs rest)

args_loop-put_args :
    (args : List Arg) (fuel argc : ℕ) (c : Cmd) (rest : List ℕ)
    → AreArgs args
    → argc + length args ≤ 9
    → begins after_command rest ≡ true
    → length (put_args args rest) < fuel
    → args_loop fuel argc c (put_args args rest) ≡ parsed (with_args args c) rest
unfolding put_args with_args AreArgs
args_loop-put_args args zero argc c rest good few h lt = absurd (omega arith)
args_loop-put_args [] (suc fuel) argc c rest good few h lt = args_end fuel argc c rest h
args_loop-put_args (a ∷ args) (suc fuel) argc c rest (word, redirs, good) few h lt =
    let more = put_args args rest in
    let behind = put_redirs a.redirs more in
    let front = args_front args rest good h in
    args_round fuel argc c a.word a.redirs more word redirs (omega arith) front.0 front.1
    ∙ args_loop-put_args args fuel (suc argc) (with_redirs a.redirs (add_arg a.word c)) rest good
        (omega arith) h
        (omega (arith, length-put_text a.word behind, length-put_redirs a.redirs more))

-- A command that is not in parentheses
pub simple-put_args :
    (rs : List Redir) (args : List Arg) (rest : List ℕ)
    → AreRedirs rs
    → AreArgs args
    → length args ≤ 9
    → begins after_command rest ≡ true
    → simple (put_redirs rs (put_args args rest))
      ≡ parsed (with_args args (with_redirs rs (exec_cmd []))) rest
unfolding simple
simple-put_args rs args rest redirs good few h =
    let front = args_front args rest good h in
    rw (parseredirs-put_redirs rs (exec_cmd []) (put_args args rest) redirs front.0 front.1) (
      args_loop-put_args args (suc (length (put_args args rest))) 0 (with_redirs rs (exec_cmd []))
        rest good (omega arith) h (omega arith))
