-- ===== src/Shell/Parse/Back.antt =====
-- sh.c: the shell reads a line that is written from a tree as the command of the tree.
use os163_assi.Prelude.{ℕ, zero, suc, ◌+◌, ◌*◌, ◌≡◌, ◌≤◌, true, List, [], ◌∷◌, length, arith, refl}
use os163_assi.Shell.{strchr, skip_white, Cmd}
use os163_assi.Shell.Parse.{
  Parsed, parsed, then_parsed, parseline, parsepipe, parseexec, at_end, finished, parsecmd,
}
use os163_assi.Shell.Parse.Total.{Fits, parsepipe-Fits, parseexec-Fits}
use os163_assi.Shell.Parse.Print.{
  Line, last, and_then, Pipeline, single, piped, Command, plain, block, put_redirs, put_args,
  put_ands, put_line, put_pipeline, put_command, line_cmd, pipeline_cmd, command_cmd, IsLine,
  IsPipeline, IsCommand,
}
use os163_assi.Shell.Parse.Words.{
  Tight, begins, after_command, after_pipeline, after_ands, after_line, Tight-black, begins-Tight,
  pipeline_in_command, ands_in_pipeline, line_in_ands,
}
use os163_assi.Shell.Parse.Redirs.{Tight-put_redirs}
use os163_assi.Shell.Parse.Args.{simple-put_args, args_front}
use os163_assi.Shell.Parse.Exec.{exec_plain, exec_block}
use os163_assi.Shell.Parse.Steps.{
  pipe_last, pipe_more, line_last, line_more, begins_semicolon, length-put_ands,
}

begins_ands :
    (n : ℕ) (rest : List ℕ)
    → begins after_ands rest ≡ true
    → begins after_pipeline (put_ands n rest) ≡ true
unfolding put_ands begins strchr
begins_ands zero rest h = ands_in_pipeline rest h
begins_ands (suc n) rest h = refl

begins_bar : (s : List ℕ) → begins after_command (124 ∷ s) ≡ true
unfolding begins strchr
begins_bar s = refl

begins_paren : (s : List ℕ) → begins after_line (41 ∷ s) ≡ true
unfolding begins strchr
begins_paren s = refl

black_open : (s : List ℕ) → Tight (40 ∷ s)
unfolding strchr
black_open s = Tight-black 40 s refl

-- A command, a pipeline or a line begins with no white space.
mutual
  unfolding put_line IsLine

  Tight-put_line :
      (l : Line) (rest : List ℕ)
      → IsLine l
      → begins after_line rest ≡ true
      → Tight (put_line l rest)
  Tight-put_line (last p n) rest good h =
      Tight-put_pipeline p (put_ands n rest) good (begins_ands n rest (line_in_ands rest h))
  Tight-put_line (and_then p n l) rest (good, good') h =
      Tight-put_pipeline p (put_ands n (59 ∷ 32 ∷ put_line l rest)) good
        (begins_ands n _ (begins_semicolon _))

  Tight-put_pipeline :
      (p : Pipeline) (rest : List ℕ)
      → IsPipeline p
      → begins after_pipeline rest ≡ true
      → Tight (put_pipeline p rest)
  Tight-put_pipeline (single c) rest good h =
      Tight-put_command c rest good (pipeline_in_command rest h)
  Tight-put_pipeline (piped c p) rest (good, good') h =
      Tight-put_command c (124 ∷ 32 ∷ put_pipeline p rest) good (begins_bar _)

  Tight-put_command :
      (c : Command) (rest : List ℕ)
      → IsCommand c
      → begins after_command rest ≡ true
      → Tight (put_command c rest)
  Tight-put_command (plain rs args) rest (redirs, good, few) h =
      Tight-put_redirs rs (put_args args rest) (args_front args rest good h).0
  Tight-put_command (block l rs) rest good h = black_open _

-- What is left is no longer than the line.
left : (n : ℕ) (r : Parsed) (c : Cmd) (s : List ℕ) → Fits n r → r ≡ parsed c s → length s ≤ n
unfolding Fits
left n r c s h e = rw e at h

mutual
  unfolding put_line line_cmd IsLine

  line_back :
      (fuel : ℕ) (l : Line) (rest : List ℕ)
      → IsLine l
      → begins after_line rest ≡ true
      → 4 * length (put_line l rest) + 4 ≤ fuel
      → parseline fuel (put_line l rest) ≡ parsed (line_cmd l) rest
  line_back zero l rest good h le = absurd (omega arith)
  line_back (suc fuel) (last p n) rest good h le =
      line_last fuel (put_line (last p n) rest) (pipeline_cmd p) n rest
        (pipeline_back fuel p (put_ands n rest) good (begins_ands n rest (line_in_ands rest h))
          (omega arith))
        h
  line_back (suc fuel) (and_then p n l) rest (good, good') h le =
      let s3 = put_line l rest in
      let s = put_line (and_then p n l) rest in
      let e =
        pipeline_back fuel p (put_ands n (59 ∷ 32 ∷ s3)) good (begins_ands n _ (begins_semicolon _))
          (omega arith) in
      let shorter : length (put_ands n (59 ∷ 32 ∷ s3)) ≤ length s =
        left (length s) (parsepipe fuel s) (pipeline_cmd p) _ (parsepipe-Fits fuel s (omega arith))
          e in
      line_more fuel s (pipeline_cmd p) n s3 (line_cmd l) rest e (Tight-put_line l rest good' h)
        (line_back fuel l rest good' h (omega (arith, length-put_ands n (59 ∷ 32 ∷ s3))))

  pipeline_back :
      (fuel : ℕ) (p : Pipeline) (rest : List ℕ)
      → IsPipeline p
      → begins after_pipeline rest ≡ true
      → 4 * length (put_pipeline p rest) + 3 ≤ fuel
      → parsepipe fuel (put_pipeline p rest) ≡ parsed (pipeline_cmd p) rest
  pipeline_back zero p rest good h le = absurd (omega arith)
  pipeline_back (suc fuel) (single c) rest good h le =
      pipe_last fuel (put_command c rest) (command_cmd c) rest
        (command_back fuel c rest good (pipeline_in_command rest h) (omega arith)) h
  pipeline_back (suc fuel) (piped c p) rest (good, good') h le =
      let s2 = put_pipeline p rest in
      let s = put_pipeline (piped c p) rest in
      let e = command_back fuel c (124 ∷ 32 ∷ s2) good (begins_bar _) (omega arith) in
      let shorter : length (124 ∷ 32 ∷ s2) ≤ length s =
        left (length s) (parseexec fuel s) (command_cmd c) _ (parseexec-Fits fuel s (omega arith))
          e in
      pipe_more fuel s (command_cmd c) s2 (pipeline_cmd p) rest e
        (Tight-put_pipeline p rest good' h) (pipeline_back fuel p rest good' h (omega arith))

  command_back :
      (fuel : ℕ) (c : Command) (rest : List ℕ)
      → IsCommand c
      → begins after_command rest ≡ true
      → 4 * length (put_command c rest) + 2 ≤ fuel
      → parseexec fuel (put_command c rest) ≡ parsed (command_cmd c) rest
  command_back zero c rest good h le = absurd (omega arith)
  command_back (suc zero) c rest good h le = absurd (omega arith)
  command_back (suc (suc fuel)) (plain rs args) rest (redirs, good, few) h le =
      exec_plain (suc fuel) rs args rest _ good h
        (Tight-put_redirs rs (put_args args rest) (args_front args rest good h).0)
        (simple-put_args rs args rest redirs good few h)
  command_back (suc (suc fuel)) (block l rs) rest (good, redirs) h le =
      let s = put_line l (41 ∷ 32 ∷ put_redirs rs rest) in
      exec_block fuel s (line_cmd l) rs rest redirs (Tight-put_line l _ good (begins_paren _))
        (Tight-put_redirs rs rest (begins-Tight rest h)) h
        (line_back fuel l (41 ∷ 32 ∷ put_redirs rs rest) good (begins_paren _) (omega arith))

finished_nothing : (c : Cmd) → finished c [] ≡ parsed c []
unfolding finished at_end skip_white
finished_nothing c = refl

nothing_left : begins after_line [] ≡ true
unfolding begins
nothing_left = refl

-- The shell reads back every line that is written from a tree of lines, pipelines, commands and
-- blocks, when its words are words and no command has more than nine of them: the parser takes the
-- whole line and builds the command of the tree.
pub parsecmd-put_line : (l : Line) → IsLine l → parsecmd (put_line l []) ≡ parsed (line_cmd l) []
unfolding parsecmd then_parsed
parsecmd-put_line l good =
    rw (line_back (4 * length (put_line l []) + 4) l [] good nothing_left (omega arith))
      (finished_nothing (line_cmd l))
