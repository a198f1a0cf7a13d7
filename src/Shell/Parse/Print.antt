-- ===== src/Shell/Parse/Print.antt =====
-- sh.c: the lines that the shell is meant to read, as trees, and how each is written and read.
use os163_assi.Prelude.{ℕ, zero, suc, ◌≤◌, ◌≡◌, false, ◌||◌, List, [], ◌∷◌, ◌++◌, length}
use os163_assi.Shell.{
  strchr, whitespace, symbols, Cmd, exec_cmd, redir_cmd, pipe_cmd, list_cmd, back_cmd, add_arg,
}

-- `< file`, `> file` and `>> file`
pub data Redir : Type 0 where
  from to onto : List ℕ → Redir

pub record Arg : Type 0 where
  pub word : List ℕ
  pub redirs : List Redir

-- A line is pipelines between `;`, each with a number of `&` behind it; a pipeline is commands
-- between `|`; and a command is words and redirections, or a line in parentheses.
mutual
  pub data Line : Type 0 where
    last : Pipeline → ℕ → Line
    and_then : Pipeline → ℕ → Line → Line

  pub data Pipeline : Type 0 where
    single : Command → Pipeline
    piped : Command → Pipeline → Pipeline

  pub data Command : Type 0 where
    plain : List Redir → List Arg → Command
    block : Line → List Redir → Command

-- Each is written in front of what follows it, with a space behind each token.
abbrev pub put_text : List ℕ → List ℕ → List ℕ
put_text w rest = w ++ (32 ∷ rest)

unfoldable pub put_redirs : List Redir → List ℕ → List ℕ
put_redirs [] rest = rest
put_redirs (from f ∷ rs) rest = 60 ∷ 32 ∷ put_text f (put_redirs rs rest)
put_redirs (to f ∷ rs) rest = 62 ∷ 32 ∷ put_text f (put_redirs rs rest)
put_redirs (onto f ∷ rs) rest = 62 ∷ 62 ∷ 32 ∷ put_text f (put_redirs rs rest)

unfoldable pub put_args : List Arg → List ℕ → List ℕ
unfolding put_redirs
put_args [] rest = rest
put_args (a ∷ args) rest = put_text a.word (put_redirs a.redirs (put_args args rest))

unfoldable pub put_ands : ℕ → List ℕ → List ℕ
put_ands zero rest = rest
put_ands (suc n) rest = 38 ∷ 32 ∷ put_ands n rest

unfoldable mutual
  unfolding put_args put_ands

  pub put_line : Line → List ℕ → List ℕ
  put_line (last p n) rest = put_pipeline p (put_ands n rest)
  put_line (and_then p n l) rest = put_pipeline p (put_ands n (59 ∷ 32 ∷ put_line l rest))

  pub put_pipeline : Pipeline → List ℕ → List ℕ
  put_pipeline (single c) rest = put_command c rest
  put_pipeline (piped c p) rest = put_command c (124 ∷ 32 ∷ put_pipeline p rest)

  pub put_command : Command → List ℕ → List ℕ
  put_command (plain rs args) rest = put_redirs rs (put_args args rest)
  put_command (block l rs) rest = 40 ∷ 32 ∷ put_line l (41 ∷ 32 ∷ put_redirs rs rest)

-- The command that each stands for.
unfoldable pub with_redirs : List Redir → Cmd → Cmd
with_redirs [] c = c
with_redirs (from f ∷ rs) c = with_redirs rs (redir_cmd c f 0 0)
with_redirs (to f ∷ rs) c = with_redirs rs (redir_cmd c f 513 1)
with_redirs (onto f ∷ rs) c = with_redirs rs (redir_cmd c f 513 1)

unfoldable pub with_args : List Arg → Cmd → Cmd
unfolding with_redirs
with_args [] c = c
with_args (a ∷ args) c = with_args args (with_redirs a.redirs (add_arg a.word c))

unfoldable pub with_backs : ℕ → Cmd → Cmd
with_backs zero c = c
with_backs (suc n) c = with_backs n (back_cmd c)

unfoldable mutual
  unfolding with_args with_backs

  pub line_cmd : Line → Cmd
  line_cmd (last p n) = with_backs n (pipeline_cmd p)
  line_cmd (and_then p n l) = list_cmd (with_backs n (pipeline_cmd p)) (line_cmd l)

  pub pipeline_cmd : Pipeline → Cmd
  pipeline_cmd (single c) = command_cmd c
  pipeline_cmd (piped c p) = pipe_cmd (command_cmd c) (pipeline_cmd p)

  pub command_cmd : Command → Cmd
  command_cmd (plain rs args) = with_args args (with_redirs rs (exec_cmd []))
  command_cmd (block l rs) = with_redirs rs (line_cmd l)

-- A word has a byte, and neither white space nor a symbol.
unfoldable pub AllPlain : List ℕ → Type 0
AllPlain [] = Unit
AllPlain (c ∷ w) = ((strchr whitespace c || strchr symbols c) ≡ false) × AllPlain w

unfoldable pub IsWord : List ℕ → Type 0
unfolding AllPlain
IsWord [] = ⊥
IsWord (c ∷ w) = AllPlain (c ∷ w)

unfoldable pub AreRedirs : List Redir → Type 0
unfolding IsWord
AreRedirs [] = Unit
AreRedirs (from f ∷ rs) = IsWord f × AreRedirs rs
AreRedirs (to f ∷ rs) = IsWord f × AreRedirs rs
AreRedirs (onto f ∷ rs) = IsWord f × AreRedirs rs

unfoldable pub AreArgs : List Arg → Type 0
unfolding AreRedirs
AreArgs [] = Unit
AreArgs (a ∷ args) = IsWord a.word × AreRedirs a.redirs × AreArgs args

-- All words are words, and no command has more than nine arguments.
unfoldable mutual
  unfolding AreArgs

  pub IsLine : Line → Type 0
  IsLine (last p n) = IsPipeline p
  IsLine (and_then p n l) = IsPipeline p × IsLine l

  pub IsPipeline : Pipeline → Type 0
  IsPipeline (single c) = IsCommand c
  IsPipeline (piped c p) = IsCommand c × IsPipeline p

  pub IsCommand : Command → Type 0
  IsCommand (plain rs args) = AreRedirs rs × AreArgs args × (length args ≤ 9)
  IsCommand (block l rs) = IsLine l × AreRedirs rs
