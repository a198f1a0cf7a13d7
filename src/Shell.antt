-- ===== src/Shell.antt =====
-- sh.c: the parser of the shell. A line is the list of its bytes up to the nul; a pointer into it is
-- what is left of it, and a word from `q` to `eq` is the list of its bytes, which `nulterminate` cuts
-- off in place.
pub mod Parse
pub mod Tokens
use os163_assi.Prelude.{
  ℕ, zero, suc, Bool, true, false, not, ◌&&◌, ◌||◌, List, [], ◌∷◌, ◌++◌, if◌then◌else◌, ◌==◌,
}

-- `strchr(toks, c)`
pub strchr : List ℕ → ℕ → Bool
strchr [] c = false
strchr (t ∷ toks) c = if t == c then true else strchr toks c

-- `" \t\r\n\v"` and `"<|>&;()"`
abbrev pub whitespace : List ℕ
whitespace = 32 ∷ 9 ∷ 13 ∷ 10 ∷ 11 ∷ []

abbrev pub symbols : List ℕ
symbols = 60 ∷ 124 ∷ 62 ∷ 38 ∷ 59 ∷ 40 ∷ 41 ∷ []

-- `while(s < es && strchr(whitespace, *s)) s++;`
pub skip_white : List ℕ → List ℕ
unfolding strchr
skip_white [] = []
skip_white (c ∷ s) = let rest = skip_white s in if strchr whitespace c then rest else c ∷ s

-- `while(s < es && !strchr(whitespace, *s) && !strchr(symbols, *s)) s++;`, with what was passed
pub span_word : List ℕ → List ℕ × List ℕ
unfolding strchr
span_word [] = ([], [])
span_word (c ∷ s) =
    let further = span_word s in
    if strchr whitespace c || strchr symbols c then ([], c ∷ s) else (c ∷ further.0, further.1)

-- What `gettoken` returns: the kind of the token, its bytes from `q` to `eq`, and what is left.
pub record Token : Type 0 where
  pub kind : ℕ
  pub text : List ℕ
  pub rest : List ℕ

-- `'a'` stands for a word and `'+'` for `>>`.
abbrev pub word_kind : ℕ
word_kind = 97

abbrev pub append_kind : ℕ
append_kind = 43

-- A token that begins with `>`.
greater : List ℕ → Token
unfolding skip_white
greater [] = record { kind = 62; text = 62 ∷ []; rest = [] }
greater (c ∷ s) =
    if c == 62
    then record { kind = append_kind; text = 62 ∷ 62 ∷ []; rest = skip_white s }
    else record { kind = 62; text = 62 ∷ []; rest = skip_white (c ∷ s) }

token_at : List ℕ → Token
unfolding strchr greater span_word
token_at [] = record { kind = 0; text = []; rest = [] }
token_at (c ∷ s) =
    if strchr (124 ∷ 40 ∷ 41 ∷ 59 ∷ 38 ∷ 60 ∷ []) c
    then record { kind = c; text = c ∷ []; rest = skip_white s }
    else if c == 62
    then greater s
    else let word = span_word (c ∷ s) in
      record { kind = word_kind; text = word.0; rest = skip_white word.1 }

-- `gettoken`
pub gettoken : List ℕ → Token
unfolding token_at
gettoken s = token_at (skip_white s)

-- The result of `peek`, which also passes over the white space.
starts : List ℕ → List ℕ → Bool
unfolding strchr
starts toks [] = false
starts toks (c ∷ s) = strchr toks c

pub peek : List ℕ → List ℕ → Bool
unfolding starts
peek toks s = starts toks (skip_white s)

-- `struct cmd` with its kinds
pub data Cmd : Type 0 where
  exec_cmd : (argv : List (List ℕ)) → Cmd
  redir_cmd : Cmd → (file : List ℕ) → (mode fd : ℕ) → Cmd
  pipe_cmd : Cmd → Cmd → Cmd
  list_cmd : Cmd → Cmd → Cmd
  back_cmd : Cmd → Cmd

-- `cmd->argv[argc] = q`, where `ret` is the command `cmd` or redirections of it.
pub add_arg : List ℕ → Cmd → Cmd
add_arg w (exec_cmd argv) = exec_cmd (argv ++ (w ∷ []))
add_arg w (redir_cmd c file mode fd) = redir_cmd (add_arg w c) file mode fd
add_arg w (pipe_cmd l r) = pipe_cmd l r
add_arg w (list_cmd l r) = list_cmd l r
add_arg w (back_cmd c) = back_cmd c
