-- ===== src/Shell/Parse/Words.antt =====
-- sh.c: the tokens of a line that is written with a space behind each.
use os163_assi.Prelude.{
  ℕ, ◌≡◌, Bool, true, false, ◌||◌, List, [], ◌∷◌, ◌++◌, ◌==◌, arith, refl, ◌∙◌,
}
use os163_assi.Shell.{
  strchr, whitespace, symbols, skip_white, span_word, greater, token_at, gettoken, peek, word_kind,
  append_kind,
}
use os163_assi.Shell.Parse.Print.{AllPlain, IsWord, put_text}

-- There is no white space in front.
abbrev pub Tight : List ℕ → Type 0
Tight s = skip_white s ≡ s

-- The line ends here, or goes on with one of these symbols.
unfoldable pub begins : List ℕ → List ℕ → Bool
begins toks [] = true
begins toks (c ∷ s) = strchr toks c

span_word-AllPlain : (w rest : List ℕ) → AllPlain w → span_word (w ++ (32 ∷ rest)) ≡ (w, 32 ∷ rest)
unfolding AllPlain span_word strchr
span_word-AllPlain [] rest plain = refl
span_word-AllPlain (c ∷ w) rest (plain, plains) = rw (plain, span_word-AllPlain w rest plains) refl

word_first :
    (c : ℕ)
    → (strchr whitespace c || strchr symbols c) ≡ false
    → (strchr whitespace c ≡ false)
      × (strchr (124 ∷ 40 ∷ 41 ∷ 59 ∷ 38 ∷ 60 ∷ []) c ≡ false)
      × ((c == 62) ≡ false)
unfolding strchr
word_first c plain = (ground arith, ground arith, ground arith)

skip_space : (rest : List ℕ) → skip_white (32 ∷ rest) ≡ skip_white rest
unfolding skip_white strchr
skip_space rest = refl

word_token :
    (c : ℕ) (w rest : List ℕ)
    → (strchr whitespace c || strchr symbols c) ≡ false
    → AllPlain w
    → Tight rest
    → token_at (skip_white (c ∷ (w ++ (32 ∷ rest))))
      ≡ record { kind = word_kind; text = c ∷ w; rest = rest }
unfolding token_at skip_white span_word
word_token c w rest plain plains tight =
    let (black, other, lower) = word_first c plain in
    rw (black, other, lower, plain, span_word-AllPlain w rest plains)
      (rw (skip_space rest, tight) refl)

-- A word and the space behind it are one token.
pub gettoken-put_text :
    (w rest : List ℕ)
    → IsWord w
    → Tight rest
    → gettoken (put_text w rest) ≡ record { kind = word_kind; text = w; rest = rest }
unfolding IsWord gettoken
gettoken-put_text [] rest word tight = absurd word
gettoken-put_text (c ∷ w) rest (plain, plains) tight = word_token c w rest plain plains tight

-- The symbols of one byte, and the two that begin with `>`.
pub gettoken-symbol :
    (c : ℕ) (rest : List ℕ)
    → strchr (124 ∷ 40 ∷ 41 ∷ 59 ∷ 38 ∷ 60 ∷ []) c ≡ true
    → strchr whitespace c ≡ false
    → Tight rest
    → gettoken (c ∷ 32 ∷ rest) ≡ record { kind = c; text = c ∷ []; rest = rest }
unfolding gettoken skip_white
gettoken-symbol c rest symbol black tight = rw (black, symbol) (rw (skip_space rest, tight) refl)

pub gettoken-greater :
    (rest : List ℕ)
    → Tight rest
    → gettoken (62 ∷ 32 ∷ rest) ≡ record { kind = 62; text = 62 ∷ []; rest = rest }
unfolding gettoken skip_white strchr greater
gettoken-greater rest tight = rw tight refl

pub gettoken-append :
    (rest : List ℕ)
    → Tight rest
    → gettoken (62 ∷ 62 ∷ 32 ∷ rest)
      ≡ record { kind = append_kind; text = 62 ∷ 62 ∷ []; rest = rest }
unfolding gettoken skip_white strchr greater
gettoken-append rest tight = rw tight refl

pub Tight-put_text : (w rest : List ℕ) → IsWord w → Tight (put_text w rest)
unfolding IsWord skip_white
Tight-put_text [] rest word = absurd word
Tight-put_text (c ∷ w) rest (plain, plains) =
    let (black, other, lower) = word_first c plain in rw black refl

pub Tight-black : (c : ℕ) (rest : List ℕ) → strchr whitespace c ≡ false → Tight (c ∷ rest)
unfolding skip_white
Tight-black c rest black = rw black refl

skip_nothing : skip_white [] ≡ []
unfolding skip_white
skip_nothing = refl

-- What follows a command or a line begins with no white space.
pub begins-Tight : (rest : List ℕ) → begins (124 ∷ 41 ∷ 38 ∷ 59 ∷ []) rest ≡ true → Tight rest
unfolding begins strchr
begins-Tight [] h = skip_nothing
begins-Tight (c ∷ rest) h = Tight-black c rest (ground arith)

pub peek-Tight :
    (toks : List ℕ) (c : ℕ) (s : List ℕ)
    → strchr whitespace c ≡ false
    → peek toks (c ∷ s) ≡ strchr toks c
unfolding peek skip_white
peek-Tight toks c s black = rw black refl

-- The symbols that can stand behind a command, a pipeline, a pipeline with its `&`, and a line.
abbrev pub after_command : List ℕ
after_command = 124 ∷ 41 ∷ 38 ∷ 59 ∷ []

abbrev pub after_pipeline : List ℕ
after_pipeline = 41 ∷ 38 ∷ 59 ∷ []

abbrev pub after_ands : List ℕ
after_ands = 41 ∷ 59 ∷ []

abbrev pub after_line : List ℕ
after_line = 41 ∷ []

pub pipeline_in_command :
    (s : List ℕ) → begins after_pipeline s ≡ true → begins after_command s ≡ true
unfolding begins strchr
pipeline_in_command [] h = refl
pipeline_in_command (c ∷ s) h = ground arith

pub ands_in_pipeline : (s : List ℕ) → begins after_ands s ≡ true → begins after_pipeline s ≡ true
unfolding begins strchr
ands_in_pipeline [] h = refl
ands_in_pipeline (c ∷ s) h = ground arith

pub line_in_ands : (s : List ℕ) → begins after_line s ≡ true → begins after_ands s ≡ true
unfolding begins strchr
line_in_ands [] h = refl
line_in_ands (c ∷ s) h = ground arith

pub peek_nothing : (toks : List ℕ) → peek toks [] ≡ false
unfolding peek skip_white
peek_nothing toks = refl

pub no_redir : (s : List ℕ) → begins after_command s ≡ true → peek (60 ∷ 62 ∷ []) s ≡ false
unfolding begins strchr
no_redir [] h = peek_nothing (60 ∷ 62 ∷ [])
no_redir (c ∷ s) h = peek-Tight (60 ∷ 62 ∷ []) c s (ground arith) ∙ ground arith

pub no_bar : (s : List ℕ) → begins after_pipeline s ≡ true → peek (124 ∷ []) s ≡ false
unfolding begins strchr
no_bar [] h = peek_nothing (124 ∷ [])
no_bar (c ∷ s) h = peek-Tight (124 ∷ []) c s (ground arith) ∙ ground arith

pub no_and : (s : List ℕ) → begins after_ands s ≡ true → peek (38 ∷ []) s ≡ false
unfolding begins strchr
no_and [] h = peek_nothing (38 ∷ [])
no_and (c ∷ s) h = peek-Tight (38 ∷ []) c s (ground arith) ∙ ground arith

pub no_semicolon : (s : List ℕ) → begins after_line s ≡ true → peek (59 ∷ []) s ≡ false
unfolding begins strchr
no_semicolon [] h = peek_nothing (59 ∷ [])
no_semicolon (c ∷ s) h = peek-Tight (59 ∷ []) c s (ground arith) ∙ ground arith

pub gettoken_nothing : gettoken [] ≡ record { kind = 0; text = []; rest = [] }
unfolding gettoken skip_white
gettoken_nothing = refl

pub peek_after :
    (c : ℕ) (s : List ℕ) → begins after_command (c ∷ s) ≡ true → peek after_command (c ∷ s) ≡ true
unfolding begins strchr
peek_after c s h = peek-Tight after_command c s (ground arith) ∙ h

-- In front of a word there is neither a redirection nor the end of a command.
pub redir_word : (w rest : List ℕ) → IsWord w → peek (60 ∷ 62 ∷ []) (put_text w rest) ≡ false
unfolding IsWord strchr
redir_word [] rest word = absurd word
redir_word (c ∷ w) rest (plain, plains) =
    peek-Tight (60 ∷ 62 ∷ []) c (put_text w rest) (ground arith) ∙ ground arith

pub after_word : (w rest : List ℕ) → IsWord w → peek after_command (put_text w rest) ≡ false
unfolding IsWord strchr
after_word [] rest word = absurd word
after_word (c ∷ w) rest (plain, plains) =
    peek-Tight after_command c (put_text w rest) (ground arith) ∙ ground arith
