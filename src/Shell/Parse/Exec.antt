-- ===== src/Shell/Parse/Exec.antt =====
-- sh.c: a call of `parseexec` or `parseblock`, when what it calls succeeds.
use os163_assi.Prelude.{ℕ, suc, ◌≡◌, true, false, ◌||◌, List, [], ◌∷◌, ◌==◌, arith, refl, ◌∙◌}
use os163_assi.Shell.{strchr, whitespace, skip_white, gettoken, peek, Cmd}
use os163_assi.Shell.Parse.{Parsed, parsed, simple, closed, parseline, parseexec, parseblock}
use os163_assi.Shell.Parse.Print.{
  Redir, from, to, onto, Arg, put_text, put_redirs, put_args, with_redirs, IsWord, AreRedirs,
  AreArgs,
}
use os163_assi.Shell.Parse.Words.{
  Tight, begins, after_command, gettoken-symbol, Tight-black, begins-Tight, peek-Tight,
  peek_nothing, no_redir,
}
use os163_assi.Shell.Parse.Redirs.{parseredirs-put_redirs}

-- The symbols are no white space, and `gettoken` takes one with the space behind it.
unfoldable pub IsSymbol : ℕ → Type 0
IsSymbol c = (strchr whitespace c ≡ false) × (strchr (124 ∷ 40 ∷ 41 ∷ 59 ∷ 38 ∷ 60 ∷ []) c ≡ true)

pub symbols_are : IsSymbol 124 × IsSymbol 40 × IsSymbol 41 × IsSymbol 59 × IsSymbol 38
unfolding strchr IsSymbol
symbols_are = ((refl, refl), (refl, refl), (refl, refl), (refl, refl), (refl, refl))

pub symbol_rest :
    (c : ℕ) (s : List ℕ) → IsSymbol c → Tight s → (gettoken (skip_white (c ∷ 32 ∷ s))).rest ≡ s
unfolding IsSymbol
symbol_rest c s (black, symbol) tight =
    rw (Tight-black c (32 ∷ s) black) (rw (gettoken-symbol c s symbol black tight) refl)

pub peek_symbol : (c : ℕ) (s : List ℕ) → IsSymbol c → peek (c ∷ []) (c ∷ s) ≡ true
unfolding IsSymbol strchr
peek_symbol c s (black, symbol) = peek-Tight (c ∷ []) c s black ∙ ground arith

-- In front of a word there is no parenthesis, and none in front of redirections and arguments.
paren_word : (w rest : List ℕ) → IsWord w → peek (40 ∷ []) (put_text w rest) ≡ false
unfolding IsWord strchr
paren_word [] rest word = absurd word
paren_word (c ∷ w) rest (plain, plains) =
    peek-Tight (40 ∷ []) c (put_text w rest) (ground arith) ∙ ground arith

paren_after : (s : List ℕ) → begins after_command s ≡ true → peek (40 ∷ []) s ≡ false
unfolding begins strchr
paren_after [] h = peek_nothing (40 ∷ [])
paren_after (c ∷ s) h = peek-Tight (40 ∷ []) c s (ground arith) ∙ ground arith

paren_args :
    (args : List Arg) (rest : List ℕ)
    → AreArgs args
    → begins after_command rest ≡ true
    → peek (40 ∷ []) (put_args args rest) ≡ false
unfolding put_args AreArgs
paren_args [] rest good h = paren_after rest h
paren_args (a ∷ args) rest (word, redirs, good) h = paren_word a.word _ word

paren_redir :
    (c : ℕ) (s : List ℕ) → ((c == 60) || (c == 62)) ≡ true → peek (40 ∷ []) (c ∷ s) ≡ false
unfolding strchr
paren_redir c s h = peek-Tight (40 ∷ []) c s (ground arith) ∙ ground arith

pub no_paren :
    (rs : List Redir) (rest : List ℕ)
    → peek (40 ∷ []) rest ≡ false
    → peek (40 ∷ []) (put_redirs rs rest) ≡ false
unfolding put_redirs
no_paren [] rest h = h
no_paren (from f ∷ rs) rest h = paren_redir 60 _ refl
no_paren (to f ∷ rs) rest h = paren_redir 62 _ refl
no_paren (onto f ∷ rs) rest h = paren_redir 62 _ refl

-- `parseexec`
pub exec_plain :
    (fuel : ℕ) (rs : List Redir) (args : List Arg) (rest : List ℕ) (r : Parsed)
    → AreArgs args
    → begins after_command rest ≡ true
    → Tight (put_redirs rs (put_args args rest))
    → simple (put_redirs rs (put_args args rest)) ≡ r
    → parseexec (suc fuel) (put_redirs rs (put_args args rest)) ≡ r
unfolding parseexec
exec_plain fuel rs args rest r good h tight e =
    rw (no_paren rs (put_args args rest) (paren_args args rest good h), tight, parseexec) e

closed-put_redirs :
    (c : Cmd) (rs : List Redir) (rest : List ℕ)
    → AreRedirs rs
    → Tight (put_redirs rs rest)
    → begins after_command rest ≡ true
    → closed c (41 ∷ 32 ∷ put_redirs rs rest) ≡ parsed (with_redirs rs c) rest
unfolding closed
closed-put_redirs c rs rest redirs tight h =
    rw
      (
        peek_symbol 41 (32 ∷ put_redirs rs rest) symbols_are.2,
        symbol_rest 41 (put_redirs rs rest) symbols_are.2 tight,
      )
      (parseredirs-put_redirs rs c rest redirs (begins-Tight rest h) (no_redir rest h))

pub exec_block :
    (fuel : ℕ) (s : List ℕ) (c : Cmd) (rs : List Redir) (rest : List ℕ)
    → AreRedirs rs
    → Tight s
    → Tight (put_redirs rs rest)
    → begins after_command rest ≡ true
    → parseline fuel s ≡ parsed c (41 ∷ 32 ∷ put_redirs rs rest)
    → parseexec (suc (suc fuel)) (40 ∷ 32 ∷ s) ≡ parsed (with_redirs rs c) rest
unfolding parseexec IsSymbol
exec_block fuel s c rs rest redirs tight tight' h e =
    let open_tight : Tight (40 ∷ 32 ∷ s) = Tight-black 40 (32 ∷ s) symbols_are.1.0 in
    let seen = peek_symbol 40 (32 ∷ s) symbols_are.1 in
    rw (seen, open_tight, parseexec)
      (rw
        (
          seen,
          symbol_rest 40 s symbols_are.1 tight,
          e,
          closed-put_redirs c rs rest redirs tight' h,
          parseblock,
        )
        refl)
