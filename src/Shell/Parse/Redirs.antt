-- ===== src/Shell/Parse/Redirs.antt =====
-- sh.c: `parseredirs` reads the redirections that are written.
use os163_assi.Prelude.{
  ℕ, zero, suc, ◌+◌, ◌≡◌, ◌<◌, true, false, List, [], ◌∷◌, length, length-append, arith, refl, ◌∙◌,
}
use os163_assi.Shell.{strchr, whitespace, gettoken, peek, append_kind, Cmd, redir_cmd}
use os163_assi.Shell.Parse.{parsed, redirected, redirs_loop, parseredirs}
use os163_assi.Shell.Parse.Print.{
  Redir, from, to, onto, put_text, put_redirs, with_redirs, IsWord, AreRedirs,
}
use os163_assi.Shell.Parse.Words.{
  Tight, gettoken-put_text, gettoken-symbol, gettoken-greater, gettoken-append, Tight-put_text,
  Tight-black, peek-Tight,
}

black_from : strchr whitespace 60 ≡ false
unfolding strchr
black_from = refl

black_to : strchr whitespace 62 ≡ false
unfolding strchr
black_to = refl

pub Tight-put_redirs : (rs : List Redir) (rest : List ℕ) → Tight rest → Tight (put_redirs rs rest)
unfolding put_redirs
Tight-put_redirs [] rest tight = tight
Tight-put_redirs (from f ∷ rs) rest tight = Tight-black 60 _ black_from
Tight-put_redirs (to f ∷ rs) rest tight = Tight-black 62 _ black_to
Tight-put_redirs (onto f ∷ rs) rest tight = Tight-black 62 _ black_to

-- One redirection: its symbol, and its file.
redir_round :
    (fuel : ℕ) (c : Cmd) (s f rest : List ℕ) (k : ℕ) (t : List ℕ)
    → peek (60 ∷ 62 ∷ []) s ≡ true
    → Tight s
    → gettoken s ≡ record { kind = k; text = t; rest = put_text f rest }
    → IsWord f
    → Tight rest
    → redirs_loop (suc fuel) c s ≡ redirs_loop fuel (redirected k f c) rest
unfolding redirs_loop
redir_round fuel c s f rest k t seen tight tok word tight' =
    rw (seen, tight, tok, gettoken-put_text f rest word tight', redirs_loop) refl

pub length-put_text : (w rest : List ℕ) → length (put_text w rest) ≡ length w + suc (length rest)
length-put_text w rest = length-append w (32 ∷ rest)

seen_from : (s : List ℕ) → peek (60 ∷ 62 ∷ []) (60 ∷ s) ≡ true
unfolding strchr
seen_from s = peek-Tight (60 ∷ 62 ∷ []) 60 s black_from

seen_to : (s : List ℕ) → peek (60 ∷ 62 ∷ []) (62 ∷ s) ≡ true
unfolding strchr
seen_to s = peek-Tight (60 ∷ 62 ∷ []) 62 s black_to

symbol_from : strchr (124 ∷ 40 ∷ 41 ∷ 59 ∷ 38 ∷ 60 ∷ []) 60 ≡ true
unfolding strchr
symbol_from = refl

redirs_end :
    (fuel : ℕ) (c : Cmd) (rest : List ℕ)
    → Tight rest
    → peek (60 ∷ 62 ∷ []) rest ≡ false
    → redirs_loop (suc fuel) c rest ≡ parsed c rest
unfolding redirs_loop
redirs_end fuel c rest tight end = rw (end, redirs_loop) (rw tight refl)

redirs_loop-put_redirs :
    (rs : List Redir) (fuel : ℕ) (c : Cmd) (rest : List ℕ)
    → AreRedirs rs
    → Tight rest
    → peek (60 ∷ 62 ∷ []) rest ≡ false
    → length (put_redirs rs rest) < fuel
    → redirs_loop fuel c (put_redirs rs rest) ≡ parsed (with_redirs rs c) rest
unfolding put_redirs with_redirs AreRedirs redirected
redirs_loop-put_redirs rs zero c rest good tight end lt = absurd (omega arith)
redirs_loop-put_redirs [] (suc fuel) c rest good tight end lt = redirs_end fuel c rest tight end
redirs_loop-put_redirs (from f ∷ rs) (suc fuel) c rest (word, good) tight end lt =
    let more = put_redirs rs rest in
    let tight' = Tight-put_redirs rs rest tight in
    redir_round fuel c (60 ∷ 32 ∷ put_text f more) f more 60 (60 ∷ []) (seen_from _)
      (Tight-black 60 _ black_from)
      (gettoken-symbol 60 (put_text f more) symbol_from black_from (Tight-put_text f more word))
      word tight'
    ∙ redirs_loop-put_redirs rs fuel (redir_cmd c f 0 0) rest good tight end
        (omega (arith, length-put_text f more))
redirs_loop-put_redirs (to f ∷ rs) (suc fuel) c rest (word, good) tight end lt =
    let more = put_redirs rs rest in
    let tight' = Tight-put_redirs rs rest tight in
    redir_round fuel c (62 ∷ 32 ∷ put_text f more) f more 62 (62 ∷ []) (seen_to _)
      (Tight-black 62 _ black_to) (gettoken-greater (put_text f more) (Tight-put_text f more word))
      word tight'
    ∙ redirs_loop-put_redirs rs fuel (redir_cmd c f 513 1) rest good tight end
        (omega (arith, length-put_text f more))
redirs_loop-put_redirs (onto f ∷ rs) (suc fuel) c rest (word, good) tight end lt =
    let more = put_redirs rs rest in
    let tight' = Tight-put_redirs rs rest tight in
    redir_round fuel c (62 ∷ 62 ∷ 32 ∷ put_text f more) f more append_kind (62 ∷ 62 ∷ [])
      (seen_to _) (Tight-black 62 _ black_to)
      (gettoken-append (put_text f more) (Tight-put_text f more word)) word tight'
    ∙ redirs_loop-put_redirs rs fuel (redir_cmd c f 513 1) rest good tight end
        (omega (arith, length-put_text f more))

pub parseredirs-put_redirs :
    (rs : List Redir) (c : Cmd) (rest : List ℕ)
    → AreRedirs rs
    → Tight rest
    → peek (60 ∷ 62 ∷ []) rest ≡ false
    → parseredirs c (put_redirs rs rest) ≡ parsed (with_redirs rs c) rest
unfolding parseredirs
parseredirs-put_redirs rs c rest good tight end =
    redirs_loop-put_redirs rs (suc (length (put_redirs rs rest))) c rest good tight end
      (omega arith)
