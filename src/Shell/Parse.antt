-- ===== src/Shell/Parse.antt =====
-- sh.c: the functions `parsecmd` to `parseexec`, by recursive descent. A call that may come back to
-- itself has fuel.
pub mod Total
pub mod Print
pub mod Words
pub mod Redirs
pub mod Args
pub mod Exec
pub mod Steps
pub mod Back
mod Tests
use os163_assi.Prelude.{
  ℕ, zero, suc, ◌+◌, ◌*◌, Bool, true, false, not, List, [], ◌∷◌, if◌then◌else◌, ◌==◌, leb, length,
}
use os163_assi.Shell.{
  Token, word_kind, append_kind, gettoken, skip_white, peek, Cmd, exec_cmd, redir_cmd, pipe_cmd,
  list_cmd, back_cmd, add_arg,
}

-- A command and what is left of the line; a panic for a syntax error; or no more fuel.
pub data Parsed : Type 0 where
  parsed : Cmd → List ℕ → Parsed
  syntax : Parsed
  starved : Parsed

abbrev pub maxargs : ℕ
maxargs = 10

-- `redircmd` with `O_RDONLY` or `O_WRONLY|O_CREATE`
redirected : ℕ → List ℕ → Cmd → Cmd
redirected kind file c = if kind == 60 then redir_cmd c file 0 0 else redir_cmd c file 513 1

redirs_loop : ℕ → Cmd → List ℕ → Parsed
unfolding redirected
redirs_loop zero c s = starved
redirs_loop (suc fuel) c s =
    let tok = gettoken (skip_white s) in
    let file = gettoken tok.rest in
    let more = redirs_loop fuel (redirected tok.kind file.text c) file.rest in
    if peek (60 ∷ 62 ∷ []) s
    then if file.kind == word_kind then more else syntax
    else parsed c (skip_white s)

-- `parseredirs`; each round takes a byte at least.
pub parseredirs : Cmd → List ℕ → Parsed
unfolding redirs_loop
parseredirs c s = redirs_loop (suc (length s)) c s

-- What `parseexec` does behind a call of `parseredirs`
then_parsed : Parsed → (Cmd → List ℕ → Parsed) → Parsed
then_parsed (parsed c s) next = next c s
then_parsed syntax next = syntax
then_parsed starved next = starved

-- The loop of `parseexec` over the arguments
args_loop : ℕ → ℕ → Cmd → List ℕ → Parsed
unfolding parseredirs then_parsed
args_loop zero argc c s = starved
args_loop (suc fuel) argc c s =
    let tok = gettoken (skip_white s) in
    let more =
      then_parsed (parseredirs (add_arg tok.text c) tok.rest) (args_loop fuel (suc argc)) in
    if peek (124 ∷ 41 ∷ 38 ∷ 59 ∷ []) s
    then parsed c (skip_white s)
    else if tok.kind == 0
    then parsed c tok.rest
    else if tok.kind == word_kind
    then if leb maxargs (suc argc) then syntax else more
    else syntax

-- `parseexec` of a command that is not in parentheses
pub simple : List ℕ → Parsed
unfolding args_loop
simple s = then_parsed (parseredirs (exec_cmd []) s) (λ c s'. args_loop (suc (length s')) 0 c s')

-- `while(peek(ps, es, "&"))` of `parseline`
pub backs_loop : ℕ → Cmd → List ℕ → Parsed
backs_loop zero c s = starved
backs_loop (suc fuel) c s =
    let more = backs_loop fuel (back_cmd c) (gettoken (skip_white s)).rest in
    if peek (38 ∷ []) s then more else parsed c (skip_white s)

-- The last part of `parseblock`
pub closed : Cmd → List ℕ → Parsed
unfolding parseredirs
closed c s = if peek (41 ∷ []) s then parseredirs c (gettoken (skip_white s)).rest else syntax

mutual
  unfolding then_parsed backs_loop closed simple

  pub parseline : ℕ → List ℕ → Parsed
  parseline zero s = starved
  parseline (suc fuel) s = then_parsed (parsepipe fuel s) λ c s1.
      then_parsed (backs_loop (suc (length s1)) c s1) λ c2 s2.
        let more =
          then_parsed (parseline fuel (gettoken (skip_white s2)).rest)
            λ r s3. parsed (list_cmd c2 r) s3 in
        if peek (59 ∷ []) s2 then more else parsed c2 (skip_white s2)

  pub parsepipe : ℕ → List ℕ → Parsed
  parsepipe zero s = starved
  parsepipe (suc fuel) s = then_parsed (parseexec fuel s) λ c s1.
      let more =
        then_parsed (parsepipe fuel (gettoken (skip_white s1)).rest)
          λ r s2. parsed (pipe_cmd c r) s2 in
      if peek (124 ∷ []) s1 then more else parsed c (skip_white s1)

  pub parseexec : ℕ → List ℕ → Parsed
  parseexec zero s = starved
  parseexec (suc fuel) s =
      let block = parseblock fuel (skip_white s) in
      if peek (40 ∷ []) s then block else simple (skip_white s)

  pub parseblock : ℕ → List ℕ → Parsed
  parseblock zero s = starved
  parseblock (suc fuel) s =
      let body = then_parsed (parseline fuel (gettoken (skip_white s)).rest) closed in
      if peek (40 ∷ []) s then body else syntax

-- `peek(&s, es, "")` and the test for leftovers
at_end : Cmd → List ℕ → Parsed
at_end c [] = parsed c []
at_end c (_ ∷ _) = syntax

finished : Cmd → List ℕ → Parsed
unfolding at_end
finished c s = at_end c (skip_white s)

-- `parsecmd`, up to `nulterminate`
pub parsecmd : List ℕ → Parsed
unfolding parseline finished
parsecmd s = then_parsed (parseline (4 * length s + 4) s) finished
