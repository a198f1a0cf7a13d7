-- ===== src/Shell/Parse/Tests.antt =====
-- Runs of the parser of the shell, on `ls < f | wc & ; ( a & ) > g`.
use os163_assi.Prelude.{◌≡◌, [], ◌∷◌, arith, refl}
use os163_assi.Shell.{
  strchr, whitespace, symbols, Cmd, exec_cmd, redir_cmd, pipe_cmd, list_cmd, back_cmd,
}
use os163_assi.Shell.Parse.{parsed, parsecmd, syntax}
use os163_assi.Shell.Parse.Total.{Fits, parsecmd-Fits}
use os163_assi.Shell.Parse.Print.{
  from, to, Line, last, and_then, single, piped, plain, block, put_line, line_cmd, IsLine, IsWord,
  AllPlain, AreRedirs, AreArgs,
}
use os163_assi.Shell.Parse.Back.{parsecmd-put_line}

abbrev ls_wc : Line
ls_wc =
    and_then
      (piped (plain [] (record { word = 108 ∷ 115 ∷ []; redirs = from (102 ∷ []) ∷ [] } ∷ []))
        (single (plain [] (record { word = 119 ∷ 99 ∷ []; redirs = [] } ∷ []))))
      1
      (last
        (single (
          block (last (single (plain [] (record { word = 97 ∷ []; redirs = [] } ∷ []))) 1)
            (to (103 ∷ []) ∷ [])))
        0)

ls_wc-IsLine : IsLine ls_wc
unfolding IsLine AreRedirs AreArgs IsWord AllPlain strchr
ls_wc-IsLine = (
  (
    (tt, ((refl, (refl, tt)), ((refl, tt), tt), tt), omega arith),
    (tt, ((refl, (refl, tt)), tt, tt), omega arith),
  ),
  ((tt, ((refl, tt), tt, tt), omega arith), ((refl, tt), tt)),
)

parsecmd-Fits_example : Fits 0 (parsecmd (put_line ls_wc []))
parsecmd-Fits_example = parsecmd-Fits (put_line ls_wc [])

parsecmd-put_line_example : parsecmd (put_line ls_wc []) ≡ parsed (line_cmd ls_wc) []
parsecmd-put_line_example = parsecmd-put_line ls_wc ls_wc-IsLine

-- `a<b;` needs no blanks, and its `;` has an empty command behind it.
close_line :
    parsecmd (97 ∷ 60 ∷ 98 ∷ 59 ∷ [])
    ≡ parsed (list_cmd (redir_cmd (exec_cmd ((97 ∷ []) ∷ [])) (98 ∷ []) 0 0) (exec_cmd [])) []
unfolding parsecmd os163_assi.Shell.peek os163_assi.Shell.skip_white os163_assi.Shell.gettoken
    os163_assi.Shell.add_arg
close_line = refl

open_paren : parsecmd (40 ∷ 97 ∷ []) ≡ syntax
unfolding parsecmd os163_assi.Shell.peek os163_assi.Shell.skip_white os163_assi.Shell.gettoken
open_paren = refl
