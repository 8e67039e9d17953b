-- ===== src/Examples/Lines.antt =====
-- The parser of user/sh.c on a line.
use snu_os.Base.{◌≡◌, refl, [], ◌∷◌, arith, ◌==◌, ltb, if◌then◌else◌}
use snu_os.Shell.{
  Memory, Cmd, exec, redir, pipe, back, Result, ok, panic, out_of_fuel, strchr, strlen, scan, skip,
  take_token, gettoken, peek, parseredirs, parse_args, parse_backs, parseline, parsepipe, parseexec,
  parseblock, terminate_args, nulterminate, parse_to, parsecmd,
}
use snu_os.Shell.Words.{IsLine, Parsed, parsecmd-Parsed}

-- The line "ls|wc >f", one letter for each other byte.
abbrev line : Memory
line i =
    if i == 2 then 124 else if i == 5 then 32 else if i == 6 then 62 else if ltb i 8 then 97 else 0

line-IsLine : IsLine line 0 8
line-IsLine = ((λ i l u. ground arith), refl)

-- the parser's command, or an empty one
abbrev command_of : Result (Cmd × Memory) → Cmd
command_of (ok (cmd, m)) = cmd
command_of (panic message) = back (pipe (exec []) (exec []))
command_of out_of_fuel = back (exec [])

piped :
    command_of (parsecmd 38 line 0)
    ≡ pipe (exec ((0, 2) ∷ [])) (redir (exec ((3, 5) ∷ [])) 7 8 0x601 1)
unfolding parsecmd strlen parse_to parseline parsepipe parseexec parseblock parse_backs parse_args
    parseredirs peek gettoken take_token skip scan strchr terminate_args nulterminate
piped = refl

parsecmd-Parsed_example : Parsed line 0 8 (parsecmd 38 line 0)
parsecmd-Parsed_example = parsecmd-Parsed 38 line 0 8 line-IsLine (omega arith)
