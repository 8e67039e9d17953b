-- ===== src/Examples/Programs.antt =====
-- user/grep.c, kernel/console.c and kernel/file.c at small inputs.
use snu_os.Base.{◌≡◌, refl, ◌↔◌, true, false, [], ◌∷◌, arith, ◌==◌, if◌then◌else◌}
use snu_os.Files.{Ftable, fd_none}
use snu_os.Grep.{match}
use snu_os.Grep.Matches.{Matches, match_iff}
use snu_os.Console.{Console, consoleintr, consoleread_from}
use snu_os.Console.Input.{IsValid, Keeps, consoleintr-Keeps, Read, consoleread_from-Read}

-- the pattern `b*d` in the text "abbd"
match_iff_example :
    (match (98 ∷ 42 ∷ 100 ∷ []) (97 ∷ 98 ∷ 98 ∷ 100 ∷ []) ≡ true)
    ↔ Matches (98 ∷ 42 ∷ 100 ∷ []) (97 ∷ 98 ∷ 98 ∷ 100 ∷ [])
match_iff_example = match_iff (98 ∷ 42 ∷ 100 ∷ []) (97 ∷ 98 ∷ 98 ∷ 100 ∷ [])

match_finds : match (98 ∷ 42 ∷ 100 ∷ []) (97 ∷ 98 ∷ 98 ∷ 100 ∷ []) ≡ true
unfolding match
match_finds = refl

-- A line of one character, and one more character that is edited.
abbrev typed : Console
typed = record { buf = λ i. if i == 1 then 10 else 97; r = 0; w = 2; e = 3; echo = [] }

typed-IsValid : IsValid typed
typed-IsValid = record {
  words = (omega arith, omega arith, omega arith);
  order = omega arith;
  fits = omega arith;
}

consoleintr-Keeps_example : Keeps typed (consoleintr 21 typed)
consoleintr-Keeps_example = consoleintr-Keeps 21 typed typed-IsValid

consoleread_from-Read_example : Read typed (consoleread_from (λ _. true) false 9 9 [] typed).1
consoleread_from-Read_example = consoleread_from-Read (λ _. true) false 9 9 [] typed typed-IsValid

abbrev no_files : Ftable
no_files = λ _. record {
  type_of = fd_none;
  ref = 0;
  readable = false;
  writable = false;
  pipe = 0;
  ip = 0;
  off = 0;
  major = 0;
}
