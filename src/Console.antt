-- ===== src/Console.antt =====
-- The input of kernel/console.c: the ring that consoleintr edits and fills and consoleread empties,
-- under `cons.lock`.
pub mod Input
use snu_os.Base.{
  ℕ, zero, suc, ◌+◌, ◌-◌, ◌%◌, Bool, true, false, not, ◌&&◌, ◌||◌, List, [], ◌∷◌, ◌++◌, ltb, ◌==◌,
  if◌then◌else◌, update,
}
use snu_os.Base.Words.{add32, sub32}

abbrev pub input_buf_size : ℕ
input_buf_size = 128

abbrev pub backspace : ℕ
backspace = 0x100

abbrev pub newline : ℕ
newline = 10

-- C('D'), C('H'), C('P') and C('U')
abbrev pub ctrl_d : ℕ
ctrl_d = 4

abbrev pub ctrl_h : ℕ
ctrl_h = 8

abbrev pub ctrl_p : ℕ
ctrl_p = 16

abbrev pub ctrl_u : ℕ
ctrl_u = 21

-- `cons`, with the bytes that went to the uart in `echo`, the newest first.
pub record Console : Type 0 where
  pub buf : ℕ → ℕ
  pub r : ℕ
  pub w : ℕ
  pub e : ℕ
  pub echo : List ℕ

unfoldable pub consputc : ℕ → Console → Console
consputc c s = record s { echo = if c == backspace then 8 ∷ 32 ∷ 8 ∷ s.echo else c ∷ s.echo }

-- The loop that kills a line, `k` rounds at most.
unfoldable pub kill_line : ℕ → Console → Console
unfolding consputc
kill_line zero s = s
kill_line (suc k) s =
    let rest = kill_line k (consputc backspace (record s { e = sub32 s.e 1 })) in
    if not (s.e == s.w) && not (s.buf (sub32 s.e 1 % input_buf_size) == newline) then rest else s

unfoldable pub erase : Console → Console
unfolding consputc
erase s = if s.e == s.w then s else consputc backspace (record s { e = sub32 s.e 1 })

-- the character as it is stored
abbrev pub stored : ℕ → ℕ
stored c = if c == 13 then newline else c

-- where a line, or the space, ends
abbrev pub ends_line : ℕ → Console → Bool
ends_line c s = c == newline || c == ctrl_d || sub32 s.e s.r == input_buf_size

unfoldable pub append : ℕ → Console → Console
unfolding consputc
append c s =
    let echoed = consputc c s in
    let longer = record echoed { buf = update s.buf (s.e % input_buf_size) c; e = add32 s.e 1 } in
    record longer { w = if ends_line c longer then longer.e else longer.w }

-- consoleintr; the loop that kills a line has at most one round for each character of it.
unfoldable pub consoleintr : ℕ → Console → Console
unfolding kill_line erase append
consoleintr c s =
    if c == ctrl_p
    then s
    else if c == ctrl_u
    then kill_line (sub32 s.e s.w) s
    else if c == ctrl_h || c == 127
    then erase s
    else if not (c == 0) && ltb (sub32 s.e s.r) input_buf_size
    then append (stored c) s
    else s

pub data ReadEnd : Type 0 where
  got : List ℕ → ReadEnd
  refused : ReadEnd
  waiting : List ℕ → ReadEnd

-- The loop of consoleread: `n` bytes to go, `out` those copied. `dst` is whether either_copyout of a
-- byte succeeds, and `killed` what killed() answers. `waiting` sleeps, with `out` copied.
unfoldable pub consoleread_from : (ℕ → Bool) → Bool → ℕ → ℕ → List ℕ → Console → ReadEnd × Console
consoleread_from dst killed target zero out s = (got out, s)
consoleread_from dst killed target (suc n) out s =
    let c = s.buf (s.r % input_buf_size) in
    let taken = record s { r = add32 s.r 1 } in
    let rest = consoleread_from dst killed target n (out ++ (c ∷ [])) taken in
    if s.r == s.w
    then (if killed then refused else waiting out, s)
    else if c == ctrl_d
    then (got out, if ltb (suc n) target then record taken { r = sub32 taken.r 1 } else taken)
    else if not (dst (target - suc n))
    then (got out, taken)
    else if c == newline
    then (got (out ++ (c ∷ [])), taken)
    else rest

unfoldable pub consoleread : (ℕ → Bool) → Bool → ℕ → Console → ReadEnd × Console
unfolding consoleread_from
consoleread dst killed n s = consoleread_from dst killed n n [] s
