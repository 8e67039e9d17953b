-- ===== src/Shell.antt =====
-- user/sh.c: the parser of the shell. A pointer into the command line is its address, `m` the
-- bytes of the memory, and `es` the address of the NUL that ends the line. malloc is taken to return
-- a block, as the code does not test its result.
pub mod Tokens
pub mod Parse
pub mod Grammar
pub mod Words
use snu_os.Base.{
  ℕ, zero, suc, ◌+◌, ◌-◌, ◌*◌, ◌<◌, ◌≤◌, ◌≡◌, Bool, true, false, not, Option, none, some, ◌&&◌,
  ◌||◌, List, [], ◌∷◌, ◌++◌, ltb, ◌==◌, if◌then◌else◌, update,
}

abbrev pub Memory : Type 0
Memory = ℕ → ℕ

-- O_RDONLY, O_WRONLY, O_CREATE and O_TRUNC of kernel/fcntl.h
abbrev pub rdonly : ℕ
rdonly = 0

abbrev pub wronly : ℕ
wronly = 1

abbrev pub creat : ℕ
creat = 0x200

abbrev pub trunc : ℕ
trunc = 0x400

-- MAXARGS
abbrev pub max_args : ℕ
max_args = 10

abbrev pub whitespace : List ℕ
whitespace = 32 ∷ 9 ∷ 13 ∷ 10 ∷ 11 ∷ []

abbrev pub symbols : List ℕ
symbols = 60 ∷ 124 ∷ 62 ∷ 38 ∷ 59 ∷ 40 ∷ 41 ∷ []

-- strchr of user/ulib.c, on the bytes of a string before its NUL: whether it finds `c`
unfoldable pub strchr : List ℕ → ℕ → Bool
strchr [] c = false
strchr (s ∷ ss) c = s == c || strchr ss c

-- strlen of user/ulib.c from `s[n]` on; `none` when the fuel runs out
unfoldable pub strlen : ℕ → Memory → ℕ → ℕ → Option ℕ
strlen zero m s n = none
strlen (suc f) m s n = elim (m (s + n) == 0) [ true ↦ some n | false ↦ strlen f m s (n + 1) ]

-- a parsed command; a word is the addresses of its first byte and of the byte behind it
pub data Cmd : Type 0 where
  exec : List (ℕ × ℕ) → Cmd
  redir : Cmd → ℕ → ℕ → ℕ → ℕ → Cmd
  pipe : Cmd → Cmd → Cmd
  list : Cmd → Cmd → Cmd
  back : Cmd → Cmd

-- what the code gives to panic, which prints it and exits
pub data Message : Type 0 where
  missing_file : Message
  parse_block : Message
  missing_paren : Message
  syntax : Message
  too_many_args : Message

pub data Result {ℓ} (A : Type ℓ) : Type ℓ where
  ok : A → Result A
  panic : Message → Result A
  out_of_fuel : Result A

infixl 5 ◌>>=◌
abbrev pub ◌>>=◌ {ℓ κ} : {A : Type ℓ} {B : Type κ} → Result A → (A → Result B) → Result B
ok a >>= f = f a
panic e >>= f = panic e
out_of_fuel >>= f = out_of_fuel

-- `while(s < es && test(*s)) s++;`, with `k` bytes before `es`
unfoldable pub scan : (ℕ → Bool) → Memory → ℕ → ℕ → ℕ
scan test m zero s = s
scan test m (suc k) s = elim (test (m s)) [ true ↦ scan test m k (s + 1) | false ↦ s ]

abbrev pub is_blank : ℕ → Bool
is_blank c = strchr whitespace c

abbrev pub is_word : ℕ → Bool
is_word c = not (strchr whitespace c) && not (strchr symbols c)

-- the cases of gettoken that take one byte
abbrev pub is_single : ℕ → Bool
is_single c = strchr (124 ∷ 40 ∷ 41 ∷ 59 ∷ 38 ∷ 60 ∷ []) c

-- what gettoken returns, `*q`, `*eq` and `*ps` behind it
pub record Token : Type 0 where
  tok : ℕ
  q : ℕ
  eq : ℕ
  next : ℕ

-- the loops of gettoken and peek over blanks
unfoldable pub skip : Memory → ℕ → ℕ → ℕ
skip m es s = scan is_blank m (es - s) s

-- the switch of gettoken at `s`: `ret` and `*eq`
unfoldable pub take_token : Memory → ℕ → ℕ → ℕ × ℕ
take_token m es s =
    if m s == 0
    then (0, s)
    else if is_single (m s)
    then (m s, s + 1)
    else if m s == 62
    then if m (s + 1) == 62 then (43, s + 2) else (62, s + 1)
    else (97, scan is_word m (es - s) s)

unfoldable pub gettoken : Memory → ℕ → ℕ → Token
gettoken m es s =
    let start = skip m es s in
    let got = take_token m es start in
    record { tok = got.0; q = start; eq = got.1; next = skip m es got.1 }

-- what peek returns; it moves `*ps` to `skip m es s`
unfoldable pub peek : Memory → ℕ → List ℕ → ℕ → Bool
peek m es toks s = not (m (skip m es s) == 0) && strchr toks (m (skip m es s))

-- the switch of parseredirs
abbrev pub redirect : ℕ → Cmd → ℕ → ℕ → Cmd
redirect tok cmd q eq =
    if tok == 60
    then redir cmd q eq rdonly 0
    else if tok == 62
    then redir cmd q eq (wronly + creat + trunc) 1
    else if tok == 43
    then redir cmd q eq (wronly + creat) 1
    else cmd

unfoldable pub parseredirs : ℕ → Memory → ℕ → Cmd → ℕ → Result (Cmd × ℕ)
parseredirs zero m es cmd s = out_of_fuel
parseredirs (suc f) m es cmd s = elim (peek m es (60 ∷ 62 ∷ []) s) [
  | false ↦ ok (cmd, skip m es s)
  | true ↦
      let op = gettoken m es (skip m es s) in
      let file = gettoken m es op.next in
      elim (file.tok == 97) [
        | false ↦ panic missing_file
        | true ↦ parseredirs f m es (redirect op.tok cmd file.q file.eq) file.next
      ]
]

-- `cmd->argv[argc] = q; cmd->eargv[argc] = eq;`, where `cmd` is the execcmd below the redirections
-- of `ret`
abbrev pub add_arg : Cmd → ℕ × ℕ → Cmd
add_arg (exec args) word = exec (args ++ (word ∷ []))
add_arg (redir cmd q eq mode fd) word = redir (add_arg cmd word) q eq mode fd
add_arg (pipe left right) word = pipe left right
add_arg (list left right) word = list left right
add_arg (back cmd) word = back cmd

-- the loop of parseexec
unfoldable pub parse_args : ℕ → Memory → ℕ → Cmd → ℕ → ℕ → Result (Cmd × ℕ)
parse_args zero m es ret argc s = out_of_fuel
parse_args (suc f) m es ret argc s = elim (peek m es (124 ∷ 41 ∷ 38 ∷ 59 ∷ []) s) [
  | true ↦ ok (ret, skip m es s)
  | false ↦
      let word = gettoken m es (skip m es s) in
      elim (word.tok == 0) [
        | true ↦ ok (ret, word.next)
        | false ↦ elim (word.tok == 97) [
          | false ↦ panic syntax
          | true ↦ elim (ltb (argc + 1) max_args) [
            | false ↦ panic too_many_args
            | true ↦ parseredirs f m es (add_arg ret (word.q, word.eq)) word.next >>= λ (cmd, rest).
                parse_args f m es cmd (argc + 1) rest
          ]
        ]
      ]
]

-- the loop of parseline
unfoldable pub parse_backs : ℕ → Memory → ℕ → Cmd → ℕ → Result (Cmd × ℕ)
parse_backs zero m es cmd s = out_of_fuel
parse_backs (suc f) m es cmd s = elim (peek m es (38 ∷ []) s) [
  | false ↦ ok (cmd, skip m es s)
  | true ↦ parse_backs f m es (back cmd) (gettoken m es (skip m es s)).next
]

unfoldable mutual
  pub parseline : ℕ → Memory → ℕ → ℕ → Result (Cmd × ℕ)
  parseline zero m es s = out_of_fuel
  parseline (suc f) m es s = parsepipe f m es s >>= λ (first, after).
      parse_backs f m es first after >>= λ (cmd, rest). elim (peek m es (59 ∷ []) rest) [
        | false ↦ ok (cmd, skip m es rest)
        | true ↦ parseline f m es (gettoken m es (skip m es rest)).next >>= λ (right, end).
            ok (list cmd right, end)
      ]

  pub parsepipe : ℕ → Memory → ℕ → ℕ → Result (Cmd × ℕ)
  parsepipe zero m es s = out_of_fuel
  parsepipe (suc f) m es s = parseexec f m es s >>= λ (cmd, rest).
      elim (peek m es (124 ∷ []) rest) [
        | false ↦ ok (cmd, skip m es rest)
        | true ↦ parsepipe f m es (gettoken m es (skip m es rest)).next >>= λ (right, end).
            ok (pipe cmd right, end)
      ]

  pub parseblock : ℕ → Memory → ℕ → ℕ → Result (Cmd × ℕ)
  parseblock zero m es s = out_of_fuel
  parseblock (suc f) m es s = elim (peek m es (40 ∷ []) s) [
    | false ↦ panic parse_block
    | true ↦ parseline f m es (gettoken m es (skip m es s)).next >>= λ (cmd, rest).
        elim (peek m es (41 ∷ []) rest) [
          | false ↦ panic missing_paren
          | true ↦ parseredirs f m es cmd (gettoken m es (skip m es rest)).next
        ]
  ]

  pub parseexec : ℕ → Memory → ℕ → ℕ → Result (Cmd × ℕ)
  parseexec zero m es s = out_of_fuel
  parseexec (suc f) m es s = elim (peek m es (40 ∷ []) s) [
    | true ↦ parseblock f m es (skip m es s)
    | false ↦
        parseredirs f m es (exec []) (skip m es s) >>= λ (ret, rest). parse_args f m es ret 0 rest
  ]

-- `*ecmd->eargv[i] = 0` for each argument
unfoldable pub terminate_args : List (ℕ × ℕ) → Memory → Memory
terminate_args [] m = m
terminate_args (word ∷ words) m = terminate_args words (update m word.1 0)

unfoldable pub nulterminate : Cmd → Memory → Memory
nulterminate (exec args) m = terminate_args args m
nulterminate (redir cmd q eq mode fd) m = update (nulterminate cmd m) eq 0
nulterminate (pipe left right) m = nulterminate right (nulterminate left m)
nulterminate (list left right) m = nulterminate right (nulterminate left m)
nulterminate (back cmd) m = nulterminate cmd m

-- parsecmd from `es` on: the command and the memory that it is left in
unfoldable pub parse_to : ℕ → Memory → ℕ → ℕ → Result (Cmd × Memory)
parse_to fuel m es s = parseline fuel m es s >>= λ (cmd, rest).
    if skip m es rest == es then ok (cmd, nulterminate cmd m) else panic syntax

unfoldable pub parsecmd : ℕ → Memory → ℕ → Result (Cmd × Memory)
parsecmd fuel m s = elim (strlen fuel m s 0) [
  | none ↦ out_of_fuel
  | some n ↦ parse_to fuel m (s + n) s
]
