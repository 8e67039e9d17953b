-- ===== src/Printf.antt =====
-- kernel/printf.c: formatted output. What a function prints is the list of the characters that it
-- gives to consputc.
pub mod Numbers
use snu_os.Base.{
  ℕ, zero, suc, ◌+◌, ◌-◌, ◌*◌, ◌/◌, ◌%◌, ◌^◌, Bool, true, false, ◌&&◌, Option, none, some, List, [],
  ◌∷◌, ◌++◌, ltb, ◌==◌, if◌then◌else◌,
}
use snu_os.Base.Words.{lt_int}

-- `digits`
abbrev pub digit : ℕ → ℕ
digit n = if ltb n 10 then 48 + n else 87 + n

-- The loop of printint: the values of the digits, the last digit first. A uint has at most 32.
unfoldable pub digits_from : ℕ → ℕ → ℕ → List ℕ
digits_from zero base x = []
digits_from (suc k) base x =
    x % base ∷ elim (x / base == 0) [ true ↦ [] | false ↦ digits_from k base (x / base) ]

-- the last loop of printint: `buf` from its end
unfoldable pub print_back : (ℕ → ℕ) → List ℕ → List ℕ
print_back glyph [] = []
print_back glyph (n ∷ ns) = print_back glyph ns ++ (glyph n ∷ [])

-- `xx < 0`, and `x` of printint
abbrev pub is_minus : Bool → ℕ → Bool
is_minus sign xx = sign && lt_int xx 0

abbrev pub magnitude : Bool → ℕ → ℕ
magnitude sign xx = if is_minus sign xx then (2 ^ 32 - xx) % 2 ^ 32 else xx

unfoldable pub printint : ℕ → ℕ → Bool → List ℕ
printint xx base sign =
    let out = print_back digit (digits_from 32 base (magnitude sign xx)) in
    if is_minus sign xx then 45 ∷ out else out

-- The loop of printptr, `k` nibbles from the top.
unfoldable pub nibbles : ℕ → ℕ → List ℕ
nibbles zero x = []
nibbles (suc k) x = digit (x / 2 ^ 60) ∷ nibbles k (x * 16 % 2 ^ 64)

unfoldable pub printptr : ℕ → List ℕ
printptr x = 48 ∷ 120 ∷ nibbles 16 x

-- A variable argument: an int, a uint64 or a string, none for the null pointer.
pub data Arg : Type 0 where
  int : ℕ → Arg
  ptr : ℕ → Arg
  str : Option (List ℕ) → Arg

-- "(null)"
abbrev pub null_text : List ℕ
null_text = 40 ∷ 110 ∷ 117 ∷ 108 ∷ 108 ∷ 41 ∷ []

abbrev pub text_of : Option (List ℕ) → List ℕ
text_of none = null_text
text_of (some s) = s

-- the switch of printf, for the letter `c`: what it prints and the arguments that are left; `none`
-- where va_arg is not the argument that was passed
unfoldable pub print_arg : ℕ → List Arg → Option (List ℕ × List Arg)
print_arg c args =
    if c == 100
    then elim args [ (int x ∷ rest) ↦ some (printint x 10 true, rest) | _ ↦ none ]
    else if c == 120
    then elim args [ (int x ∷ rest) ↦ some (printint x 16 true, rest) | _ ↦ none ]
    else if c == 112
    then elim args [ (ptr x ∷ rest) ↦ some (printptr x, rest) | _ ↦ none ]
    else if c == 115
    then elim args [ (str s ∷ rest) ↦ some (text_of s, rest) | _ ↦ none ]
    else if c == 37
    then some (37 ∷ [], args)
    else some (37 ∷ c ∷ [], args)

abbrev pub prepend : List ℕ → Option (List ℕ) → Option (List ℕ)
prepend out none = none
prepend out (some rest) = some (out ++ rest)

-- printf with a format that is a list of characters before the NUL
unfoldable pub printf : List ℕ → List Arg → Option (List ℕ)
printf [] args = some []
printf (c ∷ []) args = some (if c == 37 then [] else c ∷ [])
printf (c ∷ d ∷ fmt) args = elim (c == 37) [
  | false ↦ prepend (c ∷ []) (printf (d ∷ fmt) args)
  | true ↦ elim (print_arg d args) [
    | none ↦ none
    | some (out, rest) ↦ prepend out (printf fmt rest)
  ]
]
