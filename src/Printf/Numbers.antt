-- ===== src/Printf/Numbers.antt =====
-- printint of kernel/printf.c prints the number.
use snu_os.Base.{
  ℕ, ◌+◌, ◌-◌, ◌*◌, ◌^◌, ◌≡◌, Bool, true, false, List, [], ◌∷◌, ltb, leb, ◌==◌, if◌then◌else◌,
}

-- the value of a digit
abbrev pub digit_value : ℕ → ℕ
digit_value c = if ltb c 58 then c - 48 else c - 87

-- Reads a numeral, most significant digit first, behind `v`.
abbrev pub read_from : ℕ → ℕ → List ℕ → ℕ
read_from base v [] = v
read_from base v (c ∷ cs) = read_from base (v * base + digit_value c) cs

-- Reads a number that may have a minus sign: whether it has one, and its digits.
abbrev pub read_number : ℕ → List ℕ → Bool × ℕ
read_number base [] = (false, 0)
read_number base (c ∷ cs) =
    if c == 45 then (true, read_from base 0 cs) else (false, read_from base 0 (c ∷ cs))

-- The sign and the absolute value of the number that a 32-bit pattern stands for, as an int or as a
-- uint.
abbrev pub sign_and_value : Bool → ℕ → Bool × ℕ
sign_and_value false xx = (false, xx)
sign_and_value true xx = if leb (2 ^ 31) xx then (true, 2 ^ 32 - xx) else (false, xx)

-- No minus sign in front.
abbrev NoMinus : List ℕ → Type 0
NoMinus [] = Unit
NoMinus (c ∷ cs) = (c == 45) ≡ false
