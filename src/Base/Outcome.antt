-- ===== src/Base/Outcome.antt =====
-- What a kernel function leaves: a value, or a halted machine (`panic` of kernel/printf.c does not
-- return).
use mathlib.Core.Path.{◌≡◌, refl}
use mathlib.Core.Bool.{Bool, true, false}
use native.Mathlib.Omega.{arith}

pub data Outcome {ℓ} (A : Type ℓ) : Type ℓ where
  ok : A → Outcome A
  panic : Outcome A

-- `if(c) panic(...)`
abbrev pub panic_if : Bool → Outcome (Unit {0})
panic_if true = panic
panic_if false = ok tt

infixl 5 ◌>>=◌ ◌>>◌
abbrev pub ◌>>=◌ {ℓ κ} : {A : Type ℓ} {B : Type κ} → Outcome A → (A → Outcome B) → Outcome B
panic >>= next = panic
ok value >>= next = next value

-- a statement, and what follows it
abbrev pub ◌>>◌ {ℓ} : {B : Type ℓ} → Outcome (Unit {0}) → Outcome B → Outcome B
first >> next = first >>= λ _. next

-- A sequence that does not halt: neither of its parts does.
pub >>=-eq-ok {ℓ κ} :
    {A : Type ℓ} {B : Type κ} (before : Outcome A) (next : A → Outcome B) {result : B}
    → (before >>= next) ≡ ok result
    → (between : A) × (before ≡ ok between) × (next between ≡ ok result)
>>=-eq-ok panic next e = cc
>>=-eq-ok (ok value) next e = (value, refl, e)

pub panic_if-eq-ok : (b : Bool) → panic_if b ≡ ok tt → b ≡ false
panic_if-eq-ok b h = ground arith

pub ok-eq {ℓ} : {A : Type ℓ} {a b : A} → ok a ≡ ok b → a ≡ b
ok-eq e = cc
