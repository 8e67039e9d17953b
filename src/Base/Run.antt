-- ===== src/Base/Run.antt =====
-- What a run of kernel code leaves that may also have to wait for a sleep-lock: `waits` is a run
-- that finds the lock taken. It goes on once the lock is free, which is not part of the run.
use mathlib.Core.Path.{◌≡◌, refl}
use mathlib.Core.Bool.{Bool, true, false}
use snu_os.Base.Outcome.{Outcome, ok}

pub data Run {ℓ} (A : Type ℓ) : Type ℓ where
  done : A → Run A
  halts : Run A
  waits : Run A

abbrev pub lift {ℓ} : {A : Type ℓ} → Outcome A → Run A
lift (ok a) = done a
lift Outcome.panic = halts

abbrev pub halt_if : Bool → Run (Unit {0})
halt_if false = done tt
halt_if true = halts

infixl 5 ◌>>=◌ ◌>>◌
abbrev pub ◌>>=◌ {ℓ κ} : {A : Type ℓ} {B : Type κ} → Run A → (A → Run B) → Run B
halts >>= next = halts
waits >>= next = waits
done value >>= next = next value

abbrev pub ◌>>◌ {ℓ} : {B : Type ℓ} → Run (Unit {0}) → Run B → Run B
first >> next = first >>= λ _. next

-- A sequence that is done: so are its parts.
pub >>=-eq-done {ℓ κ} :
    {A : Type ℓ} {B : Type κ} (before : Run A) (next : A → Run B) {result : B}
    → (before >>= next) ≡ done result
    → (between : A) × (before ≡ done between) × (next between ≡ done result)
>>=-eq-done halts next e = cc
>>=-eq-done waits next e = cc
>>=-eq-done (done value) next e = (value, refl, e)

pub done-eq {ℓ} : {A : Type ℓ} {a b : A} → done a ≡ done b → a ≡ b
done-eq e = cc

-- Two continuations that agree wherever the first part is done.
pub >>=-cong {ℓ κ} :
    {A : Type ℓ} {B : Type κ} (before : Run A) (f g : A → Run B)
    → ((a : A) → before ≡ done a → f a ≡ g a)
    → (before >>= f) ≡ (before >>= g)
>>=-cong halts f g h = refl
>>=-cong waits f g h = refl
>>=-cong (done value) f g h = h value refl

pub lift-done {ℓ} : {A : Type ℓ} (m : Outcome A) {a : A} → lift m ≡ done a → m ≡ ok a
lift-done (ok x) e = cc
lift-done Outcome.panic e = cc
