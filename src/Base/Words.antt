-- ===== src/Base/Words.antt =====
-- `int` and `uint` values as 32-bit patterns.
use Prim.Native.Nat.{ℕ, ◌+◌, ◌-◌, ◌%◌, ◌^◌, ◌<◌}
use mathlib.Core.Path.{◌≡◌}
use mathlib.Core.Bool.{Bool}
use native.Mathlib.Omega.{arith}
use snu_os.Base.Tests.{ltb, if◌then◌else◌}

abbrev pub add32 : ℕ → ℕ → ℕ
add32 a b = (a + b) % 2 ^ 32

abbrev pub sub32 : ℕ → ℕ → ℕ
sub32 a b = (a + 2 ^ 32 - b) % 2 ^ 32

-- `<` on two `int` patterns
abbrev pub lt_int : ℕ → ℕ → Bool
lt_int a b = ltb ((a + 2 ^ 31) % 2 ^ 32) ((b + 2 ^ 31) % 2 ^ 32)

-- how often `for(i = 0; i < n; i++)` runs, for an `int` n
abbrev pub rounds : ℕ → ℕ
rounds n = if ltb n (2 ^ 31) then n else 0

pub rounds_lem : (n : ℕ) → n < 2 ^ 31 → rounds n ≡ n
rounds_lem n h = ground arith
