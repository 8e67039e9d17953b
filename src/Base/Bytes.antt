-- ===== src/Base/Bytes.antt =====
-- Disk blocks and C structures in memory: bytes by offset, and the 16- and 32-bit little-endian
-- fields that the kernel overlays on them.
use Prim.Native.Nat.{ℕ, ◌+◌, ◌*◌, ◌/◌, ◌%◌, ◌^◌, ◌≤◌}
use mathlib.Core.Path.{◌≡◌}
use mathlib.Core.Logic.{◌⊎◌}
use native.Mathlib.Omega.{arith}
use snu_os.Base.Lists.{update}

abbrev pub Bytes : Type 0
Bytes = ℕ → ℕ

unfoldable pub get16 : Bytes → ℕ → ℕ
get16 b o = b o + 256 * b (o + 1)

unfoldable pub put16 : Bytes → ℕ → ℕ → Bytes
put16 b o v = update (update b o (v % 256)) (o + 1) (v / 256 % 256)

unfoldable pub get32 : Bytes → ℕ → ℕ
get32 b o = b o + 256 * b (o + 1) + 65536 * b (o + 2) + 16777216 * b (o + 3)

unfoldable pub put32 : Bytes → ℕ → ℕ → Bytes
put32 b o v =
    update
      (update (update (update b o (v % 256)) (o + 1) (v / 256 % 256)) (o + 2) (v / 65536 % 256))
      (o + 3) (v / 16777216 % 256)

pub get16-put16_self : (b : Bytes) (o v : ℕ) → get16 (put16 b o v) o ≡ v % 65536
unfolding get16 put16
get16-put16_self b o v = ground arith

pub get32-put32_self : (b : Bytes) (o v : ℕ) → get32 (put32 b o v) o ≡ v % 2 ^ 32
unfolding get32 put32
get32-put32_self b o v = ground arith

-- A store leaves every other byte alone.
pub put32_ne : (b : Bytes) (o v a : ℕ) → (a + 1 ≤ o) ⊎ (o + 4 ≤ a) → put32 b o v a ≡ b a
unfolding put32
put32_ne b o v a h = ground arith

pub put16_ne : (b : Bytes) (o v a : ℕ) → (a + 1 ≤ o) ⊎ (o + 2 ≤ a) → put16 b o v a ≡ b a
unfolding put16
put16_ne b o v a h = ground arith

-- Fields that do not overlap are independent.
pub get32-put32_ne :
    (b : Bytes) (o v a : ℕ) → (a + 4 ≤ o) ⊎ (o + 4 ≤ a) → get32 (put32 b o v) a ≡ get32 b a
unfolding get32
get32-put32_ne b o v a h = ground (
  arith,
  put32_ne b o v a,
  put32_ne b o v (a + 1),
  put32_ne b o v (a + 2),
  put32_ne b o v (a + 3),
)

pub get16-put16_ne :
    (b : Bytes) (o v a : ℕ) → (a + 2 ≤ o) ⊎ (o + 2 ≤ a) → get16 (put16 b o v) a ≡ get16 b a
unfolding get16
get16-put16_ne b o v a h = ground (arith, put16_ne b o v a, put16_ne b o v (a + 1))

pub get16-put32_ne :
    (b : Bytes) (o v a : ℕ) → (a + 2 ≤ o) ⊎ (o + 4 ≤ a) → get16 (put32 b o v) a ≡ get16 b a
unfolding get16
get16-put32_ne b o v a h = ground (arith, put32_ne b o v a, put32_ne b o v (a + 1))

pub get32-put16_ne :
    (b : Bytes) (o v a : ℕ) → (a + 4 ≤ o) ⊎ (o + 2 ≤ a) → get32 (put16 b o v) a ≡ get32 b a
unfolding get32
get32-put16_ne b o v a h = ground (
  arith,
  put16_ne b o v a,
  put16_ne b o v (a + 1),
  put16_ne b o v (a + 2),
  put16_ne b o v (a + 3),
)
