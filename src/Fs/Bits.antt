-- ===== src/Fs/Bits.antt =====
-- One bit of a byte of the free map: `d & (1 << k)`, `d | (1 << k)` and `d & ~(1 << k)`.
use snu_os.Base.{ℕ, zero, suc, ◌+◌, ◌*◌, ◌/◌, ◌%◌, ◌≡◌, arith, ◌==◌, if◌then◌else◌}

unfoldable pub bit : ℕ → ℕ → ℕ
bit d zero = d % 2
bit d (suc k) = bit (d / 2) k

unfoldable pub set_bit : ℕ → ℕ → ℕ
set_bit d zero = d / 2 * 2 + 1
set_bit d (suc k) = set_bit (d / 2) k * 2 + d % 2

unfoldable pub clear_bit : ℕ → ℕ → ℕ
clear_bit d zero = d / 2 * 2
clear_bit d (suc k) = clear_bit (d / 2) k * 2 + d % 2

pub bit-set_bit : (d k j : ℕ) → bit (set_bit d k) j ≡ (if k == j then 1 else bit d j)
unfolding bit set_bit
bit-set_bit d zero zero = omega arith
bit-set_bit d zero (suc j) =
    let e : (d / 2 * 2 + 1) / 2 ≡ d / 2 = omega arith in rw e (ground arith)
bit-set_bit d (suc k) zero = ground arith
bit-set_bit d (suc k) (suc j) =
    let e : (set_bit (d / 2) k * 2 + d % 2) / 2 ≡ set_bit (d / 2) k = omega arith in
    rw e (ground (arith, bit-set_bit (d / 2) k j))

pub bit-clear_bit : (d k j : ℕ) → bit (clear_bit d k) j ≡ (if k == j then 0 else bit d j)
unfolding bit clear_bit
bit-clear_bit d zero zero = omega arith
bit-clear_bit d zero (suc j) = let e : d / 2 * 2 / 2 ≡ d / 2 = omega arith in rw e (ground arith)
bit-clear_bit d (suc k) zero = ground arith
bit-clear_bit d (suc k) (suc j) =
    let e : (clear_bit (d / 2) k * 2 + d % 2) / 2 ≡ clear_bit (d / 2) k = omega arith in
    rw e (ground (arith, bit-clear_bit (d / 2) k j))
