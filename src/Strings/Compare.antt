-- ===== src/Strings/Compare.antt =====
-- memcmp and strncmp decide equality.
use snu_os.Base.{ℕ, zero, suc, ◌+◌, ◌<◌, ◌≡◌, refl, ◌↔◌, ◌⊎◌, inl, inr, arith, ◌==◌, Bool-cases}
use snu_os.Strings.{Memory, memcmp, strncmp}

-- every byte of the memory is a byte
abbrev pub AreBytes : Memory → Type 0
AreBytes m = (a : ℕ) → m a < 256

-- The `n` bytes at `p` and at `q` are the same.
abbrev pub SameBytes : Memory → ℕ → ℕ → ℕ → Type 0
SameBytes m p q zero = Unit
SameBytes m p q (suc n) = (m p ≡ m q) × SameBytes m (p + 1) (q + 1) n

-- memcmp returns 0 exactly when the ranges hold the same bytes.
pub memcmp_iff : (n p q : ℕ) (m : Memory) → AreBytes m → (memcmp p q n m ≡ 0) ↔ SameBytes m p q n
unfolding memcmp
memcmp_iff zero p q m b = (λ e. tt, λ s. refl)
memcmp_iff (suc n) p q m b = elim (Bool-cases (m p == m q)) [
  | inl e ↦ (
    λ z. (ground arith, (memcmp_iff n (p + 1) (q + 1) m b).0 (ground (arith, e))),
    λ s. ground (arith, e, (memcmp_iff n (p + 1) (q + 1) m b).1 s.1),
  )
  | inr e ↦ (λ z. absurd (ground (arith, e, b p, b q)), λ s. absurd (ground arith))
]

-- The strings at `p` and `q` agree in their first `n` characters, or up to a common end.
abbrev pub SameText : Memory → ℕ → ℕ → ℕ → Type 0
SameText m p q zero = Unit
SameText m p q (suc n) = (m p ≡ m q) × ((m p ≡ 0) ⊎ SameText m (p + 1) (q + 1) n)

-- In a memory of bytes, strncmp returns 0 exactly when the strings agree in their first `n` characters
-- or end together before.
pub strncmp_iff : (n p q : ℕ) (m : Memory) → AreBytes m → (strncmp p q n m ≡ 0) ↔ SameText m p q n
unfolding strncmp
strncmp_iff zero p q m b = (λ e. tt, λ s. refl)
strncmp_iff (suc n) p q m b = elim (Bool-cases (m p == m q)) [
  | inr e ↦ (λ z. absurd (ground (arith, e, b p, b q)), λ s. absurd (ground arith))
  | inl e ↦ elim (Bool-cases (m p == 0)) [
    | inl f ↦ (λ z. (ground arith, inl (ground arith)), λ s. ground (arith, e, f, b p, b q))
    | inr f ↦ (
      λ z. (ground arith, inr ((strncmp_iff n (p + 1) (q + 1) m b).0 (ground (arith, e, f)))),
      λ s. elim s.1 [
        | inl g ↦ absurd (ground arith)
        | inr g ↦ ground (arith, e, f, (strncmp_iff n (p + 1) (q + 1) m b).1 g)
      ],
    )
  ]
]
