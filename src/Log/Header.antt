-- ===== src/Log/Header.antt =====
-- The header block: what write_head stores is what read_head loads.
use snu_os.Base.{
  ℕ, zero, suc, ◌+◌, ◌*◌, ◌^◌, ◌≤◌, ◌<◌, ◌≡◌, refl, ◌∙◌, ◌⊎◌, inl, inr, arith, update, ◌==◌,
  Bool-cases,
}
use snu_os.Base.Bytes.{Bytes, get32, put32, get32-put32_self, get32-put32_ne}
use snu_os.Log.{read_blocks, write_blocks}

-- the fields outside the written ones
pub write_blocks_ne :
    (k i : ℕ) (block : ℕ → ℕ) (hb : Bytes) (o : ℕ)
    → (o + 4 ≤ 4 + 4 * i) ⊎ (4 + 4 * (i + k) ≤ o)
    → get32 (write_blocks k i block hb) o ≡ get32 hb o
unfolding write_blocks
write_blocks_ne zero i block hb o h = refl
write_blocks_ne (suc k) i block hb o h =
    write_blocks_ne k (i + 1) block (put32 hb (4 + 4 * i) (block i)) o (omega arith)
    ∙ get32-put32_ne hb (4 + 4 * i) (block i) o (omega arith)

pub write_blocks_at :
    (k i : ℕ) (block : ℕ → ℕ) (hb : Bytes) (j : ℕ)
    → i ≤ j
    → j < i + k
    → block j < 2 ^ 32
    → get32 (write_blocks k i block hb) (4 + 4 * j) ≡ block j
unfolding write_blocks
write_blocks_at zero i block hb j lo hi w = absurd (omega arith)
write_blocks_at (suc k) i block hb j lo hi w = elim (Bool-cases (i == j)) [
  | inl e ↦ ground (
    arith,
    write_blocks_ne k (i + 1) block (put32 hb (4 + 4 * i) (block i)) (4 + 4 * i)
        (inl (omega arith)),
    get32-put32_self hb (4 + 4 * i) (block i),
  )
  | inr e ↦
      write_blocks_at k (i + 1) block (put32 hb (4 + 4 * i) (block i)) j (ground arith)
        (ground arith) w
]

pub read_blocks_below :
    (k i : ℕ) (hb : Bytes) (block : ℕ → ℕ) (j : ℕ) → j < i → read_blocks k i hb block j ≡ block j
unfolding read_blocks
read_blocks_below zero i hb block j lo = refl
read_blocks_below (suc k) i hb block j lo =
    read_blocks_below k (i + 1) hb (update block i (get32 hb (4 + 4 * i))) j (omega arith)
    ∙ ground arith

pub read_blocks_at :
    (k i : ℕ) (hb : Bytes) (block : ℕ → ℕ) (j : ℕ)
    → i ≤ j
    → j < i + k
    → read_blocks k i hb block j ≡ get32 hb (4 + 4 * j)
unfolding read_blocks
read_blocks_at zero i hb block j lo hi = absurd (omega arith)
read_blocks_at (suc k) i hb block j lo hi = elim (Bool-cases (i == j)) [
  | inl e ↦ ground (
    arith,
    read_blocks_below k (i + 1) hb (update block i (get32 hb (4 + 4 * i))) i (omega arith),
  )
  | inr e ↦
      read_blocks_at k (i + 1) hb (update block i (get32 hb (4 + 4 * i))) j (ground arith)
        (ground arith)
]
