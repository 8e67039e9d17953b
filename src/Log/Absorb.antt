-- ===== src/Log/Absorb.antt =====
-- log_write: where it does not halt, and what it does to the logged blocks.
use snu_os.Base.{
  ℕ, zero, suc, ◌+◌, ◌^◌, ◌≤◌, ◌<◌, ◌≡◌, ◌≢◌, refl, ap, ◌⊎◌, inl, inr, arith, update, ◌==◌, ==_iff,
  Bool-cases,
}
use snu_os.Base.Words.{rounds, rounds_lem}
use snu_os.Base.Outcome.{ok}
use snu_os.Log.{Log, log_size, absorb, record_block, log_write}

-- The first of the rounds at which `b` stands, or the one behind them.
absorb_lem :
    (k i : ℕ) (block : ℕ → ℕ) (b : ℕ)
    → (i ≤ absorb k i block b)
      × (absorb k i block b ≤ i + k)
      × (absorb k i block b < i + k → block (absorb k i block b) ≡ b)
      × ((j : ℕ) → i ≤ j → j < absorb k i block b → block j ≢ b)
unfolding absorb
absorb_lem zero i block b =
    (omega arith, omega arith, λ h. absurd (omega arith), λ j p q. absurd (omega arith))
absorb_lem (suc k) i block b = elim (Bool-cases (block i == b)) [
  | inl e ↦
      rw e (omega arith, omega arith, λ h. (==_iff (block i) b).0 e, λ j p q. absurd (omega arith))
  | inr e ↦
      (let (lo, hi, at, before) = absorb_lem k (i + 1) block b in
        rw e (
          omega arith,
          omega arith,
          λ h. at (omega arith),
          λ j p q. elim (Bool-cases (i == j)) [
            | inl s ↦ (λ x. ground (arith, ap block ((==_iff i j).0 s)))
            | inr s ↦ before j (ground arith) q
          ],
        ))
]

-- What log_write does to the log: `b` is found among the logged blocks, or put behind them.
pub record Wrote (b : ℕ) (l l' : Log) : Type 0 where
  pub at : ℕ
  pub block : l'.block ≡ update l.block at b
  pub found :
      ((at < l.n) × (l.block at ≡ b) × (l'.n ≡ l.n))
      ⊎ ((at ≡ l.n) × (l'.n ≡ l.n + 1) × ((j : ℕ) → j < l.n → l.block j ≢ b))
  pub same :
      (l'.start ≡ l.start)
      × (l'.size ≡ l.size)
      × (l'.outstanding ≡ l.outstanding)
      × (l'.committing ≡ l.committing)
  pub bufs : (l'.bufs.disk ≡ l.bufs.disk) × (l'.bufs.view ≡ l.bufs.view)

-- The conditions under which log_write does not halt.
pub record HasRoom (l : Log) : Type 0 where
  pub few : l.n < log_size
  pub room : l.n + 1 < l.size
  pub small : l.size < 2 ^ 31
  pub inside : (1 ≤ l.outstanding) × (l.outstanding < 2 ^ 31)

module _ (b : ℕ) (l : Log) where
  pub record_block-Wrote : l.n < log_size → Wrote b l (record_block b l)
  unfolding record_block
  record_block-Wrote few = elim (Bool-cases (absorb (rounds l.n) 0 l.block b == l.n)) [
    | inl e ↦ rw e (record {
      at = absorb (rounds l.n) 0 l.block b;
      block = refl;
      found = inr (ground arith, omega (arith), λ j p. here.3 j (omega arith) (ground arith));
      same = (refl, refl, refl, refl);
      bufs = (refl, refl);
    })
    | inr e ↦ rw e (record {
      at = absorb (rounds l.n) 0 l.block b;
      block = refl;
      found = inl (ground (arith, here.1, turns), here.2 (ground (arith, here.1, turns)), refl);
      same = (refl, refl, refl, refl);
      bufs = (refl, refl);
    })
  ]
    where
      turns : rounds l.n ≡ l.n
      turns = rounds_lem l.n (omega arith)

      here :
          (0 ≤ absorb (rounds l.n) 0 l.block b)
          × (absorb (rounds l.n) 0 l.block b ≤ 0 + rounds l.n)
          × (absorb (rounds l.n) 0 l.block b < 0 + rounds l.n
              → l.block (absorb (rounds l.n) 0 l.block b) ≡ b)
          × ((j : ℕ) → 0 ≤ j → j < absorb (rounds l.n) 0 l.block b → l.block j ≢ b)
      here = absorb_lem (rounds l.n) 0 l.block b

  pub log_write-ok : HasRoom l → log_write b l ≡ ok (record_block b l)
  unfolding log_write
  log_write-ok r = ground (arith, r.few, r.room, r.small, r.inside)

  -- Where log_write does not halt, it is record_block.
  pub log_write-eq : {l' : Log} → log_write b l ≡ ok l' → l' ≡ record_block b l
  unfolding log_write
  log_write-eq e = ground arith

  pub record_block-view : (record_block b l).bufs.view ≡ l.bufs.view
  unfolding record_block
  record_block-view = elim (Bool-cases (absorb (rounds l.n) 0 l.block b == l.n)) [
    | inl e ↦ rw e
    | inr e ↦ rw e
  ]
