-- ===== src/Fs/Blocks.antt =====
-- bzero, balloc and bfree of kernel/fs.c.
pub mod Laws
use snu_os.Base.{
  ℕ, zero, suc, ◌+◌, ◌-◌, ◌*◌, ◌/◌, ◌%◌, min, Option, none, some, ◌==◌, if◌then◌else◌, update,
}
use snu_os.Base.Bytes.{Bytes}
use snu_os.Base.Outcome.{Outcome, ok, panic_if, ◌>>=◌, ◌>>◌}
use snu_os.Buffers.{store}
use snu_os.Log.{Log, log_write}
use snu_os.Fs.{Superblock}
use snu_os.Fs.Bits.{bit, set_bit, clear_bit}

-- BPB, the bits of one block of the free map
abbrev pub bpb : ℕ
bpb = 8192

-- BBLOCK
abbrev pub bblock : ℕ → Superblock → ℕ
bblock b sb = b / bpb + sb.bmapstart

-- `bp->data` of a block gets new bytes, and the block goes to the log.
unfoldable pub store_logged : ℕ → Bytes → Log → Outcome Log
store_logged b bytes l = log_write b (record l { bufs = store b bytes l.bufs })

unfoldable pub bzero : ℕ → Log → Outcome Log
unfolding store_logged
bzero bno l = store_logged bno (λ _. 0) l

-- the bit of place `bi` in a block of the free map
abbrev pub map_bit : Bytes → ℕ → ℕ
map_bit bytes bi = bit (bytes (bi / 8)) (bi % 8)

abbrev pub mark : Bytes → ℕ → Bytes
mark bytes bi = update bytes (bi / 8) (set_bit (bytes (bi / 8)) (bi % 8))

abbrev pub unmark : Bytes → ℕ → Bytes
unmark bytes bi = update bytes (bi / 8) (clear_bit (bytes (bi / 8)) (bi % 8))

-- The inner loop of balloc, `k` rounds from `bi` on: the first place whose bit is 0.
unfoldable pub first_free : ℕ → ℕ → Bytes → Option ℕ
first_free zero bi bytes = none
first_free (suc k) bi bytes =
    let rest = first_free k (bi + 1) bytes in if map_bit bytes bi == 0 then some bi else rest

-- what balloc does with the place that it has found in the block of the free map for `b`
unfoldable pub take_block : Superblock → ℕ → ℕ → Log → Outcome (ℕ × Log)
unfolding store_logged bzero
take_block sb b bi l = do
  marked ← store_logged (bblock b sb) (mark (l.bufs.view (bblock b sb)) bi) l
  zeroed ← bzero (b + bi) marked
  ok (b + bi, zeroed)

-- The outer loop of balloc, `k` rounds from `b` on.
unfoldable pub balloc_from : ℕ → ℕ → Superblock → Log → Outcome (ℕ × Log)
unfolding first_free take_block
balloc_from zero b sb l = ok (0, l)
balloc_from (suc k) b sb l =
    elim (first_free (min bpb (sb.size - b)) 0 (l.bufs.view (bblock b sb))) [
      | none ↦ balloc_from k (b + bpb) sb l
      | some bi ↦ take_block sb b bi l
    ]

-- One round for each block of the free map.
unfoldable pub balloc : Superblock → Log → Outcome (ℕ × Log)
unfolding balloc_from
balloc sb l = balloc_from ((sb.size + bpb - 1) / bpb) 0 sb l

unfoldable pub bfree : Superblock → ℕ → Log → Outcome Log
unfolding store_logged
bfree sb b l = do
  let bytes = l.bufs.view (bblock b sb)
  panic_if (map_bit bytes (b % bpb) == 0)
  store_logged (bblock b sb) (unmark bytes (b % bpb)) l
