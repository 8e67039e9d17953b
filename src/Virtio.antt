-- ===== src/Virtio.antt =====
-- kernel/virtio_disk.c: the driver of the disk, with its descriptors and the two rings that it shares
-- with the device. The functions run under `vdisk_lock`; virtio_disk_rw is cut where it sleeps.
pub mod Alloc
pub mod Chains
pub mod Requests
use snu_os.Base.{
  ℕ, zero, suc, ◌+◌, ◌-◌, ◌*◌, ◌/◌, ◌%◌, ◌^◌, Bool, true, false, not, Option, none, some, leb, ◌==◌,
  if◌then◌else◌, update,
}
use snu_os.Base.Outcome.{Outcome, ok, panic, panic_if, ◌>>=◌, ◌>>◌}

-- NUM, VRING_DESC_F_NEXT and VRING_DESC_F_WRITE
abbrev pub num : ℕ
num = 8

abbrev pub f_next : ℕ
f_next = 1

abbrev pub f_write : ℕ
f_write = 2

-- `struct virtq_desc`
pub record Desc : Type 0 where
  pub addr : ℕ
  pub len : ℕ
  pub flags : ℕ
  pub next : ℕ

abbrev pub zero_desc : Desc
zero_desc = record { addr = 0; len = 0; flags = 0; next = 0 }

abbrev pub has_next : Desc → Bool
has_next x = x.flags % 2 == 1

-- `struct virtio_blk_req`
pub record Request : Type 0 where
  pub type_of : ℕ
  pub reserved : ℕ
  pub sector : ℕ

-- `disk`: `ring` and `idx` are those of `avail`, `used_ring` has the ids of `used`, `used_end` is
-- `used->idx`, and `info_b` and `status` are the fields of `info`. A buffer is a number, and `busy` is
-- its field `disk`.
pub record Disk : Type 0 where
  pub desc : ℕ → Desc
  pub free : ℕ → Bool
  pub ring : ℕ → ℕ
  pub idx : ℕ
  pub used_ring : ℕ → ℕ
  pub used_end : ℕ
  pub used_idx : ℕ
  pub info_b : ℕ → Option ℕ
  pub status : ℕ → ℕ
  pub ops : ℕ → Request
  pub busy : ℕ → Bool

-- the memory and the descriptors that virtio_disk_init sets up
unfoldable pub init_rings : Disk → Disk
init_rings d = record d {
  desc = λ _. zero_desc;
  ring = λ _. 0;
  idx = 0;
  used_ring = λ _. 0;
  used_end = 0;
  free = λ _. true;
}

-- The loop of alloc_desc from descriptor `i` on, `k` rounds.
unfoldable pub first_desc : ℕ → ℕ → (ℕ → Bool) → Option ℕ
first_desc zero i free = none
first_desc (suc k) i free = let rest = first_desc k (i + 1) free in if free i then some i else rest

-- alloc_desc: `none` is -1.
unfoldable pub alloc_desc : Disk → Option (ℕ × Disk)
unfolding first_desc
alloc_desc d = elim (first_desc num 0 d.free) [
  | none ↦ none
  | some i ↦ some (i, record d { free = update d.free i false })
]

unfoldable pub free_desc : ℕ → Disk → Outcome Disk
free_desc i d = do
  panic_if (leb num i)
  panic_if (d.free i)
  ok (record d { desc = update d.desc i zero_desc; free = update d.free i true })

-- free_chain, on one round for each descriptor: the next one would find a descriptor that is free.
unfoldable pub free_chain_from : ℕ → ℕ → Disk → Outcome Disk
free_chain_from zero i d = panic
free_chain_from (suc k) i d = free_desc i d >>= λ d'. elim (has_next (d.desc i)) [
  | true ↦ free_chain_from k ((d.desc i).next) d'
  | false ↦ ok d'
]

unfoldable pub free_chain : ℕ → Disk → Outcome Disk
free_chain i d = free_chain_from (suc num) i d

-- the third round of alloc3_desc, with two descriptors in hand
unfoldable pub alloc_third : ℕ → ℕ → Disk → Outcome (Option (ℕ × ℕ × ℕ) × Disk)
alloc_third i j d = elim (alloc_desc d) [
  | some (k, d') ↦ ok (some (i, j, k), d')
  | none ↦ (free_desc i d >>= λ d1. free_desc j d1 >>= λ d2. ok (none, d2))
]

-- the second round
unfoldable pub alloc_second : ℕ → Disk → Outcome (Option (ℕ × ℕ × ℕ) × Disk)
alloc_second i d = elim (alloc_desc d) [
  | some (j, d') ↦ alloc_third i j d'
  | none ↦ (free_desc i d >>= λ d1. ok (none, d1))
]

-- alloc3_desc: `none` is -1.
unfoldable pub alloc3_desc : Disk → Outcome (Option (ℕ × ℕ × ℕ) × Disk)
alloc3_desc d = elim (alloc_desc d) [ some (i, d') ↦ alloc_second i d' | none ↦ ok (none, d) ]

-- where the requests, the status bytes and the contents of buffers stand
module _ (ops_at status_at bytes_at : ℕ → ℕ) where
  -- the descriptors of a request for buffer `b`, which is written or read
  unfoldable pub format_request : ℕ → ℕ → Bool → ℕ → ℕ → ℕ → Disk → Disk
  format_request b blockno write i j k d =
      let first : Desc = record { addr = ops_at i; len = 16; flags = f_next; next = j } in
      let second : Desc = record {
        addr = bytes_at b;
        len = 1024;
        flags = (if write then 0 else f_write) + f_next;
        next = k;
      } in
      let third : Desc = record { addr = status_at i; len = 1; flags = f_write; next = 0 } in
      record d {
        ops = update d.ops i (record {
          type_of = if write then 1 else 0;
          reserved = 0;
          sector = blockno * 2 % 2 ^ 32;
        });
        desc = update (update (update d.desc i first) j second) k third;
        status = update d.status i 0xff;
      }

  -- what virtio_disk_rw hands to the device, with the head of the chain
  unfoldable pub offer : ℕ → ℕ → Disk → Disk
  offer b i d = record d {
    busy = update d.busy b true;
    info_b = update d.info_b i (some b);
    ring = update d.ring (d.idx % num) i;
    idx = (d.idx + 1) % 2 ^ 16;
  }

  -- One turn of virtio_disk_rw up to its second sleep: the head of the chain, or `none` where it sleeps
  -- for descriptors.
  unfoldable pub rw_start : ℕ → ℕ → Bool → Disk → Outcome (Option ℕ × Disk)
  rw_start b blockno write d = alloc3_desc d >>= λ r. elim (r.0) [
    | none ↦ ok (none, r.1)
    | some (i, j, k) ↦ ok (some i, offer b i (format_request b blockno write i j k r.1))
  ]

-- virtio_disk_rw once the buffer is no longer busy
unfoldable pub rw_finish : ℕ → Disk → Outcome Disk
rw_finish i d = free_chain i (record d { info_b = update d.info_b i none })

-- The loop of virtio_disk_intr, `n` rounds. A buffer that is the null pointer is a crash.
unfoldable pub complete_from : ℕ → Disk → Outcome Disk
complete_from zero d = ok d
complete_from (suc n) d = do
  let id = d.used_ring (d.used_idx % num)
  panic_if (not (d.status id == 0))
  elim (d.info_b id) [
    | none ↦ panic
    | some b ↦
        complete_from n
          (record d { busy = update d.busy b false; used_idx = (d.used_idx + 1) % 2 ^ 16 })
  ]

-- The rounds are those until `used_idx` reaches `used->idx`.
unfoldable pub virtio_disk_intr : Disk → Outcome Disk
virtio_disk_intr d = complete_from ((d.used_end + 2 ^ 16 - d.used_idx) % 2 ^ 16) d
