-- ===== src/Log.antt =====
-- kernel/log.c: the write-ahead log. The functions run between the acquire and release of
-- `log.lock` or, from commit on, alone by `log.committing`; a caller that has to sleep is `none`.
pub mod Header
pub mod Recover
pub mod Commit
pub mod Absorb
pub mod Keeps
pub mod Reserve
pub mod Safety
use snu_os.Base.{
  ℕ, zero, suc, ◌+◌, ◌-◌, ◌*◌, ◌%◌, ◌^◌, Bool, true, false, not, ◌||◌, Option, none, some, ltb, leb,
  ◌==◌, if◌then◌else◌, update,
}
use snu_os.Base.Bytes.{get32, put32, Bytes}
use snu_os.Base.Outcome.{Outcome, ok, panic_if, ◌>>=◌, ◌>>◌}
use snu_os.Base.Words.{add32, sub32, lt_int, rounds}
use snu_os.Buffers.{Buffers, store, bwrite, bpin, bunpin}

abbrev pub max_op_blocks : ℕ
max_op_blocks = 10

abbrev pub log_size : ℕ
log_size = 30

abbrev pub block_size : ℕ
block_size = 1024

abbrev pub header_size : ℕ
header_size = 4 + 4 * log_size

-- `struct log`, with the buffers it works on; `n` and `block` are `lh`.
pub record Log : Type 0 where
  pub start : ℕ
  pub size : ℕ
  pub outstanding : ℕ
  pub committing : ℕ
  pub n : ℕ
  pub block : ℕ → ℕ
  pub bufs : Buffers

-- the loop of install_trans from `tail` on, `k` rounds
unfoldable pub install_from : Bool → ℕ → ℕ → Log → Log
install_from recovering zero tail l = l
install_from recovering (suc k) tail l =
    let home = l.block tail in
    let written = bwrite home (store home (l.bufs.view (l.start + tail + 1)) l.bufs) in
    let unpinned = if recovering then written else bunpin home written in
    install_from recovering k (tail + 1) (record l { bufs = unpinned })

unfoldable pub install_trans : Bool → Log → Log
unfolding install_from
install_trans recovering l = install_from recovering (rounds l.n) 0 l

-- the fields `block[i]` of a header block, from `i` on
unfoldable pub read_blocks : ℕ → ℕ → Bytes → (ℕ → ℕ) → ℕ → ℕ
read_blocks zero i hb block = block
read_blocks (suc k) i hb block = read_blocks k (i + 1) hb (update block i (get32 hb (4 + 4 * i)))

unfoldable pub read_head : Log → Log
unfolding read_blocks
read_head l =
    let hb = l.bufs.view l.start in
    let n = get32 hb 0 in record l { n = n; block = read_blocks (rounds n) 0 hb l.block }

unfoldable pub write_blocks : ℕ → ℕ → (ℕ → ℕ) → Bytes → Bytes
write_blocks zero i block hb = hb
write_blocks (suc k) i block hb = write_blocks k (i + 1) block (put32 hb (4 + 4 * i) (block i))

unfoldable pub write_head : Log → Log
unfolding write_blocks
write_head l =
    let hb = write_blocks (rounds l.n) 0 l.block (put32 (l.bufs.view l.start) 0 l.n) in
    record l { bufs = bwrite l.start (store l.start hb l.bufs) }

unfoldable pub recover_from_log : Log → Log
unfolding read_head install_trans write_head
recover_from_log l = write_head (record (install_trans true (read_head l)) { n = 0 })

-- `struct log` as the loader leaves it, zeroed, with the first assignments of initlog: `start` and
-- `size` are `sb->logstart` and `sb->nlog`.
abbrev pub fresh_log : ℕ → ℕ → Buffers → Log
fresh_log start size bufs = record {
  start = start;
  size = size;
  outstanding = 0;
  committing = 0;
  n = 0;
  block = λ _. 0;
  bufs = bufs;
}

unfoldable pub initlog : ℕ → ℕ → Buffers → Outcome Log
unfolding recover_from_log
initlog start size bufs = do
  panic_if (leb block_size header_size)
  ok (recover_from_log (fresh_log start size bufs))

-- One turn of the loop of begin_op: `none` sleeps, and tests again when it is woken.
unfoldable pub begin_op : Log → Option Log
begin_op l =
    if not (l.committing == 0)
    then none
    else if lt_int log_size (add32 l.n (add32 l.outstanding 1 * max_op_blocks))
    then none
    else some (record l { outstanding = add32 l.outstanding 1 })

-- the loop of write_log from `tail` on, `k` rounds
unfoldable pub write_log_from : ℕ → ℕ → Log → Log
write_log_from zero tail l = l
write_log_from (suc k) tail l =
    let to = l.start + tail + 1 in
    let written = bwrite to (store to (l.bufs.view (l.block tail)) l.bufs) in
    write_log_from k (tail + 1) (record l { bufs = written })

unfoldable pub write_log : Log → Log
unfolding write_log_from
write_log l = write_log_from (rounds l.n) 0 l

unfoldable pub commit : Log → Log
unfolding write_log write_head install_trans
commit l =
    if lt_int 0 l.n
    then write_head (record (install_trans false (write_head (write_log l))) { n = 0 })
    else l

-- end_op up to its release of the lock: `do_commit`, and the log. The wakeups are what lets a sleeping
-- begin_op test again.
unfoldable pub end_op_enter : Log → Outcome (Bool × Log)
end_op_enter l =
    let left = sub32 l.outstanding 1 in
    if l.committing == 0
    then ok (
        if left == 0
        then (true, record l { outstanding = left; committing = 1 })
        else (false, record l { outstanding = left }))
    else Outcome.panic

-- end_op once it has committed and has the lock again
abbrev pub end_op_leave : Log → Log
end_op_leave l = record l { committing = 0 }

-- end_op, where nothing runs between its parts
unfoldable pub end_op : Log → Outcome Log
unfolding end_op_enter commit
end_op l = end_op_enter l >>= λ r. ok (if r.0 then end_op_leave (commit r.1) else r.1)

-- The loop of log_write: the first `i` whose block is `b`, or the number of rounds.
unfoldable pub absorb : ℕ → ℕ → (ℕ → ℕ) → ℕ → ℕ
absorb zero i block b = i
absorb (suc k) i block b = let rest = absorb k (i + 1) block b in if block i == b then i else rest

-- what log_write does behind its two guards
unfoldable pub record_block : ℕ → Log → Log
unfolding absorb
record_block b l =
    let i = absorb (rounds l.n) 0 l.block b in
    let recorded = record l { block = update l.block i b } in
    if i == l.n then record recorded { n = add32 l.n 1; bufs = bpin b l.bufs } else recorded

unfoldable pub log_write : ℕ → Log → Outcome Log
unfolding record_block
log_write b l = do
  panic_if (not (lt_int l.n log_size) || not (lt_int l.n (sub32 l.size 1)))
  panic_if (lt_int l.outstanding 1)
  ok (record_block b l)
