-- ===== src/Fs/Content.antt =====
-- The contents of inodes in kernel/fs.c: bmap, itrunc, iput, readi and writei.
pub mod Laws
use snu_os.Base.{
  ℕ, zero, suc, ◌+◌, ◌-◌, ◌*◌, ◌/◌, ◌%◌, ◌^◌, min, Bool, true, false, not, ◌&&◌, ◌||◌, Option, none,
  some, ltb, leb, ◌==◌, if◌then◌else◌, update,
}
use snu_os.Base.Bytes.{Bytes, get32, put32}
use snu_os.Base.Run.{Run, done, halts, waits, lift, halt_if, ◌>>=◌, ◌>>◌}
use snu_os.Base.Words.{add32, sub32, lt_int}
use snu_os.Lock.{acquiresleep, releasesleep}
use snu_os.Buffers.{store}
use snu_os.Log.{Log}
use snu_os.Fs.{Superblock}
use snu_os.Fs.Blocks.{store_logged, balloc, bfree}
use snu_os.Fs.Inodes.{Inode, State, set_inode, ndirect, iupdate, iunlock}

-- NINDIRECT, and BSIZE
abbrev pub nindirect : ℕ
nindirect = 256

abbrev pub block_bytes : ℕ
block_bytes = 1024

abbrev pub max_file : ℕ
max_file = ndirect + nindirect

abbrev pub set_addr : ℕ → ℕ → ℕ → State → State
set_addr i n addr s =
    set_inode i (record (s.inodes i) { addrs = update (s.inodes i).addrs n addr }) s

-- the `n`th address in the indirect block `b`
abbrev pub indirect_entry : ℕ → ℕ → State → ℕ
indirect_entry b n s = get32 (s.log.bufs.view b) (4 * n)

-- what balloc has returned, in address `n` of the inode
abbrev pub place_block : ℕ → ℕ → State → ℕ × Log → State
place_block i n s r =
    let s' : State = record s { log = r.1 } in if r.0 == 0 then s' else set_addr i n r.0 s'

module _ (sb : Superblock) where
  -- the block at address `n` of the inode, or a new one that goes there
  unfoldable pub own_block : ℕ → ℕ → State → Run (ℕ × State)
  own_block i n s =
      if not ((s.inodes i).addrs n == 0)
      then done ((s.inodes i).addrs n, s)
      else (lift (balloc sb s.log) >>= λ r. done (r.0, place_block i n s r))

  -- what balloc has returned, in entry `n` of the indirect block `b`
  abbrev pub enter_block : ℕ → ℕ → State → ℕ × Log → Run (ℕ × State)
  enter_block b n s r =
      if r.0 == 0
      then done (0, record s { log = r.1 })
      else (lift (store_logged b (put32 (r.1.bufs.view b) (4 * n) r.0) r.1) >>= λ log.
          done (r.0, record s { log = log }))

  -- the same for entry `n` of the indirect block `b`
  unfoldable pub indirect_block : ℕ → ℕ → State → Run (ℕ × State)
  indirect_block b n s =
      if not (indirect_entry b n s == 0)
      then done (indirect_entry b n s, s)
      else (lift (balloc sb s.log) >>= enter_block b n s)

  -- bmap behind the block of addresses
  abbrev pub through_indirect : ℕ → ℕ × State → Run (ℕ × State)
  through_indirect n r = if r.0 == 0 then done (0, r.1) else indirect_block r.0 n r.1

  unfoldable pub bmap : ℕ → ℕ → State → Run (ℕ × State)
  bmap i bn s =
      if ltb bn ndirect
      then own_block i bn s
      else if ltb (bn - ndirect) nindirect
      then (own_block i ndirect s >>= through_indirect (bn - ndirect))
      else halts

  -- the loop of itrunc over the direct addresses, `k` from number `j` on
  unfoldable pub free_direct : ℕ → ℕ → ℕ → State → Run State
  unfolding bfree
  free_direct zero j i s = done s
  free_direct (suc k) j i s = if (s.inodes i).addrs j == 0 then free_direct k (j + 1) i s else do
    log ← lift (bfree sb ((s.inodes i).addrs j) s.log)
    free_direct k (j + 1) i (set_addr i j 0 (record s { log = log }))

  -- the loop over the entries `a` of the indirect block
  unfoldable pub free_entries : ℕ → ℕ → Bytes → Log → Run Log
  unfolding bfree
  free_entries zero j a log = done log
  free_entries (suc k) j a log = do
    log' ← if get32 a (4 * j) == 0 then done log else lift (bfree sb (get32 a (4 * j)) log)
    free_entries k (j + 1) a log'

  unfoldable pub free_indirect : ℕ → State → Run State
  unfolding free_entries bfree
  free_indirect i s =
      let b = (s.inodes i).addrs ndirect in
      if b == 0 then done s else do
        log ← free_entries nindirect 0 (s.log.bufs.view b) s.log
        log' ← lift (bfree sb b log)
        done (set_addr i ndirect 0 (record s { log = log' }))

  unfoldable pub itrunc : ℕ → State → Run State
  unfolding free_direct free_indirect iupdate
  itrunc i s = do
    s1 ← free_direct ndirect 0 i s
    s2 ← free_indirect i s1
    iupdate sb i (set_inode i (record (s2.inodes i) { size = 0 }) s2)

  -- what iput does to an inode that has lost its last link and its last reference
  unfoldable pub drop_inode : ℕ → ℕ → State → Run State
  unfolding acquiresleep itrunc iupdate releasesleep
  drop_inode pid i s = do
    lk ← elim (acquiresleep pid (s.inodes i).lock) [ none ↦ waits | some lk ↦ done lk ]
    s1 ← itrunc i (set_inode i (record (s.inodes i) { lock = lk }) s)
    s2 ← iupdate sb i (set_inode i (record (s1.inodes i) { type_of = 0 }) s1)
    done (
        set_inode i (record (s2.inodes i) { valid = false; lock = releasesleep (s2.inodes i).lock })
          s2)

  unfoldable pub iput : ℕ → ℕ → State → Run State
  unfolding drop_inode
  iput pid i s = do
    let ip = s.inodes i
    s' ← if ip.ref == 1 && ip.valid && ip.nlink == 0 then drop_inode pid i s else done s
    done (set_inode i (record (s'.inodes i) { ref = sub32 (s'.inodes i).ref 1 }) s')

  unfoldable pub iunlockput : ℕ → ℕ → State → Run State
  unfolding iunlock iput
  iunlockput pid i s = do s' ← iunlock pid i s; iput pid i s'

  -- `m` bytes of a block from `so` on, copied to a buffer at `to`
  abbrev pub blit : Bytes → ℕ → ℕ → Bytes → ℕ → Bytes
  blit from so m dst to a = if leb to a && ltb a (to + m) then from (so + (a - to)) else dst a

  -- The loop of readi, on fuel, with `dst` relative to the address that it was called with. The
  -- buffer is mapped up to its byte number `reach`, where either_copyout fails.
  unfoldable pub readi_from : ℕ → ℕ → ℕ → ℕ → ℕ → ℕ → Bytes → State → Run (ℕ × Bytes × State)
  unfolding bmap
  readi_from zero reach i tot off n dst s = done (tot, dst, s)
  readi_from (suc fuel) reach i tot off n dst s =
      let m = min (n - tot) (block_bytes - off % block_bytes) in
      elim (ltb tot n) [
        | false ↦ done (tot, dst, s)
        | true ↦
            (bmap i (off / block_bytes) s >>= λ r.
            let (addr, s') = r in
            if addr == 0
            then done (tot, dst, s')
            else if ltb reach (tot + m)
            then done (
              sub32 0 1,
              blit (s'.log.bufs.view addr) (off % block_bytes) (reach - tot) dst tot,
              s',
            )
            else readi_from fuel reach i (add32 tot m) (add32 off m) n
                (blit (s'.log.bufs.view addr) (off % block_bytes) m dst tot) s')
      ]

  -- One round for each byte at most.
  unfoldable pub readi : ℕ → ℕ → ℕ → ℕ → Bytes → State → Run (ℕ × Bytes × State)
  unfolding readi_from
  readi reach i off n dst s =
      let size = (s.inodes i).size in
      let n' = if ltb size (add32 off n) then sub32 size off else n in
      if ltb size off || ltb (add32 off n) off
      then done (0, dst, s)
      else readi_from n' reach i 0 off n' dst s

  -- what either_copyin has written to a buffer when it fails; the block does not go to the log
  abbrev pub store_part : ℕ → Bytes → State → State
  store_part b bytes s = record s { log = record (s.log) { bufs = store b bytes s.log.bufs } }

  -- The loop of writei: where it stops, in the buffer and in the file.
  unfoldable pub writei_from : ℕ → ℕ → ℕ → ℕ → ℕ → ℕ → Bytes → State → Run (ℕ × ℕ × State)
  unfolding bmap store_logged
  writei_from zero reach i tot off n src s = done (tot, off, s)
  writei_from (suc fuel) reach i tot off n src s =
      let m = min (n - tot) (block_bytes - off % block_bytes) in
      elim (ltb tot n) [
        | false ↦ done (tot, off, s)
        | true ↦
            (bmap i (off / block_bytes) s >>= λ r.
            let (addr, s') = r in
            if addr == 0
            then done (tot, off, s')
            else if ltb reach (tot + m)
            then done (
              tot,
              off,
              store_part addr
                  (blit src tot (reach - tot) (s'.log.bufs.view addr) (off % block_bytes)) s',
            )
            else (lift (
                  store_logged addr (blit src tot m (s'.log.bufs.view addr) (off % block_bytes))
                    s'.log)
                >>= λ log.
                    writei_from fuel reach i (add32 tot m) (add32 off m) n src
                      (record s' { log = log })))
      ]

  unfoldable pub writei : ℕ → ℕ → ℕ → ℕ → Bytes → State → Run (ℕ × State)
  unfolding writei_from iupdate
  writei reach i off n src s =
      if ltb (s.inodes i).size off || ltb (add32 off n) off
      then done (sub32 0 1, s)
      else if ltb (max_file * block_bytes) (add32 off n)
      then done (sub32 0 1, s)
      else do
        (tot, end, s') ← writei_from n reach i 0 off n src s
        let ip = s'.inodes i
        let grown = if ltb ip.size end then set_inode i (record ip { size = end }) s' else s'
        s'' ← iupdate sb i grown
        done (tot, s'')
