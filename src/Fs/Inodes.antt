-- ===== src/Fs/Inodes.antt =====
-- The inodes of kernel/fs.c: the table in memory, and the inodes on the disk, over the log.
pub mod Unique
pub mod Disk
use snu_os.Base.{
  ℕ, zero, suc, ◌+◌, ◌-◌, ◌*◌, ◌/◌, ◌%◌, Bool, true, false, not, ◌&&◌, ◌||◌, Option, none, some,
  ltb, leb, ◌==◌, if◌then◌else◌, update,
}
use snu_os.Base.Bytes.{Bytes, get16, put16, get32, put32}
use snu_os.Base.Outcome.{Outcome, ok, panic}
use snu_os.Base.Run.{Run, done, halts, waits, lift, halt_if, ◌>>=◌, ◌>>◌}
use snu_os.Base.Words.{add32, sub32, lt_int}
use snu_os.Lock.{Sleeplock, fresh_sleeplock, acquiresleep, releasesleep, holdingsleep}
use snu_os.Log.{Log}
use snu_os.Fs.{Superblock}
use snu_os.Fs.Blocks.{store_logged}

abbrev pub ninode : ℕ
ninode = 50

-- NDIRECT
abbrev pub ndirect : ℕ
ndirect = 12

-- `struct inode`; the fields behind `valid` are the copy of the inode on the disk.
pub record Inode : Type 0 where
  pub dev : ℕ
  pub inum : ℕ
  pub ref : ℕ
  pub lock : Sleeplock
  pub valid : Bool
  pub type_of : ℕ
  pub major : ℕ
  pub minor : ℕ
  pub nlink : ℕ
  pub size : ℕ
  pub addrs : ℕ → ℕ

-- The state that the functions of fs.c share: the log with the buffers under it, and the table.
pub record State : Type 0 where
  pub log : Log
  pub inodes : ℕ → Inode

abbrev pub set_inode : ℕ → Inode → State → State
set_inode i ip s = record s { inodes = update s.inodes i ip }

unfoldable pub iinit : State → State
iinit s = record s { inodes = λ i. record (s.inodes i) { lock = fresh_sleeplock } }

abbrev pub is_inode : ℕ → ℕ → Inode → Bool
is_inode dev inum ip = lt_int 0 ip.ref && ip.dev == dev && ip.inum == inum

abbrev pub remember : Option ℕ → ℕ → Inode → Option ℕ
remember none i ip = if ip.ref == 0 then some i else none
remember (some e) i ip = some e

-- The loop of iget from slot `i` on, `k` rounds: the slot of the inode, and the first empty slot.
unfoldable pub scan_inodes : ℕ → ℕ → Option ℕ → ℕ → ℕ → (ℕ → Inode) → Option ℕ × Option ℕ
scan_inodes zero i empty dev inum t = (none, empty)
scan_inodes (suc k) i empty dev inum t =
    let rest = scan_inodes k (i + 1) (remember empty i (t i)) dev inum t in
    if is_inode dev inum (t i) then (some i, empty) else rest

-- what iget does behind its loop
abbrev pub take_inode : ℕ → ℕ → State → Option ℕ × Option ℕ → Run (ℕ × State)
take_inode dev inum s (some i, empty) =
    done (i, set_inode i (record (s.inodes i) { ref = add32 (s.inodes i).ref 1 }) s)
take_inode dev inum s (none, none) = halts
take_inode dev inum s (none, some e) =
    done (e, set_inode e (record (s.inodes e) { dev = dev; inum = inum; ref = 1; valid = false }) s)

unfoldable pub iget : ℕ → ℕ → State → Run (ℕ × State)
unfolding scan_inodes
iget dev inum s = take_inode dev inum s (scan_inodes ninode 0 none dev inum s.inodes)

unfoldable pub idup : ℕ → State → State
idup i s = set_inode i (record (s.inodes i) { ref = add32 (s.inodes i).ref 1 }) s

-- IPB and the size of `struct dinode`
abbrev pub ipb : ℕ
ipb = 16

abbrev pub dinode_size : ℕ
dinode_size = 64

-- IBLOCK
abbrev pub iblock : ℕ → Superblock → ℕ
iblock i sb = i / ipb + sb.inodestart

-- where inode `i` stands in its block
abbrev pub dinode_at : ℕ → ℕ
dinode_at i = i % ipb * dinode_size

-- memmove of the addresses, `k` from number `j` on
unfoldable pub put_addrs : ℕ → ℕ → (ℕ → ℕ) → ℕ → Bytes → Bytes
put_addrs zero j addrs o b = b
put_addrs (suc k) j addrs o b = put_addrs k (j + 1) addrs o (put32 b (o + 12 + 4 * j) (addrs j))

-- the assignments of iupdate to the inode at `o`
unfoldable pub put_dinode : Inode → ℕ → Bytes → Bytes
put_dinode ip o b = put_addrs 13 0 ip.addrs o (
    put32
      (put16 (put16 (put16 (put16 b o ip.type_of) (o + 2) ip.major) (o + 4) ip.minor) (o + 6)
        ip.nlink)
      (o + 8) ip.size)

-- the assignments of ilock from the inode at `o`
unfoldable pub get_dinode : Bytes → ℕ → Inode → Inode
get_dinode b o ip = record ip {
  type_of = get16 b o;
  major = get16 b (o + 2);
  minor = get16 b (o + 4);
  nlink = get16 b (o + 6);
  size = get32 b (o + 8);
  addrs = λ j. get32 b (o + 12 + 4 * j);
}

-- memset of the inode at `o`, and its type
abbrev pub clear_dinode : ℕ → ℕ → Bytes → Bytes
clear_dinode type_of o b =
    put16 (λ a. if leb o a && ltb a (o + dinode_size) then 0 else b a) o type_of

-- `sb` is the superblock that fsinit has read.
module _ (sb : Superblock) where
  unfoldable pub iupdate : ℕ → State → Run State
  unfolding store_logged put_dinode
  iupdate i s = do
    let ip = s.inodes i
    let block = iblock ip.inum sb
    log ←
        lift (store_logged block (put_dinode ip (dinode_at ip.inum) (s.log.bufs.view block)) s.log)
    done (record s { log = log })

  -- what ialloc does with the free inode `inum`
  unfoldable pub claim_inode : ℕ → ℕ → ℕ → State → Run (Option ℕ × State)
  unfolding store_logged iget
  claim_inode dev type_of inum s = do
    let block = iblock inum sb
    log ←
        lift
          (store_logged block (clear_dinode type_of (dinode_at inum) (s.log.bufs.view block)) s.log)
    (i, s') ← iget dev inum (record s { log = log })
    done (some i, s')

  -- The loop of ialloc from inode `inum` on, `k` rounds; `none` is the null pointer.
  unfoldable pub ialloc_from : ℕ → ℕ → ℕ → ℕ → State → Run (Option ℕ × State)
  unfolding claim_inode
  ialloc_from zero inum dev type_of s = done (none, s)
  ialloc_from (suc k) inum dev type_of s =
      let rest = ialloc_from k (inum + 1) dev type_of s in
      if get16 (s.log.bufs.view (iblock inum sb)) (dinode_at inum) == 0
      then claim_inode dev type_of inum s
      else rest

  unfoldable pub ialloc : ℕ → ℕ → State → Run (Option ℕ × State)
  unfolding ialloc_from
  ialloc dev type_of s = ialloc_from (sb.ninodes - 1) 1 dev type_of s

  -- the read of ilock, when the copy is not valid
  abbrev pub load_inode : ℕ → State → Inode
  load_inode i s =
      let ip = s.inodes i in
      record (get_dinode (s.log.bufs.view (iblock ip.inum sb)) (dinode_at ip.inum) ip) {
        valid = true;
      }

  -- by process `pid`
  unfoldable pub ilock : ℕ → ℕ → State → Run State
  unfolding acquiresleep get_dinode
  ilock pid i s = do
    halt_if (lt_int (s.inodes i).ref 1)
    lk ← elim (acquiresleep pid (s.inodes i).lock) [ none ↦ waits | some lk ↦ done lk ]
    let locked = set_inode i (record (s.inodes i) { lock = lk }) s
    let read = load_inode i locked
    halt_if (not (s.inodes i).valid && read.type_of == 0)
    done (if (s.inodes i).valid then locked else set_inode i read locked)

unfoldable pub iunlock : ℕ → ℕ → State → Run State
unfolding holdingsleep releasesleep
iunlock pid i s = do
  halt_if (not (holdingsleep pid (s.inodes i).lock) || lt_int (s.inodes i).ref 1)
  done (set_inode i (record (s.inodes i) { lock = releasesleep (s.inodes i).lock }) s)

-- `struct stat` as stati fills it
pub record Stat : Type 0 where
  pub dev : ℕ
  pub ino : ℕ
  pub type_of : ℕ
  pub nlink : ℕ
  pub size : ℕ

unfoldable pub stati : ℕ → State → Stat
stati i s =
    let ip = s.inodes i in
    record { dev = ip.dev; ino = ip.inum; type_of = ip.type_of; nlink = ip.nlink; size = ip.size }
