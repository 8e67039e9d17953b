-- ===== src/Bio.antt =====
-- kernel/bio.c: the buffer cache. `order` is the list through `next` from `bcache.head`, most
-- recently used first, as indices into `bcache.buf`; each function is what runs under
-- `bcache.lock`, up to the acquiresleep by which the caller waits for the buffer.
pub mod Scan
pub mod View
use snu_os.Base.{
  ℕ, zero, suc, ◌+◌, Bool, true, false, not, ◌&&◌, Option, none, some, List, [], ◌∷◌, ◌==◌,
  if◌then◌else◌, update,
}
use snu_os.Base.Bytes.{Bytes}
use snu_os.Base.Outcome.{Outcome, ok, panic, panic_if, ◌>>=◌, ◌>>◌}
use snu_os.Base.Words.{add32, sub32}
use snu_os.Lock.{Sleeplock, fresh_sleeplock, acquiresleep, releasesleep, holdingsleep}
use snu_os.Buffers.{Disk}

abbrev pub nbuf : ℕ
nbuf = 30

abbrev pub root_dev : ℕ
root_dev = 1

-- `struct buf`; `disk` is the virtio driver's.
pub record Buf : Type 0 where
  pub valid : Bool
  pub dev : ℕ
  pub blockno : ℕ
  pub lock : Sleeplock
  pub refcnt : ℕ
  pub content : Bytes

-- The cache with the disk under it.
pub record Bcache : Type 0 where
  pub bufs : ℕ → Buf
  pub order : List ℕ
  pub disk : Disk

-- the list that the loop of binit links, each buffer in front of those before it
abbrev pub link_bufs : ℕ → List ℕ
link_bufs zero = []
link_bufs (suc i) = i ∷ link_bufs i

unfoldable pub binit : Disk → Bcache
binit disk = record {
  bufs = λ i. record {
    valid = false;
    dev = 0;
    blockno = 0;
    lock = fresh_sleeplock;
    refcnt = 0;
    content = λ _. 0;
  };
  order = link_bufs nbuf;
  disk = disk;
}

-- the loop along `next`
unfoldable pub find : (ℕ → Bool) → List ℕ → Option ℕ
find p [] = none
find p (i ∷ is) = if p i then some i else find p is

-- the loop along `prev`
unfoldable pub find_last : (ℕ → Bool) → List ℕ → Option ℕ
find_last p [] = none
find_last p (i ∷ is) = elim (find_last p is) [
  | some j ↦ some j
  | none ↦ (if p i then some i else none)
]

abbrev pub holds_block : ℕ → ℕ → Buf → Bool
holds_block dev blockno b = b.dev == dev && b.blockno == blockno

abbrev pub set_buf : ℕ → Buf → Bcache → Bcache
set_buf i b s = record s { bufs = update s.bufs i b }

-- The second half of bget: recycle the least recently used unused buffer.
unfoldable pub recycle : ℕ → ℕ → Bcache → Outcome (ℕ × Bcache)
unfolding find_last
recycle dev blockno s = elim (find_last (λ i. (s.bufs i).refcnt == 0) s.order) [
  | none ↦ panic
  | some i ↦ ok (
    i,
    set_buf i (record (s.bufs i) { dev = dev; blockno = blockno; valid = false; refcnt = 1 }) s,
  )
]

unfoldable pub bget : ℕ → ℕ → Bcache → Outcome (ℕ × Bcache)
unfolding find recycle
bget dev blockno s = elim (find (λ i. holds_block dev blockno (s.bufs i)) s.order) [
  | some i ↦ ok (i, set_buf i (record (s.bufs i) { refcnt = add32 (s.bufs i).refcnt 1 }) s)
  | none ↦ recycle dev blockno s
]

-- virtio_disk_rw(b, 0), and the rest of bread
unfoldable pub fill : ℕ → Bcache → Bcache
fill i s =
    let b = s.bufs i in
    if b.valid then s else set_buf i (record b { content = s.disk b.blockno; valid = true }) s

-- What bread does by process `pid` with the buffer that bget has found: `none` sleeps in
-- acquiresleep, and goes on from there when the buffer is released.
unfoldable pub bread_locked : ℕ → ℕ → Bcache → Option Bcache
unfolding fill acquiresleep
bread_locked pid i s = elim (acquiresleep pid (s.bufs i).lock) [
  | none ↦ none
  | some lk ↦ some (fill i (set_buf i (record (s.bufs i) { lock = lk }) s))
]

unfoldable pub bwrite : ℕ → ℕ → Bcache → Outcome Bcache
unfolding holdingsleep
bwrite pid i s = do
  panic_if (not (holdingsleep pid (s.bufs i).lock))
  ok (record s { disk = update s.disk (s.bufs i).blockno (s.bufs i).content })

unfoldable pub without : ℕ → List ℕ → List ℕ
without i [] = []
without i (j ∷ js) = let rest = without i js in if i == j then rest else j ∷ rest

unfoldable pub brelse : ℕ → ℕ → Bcache → Outcome Bcache
unfolding holdingsleep releasesleep without
brelse pid i s = do
  panic_if (not (holdingsleep pid (s.bufs i).lock))
  let left = sub32 (s.bufs i).refcnt 1
  let released =
      set_buf i (record (s.bufs i) { lock = releasesleep (s.bufs i).lock; refcnt = left }) s
  ok (if left == 0 then record released { order = i ∷ without i s.order } else released)

unfoldable pub bpin : ℕ → Bcache → Bcache
bpin i s = set_buf i (record (s.bufs i) { refcnt = add32 (s.bufs i).refcnt 1 }) s

unfoldable pub bunpin : ℕ → Bcache → Bcache
bunpin i s = set_buf i (record (s.bufs i) { refcnt = sub32 (s.bufs i).refcnt 1 }) s
