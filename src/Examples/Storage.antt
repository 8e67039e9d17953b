-- ===== src/Examples/Storage.antt =====
-- kernel/bio.c and the free map of kernel/fs.c at a small disk.
use snu_os.Base.{
  ℕ, ◌+◌, ◌<◌, ◌^◌, ◌≡◌, ◌≢◌, refl, ◌⊎◌, true, some, List, ◌∷◌, ◌++◌, elem, arith, update,
}
use snu_os.Base.Bytes.{Bytes}
use snu_os.Base.Outcome.{ok, panic}
use snu_os.Buffers.{Disk, boot, store}
use snu_os.Log.{Log, fresh_log, log_write, record_block}
use snu_os.Lock.{acquiresleep}
use snu_os.Bio.{Bcache, root_dev, binit, set_buf, bget, fill, bread_locked}
use snu_os.Bio.View.{Inv, Got, Shows, holds_at, bget_lem, bread_locked_lem}
use snu_os.Fs.{Superblock}
use snu_os.Fs.Blocks.{mark, balloc}
use snu_os.Fs.Bits.{bit, set_bit}
use snu_os.Fs.Blocks.Laws.{Balloc, balloc-Balloc}

abbrev disk : Disk
disk = λ b _. b

abbrev cold : Bcache
cold = binit disk

cold-Inv : Inv cold
unfolding binit
cold-Inv = record { once = λ b i j p q h h'. ground arith; clean = λ b i p z h w. ground arith }

-- Buffer 29 has been recycled for block 5.
abbrev taken : Bcache
taken = set_buf 29 (record (cold.bufs 29) { dev = root_dev; blockno = 5; refcnt = 1 }) cold

taken-Got : Got 5 taken 29 taken
unfolding binit
taken-Got = record {
  cached = refl;
  block = refl;
  held = λ e. ground (arith, e);
  inv = record { once = λ b i j p q h h'. ground arith; clean = λ b i p z h w. ground arith };
  same = λ b d w. w;
}

abbrev read_in : Bcache
read_in =
    fill 29 (set_buf 29 (record (taken.bufs 29) { lock = record { locked = true; pid = 7 } }) taken)

taken-read_in : bread_locked 7 29 taken ≡ some read_in
unfolding bread_locked acquiresleep binit
taken-read_in = refl

bread_locked_lem_example :
    ((read_in.bufs 29).valid ≡ true)
    × ((d : Bytes) → Shows taken 5 d → (read_in.bufs 29).content ≡ d)
    × Got 5 taken 29 read_in
bread_locked_lem_example = bread_locked_lem 7 5 29 taken read_in taken-Got taken-read_in

cold_small : (i : ℕ) → (cold.bufs i).refcnt + 1 < 2 ^ 32
unfolding binit
cold_small i = omega arith

bget_lem_example :
    (((i : ℕ) → elem i cold.order ≡ true → (cold.bufs i).refcnt ≢ 0)
      × (bget root_dev 5 cold ≡ panic))
    ⊎ ((i : ℕ) × (s' : Bcache) × (bget root_dev 5 cold ≡ ok (i, s'))
        × Got 5 cold i s'
        × ((holds_at cold 5 i ≡ true)
            ⊎ ((newer : List ℕ) × (older : List ℕ) × (cold.order ≡ newer ++ (i ∷ older))
                × ((cold.bufs i).refcnt ≡ 0)
                × ((j : ℕ) → elem j older ≡ true → (cold.bufs j).refcnt ≢ 0))))
bget_lem_example = bget_lem 5 cold cold-Inv cold_small

-- A file system of 8 blocks, of which block 0 is used.
abbrev small_fs : Superblock
small_fs = record { size = 8; ninodes = 4; inodestart = 33; bmapstart = 40 }

abbrev map_disk : Disk
map_disk = update (λ _ _. 0) 40 (update (λ _. 0) 0 1)

abbrev in_op : Log
in_op = record (fresh_log 2 31 (boot map_disk)) { outstanding = 1 }

abbrev marked : Log
marked = record_block 40 (record in_op { bufs = store 40 (mark (map_disk 40) 1) in_op.bufs })

abbrev allocated : Log
allocated = record_block 1 (record marked { bufs = store 1 (λ _. 0) marked.bufs })

balloc_run : balloc small_fs in_op ≡ ok (1, allocated)
unfolding balloc log_write bit set_bit
balloc_run = refl

balloc-Balloc_example : Balloc small_fs in_op 1 allocated
balloc-Balloc_example = balloc-Balloc small_fs in_op 1 allocated balloc_run
