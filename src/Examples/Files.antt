-- ===== src/Examples/Files.antt =====
-- Inodes, files and paths of kernel/fs.c on a small disk.
use snu_os.Base.{
  ℕ, ◌<◌, ◌≡◌, ◌≢◌, refl, ◌⊎◌, true, false, List, [], ◌∷◌, arith, update, ◌==◌, if◌then◌else◌,
}
use snu_os.Base.Run.{done, halts}
use snu_os.Buffers.{boot, store}
use snu_os.Log.{Log, fresh_log, log_write, record_block}
use snu_os.Lock.{fresh_sleeplock}
use snu_os.Fs.{Superblock}
use snu_os.Fs.Bits.{bit, set_bit}
use snu_os.Fs.Blocks.{mark, balloc}
use snu_os.Fs.Inodes.{ninode, State, is_inode, dinode_at, put_dinode, load_inode, iget, iupdate}
use snu_os.Fs.Inodes.Unique.{IsUnique, AreCounts, Got, iget-Got}
use snu_os.Fs.Inodes.Disk.{Fits, SameDinode, load_inode-iupdate, iupdate-others}
use snu_os.Fs.Content.{set_addr, own_block, bmap}
use snu_os.Fs.Content.Laws.{bmap_again}
use snu_os.Fs.Paths.{split_path}
use snu_os.Fs.Paths.Elements.{Split, split_path-Split}

abbrev pub little_fs : Superblock
little_fs = record { size = 8; ninodes = 20; inodestart = 33; bmapstart = 40 }

-- Block 0 is used, and an operation is in progress.
abbrev op_log : Log
op_log = record (fresh_log 2 31 (boot (update (λ _ _. 0) 40 (update (λ _. 0) 0 1)))) {
  outstanding = 1;
}

-- Slot 3 has inode 7, a file of no blocks, and the other slots are empty.
abbrev pub one_inode : State
one_inode = record {
  log = op_log;
  inodes = λ i. record {
    dev = 1;
    inum = 7;
    ref = if i == 3 then 1 else 0;
    lock = fresh_sleeplock;
    valid = true;
    type_of = 2;
    major = 0;
    minor = 0;
    nlink = 1;
    size = 300;
    addrs = λ _. 0;
  };
}

one_inode-IsUnique : IsUnique one_inode.inodes
one_inode-IsUnique = record { once = λ i j p q r r' d n. ground arith }

one_inode-AreCounts : AreCounts one_inode.inodes
one_inode-AreCounts j = ground arith

iget-Got_example :
    ((iget 1 7 one_inode ≡ halts)
      × ((j : ℕ)
          → j < ninode
          → (is_inode 1 7 (one_inode.inodes j) ≡ false) × ((one_inode.inodes j).ref ≢ 0)))
    ⊎ ((i : ℕ) × (s' : State) × (iget 1 7 one_inode ≡ done (i, s')) × Got 1 7 one_inode i s')
iget-Got_example = iget-Got 1 7 one_inode one_inode-IsUnique one_inode-AreCounts

abbrev updated : State
updated = record one_inode {
  log = record_block 33 (record op_log {
    bufs =
        store 33 (put_dinode (one_inode.inodes 3) (dinode_at 7) (op_log.bufs.view 33)) op_log.bufs;
  });
}

updated_run : iupdate little_fs 3 one_inode ≡ done updated
unfolding iupdate log_write
updated_run = refl

one_inode-Fits : Fits (one_inode.inodes 3)
one_inode-Fits = record {
  shorts = (omega arith, omega arith, omega arith, omega arith);
  uints = omega arith;
  addresses = λ j p. omega arith;
}

load_inode-iupdate_example : SameDinode (load_inode little_fs 5 updated) (one_inode.inodes 3)
load_inode-iupdate_example =
    load_inode-iupdate little_fs 3 5 one_inode updated one_inode-Fits refl updated_run

iupdate-others_example : updated.log.bufs.view 33 515 ≡ 0
iupdate-others_example =
    iupdate-others little_fs 3 one_inode updated updated_run 8 515 (λ e. omega (arith, e))
      (omega arith) (omega arith)

abbrev map_marked : Log
map_marked =
    record_block 40 (record op_log { bufs = store 40 (mark (op_log.bufs.view 40) 1) op_log.bufs })

abbrev with_block : Log
with_block = record_block 1 (record map_marked { bufs = store 1 (λ _. 0) map_marked.bufs })

-- The first block of the file is new.
abbrev grown : State
grown = set_addr 3 0 1 (record one_inode { log = with_block })

grown_run : bmap little_fs 3 0 one_inode ≡ done (1, grown)
unfolding bmap own_block balloc log_write bit set_bit
grown_run = refl

bmap_again_example : bmap little_fs 3 0 grown ≡ done (1, grown)
bmap_again_example =
    bmap_again little_fs (omega arith) 3 0 one_inode 1 grown grown_run (omega arith)

-- The path "//a/bb/".
abbrev slashes : List ℕ
slashes = 47 ∷ 47 ∷ 97 ∷ 47 ∷ 98 ∷ 98 ∷ 47 ∷ []

split_path-Split_example : Split slashes (split_path slashes)
split_path-Split_example = split_path-Split slashes
