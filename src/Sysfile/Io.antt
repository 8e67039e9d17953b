-- ===== src/Sysfile/Io.antt =====
-- filestat, fileread and filewrite of kernel/file.c, and the system calls of kernel/sysfile.c on
-- them. No page of user memory is a page table or a buffer, so a copy of several pages stands for
-- the copies of the loops.
use snu_os.Base.{
  ℕ, zero, suc, ◌+◌, ◌-◌, ◌*◌, ◌/◌, ◌^◌, min, Bool, true, false, not, ◌||◌, Option, none, some,
  List, [], ◌∷◌, length, ltb, leb, ◌==◌, if◌then◌else◌, update,
}
use snu_os.Base.Bytes.{Bytes, put16, put32}
use snu_os.Base.Run.{Run, done, halts, waits, lift, ◌>>=◌}
use snu_os.Base.Words.{add32, sub32, lt_int, rounds}
use snu_os.Kalloc.{Kmem, page_size}
use snu_os.Log.{max_op_blocks, block_size}
use snu_os.Pipe.{got, refused, waiting, wrote, failed, asleep, piperead, pipewrite}
use snu_os.Vm.{round_down, walkaddr, copyin, copyout}
use snu_os.Files.{fd_none, fd_pipe, fd_inode, fd_device}
use snu_os.Proc.{wakeup}
use snu_os.Proc.Life.{Kernel}
use snu_os.Fs.{Superblock}
use snu_os.Fs.Inodes.{Stat, ilock, iunlock, stati}
use snu_os.Fs.Content.{readi, writei}
use snu_os.Fs.Links.{begin_fs, end_fs}
use snu_os.Syscall.{minus_one, argint, argaddr}
use snu_os.Sysfile.{ndev, argfd, nread_at, nwrite_at}
use snu_os.Sysfile.Open.{set_file}

-- an int that a system call returns, as a uint64
abbrev pub extend_sign : ℕ → ℕ
extend_sign r = if lt_int r 0 then r + (2 ^ 64 - 2 ^ 32) else r

-- `struct stat` over what stood on the stack
abbrev pub stat_bytes : Bytes → Stat → Bytes
stat_bytes b st =
    put32
      (put32 (put16 (put16 (put32 (put32 b 0 st.dev) 4 st.ino) 8 st.type_of) 10 st.nlink) 16
        st.size)
      20 0

-- How many of `len` bytes from `va` on are mapped without a gap, on top of `i`.
unfoldable pub reach_from : ℕ → ℕ → ℕ → ℕ → ℕ → Kmem → ℕ
reach_from zero pt va len i k = i
reach_from (suc fuel) pt va len i k =
    let va0 = round_down va in
    let n = min len (page_size - (va - va0)) in
    elim (len == 0 || walkaddr pt va0 k == 0) [
      | true ↦ i
      | false ↦ reach_from fuel pt (va0 + page_size) (len - n) (i + n) k
    ]

unfoldable pub user_reach : ℕ → ℕ → ℕ → Kmem → ℕ
unfolding reach_from
user_reach pt va len k = reach_from len pt va len 0 k

-- the bytes that piperead copies out, one by one
unfoldable pub put_each : ℕ → ℕ → List ℕ → Kmem → Kmem
unfolding copyout
put_each pt addr [] k = k
put_each pt addr (c ∷ cs) k = put_each pt (addr + 1) cs (copyout pt addr (λ _. c) 1 k).1

-- `f->off += r` for an int `r` above 0
abbrev pub advance : ℕ → ℕ → Kernel → Kernel
advance f r s =
    if lt_int 0 r then set_file f (record (s.files f) { off = add32 (s.files f).off r }) s else s

-- piperead on the pipe of a file: what it returns, as an int.
unfoldable pub read_pipe : ℕ → ℕ → ℕ → ℕ → Kernel → Run (ℕ × Kernel)
unfolding copyout piperead wakeup put_each
read_pipe i pi addr n s =
    let p = s.procs i in
    let fits : ℕ → Bool = λ j. (copyout p.pagetable (addr + j) (λ _. 0) 1 s.mem).0 in
    let (how, pipe) = piperead fits p.killed (rounds n) (s.pipes pi) in
    elim how [
      | waiting ↦ waits
      | refused ↦ done (sub32 0 1, s)
      | got out ↦ done (
        length out,
        record s {
          pipes = update s.pipes pi pipe;
          procs = wakeup (some i) (nwrite_at pi) s.procs;
          mem = put_each p.pagetable addr out s.mem;
        },
      )
    ]

-- pipewrite on the pipe of a file; a write that sleeps does not return.
unfoldable pub write_pipe : ℕ → ℕ → ℕ → ℕ → Kernel → Run (ℕ × Kernel)
unfolding copyin pipewrite wakeup
write_pipe i pi addr n s =
    let p = s.procs i in
    let src : ℕ → Option ℕ = λ j.
      (let (copied, b) = copyin p.pagetable (λ _. 0) (addr + j) 1 s.mem in
        if copied then some (b 0) else none) in
    let (how, pipe) = pipewrite src (λ _. p.killed) (rounds n) (s.pipes pi) in
    let after = record s { pipes = update s.pipes pi pipe } in
    elim how [
      | asleep m ↦ waits
      | failed ↦ done (sub32 0 1, after)
      | wrote m ↦ done (m, record after { procs = wakeup (some i) (nread_at pi) s.procs })
    ]

-- The table devsw: what stands at a major number, a function that reads or writes `n` bytes at a
-- user address for a process.
abbrev pub Devices : Type 0
Devices = ℕ → Option (ℕ → ℕ → ℕ → Kernel → Run (ℕ × Kernel))

-- a call through devsw
abbrev pub call_device : Devices → ℕ → ℕ → ℕ → ℕ → Kernel → Run (ℕ × Kernel)
call_device devsw major i addr n s =
    if leb ndev major
    then done (sub32 0 1, s)
    else elim (devsw major) [ none ↦ done (sub32 0 1, s) | some run ↦ run i addr n s ]

-- `de` is what stands in the local variable, as in dirlookup.
module _ (sb : Superblock) (de : Bytes) where
  -- filestat by process `i`: whether it returns 0.
  unfoldable pub filestat : ℕ → ℕ → ℕ → Kernel → Run (Bool × Kernel)
  unfolding ilock stati iunlock copyout
  filestat i f addr s =
      let p = s.procs i in
      let ip = (s.files f).ip in
      let stat : Run (Bool × Kernel) =
        (ilock sb p.pid ip s.fs >>= λ fs1. iunlock p.pid ip fs1 >>= λ fs2.
        let (copied, mem) = copyout p.pagetable addr (stat_bytes de (stati ip fs1)) 24 s.mem in
        done (copied, record s { fs = fs2; mem = mem })) in
      elim (s.files f).type_of [
        | fd_inode ↦ stat
        | fd_device ↦ stat
        | fd_none ↦ done (false, s)
        | fd_pipe ↦ done (false, s)
      ]

  -- the branch of fileread for an inode
  unfoldable pub read_inode : ℕ → ℕ → ℕ → ℕ → Kernel → Run (ℕ × Kernel)
  unfolding ilock user_reach readi iunlock copyout
  read_inode i f addr n s = do
    let p = s.procs i
    let ip = (s.files f).ip
    let reach = user_reach p.pagetable addr n s.mem
    fs1 ← ilock sb p.pid ip s.fs
    (r, bytes, fs2) ← readi sb reach ip (s.files f).off n (λ _. 0) fs1
    fs3 ← iunlock p.pid ip fs2
    let mem = (copyout p.pagetable addr bytes (if lt_int r 0 then reach else r) s.mem).1
    done (r, advance f r (record s { fs = fs3; mem = mem }))

  unfoldable pub fileread : Devices → ℕ → ℕ → ℕ → ℕ → Kernel → Run (ℕ × Kernel)
  unfolding read_pipe read_inode
  fileread devsw i f addr n s =
      let file = s.files f in
      if not file.readable then done (sub32 0 1, s) else elim file.type_of [
        | fd_pipe ↦ read_pipe i file.pipe addr n s
        | fd_device ↦ call_device devsw file.major i addr n s
        | fd_inode ↦ read_inode i f addr n s
        | fd_none ↦ halts
      ]

  -- `max` of filewrite
  abbrev pub max_write : ℕ
  max_write = (max_op_blocks - 1 - 1 - 2) / 2 * block_size

  -- one transaction of filewrite: `n1` bytes at `addr`
  unfoldable pub write_piece : ℕ → ℕ → ℕ → ℕ → Kernel → Run (ℕ × Kernel)
  unfolding begin_fs ilock user_reach copyin writei iunlock end_fs
  write_piece i f addr n1 s = do
    let p = s.procs i
    let ip = (s.files f).ip
    let bytes = (copyin p.pagetable (λ _. 0) addr n1 s.mem).1
    fs1 ← begin_fs s.fs
    fs2 ← ilock sb p.pid ip fs1
    (r, fs3) ← writei sb (user_reach p.pagetable addr n1 s.mem) ip (s.files f).off n1 bytes fs2
    fs4 ← iunlock p.pid ip fs3
    fs5 ← end_fs fs4
    done (r, advance f r (record s { fs = fs5 }))

  -- The loop of filewrite at `at`, on fuel; it returns `i` of the source.
  unfoldable pub write_pieces : ℕ → ℕ → ℕ → ℕ → ℕ → ℕ → Kernel → Run (ℕ × Kernel)
  unfolding write_piece
  write_pieces zero at i f addr n s = done (at, s)
  write_pieces (suc fuel) at i f addr n s =
      let n1 = min (n - at) max_write in
      elim (ltb at n) [
        | false ↦ done (at, s)
        | true ↦
            (write_piece i f (addr + at) n1 s >>= λ r.
            if not (r.0 == n1) then done (at, r.1) else write_pieces fuel (at + n1) i f addr n r.1)
      ]

  -- One round for each byte at most.
  unfoldable pub filewrite : Devices → ℕ → ℕ → ℕ → ℕ → Kernel → Run (ℕ × Kernel)
  unfolding write_pipe write_pieces
  filewrite devsw i f addr n s =
      let file = s.files f in
      if not file.writable then done (sub32 0 1, s) else elim file.type_of [
        | fd_pipe ↦ write_pipe i file.pipe addr n s
        | fd_device ↦ call_device devsw file.major i addr n s
        | fd_inode ↦
            (write_pieces (rounds n) 0 i f addr (rounds n) s >>= λ r.
            done (if r.0 == n then n else sub32 0 1, r.1))
        | fd_none ↦ halts
      ]

  -- `devsw` is the table of the read functions.
  unfoldable pub sys_read : Devices → ℕ → Kernel → Run (ℕ × Kernel)
  unfolding argaddr argint argfd fileread
  sys_read devsw i s = do
    addr ← lift (argaddr i 1 s)
    n ← lift (argint i 2 s)
    arg ← argfd i 0 s
    elim arg [
      | none ↦ done (minus_one, s)
      | some (fd, f) ↦ (fileread devsw i f addr n s >>= λ r. done (extend_sign r.0, r.1))
    ]

  -- `devsw` is the table of the write functions.
  unfoldable pub sys_write : Devices → ℕ → Kernel → Run (ℕ × Kernel)
  unfolding argaddr argint argfd filewrite
  sys_write devsw i s = do
    addr ← lift (argaddr i 1 s)
    n ← lift (argint i 2 s)
    arg ← argfd i 0 s
    elim arg [
      | none ↦ done (minus_one, s)
      | some (fd, f) ↦ (filewrite devsw i f addr n s >>= λ r. done (extend_sign r.0, r.1))
    ]

  unfoldable pub sys_fstat : ℕ → Kernel → Run (ℕ × Kernel)
  unfolding argaddr argfd filestat
  sys_fstat i s = do
    addr ← lift (argaddr i 1 s)
    arg ← argfd i 0 s
    elim arg [
      | none ↦ done (minus_one, s)
      | some (fd, f) ↦ (filestat i f addr s >>= λ r. done (if r.0 then 0 else minus_one, r.1))
    ]
