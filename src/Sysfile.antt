-- ===== src/Sysfile.antt =====
-- The system calls of kernel/sysfile.c on file descriptors and paths. `i` is the process that makes
-- the call; a call answers what it leaves in a0.
pub mod Open
pub mod Descriptors
pub mod Io
use snu_os.Base.{
  ℕ, zero, suc, ◌+◌, ◌-◌, ◌*◌, ◌/◌, ◌%◌, ◌^◌, Bool, true, false, not, ◌&&◌, ◌||◌, Option, none,
  some, List, [], ◌∷◌, ltb, leb, ◌==◌, if◌then◌else◌, update,
}
use snu_os.Base.Bytes.{Bytes}
use snu_os.Base.Run.{Run, done, halts, waits, lift, halt_if, ◌>>=◌, ◌>>◌}
use snu_os.Kalloc.{Kmem, kfree}
use snu_os.Pipe.{Pipe, pipeclose}
use snu_os.Files.{
  FileType, fd_inode, fd_device, File, Ftable, filealloc, filedup, Release, nothing, close_pipe,
  put_inode, fileclose,
}
use snu_os.Proc.{Proc, wakeup}
use snu_os.Proc.Life.{Kernel, nofile, set_proc}
use snu_os.Fs.{Superblock}
use snu_os.Fs.Inodes.{State, ilock, iunlock}
use snu_os.Fs.Content.{itrunc, iput, iunlockput}
use snu_os.Fs.Directory.{t_dir}
use snu_os.Fs.Paths.{namei}
use snu_os.Fs.Links.{t_file, t_device, begin_fs, end_fs, link, unlink, create}
use snu_os.Syscall.{minus_one, argint, argstr}

-- MAXPATH and NDEV
abbrev pub max_path : ℕ
max_path = 128

abbrev pub ndev : ℕ
ndev = 10

abbrev pub set_fd : ℕ → ℕ → Option ℕ → Kernel → Kernel
set_fd i fd f s = set_proc i (record (s.procs i) { ofile = update (s.procs i).ofile fd f }) s

-- argfd: the descriptor and the file, or `none` for -1.
unfoldable pub argfd : ℕ → ℕ → Kernel → Run (Option (ℕ × ℕ))
unfolding argint
argfd i n s = do
  fd ← lift (argint i n s)
  done (
      if leb nofile fd
      then none
      else elim ((s.procs i).ofile fd) [ none ↦ none | some f ↦ some (fd, f) ])

-- The loop of fdalloc, `k` descriptors from `fd` on: the first that is free.
unfoldable pub free_fd : ℕ → ℕ → (ℕ → Option ℕ) → Option ℕ
free_fd zero fd ofile = none
free_fd (suc k) fd ofile = elim (ofile fd) [ none ↦ some fd | some f ↦ free_fd k (fd + 1) ofile ]

-- fdalloc: `none` is -1.
unfoldable pub fdalloc : ℕ → ℕ → Kernel → Option (ℕ × Kernel)
unfolding free_fd
fdalloc i f s = elim (free_fd nofile 0 (s.procs i).ofile) [
  | none ↦ none
  | some fd ↦ some (fd, set_fd i fd (some f) s)
]

-- sys_dup behind argfd
unfoldable pub dup_file : ℕ → ℕ → Kernel → Run (ℕ × Kernel)
unfolding fdalloc filedup
dup_file i f s = elim (fdalloc i f s) [
  | none ↦ done (minus_one, s)
  | some (fd, s1) ↦ (lift (filedup f s1.files) >>= λ files. done (fd, record s1 { files = files }))
]

unfoldable pub sys_dup : ℕ → Kernel → Run (ℕ × Kernel)
unfolding argfd dup_file
sys_dup i s =
    argfd i 0 s >>= λ r. elim r [ none ↦ done (minus_one, s) | some (old, f) ↦ dup_file i f s ]

-- where the fields `nread` and `nwrite` of a pipe stand
abbrev pub nread_at : ℕ → ℕ
nread_at pi = pi + 536

abbrev pub nwrite_at : ℕ → ℕ
nwrite_at pi = pi + 540

-- `kend` is the end of the kernel, the others are as in namex.
module _ (kend : ℕ) (sb : Superblock) (de name : Bytes) where
  -- what fileclose does once it has given up the lock of the table
  unfoldable pub release_file : ℕ → Release → Kernel → Run Kernel
  unfolding pipeclose wakeup kfree begin_fs iput end_fs
  release_file i nothing s = done s
  release_file i (close_pipe pi writable) s = do
    let (last, p) = pipeclose writable (s.pipes pi)
    let chan = if writable then nread_at pi else nwrite_at pi
    mem ← if last then lift (kfree kend s.mem pi) else done s.mem
    done (record s { pipes = update s.pipes pi p; procs = wakeup (some i) chan s.procs; mem = mem })
  release_file i (put_inode ip) s = do
    fs1 ← begin_fs s.fs
    fs2 ← iput sb (s.procs i).pid ip fs1
    fs3 ← end_fs fs2
    done (record s { fs = fs3 })

  unfoldable pub close_file : ℕ → ℕ → Kernel → Run Kernel
  unfolding fileclose release_file
  close_file i f s = do
    (release, files) ← lift (fileclose f s.files)
    release_file i release (record s { files = files })

  -- sys_close behind argfd
  unfoldable pub close_fd : ℕ → ℕ → ℕ → Kernel → Run (ℕ × Kernel)
  unfolding close_file
  close_fd i fd f s = do s' ← close_file i f (set_fd i fd none s); done (0, s')

  unfoldable pub sys_close : ℕ → Kernel → Run (ℕ × Kernel)
  unfolding argfd close_fd
  sys_close i s =
      argfd i 0 s >>= λ r. elim r [ none ↦ done (minus_one, s) | some (fd, f) ↦ close_fd i fd f s ]

  -- what a call on the file system that answers a Bool leaves
  abbrev pub answer : Kernel → Run (Bool × State) → Run (ℕ × Kernel)
  answer s m = m >>= λ r. done (if r.0 then 0 else minus_one, record s { fs = r.1 })

  unfoldable pub sys_link : ℕ → Kernel → Run (ℕ × Kernel)
  unfolding argstr link
  sys_link i s = do
    old ← lift (argstr i 0 max_path s)
    elim old [
      | none ↦ done (minus_one, s)
      | some from ↦
          (lift (argstr i 1 max_path s) >>= λ new. elim new [
            | none ↦ done (minus_one, s)
            | some to ↦ answer s (link sb de name (s.procs i).pid (s.procs i).cwd from to s.fs)
          ])
    ]

  unfoldable pub sys_unlink : ℕ → Kernel → Run (ℕ × Kernel)
  unfolding argstr unlink
  sys_unlink i s = do
    arg ← lift (argstr i 0 max_path s)
    elim arg [
      | none ↦ done (minus_one, s)
      | some path ↦ answer s (unlink sb de name (s.procs i).pid (s.procs i).cwd path s.fs)
    ]

  -- create by process `i`, and iunlockput and end_op on the way out of sys_mkdir and sys_mknod
  unfoldable pub make_inode : ℕ → List ℕ → ℕ → ℕ → ℕ → Kernel → State → Run (ℕ × Kernel)
  unfolding create iunlockput end_fs
  make_inode i path type_of major minor s fs = do
    let p = s.procs i
    (made, fs1) ← create sb de name p.pid p.cwd path type_of major minor fs
    fs2 ← elim made [ none ↦ done fs1 | some ip ↦ iunlockput sb p.pid ip fs1 ]
    fs3 ← end_fs fs2
    done (elim made [ none ↦ minus_one | some ip ↦ 0 ], record s { fs = fs3 })

  -- a failure behind begin_op
  abbrev pub give_up : Kernel → State → Run (ℕ × Kernel)
  give_up s fs = end_fs fs >>= λ fs'. done (minus_one, record s { fs = fs' })

  unfoldable pub sys_mkdir : ℕ → Kernel → Run (ℕ × Kernel)
  unfolding begin_fs argstr make_inode end_fs
  sys_mkdir i s = do
    fs ← begin_fs s.fs
    arg ← lift (argstr i 0 max_path s)
    elim arg [ none ↦ give_up s fs | some path ↦ make_inode i path t_dir 0 0 s fs ]

  unfoldable pub sys_mknod : ℕ → Kernel → Run (ℕ × Kernel)
  unfolding begin_fs argint argstr make_inode end_fs
  sys_mknod i s = do
    fs ← begin_fs s.fs
    major ← lift (argint i 1 s)
    minor ← lift (argint i 2 s)
    arg ← lift (argstr i 0 max_path s)
    elim arg [
      | none ↦ give_up s fs
      | some path ↦ make_inode i path t_device (major % 2 ^ 16) (minor % 2 ^ 16) s fs
    ]

  -- sys_chdir behind namei, with the directory `ip`
  unfoldable pub change_dir : ℕ → ℕ → Kernel → State → Run (ℕ × Kernel)
  unfolding ilock iunlockput end_fs iunlock iput
  change_dir i ip s fs = do
    let p = s.procs i
    fs1 ← ilock sb p.pid ip fs
    if not ((fs1.inodes ip).type_of == t_dir)
        then (iunlockput sb p.pid ip fs1 >>= give_up s)
        else (iunlock p.pid ip fs1 >>= λ fs2. iput sb p.pid p.cwd fs2 >>= λ fs3.
            end_fs fs3 >>= λ fs4.
            done (0, set_proc i (record p { cwd = ip }) (record s { fs = fs4 })))

  unfoldable pub sys_chdir : ℕ → Kernel → Run (ℕ × Kernel)
  unfolding begin_fs argstr namei end_fs change_dir
  sys_chdir i s = do
    let p = s.procs i
    fs ← begin_fs s.fs
    arg ← lift (argstr i 0 max_path s)
    elim arg [
      | none ↦ give_up s fs
      | some path ↦
          (namei sb de p.pid p.cwd path name fs >>= λ r. elim (r.0) [
            | none ↦ give_up s r.2
            | some ip ↦ change_dir i ip s r.2
          ])
    ]
