-- ===== src/Sysfile/Open.antt =====
-- sys_open of kernel/sysfile.c, and pipealloc of kernel/pipe.c with sys_pipe.
use snu_os.Base.{
  ℕ, ◌+◌, ◌/◌, ◌%◌, ◌^◌, Bool, true, false, not, ◌&&◌, ◌||◌, Option, none, some, List, leb, ◌==◌,
  if◌then◌else◌, update,
}
use snu_os.Base.Bytes.{Bytes, put32}
use snu_os.Base.Run.{Run, done, lift, ◌>>=◌}
use snu_os.Kalloc.{kalloc}
use snu_os.Pipe.{fresh_pipe}
use snu_os.Vm.{copyout}
use snu_os.Files.{fd_pipe, fd_inode, fd_device, File, filealloc}
use snu_os.Proc.{Proc}
use snu_os.Proc.Life.{Kernel}
use snu_os.Fs.{Superblock}
use snu_os.Fs.Inodes.{State, ilock, iunlock}
use snu_os.Fs.Content.{itrunc, iunlockput}
use snu_os.Fs.Directory.{t_dir}
use snu_os.Fs.Paths.{namei}
use snu_os.Fs.Links.{t_file, t_device, begin_fs, end_fs, create}
use snu_os.Syscall.{minus_one, argint, argaddr, argstr}
use snu_os.Sysfile.{max_path, ndev, set_fd, fdalloc, close_file, give_up}

-- `omode` with O_WRONLY, O_RDWR, O_CREATE and O_TRUNC
abbrev pub o_wronly : ℕ → Bool
o_wronly omode = omode % 2 == 1

abbrev pub o_rdwr : ℕ → Bool
o_rdwr omode = omode / 2 % 2 == 1

abbrev pub o_create : ℕ → Bool
o_create omode = omode / 0x200 % 2 == 1

abbrev pub o_trunc : ℕ → Bool
o_trunc omode = omode / 0x400 % 2 == 1

abbrev pub set_file : ℕ → File → Kernel → Kernel
set_file f file s = record s { files = update s.files f file }

-- `kend`, `sb`, `de` and `name` as in sys_link.
module _ (kend : ℕ) (sb : Superblock) (de name : Bytes) where
  -- the locked inode that sys_open opens by process `i`, or `none`
  unfoldable pub find_open : Proc → ℕ → List ℕ → State → Run (Option ℕ × State)
  unfolding create namei ilock iunlockput
  find_open p omode path s =
      if o_create omode
      then create sb de name p.pid p.cwd path t_file 0 0 s
      else (namei sb de p.pid p.cwd path name s >>= λ r. elim (r.0) [
        | none ↦ done (none, r.2)
        | some ip ↦
            (ilock sb p.pid ip r.2 >>= λ s1.
            if (s1.inodes ip).type_of == t_dir && not (omode == 0)
            then (iunlockput sb p.pid ip s1 >>= λ s2. done (none, s2))
            else done (some ip, s1))
      ])

  -- filealloc and fdalloc of sys_open: the file and its descriptor
  unfoldable pub open_file : ℕ → Kernel → Run (Option (ℕ × ℕ) × Kernel)
  unfolding filealloc fdalloc close_file
  open_file i s = elim (filealloc s.files) [
    | none ↦ done (none, s)
    | some (f, files) ↦ elim (fdalloc i f (record s { files = files })) [
      | none ↦
          (close_file kend sb de name i f (record s { files = files }) >>= λ s1. done (none, s1))
      | some (fd, s1) ↦ done (some (f, fd), s1)
    ]
  ]

  -- the assignments of sys_open to the file `f`, which opens the inode `ip`
  abbrev pub opened : ℕ → ℕ → Kernel → File → File
  opened omode ip s f =
      let node = s.fs.inodes ip in
      let device = node.type_of == t_device in
      record f {
        type_of = if device then fd_device else fd_inode;
        major = if device then node.major else f.major;
        off = if device then f.off else 0;
        ip = ip;
        readable = not (o_wronly omode);
        writable = o_wronly omode || o_rdwr omode;
      }

  -- sys_open with the locked inode `ip` in hand
  unfoldable pub open_inode : ℕ → ℕ → ℕ → Kernel → Run (ℕ × Kernel)
  unfolding iunlockput end_fs open_file itrunc iunlock
  open_inode i omode ip s =
      let p = s.procs i in
      let node = s.fs.inodes ip in
      if node.type_of == t_device && leb ndev node.major
      then (iunlockput sb p.pid ip s.fs >>= give_up kend sb de name s)
      else (open_file i s >>= λ r. elim (r.0) [
        | none ↦ (iunlockput sb p.pid ip (r.1).fs >>= give_up kend sb de name r.1)
        | some (f, fd) ↦
            (let s1 = set_file f (opened omode ip r.1 ((r.1).files f)) r.1 in
              (if o_trunc omode && node.type_of == t_file then itrunc sb ip s1.fs else done s1.fs)
              >>= λ fs1. iunlock p.pid ip fs1 >>= λ fs2.
                  end_fs fs2 >>= λ fs3. done (fd, record s1 { fs = fs3 }))
      ])

  unfoldable pub sys_open : ℕ → Kernel → Run (ℕ × Kernel)
  unfolding argint argstr begin_fs find_open open_inode end_fs
  sys_open i s = do
    omode ← lift (argint i 1 s)
    arg ← lift (argstr i 0 max_path s)
    elim arg [
      | none ↦ done (minus_one, s)
      | some path ↦
          (begin_fs s.fs >>= λ fs. find_open (s.procs i) omode path fs >>= λ r. elim (r.0) [
            | none ↦ give_up kend sb de name s r.1
            | some ip ↦ open_inode i omode ip (record s { fs = r.1 })
          ])
    ]

  -- the end of a pipe that the file `f` becomes
  abbrev pub pipe_end : ℕ → Bool → File → File
  pipe_end pi reads f = record f {
    type_of = fd_pipe;
    readable = reads;
    writable = not reads;
    pipe = pi;
  }

  -- pipealloc with both files in hand
  unfoldable pub make_pipe : ℕ → ℕ → ℕ → Kernel → Run (Option (ℕ × ℕ) × Kernel)
  unfolding close_file
  make_pipe i f0 f1 s = do
    let (pi, mem) = kalloc s.mem
    let s1 = record s { mem = mem }
    if pi == 0
        then (close_file kend sb de name i f0 s1 >>= λ s2.
            close_file kend sb de name i f1 s2 >>= λ s3. done (none, s3))
        else (let s2 = record s1 { pipes = update s1.pipes pi (fresh_pipe (s1.pipes pi).bytes) } in
            let s3 = set_file f0 (pipe_end pi true (s2.files f0)) s2 in
            done (some (f0, f1), set_file f1 (pipe_end pi false (s3.files f1)) s3))

  -- pipealloc: the two files, or `none` for -1.
  unfoldable pub pipealloc : ℕ → Kernel → Run (Option (ℕ × ℕ) × Kernel)
  unfolding filealloc close_file make_pipe
  pipealloc i s = elim (filealloc s.files) [
    | none ↦ done (none, s)
    | some (f0, t) ↦ elim (filealloc t) [
      | none ↦ (close_file kend sb de name i f0 (record s { files = t }) >>= λ s1. done (none, s1))
      | some (f1, t') ↦ make_pipe i f0 f1 (record s { files = t' })
    ]
  ]

  -- a failure of sys_pipe, with both files closed
  abbrev pub drop_pipe : ℕ → ℕ → ℕ → Kernel → Run (ℕ × Kernel)
  drop_pipe i rf wf s = close_file kend sb de name i rf s >>= λ s1.
      close_file kend sb de name i wf s1 >>= λ s2. done (minus_one, s2)

  -- sys_pipe with both descriptors in hand
  unfoldable pub report_pipe : ℕ → ℕ → ℕ → ℕ → ℕ → ℕ → Kernel → Run (ℕ × Kernel)
  unfolding copyout close_file
  report_pipe i fdarray rf wf fd0 fd1 s =
      let pt = (s.procs i).pagetable in
      let (first, mem1) = copyout pt fdarray (put32 (λ _. 0) 0 fd0) 4 s.mem in
      let (second, mem2) = copyout pt ((fdarray + 4) % 2 ^ 64) (put32 (λ _. 0) 0 fd1) 4 mem1 in
      if not first || not second
      then drop_pipe i rf wf
          (set_fd i fd1 none (set_fd i fd0 none (record s { mem = if first then mem2 else mem1 })))
      else done (0, record s { mem = mem2 })

  unfoldable pub sys_pipe : ℕ → Kernel → Run (ℕ × Kernel)
  unfolding argaddr pipealloc fdalloc close_file report_pipe
  sys_pipe i s = do
    fdarray ← lift (argaddr i 0 s)
    (made, s1) ← pipealloc i s
    elim made [
      | none ↦ done (minus_one, s1)
      | some (rf, wf) ↦ elim (fdalloc i rf s1) [
        | none ↦ drop_pipe i rf wf s1
        | some (fd0, s2) ↦ elim (fdalloc i wf s2) [
          | none ↦ drop_pipe i rf wf (set_fd i fd0 none s2)
          | some (fd1, s3) ↦ report_pipe i fdarray rf wf fd0 fd1 s3
        ]
      ]
    ]
