-- ===== src/Exit.antt =====
-- exit of kernel/proc.c, up to the call of sched that does not return.
pub mod Keeps
pub mod Counts
pub mod Family
use snu_os.Base.{ℕ, zero, suc, ◌+◌, Option, none, some, List, ◌==◌, update}
use snu_os.Base.Bytes.{Bytes}
use snu_os.Base.Run.{Run, done, halt_if, ◌>>=◌, ◌>>◌}
use snu_os.Proc.{Table, zombie, leave_family}
use snu_os.Proc.Life.{Kernel, nofile, set_proc}
use snu_os.Fs.{Superblock}
use snu_os.Fs.Content.{iput}
use snu_os.Fs.Links.{begin_fs, end_fs}
use snu_os.Sysfile.{set_fd, close_file}

-- What exit does from reparent() on: the children go to init, the parent wakes up, and the process is
-- a zombie. `init` is initproc and `at i` the address of `proc[i]`.
unfoldable pub become_zombie : ℕ → (ℕ → ℕ) → ℕ → ℕ → Table → Table
become_zombie init at i status t =
    let left = leave_family init at i t in
    update left i (record (left i) { xstate = status; state = zombie })

-- `kend` and the others as in fileclose.
module _ (kend : ℕ) (sb : Superblock) (de name : Bytes) where
  -- The loop of exit over the descriptors, `k` of them from `fd` on.
  unfoldable pub close_all : ℕ → ℕ → ℕ → Kernel → Run Kernel
  close_all zero fd i s = done s
  close_all (suc k) fd i s = elim ((s.procs i).ofile fd) [
    | none ↦ close_all k (fd + 1) i s
    | some f ↦
        (close_file kend sb de name i f s >>= λ s'. close_all k (fd + 1) i (set_fd i fd none s'))
  ]

  -- The current directory is given back; nothing reads `p->cwd` of a zombie.
  unfoldable pub leave_directory : ℕ → Kernel → Run Kernel
  leave_directory i s = begin_fs s.fs >>= λ fs1.
      iput sb (s.procs i).pid (s.procs i).cwd fs1 >>= λ fs2. end_fs fs2 >>= λ fs3.
      done (set_proc i (record (s.procs i) { cwd = 0 }) (record s { fs = fs3 }))

  unfoldable pub exit : ℕ → (ℕ → ℕ) → ℕ → ℕ → Kernel → Run Kernel
  exit init at i status s =
      halt_if (i == init)
      >> (close_all nofile 0 i s >>= λ s1. leave_directory i s1 >>= λ s2.
          done (record s2 { procs = become_zombie init at i status s2.procs }))
