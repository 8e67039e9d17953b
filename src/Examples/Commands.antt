-- ===== src/Examples/Commands.antt =====
-- exec of kernel/exec.c on a file that is no program, and exit of kernel/proc.c.
use snu_os.Base.{ℕ, ◌==◌, if◌then◌else◌, some, ◌+◌, ◌⊎◌, ◌≡◌, refl, arith, Option, none, []}
use snu_os.Base.Run.{done, waits, halts}
use snu_os.Lock.{acquiresleep, releasesleep, holdingsleep}
use snu_os.Log.{begin_op, end_op}
use snu_os.Fs.Inodes.{State, idup, ilock, iunlock}
use snu_os.Fs.Content.{readi, readi_from, iput, iunlockput}
use snu_os.Fs.Links.{begin_fs, end_fs}
use snu_os.Fs.Paths.{skipelem, skip_slashes, namex_from, namex, namei}
use snu_os.Base.Outcome.{ok, panic}
use snu_os.Proc.Life.{Kernel, WaitEnd, wait}
use snu_os.Files.{fileclose}
use snu_os.Sysfile.{close_file, release_file}
use snu_os.Exit.{close_all, leave_directory, exit}
use snu_os.Exit.Family.{Reaped, Exited, exit-Exited, exit-wait}
use snu_os.Exec.{load_image, exec_inode, exec}
use snu_os.Examples.Files.{one_inode, little_fs}
use snu_os.Examples.Spaces.{family, end_of_kernel}

-- Process 0 stands in an inode that is an empty file.
abbrev idle_fs : State
idle_fs = record one_inode { inodes = λ i. record (one_inode.inodes i) { size = 0 } }

abbrev caller : Kernel
caller = record family { fs = idle_fs; procs = λ i. record (family.procs i) { cwd = 3 } }

abbrev exec_result : Option ℕ × Kernel
exec_result = elim (exec end_of_kernel 0 0 little_fs (λ _. 0) (λ _. 0) 0 [] [] caller) [
  | done r ↦ r
  | halts ↦ (none, caller)
  | waits ↦ (none, caller)
]

exec_run : exec end_of_kernel 0 0 little_fs (λ _. 0) (λ _. 0) 0 [] [] caller ≡ done exec_result
unfolding exec begin_fs begin_op namei namex namex_from skipelem skip_slashes idup ilock
    acquiresleep exec_inode load_image readi readi_from iunlockput iunlock holdingsleep releasesleep
    iput end_fs end_op
exec_run = refl

exec_failed : exec_result.0 ≡ none
unfolding exec begin_fs begin_op namei namex namex_from skipelem skip_slashes idup ilock
    acquiresleep exec_inode load_image readi readi_from iunlockput iunlock holdingsleep releasesleep
    iput end_fs end_op
exec_failed = refl

-- Process 1, a child of process 0, has file 4 twice, and exits with status 7 from its directory.
abbrev leaver : Kernel
leaver = record caller {
  files = λ f. record (caller.files f) { ref = 2 };
  procs = λ i. record (caller.procs i) {
    ofile = λ fd. if fd == 3 then some 4 else if fd == 5 then some 4 else none;
  };
}

abbrev exit_result : Kernel
exit_result = elim (exit end_of_kernel little_fs (λ _. 0) (λ _. 0) 0 (λ i. 4096 + i) 1 7 leaver) [
  | done s ↦ s
  | halts ↦ leaver
  | waits ↦ leaver
]

exit_run :
    exit end_of_kernel little_fs (λ _. 0) (λ _. 0) 0 (λ i. 4096 + i) 1 7 leaver ≡ done exit_result
unfolding exit close_all close_file fileclose release_file leave_directory begin_fs begin_op iput
    end_fs end_op
exit_run = refl

exit-Exited_example :
    Exited end_of_kernel little_fs (λ _. 0) (λ _. 0) 0 (λ i. 4096 + i) 1 7 leaver exit_result
exit-Exited_example =
    exit-Exited end_of_kernel little_fs (λ _. 0) (λ _. 0) 0 (λ i. 4096 + i) 1 7 leaver exit_result
      (λ f. omega arith) exit_run

exit-wait_example :
    (wait end_of_kernel 0 0 0 0 exit_result ≡ panic)
    ⊎ ((r : WaitEnd × Kernel) × (wait end_of_kernel 0 0 0 0 exit_result ≡ ok r)
        × Reaped 0 exit_result.procs r)
exit-wait_example =
    exit-wait end_of_kernel little_fs (λ _. 0) (λ _. 0) 0 0 0 (λ i. 4096 + i) 1 0 7 leaver
      exit_result (omega arith) refl (omega arith) exit_run
