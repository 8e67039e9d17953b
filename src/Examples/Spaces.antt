-- ===== src/Examples/Spaces.antt =====
-- Page tables and processes of kernel/vm.c and kernel/proc.c in a small memory.
use snu_os.Base.{
  ℕ, ◌+◌, ◌≡◌, refl, true, false, none, some, [], ◌∷◌, arith, ◌==◌, if◌then◌else◌, update,
}
use snu_os.Base.Outcome.{ok}
use snu_os.Lock.{fresh_sleeplock}
use snu_os.Log.{fresh_log}
use snu_os.Buffers.{boot}
use snu_os.Kalloc.{Kmem, kalloc}
use snu_os.Kalloc.Chain.{Holds}
use snu_os.Vm.{walk_from, walk, copyin}
use snu_os.Vm.Walk.{Tables, walk-walk}
use snu_os.Vm.Copy.{CopyIn, copyin-CopyIn}
use snu_os.Pipe.{fresh_pipe}
use snu_os.Proc.{unused, zombie, runnable, allocpid}
use snu_os.Proc.Life.{
  Kernel, set_proc, cleared, reaped, free_memory, freeproc, reap, scan_children, wait, find_unused,
  with_frame, setup_proc, allocproc,
}
use snu_os.Base.Run.{done}
use snu_os.Fs.{Superblock}
use snu_os.Files.{fd_none, filedup}
use snu_os.Syscall.{argraw, argint}
use snu_os.Sysfile.{argfd, sys_dup, sys_close, set_fd, free_fd, fdalloc, dup_file}
use snu_os.Sysfile.Descriptors.{with_a0, sys_close-sys_dup}
use snu_os.Proc.Life.Wait.{Waited, wait-Waited}

abbrev pub end_of_kernel : ℕ
end_of_kernel = 0x87ff0123

abbrev spare : ℕ
spare = 0x87fff000

abbrev root : ℕ
root = 0x87ffd000

-- One page is free; the page table at `root` has one table below it, at 0x87ffc000.
abbrev small_mem : Kmem
small_mem = record { word = update (λ _. 0) root 0x21fff001; freelist = spare }

small_mem-Holds : Holds end_of_kernel small_mem (spare ∷ [])
small_mem-Holds = record {
  chain = (refl, omega arith, refl);
  pages = ((refl, omega arith, omega arith), tt);
  distinct = (refl, tt);
}

small_mem-Tables : Tables 2 root 0x1000 small_mem.word (spare ∷ []) []
small_mem-Tables = (refl, refl, refl, λ v. (refl, refl, refl, λ w. absurd (ground (arith, w))))

-- A walk with allocation takes the free page for the table of the lowest level.
abbrev walked : Kmem
walked = (walk_from 2 true root 0x1000 small_mem).1

walked_run : walk true root 0x1000 small_mem ≡ ok (spare + 8, walked)
unfolding walk walk_from kalloc
walked_run = refl

walk-walk_example : walk true root 0x1000 walked ≡ ok (spare + 8, walked)
walk-walk_example =
    walk-walk end_of_kernel true root 0x1000 (spare + 8) small_mem walked (spare ∷ [])
      small_mem-Holds small_mem-Tables walked_run (omega arith)

copyin-CopyIn_example :
    CopyIn root 0xff0 32 0 small_mem (λ _. 0) (copyin root (λ _. 0) 0xff0 32 small_mem)
copyin-CopyIn_example = copyin-CopyIn root 0xff0 32 (λ _. 0) small_mem

-- Process 1 is a zombie child of process 0, and has given its memory back.
abbrev pub family : Kernel
family = record {
  procs = λ i. record {
    state = if i == 1 then zombie else runnable;
    chan = 0;
    killed = false;
    xstate = 0;
    pid = i + 1;
    parent = if i == 1 then some 0 else none;
    kstack = 0;
    sz = 0;
    pagetable = 0;
    trapframe = 0;
    context = record { ra = 0; sp = 0 };
    ofile = λ _. none;
    cwd = 0;
    name = λ _. 0;
  };
  nextpid = 65;
  mem = small_mem;
  files = λ _. record {
    type_of = fd_none;
    ref = 1;
    readable = false;
    writable = false;
    pipe = 0;
    ip = 0;
    off = 0;
    major = 0;
  };
  pipes = λ _. fresh_pipe (λ _. 0);
  fs = record {
    log = fresh_log 2 31 (boot (λ _ _. 0));
    inodes = λ _. record {
      dev = 0;
      inum = 0;
      ref = 0;
      lock = fresh_sleeplock;
      valid = false;
      type_of = 0;
      major = 0;
      minor = 0;
      nlink = 0;
      size = 0;
      addrs = λ _. 0;
    };
  };
}

abbrev buried : Kernel
buried = set_proc 1 (cleared (family.procs 1)) family

buried_run : wait end_of_kernel 0 0 0 0 family ≡ ok (reaped 2, buried)
unfolding wait scan_children reap freeproc free_memory
buried_run = refl

wait-Waited_example : Waited end_of_kernel 0 0 0 0 family (reaped 2, buried)
wait-Waited_example = wait-Waited end_of_kernel 0 0 0 0 family (reaped 2, buried) buried_run

-- Process 0 has file 4 as its descriptor 0, and 0 in a0.
abbrev opened : Kernel
opened = set_fd 0 0 (some 4) family

abbrev doubled : Kernel
doubled = record (set_fd 0 1 (some 4) opened) {
  files = update opened.files 4 (record (opened.files 4) { ref = 2 });
}

doubled_run : sys_dup 0 opened ≡ done (1, doubled)
unfolding sys_dup argfd argint argraw dup_file fdalloc free_fd filedup
doubled_run = refl

abbrev no_fs : Superblock
no_fs = record { size = 0; ninodes = 0; inodestart = 0; bmapstart = 0 }

sys_close-sys_dup_example :
    sys_close end_of_kernel no_fs (λ _. 0) (λ _. 0) 0 (with_a0 0 1 doubled)
    ≡ done (0, with_a0 0 1 opened)
sys_close-sys_dup_example =
    sys_close-sys_dup end_of_kernel no_fs (λ _. 0) (λ _. 0) 0 1 opened doubled (λ f. omega arith)
      doubled_run (omega arith)

-- Slot 2 is unused, and there is no memory.
abbrev poor : Kernel
poor =
    set_proc 2 (record (family.procs 2) { state = unused })
      (record family { mem = record { word = λ _. 0; freelist = 0 } })

abbrev refused : Kernel
refused = set_proc 2 (cleared ((with_frame 2 poor).procs 2)) (with_frame 2 poor)

refused_run : allocproc end_of_kernel 0 0 poor ≡ ok (none, refused)
unfolding allocproc find_unused setup_proc freeproc free_memory kalloc allocpid
refused_run = refl
