-- ===== src/Syscall.antt =====
-- The arguments of system calls in kernel/syscall.c, and the calls of kernel/sysproc.c. `i` is the
-- process that makes the call.
use snu_os.Base.{
  ℕ, zero, suc, ◌+◌, ◌-◌, ◌*◌, ◌%◌, ◌^◌, ◌||◌, Option, none, some, List, [], ◌∷◌, ltb, leb, ◌==◌,
  if◌then◌else◌,
}
use snu_os.Base.Bytes.{Bytes, get32}
use snu_os.Base.Outcome.{Outcome, ok, panic_if, ◌>>=◌, ◌>>◌}
use snu_os.Vm.{copyin, copyinstr}
use snu_os.Proc.{kill}
use snu_os.Proc.Life.{Kernel, fork, growproc}

-- What a system call leaves in a0 for an error, `-1` of type uint64.
abbrev pub minus_one : ℕ
minus_one = 2 ^ 64 - 1

-- the eight bytes from `a` on as a uint64
abbrev pub get64 : Bytes → ℕ → ℕ
get64 b a = get32 b a + get32 b (a + 4) * 2 ^ 32

-- fetchaddr: `none` for -1.
unfoldable pub fetchaddr : ℕ → ℕ → Kernel → Option ℕ
unfolding copyin
fetchaddr i addr s =
    let p = s.procs i in
    if leb p.sz addr || ltb p.sz ((addr + 8) % 2 ^ 64)
    then none
    else (let (copied, bytes) = copyin p.pagetable (λ _. 0) addr 8 s.mem in
        if copied then some (get64 bytes 0) else none)

-- the characters of a buffer from `a` on up to the NUL, `n` at most
unfoldable pub characters : ℕ → ℕ → Bytes → List ℕ
characters zero a b = []
characters (suc n) a b = let rest = characters n (a + 1) b in if b a == 0 then [] else b a ∷ rest

-- fetchstr: the string, or `none` for -1. Its length is what fetchstr returns.
unfoldable pub fetchstr : ℕ → ℕ → ℕ → Kernel → Option (List ℕ)
unfolding copyinstr characters
fetchstr i addr max s =
    let (copied, bytes) = copyinstr (s.procs i).pagetable (λ _. 0) addr max s.mem in
    if copied then some (characters max 0 bytes) else none

-- `p->trapframe->an`
abbrev pub register : ℕ → ℕ → Kernel → ℕ
register i n s = s.mem.word ((s.procs i).trapframe + 112 + 8 * n)

unfoldable pub argraw : ℕ → ℕ → Kernel → Outcome ℕ
argraw i n s = do panic_if (leb 6 n); ok (register i n s)

unfoldable pub argint : ℕ → ℕ → Kernel → Outcome ℕ
unfolding argraw
argint i n s = do v ← argraw i n s; ok (v % 2 ^ 32)

unfoldable pub argaddr : ℕ → ℕ → Kernel → Outcome ℕ
unfolding argraw
argaddr i n s = argraw i n s

unfoldable pub argstr : ℕ → ℕ → ℕ → Kernel → Outcome (Option (List ℕ))
unfolding argaddr fetchstr
argstr i n max s = do addr ← argaddr i n s; ok (fetchstr i addr max s)

-- `kend`, `trampoline` and `forkret` as in fork.
module _ (kend trampoline forkret : ℕ) where
  unfoldable pub sys_fork : ℕ → Kernel → Outcome (ℕ × Kernel)
  unfolding fork
  sys_fork i s = do
    (child, s') ← fork kend trampoline forkret i s
    ok (elim child [ none ↦ minus_one | some pid ↦ pid ], s')

  unfoldable pub sys_sbrk : ℕ → Kernel → Outcome (ℕ × Kernel)
  unfolding argint growproc
  sys_sbrk i s = do
    n ← argint i 0 s
    (grown, s') ← growproc kend trampoline forkret i n s
    ok (if grown then (s.procs i).sz else minus_one, s')

unfoldable pub sys_getpid : ℕ → Kernel → ℕ
sys_getpid i s = (s.procs i).pid

unfoldable pub sys_kill : ℕ → Kernel → Outcome (ℕ × Kernel)
unfolding argint kill
sys_kill i s = do
  pid ← argint i 0 s
  let (found, procs) = kill pid s.procs
  ok (if found then 0 else minus_one, record s { procs = procs })
