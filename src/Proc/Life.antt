-- ===== src/Proc/Life.antt =====
-- The life of a process in kernel/proc.c: allocproc, freeproc, fork, growproc, wait, and the part of
-- exit that closes its files. The state is the process table with what the functions use beside it.
pub mod Wait
pub mod Slots
use snu_os.Base.{
  ℕ, zero, suc, ◌+◌, ◌-◌, ◌*◌, ◌%◌, ◌^◌, Bool, true, false, not, ◌&&◌, ◌||◌, Option, none, some,
  List, [], ◌∷◌, ltb, leb, ◌==◌, if◌then◌else◌, update,
}
use snu_os.Base.Bytes.{Bytes, put32}
use snu_os.Base.Outcome.{Outcome, ok, panic, panic_if, ◌>>=◌, ◌>>◌}
use snu_os.Base.Words.{add32, lt_int}
use snu_os.Kalloc.{Kmem, page_size, kalloc, kfree}
use snu_os.Strings.{safestrcpy}
use snu_os.Vm.{max_va, pte_r, pte_w, pte_x, set_word, kvmmap, mappages, uvmcreate, copyout}
use snu_os.Vm.Space.{uvmunmap, uvmfree, uvmcopy, uvmalloc, uvmdealloc}
use snu_os.Pipe.{Pipe}
use snu_os.Files.{Ftable, Release, filedup, fileclose}
use snu_os.Fs.Inodes.{State, idup}
use snu_os.Proc.{
  nproc, ProcState, unused, used, runnable, zombie, same_state, Context, Proc, Table, is_child,
  allocpid,
}

-- TRAMPOLINE, TRAPFRAME and KSTACK
abbrev pub trampoline_va : ℕ
trampoline_va = max_va - page_size

abbrev pub trapframe_va : ℕ
trapframe_va = trampoline_va - page_size

abbrev pub kstack_va : ℕ → ℕ
kstack_va p = trampoline_va - (p + 1) * 2 * page_size

-- NOFILE
abbrev pub nofile : ℕ
nofile = 16

pub record Kernel : Type 0 where
  pub procs : Table
  pub nextpid : ℕ
  pub mem : Kmem
  pub files : Ftable
  pub pipes : ℕ → Pipe
  pub fs : State

abbrev pub set_proc : ℕ → Proc → Kernel → Kernel
set_proc i p s = record s { procs = update s.procs i p }

unfoldable pub procinit : Table → Table
procinit t i = if ltb i nproc then record (t i) { state = unused; kstack = kstack_va i } else t i

-- The loop of proc_mapstacks from process `i` on.
unfoldable pub map_stacks : ℕ → ℕ → ℕ → Kmem → Outcome Kmem
map_stacks zero i kpgtbl k = ok k
map_stacks (suc n) i kpgtbl k = do
  let (pa, k1) = kalloc k
  panic_if (pa == 0)
  k2 ← kvmmap kpgtbl (kstack_va i) pa page_size (pte_r + pte_w) k1
  map_stacks n (i + 1) kpgtbl k2

unfoldable pub proc_mapstacks : ℕ → Kmem → Outcome Kmem
unfolding map_stacks
proc_mapstacks kpgtbl k = map_stacks nproc 0 kpgtbl k

-- How wait ends: it returns a pid or -1; or it has scanned the table without a zombie child, and
-- whether it met a child.
pub data WaitEnd : Type 0 where
  reaped : ℕ → WaitEnd
  failed : WaitEnd
  scanned : Bool → WaitEnd

-- the fields of freeproc, once the memory is free
abbrev pub cleared : Proc → Proc
cleared p = record p {
  trapframe = 0;
  pagetable = 0;
  sz = 0;
  pid = 0;
  parent = none;
  name = update p.name 0 0;
  chan = 0;
  killed = false;
  xstate = 0;
  state = unused;
}

-- the loop of allocproc, `k` processes from `i` on
unfoldable pub find_unused : ℕ → ℕ → Table → Option ℕ
find_unused zero i t = none
find_unused (suc k) i t =
    let rest = find_unused k (i + 1) t in if same_state (t i).state unused then some i else rest

-- `*(np->trapframe) = *(p->trapframe)`, 36 words, and `a0 = 0`
abbrev pub copy_frame : ℕ → ℕ → Kmem → Kmem
copy_frame to from k = set_word (to + 112) 0 (record k {
  word = λ a. if leb to a && ltb a (to + 288) then k.word (from + (a - to)) else k.word a;
})

-- the loop of fork over the open files of `p`, `k` from number `fd` on, for process `j`
unfoldable pub dup_files : ℕ → ℕ → Proc → ℕ → Kernel → Outcome Kernel
dup_files zero fd p j s = ok s
dup_files (suc k) fd p j s = do
  s' ← elim (p.ofile fd) [
    | none ↦ ok s
    | some f ↦
        (filedup f s.files >>= λ files. ok (
          set_proc j (record (s.procs j) { ofile = update (s.procs j).ofile fd (some f) })
            (record s { files = files })))
  ]
  dup_files k (fd + 1) p j s'

-- safestrcpy(np->name, p->name, 16)
abbrev pub copy_name : (ℕ → ℕ) → (ℕ → ℕ) → ℕ → ℕ
copy_name to from = safestrcpy 0 16 16 (λ a. if ltb a 16 then to a else from (a - 16))

-- the pid, the state and the trapframe that allocproc gives to process `i`
abbrev pub with_frame : ℕ → Kernel → Kernel
with_frame i s =
    set_proc i
      (record (s.procs i) {
        pid = (allocpid s.nextpid).0;
        state = used;
        trapframe = (kalloc s.mem).0;
      })
      (record s { nextpid = (allocpid s.nextpid).1; mem = (kalloc s.mem).1 })

-- `kend` is the end of the kernel, `trampoline` the address of its code, `forkret` of that function.
module _ (kend trampoline forkret : ℕ) where
  unfoldable pub proc_freepagetable : ℕ → ℕ → Kmem → Outcome Kmem
  proc_freepagetable pt sz k = do
    k1 ← uvmunmap kend pt trampoline_va 1 false k
    k2 ← uvmunmap kend pt trapframe_va 1 false k1
    uvmfree kend pt sz k2

  -- proc_pagetable behind uvmcreate, for the page table `pt`
  unfoldable pub map_fixed : ℕ → ℕ → Kmem → Outcome (ℕ × Kmem)
  map_fixed pt trapframe k = do
    (first, k1) ← mappages pt trampoline_va page_size trampoline (pte_r + pte_x) k
    if not first
        then (uvmfree kend pt 0 k1 >>= λ k2. ok (0, k2))
        else (mappages pt trapframe_va page_size trapframe (pte_r + pte_w) k1 >>= λ r.
            let (second, k3) = r in
            if not second
            then (uvmunmap kend pt trampoline_va 1 false k3 >>= λ k4.
                uvmfree kend pt 0 k4 >>= λ k5. ok (0, k5))
            else ok (pt, k3))

  unfoldable pub proc_pagetable : ℕ → Kmem → Outcome (ℕ × Kmem)
  unfolding map_fixed
  proc_pagetable trapframe k =
      let (pt, k1) = uvmcreate k in if pt == 0 then ok (0, k1) else map_fixed pt trapframe k1

  -- the memory that freeproc gives back
  unfoldable pub free_memory : Proc → Kmem → Outcome Kmem
  unfolding proc_freepagetable
  free_memory p k = do
    k1 ← if p.trapframe == 0 then ok k else kfree kend k p.trapframe
    if p.pagetable == 0 then ok k1 else proc_freepagetable p.pagetable p.sz k1

  unfoldable pub freeproc : ℕ → Kernel → Outcome Kernel
  unfolding free_memory
  freeproc i s = do
    mem ← free_memory (s.procs i) s.mem
    ok (set_proc i (cleared (s.procs i)) (record s { mem = mem }))

  -- allocproc behind proc_pagetable, which has answered `r`
  unfoldable pub give_pagetable : ℕ → Kernel → ℕ × Kmem → Outcome (Option ℕ × Kernel)
  unfolding freeproc
  give_pagetable i s r =
      let mapped = set_proc i (record (s.procs i) { pagetable = r.0 }) (record s { mem = r.1 }) in
      let context : Context = record { ra = forkret; sp = (s.procs i).kstack + page_size } in
      if r.0 == 0
      then (freeproc i mapped >>= λ s'. ok (none, s'))
      else ok
          (some i, set_proc i (record (s.procs i) { pagetable = r.0; context = context }) mapped)

  -- allocproc at `found`, for process `i`
  unfoldable pub setup_proc : ℕ → Kernel → Outcome (Option ℕ × Kernel)
  unfolding allocpid give_pagetable
  setup_proc i s =
      let framed = with_frame i s in
      if (kalloc s.mem).0 == 0
      then (freeproc i framed >>= λ s'. ok (none, s'))
      else (proc_pagetable (kalloc s.mem).0 framed.mem >>= give_pagetable i framed)

  -- allocproc: `none` is the null pointer.
  unfoldable pub allocproc : Kernel → Outcome (Option ℕ × Kernel)
  unfolding find_unused setup_proc
  allocproc s = elim (find_unused nproc 0 s.procs) [ none ↦ ok (none, s) | some i ↦ setup_proc i s ]

  -- growproc of process `i` by the int `n`: whether it returns 0.
  unfoldable pub growproc : ℕ → ℕ → Kernel → Outcome (Bool × Kernel)
  growproc i n s =
      let p = s.procs i in
      if lt_int 0 n
      then (uvmalloc kend p.pagetable p.sz ((p.sz + n) % 2 ^ 64) pte_w s.mem >>= λ r.
          let (sz, mem) = r in
          if sz == 0
          then ok (false, record s { mem = mem })
          else ok (true, set_proc i (record p { sz = sz }) (record s { mem = mem })))
      else if lt_int n 0
      then (uvmdealloc kend p.pagetable p.sz ((p.sz + 2 ^ 64 - (2 ^ 32 - n)) % 2 ^ 64) s.mem
          >>= λ r.
              let (sz, mem) = r in
              ok (true, set_proc i (record p { sz = sz }) (record s { mem = mem })))
      else ok (true, s)

  -- fork behind uvmcopy, by process `i` for the child `j`
  unfoldable pub fork_child : ℕ → ℕ → Kernel → Outcome (Option ℕ × Kernel)
  unfolding dup_files idup
  fork_child i j s = do
    let p = s.procs i
    let sized = set_proc j (record (s.procs j) { sz = p.sz }) s
    let framed = record sized { mem = copy_frame (s.procs j).trapframe p.trapframe s.mem }
    s1 ← dup_files nofile 0 p j framed
    let np = s1.procs j
    let born : Proc = record np {
      cwd = p.cwd;
      name = copy_name np.name p.name;
      parent = some i;
      state = runnable;
    }
    ok (some np.pid, set_proc j born (record s1 { fs = idup p.cwd s1.fs }))

  -- fork by process `i`: the pid of the child, or `none` for -1.
  unfoldable pub fork : ℕ → Kernel → Outcome (Option ℕ × Kernel)
  unfolding allocproc fork_child
  fork i s = do
    (child, s1) ← allocproc s
    elim child [
      | none ↦ ok (none, s1)
      | some j ↦
          (uvmcopy kend (s1.procs i).pagetable (s1.procs j).pagetable (s1.procs i).sz s1.mem
            >>= λ r.
                let (copied, mem) = r in
                let s2 = record s1 { mem = mem } in
                if not copied then (freeproc j s2 >>= λ s3. ok (none, s3)) else fork_child i j s2)
    ]

  -- what wait does with its zombie child `j`, for process `i`
  unfoldable pub reap : ℕ → ℕ → ℕ → Kernel → Outcome (WaitEnd × Kernel)
  unfolding freeproc
  reap i j addr s =
      let child = s.procs j in
      let out = copyout (s.procs i).pagetable addr (put32 (λ _. 0) 0 child.xstate) 4 s.mem in
      let copied = record s { mem = if addr == 0 then s.mem else out.1 } in
      if not (addr == 0) && not out.0
      then ok (failed, copied)
      else (freeproc j copied >>= λ s'. ok (reaped child.pid, s'))

  -- the scan of wait, `k` processes from `j` on; `kids` is havekids
  unfoldable pub scan_children : ℕ → ℕ → Bool → ℕ → ℕ → Kernel → Outcome (WaitEnd × Kernel)
  unfolding reap
  scan_children zero j kids i addr s = ok (scanned kids, s)
  scan_children (suc k) j kids i addr s = elim (is_child i (s.procs j)) [
    | false ↦ scan_children k (j + 1) kids i addr s
    | true ↦ elim (same_state (s.procs j).state zombie) [
      | false ↦ scan_children k (j + 1) true i addr s
      | true ↦ reap i j addr s
    ]
  ]

  -- One round of wait by process `i`; `scanned true` sleeps, and scans again when it is woken.
  unfoldable pub wait : ℕ → ℕ → Kernel → Outcome (WaitEnd × Kernel)
  unfolding scan_children
  wait i addr s = scan_children nproc 0 false i addr s >>= λ r. elim (r.0) [
    | reaped pid ↦ ok r
    | failed ↦ ok r
    | scanned kids ↦ ok (if not kids || (s.procs i).killed then failed else scanned true, r.1)
  ]
