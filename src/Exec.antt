-- ===== src/Exec.antt =====
-- kernel/exec.c: exec, which replaces the program of a process. Up to the commit it works on memory
-- and the file system alone; the process keeps its old page table.
pub mod Commit
pub mod Call
use snu_os.Base.{
  ℕ, zero, suc, ◌+◌, ◌-◌, ◌*◌, ◌/◌, ◌%◌, ◌^◌, min, Bool, true, false, not, ◌&&◌, ◌||◌, Option, none,
  some, List, [], ◌∷◌, ◌++◌, length, get_or, ltb, leb, ◌==◌, if◌then◌else◌,
}
use snu_os.Base.Bytes.{Bytes, get16, get32}
use snu_os.Base.Run.{Run, done, halts, waits, lift, halt_if, ◌>>=◌, ◌>>◌}
use snu_os.Kalloc.{Kmem, page_size, round_up}
use snu_os.Vm.{pte_w, pte_x, set_word, write_bytes, walkaddr, copyout}
use snu_os.Vm.Space.{uvmalloc, uvmclear}
use snu_os.Proc.{Proc}
use snu_os.Proc.Life.{Kernel, set_proc, copy_name, proc_pagetable, proc_freepagetable}
use snu_os.Fs.{Superblock}
use snu_os.Fs.Inodes.{State, ilock}
use snu_os.Fs.Content.{readi, iunlockput}
use snu_os.Fs.Paths.{slash, namei}
use snu_os.Fs.Links.{begin_fs, end_fs}
use snu_os.Syscall.{get64}

-- ELF_MAGIC, ELF_PROG_LOAD, MAXARG, and the sizes of `struct elfhdr` and `struct proghdr`
abbrev pub elf_magic : ℕ
elf_magic = 0x464c457f

abbrev pub elf_prog_load : ℕ
elf_prog_load = 1

abbrev pub max_arg : ℕ
max_arg = 32

abbrev pub elfhdr_size : ℕ
elfhdr_size = 64

abbrev pub proghdr_size : ℕ
proghdr_size = 56

-- the fields of `struct proghdr` that exec reads
pub record Proghdr : Type 0 where
  pub type_of : ℕ
  pub flags : ℕ
  pub off : ℕ
  pub vaddr : ℕ
  pub filesz : ℕ
  pub memsz : ℕ

abbrev pub get_proghdr : Bytes → Proghdr
get_proghdr b = record {
  type_of = get32 b 0;
  flags = get32 b 4;
  off = get64 b 8;
  vaddr = get64 b 16;
  filesz = get64 b 32;
  memsz = get64 b 40;
}

unfoldable pub flags2perm : ℕ → ℕ
flags2perm flags = (if flags % 2 == 1 then pte_x else 0) + (if flags / 2 % 2 == 1 then pte_w else 0)

-- The new program: its page table and size, and where it starts.
pub record Image : Type 0 where
  pub pagetable : ℕ
  pub sz : ℕ
  pub entry : ℕ

-- the address of an argument, and of the words on top of them
abbrev pub push : ℕ → ℕ → ℕ
push sp n = let low = (sp + (2 ^ 64 - n)) % 2 ^ 64 in low - low % 16

-- the bytes of a string with its NUL, and of an array of uint64
abbrev pub string_bytes : List ℕ → Bytes
string_bytes s a = get_or s a 0

abbrev pub word_bytes : List ℕ → Bytes
word_bytes ws a = get_or ws (a / 8) 0 / 256 ^ (a % 8) % 256

-- `last` of the path: what stands behind its last slash
unfoldable pub last_part : List ℕ → List ℕ → List ℕ
last_part last [] = last
last_part last (c ∷ cs) = if c == slash then last_part cs cs else last_part last cs

-- The loop of exec over its arguments from number `argc` on; `ustack` holds the addresses so far.
-- `none` is bad.
unfoldable pub push_args :
    List (List ℕ) → ℕ → ℕ → List ℕ → ℕ → ℕ → Kmem → Option (ℕ × List ℕ) × Kmem
unfolding copyout
push_args [] argc sp ustack pt stackbase k = (some (sp, ustack), k)
push_args (arg ∷ args) argc sp ustack pt stackbase k =
    let sp' = push sp (length arg + 1) in
    let out = copyout pt sp' (string_bytes arg) (length arg + 1) k in
    elim (leb max_arg argc || ltb sp' stackbase) [
      | true ↦ (none, k)
      | false ↦ elim (out.0) [
        | false ↦ (none, out.1)
        | true ↦ push_args args (argc + 1) sp' (ustack ++ (sp' ∷ [])) pt stackbase out.1
      ]
    ]

-- the arguments and the array of their addresses: the stack pointer
unfoldable pub fill_stack : List (List ℕ) → ℕ → ℕ → Kmem → Option ℕ × Kmem
unfolding push_args copyout
fill_stack argv pt sp k =
    let stackbase = sp - page_size in
    let pushed = push_args argv 0 sp [] pt stackbase k in
    elim (pushed.0) [
      | none ↦ (none, pushed.1)
      | some (low, ustack) ↦
          (let size = (length argv + 1) * 8 in
            let sp' = push low size in
            let out = copyout pt sp' (word_bytes (ustack ++ (0 ∷ []))) size pushed.1 in
            if ltb sp' stackbase
            then (none, pushed.1)
            else if out.0
            then (some sp', out.1)
            else (none, out.1))
    ]

-- `sb`, `de` and `name` as in namex, the others as in fork.
module _ (kend trampoline forkret : ℕ) (sb : Superblock) (de name : Bytes) where
  -- The loop of loadseg, `k` pages from byte `i` on: whether it returns 0.
  unfoldable pub load_pages : ℕ → ℕ → ℕ → ℕ → ℕ → ℕ → ℕ → Kmem → State → Run (Bool × Kmem × State)
  unfolding readi walkaddr
  load_pages zero i pt va ip offset sz mem fs = done (true, mem, fs)
  load_pages (suc k) i pt va ip offset sz mem fs =
      let pa = walkaddr pt (va + i) mem in
      let n = min (sz - i) page_size in
      elim (pa == 0) [
        | true ↦ halts
        | false ↦
            (readi sb n ip ((offset + i) % 2 ^ 32) n (λ _. 0) fs >>= λ r.
            let mem' = record mem {
              word = write_bytes (if leb (r.0) n then r.0 else 0) pa 0 r.1 mem.word;
            } in
            elim (r.0 == n) [
              | false ↦ done (false, mem', r.2)
              | true ↦ load_pages k (i + page_size) pt va ip offset sz mem' r.2
            ])
      ]

  unfoldable pub loadseg : ℕ → ℕ → ℕ → ℕ → ℕ → Kmem → State → Run (Bool × Kmem × State)
  unfolding load_pages
  loadseg pt va ip offset sz mem fs =
      load_pages ((sz + 4095) / page_size) 0 pt va ip offset sz mem fs

  -- the tests of exec on a program header
  abbrev pub is_bad : Proghdr → Bool
  is_bad ph =
      ltb ph.memsz ph.filesz
      || ltb ((ph.vaddr + ph.memsz) % 2 ^ 64) ph.vaddr
      || not (ph.vaddr % page_size == 0)

  -- What exec does with one program header for an image of size `sz`: whether it goes on, and the
  -- size.
  unfoldable pub load_segment : ℕ → ℕ → Proghdr → ℕ → Kmem → State → Run (Bool × ℕ × Kmem × State)
  unfolding loadseg flags2perm
  load_segment pt ip ph sz mem fs =
      if not (ph.type_of == elf_prog_load)
      then done (true, sz, mem, fs)
      else if is_bad ph
      then done (false, sz, mem, fs)
      else (lift (uvmalloc kend pt sz ((ph.vaddr + ph.memsz) % 2 ^ 64) (flags2perm ph.flags) mem)
          >>= λ r.
              if r.0 == 0
              then done (false, sz, r.1, fs)
              else (loadseg pt ph.vaddr ip (ph.off % 2 ^ 32) (ph.filesz % 2 ^ 32) r.1 fs >>= λ q.
                  done (q.0, r.0, q.1, q.2)))

  -- The loop of exec over the program headers, `k` of them from `off` on.
  unfoldable pub load_segments : ℕ → ℕ → ℕ → ℕ → ℕ → Kmem → State → Run (Bool × ℕ × Kmem × State)
  unfolding readi load_segment
  load_segments zero off pt ip sz mem fs = done (true, sz, mem, fs)
  load_segments (suc k) off pt ip sz mem fs =
      readi sb proghdr_size ip off proghdr_size (λ _. 0) fs >>= λ r. elim (r.0 == proghdr_size) [
        | false ↦ done (false, sz, mem, r.2)
        | true ↦
            (load_segment pt ip (get_proghdr r.1) sz mem r.2 >>= λ q. elim (q.0) [
              | false ↦ done q
              | true ↦ load_segments k ((off + proghdr_size) % 2 ^ 32) pt ip q.1 q.2 q.3
            ])
      ]

  -- `bad` with a page table in hand
  abbrev pub drop_image : ℕ → ℕ → Kmem → Run Kmem
  drop_image pt sz mem = lift (proc_freepagetable kend trampoline forkret pt sz mem)

  -- exec from the test of the magic number up to the last segment, for a process with that
  -- trapframe; `none` is bad, with the memory given back.
  unfoldable pub load_program : ℕ → ℕ → Bytes → Kmem → State → Run (Option Image × Kmem × State)
  unfolding load_segments proc_pagetable proc_freepagetable
  load_program ip trapframe elf mem fs =
      lift (proc_pagetable kend trampoline forkret trapframe mem) >>= λ r.
      if r.0 == 0
      then done (none, r.1, fs)
      else (load_segments (get16 elf 56) (get64 elf 32 % 2 ^ 32) r.0 ip 0 r.1 fs >>= λ q.
          elim (q.0) [
            | true ↦
                done (some (record { pagetable = r.0; sz = q.1; entry = get64 elf 24 }), q.2, q.3)
            | false ↦ (drop_image r.0 q.1 q.2 >>= λ mem'. done (none, mem', q.3))
          ])

  unfoldable pub load_image : ℕ → ℕ → Kmem → State → Run (Option Image × Kmem × State)
  unfolding readi load_program
  load_image ip trapframe mem fs = do
    (n, elf, fs') ← readi sb elfhdr_size ip 0 elfhdr_size (λ _. 0) fs
    if not (n == elfhdr_size) || not (get32 elf 0 == elf_magic)
        then done (none, mem, fs')
        else load_program ip trapframe elf mem fs'

  -- exec from the two pages of the stack up to the last copyout: the stack pointer and the size
  unfoldable pub build_stack : Image → List (List ℕ) → Kmem → Run (Option (ℕ × ℕ) × Kmem)
  unfolding uvmalloc uvmclear fill_stack proc_freepagetable
  build_stack im argv mem =
      let sz = round_up im.sz in
      lift (uvmalloc kend im.pagetable sz (sz + 2 * page_size) pte_w mem) >>= λ r.
      if r.0 == 0
      then (drop_image im.pagetable sz r.1 >>= λ mem'. done (none, mem'))
      else (lift (uvmclear im.pagetable (r.0 - 2 * page_size) r.1) >>= λ mem1.
          let filled = fill_stack argv im.pagetable r.0 mem1 in
          elim (filled.0) [
            | some sp ↦ done (some (sp, r.0), filled.1)
            | none ↦ (drop_image im.pagetable r.0 filled.1 >>= λ mem'. done (none, mem'))
          ])

  -- the commit of exec by process `i`: `a1`, `epc` and `sp` of the trapframe, the name, the page table
  -- and the size
  unfoldable pub commit_image : ℕ → Image → ℕ → ℕ → List ℕ → Kernel → Run Kernel
  unfolding last_part proc_freepagetable
  commit_image i im sp sz path s = do
    let p = s.procs i
    let tf = p.trapframe
    let framed = set_word (tf + 48) sp (set_word (tf + 24) im.entry (set_word (tf + 120) sp s.mem))
    let new : Proc = record p {
      name = copy_name p.name (string_bytes (last_part path path));
      pagetable = im.pagetable;
      sz = sz;
    }
    mem ← drop_image p.pagetable p.sz framed
    done (set_proc i new (record s { mem = mem }))

  -- exec behind the last segment
  unfoldable pub exec_image : ℕ → Image → List ℕ → List (List ℕ) → Kernel → Run (Option ℕ × Kernel)
  unfolding build_stack commit_image
  exec_image i im path argv s = build_stack im argv s.mem >>= λ r. elim (r.0) [
    | none ↦ done (none, record s { mem = r.1 })
    | some (sp, sz) ↦
        (commit_image i im sp sz path (record s { mem = r.1 }) >>= λ s'.
        done (some (length argv), s'))
  ]

  -- exec with the locked inode `ip` in hand
  unfoldable pub exec_inode : ℕ → ℕ → List ℕ → List (List ℕ) → Kernel → Run (Option ℕ × Kernel)
  unfolding load_image iunlockput end_fs exec_image
  exec_inode i ip path argv s = load_image ip (s.procs i).trapframe s.mem s.fs >>= λ r.
      iunlockput sb (s.procs i).pid ip r.2 >>= λ fs1. end_fs fs1 >>= λ fs2. elim (r.0) [
        | none ↦ done (none, record s { mem = r.1; fs = fs2 })
        | some im ↦ exec_image i im path argv (record s { mem = r.1; fs = fs2 })
      ]

  -- exec by process `i`: argc, or `none` for -1.
  unfoldable pub exec : ℕ → List ℕ → List (List ℕ) → Kernel → Run (Option ℕ × Kernel)
  unfolding begin_fs namei end_fs ilock exec_inode
  exec i path argv s = do
    let p = s.procs i
    fs1 ← begin_fs s.fs
    (found, elem, fs2) ← namei sb de p.pid p.cwd path name fs1
    elim found [
      | none ↦ (end_fs fs2 >>= λ fs3. done (none, record s { fs = fs3 }))
      | some ip ↦
          (ilock sb p.pid ip fs2 >>= λ fs3. exec_inode i ip path argv (record s { fs = fs3 }))
    ]
