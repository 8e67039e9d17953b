-- ===== src/Exec/Commit.antt =====
-- What exec of kernel/exec.c leaves of the process table when it fails and when it succeeds. Memory,
-- to which a successful exec writes three registers of the trapframe, is left out.
use snu_os.Base.{
  ℕ, ◌+◌, ◌≡◌, ◌≢◌, refl, sym, Option, none, some, List, length, update_self, update_ne,
}
use mathlib.Core.Path.{subst}
use snu_os.Base.Bytes.{Bytes}
use snu_os.Base.Run.{Run, done, ◌>>=◌, >>=-eq-done, done-eq}
use snu_os.Kalloc.{Kmem}
use snu_os.Vm.{set_word}
use snu_os.Proc.{Proc}
use snu_os.Proc.Life.{Kernel, set_proc, copy_name}
use snu_os.Fs.{Superblock}
use snu_os.Fs.Inodes.{State, ilock}
use snu_os.Fs.Content.{iunlockput}
use snu_os.Fs.Paths.{namei}
use snu_os.Fs.Links.{begin_fs, end_fs}
use snu_os.Exec.{
  Image, last_part, string_bytes, drop_image, load_image, build_stack, commit_image, exec_image,
  exec_inode, exec,
}

-- The parts of the kernel that exec never touches.
pub record SameRest (s s' : Kernel) : Type 0 where
  pub files : s'.files ≡ s.files
  pub pipes : s'.pipes ≡ s.pipes
  pub nextpid : s'.nextpid ≡ s.nextpid

-- The process is the same but for its page table, its size and its name.
abbrev pub SameProcess : List ℕ → Proc → Proc → Type 0
SameProcess path p q =
    (pt : ℕ) × (sz : ℕ) × (q ≡ record p {
      pagetable = pt;
      sz = sz;
      name = copy_name p.name (string_bytes (last_part path path));
    })

-- How exec ends by process `i`.
abbrev pub Exec : ℕ → List ℕ → List (List ℕ) → Kernel → Option ℕ × Kernel → Type 0
Exec i path argv s (none, s') = (s'.procs ≡ s.procs) × SameRest s s'
Exec i path argv s (some argc, s') =
    (argc ≡ length argv)
    × SameProcess path (s.procs i) (s'.procs i)
    × ((j : ℕ) → j ≢ i → s'.procs j ≡ s.procs j)
    × SameRest s s'

-- a start in which memory and the file system have changed
Exec-moved :
    (i : ℕ) (path : List ℕ) (argv : List (List ℕ)) (s : Kernel) (mem : Kmem) (fs : State)
    (r : Option ℕ × Kernel)
    → Exec i path argv (record s { mem = mem; fs = fs }) r
    → Exec i path argv s r
Exec-moved i path argv s mem fs (none, s') (p, r) =
    (p, record { files = r.files; pipes = r.pipes; nextpid = r.nextpid })
Exec-moved i path argv s mem fs (some argc, s') (n, p, o, r) =
    (n, p, o, record { files = r.files; pipes = r.pipes; nextpid = r.nextpid })

module _ (kend trampoline forkret : ℕ) (sb : Superblock) (de name : Bytes) where
  commit_image-Exec :
      (i : ℕ) (im : Image) (sp sz : ℕ) (path : List ℕ) (argv : List (List ℕ)) (s s' : Kernel)
      → commit_image kend trampoline forkret sb de name i im sp sz path s ≡ done s'
      → Exec i path argv s (some (length argv), s')
  unfolding commit_image
  commit_image-Exec i im sp sz path argv s s' e =
      let p = s.procs i in
      let framed =
        set_word (p.trapframe + 48) sp
          (set_word (p.trapframe + 24) im.entry (set_word (p.trapframe + 120) sp s.mem)) in
      let new : Proc = record p {
        name = copy_name p.name (string_bytes (last_part path path));
        pagetable = im.pagetable;
        sz = sz;
      } in
      let next : Kmem → Run Kernel = λ mem. done (set_proc i new (record s { mem = mem })) in
      let (mem, w, q) =
        >>=-eq-done (drop_image kend trampoline forkret sb de name p.pagetable p.sz framed) next
          e in
      subst (λ (x : Kernel). Exec i path argv s (some (length argv), x)) (done-eq q)
        (
          refl,
          (im.pagetable, sz, update_self s.procs i new),
          λ j ne. update_ne s.procs new (λ h. ne (sym h)),
          record { files = refl; pipes = refl; nextpid = refl },
        )

  exec_image-Exec :
      (i : ℕ) (im : Image) (path : List ℕ) (argv : List (List ℕ)) (s : Kernel)
      (r : Option ℕ × Kernel)
      → exec_image kend trampoline forkret sb de name i im path argv s ≡ done r
      → Exec i path argv s r
  unfolding exec_image
  exec_image-Exec i im path argv s r e =
      let next : Option (ℕ × ℕ) × Kmem → Run (Option ℕ × Kernel) = λ q. elim (q.0) [
        | none ↦ done (none, record s { mem = q.1 })
        | some (sp, sz) ↦
            (commit_image kend trampoline forkret sb de name i im sp sz path
                (record s { mem = q.1 })
              >>= λ s'. done (some (length argv), s'))
      ] in
      let (q, w, e') =
        >>=-eq-done (build_stack kend trampoline forkret sb de name im argv s.mem) next e in
      built q e'
    where
      built :
          (q : Option (ℕ × ℕ) × Kmem)
          → (elim (q.0) as (λ _. Run (Option ℕ × Kernel)) [
            | none ↦ done (none, record s { mem = q.1 })
            | some (sp, sz) ↦
                (commit_image kend trampoline forkret sb de name i im sp sz path
                    (record s { mem = q.1 })
                  >>= λ s'. done (some (length argv), s'))
          ])
            ≡ done r
          → Exec i path argv s r
      built (none, mem) e' =
          subst (Exec i path argv s) (done-eq e')
            (refl, record { files = refl; pipes = refl; nextpid = refl })
      built (some (sp, sz), mem) e' =
          let next : Kernel → Run (Option ℕ × Kernel) = λ s'. done (some (length argv), s') in
          let (s', w, e'') =
            >>=-eq-done
              (commit_image kend trampoline forkret sb de name i im sp sz path
                (record s { mem = mem }))
              next e' in
          subst (Exec i path argv s) (done-eq e'') (
            Exec-moved i path argv s mem s.fs (some (length argv), s')
              (commit_image-Exec i im sp sz path argv (record s { mem = mem }) s' w))

  exec_inode-Exec :
      (i ip : ℕ) (path : List ℕ) (argv : List (List ℕ)) (s : Kernel) (r : Option ℕ × Kernel)
      → exec_inode kend trampoline forkret sb de name i ip path argv s ≡ done r
      → Exec i path argv s r
  unfolding exec_inode
  exec_inode-Exec i ip path argv s r e =
      let (q, w, e1) =
        >>=-eq-done
          (load_image kend trampoline forkret sb de name ip (s.procs i).trapframe s.mem s.fs)
          (λ q.
            iunlockput sb (s.procs i).pid ip q.2 >>= λ fs1. end_fs fs1 >>= λ fs2. then_run q fs2)
          e in
      let (fs1, w1, e2) =
        >>=-eq-done (iunlockput sb (s.procs i).pid ip q.2)
          (λ fs1. end_fs fs1 >>= λ fs2. then_run q fs2) e1 in
      let (fs2, w2, e3) = >>=-eq-done (end_fs fs1) (then_run q) e2 in loaded q fs2 e3
    where
      then_run : Option Image × Kmem × State → State → Run (Option ℕ × Kernel)
      then_run q fs2 = elim (q.0) [
        | none ↦ done (none, record s { mem = q.1; fs = fs2 })
        | some im ↦
            exec_image kend trampoline forkret sb de name i im path argv
              (record s { mem = q.1; fs = fs2 })
      ]

      loaded :
          (q : Option Image × Kmem × State) (fs2 : State)
          → then_run q fs2 ≡ done r
          → Exec i path argv s r
      loaded (none, mem, fs) fs2 e' =
          subst (Exec i path argv s) (done-eq e')
            (refl, record { files = refl; pipes = refl; nextpid = refl })
      loaded (some im, mem, fs) fs2 e' =
          Exec-moved i path argv s mem fs2 r
            (exec_image-Exec i im path argv (record s { mem = mem; fs = fs2 }) r e')

  -- When exec by a process returns -1, the process table has not changed: the caller keeps its page
  -- table, its size and its name. When it succeeds, it returns the number of arguments, the entry of
  -- the caller has changed in its page table, its size and its name only, and no other has. In both
  -- cases the open files, the pipes and the next pid are as before.
  pub exec-Exec :
      (i : ℕ) (path : List ℕ) (argv : List (List ℕ)) (s : Kernel) (r : Option ℕ × Kernel)
      → exec kend trampoline forkret sb de name i path argv s ≡ done r
      → Exec i path argv s r
  unfolding exec
  exec-Exec i path argv s r e =
      let (fs1, w, e1) =
        >>=-eq-done (begin_fs s.fs) (λ fs1. namei sb de p.pid p.cwd path name fs1 >>= then_run) e in
      let (q, w1, e2) = >>=-eq-done (namei sb de p.pid p.cwd path name fs1) then_run e1 in
      found q e2
    where
      p : Proc
      p = s.procs i

      then_run : Option ℕ × Bytes × State → Run (Option ℕ × Kernel)
      then_run q = elim (q.0) [
        | none ↦ (end_fs q.2 >>= λ fs3. done (none, record s { fs = fs3 }))
        | some ip ↦
            (ilock sb p.pid ip q.2 >>= λ fs3.
            exec_inode kend trampoline forkret sb de name i ip path argv (record s { fs = fs3 }))
      ]

      found : (q : Option ℕ × Bytes × State) → then_run q ≡ done r → Exec i path argv s r
      found (none, nm, fs) e' =
          let (fs3, w, e'') =
            >>=-eq-done (end_fs fs) (λ fs3. done (none, record s { fs = fs3 })) e' in
          subst (Exec i path argv s) (done-eq e'')
            (refl, record { files = refl; pipes = refl; nextpid = refl })
      found (some ip, nm, fs) e' =
          let (fs3, w, e'') =
            >>=-eq-done (ilock sb p.pid ip fs)
              (λ fs3.
                exec_inode kend trampoline forkret sb de name i ip path argv
                  (record s { fs = fs3 }))
              e' in
          Exec-moved i path argv s s.mem fs3 r
            (exec_inode-Exec i ip path argv (record s { fs = fs3 }) r e'')
