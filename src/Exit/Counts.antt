-- ===== src/Exit/Counts.antt =====
-- The reference counts of the open files through exit of kernel/proc.c.
use snu_os.Base.{
  ℕ, zero, suc, ◌+◌, ◌^◌, ◌≤◌, ◌<◌, ◌≡◌, refl, sym, ap, ◌∙◌, inl, inr, Option, none, some, ◌==◌,
  if◌then◌else◌, update, arith, Bool-cases, ==_iff,
}
use snu_os.Base.Bytes.{Bytes}
use snu_os.Base.Words.{lt_int, sub32}
use snu_os.Base.Outcome.{ok, ok-eq}
use snu_os.Base.Run.{Run, done, lift, ◌>>=◌, >>=-eq-done, done-eq, lift-done}
use snu_os.Proc.{wakeup}
use snu_os.Proc.Life.{Kernel, set_proc}
use snu_os.Fs.{Superblock}
use snu_os.Fs.Inodes.{State}
use snu_os.Fs.Content.{iput}
use snu_os.Fs.Links.{begin_fs, end_fs}
use snu_os.Kalloc.{Kmem, kfree}
use snu_os.Pipe.{pipeclose}
use snu_os.Files.{
  File, Ftable, fd_none, release_of, Release, nothing, close_pipe, put_inode, fileclose,
}
use snu_os.Sysfile.{nread_at, nwrite_at, release_file, close_file}
use snu_os.Exit.{leave_directory}

-- 1 when the descriptor is file `g`.
abbrev pub use_of : ℕ → Option ℕ → ℕ
use_of g none = 0
use_of g (some f) = if f == g then 1 else 0

-- How many of the `k` descriptors from `fd` on are file `g`.
abbrev pub uses : ℕ → ℕ → (ℕ → Option ℕ) → ℕ → ℕ
uses zero fd ofile g = 0
uses (suc k) fd ofile g = use_of g (ofile fd) + uses k (fd + 1) ofile g

pub uses_cong :
    (k fd g : ℕ) (o q : ℕ → Option ℕ)
    → ((x : ℕ) → fd ≤ x → o x ≡ q x)
    → uses k fd o g ≡ uses k fd q g
uses_cong zero fd g o q e = refl
uses_cong (suc k) fd g o q e =
    let here = ap (use_of g) (e fd (omega arith)) in
    let rest = uses_cong k (fd + 1) g o q (λ x l. e x (omega arith)) in omega (arith, here, rest)

set_ref :
    (t : Ftable) (f g : ℕ) (p : File)
    → p.ref + 1 ≡ (t f).ref
    → (update t f p g).ref + use_of g (some f) ≡ (t g).ref
set_ref t f g p e = elim (Bool-cases (f == g)) [
  | inl same ↦ rw (same) (e ∙ ap (λ x. (t x).ref) ((==_iff f g).0 same))
  | inr ne ↦ rw (ne) (omega arith)
]

fileclose-ref :
    (f : ℕ) (t t' : Ftable) (r : Release) (g : ℕ)
    → (t f).ref < 2 ^ 31
    → fileclose f t ≡ ok (r, t')
    → (t' g).ref + use_of g (some f) ≡ (t g).ref
unfolding fileclose
fileclose-ref f t t' r g small e = elim (Bool-cases (lt_int (t f).ref 1)) [
  | inl h ↦ absurd (ground (arith, e, h))
  | inr h ↦ elim (Bool-cases (lt_int 0 (sub32 (t f).ref 1))) [
    | inl b ↦
        let at : ok (nothing, update t f (record (t f) { ref = sub32 (t f).ref 1 })) ≡ ok (r, t') =
          rw (h, b, fileclose) at e in
        ap (λ (q : Release × Ftable). (q.1 g).ref + use_of g (some f)) (sym (ok-eq at))
        ∙ set_ref t f g (record (t f) { ref = sub32 (t f).ref 1 }) (ground (arith, h, b, small))
    | inr b ↦
        let at : ok (release_of (t f), update t f (record (t f) { ref = 0; type_of = fd_none }))
            ≡ ok (r, t') =
          rw (h, b, fileclose) at e in
        ap (λ (q : Release × Ftable). (q.1 g).ref + use_of g (some f)) (sym (ok-eq at))
        ∙ set_ref t f g (record (t f) { ref = 0; type_of = fd_none }) (ground (arith, h, b, small))
  ]
]

module _ (kend : ℕ) (sb : Superblock) (de name : Bytes) where
  release_file-files :
      (i : ℕ) (r : Release) (s s' : Kernel)
      → release_file kend sb de name i r s ≡ done s'
      → s'.files ≡ s.files
  unfolding release_file
  release_file-files i nothing s s' e = ap (λ (x : Kernel). x.files) (sym (done-eq e))
  release_file-files i (close_pipe pi writable) s s' e =
      let (last, q) = pipeclose writable (s.pipes pi) in
      let next : Kmem → Run Kernel = λ mem. done (record s {
        pipes = update s.pipes pi q;
        procs = wakeup (some i) (if writable then nread_at pi else nwrite_at pi) s.procs;
        mem = mem;
      }) in
      let (mem, w, e1) =
        >>=-eq-done (if last then lift (kfree kend s.mem pi) else done s.mem) next e in
      ap (λ (x : Kernel). x.files) (sym (done-eq e1))
  release_file-files i (put_inode ip) s s' e =
      let ending : State → Run Kernel = λ fs3. done (record s { fs = fs3 }) in
      let (fs1, w1, e1) =
        >>=-eq-done (begin_fs s.fs)
          (λ fs1. iput sb (s.procs i).pid ip fs1 >>= λ fs2. end_fs fs2 >>= ending) e in
      let (fs2, w2, e2) =
        >>=-eq-done (iput sb (s.procs i).pid ip fs1) (λ fs2. end_fs fs2 >>= ending) e1 in
      let (fs3, w3, e3) = >>=-eq-done (end_fs fs2) ending e2 in
      ap (λ (x : Kernel). x.files) (sym (done-eq e3))

  pub close_file-ref :
      (i f : ℕ) (s s' : Kernel) (g : ℕ)
      → (s.files f).ref < 2 ^ 31
      → close_file kend sb de name i f s ≡ done s'
      → (s'.files g).ref + use_of g (some f) ≡ (s.files g).ref
  unfolding close_file
  close_file-ref i f s s' g small e =
      let (q, w, e1) =
        >>=-eq-done (lift (fileclose f s.files))
          (λ q. release_file kend sb de name i q.0 (record s { files = q.1 })) e in
      ap (λ (t : Ftable). (t g).ref + use_of g (some f))
        (release_file-files i q.0 (record s { files = q.1 }) s' e1)
      ∙ fileclose-ref f s.files q.1 q.0 g small (lift-done (fileclose f s.files) w)

  pub leave_directory-files :
      (i : ℕ) (s s' : Kernel) → leave_directory kend sb de name i s ≡ done s' → s'.files ≡ s.files
  unfolding leave_directory
  leave_directory-files i s s' e =
      let ending : State → Run Kernel =
        λ fs3. done (set_proc i (record (s.procs i) { cwd = 0 }) (record s { fs = fs3 })) in
      let (fs1, w1, e1) =
        >>=-eq-done (begin_fs s.fs)
          (λ fs1. iput sb (s.procs i).pid (s.procs i).cwd fs1 >>= λ fs2. end_fs fs2 >>= ending) e in
      let (fs2, w2, e2) =
        >>=-eq-done (iput sb (s.procs i).pid (s.procs i).cwd fs1) (λ fs2. end_fs fs2 >>= ending)
          e1 in
      let (fs3, w3, e3) = >>=-eq-done (end_fs fs2) ending e2 in
      ap (λ (x : Kernel). x.files) (sym (done-eq e3))
