-- ===== src/Sysfile/Descriptors.antt =====
-- Descriptors of kernel/sysfile.c: fdalloc, sys_dup and sys_close.
use snu_os.Base.{
  ℕ, zero, suc, ◌+◌, ◌%◌, false, leb, ◌≤◌, ◌<◌, ◌^◌, ◌≡◌, refl, sym, ap, ◌∙◌, inl, inr, Option,
  none, some, arith, ◌==◌, ==_iff, update, update_self, Bool-cases, Option-cases,
}
use mathlib.Core.Path.{subst, fun_ext}
use snu_os.Base.Bytes.{Bytes}
use snu_os.Base.Run.{Run, done, lift, ◌>>=◌, >>=-eq-done, done-eq, lift-done}
use snu_os.Fs.{Superblock}
use snu_os.Base.Words.{add32, sub32}
use snu_os.Base.Outcome.{ok}
use snu_os.Files.{File, Ftable, nothing, filedup, fileclose}
use snu_os.Files.Refs.{filedup-ok, fileclose-many}
use snu_os.Proc.{Proc, Table}
use snu_os.Proc.Life.{Kernel, nofile}
use snu_os.Vm.{set_word}
use snu_os.Syscall.{minus_one, register, argraw, argint}
use snu_os.Sysfile.{
  argfd, sys_dup, sys_close, free_fd, fdalloc, set_fd, dup_file, close_file, close_fd, release_file,
}

free_fd-some :
    (k fd : ℕ) (ofile : ℕ → Option ℕ) (d : ℕ)
    → free_fd k fd ofile ≡ some d
    → (fd ≤ d) × (d < fd + k) × (ofile d ≡ none)
unfolding free_fd
free_fd-some zero fd ofile d e = cc
free_fd-some (suc k) fd ofile d e = elim (Option-cases (ofile fd)) [
  | inl h ↦
      (let same : some fd ≡ some d = rw (h, free_fd) at e in
        let at : fd ≡ d = cc in (omega (arith, at), omega (arith, at), ap ofile (sym at) ∙ h))
  | inr (x, h) ↦
      (let (lo, hi, free) = free_fd-some k (fd + 1) ofile d (rw (h, free_fd) at e) in
        (omega (arith, lo), omega (arith, hi), free))
]

-- Two stores, of which the second puts back what the first has replaced.
update_back {ℓ} :
    {A : Type ℓ} (f : ℕ → A) (i : ℕ) (v w : A) → w ≡ f i → update (update f i v) i w ≡ f
update_back f i v w same = fun_ext (λ j. elim (Bool-cases (i == j)) [
  | inl h ↦ rw h (same ∙ ap f ((==_iff i j).0 h))
  | inr h ↦ rw h refl
])

-- The file table after a filedup and a fileclose of the same file.
fileclose_back :
    (f : ℕ) (t t' : Ftable)
    → (t f).ref + 1 < 2 ^ 31
    → filedup f t ≡ ok t'
    → fileclose f t' ≡ ok (nothing, t)
fileclose_back f t t' small e =
    let (pos, at) = filedup-ok f t t' (omega arith) e in
    let new : File = record (t f) { ref = add32 (t f).ref 1 } in
    let here : t' f ≡ new = ap (λ (x : Ftable). x f) at ∙ update_self t f new in
    let n : (t' f).ref ≡ (t f).ref + 1 = ap (λ (x : File). x.ref) here ∙ ground (arith, small) in
    let less : sub32 (add32 (t f).ref 1) 1 ≡ (t f).ref = ground (arith, small) in
    let w : record (t' f) { ref = sub32 (t' f).ref 1 } ≡ t f =
      ap (λ (x : File). record x { ref = sub32 x.ref 1 }) here
      ∙ ap (λ (r : ℕ). record (t f) { ref = r }) less in
    fileclose-many f t' (omega arith) (omega arith)
    ∙ ap (λ (x : Ftable). ok (nothing, x))
        (ap (λ (x : Ftable). update x f (record (t' f) { ref = sub32 (t' f).ref 1 })) at
          ∙ update_back t f new (record (t' f) { ref = sub32 (t' f).ref 1 }) w)

-- A descriptor put in a free place and taken out again.
set_fd_back :
    (i fd f : ℕ) (s : Kernel) (t : Ftable)
    → (s.procs i).ofile fd ≡ none
    → record (set_fd i fd none (record (set_fd i fd (some f) s) { files = t })) { files = s.files }
      ≡ s
set_fd_back i fd f s t free =
    let p : Proc = record (s.procs i) { ofile = update (s.procs i).ofile fd (some f) } in
    let back : Proc → Proc = λ q. record q { ofile = update q.ofile fd none } in
    let w : back (update s.procs i p i) ≡ s.procs i =
      ap back (update_self s.procs i p)
      ∙ ap (λ (o : ℕ → Option ℕ). record (s.procs i) { ofile = o })
          (update_back (s.procs i).ofile fd (some f) none (sym free)) in
    ap (λ (x : Table). record s { procs = x })
      (update_back s.procs i p (back (update s.procs i p i)) w)

-- dup_file that returns a descriptor has found it free, and put the file there.
dup_file-done :
    (i f fd : ℕ) (s s' : Kernel)
    → dup_file i f s ≡ done (fd, s')
    → fd < nofile
    → (t : Ftable) × (filedup f s.files ≡ ok t)
      × ((s.procs i).ofile fd ≡ none)
      × (s' ≡ record (set_fd i fd (some f) s) { files = t })
unfolding dup_file fdalloc
dup_file-done i f fd s s' e low = elim (Option-cases (free_fd nofile 0 (s.procs i).ofile)) [
  | inl h ↦
      let at : done (minus_one, s) ≡ done (fd, s') = rw (h, dup_file, fdalloc) at e in
      let n : minus_one ≡ fd =
        ap (λ (q : ℕ × Kernel). q.0) (done-eq {a = (minus_one, s)} {b = (fd, s')} at) in
      absurd (omega (arith, n, low))
  | inr (d, h) ↦
      (let (lo, hi, free) = free_fd-some nofile 0 (s.procs i).ofile d h in
        let next : Ftable → Run (ℕ × Kernel) =
          λ t. done (d, record (set_fd i d (some f) s) { files = t }) in
        let at : (lift (filedup f s.files) >>= next) ≡ done (fd, s') =
          rw (h, dup_file, fdalloc) at e in
        let (t, w, r) = >>=-eq-done (lift (filedup f s.files)) next at in
        let same : d ≡ fd = ap (λ (q : ℕ × Kernel). q.0) (done-eq r) in
        (
          t,
          lift-done (filedup f s.files) w,
          subst (λ x. (s.procs i).ofile x ≡ none) same free,
          sym (ap (λ (q : ℕ × Kernel). q.1) (done-eq r))
              ∙ ap (λ x. record (set_fd i x (some f) s) { files = t }) same,
        ))
]

-- The kernel once syscall has put `v` into a0 of process `i`.
abbrev pub with_a0 : ℕ → ℕ → Kernel → Kernel
with_a0 i v s = record s { mem = set_word ((s.procs i).trapframe + 112) v s.mem }

argfd-with_a0 :
    (i v f : ℕ) (s : Kernel)
    → v < nofile
    → (s.procs i).ofile v ≡ some f
    → argfd i 0 (with_a0 i v s) ≡ done (some (v, f))
unfolding argfd argint argraw
argfd-with_a0 i v f s low opened =
    let at : register i 0 (with_a0 i v s) % 2 ^ 32 ≡ v = ground (arith, low) in
    let inside : leb nofile v ≡ false = ground (arith, low) in
    rw (at, inside, opened) (ap (λ x. done (some (x, f))) at)

-- The address of a0 does not depend on the descriptors.
set_fd-with_a0 :
    (i fd f v : ℕ) (s : Kernel) (t : Ftable)
    → with_a0 i v (record (set_fd i fd (some f) s) { files = t })
      ≡ record (set_fd i fd (some f) (with_a0 i v s)) { files = t }
set_fd-with_a0 i fd f v s t =
    let p : Proc = record (s.procs i) { ofile = update (s.procs i).ofile fd (some f) } in
    ap
      (λ (q : Proc). record (set_fd i fd (some f) s) {
        files = t;
        mem = set_word (q.trapframe + 112) v s.mem;
      })
      (update_self s.procs i p)

module _ (kend : ℕ) (sb : Superblock) (de name : Bytes) where
  close_fd-set_fd :
      (i f fd : ℕ) (s : Kernel) (t : Ftable)
      → (s.files f).ref + 1 < 2 ^ 31
      → filedup f s.files ≡ ok t
      → (s.procs i).ofile fd ≡ none
      → close_fd kend sb de name i fd f (record (set_fd i fd (some f) s) { files = t })
        ≡ done (0, s)
  unfolding close_fd close_file release_file
  close_fd-set_fd i f fd s t small e free =
      rw (fileclose_back f s.files t small e)
        (ap (λ (x : Kernel). done (0, x)) (set_fd_back i fd f s t free))

  -- sys_close looks up the file in the descriptors that sys_dup has written.
  sys_close-set_fd :
      (i f fd : ℕ) (s : Kernel) (t : Ftable)
      → fd < nofile
      → sys_close kend sb de name i (with_a0 i fd (record (set_fd i fd (some f) s) { files = t }))
        ≡ close_fd kend sb de name i fd f
            (with_a0 i fd (record (set_fd i fd (some f) s) { files = t }))
  unfolding sys_close
  sys_close-set_fd i f fd s t low =
      let p : Proc = record (s.procs i) { ofile = update (s.procs i).ofile fd (some f) } in
      let opened : ((set_fd i fd (some f) s).procs i).ofile fd ≡ some f =
        ap (λ (q : Proc). q.ofile fd) (update_self s.procs i p)
        ∙ update_self (s.procs i).ofile fd (some f) in
      rw (argfd-with_a0 i fd f (record (set_fd i fd (some f) s) { files = t }) low opened) refl

  -- sys_close undoes sys_dup: when sys_dup returns a descriptor, the counts of the open files are ints
  -- that can grow, and the process calls sys_close with that descriptor, which it has in a0, sys_close
  -- returns 0 and leaves the kernel as it was before sys_dup, but for a0: the table of open files, the
  -- descriptors of all processes and the file system included.
  pub sys_close-sys_dup :
      (i fd : ℕ) (s s' : Kernel)
      → ((f : ℕ) → (s.files f).ref + 1 < 2 ^ 31)
      → sys_dup i s ≡ done (fd, s')
      → fd < nofile
      → sys_close kend sb de name i (with_a0 i fd s') ≡ done (0, with_a0 i fd s)
  unfolding sys_dup
  sys_close-sys_dup i fd s s' small e low =
      let (r, w, e1) = >>=-eq-done (argfd i 0 s) (next s) e in by_file r e1
    where
      next : Kernel → Option (ℕ × ℕ) → Run (ℕ × Kernel)
      next u r = elim r [ none ↦ done (minus_one, u) | some (old, f) ↦ dup_file i f u ]

      by_file :
          (r : Option (ℕ × ℕ))
          → next s r ≡ done (fd, s')
          → sys_close kend sb de name i (with_a0 i fd s') ≡ done (0, with_a0 i fd s)
      by_file none at =
          let n : minus_one ≡ fd = ap (λ (q : ℕ × Kernel). q.0) (done-eq at) in
          absurd (omega (arith, n, low))
      by_file (some (old, f)) at =
          let (t, dup, free, same) = dup_file-done i f fd s s' at low in
          subst
            (λ (u : Kernel).
              sys_close kend sb de name i (with_a0 i fd u) ≡ done (0, with_a0 i fd s))
            (sym same)
            (sys_close-set_fd i f fd s t low
              ∙ ap (close_fd kend sb de name i fd f) (set_fd-with_a0 i fd f fd s t)
              ∙ close_fd-set_fd i f fd (with_a0 i fd s) t (small f) dup free)
