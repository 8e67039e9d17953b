-- ===== src/Exit/Keeps.antt =====
-- What the steps of exit in kernel/proc.c leave of the processes.
use snu_os.Base.{
  ℕ, zero, suc, ◌+◌, ◌≡◌, refl, sym, ap, ◌∙◌, inl, inr, Bool, true, false, not, ◌&&◌, Option, none,
  some, ltb, leb, ◌==◌, if◌then◌else◌, update, arith, Bool-cases, ==_iff,
}
use mathlib.Core.Path.{subst}
use snu_os.Base.Bytes.{Bytes}
use snu_os.Base.Run.{Run, done, lift, ◌>>=◌, >>=-eq-done, done-eq}
use snu_os.Proc.{
  nproc, Table, Proc, is_not, is_child, wakeup, reparent_from, reparent, leave_family,
}
use snu_os.Proc.Table.{is_woken, woken, wakeup_lem}
use snu_os.Proc.Life.{Kernel, set_proc}
use snu_os.Fs.{Superblock}
use snu_os.Fs.Content.{iput}
use snu_os.Fs.Links.{begin_fs, end_fs}
use snu_os.Files.{Release, nothing, close_pipe, put_inode, fileclose}
use snu_os.Fs.Inodes.{State}
use snu_os.Kalloc.{Kmem, kfree}
use snu_os.Pipe.{pipeclose}
use snu_os.Sysfile.{nread_at, nwrite_at, release_file, close_file}
use snu_os.Exit.{leave_directory}

-- A part of a process that wakeup does not write.
module _ {ℓ} {A : Type ℓ} (f : Proc → A) (wakes : (p : Proc) → f (woken p) ≡ f p) where
  pub wakeup-keeps :
      (me : Option ℕ) (chan : ℕ) (t : Table) (j : ℕ) → f (wakeup me chan t j) ≡ f (t j)
  wakeup-keeps me chan t j = ap f (wakeup_lem me chan t j) ∙ elim (Bool-cases (ltb j nproc)) [
    | inr e ↦ rw (e) refl
    | inl e ↦ elim (Bool-cases (is_woken me chan t j)) [
      | inl e1 ↦ rw (e, e1) (wakes (t j))
      | inr e1 ↦ rw (e, e1) refl
    ]
  ]

  pub updated-keeps :
      (t : Table) (i j : ℕ) (p : Proc) → f p ≡ f (t i) → f (update t i p j) ≡ f (t j)
  updated-keeps t i j p e = elim (Bool-cases (i == j)) [
    | inr ne ↦ rw (ne) refl
    | inl same ↦ rw (same) (e ∙ ap (λ x. f (t x)) ((==_iff i j).0 same))
  ]

  module _ (kend : ℕ) (sb : Superblock) (de name : Bytes) where
    release_file-keeps :
        (i : ℕ) (r : Release) (s s' : Kernel) (j : ℕ)
        → release_file kend sb de name i r s ≡ done s'
        → f (s'.procs j) ≡ f (s.procs j)
    unfolding release_file
    release_file-keeps i nothing s s' j e = ap (λ (x : Kernel). f (x.procs j)) (sym (done-eq e))
    release_file-keeps i (close_pipe pi writable) s s' j e =
        let (last, q) = pipeclose writable (s.pipes pi) in
        let next : Kmem → Run Kernel = λ mem. done (record s {
          pipes = update s.pipes pi q;
          procs = wakeup (some i) (if writable then nread_at pi else nwrite_at pi) s.procs;
          mem = mem;
        }) in
        let (mem, w, e1) =
          >>=-eq-done (if last then lift (kfree kend s.mem pi) else done s.mem) next e in
        ap (λ (x : Kernel). f (x.procs j)) (sym (done-eq e1))
        ∙ wakeup-keeps (some i) (if writable then nread_at pi else nwrite_at pi) s.procs j
    release_file-keeps i (put_inode ip) s s' j e =
        let (fs1, w1, e1) =
          >>=-eq-done (begin_fs s.fs)
            (λ fs1. iput sb (s.procs i).pid ip fs1 >>= λ fs2.
              end_fs fs2 >>= λ fs3. done (record s { fs = fs3 }))
            e in
        let (fs2, w2, e2) =
          >>=-eq-done (iput sb (s.procs i).pid ip fs1)
            (λ fs2. end_fs fs2 >>= λ fs3. done (record s { fs = fs3 })) e1 in
        let (fs3, w3, e3) = >>=-eq-done (end_fs fs2) (λ fs3. done (record s { fs = fs3 })) e2 in
        ap (λ (x : Kernel). f (x.procs j)) (sym (done-eq e3))

    pub close_file-keeps :
        (i g : ℕ) (s s' : Kernel) (j : ℕ)
        → close_file kend sb de name i g s ≡ done s'
        → f (s'.procs j) ≡ f (s.procs j)
    unfolding close_file
    close_file-keeps i g s s' j e =
        let (q, w, e1) =
          >>=-eq-done (lift (fileclose g s.files))
            (λ q. release_file kend sb de name i q.0 (record s { files = q.1 })) e in
        release_file-keeps i q.0 (record s { files = q.1 }) s' j e1

    pub leave_directory-keeps :
        (i : ℕ) (s s' : Kernel) (j : ℕ)
        → ((p : Proc) → f (record p { cwd = 0 }) ≡ f p)
        → leave_directory kend sb de name i s ≡ done s'
        → f (s'.procs j) ≡ f (s.procs j)
    unfolding leave_directory
    leave_directory-keeps i s s' j cwd e =
        let ending : State → Run Kernel =
          λ fs3. done (set_proc i (record (s.procs i) { cwd = 0 }) (record s { fs = fs3 })) in
        let (fs1, w1, e1) =
          >>=-eq-done (begin_fs s.fs)
            (λ fs1. iput sb (s.procs i).pid (s.procs i).cwd fs1 >>= λ fs2. end_fs fs2 >>= ending)
            e in
        let (fs2, w2, e2) =
          >>=-eq-done (iput sb (s.procs i).pid (s.procs i).cwd fs1) (λ fs2. end_fs fs2 >>= ending)
            e1 in
        let (fs3, w3, e3) = >>=-eq-done (end_fs fs2) ending e2 in
        ap (λ (x : Kernel). f (x.procs j)) (sym (done-eq e3))
        ∙ updated-keeps s.procs i j (record (s.procs i) { cwd = 0 }) (cwd (s.procs i))

module _ (init : ℕ) (at : ℕ → ℕ) where
  -- The parent of a process once process `p` has given its children to init.
  abbrev pub adopted : ℕ → Option ℕ → Option ℕ
  adopted p o = if not (is_not o p) then some init else o

  -- one round of reparent
  abbrev adopt_if : Bool → ℕ → ℕ → Table → Table
  adopt_if b i p t =
      if b then wakeup (some p) (at init) (update t i (record (t i) { parent = some init })) else t

  abbrev adopt_one : ℕ → ℕ → Table → Table
  adopt_one i p t = adopt_if (is_child p (t i)) i p t

  moved-parent :
      (i p : ℕ) (t : Table) (j : ℕ)
      → is_child p (t i) ≡ true
      → (update t i (record (t i) { parent = some init }) j).parent
        ≡ (if i == j then adopted p (t j).parent else (t j).parent)
  moved-parent i p t j e = elim (Bool-cases (i == j)) [
    | inr ne ↦ rw (ne) refl
    | inl same ↦ rw (same, subst (λ x. is_child p (t x) ≡ true) ((==_iff i j).0 same) e) refl
  ]

  stays-parent :
      (i p : ℕ) (t : Table) (j : ℕ)
      → is_child p (t i) ≡ false
      → (t j).parent ≡ (if i == j then adopted p (t j).parent else (t j).parent)
  stays-parent i p t j e = elim (Bool-cases (i == j)) [
    | inr ne ↦ rw (ne) refl
    | inl same ↦ rw (same, subst (λ x. is_child p (t x) ≡ false) ((==_iff i j).0 same) e) refl
  ]

  adopt_one-parent :
      (i p : ℕ) (t : Table) (j : ℕ)
      → (adopt_one i p t j).parent ≡ (if i == j then adopted p (t j).parent else (t j).parent)
  adopt_one-parent i p t j = by_child (is_child p (t i)) refl
    where
      by_child :
          (b : Bool)
          → is_child p (t i) ≡ b
          → (adopt_if b i p t j).parent ≡ (if i == j then adopted p (t j).parent else (t j).parent)
      by_child true e =
          wakeup-keeps (λ q. q.parent) (λ q. refl) (some p) (at init)
            (update t i (record (t i) { parent = some init })) j
          ∙ moved-parent i p t j e
      by_child false e = stays-parent i p t j e

  -- A round for `i`, and those for the `k` processes behind it.
  rounds_join :
      (i k j p : ℕ) (o q : Option ℕ)
      → q ≡ (if i == j then adopted p o else o)
      → (if leb (i + 1) j && ltb j (i + 1 + k) then adopted p q else q)
        ≡ (if leb i j && ltb j (i + suc k) then adopted p o else o)
  rounds_join i k j p o q e = elim (Bool-cases (i == j)) [
    | inl same ↦
        (let l : leb (i + 1) j ≡ false = ground (arith, same) in
          let u : (leb i j && ltb j (i + suc k)) ≡ true = ground (arith, same) in
          rw (l, u) (e ∙ rw (same) refl))
    | inr ne ↦
        (let l : (leb (i + 1) j && ltb j (i + 1 + k)) ≡ (leb i j && ltb j (i + suc k)) =
            ground (arith, ne) in
          rw (l) (
            let qo : q ≡ o = e ∙ rw (ne) refl in
            ap (λ x. if leb i j && ltb j (i + suc k) then adopted p x else x) qo))
  ]

  reparent_from-parent :
      (k i p : ℕ) (t : Table) (j : ℕ)
      → (reparent_from init at k i p t j).parent
        ≡ (if leb i j && ltb j (i + k) then adopted p (t j).parent else (t j).parent)
  unfolding reparent_from
  reparent_from-parent zero i p t j =
      (let l : (leb i j && ltb j (i + 0)) ≡ false = ground arith in rw (l) refl)
  reparent_from-parent (suc k) i p t j =
      reparent_from-parent k (i + 1) p (adopt_one i p t) j
      ∙ rounds_join i k j p (t j).parent (adopt_one i p t j).parent (adopt_one-parent i p t j)

  pub reparent-parent :
      (p : ℕ) (t : Table) (j : ℕ)
      → (reparent init at p t j).parent
        ≡ (if ltb j nproc then adopted p (t j).parent else (t j).parent)
  unfolding reparent
  reparent-parent p t j =
      reparent_from-parent nproc 0 p t j
      ∙ (let same : (leb 0 j && ltb j (0 + nproc)) ≡ ltb j nproc = ground arith in rw (same) refl)

  pub adopted-gone :
      (p : ℕ) (o : Option ℕ) → (p == init) ≡ false → not (is_not (adopted p o) p) ≡ false
  adopted-gone p o ne = elim (Bool-cases (not (is_not o p))) [
    | inl c ↦ rw (c) (ground (arith, ne))
    | inr c ↦ rw (c) c
  ]

  -- A part of a process that neither wakeup nor reparent writes.
  module _ {ℓ} {A : Type ℓ} (f : Proc → A) (wakes : (p : Proc) → f (woken p) ≡ f p) where
    wake_parent-keeps :
        (i : ℕ) (o : Option ℕ) (t : Table) (j : ℕ)
        → f (
            (elim o as (λ x. Table) [
              | none ↦ wakeup (some i) 0 t
              | some p ↦ wakeup (some i) (at p) t
            ])
              j)
          ≡ f (t j)
    wake_parent-keeps i none t j = wakeup-keeps f wakes (some i) 0 t j
    wake_parent-keeps i (some p) t j = wakeup-keeps f wakes (some i) (at p) t j

    pub leave_family-reparent :
        (i : ℕ) (t : Table) (j : ℕ) → f (leave_family init at i t j) ≡ f (reparent init at i t j)
    unfolding leave_family
    leave_family-reparent i t j =
        wake_parent-keeps i (reparent init at i t i).parent (reparent init at i t) j

    module _ (adopts : (p : Proc) (o : Option ℕ) → f (record p { parent = o }) ≡ f p) where
      adopt_if-keeps : (b : Bool) (i p : ℕ) (t : Table) (j : ℕ) → f (adopt_if b i p t j) ≡ f (t j)
      adopt_if-keeps false i p t j = refl
      adopt_if-keeps true i p t j =
          wakeup-keeps f wakes (some p) (at init) (update t i (record (t i) { parent = some init }))
            j
          ∙ updated-keeps f wakes t i j (record (t i) { parent = some init })
              (adopts (t i) (some init))

      reparent_from-keeps :
          (k i p : ℕ) (t : Table) (j : ℕ) → f (reparent_from init at k i p t j) ≡ f (t j)
      unfolding reparent_from
      reparent_from-keeps zero i p t j = refl
      reparent_from-keeps (suc k) i p t j =
          reparent_from-keeps k (i + 1) p (adopt_one i p t) j
          ∙ adopt_if-keeps (is_child p (t i)) i p t j

      pub leave_family-keeps :
          (i : ℕ) (t : Table) (j : ℕ) → f (leave_family init at i t j) ≡ f (t j)
      unfolding reparent
      leave_family-keeps i t j = leave_family-reparent i t j ∙ reparent_from-keeps nproc 0 i t j
