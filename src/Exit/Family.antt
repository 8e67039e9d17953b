-- ===== src/Exit/Family.antt =====
-- exit and wait of kernel/proc.c: an exited process keeps no file and no child, and its parent finds it.
use snu_os.Base.{
  ℕ, ◌^◌, zero, suc, ◌+◌, ◌<◌, ◌≡◌, ◌≢◌, refl, sym, ap, ◌∙◌, ◌⊎◌, inl, inr, Bool, true, false, not,
  ◌&&◌, Option, none, some, ltb, leb, ◌==◌, if◌then◌else◌, update, update_self, arith, Bool-cases,
  Option-cases, ==_iff, ==_refl,
}
use mathlib.Core.Path.{subst}
use snu_os.Base.Bytes.{Bytes}
use snu_os.Base.Run.{Run, done, halt_if, ◌>>=◌, >>=-eq-done, done-eq}
use snu_os.Base.Outcome.{Outcome, ok, panic}
use snu_os.Proc.{nproc, Table, zombie, same_state, is_not, is_child, leave_family}
use snu_os.Proc.Life.{cleared, Kernel, nofile, wait, WaitEnd, reaped, failed, scanned}
use snu_os.Proc.Life.Wait.{FirstZombie, Waited, wait-Waited, is_zombie}
use snu_os.Fs.{Superblock}
use snu_os.Sysfile.{set_fd, close_file}
use snu_os.Exit.{become_zombie, close_all, leave_directory, exit}
use snu_os.Files.{Ftable}
use snu_os.Exit.Counts.{use_of, uses, uses_cong, close_file-ref, leave_directory-files}
use snu_os.Exit.Keeps.{
  adopted, updated-keeps, close_file-keeps, leave_directory-keeps, reparent-parent, adopted-gone,
  leave_family-reparent, leave_family-keeps,
}

module _ (init : ℕ) (at : ℕ → ℕ) (i status : ℕ) (t : Table) where
  -- the process before its state is written
  abbrev left : Table
  left = leave_family init at i t

  become_zombie_self :
      become_zombie init at i status t i ≡ record (left i) { xstate = status; state = zombie }
  unfolding become_zombie
  become_zombie_self = update_self left i (record (left i) { xstate = status; state = zombie })

  become_zombie-state : (become_zombie init at i status t i).state ≡ zombie
  become_zombie-state = ap (λ q. q.state) become_zombie_self

  become_zombie-xstate : (become_zombie init at i status t i).xstate ≡ status
  become_zombie-xstate = ap (λ q. q.xstate) become_zombie_self

  become_zombie-ofile : (x : ℕ) → (become_zombie init at i status t i).ofile x ≡ (t i).ofile x
  become_zombie-ofile x =
      ap (λ q. q.ofile x) become_zombie_self
      ∙ leave_family-keeps init at (λ q. q.ofile x) (λ q. refl) (λ q o. refl) i t i

  left-parent :
      (j : ℕ)
      → (left j).parent ≡ (if ltb j nproc then adopted init at i (t j).parent else (t j).parent)
  left-parent j =
      leave_family-reparent init at (λ q. q.parent) (λ q. refl) i t j
      ∙ reparent-parent init at i t j

  become_zombie-left : (j : ℕ) → (become_zombie init at i status t j).parent ≡ (left j).parent
  unfolding become_zombie
  become_zombie-left j =
      updated-keeps (λ q. q.parent) (λ q. refl) left i j
        (record (left i) { xstate = status; state = zombie }) refl

  become_zombie-childless :
      (j : ℕ)
      → (i == init) ≡ false
      → j < nproc
      → is_child i (become_zombie init at i status t j) ≡ false
  become_zombie-childless j ne l =
      ap (λ o. not (is_not o i)) (become_zombie-left j ∙ left-parent j)
      ∙ (let on : ltb j nproc ≡ true = ground (arith, l) in
          rw (on) (adopted-gone init at i (t j).parent ne))

  become_zombie-parent :
      is_child i (t i) ≡ false → (become_zombie init at i status t i).parent ≡ (t i).parent
  become_zombie-parent c =
      become_zombie-left i
      ∙ left-parent i
      ∙ elim (Bool-cases (ltb i nproc)) [ inl e ↦ rw (e, c) refl | inr e ↦ rw (e) refl ]

-- Descriptor `fd`, and the `k` behind it.
closed_join :
    (k fd x : ℕ) (q o : Option ℕ)
    → q ≡ (if fd == x then none else o)
    → (if leb (fd + 1) x && ltb x (fd + 1 + k) then none else q)
      ≡ (if leb fd x && ltb x (fd + suc k) then none else o)
closed_join k fd x q o e = elim (Bool-cases (fd == x)) [
  | inl same ↦
      (let l : leb (fd + 1) x ≡ false = ground (arith, same) in
        let u : (leb fd x && ltb x (fd + suc k)) ≡ true = ground (arith, same) in
        rw (l, u) (e ∙ rw (same) refl))
  | inr ne ↦
      (let l : (leb (fd + 1) x && ltb x (fd + 1 + k)) ≡ (leb fd x && ltb x (fd + suc k)) =
          ground (arith, ne) in
        let qo : q ≡ o = e ∙ rw (ne) refl in
        rw (l) (ap (λ y. if leb fd x && ltb x (fd + suc k) then none else y) qo))
]

clash : (b : Bool) → b ≡ true → b ≡ false → ⊥
clash b e h = cc

-- How wait by `p` ends when it finds a child: its first zombie child `m` of the table is cleared, and
-- its pid is the result.
abbrev pub Reaped : ℕ → Table → WaitEnd × Kernel → Type 0
Reaped p t r =
    (m : ℕ) × (after : Kernel) × FirstZombie p 0 nproc t m
    × (r ≡ (reaped (t m).pid, after))
    × (after.procs ≡ update t m (cleared (t m)))

-- A parent with a zombie child finds one.
found_one :
    (kend trampoline forkret p i : ℕ) (s : Kernel) (r : WaitEnd × Kernel)
    → i < nproc
    → is_child p (s.procs i) ≡ true
    → is_zombie (s.procs i) ≡ true
    → Waited kend trampoline forkret p 0 s r
    → Reaped p s.procs r
found_one kend trampoline forkret p i s (reaped pid, s') l c z
      (m, first, same, written, after, freed) =
    (m, s', first, ap (λ q. (reaped q, s')) same, after)
found_one kend trampoline forkret p i s (failed, s') l c z (inl (same, none_is)) =
    absurd (clash (is_child p (s.procs i)) c (none_is i (omega arith) (omega (arith, l))))
found_one kend trampoline forkret p i s (failed, s') l c z (inr (inl (same, lives, k))) =
    absurd (clash (is_zombie (s.procs i)) z (lives i (omega arith) (omega (arith, l)) c))
found_one kend trampoline forkret p i s (failed, s') l c z (inr (inr (m, first, ne, kept, rest))) =
    absurd (ne refl)
found_one kend trampoline forkret p i s (scanned more, s') l c z w =
    absurd (clash (is_zombie (s.procs i)) z (w.0 i (omega arith) (omega (arith, l)) c))

-- The two ways that a run of wait may end.
waited :
    (p : ℕ) (t : Table) (o : Outcome (WaitEnd × Kernel))
    → ((r : WaitEnd × Kernel) → o ≡ ok r → Reaped p t r)
    → (o ≡ panic) ⊎ ((r : WaitEnd × Kernel) × (o ≡ ok r) × Reaped p t r)
waited p t panic found = inl refl
waited p t (ok r) found = inr (r, refl, found r refl)

not_init : (b : Bool) (u : Unit {0}) → halt_if b ≡ done u → b ≡ false
not_init false u e = refl
not_init true u e = cc

module _ (kend : ℕ) (sb : Superblock) (de name : Bytes) where
  none_stays : (o : ℕ → Option ℕ) (fd x : ℕ) → o fd ≡ none → o x ≡ (if fd == x then none else o x)
  none_stays o fd x h = elim (Bool-cases (fd == x)) [
    | inr ne ↦ rw (ne) refl
    | inl same ↦ rw (same) (ap o (sym ((==_iff fd x).0 same)) ∙ h)
  ]

  fd_closed :
      (i fd x : ℕ) (s : Kernel)
      → ((set_fd i fd none s).procs i).ofile x ≡ (if fd == x then none else (s.procs i).ofile x)
  fd_closed i fd x s = rw (==_refl i) refl

  -- A round of close_all.
  close_all-suc :
      (k fd i : ℕ) (s s' : Kernel)
      → close_all kend sb de name (suc k) fd i s ≡ done s'
      → (((s.procs i).ofile fd ≡ none) × (close_all kend sb de name k (fd + 1) i s ≡ done s'))
        ⊎ ((g : ℕ) × (s1 : Kernel) × ((s.procs i).ofile fd ≡ some g)
            × (close_file kend sb de name i g s ≡ done s1)
            × (close_all kend sb de name k (fd + 1) i (set_fd i fd none s1) ≡ done s'))
  unfolding close_all
  close_all-suc k fd i s s' e = elim (Option-cases ((s.procs i).ofile fd)) [
    | inl h ↦ inl (h, rw (h, close_all) at e)
    | inr (g, h) ↦
        (let (s1, w1, e1) =
            >>=-eq-done (close_file kend sb de name i g s)
              (λ s1. close_all kend sb de name k (fd + 1) i (set_fd i fd none s1))
              (rw (h, close_all) at e) in
          inr (g, s1, h, w1, e1))
  ]

  close_all-parent :
      (k fd i : ℕ) (s s' : Kernel) (j : ℕ)
      → close_all kend sb de name k fd i s ≡ done s'
      → (s'.procs j).parent ≡ (s.procs j).parent
  unfolding close_all
  close_all-parent zero fd i s s' j e = ap (λ (x : Kernel). (x.procs j).parent) (sym (done-eq e))
  close_all-parent (suc k) fd i s s' j e = elim (close_all-suc k fd i s s' e) [
    | inl (h, w) ↦ close_all-parent k (fd + 1) i s s' j w
    | inr (g, s1, h, w1, e1) ↦
        close_all-parent k (fd + 1) i (set_fd i fd none s1) s' j e1
        ∙ updated-keeps (λ q. q.parent) (λ q. refl) s1.procs i j
            (record (s1.procs i) { ofile = update (s1.procs i).ofile fd none }) refl
        ∙ close_file-keeps (λ q. q.parent) (λ q. refl) kend sb de name i g s s1 j w1
  ]

  -- The descriptors from `fd` on are closed, and the others stay.
  close_all-ofile :
      (k fd i : ℕ) (s s' : Kernel) (x : ℕ)
      → close_all kend sb de name k fd i s ≡ done s'
      → (s'.procs i).ofile x ≡ (if leb fd x && ltb x (fd + k) then none else (s.procs i).ofile x)
  unfolding close_all
  close_all-ofile zero fd i s s' x e =
      ap (λ (y : Kernel). (y.procs i).ofile x) (sym (done-eq e))
      ∙ (let off : (leb fd x && ltb x (fd + 0)) ≡ false = ground arith in rw (off) refl)
  close_all-ofile (suc k) fd i s s' x e = elim (close_all-suc k fd i s s' e) [
    | inl (h, w) ↦
        close_all-ofile k (fd + 1) i s s' x w
        ∙ closed_join k fd x ((s.procs i).ofile x) ((s.procs i).ofile x)
            (none_stays (s.procs i).ofile fd x h)
    | inr (g, s1, h, w1, e1) ↦
        close_all-ofile k (fd + 1) i (set_fd i fd none s1) s' x e1
        ∙ closed_join k fd x (((set_fd i fd none s1).procs i).ofile x) ((s.procs i).ofile x) (
            fd_closed i fd x s1
            ∙ ap (λ o. if fd == x then none else o)
                (close_file-keeps (λ q. q.ofile x) (λ q. refl) kend sb de name i g s s1 i w1))
  ]

  -- Each file has lost one reference for each descriptor of the process from `fd` on.
  close_all-ref :
      (k fd i : ℕ) (s s' : Kernel) (g : ℕ)
      → ((f : ℕ) → (s.files f).ref < 2 ^ 31)
      → close_all kend sb de name k fd i s ≡ done s'
      → (s'.files g).ref + uses k fd (s.procs i).ofile g ≡ (s.files g).ref
  unfolding close_all
  close_all-ref zero fd i s s' g small e =
      let same = ap (λ (x : Kernel). (x.files g).ref) (done-eq e) in omega (arith, same)
  close_all-ref (suc k) fd i s s' g small e = elim (close_all-suc k fd i s s' e) [
    | inl (h, w) ↦
        (let rest = close_all-ref k (fd + 1) i s s' g small w in
          let none_used = ap (use_of g) h in omega (arith, rest, none_used))
    | inr (f, s1, h, w1, e1) ↦
        (let one = close_file-ref kend sb de name i f s s1 in
          let smaller : (x : ℕ) → (s1.files x).ref < 2 ^ 31 =
            λ x. (let less = one x (small f) w1 in let was = small x in omega (arith, less, was)) in
          let rest = close_all-ref k (fd + 1) i (set_fd i fd none s1) s' g smaller e1 in
          let later =
            uses_cong k (fd + 1) g ((set_fd i fd none s1).procs i).ofile (s.procs i).ofile (λ x l.
              (fd_closed i fd x s1
                ∙ (let ne : (fd == x) ≡ false = ground (arith, l) in
                    rw (ne) (
                      close_file-keeps (λ q. q.ofile x) (λ q. refl) kend sb de name i f s s1 i
                        w1)))) in
          let here = ap (use_of g) h in
          let less = one g (small f) w1 in omega (arith, rest, later, here, less))
  ]

  -- What exit leaves of process `i`.
  abbrev pub Left : ℕ → (ℕ → ℕ) → ℕ → ℕ → Kernel → Kernel → Type 0
  Left init at i status s s' =
      ((s'.procs i).state ≡ zombie)
      × ((s'.procs i).xstate ≡ status)
      × ((fd : ℕ) → fd < nofile → (s'.procs i).ofile fd ≡ none)
      × ((j : ℕ) → j < nproc → is_child i (s'.procs j) ≡ false)
      × (is_child i (s.procs i) ≡ false → (s'.procs i).parent ≡ (s.procs i).parent)

  exit-Left :
      (init : ℕ) (at : ℕ → ℕ) (i status : ℕ) (s s' : Kernel)
      → exit kend sb de name init at i status s ≡ done s'
      → Left init at i status s s'
  unfolding exit
  exit-Left init at i status s s' e =
      let last : Kernel → Run Kernel =
        λ s2. done (record s2 { procs = become_zombie init at i status s2.procs }) in
      let (u, w0, e0) =
        >>=-eq-done (halt_if (i == init))
          (λ _. close_all kend sb de name nofile 0 i s >>= λ s1.
            leave_directory kend sb de name i s1 >>= last)
          e in
      let (s1, w1, e1) =
        >>=-eq-done (close_all kend sb de name nofile 0 i s)
          (λ s1. leave_directory kend sb de name i s1 >>= last) e0 in
      let (s2, w2, e2) = >>=-eq-done (leave_directory kend sb de name i s1) last e1 in
      let same : become_zombie init at i status s2.procs ≡ s'.procs =
        ap (λ (x : Kernel). x.procs) (done-eq e2) in
      let own : (x : ℕ) → (s2.procs i).ofile x ≡ (s1.procs i).ofile x = λ x.
        leave_directory-keeps (λ q. q.ofile x) (λ q. refl) kend sb de name i s1 s2 i (λ q. refl)
          w2 in
      let parents : (s2.procs i).parent ≡ (s.procs i).parent =
        leave_directory-keeps (λ q. q.parent) (λ q. refl) kend sb de name i s1 s2 i (λ q. refl) w2
        ∙ close_all-parent nofile 0 i s s1 i w1 in
      subst
        (λ (t : Table).
          ((t i).state ≡ zombie)
          × ((t i).xstate ≡ status)
          × ((fd : ℕ) → fd < nofile → (t i).ofile fd ≡ none)
          × ((j : ℕ) → j < nproc → is_child i (t j) ≡ false)
          × (is_child i (s.procs i) ≡ false → (t i).parent ≡ (s.procs i).parent))
        same
        (
          become_zombie-state init at i status s2.procs,
          become_zombie-xstate init at i status s2.procs,
          (λ fd l.
              become_zombie-ofile init at i status s2.procs fd
              ∙ own fd
              ∙ close_all-ofile nofile 0 i s s1 fd w1
              ∙ (let on : (leb 0 fd && ltb fd (0 + nofile)) ≡ true = ground (arith, l) in
                  rw (on) refl)),
          (λ j l.
              become_zombie-childless init at i status s2.procs j (not_init (i == init) u w0) l),
          (λ c.
              become_zombie-parent init at i status s2.procs
                (subst (λ o. not (is_not o i) ≡ false) (sym parents) c)
              ∙ parents),
        )

  exit-files :
      (init : ℕ) (at : ℕ → ℕ) (i status : ℕ) (s s' : Kernel) (g : ℕ)
      → ((f : ℕ) → (s.files f).ref < 2 ^ 31)
      → exit kend sb de name init at i status s ≡ done s'
      → (s'.files g).ref + uses nofile 0 (s.procs i).ofile g ≡ (s.files g).ref
  unfolding exit
  exit-files init at i status s s' g small e =
      let last : Kernel → Run Kernel =
        λ s2. done (record s2 { procs = become_zombie init at i status s2.procs }) in
      let (u, w0, e0) =
        >>=-eq-done (halt_if (i == init))
          (λ _. close_all kend sb de name nofile 0 i s >>= λ s1.
            leave_directory kend sb de name i s1 >>= last)
          e in
      let (s1, w1, e1) =
        >>=-eq-done (close_all kend sb de name nofile 0 i s)
          (λ s1. leave_directory kend sb de name i s1 >>= last) e0 in
      let (s2, w2, e2) = >>=-eq-done (leave_directory kend sb de name i s1) last e1 in
      ap (λ (t : Ftable). (t g).ref + uses nofile 0 (s.procs i).ofile g)
        (ap (λ (x : Kernel). x.files) (sym (done-eq e2))
          ∙ leave_directory-files kend sb de name i s1 s2 w2)
      ∙ close_all-ref nofile 0 i s s1 g small w1

  -- What exit leaves of process `i` and of the open files.
  abbrev pub Exited : ℕ → (ℕ → ℕ) → ℕ → ℕ → Kernel → Kernel → Type 0
  Exited init at i status s s' =
      Left init at i status s s'
      × ((g : ℕ) → (s'.files g).ref + uses nofile 0 (s.procs i).ofile g ≡ (s.files g).ref)

  -- A run of exit that ends at sched, where the counts of the open files are ints, leaves the process
  -- a zombie with that status and with no descriptor, and each open file has lost as many references
  -- as the process had descriptors for it. No process of the table is its child any more, and unless
  -- it was its own child it has the parent that it had.
  pub exit-Exited :
      (init : ℕ) (at : ℕ → ℕ) (i status : ℕ) (s s' : Kernel)
      → ((f : ℕ) → (s.files f).ref < 2 ^ 31)
      → exit kend sb de name init at i status s ≡ done s'
      → Exited init at i status s s'
  exit-Exited init at i status s s' small e =
      (exit-Left init at i status s s' e, λ g. exit-files init at i status s s' g small e)

  -- wait does not miss a process that has exited: when process `i` of the table, whose parent is another
  -- process `p`, has run through exit, then a round of wait by `p` with the null pointer for the
  -- status, unless it halts the machine, finds the first zombie child of `p`, clears that process alone
  -- and returns its pid. It neither sleeps nor returns -1, whether or not `p` is killed.
  pub exit-wait :
      (trampoline forkret init : ℕ) (at : ℕ → ℕ) (i p status : ℕ) (s s' : Kernel)
      → i < nproc
      → (s.procs i).parent ≡ some p
      → p ≢ i
      → exit kend sb de name init at i status s ≡ done s'
      → (wait kend trampoline forkret p 0 s' ≡ panic)
        ⊎ ((r : WaitEnd × Kernel) × (wait kend trampoline forkret p 0 s' ≡ ok r)
            × Reaped p s'.procs r)
  exit-wait trampoline forkret init at i p status s s' l parent ne e =
      let out = exit-Left init at i status s s' e in
      let other : is_child i (s.procs i) ≡ false =
        ap (λ o. not (is_not o i)) parent ∙ ground (arith, ne) in
      let child : is_child p (s'.procs i) ≡ true =
        ap (λ o. not (is_not o p)) (out.4 other ∙ parent) ∙ ground arith in
      let dead : is_zombie (s'.procs i) ≡ true = ap (λ x. same_state x zombie) out.0 in
      waited p s'.procs (wait kend trampoline forkret p 0 s') (λ r w.
        found_one kend trampoline forkret p i s' r l child dead
          (wait-Waited kend trampoline forkret p 0 s' r w))
