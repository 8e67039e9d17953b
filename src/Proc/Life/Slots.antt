-- ===== src/Proc/Life/Slots.antt =====
-- The slot of the process table that allocproc of kernel/proc.c takes.
use snu_os.Base.{
  ℕ, zero, suc, ◌+◌, ◌≤◌, ◌<◌, ◌≡◌, ◌≢◌, refl, sym, ap, ◌∙◌, ◌⊎◌, inl, inr, true, false, Option,
  none, some, arith, ◌==◌, ==_iff, update, update_self, update_ne, Bool-cases, Option-cases,
}
use mathlib.Core.Path.{subst}
use snu_os.Base.Words.{add32}
use snu_os.Base.Outcome.{Outcome, ok, ◌>>=◌, >>=-eq-ok, ok-eq}
use snu_os.Kalloc.{Kmem, page_size, kalloc}
use snu_os.Proc.{nproc, unused, used, same_state, Proc, Table, allocpid}
use snu_os.Proc.Life.{
  Kernel, set_proc, cleared, find_unused, free_memory, freeproc, proc_pagetable, give_pagetable,
  setup_proc, allocproc,
}

-- What freeproc does to the table.
record Freed (i : ℕ) (s s' : Kernel) : Type 0 where
  pub slot : s'.procs i ≡ cleared (s.procs i)
  pub others : (j : ℕ) → j ≢ i → s'.procs j ≡ s.procs j
  pub nextpid : s'.nextpid ≡ s.nextpid

-- What allocproc makes of the slot `i`: it is empty again, or a process with a new pid.
pub record Made (forkret i : ℕ) (s : Kernel) (r : Option ℕ) (s' : Kernel) : Type 0 where
  pub others : (j : ℕ) → j ≢ i → s'.procs j ≡ s.procs j
  pub nextpid : s'.nextpid ≡ add32 s.nextpid 1
  pub result :
      ((r ≡ none) × ((s'.procs i).state ≡ unused) × ((s'.procs i).pid ≡ 0))
      ⊎ ((r ≡ some i)
          × ((s'.procs i).state ≡ used)
          × ((s'.procs i).pid ≡ s.nextpid)
          × ((s'.procs i).trapframe ≢ 0)
          × ((s'.procs i).pagetable ≢ 0)
          × ((s'.procs i).context.ra ≡ forkret)
          × ((s'.procs i).context.sp ≡ (s.procs i).kstack + page_size))

-- How allocproc ends: no slot is unused and nothing has changed, or it has taken the first that is.
abbrev pub Allocated : ℕ → Kernel → Option ℕ × Kernel → Type 0
Allocated forkret s (r, s') =
    ((r ≡ none) × (s' ≡ s) × ((j : ℕ) → j < nproc → same_state (s.procs j).state unused ≡ false))
    ⊎ ((i : ℕ) × (i < nproc)
        × (same_state (s.procs i).state unused ≡ true)
        × ((j : ℕ) → j < i → same_state (s.procs j).state unused ≡ false)
        × Made forkret i s r s')

find_unused-none :
    (k i : ℕ) (t : Table)
    → find_unused k i t ≡ none
    → (j : ℕ) → i ≤ j
    → j < i + k
    → same_state (t j).state unused ≡ false
unfolding find_unused
find_unused-none zero i t e j lo hi = absurd (omega arith)
find_unused-none (suc k) i t e j lo hi = elim (Bool-cases (same_state (t i).state unused)) [
  | inl h ↦ absurd (ground (arith, h, e))
  | inr h ↦ elim (Bool-cases (i == j)) [
    | inl g ↦ subst (λ x. same_state (t x).state unused ≡ false) ((==_iff i j).0 g) h
    | inr g ↦ find_unused-none k (i + 1) t (rw (h, find_unused) at e) j (ground arith) (omega arith)
  ]
]

find_unused-some :
    (k i : ℕ) (t : Table) (j : ℕ)
    → find_unused k i t ≡ some j
    → (i ≤ j)
      × (j < i + k)
      × (same_state (t j).state unused ≡ true)
      × ((m : ℕ) → i ≤ m → m < j → same_state (t m).state unused ≡ false)
unfolding find_unused
find_unused-some zero i t j e = cc
find_unused-some (suc k) i t j e = elim (Bool-cases (same_state (t i).state unused)) [
  | inl h ↦
      (let at : i ≡ j = ground (arith, h, e) in
        (
          omega (arith, at),
          omega (arith, at),
          subst (λ x. same_state (t x).state unused ≡ true) at h,
          λ m lo hi. absurd (omega (arith, at)),
        ))
  | inr h ↦
      (let (lo, hi, z, first) = find_unused-some k (i + 1) t j (rw (h, find_unused) at e) in
        (
          omega (arith, lo),
          omega (arith, hi),
          z,
          λ m lo' hi'. elim (Bool-cases (i == m)) [
            | inl g ↦ subst (λ x. same_state (t x).state unused ≡ false) ((==_iff i m).0 g) h
            | inr g ↦ first m (ground arith) hi'
          ],
        ))
]

module _ (kend trampoline forkret : ℕ) where
  freeproc-Freed :
      (i : ℕ) (s s' : Kernel) → freeproc kend trampoline forkret i s ≡ ok s' → Freed i s s'
  unfolding freeproc
  freeproc-Freed i s s' e =
      let next : Kmem → Outcome Kernel =
        λ mem. ok (set_proc i (cleared (s.procs i)) (record s { mem = mem })) in
      let (mem, w, q) = >>=-eq-ok (free_memory kend trampoline forkret (s.procs i) s.mem) next e in
      subst (Freed i s) (ok-eq q) (record {
        slot = update_self s.procs i (cleared (s.procs i));
        others = λ j ne. ground (arith, ne);
        nextpid = refl;
      })

  -- the way out when memory is short
  freeproc-Made :
      (i : ℕ) (s framed : Kernel) (r : Option ℕ × Kernel)
      → ((j : ℕ) → j ≢ i → framed.procs j ≡ s.procs j)
      → framed.nextpid ≡ add32 s.nextpid 1
      → (freeproc kend trampoline forkret i framed >>= λ s'. ok (none, s')) ≡ ok r
      → Made forkret i s r.0 r.1
  freeproc-Made i s framed r same nx e =
      let next : Kernel → Outcome (Option ℕ × Kernel) = λ s'. ok (none, s') in
      let (s1, w, q) = >>=-eq-ok (freeproc kend trampoline forkret i framed) next e in
      let f = freeproc-Freed i framed s1 w in
      subst (λ (x : Option ℕ × Kernel). Made forkret i s x.0 x.1) (ok-eq q)
        (record {
          others = λ j ne. f.others j ne ∙ same j ne;
          nextpid = f.nextpid ∙ nx;
          result = inl (refl, ap (λ (p : Proc). p.state) f.slot, ap (λ (p : Proc). p.pid) f.slot);
        })

  give_pagetable-Made :
      (i : ℕ) (s framed : Kernel) (q : ℕ × Kmem) (r : Option ℕ × Kernel)
      → ((j : ℕ) → j ≢ i → framed.procs j ≡ s.procs j)
      → framed.nextpid ≡ add32 s.nextpid 1
      → (framed.procs i).pid ≡ s.nextpid
      → (framed.procs i).state ≡ used
      → (framed.procs i).trapframe ≢ 0
      → (framed.procs i).kstack ≡ (s.procs i).kstack
      → give_pagetable kend trampoline forkret i framed q ≡ ok r
      → Made forkret i s r.0 r.1
  unfolding give_pagetable
  give_pagetable-Made i s framed q r same nx pid state frame stack e =
      elim (Bool-cases (q.0 == 0)) [
        | inl y ↦
            freeproc-Made i s
              (set_proc i (record (framed.procs i) { pagetable = q.0 })
                (record framed { mem = q.1 }))
              r
              (λ j ne.
                update_ne framed.procs (record (framed.procs i) { pagetable = q.0 })
                  (λ h. ne (sym h))
                ∙ same j ne)
              nx (rw y at e)
        | inr y ↦
            (let p : Proc = record (framed.procs i) {
              pagetable = q.0;
              context = record { ra = forkret; sp = (framed.procs i).kstack + page_size };
            } in
              let mapped : Table =
                update framed.procs i (record (framed.procs i) { pagetable = q.0 }) in
              let at = update_self mapped i p in
              subst (λ (x : Option ℕ × Kernel). Made forkret i s x.0 x.1) (ok-eq (rw y at e))
                (record {
                  others = λ j ne.
                      update_ne mapped p (λ h. ne (sym h))
                      ∙ update_ne framed.procs (record (framed.procs i) { pagetable = q.0 })
                          (λ h. ne (sym h))
                      ∙ same j ne;
                  nextpid = nx;
                  result = inr (
                    refl,
                    ap (λ (x : Proc). x.state) at ∙ state,
                    ap (λ (x : Proc). x.pid) at ∙ pid,
                    λ h. frame (sym (ap (λ (x : Proc). x.trapframe) at) ∙ h),
                    λ h. ground (arith, y, sym (ap (λ (x : Proc). x.pagetable) at) ∙ h),
                    ap (λ (x : Proc). x.context.ra) at,
                    ap (λ (x : Proc). x.context.sp) at ∙ ap (λ (k : ℕ). k + page_size) stack,
                  );
                }))
      ]

  setup_proc-Made :
      (i : ℕ) (s : Kernel) (r : Option ℕ × Kernel)
      → setup_proc kend trampoline forkret i s ≡ ok r
      → Made forkret i s r.0 r.1
  unfolding setup_proc allocpid
  setup_proc-Made i s r e = elim (Bool-cases ((kalloc s.mem).0 == 0)) [
    | inl z ↦ freeproc-Made i s framed r others refl (rw (z, setup_proc, allocpid) at e)
    | inr z ↦
        (let (q, w, e') =
            >>=-eq-ok (proc_pagetable kend trampoline forkret (kalloc s.mem).0 (kalloc s.mem).1)
              (give_pagetable kend trampoline forkret i framed)
              (rw (z, setup_proc, allocpid) at e) in
          give_pagetable-Made i s framed q r others refl (ap (λ (x : Proc). x.pid) at)
            (ap (λ (x : Proc). x.state) at)
            (λ h. ground (arith, z, sym (ap (λ (x : Proc). x.trapframe) at) ∙ h))
            (ap (λ (x : Proc). x.kstack) at) e')
  ]
    where
      p : Proc
      p = record (s.procs i) { pid = s.nextpid; state = used; trapframe = (kalloc s.mem).0 }

      framed : Kernel
      framed = set_proc i p (record s { nextpid = add32 s.nextpid 1; mem = (kalloc s.mem).1 })

      at : framed.procs i ≡ p
      at = update_self s.procs i p

      others : (j : ℕ) → j ≢ i → framed.procs j ≡ s.procs j
      others j ne = update_ne s.procs p (λ h. ne (sym h))

  -- allocproc that does not halt finds no unused slot and changes nothing; or it takes the first unused
  -- slot and no other process changes and the next pid is used up. The slot is then a process in the
  -- state `used` with that pid, a trapframe, a page table and a context that starts in forkret on the
  -- top of its stack; or allocproc returns 0 and it is unused again, without a pid.
  pub allocproc-Allocated :
      (s : Kernel) (r : Option ℕ × Kernel)
      → allocproc kend trampoline forkret s ≡ ok r
      → Allocated forkret s r
  unfolding allocproc
  allocproc-Allocated s r e = elim (Option-cases (find_unused nproc 0 s.procs)) [
    | inl h ↦
        subst (Allocated forkret s) (ok-eq (rw (h, allocproc) at e)) (
          inl
            (refl, refl, λ j lt. find_unused-none nproc 0 s.procs h j (omega arith) (omega arith)))
    | inr (i, h) ↦
        (let (lo, hi, z, first) = find_unused-some nproc 0 s.procs i h in
          inr (
            i,
            omega (arith, hi),
            z,
            λ j lt. first j (omega arith) lt,
            setup_proc-Made i s r (rw (h, allocproc) at e),
          ))
  ]
