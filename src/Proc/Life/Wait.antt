-- ===== src/Proc/Life/Wait.antt =====
-- What wait of kernel/proc.c returns.
use snu_os.Base.{
  ℕ, zero, suc, ◌+◌, ◌≤◌, ◌<◌, ◌≡◌, ◌≢◌, refl, sym, ap, ◌∙◌, ◌⊎◌, inl, inr, Bool, true, false, not,
  ◌&&◌, ◌||◌, arith, ◌==◌, ==_iff, if◌then◌else◌, update, Bool-cases,
}
use mathlib.Core.Path.{subst}
use snu_os.Base.Bytes.{put32}
use snu_os.Base.Outcome.{Outcome, ok, ◌>>=◌, >>=-eq-ok, ok-eq}
use snu_os.Kalloc.{Kmem}
use snu_os.Vm.{copyout}
use snu_os.Proc.{nproc, zombie, same_state, Proc, Table, is_child}
use snu_os.Proc.Life.{
  Kernel, set_proc, cleared, free_memory, freeproc, WaitEnd, reaped, failed, scanned, reap,
  scan_children, wait,
}

abbrev pub is_zombie : Proc → Bool
is_zombie p = same_state p.state zombie

-- No process of the `k` from `j` on is a zombie child of `i`.
abbrev pub NoZombie : ℕ → ℕ → ℕ → Table → Type 0
NoZombie i j k t = (m : ℕ) → j ≤ m → m < j + k → is_child i (t m) ≡ true → is_zombie (t m) ≡ false

abbrev pub NoChild : ℕ → ℕ → ℕ → Table → Type 0
NoChild i j k t = (m : ℕ) → j ≤ m → m < j + k → is_child i (t m) ≡ false

-- One process of them, the first zombie child of `i`.
abbrev pub FirstZombie : ℕ → ℕ → ℕ → Table → ℕ → Type 0
FirstZombie i j k t m =
    (j ≤ m)
    × (m < j + k)
    × (is_child i (t m) ≡ true)
    × (is_zombie (t m) ≡ true)
    × ((n : ℕ) → j ≤ n → n < m → is_child i (t n) ≡ true → is_zombie (t n) ≡ false)

-- The copy of the exit status of process `m` to user address `addr` of process `i`.
abbrev pub status_out : ℕ → ℕ → Kernel → ℕ → Bool × Kmem
status_out i addr s m =
    copyout (s.procs i).pagetable addr (put32 (λ _. 0) 0 (s.procs m).xstate) 4 s.mem

-- The kernel with that copy, unless the address is null.
abbrev pub with_status : ℕ → ℕ → Kernel → ℕ → Kernel
with_status i addr s m = record s { mem = if addr == 0 then s.mem else (status_out i addr s m).1 }

NoZombie-suc :
    (i j k : ℕ) (t : Table)
    → (is_child i (t j) ≡ true → is_zombie (t j) ≡ false)
    → NoZombie i (j + 1) k t
    → NoZombie i j (suc k) t
NoZombie-suc i j k t h nz m lo hi c = elim (Bool-cases (j == m)) [
  | inl e ↦ subst (λ x. is_child i (t x) ≡ true → is_zombie (t x) ≡ false) ((==_iff j m).0 e) h c
  | inr e ↦ nz m (ground arith) (omega arith) c
]

NoChild-suc :
    (i j k : ℕ) (t : Table)
    → is_child i (t j) ≡ false
    → NoChild i (j + 1) k t
    → NoChild i j (suc k) t
NoChild-suc i j k t h nc m lo hi = elim (Bool-cases (j == m)) [
  | inl e ↦ subst (λ x. is_child i (t x) ≡ false) ((==_iff j m).0 e) h
  | inr e ↦ nc m (ground arith) (omega arith)
]

FirstZombie-suc :
    (i j k : ℕ) (t : Table) (m : ℕ)
    → (is_child i (t j) ≡ true → is_zombie (t j) ≡ false)
    → FirstZombie i (j + 1) k t m
    → FirstZombie i j (suc k) t m
FirstZombie-suc i j k t m h (lo, hi, c, z, first) = (
  omega arith,
  omega arith,
  c,
  z,
  λ n lo' hi' d. elim (Bool-cases (j == n)) [
    | inl e ↦ subst (λ x. is_child i (t x) ≡ true → is_zombie (t x) ≡ false) ((==_iff j n).0 e) h d
    | inr e ↦ first n (ground arith) hi' d
  ],
)

module _ (kend trampoline forkret : ℕ) where
  -- How a scan of `k` processes from `j` on ends.
  abbrev pub Scanned : Bool → ℕ → ℕ → ℕ → ℕ → Kernel → WaitEnd × Kernel → Type 0
  Scanned kids i addr j k s (reaped pid, s') =
      (m : ℕ) × FirstZombie i j k s.procs m
      × (pid ≡ (s.procs m).pid)
      × ((addr ≡ 0) ⊎ ((status_out i addr s m).0 ≡ true))
      × (s'.procs ≡ update s.procs m (cleared (s.procs m)))
      × (freeproc kend trampoline forkret m (with_status i addr s m) ≡ ok s')
  Scanned kids i addr j k s (failed, s') =
      (m : ℕ) × FirstZombie i j k s.procs m
      × (addr ≢ 0)
      × ((status_out i addr s m).0 ≡ false)
      × (s' ≡ with_status i addr s m)
  Scanned kids i addr j k s (scanned more, s') =
      NoZombie i j k s.procs
      × (s' ≡ s)
      × ((more ≡ true)
            × ((kids ≡ true) ⊎ ((m : ℕ) × (j ≤ m) × (m < j + k) × (is_child i (s.procs m) ≡ true)))
          ⊎ (more ≡ false) × (kids ≡ false) × NoChild i j k s.procs)

  -- How one round of wait by process `i` ends.
  abbrev pub Waited : ℕ → ℕ → Kernel → WaitEnd × Kernel → Type 0
  Waited i addr s (reaped pid, s') =
      (m : ℕ) × FirstZombie i 0 nproc s.procs m
      × (pid ≡ (s.procs m).pid)
      × ((addr ≡ 0) ⊎ ((status_out i addr s m).0 ≡ true))
      × (s'.procs ≡ update s.procs m (cleared (s.procs m)))
      × (freeproc kend trampoline forkret m (with_status i addr s m) ≡ ok s')
  Waited i addr s (failed, s') =
      ((s' ≡ s) × NoChild i 0 nproc s.procs)
      ⊎ ((s' ≡ s) × NoZombie i 0 nproc s.procs × ((s.procs i).killed ≡ true))
      ⊎ ((m : ℕ) × FirstZombie i 0 nproc s.procs m
          × (addr ≢ 0)
          × ((status_out i addr s m).0 ≡ false)
          × (s' ≡ with_status i addr s m))
  Waited i addr s (scanned more, s') =
      NoZombie i 0 nproc s.procs
      × (s' ≡ s)
      × ((s.procs i).killed ≡ false)
      × ((m : ℕ) × (m < nproc) × (is_child i (s.procs m) ≡ true))

  freeproc-procs :
      (j : ℕ) (s s' : Kernel)
      → freeproc kend trampoline forkret j s ≡ ok s'
      → s'.procs ≡ update s.procs j (cleared (s.procs j))
  unfolding freeproc
  freeproc-procs j s s' e =
      let next : Kmem → Outcome Kernel =
        λ mem. ok (set_proc j (cleared (s.procs j)) (record s { mem = mem })) in
      let (mem, w, q) = >>=-eq-ok (free_memory kend trampoline forkret (s.procs j) s.mem) next e in
      sym (ap (λ (x : Kernel). x.procs) (ok-eq q))

  reap-Scanned :
      (kids : Bool) (i addr j k : ℕ) (s : Kernel) (r : WaitEnd × Kernel)
      → is_child i (s.procs j) ≡ true
      → is_zombie (s.procs j) ≡ true
      → reap kend trampoline forkret i j addr s ≡ ok r
      → Scanned kids i addr j (suc k) s r
  unfolding reap
  reap-Scanned kids i addr j k s r c z e = elim (Bool-cases (not (addr == 0) && not out.0)) [
    | inl f ↦
        (let e' : ok (failed, copied) ≡ ok r = ground (arith, e, f) in
          subst (Scanned kids i addr j (suc k) s) (ok-eq e') (
            j,
            (omega arith, omega arith, c, z, λ n lo hi. absurd (omega arith)),
            ground (arith, f),
            ground (arith, f),
            refl,
          ))
    | inr f ↦
        (let e' : (freeproc kend trampoline forkret j copied >>= λ s'.
        ok (reaped (s.procs j).pid, s'))
              ≡ ok r =
            ground (arith, e, f) in
          let next : Kernel → Outcome (WaitEnd × Kernel) = λ s'. ok (reaped (s.procs j).pid, s') in
          let (s', w, q) = >>=-eq-ok (freeproc kend trampoline forkret j copied) next e' in
          subst (Scanned kids i addr j (suc k) s) (ok-eq q) (
            j,
            (omega arith, omega arith, c, z, λ n lo hi. absurd (omega arith)),
            refl,
            written f,
            freeproc-procs j copied s' w,
            w,
          ))
  ]
    where
      out : Bool × Kmem
      out = copyout (s.procs i).pagetable addr (put32 (λ _. 0) 0 (s.procs j).xstate) 4 s.mem

      written : (not (addr == 0) && not out.0) ≡ false → (addr ≡ 0) ⊎ (out.0 ≡ true)
      written f = elim (Bool-cases out.0) [ inl w ↦ inr w | inr w ↦ inl (ground (arith, f, w)) ]

      copied : Kernel
      copied = record s { mem = if addr == 0 then s.mem else out.1 }

  -- a round that goes on
  Scanned-suc :
      (kids kids' : Bool) (i addr j k : ℕ) (s : Kernel) (r : WaitEnd × Kernel)
      → (is_child i (s.procs j) ≡ true → is_zombie (s.procs j) ≡ false)
      → ((kids' ≡ kids) × (is_child i (s.procs j) ≡ false))
        ⊎ ((kids' ≡ true) × (is_child i (s.procs j) ≡ true))
      → Scanned kids' i addr (j + 1) k s r
      → Scanned kids i addr j (suc k) s r
  Scanned-suc kids kids' i addr j k s (reaped pid, s') h g (m, f, e, c, q, w) =
      (m, FirstZombie-suc i j k s.procs m h f, e, c, q, w)
  Scanned-suc kids kids' i addr j k s (failed, s') h g (m, f, ne, c, q) =
      (m, FirstZombie-suc i j k s.procs m h f, ne, c, q)
  Scanned-suc kids kids' i addr j k s (scanned more, s') h g (nz, same, w) = (
    NoZombie-suc i j k s.procs h nz,
    same,
    elim w [
      | inl (t, v) ↦ inl (
        t,
        elim g [
          | inr (y, c) ↦ inr (j, omega arith, omega arith, c)
          | inl (y, c) ↦ elim v [
            | inl z ↦ inl (sym y ∙ z)
            | inr (m, lo, hi, d) ↦ inr (m, omega arith, omega arith, d)
          ]
        ],
      )
      | inr (f, u, v) ↦ (elim g [
        | inr (y, c) ↦ absurd (cc)
        | inl (y, c) ↦ inr (f, sym y ∙ u, NoChild-suc i j k s.procs c v)
      ])
    ],
  )

  scan_children-Scanned :
      (k j : ℕ) (kids : Bool) (i addr : ℕ) (s : Kernel) (r : WaitEnd × Kernel)
      → scan_children kend trampoline forkret k j kids i addr s ≡ ok r
      → Scanned kids i addr j k s r
  unfolding scan_children
  scan_children-Scanned zero j true i addr s r e =
      subst (Scanned true i addr j 0 s) (ok-eq e)
        (λ m lo hi. absurd (omega arith), refl, inl (refl, inl refl))
  scan_children-Scanned zero j false i addr s r e =
      subst (Scanned false i addr j 0 s) (ok-eq e)
        (λ m lo hi. absurd (omega arith), refl, inr (refl, refl, λ m lo hi. absurd (omega arith)))
  scan_children-Scanned (suc k) j kids i addr s r e = elim (Bool-cases (is_child i (s.procs j))) [
    | inr c ↦
        Scanned-suc kids kids i addr j k s r (λ d. absurd (cc)) (inl (refl, c))
          (scan_children-Scanned k (j + 1) kids i addr s r (rw (c, scan_children) at e))
    | inl c ↦ elim (Bool-cases (is_zombie (s.procs j))) [
      | inr z ↦
          Scanned-suc kids true i addr j k s r (λ d. z) (inr (refl, c))
            (scan_children-Scanned k (j + 1) true i addr s r (rw (c, z, scan_children) at e))
      | inl z ↦ reap-Scanned kids i addr j k s r c z (rw (c, z, scan_children) at e)
    ]
  ]

  wait_ends :
      (i addr : ℕ) (s : Kernel) (q r : WaitEnd × Kernel)
      → Scanned false i addr 0 nproc s q
      → elim (q.0) as (λ _. Outcome (WaitEnd × Kernel)) [
        | reaped pid ↦ ok q
        | failed ↦ ok q
        | scanned kids ↦ ok (if not kids || (s.procs i).killed then failed else scanned true, q.1)
      ]
        ≡ ok r
      → Waited i addr s r
  wait_ends i addr s (reaped pid, s') r w e = subst (Waited i addr s) (ok-eq e) w
  wait_ends i addr s (failed, s') r w e = subst (Waited i addr s) (ok-eq e) (inr (inr w))
  wait_ends i addr s (scanned true, s') r (nz, same, more) e =
      elim (Bool-cases (s.procs i).killed) [
        | inl k ↦ subst (Waited i addr s) (ok-eq (rw k at e)) (inr (inl (same, nz, k)))
        | inr k ↦ subst (Waited i addr s) (ok-eq (rw k at e)) (
          nz,
          same,
          k,
          elim more [
            | inl (t, inl f) ↦ absurd (cc)
            | inl (t, inr (m, lo, hi, c)) ↦ (m, omega arith, c)
            | inr (t, u, v) ↦ absurd (cc)
          ],
        )
      ]
  wait_ends i addr s (scanned false, s') r (nz, same, more) e =
      subst (Waited i addr s) (ok-eq e)
        (inl (same, elim more [ inl (t, u) ↦ absurd (cc) | inr (t, u, v) ↦ v ]))

  -- A round of wait that does not halt returns the pid of the caller's first zombie child and clears
  -- that process by freeproc, and no other, after its exit status has been copied out, unless the
  -- pointer for it is null; or it returns -1 and nothing has changed, and the caller has no child, or
  -- is killed and has no zombie child; or it returns -1 and nothing but that copy has changed, as the
  -- copy of the status of its first zombie child, to a pointer that is not null, has failed; or it
  -- sleeps, and the caller has a child but no zombie child, is not killed, and nothing has changed.
  pub wait-Waited :
      (i addr : ℕ) (s : Kernel) (r : WaitEnd × Kernel)
      → wait kend trampoline forkret i addr s ≡ ok r
      → Waited i addr s r
  unfolding wait
  wait-Waited i addr s r e =
      let next : WaitEnd × Kernel → Outcome (WaitEnd × Kernel) = λ q. elim (q.0) [
        | reaped pid ↦ ok q
        | failed ↦ ok q
        | scanned kids ↦ ok (if not kids || (s.procs i).killed then failed else scanned true, q.1)
      ] in
      let (q, w, e') =
        >>=-eq-ok (scan_children kend trampoline forkret nproc 0 false i addr s) next e in
      wait_ends i addr s q r (scan_children-Scanned nproc 0 false i addr s q w) e'
