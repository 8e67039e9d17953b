-- ===== src/Proc/Table.antt =====
-- What wakeup, kill and reparent do to every process.
use snu_os.Base.{
  ℕ, zero, suc, ◌+◌, ◌≤◌, ◌<◌, ◌≡◌, ◌≢◌, refl, ap, ◌∙◌, inl, inr, Bool, true, false, ◌&&◌, Option,
  none, some, arith, ltb, ◌==◌, ==_iff, if◌then◌else◌, update, Bool-cases,
}
use mathlib.Core.Path.{subst, sym}
use snu_os.Proc.{
  nproc, runnable, running, Proc, Table, is_sleeping_on, is_not, wakeup_from, wakeup, killed_proc,
  kill_from, kill, is_child, reparent_from, reparent, leave_family,
}

-- Whether a wakeup on `chan` by `me` is for process `j` of the table.
abbrev pub is_woken : Option ℕ → ℕ → Table → ℕ → Bool
is_woken me chan t j = is_not me j && is_sleeping_on chan (t j)

abbrev pub woken : Proc → Proc
woken p = record p { state = runnable }

-- What wakeup makes of process `j`.
abbrev pub after_wakeup : Option ℕ → ℕ → ℕ → Proc → Proc
after_wakeup me chan j p = if is_not me j && is_sleeping_on chan p then woken p else p

set_else :
    (b : Bool) (t : Table) (i j : ℕ) (v : Proc) → i ≢ j → (if b then update t i v else t) j ≡ t j
set_else true t i j v ne = ground arith
set_else false t i j v ne = refl

set_self :
    (b : Bool) (t : Table) (i : ℕ) (v : Proc)
    → (if b then update t i v else t) i ≡ (if b then v else t i)
set_self true t i v = ground arith
set_self false t i v = refl

wakeup_from-below :
    (k i : ℕ) (me : Option ℕ) (chan : ℕ) (t : Table) (j : ℕ)
    → j < i
    → wakeup_from k i me chan t j ≡ t j
unfolding wakeup_from
wakeup_from-below zero i me chan t j below = refl
wakeup_from-below (suc k) i me chan t j below =
    wakeup_from-below k (i + 1) me chan
      (if is_woken me chan t i then update t i (woken (t i)) else t) j (omega arith)
    ∙ set_else (is_woken me chan t i) t i j (woken (t i)) (λ e. omega arith)

wakeup_from-above :
    (k i : ℕ) (me : Option ℕ) (chan : ℕ) (t : Table) (j : ℕ)
    → i + k ≤ j
    → wakeup_from k i me chan t j ≡ t j
unfolding wakeup_from
wakeup_from-above zero i me chan t j above = refl
wakeup_from-above (suc k) i me chan t j above =
    wakeup_from-above k (i + 1) me chan
      (if is_woken me chan t i then update t i (woken (t i)) else t) j (omega arith)
    ∙ set_else (is_woken me chan t i) t i j (woken (t i)) (λ e. omega arith)

wakeup_from-inside :
    (k i : ℕ) (me : Option ℕ) (chan : ℕ) (t : Table) (j : ℕ)
    → i ≤ j
    → j < i + k
    → wakeup_from k i me chan t j ≡ after_wakeup me chan j (t j)
unfolding wakeup_from
wakeup_from-inside zero i me chan t j low high = ground arith
wakeup_from-inside (suc k) i me chan t j low high =
    let next : Table = if is_woken me chan t i then update t i (woken (t i)) else t in
    elim (Bool-cases (i == j)) [
      | inl e ↦
          let same : i ≡ j = (==_iff i j).0 e in
          wakeup_from-below k (i + 1) me chan next j (omega arith)
          ∙ subst (λ x. next x ≡ after_wakeup me chan x (t x)) same
              (set_self (is_woken me chan t i) t i (woken (t i)))
      | inr e ↦
          wakeup_from-inside k (i + 1) me chan next j (ground arith) (omega arith)
          ∙ ap (after_wakeup me chan j)
              (set_else (is_woken me chan t i) t i j (woken (t i)) (λ same. ground arith))
    ]

-- wakeup on `chan` makes every process of the table, but the caller, that sleeps on `chan`
-- runnable, and leaves all else as it was.
pub wakeup_lem :
    (me : Option ℕ) (chan : ℕ) (t : Table) (j : ℕ)
    → wakeup me chan t j ≡ (if ltb j nproc then after_wakeup me chan j (t j) else t j)
unfolding wakeup
wakeup_lem me chan t j = elim (Bool-cases (ltb j nproc)) [
  | inl e ↦ rw (e, wakeup_from-inside nproc 0 me chan t j (omega arith) (ground arith))
  | inr e ↦ rw (e, wakeup_from-above nproc 0 me chan t j (ground arith))
]

-- The first process of the table from `i` on, of `k`, that has the pid.
unfoldable pub first_with : ℕ → ℕ → ℕ → Table → Option ℕ
first_with zero i pid t = none
first_with (suc k) i pid t =
    let rest = first_with k (i + 1) pid t in if (t i).pid == pid then some i else rest

kill_from_lem :
    (k i pid : ℕ) (t : Table)
    → kill_from k i pid t ≡ elim (first_with k i pid t) [
      | none ↦ (false, t)
      | some j ↦ (true, update t j (killed_proc (t j)))
    ]
unfolding kill_from first_with
kill_from_lem zero i pid t = refl
kill_from_lem (suc k) i pid t = elim (Bool-cases ((t i).pid == pid)) [
  | inl e ↦ rw (e)
  | inr e ↦ rw (e, kill_from_lem k (i + 1) pid t)
]

-- The first process of the range that has the pid, or that there is none.
abbrev pub IsFirst : ℕ → ℕ → ℕ → Table → Option ℕ → Type 0
IsFirst k i pid t none = (j : ℕ) → i ≤ j → j < i + k → (t j).pid ≢ pid
IsFirst k i pid t (some j) =
    i ≤ j × j < i + k × (t j).pid ≡ pid × ((m : ℕ) → i ≤ m → m < j → (t m).pid ≢ pid)

IsFirst-suc :
    (k i pid : ℕ) (t : Table) (r : Option ℕ)
    → (t i).pid ≢ pid
    → IsFirst k (i + 1) pid t r
    → IsFirst (suc k) i pid t r
IsFirst-suc k i pid t none ne h = λ j low high. elim (Bool-cases (i == j)) [
  | inl e ↦ subst (λ x. (t x).pid ≢ pid) ((==_iff i j).0 e) ne
  | inr e ↦ h j (ground arith) (omega arith)
]
IsFirst-suc k i pid t (some j) ne h =
    let (low, high, e, rest) = h in
    (
      omega arith,
      omega arith,
      e,
      λ m from to. elim (Bool-cases (i == m)) [
        | inl e ↦ subst (λ x. (t x).pid ≢ pid) ((==_iff i m).0 e) ne
        | inr e ↦ rest m (ground arith) to
      ],
    )

first_with-IsFirst : (k i pid : ℕ) (t : Table) → IsFirst k i pid t (first_with k i pid t)
unfolding first_with
first_with-IsFirst zero i pid t = λ j low high. omega arith
first_with-IsFirst (suc k) i pid t = elim (Bool-cases ((t i).pid == pid)) [
  | inl e ↦
      subst (λ b. IsFirst (suc k) i pid t (if b then some i else first_with k (i + 1) pid t))
        (sym e) (omega arith, omega arith, (==_iff (t i).pid pid).0 e, λ m low high. omega arith)
  | inr e ↦
      subst (λ b. IsFirst (suc k) i pid t (if b then some i else first_with k (i + 1) pid t))
        (sym e)
        (IsFirst-suc k i pid t (first_with k (i + 1) pid t) (ground arith)
          (first_with-IsFirst k (i + 1) pid t))
]

-- What kill makes of the table, by the process that it found.
abbrev pub Killed : ℕ → Table → Bool × Table → Option ℕ → Type 0
Killed pid t out none = out ≡ (false, t)
Killed pid t out (some j) = out ≡ (true, update t j (killed_proc (t j)))

kill-Killed :
    (pid : ℕ) (t : Table) (r : Option ℕ)
    → kill pid t ≡ elim r [ none ↦ (false, t) | some j ↦ (true, update t j (killed_proc (t j))) ]
    → Killed pid t (kill pid t) r
kill-Killed pid t none e = e
kill-Killed pid t (some j) e = e

-- kill marks and, if it sleeps, wakes the first process of the table that has the pid, and
-- changes no other; it reports failure and changes nothing exactly when no process has the pid.
pub kill_lem :
    (pid : ℕ) (t : Table) → (r : Option ℕ) × IsFirst nproc 0 pid t r × Killed pid t (kill pid t) r
unfolding kill
kill_lem pid t = (
  first_with nproc 0 pid t,
  first_with-IsFirst nproc 0 pid t,
  kill-Killed pid t (first_with nproc 0 pid t) (kill_from_lem nproc 0 pid t),
)

pub wakeup-running :
    (me : Option ℕ) (chan : ℕ) (t : Table) (j : ℕ)
    → (t j).state ≡ running
    → (wakeup me chan t j).state ≡ running
wakeup-running me chan t j at =
    subst (λ p. p.state ≡ running) (sym (wakeup_lem me chan t j))
      (elim (Bool-cases (is_woken me chan t j)) [
        | inl e ↦ ground (arith, at)
        | inr e ↦ elim (Bool-cases (ltb j nproc)) [ inl f ↦ rw (f, e) at | inr f ↦ rw (f) at ]
      ])

Killed-running :
    (pid : ℕ) (t : Table) (out : Bool × Table) (r : Option ℕ) (j : ℕ)
    → Killed pid t out r
    → (t j).state ≡ running
    → (out.1 j).state ≡ running
Killed-running pid t out none j h on = subst (λ x. (x.1 j).state ≡ running) (sym h) on
Killed-running pid t out (some i) j h on =
    subst (λ x. (x.1 j).state ≡ running) (sym h)
      (elim (Bool-cases (i == j)) [
        | inl e ↦
            let at : (t i).state ≡ running =
              subst (λ m. (t m).state ≡ running) (sym ((==_iff i j).0 e)) on in
            rw (e, at)
        | inr e ↦ rw (e) on
      ])

pub kill-running :
    (pid : ℕ) (t : Table) (j : ℕ) → (t j).state ≡ running → ((kill pid t).1 j).state ≡ running
kill-running pid t j on =
    let (r, first, killed) = kill_lem pid t in Killed-running pid t (kill pid t) r j killed on

module _ (init : ℕ) (at : ℕ → ℕ) where
  reparent_from-running :
      (k i p : ℕ) (t : Table) (j : ℕ)
      → (t j).state ≡ running
      → (reparent_from init at k i p t j).state ≡ running
  unfolding reparent_from
  reparent_from-running zero i p t j on = on
  reparent_from-running (suc k) i p t j on =
      reparent_from-running k (i + 1) p
        (if is_child p (t i)
          then wakeup (some p) (at init) (update t i (record (t i) { parent = some init }))
          else t)
        j
        (elim (Bool-cases (is_child p (t i))) [
          | inl e ↦
              subst
                (λ b.
                  ((if b
                      then wakeup (some p) (at init)
                          (update t i (record (t i) { parent = some init }))
                      else t)
                    j).state
                  ≡ running)
                (sym e)
                (wakeup-running (some p) (at init)
                  (update t i (record (t i) { parent = some init })) j (ground (arith, on)))
          | inr e ↦
              subst
                (λ b.
                  ((if b
                      then wakeup (some p) (at init)
                          (update t i (record (t i) { parent = some init }))
                      else t)
                    j).state
                  ≡ running)
                (sym e) on
        ])

  pub reparent-running :
      (p : ℕ) (t : Table) (j : ℕ) → (t j).state ≡ running → (reparent init at p t j).state ≡ running
  unfolding reparent
  reparent-running p t j on = reparent_from-running nproc 0 p t j on

  wake_parent-running :
      (i : ℕ) (o : Option ℕ) (t : Table) (j : ℕ)
      → (t j).state ≡ running
      → ((elim o as (λ x. Table) [ none ↦ wakeup (some i) 0 t | some p ↦ wakeup (some i) (at p) t ])
          j).state
        ≡ running
  wake_parent-running i none t j on = wakeup-running (some i) 0 t j on
  wake_parent-running i (some p) t j on = wakeup-running (some i) (at p) t j on

  pub leave_family-running :
      (i : ℕ) (t : Table) (j : ℕ)
      → (t j).state ≡ running
      → (leave_family init at i t j).state ≡ running
  unfolding leave_family
  leave_family-running i t j on =
      wake_parent-running i (reparent init at i t i).parent (reparent init at i t) j
        (reparent-running i t j on)
