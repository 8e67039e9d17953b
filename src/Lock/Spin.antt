-- ===== src/Lock/Spin.antt =====
-- Any number of cpus on one spinlock, interleaved at every access to it.
use snu_os.Base.{
  ℕ, ◌≤◌, ◌≡◌, ◌≢◌, ap, Bool, true, false, Option, none, some, arith, ◌==◌, ==_iff, update,
}
use snu_os.Base.Outcome.{ok, panic}
use snu_os.Lock.{
  Cpu, Spinlock, fresh_spinlock, is_cpu, holding, acquire_enter, test_and_set, set_owner,
  release_enter, release_leave,
}

-- Where a cpu stands between two accesses to the lock.
pub data Pc : Type 0 where
  outside : Pc
  spinning : Pc
  won : Pc
  critical : Pc
  leaving : Pc

pub record System : Type 0 where
  pub lock : Spinlock
  pub cpus : ℕ → Cpu
  pub pc : ℕ → Pc

abbrev pub start_system : (ℕ → Cpu) → System
start_system cpus = record { lock = fresh_spinlock; cpus = cpus; pc = λ _. outside }

-- The step of cpu `i`.
pub data Step (s : System) : System → Type 0 where
  enter :
      (i : ℕ) {c : Cpu}
      → s.pc i ≡ outside
      → acquire_enter i s.lock (s.cpus i) ≡ ok c
      → Step s (record s { cpus = update s.cpus i c; pc = update s.pc i spinning })
  spin :
      (i : ℕ)
      → s.pc i ≡ spinning
      → (test_and_set s.lock).0 ≡ false
      → Step s (record s { lock = (test_and_set s.lock).1 })
  win :
      (i : ℕ)
      → s.pc i ≡ spinning
      → (test_and_set s.lock).0 ≡ true
      → Step s (record s { lock = (test_and_set s.lock).1; pc = update s.pc i won })
  own :
      (i : ℕ)
      → s.pc i ≡ won
      → Step s (record s { lock = set_owner i s.lock; pc = update s.pc i critical })
  leave :
      (i : ℕ) {lk : Spinlock}
      → s.pc i ≡ critical
      → release_enter i s.lock ≡ ok lk
      → Step s (record s { lock = lk; pc = update s.pc i leaving })
  free :
      (i : ℕ) {lk : Spinlock} {c : Cpu}
      → s.pc i ≡ leaving
      → release_leave s.lock (s.cpus i) ≡ ok (lk, c)
      → Step s (record { lock = lk; cpus = update s.cpus i c; pc = update s.pc i outside })

pub data Reach (cpus : ℕ → Cpu) : System → Type 0 where
  start : Reach cpus (start_system cpus)
  next : {s t : System} → Reach cpus s → Step s t → Reach cpus t

-- A cpu that has won the lock and not yet freed it.
abbrev pub owns : Pc → Bool
owns won = true
owns critical = true
owns leaving = true
owns _ = false

abbrev pub inside : Pc → Bool
inside outside = false
inside _ = true

pub record Inv (s : System) : Type 0 where
  pub one : (i j : ℕ) → owns (s.pc i) ≡ true → owns (s.pc j) ≡ true → i ≡ j
  pub taken : (i : ℕ) → owns (s.pc i) ≡ true → s.lock.locked ≡ true
  pub owner : (i : ℕ) → s.pc i ≡ critical → s.lock.cpu ≡ some i
  pub named : (i : ℕ) → s.lock.cpu ≡ some i → s.pc i ≡ critical
  pub off : (i : ℕ) → inside (s.pc i) ≡ true → ((s.cpus i).intr ≡ false) × (1 ≤ (s.cpus i).noff)

Inv-start : (cpus : ℕ → Cpu) → Inv (start_system cpus)
Inv-start cpus = record {
  one = λ i j p q. cc;
  taken = λ i p. cc;
  owner = λ i p. cc;
  named = λ i p. cc;
  off = λ i p. cc;
}

pub Step-Inv : {s t : System} → Step s t → Inv s → Inv t
unfolding acquire_enter test_and_set set_owner release_enter release_leave
Step-Inv {s} (enter i {c} at e) v = record {
  one = λ j k p q. grind (arith, v.one);
  taken = λ j p. grind (arith, v.taken);
  owner = λ j p. grind (arith, v.owner);
  named = λ j p. grind (arith, v.named);
  off = λ j p. grind (arith, v.off);
}
Step-Inv {s} (spin i at e) v = record {
  one = λ j k p q. grind (arith, v.one, v.taken);
  taken = λ j p. grind (arith, v.taken, v.one);
  owner = λ j p. grind (arith, v.owner, v.one);
  named = λ j p. grind (arith, v.named, v.taken);
  off = λ j p. grind (arith, v.off);
}
Step-Inv {s} (win i at e) v = record {
  one = λ j k p q. grind (arith, v.one, v.taken);
  taken = λ j p. grind (arith, v.taken, v.one);
  owner = λ j p. grind (arith, v.owner, v.one);
  named = λ j p. grind (arith, v.named, v.taken);
  off = λ j p. grind (arith, v.off);
}
Step-Inv {s} (own i at) v = record {
  one = λ j k p q. grind (arith, v.one, v.taken);
  taken = λ j p. grind (arith, v.taken, v.one);
  owner = λ j p. grind (arith, v.owner, v.one);
  named = λ j p. grind (arith, v.named, v.taken);
  off = λ j p. grind (arith, v.off);
}
Step-Inv {s} (leave i at e) v = record {
  one = λ j k p q. grind (arith, v.one, v.taken);
  taken = λ j p. grind (arith, v.taken, v.one);
  owner = λ j p. grind (arith, v.owner, v.one);
  named = λ j p. grind (arith, v.named, v.taken);
  off = λ j p. grind (arith, v.off);
}
Step-Inv {s} (free i at e) v = record {
  one = λ j k p q. grind (arith, v.one, v.taken);
  taken = λ j p. grind (arith, v.taken, v.one);
  owner = λ j p. grind (arith, v.owner, v.one);
  named = λ j p. grind (arith, v.named, v.taken);
  off = λ j p. grind (arith, v.off);
}

pub Reach-Inv : {cpus : ℕ → Cpu} {s : System} → Reach cpus s → Inv s
Reach-Inv {cpus} start = Inv-start cpus
Reach-Inv (next r st) = Step-Inv st (Reach-Inv r)

is_cpu-some : (o : Option ℕ) (i : ℕ) → is_cpu o i ≡ true → o ≡ some i
is_cpu-some none i e = cc
is_cpu-some (some j) i e = ap some ((==_iff j i).0 e)

-- In every reachable state at most one cpu stands in the critical section, `holding` is true on
-- exactly that cpu, and it runs with interrupts off.
pub mutual_exclusion :
    {cpus : ℕ → Cpu} {s : System}
    → Reach cpus s
    → (i j : ℕ) → s.pc i ≡ critical
    → ((s.pc j ≡ critical) → i ≡ j) × (holding j s.lock ≡ (i == j)) × ((s.cpus i).intr ≡ false)
unfolding holding
mutual_exclusion {s} r i j at = (
  λ at'. v.one i j (ground arith) (ground arith),
  ground (arith, v.owner i at, v.taken i),
  (v.off i (ground arith)).0,
)
  where
    v : Inv s
    v = Reach-Inv r

-- No reachable cpu that follows acquire and release in order halts: acquire is called without the
-- lock, release with it, and pop_off under a push_off with interrupts off.
pub no_panic :
    {cpus : ℕ → Cpu} {s : System}
    → Reach cpus s
    → (i : ℕ)
    → (s.pc i ≡ outside → acquire_enter i s.lock (s.cpus i) ≢ panic)
      × (s.pc i ≡ critical → release_enter i s.lock ≢ panic)
      × (s.pc i ≡ leaving → release_leave s.lock (s.cpus i) ≢ panic)
unfolding acquire_enter release_enter release_leave
no_panic {s} r i = (
  λ at e. grind (arith, v.named, is_cpu-some),
  λ at e. ground (arith, v.owner i at, v.taken i),
  λ at e. ground (arith, v.off i),
)
  where
    v : Inv s
    v = Reach-Inv r
