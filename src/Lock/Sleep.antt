-- ===== src/Lock/Sleep.antt =====
-- Any number of processes on one sleep-lock.
use snu_os.Base.{ℕ, ◌≡◌, ◌≢◌, true, none, some, arith, update}
use snu_os.Lock.{Sleeplock, fresh_sleeplock, acquiresleep, releasesleep, holdingsleep}

pub data Pc : Type 0 where
  without : Pc
  asleep : Pc
  holder : Pc

pub record System : Type 0 where
  pub lock : Sleeplock
  pub pc : ℕ → Pc

-- The processes have the pids `pid`. A process that sleeps may be woken and test again at any time,
-- by releasesleep or by kill.
module _ (pid : ℕ → ℕ) where
  pub data Step (s : System) : System → Type 0 where
    take :
        (i : ℕ) {lk : Sleeplock}
        → s.pc i ≢ holder
        → acquiresleep (pid i) s.lock ≡ some lk
        → Step s (record { lock = lk; pc = update s.pc i holder })
    block :
        (i : ℕ)
        → s.pc i ≢ holder
        → acquiresleep (pid i) s.lock ≡ none
        → Step s (record s { pc = update s.pc i asleep })
    give :
        (i : ℕ)
        → s.pc i ≡ holder
        → Step s (record { lock = releasesleep s.lock; pc = update s.pc i without })

  pub data Reach : System → Type 0 where
    start : Reach (record { lock = fresh_sleeplock; pc = λ _. without })
    next : {s t : System} → Reach s → Step s t → Reach t

  pub record Inv (s : System) : Type 0 where
    pub one : (i j : ℕ) → s.pc i ≡ holder → s.pc j ≡ holder → i ≡ j
    pub taken : (i : ℕ) → s.pc i ≡ holder → (s.lock.locked ≡ true) × (s.lock.pid ≡ pid i)
    pub held : s.lock.locked ≡ true → (i : ℕ) × (s.pc i ≡ holder)

  pub Step-Inv : {s t : System} → Step s t → Inv s → Inv t
  unfolding acquiresleep releasesleep
  Step-Inv {s} (take i ne e) v = record {
    one = λ j k p q. grind (arith, v.one, v.taken);
    taken = λ j p. grind (arith, v.taken);
    held = λ l. (i, ground arith);
  }
  Step-Inv {s} (block i ne e) v = record {
    one = λ j k p q. grind (arith, v.one);
    taken = λ j p. grind (arith, v.taken);
    held = λ l. let (j, h) = v.held l in (j, ground arith);
  }
  Step-Inv {s} (give i at) v = record {
    one = λ j k p q. grind (arith, v.one);
    taken = λ j p. grind (arith, v.one);
    held = λ l. absurd (ground arith);
  }

  pub Reach-Inv : {s : System} → Reach s → Inv s
  Reach-Inv start = record {
    one = λ i j p q. cc;
    taken = λ i p. cc;
    held = λ l. absurd (ground arith);
  }
  Reach-Inv (next r st) = Step-Inv st (Reach-Inv r)

  -- With different pids, at any time at most one process has returned from acquiresleep and not yet
  -- called releasesleep, holdingsleep is true for exactly that process, and while a process has to
  -- sleep there is one.
  pub exclusion :
      ((i j : ℕ) → pid i ≡ pid j → i ≡ j)
      → {s : System} → Reach s
      → (i : ℕ)
      → ((j : ℕ) → s.pc i ≡ holder → s.pc j ≡ holder → i ≡ j)
        × (s.pc i ≡ holder → holdingsleep (pid i) s.lock ≡ true)
        × (holdingsleep (pid i) s.lock ≡ true → s.pc i ≡ holder)
        × (acquiresleep (pid i) s.lock ≡ none → (j : ℕ) × (s.pc j ≡ holder))
  unfolding acquiresleep holdingsleep
  exclusion differ {s} r i = (
    λ j p q. v.one i j p q,
    λ p. ground (arith, v.taken i p),
    λ h. let (j, p) = v.held (ground arith) in ground (arith, v.taken j p, differ i j),
    λ e. v.held (ground arith),
  )
    where
      v : Inv s
      v = Reach-Inv r
