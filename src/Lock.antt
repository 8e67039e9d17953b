-- ===== src/Lock.antt =====
-- kernel/spinlock.c and kernel/sleeplock.c: interrupt nesting, spinlocks and sleep-locks.
pub mod Nesting
pub mod Spin
pub mod Sleep
use snu_os.Base.{
  ℕ, zero, suc, ◌+◌, ◌-◌, Bool, true, false, not, ◌&&◌, Option, none, some, ltb, ◌==◌,
  if◌then◌else◌,
}
use snu_os.Base.Outcome.{Outcome, ok, panic_if, ◌>>=◌, ◌>>◌}

-- `struct cpu` without the context, and the interrupt-enable bit of sstatus (intr_get, intr_on,
-- intr_off).
pub record Cpu : Type 0 where
  pub intr : Bool
  pub noff : ℕ
  pub intena : Bool

unfoldable pub push_off : Cpu → Cpu
push_off c = record c {
  intr = false;
  noff = c.noff + 1;
  intena = if c.noff == 0 then c.intr else c.intena;
}

unfoldable pub pop_off : Cpu → Outcome Cpu
pop_off c = do
  panic_if c.intr
  panic_if (ltb c.noff 1)
  let left = c.noff - 1
  ok (record c { noff = left; intr = if left == 0 && c.intena then true else c.intr })

-- `struct spinlock`; `cpu` is the number of the holder, `none` the null pointer.
pub record Spinlock : Type 0 where
  pub locked : Bool
  pub cpu : Option ℕ

abbrev pub fresh_spinlock : Spinlock
fresh_spinlock = record { locked = false; cpu = none }

abbrev pub is_cpu : Option ℕ → ℕ → Bool
is_cpu none i = false
is_cpu (some j) i = j == i

-- on cpu number `i`
unfoldable pub holding : ℕ → Spinlock → Bool
holding i lk = lk.locked && is_cpu lk.cpu i

-- acquire() up to its loop
unfoldable pub acquire_enter : ℕ → Spinlock → Cpu → Outcome Cpu
unfolding push_off holding
acquire_enter i lk c = do panic_if (holding i lk); ok (push_off c)

-- one __sync_lock_test_and_set: whether the loop ends, and the lock
unfoldable pub test_and_set : Spinlock → Bool × Spinlock
test_and_set lk = (not lk.locked, record lk { locked = true })

unfoldable pub set_owner : ℕ → Spinlock → Spinlock
set_owner i lk = record lk { cpu = some i }

-- release() up to the write that frees the lock
unfoldable pub release_enter : ℕ → Spinlock → Outcome Spinlock
unfolding holding
release_enter i lk = do panic_if (not (holding i lk)); ok (record lk { cpu = none })

-- __sync_lock_release and pop_off()
unfoldable pub release_leave : Spinlock → Cpu → Outcome (Spinlock × Cpu)
unfolding pop_off
release_leave lk c = do c' ← pop_off c; ok (record lk { locked = false }, c')

-- `struct sleeplock`; every function runs under its spinlock `lk`.
pub record Sleeplock : Type 0 where
  pub locked : Bool
  pub pid : ℕ

abbrev pub fresh_sleeplock : Sleeplock
fresh_sleeplock = record { locked = false; pid = 0 }

-- One test of acquiresleep's loop by process `pid`: `none` sleeps.
unfoldable pub acquiresleep : ℕ → Sleeplock → Option Sleeplock
acquiresleep pid lk = if lk.locked then none else some (record { locked = true; pid = pid })

unfoldable pub releasesleep : Sleeplock → Sleeplock
releasesleep lk = record { locked = false; pid = 0 }

unfoldable pub holdingsleep : ℕ → Sleeplock → Bool
holdingsleep pid lk = lk.locked && lk.pid == pid
