-- ===== src/Examples/Processes.antt =====
-- kernel/pipe.c, kernel/spinlock.c, kernel/sleeplock.c and kernel/proc.c at small states.
use snu_os.Base.{
  inl, ℕ, ◌+◌, ◌≡◌, ◌≢◌, refl, true, false, none, some, [], ◌∷◌, arith, ◌==◌, if◌then◌else◌, update,
}
use snu_os.Base.Outcome.{ok, panic}
use snu_os.Pipe.{Pipe, fresh_pipe, pipewrite, piperead_from}
use snu_os.Pipe.Ring.{contents, IsValid}
use snu_os.Pipe.Stream.{IsOpen, from_buffer, Call, write, read, run, queue_run, run_refines}
use snu_os.Lock.{
  Cpu, push_off, fresh_spinlock, set_owner, test_and_set, holding, acquire_enter, release_enter,
  release_leave, Sleeplock, fresh_sleeplock, acquiresleep, holdingsleep,
}
use snu_os.Lock.Nesting.{empty, nest, Same, run-Same}
use snu_os.Lock.Spin
use snu_os.Lock.Sleep
use snu_os.Proc.{
  ProcState, running, runnable, sleeping, Proc, Table, nproc, wakeup, kill, sched, dispatch,
}
use snu_os.Proc.Schedule

-- A fresh pipe, in a page of junk.
abbrev fresh : Pipe
fresh = fresh_pipe (λ _. 5)

fresh-IsValid : IsValid fresh
fresh-IsValid = record { reads = omega arith; writes = omega arith; fits = ground arith }

fresh-IsOpen : IsOpen fresh
fresh-IsOpen = record { valid = fresh-IsValid; open_ends = (refl, refl) }

run_refines_example :
    snu_os.Pipe.Stream.run fresh (write (1 ∷ 2 ∷ []) ∷ read 1 ∷ [])
    ≡ queue_run (contents fresh) (write (1 ∷ 2 ∷ []) ∷ read 1 ∷ [])
run_refines_example = run_refines (write (1 ∷ 2 ∷ []) ∷ read 1 ∷ []) fresh fresh-IsOpen

abbrev idle_cpu : Cpu
idle_cpu = record { intr = true; noff = 0; intena = false }

run-Same_example :
    (d : Cpu) × (snu_os.Lock.Nesting.run (nest (nest empty empty) empty) idle_cpu ≡ ok d)
    × Same idle_cpu d
run-Same_example = run-Same (nest (nest empty empty) empty) idle_cpu (inl refl)

abbrev idle_cpus : ℕ → Cpu
idle_cpus = λ _. idle_cpu

-- Cpu 1 has the lock.
abbrev locked_by_1 : snu_os.Lock.Spin.System
locked_by_1 = record {
  lock = set_owner 1 (test_and_set fresh_spinlock).1;
  cpus = update idle_cpus 1 (push_off idle_cpu);
  pc =
      update
        (update (update (λ _. snu_os.Lock.Spin.outside) 1 snu_os.Lock.Spin.spinning) 1
          snu_os.Lock.Spin.won)
        1 snu_os.Lock.Spin.critical;
}

locked_by_1-Reach : snu_os.Lock.Spin.Reach idle_cpus locked_by_1
unfolding acquire_enter holding test_and_set
locked_by_1-Reach =
    snu_os.Lock.Spin.next
      (snu_os.Lock.Spin.next
        (snu_os.Lock.Spin.next snu_os.Lock.Spin.start (snu_os.Lock.Spin.enter 1 refl refl))
        (snu_os.Lock.Spin.win 1 refl refl))
      (snu_os.Lock.Spin.own 1 refl)

mutual_exclusion_example :
    (locked_by_1.pc 0 ≡ snu_os.Lock.Spin.critical → ◌≡◌ {A = ℕ} 1 0)
    × (holding 0 locked_by_1.lock ≡ false)
    × ((locked_by_1.cpus 1).intr ≡ false)
mutual_exclusion_example = snu_os.Lock.Spin.mutual_exclusion locked_by_1-Reach 1 0 refl

no_panic_example :
    (locked_by_1.pc 1 ≡ snu_os.Lock.Spin.outside
      → acquire_enter 1 locked_by_1.lock (locked_by_1.cpus 1) ≢ panic)
    × (locked_by_1.pc 1 ≡ snu_os.Lock.Spin.critical → release_enter 1 locked_by_1.lock ≢ panic)
    × (locked_by_1.pc 1 ≡ snu_os.Lock.Spin.leaving
        → release_leave locked_by_1.lock (locked_by_1.cpus 1) ≢ panic)
no_panic_example = snu_os.Lock.Spin.no_panic locked_by_1-Reach 1

abbrev held_by_1 : snu_os.Lock.Sleep.System
held_by_1 = record {
  lock = record { locked = true; pid = 4 };
  pc = update (λ _. snu_os.Lock.Sleep.without) 1 snu_os.Lock.Sleep.holder;
}

held_by_1-Reach : snu_os.Lock.Sleep.Reach (λ i. i + 3) held_by_1
unfolding acquiresleep
held_by_1-Reach =
    snu_os.Lock.Sleep.next snu_os.Lock.Sleep.start
      (snu_os.Lock.Sleep.take 1 (λ e. ground (arith, e)) refl)

exclusion_example :
    ((j : ℕ)
      → held_by_1.pc 1 ≡ snu_os.Lock.Sleep.holder
      → held_by_1.pc j ≡ snu_os.Lock.Sleep.holder
      → 1 ≡ j)
    × (held_by_1.pc 1 ≡ snu_os.Lock.Sleep.holder → holdingsleep 4 held_by_1.lock ≡ true)
    × (holdingsleep 4 held_by_1.lock ≡ true → held_by_1.pc 1 ≡ snu_os.Lock.Sleep.holder)
    × (acquiresleep 4 held_by_1.lock ≡ none → (j : ℕ) × (held_by_1.pc j ≡ snu_os.Lock.Sleep.holder))
exclusion_example =
    snu_os.Lock.Sleep.exclusion (λ i. i + 3) (λ i j e. omega arith) held_by_1-Reach 1

-- Process 2 sleeps on channel 9, all others are runnable.
abbrev one_sleeper : Table
one_sleeper i = record {
  state = if i == 2 then sleeping else runnable;
  chan = if i == 2 then 9 else 0;
  killed = false;
  xstate = 0;
  pid = i + 1;
  parent = none;
  kstack = 0;
  sz = 0;
  pagetable = 0;
  trapframe = 0;
  context = record { ra = 0; sp = 0 };
  ofile = λ _. none;
  cwd = 0;
  name = λ _. 0;
}

abbrev halted : snu_os.Proc.System
halted = record { procs = one_sleeper; cpus = λ _. none }

abbrev started : snu_os.Proc.System
started = dispatch 0 1 halted

started-Reach : snu_os.Proc.Schedule.Reach 0 (λ i. i) halted started
started-Reach =
    snu_os.Proc.Schedule.more snu_os.Proc.Schedule.here (snu_os.Proc.Schedule.take 0 1 refl)

started-on : started.cpus 0 ≡ some 1
unfolding dispatch
started-on = refl

one_cpu_example : ◌≡◌ {A = ℕ} 0 0 × (started.procs 1).state ≡ running
one_cpu_example =
    snu_os.Proc.Schedule.one_cpu 0 (λ i. i) (λ c. refl) started-Reach 0 0 1 started-on started-on
