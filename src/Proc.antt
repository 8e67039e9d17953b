-- ===== src/Proc.antt =====
-- kernel/proc.c: the process table and the scheduler. Each function is what runs between the
-- acquire and the release of the locks of the processes that it changes; sched() and swtch() give
-- the cpu to the scheduler, which stands on the other side of the same `p->lock`.
pub mod Table
pub mod Schedule
pub mod Life
use snu_os.Base.{
  ℕ, zero, suc, ◌+◌, Bool, true, false, not, ◌&&◌, Option, none, some, ◌==◌, if◌then◌else◌, update,
}
use snu_os.Base.Words.{add32}

abbrev pub nproc : ℕ
nproc = 64

-- `enum procstate`
pub data ProcState : Type 0 where
  unused used sleeping runnable running zombie : ProcState

abbrev pub same_state : ProcState → ProcState → Bool
same_state unused unused = true
same_state used used = true
same_state sleeping sleeping = true
same_state runnable runnable = true
same_state running running = true
same_state zombie zombie = true
same_state _ _ = false

-- `struct context`, the registers that allocproc sets
pub record Context : Type 0 where
  pub ra : ℕ
  pub sp : ℕ

-- `struct proc`; `parent` is an index into `proc`, `ofile` has indices into `ftable.file`, `cwd` is
-- one into `itable.inode`, and `pagetable` and `trapframe` are addresses, 0 for the null pointer.
pub record Proc : Type 0 where
  pub state : ProcState
  pub chan : ℕ
  pub killed : Bool
  pub xstate : ℕ
  pub pid : ℕ
  pub parent : Option ℕ
  pub kstack : ℕ
  pub sz : ℕ
  pub pagetable : ℕ
  pub trapframe : ℕ
  pub context : Context
  pub ofile : ℕ → Option ℕ
  pub cwd : ℕ
  pub name : ℕ → ℕ

abbrev pub Table : Type 0
Table = ℕ → Proc

unfoldable pub allocpid : ℕ → ℕ × ℕ
allocpid nextpid = (nextpid, add32 nextpid 1)

abbrev pub is_sleeping_on : ℕ → Proc → Bool
is_sleeping_on chan p = same_state p.state sleeping && p.chan == chan

abbrev pub is_not : Option ℕ → ℕ → Bool
is_not none i = true
is_not (some j) i = not (j == i)

-- The loop of wakeup from process `i` on, `k` rounds; `me` is myproc().
unfoldable pub wakeup_from : ℕ → ℕ → Option ℕ → ℕ → Table → Table
wakeup_from zero i me chan t = t
wakeup_from (suc k) i me chan t = wakeup_from k (i + 1) me chan (
    if is_not me i && is_sleeping_on chan (t i)
    then update t i (record (t i) { state = runnable })
    else t)

unfoldable pub wakeup : Option ℕ → ℕ → Table → Table
unfolding wakeup_from
wakeup me chan t = wakeup_from nproc 0 me chan t

abbrev pub killed_proc : Proc → Proc
killed_proc p =
    if same_state p.state sleeping
    then record p { killed = true; state = runnable }
    else record p { killed = true }

-- The loop of kill: whether the pid was found, and the table.
unfoldable pub kill_from : ℕ → ℕ → ℕ → Table → Bool × Table
kill_from zero i pid t = (false, t)
kill_from (suc k) i pid t =
    let rest = kill_from k (i + 1) pid t in
    if (t i).pid == pid then (true, update t i (killed_proc (t i))) else rest

unfoldable pub kill : ℕ → Table → Bool × Table
unfolding kill_from
kill pid t = kill_from nproc 0 pid t

unfoldable pub setkilled : ℕ → Table → Table
setkilled i t = update t i (record (t i) { killed = true })

abbrev pub is_child : ℕ → Proc → Bool
is_child p q = not (is_not q.parent p)

-- `init` is initproc as an index, `at i` the address of `proc[i]`, on which wait() sleeps.
module _ (init : ℕ) (at : ℕ → ℕ) where
  unfoldable pub reparent_from : ℕ → ℕ → ℕ → Table → Table
  unfolding wakeup
  reparent_from zero i p t = t
  reparent_from (suc k) i p t = reparent_from k (i + 1) p (
      if is_child p (t i)
      then wakeup (some p) (at init) (update t i (record (t i) { parent = some init }))
      else t)

  unfoldable pub reparent : ℕ → Table → Table
  unfolding reparent_from
  reparent p t = reparent_from nproc 0 p t

-- `struct cpu`: the process that runs on it.
pub record System : Type 0 where
  pub procs : Table
  pub cpus : ℕ → Option ℕ

-- What the scheduler of cpu `c` does with process `i` in its loop, up to swtch().
unfoldable pub dispatch : ℕ → ℕ → System → System
dispatch c i s =
    if same_state (s.procs i).state runnable
    then record {
      procs = update s.procs i (record (s.procs i) { state = running });
      cpus = update s.cpus c (some i);
    }
    else s

-- sched() on cpu `c`, once the process has given itself a state: back in the scheduler.
unfoldable pub sched : ℕ → System → System
sched c s = record s { cpus = update s.cpus c none }

-- yield() by process `i` on cpu `c`
unfoldable pub yield_cpu : ℕ → ℕ → System → System
unfolding sched
yield_cpu c i s =
    sched c (record s { procs = update s.procs i (record (s.procs i) { state = runnable }) })

-- sleep(), up to sched()
unfoldable pub sleep : ℕ → ℕ → ℕ → System → System
unfolding sched
sleep c i chan s =
    sched c
      (record s { procs = update s.procs i (record (s.procs i) { chan = chan; state = sleeping }) })

-- sleep(), when the process runs again
unfoldable pub slept : ℕ → System → System
slept i s = record s { procs = update s.procs i (record (s.procs i) { chan = 0 }) }

-- exit() while it holds wait_lock: the children go to init, and wakeup(p->parent) is on the
-- address of the parent.
unfoldable pub leave_family : ℕ → (ℕ → ℕ) → ℕ → Table → Table
unfolding reparent wakeup
leave_family init at i t =
    let after : Table = reparent init at i t in
    elim (after i).parent [ none ↦ wakeup (some i) 0 after | some p ↦ wakeup (some i) (at p) after ]

-- What exit() does from reparent() on.
unfoldable pub exit_last : ℕ → (ℕ → ℕ) → ℕ → ℕ → ℕ → System → System
unfolding leave_family sched
exit_last init at c i status s =
    let left = leave_family init at i s.procs in
    sched c
      (record s { procs = update left i (record (left i) { xstate = status; state = zombie }) })
