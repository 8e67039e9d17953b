-- ===== src/Proc/Schedule.antt =====
-- The scheduler in kernel/proc.c: which process runs on which cpu. The steps are what a cpu does
-- while it holds the `p->lock` of the process, and the wakeups and kills that others do meanwhile.
use snu_os.Base.{ℕ, ◌≡◌, inl, inr, ◌==◌, ◌≢◌, refl, arith, Option, none, some, update, Bool-cases}
use snu_os.Proc.{
  sleeping, runnable, running, zombie, same_state, Proc, Table, System, wakeup, kill, dispatch,
  sched, yield_cpu, sleep, slept, exit_last, leave_family,
}
use snu_os.Proc.Table.{wakeup-running, kill-running, leave_family-running}

-- Every cpu has a process that runs, on no other cpu.
pub record Inv (s : System) : Type 0 where
  runs : (c i : ℕ) → s.cpus c ≡ some i → (s.procs i).state ≡ running
  one : (c d i : ℕ) → s.cpus c ≡ some i → s.cpus d ≡ some i → c ≡ d

-- A process that does not run is put on a free cpu.
put_on :
    (c i : ℕ) (p : Proc) (s : System)
    → s.cpus c ≡ none
    → (s.procs i).state ≢ running
    → p.state ≡ running
    → Inv s
    → Inv (record { procs = update s.procs i p; cpus = update s.cpus c (some i) })
put_on c i p s free idle on v = record {
  runs = λ d j at. elim (Bool-cases (i == j)) [
    | inl e ↦ rw (e, on)
    | inr e ↦ elim (Bool-cases (c == d)) [
      | inl f ↦ ground arith
      | inr f ↦ ground (arith, v.runs d j)
    ]
  ];
  one = λ d e j at same. elim (Bool-cases (c == d)) [
    | inl f ↦ elim (Bool-cases (c == e)) [
      | inl g ↦ ground arith
      | inr g ↦ ground (arith, v.runs e j)
    ]
    | inr f ↦ elim (Bool-cases (c == e)) [
      | inl g ↦ ground (arith, v.runs d j)
      | inr g ↦ ground (arith, v.one d e j)
    ]
  ];
}

-- The process that runs on a cpu leaves it, in whatever state.
take_off :
    (c i : ℕ) (p : Proc) (s : System)
    → s.cpus c ≡ some i
    → Inv s
    → Inv (record { procs = update s.procs i p; cpus = update s.cpus c none })
take_off c i p s on v = record {
  runs = λ d j at. elim (Bool-cases (c == d)) [
    | inl f ↦ ground arith
    | inr f ↦ elim (Bool-cases (i == j)) [
      | inl e ↦ ground (arith, v.one c d i)
      | inr e ↦ ground (arith, v.runs d j)
    ]
  ];
  one = λ d e j at same. elim (Bool-cases (c == d)) [
    | inl f ↦ ground arith
    | inr f ↦ elim (Bool-cases (c == e)) [
      | inl g ↦ ground arith
      | inr g ↦ ground (arith, v.one d e j)
    ]
  ];
}

-- A change of the table that leaves the processes that run as they are.
keep :
    (t : Table) (s : System)
    → ((j : ℕ) → (s.procs j).state ≡ running → (t j).state ≡ running)
    → Inv s
    → Inv (record s { procs = t })
keep t s same v = record { runs = λ c i at. same i (v.runs c i at); one = v.one }

-- A step of the system: the scheduler of a cpu runs a process, the process of a cpu yields, sleeps,
-- wakes up in sleep() or exits, or somebody wakes up or kills processes.
pub data Step (init : ℕ) (at : ℕ → ℕ) : System → System → Type 0 where
  take : {s : System} (c i : ℕ) → s.cpus c ≡ none → Step init at s (dispatch c i s)
  yields : {s : System} (c i : ℕ) → s.cpus c ≡ some i → Step init at s (yield_cpu c i s)
  sleeps : {s : System} (c i chan : ℕ) → s.cpus c ≡ some i → Step init at s (sleep c i chan s)
  resumes : {s : System} (c i : ℕ) → s.cpus c ≡ some i → Step init at s (slept i s)
  exits :
      {s : System} (c i status : ℕ)
      → s.cpus c ≡ some i
      → Step init at s (exit_last init at c i status s)
  wakes :
      {s : System} (me : Option ℕ) (chan : ℕ)
      → Step init at s (record s { procs = wakeup me chan s.procs })
  kills : {s : System} (pid : ℕ) → Step init at s (record s { procs = (kill pid s.procs).1 })

-- The states that the scheduler reaches.
pub data Reach (init : ℕ) (at : ℕ → ℕ) : System → System → Type 0 where
  here : {s : System} → Reach init at s s
  more : {s t u : System} → Reach init at s t → Step init at t u → Reach init at s u

Step-Inv : (init : ℕ) (at : ℕ → ℕ) {s t : System} → Step init at s t → Inv s → Inv t
unfolding dispatch yield_cpu sched sleep slept exit_last
Step-Inv init at {s = s} (take c i free) v =
    elim (Bool-cases (same_state (s.procs i).state runnable)) [
      | inl e ↦ rw (e) (
          put_on c i (record (s.procs i) { state = running }) s free (λ r. ground (arith, e, r))
            refl v)
      | inr e ↦ rw (e) v
    ]
Step-Inv init at {s = s} (yields c i on) v =
    take_off c i (record (s.procs i) { state = runnable }) s on v
Step-Inv init at {s = s} (sleeps c i chan on) v =
    take_off c i (record (s.procs i) { chan = chan; state = sleeping }) s on v
Step-Inv init at {s = s} (resumes c i on) v =
    keep (update s.procs i (record (s.procs i) { chan = 0 })) s (λ j. ground arith) v
Step-Inv init at {s = s} (exits c i status on) v =
    let left = leave_family init at i s.procs in
    take_off c i (record (left i) { xstate = status; state = zombie }) (record s { procs = left })
      on (keep left s (leave_family-running init at i s.procs) v)
Step-Inv init at {s = s} (wakes me chan) v =
    keep (wakeup me chan s.procs) s (wakeup-running me chan s.procs) v
Step-Inv init at {s = s} (kills pid) v = keep (kill pid s.procs).1 s (kill-running pid s.procs) v

Reach-Inv : (init : ℕ) (at : ℕ → ℕ) {s t : System} → Reach init at s t → Inv s → Inv t
Reach-Inv init at here v = v
Reach-Inv init at (more r e) v = Step-Inv init at e (Reach-Inv init at r v)

-- In every state that the scheduler reaches from one in which no cpu runs a process, a process
-- runs on at most one cpu, and the process of a cpu is RUNNING, whatever wakeups and kills there
-- were meanwhile.
pub one_cpu :
    (init : ℕ) (at : ℕ → ℕ) {s t : System}
    → ((c : ℕ) → s.cpus c ≡ none)
    → Reach init at s t
    → (c d i : ℕ) → t.cpus c ≡ some i
    → t.cpus d ≡ some i
    → c ≡ d × (t.procs i).state ≡ running
one_cpu init at {s = s} idle r c d i on same =
    let v = Reach-Inv init at r (record {
      runs = λ e j h. ground (arith, idle e);
      one = λ e f j h g. ground (arith, idle e);
    }) in
    (v.one c d i on same, v.runs c i on)
