-- ===== src/Clock.antt =====
-- The clock: clockintr of kernel/trap.c with sys_sleep and sys_uptime of kernel/sysproc.c. The
-- functions run under `tickslock`; sys_sleep is cut where it sleeps.
pub mod Sleep
use snu_os.Base.{
  ℕ, ◌+◌, ◌-◌, ◌^◌, Option, none, some, true, false, List, [], ◌∷◌, ltb, if◌then◌else◌, update,
}
use snu_os.Base.Words.{add32, sub32}
use snu_os.Proc.{Table, same_state, sleeping, runnable, running, wakeup}
use snu_os.Syscall.{minus_one}

-- `ticks` and the process table
pub record Clock : Type 0 where
  pub ticks : ℕ
  pub procs : Table

-- `chan` is the address of `ticks`, and `me` is myproc(), which an interrupt in the scheduler has not.
unfoldable pub clockintr : ℕ → Option ℕ → Clock → Clock
clockintr chan me s = record { ticks = add32 s.ticks 1; procs = wakeup me chan s.procs }

abbrev pub sys_uptime : Clock → ℕ
sys_uptime s = s.ticks

-- How sys_sleep stands: it has returned, or it sleeps.
pub data Round : Type 0 where
  returned : ℕ → Round
  asleep : Round

-- One round of the loop of sys_sleep by process `i`, for `n` ticks from `ticks0` on, as unsigned
-- numbers.
unfoldable pub sleep_round : ℕ → ℕ → ℕ → ℕ → Clock → Round × Clock
sleep_round chan i n ticks0 s =
    let p = s.procs i in
    if ltb (sub32 s.ticks ticks0) n
    then if p.killed then (returned minus_one, s) else (
      asleep,
      record s { procs = update s.procs i (record p { chan = chan; state = sleeping }) },
    )
    else (returned 0, s)

-- The scheduler takes process `i` when it is runnable, and sleep() returns: the next round. A process
-- that still sleeps stays so.
unfoldable pub sleep_again : ℕ → ℕ → ℕ → ℕ → Clock → Round × Clock
sleep_again chan i n ticks0 s =
    let p = s.procs i in
    elim (same_state p.state runnable) [
      | false ↦ (asleep, s)
      | true ↦
          sleep_round chan i n ticks0
            (record s { procs = update s.procs i (record p { chan = 0; state = running }) })
    ]

-- The loop of sys_sleep behind its first round, through one clock interrupt for each element of the
-- list, in the context of that process.
unfoldable pub sleep_through : ℕ → ℕ → ℕ → ℕ → List (Option ℕ) → Round × Clock → Round × Clock
sleep_through chan i n ticks0 mes (returned v, s) = (returned v, s)
sleep_through chan i n ticks0 [] (asleep, s) = (asleep, s)
sleep_through chan i n ticks0 (me ∷ mes) (asleep, s) =
    sleep_through chan i n ticks0 mes (sleep_again chan i n ticks0 (clockintr chan me s))

-- sys_sleep of process `i`, while those interrupts arrive.
unfoldable pub sys_sleep : ℕ → ℕ → ℕ → List (Option ℕ) → Clock → Round × Clock
sys_sleep chan i n mes s = sleep_through chan i n s.ticks mes (sleep_round chan i n s.ticks s)
