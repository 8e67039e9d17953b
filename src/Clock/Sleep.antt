-- ===== src/Clock/Sleep.antt =====
-- sys_sleep of kernel/sysproc.c sleeps for the ticks that it is asked for.
use snu_os.Base.{
  ℕ, suc, ◌+◌, ◌^◌, ◌<◌, ◌≡◌, ◌≢◌, refl, ap, ◌∙◌, inl, inr, true, false, Option, none, some, List,
  [], ◌∷◌, ltb, arith, ◌==◌, if◌then◌else◌, update, Bool-cases, update_self, ==_iff, ==_refl, ◌&&◌,
}
use snu_os.Base.Words.{sub32}
use snu_os.Proc.{nproc, Proc, sleeping, runnable, running, wakeup, is_not, is_sleeping_on}
use snu_os.Proc.Table.{woken, wakeup_lem}
use snu_os.Syscall.{minus_one}
use snu_os.Clock.{
  Clock, clockintr, Round, returned, asleep, sleep_round, sleep_again, sleep_through, sys_sleep,
}

abbrev pub length : List (Option ℕ) → ℕ
length [] = 0
length (me ∷ mes) = suc (length mes)

-- No element is process `i`: a process that sleeps does not run when an interrupt comes.
abbrev pub Others : ℕ → List (Option ℕ) → Type 0
Others i [] = Unit
Others i (me ∷ mes) = (me ≢ some i) × Others i mes

module _ (chan i n ticks0 : ℕ) (inside : i < nproc) where
  -- The clock while process `i` sleeps on it.
  record Waits (s : Clock) : Type 0 where
    small : s.ticks < 2 ^ 32
    on : ((s.procs i).chan ≡ chan) × ((s.procs i).state ≡ sleeping)
    alive : (s.procs i).killed ≡ false

  other : (me : Option ℕ) → me ≢ some i → is_not me i ≡ true
  other none ne = refl
  other (some j) ne = elim (Bool-cases (j == i)) [
    | inl e ↦ absurd (ne (ap some ((==_iff j i).0 e)))
    | inr e ↦ rw (e) refl
  ]

  -- A clock interrupt wakes it.
  awake :
      (me : Option ℕ) (s : Clock)
      → Waits s
      → me ≢ some i
      → wakeup me chan s.procs i ≡ woken (s.procs i)
  awake me s w ne =
      let in_table : ltb i nproc ≡ true = ground (arith, inside) in
      let here : is_sleeping_on chan (s.procs i) ≡ true = rw (w.on.0, w.on.1) (==_refl chan) in
      wakeup_lem me chan s.procs i ∙ rw (in_table, other me ne, here) refl

  -- A round that sleeps again.
  asleep-Waits :
      (s : Clock)
      → s.ticks < 2 ^ 32
      → (s.procs i).killed ≡ false
      → ltb (sub32 s.ticks ticks0) n ≡ true
      → (t : Clock) × (sleep_round chan i n ticks0 s ≡ (asleep, t)) × Waits t × (t.ticks ≡ s.ticks)
  unfolding sleep_round
  asleep-Waits s small alive more =
      let p : Proc = record (s.procs i) { chan = chan; state = sleeping } in
      let at : update s.procs i p i ≡ p = update_self s.procs i p in
      (
        record s { procs = update s.procs i p },
        rw (more, alive) refl,
        record {
          small = small;
          on = (ap (λ (q : Proc). q.chan) at, ap (λ (q : Proc). q.state) at);
          alive = ap (λ (q : Proc). q.killed) at ∙ alive;
        },
        refl,
      )

  -- the clock that process `i` sees when it runs again
  abbrev resumed : Option ℕ → Clock → Clock
  resumed me s =
      let t = clockintr chan me s in
      record t { procs = update t.procs i (record (t.procs i) { chan = 0; state = running }) }

  sleep_again-round :
      (me : Option ℕ) (s : Clock)
      → Waits s
      → me ≢ some i
      → sleep_again chan i n ticks0 (clockintr chan me s)
        ≡ sleep_round chan i n ticks0 (resumed me s)
  unfolding sleep_again clockintr
  sleep_again-round me s w ne =
      let ready : (wakeup me chan s.procs i).state ≡ runnable =
        ap (λ (q : Proc). q.state) (awake me s w ne) in
      rw (ready, sleep_again) refl

  resumed-alive :
      (me : Option ℕ) (s : Clock) → Waits s → me ≢ some i → ((resumed me s).procs i).killed ≡ false
  unfolding clockintr
  resumed-alive me s w ne =
      let t = clockintr chan me s in
      ap (λ (q : Proc). q.killed)
        (update_self t.procs i (record (t.procs i) { chan = 0; state = running }))
      ∙ ap (λ (q : Proc). q.killed) (awake me s w ne)
      ∙ w.alive

  stop :
      (s : Clock)
      → ltb (sub32 s.ticks ticks0) n ≡ true
      → (s.procs i).killed ≡ true
      → sleep_round chan i n ticks0 s ≡ (returned minus_one, s)
  unfolding sleep_round
  stop s e k = rw (e, k) refl

  over :
      (s : Clock)
      → ltb (sub32 s.ticks ticks0) n ≡ false
      → sleep_round chan i n ticks0 s ≡ (returned 0, s)
  unfolding sleep_round
  over s e = rw (e) refl

  returned_stays :
      (mes : List (Option ℕ)) (v : ℕ) (s : Clock)
      → (sleep_through chan i n ticks0 mes (returned v, s)).0 ≡ returned v
  unfolding sleep_through
  returned_stays [] v s = refl
  returned_stays (me ∷ mes) v s = refl

  sleep_through-Waits :
      (mes : List (Option ℕ)) (s : Clock)
      → Waits s
      → Others i mes
      → ticks0 < 2 ^ 32
      → sub32 s.ticks ticks0 < n
      → sub32 s.ticks ticks0 + length mes < 2 ^ 32
      → (sleep_through chan i n ticks0 mes (asleep, s)).0
        ≡ (if ltb (sub32 s.ticks ticks0 + length mes) n then asleep else returned 0)
  unfolding sleep_through
  sleep_through-Waits [] s w o low more few =
      let early : ltb (sub32 s.ticks ticks0 + 0) n ≡ true = ground (arith, more) in rw (early) refl
  sleep_through-Waits (me ∷ mes) s w o low more few =
      let t = resumed me s in
      let past : sub32 t.ticks ticks0 ≡ sub32 s.ticks ticks0 + 1 =
        unfold clockintr in omega (arith, w.small, low, few) in
      elim (Bool-cases (ltb (sub32 t.ticks ticks0) n)) [
        | inl e ↦
            (let (u, run, v, same) =
                asleep-Waits t (unfold clockintr in omega arith) (resumed-alive me s w o.0) e in
              let past' : sub32 u.ticks ticks0 ≡ sub32 s.ticks ticks0 + 1 =
                ap (λ x. sub32 x ticks0) same ∙ past in
              let sum : sub32 u.ticks ticks0 + length mes
                  ≡ sub32 s.ticks ticks0 + suc (length mes) =
                omega (arith, past') in
              ap (λ (q : Round × Clock). (sleep_through chan i n ticks0 mes q).0)
                (sleep_again-round me s w o.0 ∙ run)
              ∙ sleep_through-Waits mes u v o.1 low (ground (arith, same, e))
                  (omega (arith, sum, few))
              ∙ ap (λ x. if ltb x n then asleep else returned 0) sum)
        | inr e ↦
            (let late : ltb (sub32 s.ticks ticks0 + suc (length mes)) n ≡ false =
                ground (arith, past, e) in
              ap (λ (q : Round × Clock). (sleep_through chan i n ticks0 mes q).0)
                (sleep_again-round me s w o.0 ∙ over t e)
              ∙ returned_stays mes 0 t
              ∙ rw (late) refl)
      ]

pub sys_sleep_lem :
    (chan i n : ℕ) (mes : List (Option ℕ)) (s : Clock)
    → i < nproc
    → s.ticks < 2 ^ 32
    → Others i mes
    → length mes < 2 ^ 32
    → (sys_sleep chan i n mes s).0 ≡ (
        if ltb 0 n && (s.procs i).killed
        then returned minus_one
        else if ltb (length mes) n
        then asleep
        else returned 0)
unfolding sys_sleep
sys_sleep_lem chan i n mes s inside small o few =
    let zero_past : sub32 s.ticks s.ticks ≡ 0 = omega (arith, small) in
    elim (Bool-cases (ltb 0 n)) [
      | inr e ↦
          (let none_left : ltb (sub32 s.ticks s.ticks) n ≡ false = ground (arith, zero_past, e) in
            let late : ltb (length mes) n ≡ false = ground (arith, e) in
            ap (λ (q : Round × Clock). (sleep_through chan i n s.ticks mes q).0)
              (over chan i n s.ticks inside s none_left)
            ∙ returned_stays chan i n s.ticks inside mes 0 s
            ∙ rw (e, late) refl)
      | inl e ↦
          (let early : ltb (sub32 s.ticks s.ticks) n ≡ true = ground (arith, zero_past, e) in
            elim (Bool-cases (s.procs i).killed) [
              | inl k ↦
                  (ap (λ (q : Round × Clock). (sleep_through chan i n s.ticks mes q).0)
                      (stop chan i n s.ticks inside s early k)
                    ∙ returned_stays chan i n s.ticks inside mes minus_one s
                    ∙ rw (e, k) refl)
              | inr k ↦
                  (let (t, run, v, same) = asleep-Waits chan i n s.ticks inside s small k early in
                    let past : sub32 t.ticks s.ticks ≡ 0 =
                      ap (λ x. sub32 x s.ticks) same ∙ zero_past in
                    let sum : sub32 t.ticks s.ticks + length mes ≡ length mes =
                      omega (arith, past) in
                    ap (λ (q : Round × Clock). (sleep_through chan i n s.ticks mes q).0) run
                    ∙ sleep_through-Waits chan i n s.ticks inside mes t v o small
                        (ground (arith, past, e)) (omega (arith, sum, few))
                    ∙ ap (λ x. if ltb x n then asleep else returned 0) sum
                    ∙ rw (e, k) refl)
            ])
    ]
