-- ===== src/Lock/Nesting.antt =====
-- push_off and pop_off match like brackets.
use snu_os.Base.{◌-◌, ◌≡◌, ◌≢◌, refl, ◌∙◌, ◌⊎◌, inr, true, false, ◌&&◌, arith, ◌==◌, if◌then◌else◌}
use snu_os.Base.Outcome.{Outcome, ok, ◌>>=◌}
use snu_os.Lock.{Cpu, push_off, pop_off}

-- A sequence of calls in which every push_off has its pop_off.
pub data Brackets : Type 0 where
  empty : Brackets
  nest : Brackets → Brackets → Brackets

-- `nest a b` is push_off, then `a`, then pop_off, then `b`.
unfoldable pub run : Brackets → Cpu → Outcome Cpu
run empty c = ok c
run (nest a b) c = do inner ← run a (push_off c); outer ← pop_off inner; run b outer

-- Interrupts are off under at least one push_off.
abbrev pub IsOff : Cpu → Type 0
IsOff c = (c.noff ≡ 0) ⊎ (c.intr ≡ false)

-- The same but for `intena`, which means nothing while `noff` is 0.
pub record Same (c d : Cpu) : Type 0 where
  pub intr : d.intr ≡ c.intr
  pub noff : d.noff ≡ c.noff
  pub intena : c.noff ≢ 0 → d.intena ≡ c.intena

pop-push : (c d : Cpu) → IsOff c → Same (push_off c) d → (e : Cpu) × (pop_off d ≡ ok e) × Same c e
unfolding push_off pop_off
pop-push c d off s = (
  record d { noff = d.noff - 1; intr = if (d.noff - 1) == 0 && d.intena then true else d.intr },
  ground (arith, s.intr, s.noff),
  record {
    intr = ground (arith, s.intr, s.noff, s.intena);
    noff = omega (arith, s.noff);
    intena = λ h. ground (arith, s.intena);
  },
)

push_off-IsOff : (c : Cpu) → IsOff (push_off c)
unfolding push_off
push_off-IsOff c = inr refl

Same-IsOff : (c d : Cpu) → Same c d → IsOff c → IsOff d
Same-IsOff c d s off = ground (arith, s.intr, s.noff)

Same-trans : (c d e : Cpu) → Same c d → Same d e → Same c e
Same-trans c d e s t = record {
  intr = t.intr ∙ s.intr;
  noff = t.noff ∙ s.noff;
  intena = λ h. t.intena (λ z. h (omega (arith, s.noff))) ∙ s.intena h;
}

-- Whatever calls are nested in each other, from a state in which interrupts are off under any
-- push_off none of the pop_offs halts, and at the end the nesting depth and the interrupt bit are
-- those of the beginning. When they run under a push_off, what the outermost one has saved is too.
pub run-Same : (b : Brackets) (c : Cpu) → IsOff c → (d : Cpu) × (run b c ≡ ok d) × Same c d
unfolding run
run-Same empty c off = (c, refl, record { intr = refl; noff = refl; intena = λ h. refl })
run-Same (nest a b) c off =
    let (d, e1, s1) = run-Same a (push_off c) (push_off-IsOff c) in
    let (d', e2, s2) = pop-push c d off s1 in
    let (d'', e3, s3) = run-Same b d' (Same-IsOff c d' s2 off) in
    (d'', rw e1 (rw e2 e3), Same-trans c d' d'' s2 s3)
