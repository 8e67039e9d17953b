-- ===== src/Uart/Order.antt =====
-- The characters that uartputc of kernel/uart.c takes are sent in order.
use snu_os.Base.{
  ℕ, zero, suc, ◌+◌, ◌-◌, ◌%◌, ◌^◌, ◌≤◌, ◌<◌, ◌≡◌, ◌≢◌, refl, sym, ap, ◌∙◌, inl, inr, Bool, true,
  false, not, ◌||◌, none, some, List, [], ◌∷◌, ◌++◌, arith, ◌==◌, update, Bool-cases,
}
use mathlib.Core.Path.{ap₂}
use mathlib.Core.List.{append_assoc, append-nil}
use snu_os.Uart.{Uart, tx_size, add64, is_full, uartstart_from, uartstart, uartputc}

-- the `n` characters from position `r` on
abbrev pub window : (ℕ → ℕ) → ℕ → ℕ → List ℕ
window buf r zero = []
window buf r (suc n) = buf (r % tx_size) ∷ window buf (add64 r 1) n

abbrev pub count : Uart → ℕ
count u = (u.w + 2 ^ 64 - u.r) % 2 ^ 64

-- What waits in the ring, oldest first.
abbrev pub pending : Uart → List ℕ
pending u = window u.buf u.r (count u)

pub record IsValid (u : Uart) : Type 0 where
  pub counters : (u.w < 2 ^ 64) × (u.r < 2 ^ 64)
  pub fits : count u ≤ tx_size

window-put :
    (buf : ℕ → ℕ) (c n r i : ℕ)
    → r < 2 ^ 64
    → n < tx_size
    → i ≡ add64 r n % tx_size
    → window (update buf i c) r (suc n) ≡ window buf r n ++ (c ∷ [])
window-put buf c zero r i hr hn e = ground arith
window-put buf c (suc n) r i hr hn e =
    ap₂ ◌∷◌ (ground arith)
      (window-put buf c n (add64 r 1) i (omega arith) (omega arith) (omega arith))

-- Everything that has been sent or waits.
abbrev pub stream : Uart → List ℕ
stream u = u.sent ++ pending u

-- One character goes out.
abbrev sent_one : Uart → Uart
sent_one u = record u { r = add64 u.r 1; sent = u.sent ++ (u.buf (u.r % tx_size) ∷ []) }

sent_one-count : (u : Uart) → IsValid u → u.w ≢ u.r → count u ≡ suc (count (sent_one u))
sent_one-count u v ne = omega (arith, v.counters, v.fits, ne)

sent_one-stream :
    (u : Uart) → IsValid u → u.w ≢ u.r → (stream (sent_one u) ≡ stream u) × IsValid (sent_one u)
sent_one-stream u v ne =
    let n = sent_one-count u v ne in
    (
      append_assoc u.sent (u.buf (u.r % tx_size) ∷ []) (pending (sent_one u))
          ∙ ap (λ m. u.sent ++ window u.buf u.r m) (sym n),
      record { counters = (v.counters.0, omega arith); fits = omega (arith, n, v.fits) },
    )

-- uartstart neither loses, adds nor reorders a character.
pub uartstart_from-stream :
    (k i : ℕ) (idle : ℕ → Bool) (u : Uart)
    → IsValid u
    → (stream (uartstart_from k i idle u) ≡ stream u) × IsValid (uartstart_from k i idle u)
unfolding uartstart_from
uartstart_from-stream zero i idle u v = (refl, v)
uartstart_from-stream (suc k) i idle u v = elim (Bool-cases (u.w == u.r || not (idle i))) [
  | inl h ↦ rw (h, uartstart_from) (refl, v)
  | inr h ↦
      (let (e, w) = sent_one-stream u v (ground (arith, h)) in
        let (e', w') = uartstart_from-stream k (i + 1) idle (sent_one u) w in
        rw (h, uartstart_from) (e' ∙ e, w'))
]

uartstart_from-drains :
    (k i : ℕ) (idle : ℕ → Bool) (u : Uart)
    → IsValid u
    → ((j : ℕ) → idle j ≡ true)
    → count u < k
    → pending (uartstart_from k i idle u) ≡ []
unfolding uartstart_from
uartstart_from-drains zero i idle u v all lt = absurd (omega arith)
uartstart_from-drains (suc k) i idle u v all lt = elim (Bool-cases (u.w == u.r)) [
  | inl h ↦
      (let z : count u ≡ 0 = ground (arith, h, v.counters) in
        rw (h, uartstart_from) (ap (window u.buf u.r) z))
  | inr h ↦
      (let ne : u.w ≢ u.r = ground (arith, h) in
        let (e, w) = sent_one-stream u v ne in
        rw (h, all i, uartstart_from)
          (uartstart_from-drains k (i + 1) idle (sent_one u) w all
            (omega (arith, sent_one-count u v ne))))
]

-- When the transmitter is idle in every round, uartstart sends all that waits in the ring, in order
-- and behind what has been sent, and leaves the ring empty.
pub uartstart-drains :
    (idle : ℕ → Bool) (u : Uart)
    → IsValid u
    → ((j : ℕ) → idle j ≡ true)
    → (pending (uartstart idle u) ≡ []) × ((uartstart idle u).sent ≡ u.sent ++ pending u)
unfolding uartstart
uartstart-drains idle u v all =
    let empty = uartstart_from-drains (suc (count u)) 0 idle u v all (omega arith) in
    let after = uartstart_from (suc (count u)) 0 idle u in
    let (e, w) = uartstart_from-stream (suc (count u)) 0 idle u v in
    (empty, sym (append-nil after.sent) ∙ ap (λ l. after.sent ++ l) (sym empty) ∙ e)

-- An interrupt or a call of uartputc, with what LSR answers.
pub data Event : Type 0 where
  interrupt : (ℕ → Bool) → Event
  putc : ℕ → (ℕ → Bool) → Event

-- The characters taken by a sequence of events, and the driver; a call that sleeps takes none.
unfoldable pub run : List Event → Uart → List ℕ × Uart
run [] u = ([], u)
run (interrupt idle ∷ es) u = run es (uartstart idle u)
run (putc c idle ∷ es) u = elim (uartputc c idle u) [
  | none ↦ run es u
  | some u' ↦ (let (taken, u'') = run es u' in (c ∷ taken, u''))
]

-- the ring with one more character
abbrev stored : ℕ → Uart → Uart
stored c u = record u { buf = update u.buf (u.w % tx_size) c; w = add64 u.w 1 }

stored-stream :
    (c : ℕ) (u : Uart)
    → IsValid u
    → is_full u ≡ false
    → (stream (stored c u) ≡ stream u ++ (c ∷ [])) × IsValid (stored c u)
stored-stream c u v room =
    let few : count u < tx_size = ground (arith, room, v.counters, v.fits) in
    let n : count (stored c u) ≡ suc (count u) = omega (arith, few, v.counters) in
    (
      ap (λ m. u.sent ++ window (stored c u).buf u.r m) n
          ∙ ap (λ l. u.sent ++ l)
              (window-put u.buf c (count u) u.r (u.w % tx_size) v.counters.1 few
                (omega (arith, v.counters, v.fits)))
          ∙ sym (append_assoc u.sent (pending u) (c ∷ [])),
      record { counters = (omega arith, v.counters.1); fits = omega (arith, n, few) },
    )

-- Whatever calls of uartputc and interrupts follow each other, and whenever the transmitter is idle:
-- what has been sent, with what waits in the ring behind it, grows by exactly the characters that
-- uartputc has taken, in their order; the ring never holds more than its size, also when the
-- counters wrap.
pub run-stream :
    (es : List Event) (u : Uart)
    → IsValid u
    → (stream (run es u).1 ≡ stream u ++ (run es u).0) × IsValid (run es u).1
unfolding run uartstart uartputc
run-stream [] u v = (sym (append-nil (stream u)), v)
run-stream (interrupt idle ∷ es) u v =
    let (e, w) = uartstart_from-stream (suc (count u)) 0 idle u v in
    let (e', w') = run-stream es (uartstart idle u) w in
    (e' ∙ ap (λ l. l ++ (run es (uartstart idle u)).0) e, w')
run-stream (putc c idle ∷ es) u v = elim (Bool-cases (is_full u)) [
  | inl h ↦ rw (h, run, uartputc) (run-stream es u v)
  | inr h ↦
      (let (e, w) = stored-stream c u v h in
        let (e', w') = uartstart_from-stream (suc (count (stored c u))) 0 idle (stored c u) w in
        let next = uartstart idle (stored c u) in
        let (e'', w'') = run-stream es next w' in
        rw (h, run, uartputc)
          (
            e''
                ∙ ap (λ l. l ++ (run es next).0) (e' ∙ e)
                ∙ append_assoc (stream u) (c ∷ []) (run es next).0,
            w'',
          ))
]
