-- ===== src/Pipe/Stream.antt =====
-- A pipe with both ends open is a bounded queue of bytes, for any sequence of writes and reads.
use snu_os.Base.{
  ℕ, suc, ◌+◌, ◌-◌, ◌≤◌, ◌<◌, ◌≡◌, refl, sym, ap, ◌∙◌, ◌⊎◌, inl, inr, Bool, ◌&&◌, true, false,
  Option, some, List, [], ◌∷◌, ◌++◌, length, arith, take, drop, get_elem?, drop-get_elem?,
  get_elem?-none, length-take, take-all, drop-all, length-append, take-append, drop-append, leb,
  if◌then◌else◌, Bool-cases,
}
use mathlib.Core.Path.{subst, ap₂}
use mathlib.Core.List.{append-nil}
use snu_os.Pipe.{
  Pipe, is_empty, pipe_size, WriteEnd, wrote, asleep, ReadEnd, got, waiting, pipewrite, piperead,
  piperead_from,
}
use snu_os.Pipe.Ring.{contents, length-contents, some-count, empty_lem, IsValid}
use snu_os.Pipe.Transfer.{Fetched, more, Written, pipewrite-Written, Taken, piperead_from-Taken}

-- copyin from a buffer that is mapped and holds `bs`
abbrev pub from_buffer : List ℕ → ℕ → Option ℕ
from_buffer bs i = get_elem? bs i

Fetched-cons :
    (xs : List ℕ) (i b : ℕ) (bs : List ℕ)
    → Fetched (from_buffer xs) i (b ∷ bs)
    → (get_elem? xs i ≡ some b) × Fetched (from_buffer xs) (suc i) bs
Fetched-cons xs i b bs (more e f) = (e, subst (λ j. Fetched (from_buffer xs) j bs) (omega arith) f)

Fetched-take :
    (xs : List ℕ) (i : ℕ) (bs : List ℕ)
    → Fetched (from_buffer xs) i bs
    → bs ≡ take (length bs) (drop i xs)
Fetched-take xs i [] f = refl
Fetched-take xs i (b ∷ bs) f =
    let (e, g) = Fetched-cons xs i b bs f in
    rw (drop-get_elem? xs i e) (ap (λ l. b ∷ l) (Fetched-take xs (suc i) bs g))

-- A bounded queue, as a writer and a reader see it.
abbrev pub queue_send : List ℕ → List ℕ → WriteEnd × List ℕ
queue_send q bs =
    let room = pipe_size - length q in
    (if leb (length bs) room then wrote (length bs) else asleep room, q ++ take room bs)

abbrev pub queue_receive : List ℕ → ℕ → ReadEnd × List ℕ
queue_receive [] n = (waiting, [])
queue_receive (b ∷ bs) n = (got (take n (b ∷ bs)), drop n (b ∷ bs))

-- Both ends are open, and the ring is well formed.
pub record IsOpen (p : Pipe) : Type 0 where
  pub valid : IsValid p
  pub open_ends : (p.readopen ≡ true) × (p.writeopen ≡ true)

abbrev pub send : List ℕ → Pipe → WriteEnd × Pipe
send bs p = pipewrite (from_buffer bs) (λ _. false) (length bs) p

abbrev pub receive : ℕ → Pipe → ReadEnd × Pipe
receive n p = piperead (λ _. true) false n p

module _ (q xs bs q' : List ℕ) (e : WriteEnd) (n : ℕ) (at : n ≡ length bs)
    (prefix : bs ≡ take (length bs) xs) (new : q' ≡ q ++ bs) (fits : length q' ≤ pipe_size) where
  sizes : (length q' ≡ length q + length bs) × (length bs ≤ length xs)
  sizes = (
    ap length new ∙ length-append q bs,
    omega (arith, ap length prefix, length-take (length bs) xs),
  )

  -- everything fits
  all_sent : length xs ≤ length bs → e ≡ wrote n → ((e, q') ≡ queue_send q xs)
  all_sent long w =
      ap₂ (λ a b. (a, b))
        (w
          ∙ ap wrote (omega (arith, sizes))
          ∙ sym (ap (λ t. if t then wrote (length xs) else asleep (pipe_size - length q)) small))
        (new
          ∙ ap (λ l. q ++ l)
              (prefix
                ∙ take-all (length bs) xs long
                ∙ sym (take-all (pipe_size - length q) xs (omega (arith, sizes)))))
    where
      small : leb (length xs) (pipe_size - length q) ≡ true
      small = ground (arith, sizes)

  -- the queue is full before the end
  some_sent :
      length bs < length xs → length q' ≡ pipe_size → e ≡ asleep n → ((e, q') ≡ queue_send q xs)
  some_sent short full w =
      ap₂ (λ a b. (a, b))
        (w
          ∙ ap asleep (omega (arith, sizes))
          ∙ sym (ap (λ t. if t then wrote (length xs) else asleep (pipe_size - length q)) large))
        (new ∙ ap (λ l. q ++ l) (prefix ∙ ap (λ k. take k xs) (omega (arith, sizes))))
    where
      large : leb (length xs) (pipe_size - length q) ≡ false
      large = ground (arith, sizes)

took :
    (q out rest : List ℕ) {lost : List ℕ} {n : ℕ}
    → (q ≡ [] → ⊥)
    → q ≡ out ++ (lost ++ rest)
    → (lost ≡ []) × ((length out ≡ n) ⊎ (rest ≡ []) × (length out < n))
      ⊎ (length lost ≡ 1) × (true ≡ false) × (length out < n)
    → ((got out, rest) ≡ queue_receive q n)
took [] out rest full parts ends = absurd (full refl)
took (b ∷ bs) out rest {lost} {n} full parts ends = elim ends [
  | inl (none_lost, inl all) ↦
      ap₂ (λ x y. (got x, y))
        (sym (take-append out rest) ∙ ap₂ (λ k l. take k l) all (sym (whole none_lost)))
        (sym (drop-append out rest) ∙ ap₂ (λ k l. drop k l) all (sym (whole none_lost)))
  | inl (none_lost, inr (empty, short)) ↦
      ap₂ (λ x y. (got x, y))
        (sym (take-all n out (omega arith)) ∙ ap (λ l. take n l) (sym (only none_lost empty)))
        (empty
          ∙ sym (drop-all n out (omega arith))
          ∙ ap (λ l. drop n l) (sym (only none_lost empty)))
  | inr (_, bad, _) ↦ cc
]
  where
    whole : lost ≡ [] → (b ∷ bs) ≡ out ++ rest
    whole e = parts ∙ ap (λ l. out ++ (l ++ rest)) e

    only : lost ≡ [] → rest ≡ [] → (b ∷ bs) ≡ out
    only e f = whole e ∙ ap (λ l. out ++ l) f ∙ append-nil out

module _ (p : Pipe) (o : IsOpen p) where
  -- A write by a process that is not killed is a write to the queue.
  pub send_refines :
      (bs : List ℕ)
      → (((send bs p).0, contents (send bs p).1) ≡ queue_send (contents p) bs)
        × IsOpen (send bs p).1
  send_refines bs = (
    elim w.ends [
      | inl (r, inl all) ↦
          all_sent (contents p) bs w.bs _ _ w.stop (omega (arith, w.rounds)) prefix w.appended fits
            (omega arith) r
      | inl (r, inr out) ↦
          all_sent (contents p) bs w.bs _ _ w.stop (omega (arith, w.rounds)) prefix w.appended fits
            (omega (arith, w.rounds, get_elem?-none bs w.stop out)) r
      | inr (inl (r, short, full)) ↦
          some_sent (contents p) bs w.bs _ _ w.stop (omega (arith, w.rounds)) prefix w.appended fits
            short full r
      | inr (inr (r, short, dead)) ↦ absurd (ground (arith, o.open_ends.0))
    ],
    record { valid = w.valid; open_ends = (w.flags.0 ∙ o.open_ends.0, w.flags.1 ∙ o.open_ends.1) },
  )
    where
      w : Written (from_buffer bs) (λ _. false) (length bs) 0 p (send bs p)
      w = pipewrite-Written (from_buffer bs) (λ _. false) (length bs) p o.valid

      prefix : w.bs ≡ take (length w.bs) bs
      prefix = Fetched-take bs 0 w.bs w.fetched

      fits : length (contents (send bs p).1) ≤ pipe_size
      fits = omega (arith, length-contents (send bs p).1, w.valid.fits)

  -- A read is a read from the queue.
  pub receive_refines :
      (n : ℕ)
      → (((receive n p).0, contents (receive n p).1) ≡ queue_receive (contents p) n)
        × IsOpen (receive n p).1
  unfolding piperead
  receive_refines n = elim (Bool-cases (is_empty p)) [
    | inl e ↦ rw (tested true e) (
      ap (λ q. (waiting, q)) (empty_lem p o.valid e)
          ∙ sym (ap (λ q. queue_receive q n) (empty_lem p o.valid e)),
      o,
    )
    | inr e ↦ rw (tested false e) (
      took (contents p) _ _
          (λ z. absurd (omega (arith, ap length z, length-contents p, some-count p o.valid e)))
          t.removed t.ends,
      record {
        valid = t.valid;
        open_ends = (t.flags.0 ∙ o.open_ends.0, t.flags.1 ∙ o.open_ends.1);
      },
    )
  ]
    where
      tested : (b : Bool) → is_empty p ≡ b → (is_empty p && p.writeopen) ≡ b
      tested b e = ground (arith, o.open_ends.1)

      t : Taken (λ _. true) n 0 p (piperead_from (λ _. true) n 0 p)
      t = piperead_from-Taken (λ _. true) n 0 p o.valid

pub data Call : Type 0 where
  write : List ℕ → Call
  read : ℕ → Call

pub data Reply : Type 0 where
  to_writer : WriteEnd → Reply
  to_reader : ReadEnd → Reply

unfoldable pub run : Pipe → List Call → List Reply
run p [] = []
run p (write bs ∷ cs) = let (r, p') = send bs p in to_writer r ∷ run p' cs
run p (read n ∷ cs) = let (r, p') = receive n p in to_reader r ∷ run p' cs

unfoldable pub queue_run : List ℕ → List Call → List Reply
queue_run q [] = []
queue_run q (write bs ∷ cs) = let (r, q') = queue_send q bs in to_writer r ∷ queue_run q' cs
queue_run q (read n ∷ cs) = let (r, q') = queue_receive q n in to_reader r ∷ queue_run q' cs

-- No sequence of writes and reads, by processes that are not killed and with buffers that are
-- mapped, tells a pipe with both ends open from a first-in first-out queue of 512 bytes that holds
-- what the pipe holds: the same replies, with the same bytes in the same order.
pub run_refines : (cs : List Call) (p : Pipe) → IsOpen p → run p cs ≡ queue_run (contents p) cs
unfolding run queue_run
run_refines [] p o = refl
run_refines (write bs ∷ cs) p o =
    let (e, o') = send_refines p o bs in
    ap (λ rs. to_writer (send bs p).0 ∷ rs) (run_refines cs (send bs p).1 o')
    ∙ ap (λ (x : WriteEnd × List ℕ). to_writer x.0 ∷ queue_run x.1 cs) e
run_refines (read n ∷ cs) p o =
    let (e, o') = receive_refines p o n in
    ap (λ rs. to_reader (receive n p).0 ∷ rs) (run_refines cs (receive n p).1 o')
    ∙ ap (λ (x : ReadEnd × List ℕ). to_reader x.0 ∷ queue_run x.1 cs) e
