-- ===== src/Console/Input.antt =====
-- What the console keeps of its input.
use snu_os.Base.{
  ℕ, zero, suc, ◌-◌, ◌%◌, ◌^◌, ◌≤◌, ◌<◌, ◌≡◌, refl, ap, ◌∙◌, inl, inr, Bool, false, not, ◌&&◌, ◌||◌,
  List, [], ◌∷◌, ◌++◌, arith, ltb, ◌==◌, Bool-cases,
}
use snu_os.Base.Words.{add32, sub32}
use snu_os.Console.{
  input_buf_size, backspace, newline, ctrl_d, ctrl_h, ctrl_p, ctrl_u, Console, consputc, kill_line,
  erase, stored, append, consoleintr, consoleread_from,
}

-- What is read, what may be read and what is edited follow each other in the ring.
pub record IsValid (s : Console) : Type 0 where
  pub words : (s.r < 2 ^ 32) × (s.w < 2 ^ 32) × (s.e < 2 ^ 32)
  pub order : sub32 s.w s.r ≤ sub32 s.e s.r
  pub fits : sub32 s.e s.r ≤ input_buf_size

-- Nothing that consoleread may read is taken back or changed.
pub record Keeps (s t : Console) : Type 0 where
  pub valid : IsValid t
  pub reader : t.r ≡ s.r
  pub grows : sub32 s.w s.r ≤ sub32 t.w s.r
  pub same :
      (j : ℕ)
      → j < sub32 s.w s.r
      → t.buf (add32 s.r j % input_buf_size) ≡ s.buf (add32 s.r j % input_buf_size)

Keeps-refl : (s : Console) → IsValid s → Keeps s s
Keeps-refl s v = record { valid = v; reader = refl; grows = omega arith; same = λ j p. refl }

-- The line that is edited gets shorter, and nothing else changes.
record Shorter (s t : Console) : Type 0 where
  buf : t.buf ≡ s.buf
  ends : (t.r ≡ s.r) × (t.w ≡ s.w)
  word : t.e < 2 ^ 32
  less : sub32 t.e s.w ≤ sub32 s.e s.w

Shorter-Keeps : (s t : Console) → IsValid s → Shorter s t → Keeps s t
Shorter-Keeps s t v h = record {
  valid = record {
    words = (omega (arith, v.words, h.ends), omega (arith, v.words, h.ends), h.word);
    order = omega (arith, v.words, v.order, v.fits, h.ends, h.word, h.less);
    fits = omega (arith, v.words, v.order, v.fits, h.ends, h.word, h.less);
  };
  reader = h.ends.0;
  grows = omega (arith, h.ends);
  same = λ j p. ap (λ (f : ℕ → ℕ). f (add32 s.r j % input_buf_size)) h.buf;
}

erase-Shorter : (s : Console) → IsValid s → Shorter s (erase s)
unfolding erase consputc
erase-Shorter s v = elim (Bool-cases (s.e == s.w)) [
  | inl e ↦ rw e (record { buf = refl; ends = (refl, refl); word = v.words.2; less = omega arith })
  | inr e ↦ rw e (record {
    buf = refl;
    ends = (refl, refl);
    word = omega arith;
    less = ground (arith, v.words, e);
  })
]

kill_line-Shorter :
    (k : ℕ) (s : Console) → (s.w < 2 ^ 32) × (s.e < 2 ^ 32) → Shorter s (kill_line k s)
unfolding kill_line consputc
kill_line-Shorter zero s v = record {
  buf = refl;
  ends = (refl, refl);
  word = v.1;
  less = omega arith;
}
kill_line-Shorter (suc k) s v =
    elim (Bool-cases (not (s.e == s.w) && not (s.buf (sub32 s.e 1 % input_buf_size) == newline))) [
      | inl e ↦
          (let w =
              kill_line-Shorter k (consputc backspace (record s { e = sub32 s.e 1 }))
                (v.0, omega arith) in
            rw e (record {
              buf = w.buf;
              ends = w.ends;
              word = w.word;
              less = ground (arith, v, e, w.less);
            }))
      | inr e ↦ rw e (record { buf = refl; ends = (refl, refl); word = v.1; less = omega arith })
    ]

append-Keeps :
    (c : ℕ) (s : Console) → IsValid s → sub32 s.e s.r < input_buf_size → Keeps s (append c s)
unfolding append consputc
append-Keeps c s v room = record {
  valid = record {
    words = (v.words.0, ground (arith, v.words), omega arith);
    order = ground (arith, v.words, v.order, room);
    fits = omega (arith, v.words, room);
  };
  reader = refl;
  grows = ground (arith, v.words, v.order, room);
  same = λ j p. ground (arith, v.words, v.order, room, p);
}

-- Whatever character comes in, the ring stays well formed, and the input that ends a line, which
-- consoleread may read, is neither taken back nor overwritten.
pub consoleintr-Keeps : (c : ℕ) (s : Console) → IsValid s → Keeps s (consoleintr c s)
unfolding consoleintr
consoleintr-Keeps c s v = elim (Bool-cases (c == ctrl_p)) [
  | inl p ↦ rw p (Keeps-refl s v)
  | inr p ↦ elim (Bool-cases (c == ctrl_u)) [
    | inl u ↦
        rw (p, u)
          (Shorter-Keeps s (kill_line (sub32 s.e s.w) s) v
            (kill_line-Shorter (sub32 s.e s.w) s (v.words.1, v.words.2)))
    | inr u ↦ elim (Bool-cases (c == ctrl_h || c == 127)) [
      | inl h ↦ rw (p, u, h) (Shorter-Keeps s (erase s) v (erase-Shorter s v))
      | inr h ↦ elim (Bool-cases (not (c == 0) && ltb (sub32 s.e s.r) input_buf_size)) [
        | inl f ↦ rw (p, u, h, f) (append-Keeps (stored c) s v (ground (arith, f)))
        | inr f ↦ rw (p, u, h, f) (Keeps-refl s v)
      ]
    ]
  ]
]

-- What the reader leaves: the same input, of which it has taken a part.
pub record Read (s t : Console) : Type 0 where
  pub valid : IsValid t
  pub input : (t.buf ≡ s.buf) × (t.w ≡ s.w) × (t.e ≡ s.e)
  pub less : sub32 t.w t.r ≤ sub32 s.w s.r

take_one : (s : Console) → IsValid s → (s.r == s.w) ≡ false → Read s (record s { r = add32 s.r 1 })
take_one s v e = record {
  valid = record {
    words = (omega arith, v.words.1, v.words.2);
    order = ground (arith, v.words, v.order, v.fits, e);
    fits = ground (arith, v.words, v.order, v.fits, e);
  };
  input = (refl, refl, refl);
  less = ground (arith, v.words, v.order, v.fits, e);
}

put_back : (s : Console) → IsValid s → Read s (record s { r = sub32 (add32 s.r 1) 1 })
put_back s v = record {
  valid = record {
    words = (omega arith, v.words.1, v.words.2);
    order = omega (arith, v.words, v.order, v.fits);
    fits = omega (arith, v.words, v.order, v.fits);
  };
  input = (refl, refl, refl);
  less = omega (arith, v.words);
}

Read-trans : (s t u : Console) → Read s t → Read t u → Read s u
Read-trans s t u a b = record {
  valid = b.valid;
  input = (b.input.0 ∙ a.input.0, b.input.1 ∙ a.input.1, b.input.2 ∙ a.input.2);
  less = omega (arith, a.less, b.less);
}

-- However it ends, consoleread leaves the ring well formed and changes nothing of the input but
-- that a part of what it may read is read.
pub consoleread_from-Read :
    (dst : ℕ → Bool) (killed : Bool) (target n : ℕ) (out : List ℕ) (s : Console)
    → IsValid s
    → Read s (consoleread_from dst killed target n out s).1
unfolding consoleread_from
consoleread_from-Read dst killed target zero out s v = record {
  valid = v;
  input = (refl, refl, refl);
  less = omega arith;
}
consoleread_from-Read dst killed target (suc n) out s v = elim (Bool-cases (s.r == s.w)) [
  | inl e ↦ rw e (record { valid = v; input = (refl, refl, refl); less = omega arith })
  | inr e ↦
      (let one = take_one s v e in
        elim (Bool-cases (s.buf (s.r % input_buf_size) == ctrl_d)) [
          | inl d ↦ elim (Bool-cases (ltb (suc n) target)) [
            | inl l ↦ rw (e, d, l) (put_back s v)
            | inr l ↦ rw (e, d, l) one
          ]
          | inr d ↦ elim (Bool-cases (not (dst (target - suc n)))) [
            | inl f ↦ rw (e, d, f) one
            | inr f ↦ elim (Bool-cases (s.buf (s.r % input_buf_size) == newline)) [
              | inl l ↦ rw (e, d, f, l) one
              | inr l ↦
                  rw (e, d, f, l)
                    (Read-trans s (record s { r = add32 s.r 1 })
                      (consoleread_from dst killed target n
                        (out ++ (s.buf (s.r % input_buf_size) ∷ []))
                        (record s { r = add32 s.r 1 })).1
                      one
                      (consoleread_from-Read dst killed target n
                        (out ++ (s.buf (s.r % input_buf_size) ∷ [])) (record s { r = add32 s.r 1 })
                        one.valid))
            ]
          ]
        ])
]
