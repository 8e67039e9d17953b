-- ===== src/Pipe/Transfer.antt =====
-- What one run of pipewrite and of piperead moves.
use snu_os.Base.{
  ℕ, zero, suc, ◌+◌, ◌<◌, ◌≡◌, refl, sym, ap, ◌∙◌, ◌⊎◌, inl, inr, Bool, true, false, not, ◌||◌,
  Option, some, none, List, [], ◌∷◌, ◌++◌, length, arith, Bool-cases, Option-cases,
}
use mathlib.Core.List.{append_assoc, append-nil}
use snu_os.Pipe.{
  Pipe, pipe_size, is_full, is_empty, put_byte, get_byte, WriteEnd, wrote, failed, asleep,
  pipewrite_from, piperead_from, pipewrite,
}
use snu_os.Pipe.Ring.{contents, IsValid, full_iff, empty_lem, put_byte-contents, get_byte-contents}

-- the bytes that copyin delivers for the `m` addresses from round `i` on
pub data Fetched (src : ℕ → Option ℕ) : ℕ → List ℕ → Type 0 where
  nothing : {i : ℕ} → Fetched src i []
  more :
      {i ch : ℕ} {bs : List ℕ} → src i ≡ some ch → Fetched src (i + 1) bs → Fetched src i (ch ∷ bs)

-- What a run of `k` rounds from round `i` did: it appended `bs`, the bytes of the rounds done, and
-- it stopped at round `stop` for one of four reasons.
pub record Written (src : ℕ → Option ℕ) (killed : ℕ → Bool) (k i : ℕ) (p : Pipe)
    (r : WriteEnd × Pipe) : Type 0 where
  pub bs : List ℕ
  pub stop : ℕ
  pub rounds : stop ≡ i + length bs
  pub fetched : Fetched src i bs
  pub appended : contents r.1 ≡ contents p ++ bs
  pub valid : IsValid r.1
  pub flags : (r.1.readopen ≡ p.readopen) × (r.1.writeopen ≡ p.writeopen)
  pub ends :
      (r.0 ≡ wrote stop) × ((length bs ≡ k) ⊎ (src stop ≡ none))
      ⊎ (r.0 ≡ asleep stop) × (length bs < k) × (length (contents r.1) ≡ pipe_size)
      ⊎ (r.0 ≡ failed) × (length bs < k) × ((not p.readopen || killed stop) ≡ true)

module _ (src : ℕ → Option ℕ) (killed : ℕ → Bool) where
  one_more :
      (k i ch : ℕ) (p : Pipe) (r : WriteEnd × Pipe)
      → src i ≡ some ch
      → contents (put_byte ch p) ≡ contents p ++ (ch ∷ [])
      → Written src killed k (i + 1) (put_byte ch p) r
      → Written src killed (suc k) i p r
  unfolding put_byte
  one_more k i ch p r g e w = record {
    bs = ch ∷ w.bs;
    stop = w.stop;
    rounds = omega (arith, w.rounds);
    fetched = more g w.fetched;
    appended = w.appended ∙ ap (λ l. l ++ w.bs) e ∙ append_assoc (contents p) (ch ∷ []) w.bs;
    valid = w.valid;
    flags = w.flags;
    ends = elim w.ends [
      | inl (x, y) ↦ inl (x, elim y [ inl z ↦ inl (ap suc z) | inr z ↦ inr z ])
      | inr (inl (x, lt, z)) ↦ inr (inl (x, omega arith, z))
      | inr (inr (x, lt, z)) ↦ inr (inr (x, omega arith, z))
    ];
  }

  pub pipewrite_from-Written :
      (k i : ℕ) (p : Pipe) → IsValid p → Written src killed k i p (pipewrite_from src killed k i p)
  unfolding pipewrite_from
  pipewrite_from-Written zero i p v = record {
    bs = [];
    stop = i;
    rounds = omega arith;
    fetched = nothing;
    appended = sym (append-nil (contents p));
    valid = v;
    flags = (refl, refl);
    ends = inl (refl, inl refl);
  }
  pipewrite_from-Written (suc k) i p v = elim (Bool-cases (not p.readopen || killed i)) [
    | inl e ↦ rw e (record {
      bs = [];
      stop = i;
      rounds = omega arith;
      fetched = nothing;
      appended = sym (append-nil (contents p));
      valid = v;
      flags = (refl, refl);
      ends = inr (inr (refl, omega arith, e));
    })
    | inr e ↦ elim (Bool-cases (is_full p)) [
      | inl f ↦
          rw (e, f)
            (record {
              bs = [];
              stop = i;
              rounds = omega arith;
              fetched = nothing;
              appended = sym (append-nil (contents p));
              valid = v;
              flags = (refl, refl);
              ends = inr (inl (refl, omega arith, (full_iff p v).0 f));
            })
      | inr f ↦ elim (Option-cases (src i)) [
        | inl g ↦
            rw (e, f, g)
              (record {
                bs = [];
                stop = i;
                rounds = omega arith;
                fetched = nothing;
                appended = sym (append-nil (contents p));
                valid = v;
                flags = (refl, refl);
                ends = inl (refl, inr g);
              })
        | inr (ch, g) ↦
            (let (new, v') = put_byte-contents p v ch f in
              rw (e, f, g)
                (one_more k i ch p _ g new (pipewrite_from-Written k (i + 1) (put_byte ch p) v')))
      ]
    ]
  ]

-- A run of pipewrite from the start: what it appends is what copyin delivered, in order; it returns
-- the number of bytes when all are written or copyin fails, sleeps only with a full pipe, and fails
-- only when no reader is left or the process is killed.
pub pipewrite-Written :
    (src : ℕ → Option ℕ) (killed : ℕ → Bool) (n : ℕ) (p : Pipe)
    → IsValid p
    → Written src killed n 0 p (pipewrite src killed n p)
unfolding pipewrite
pipewrite-Written src killed n p v = pipewrite_from-Written src killed n 0 p v

-- What the copying loop of piperead did: the bytes `out` left the front of the queue, and one more,
-- `lost`, where copyout failed.
pub record Taken (dst : ℕ → Bool) (k i : ℕ) (p : Pipe) (r : List ℕ × Pipe) : Type 0 where
  pub stop : ℕ
  pub rounds : stop ≡ i + length r.0
  pub lost : List ℕ
  pub removed : contents p ≡ r.0 ++ (lost ++ contents r.1)
  pub valid : IsValid r.1
  pub flags : (r.1.readopen ≡ p.readopen) × (r.1.writeopen ≡ p.writeopen)
  pub ends :
      (lost ≡ []) × ((length r.0 ≡ k) ⊎ (contents r.1 ≡ []) × (length r.0 < k))
      ⊎ (length lost ≡ 1) × (dst stop ≡ false) × (length r.0 < k)

get_byte-flags :
    (p : Pipe) → ((get_byte p).1.readopen ≡ p.readopen) × ((get_byte p).1.writeopen ≡ p.writeopen)
unfolding get_byte
get_byte-flags p = (refl, refl)

module _ (dst : ℕ → Bool) where
  -- What a run of the copying loop of piperead takes is the front of the queue, in order; it stops
  -- after the bytes asked for, at an empty pipe, or when copyout fails, and only then is a byte lost.
  pub piperead_from-Taken :
      (k i : ℕ) (p : Pipe) → IsValid p → Taken dst k i p (piperead_from dst k i p)
  unfolding piperead_from
  piperead_from-Taken zero i p v = record {
    stop = i;
    rounds = omega arith;
    lost = [];
    removed = refl;
    valid = v;
    flags = (refl, refl);
    ends = inl (refl, inl refl);
  }
  piperead_from-Taken (suc k) i p v = elim (Bool-cases (is_empty p)) [
    | inl e ↦ rw e (record {
      stop = i;
      rounds = omega arith;
      lost = [];
      removed = refl;
      valid = v;
      flags = (refl, refl);
      ends = inl (refl, inr (empty_lem p v e, omega arith));
    })
    | inr e ↦
        (let (front, v') = get_byte-contents p v e in
          elim (Bool-cases (dst i)) [
            | inl d ↦
                (let w = piperead_from-Taken k (i + 1) (get_byte p).1 v' in
                  rw (e, d)
                    (record {
                      stop = w.stop;
                      rounds = omega (arith, w.rounds);
                      lost = w.lost;
                      removed = front ∙ ap (λ l. (get_byte p).0 ∷ l) w.removed;
                      valid = w.valid;
                      flags = (w.flags.0 ∙ (get_byte-flags p).0, w.flags.1 ∙ (get_byte-flags p).1);
                      ends = elim w.ends [
                        | inl (x, inl y) ↦ inl (x, inl (ap suc y))
                        | inl (x, inr (y, z)) ↦ inl (x, inr (y, omega arith))
                        | inr (x, y, z) ↦ inr (x, y, omega arith)
                      ];
                    }))
            | inr d ↦
                rw (e, d)
                  (record {
                    stop = i;
                    rounds = omega arith;
                    lost = (get_byte p).0 ∷ [];
                    removed = front;
                    valid = v';
                    flags = get_byte-flags p;
                    ends = inr (refl, d, omega arith);
                  })
          ])
  ]
