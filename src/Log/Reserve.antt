-- ===== src/Log/Reserve.antt =====
-- begin_op, log_write and end_op of concurrent operations: log space is reserved, no block is
-- logged twice, and the log can always be committed.
use mathlib.Core.Path.{subst}
use snu_os.Base.{
  ℕ, Bool, true, false, ◌+◌, ◌-◌, ◌*◌, ◌^◌, ◌≤◌, ◌<◌, ◌≡◌, ◌≢◌, refl, sym, ap, ◌∙◌, ◌⊎◌, inl, inr,
  arith, ◌==◌, ==_iff, Bool-cases, List, [], ◌∷◌, ◌++◌, length, length-append, some, if◌then◌else◌,
}
use snu_os.Base.Bytes.{Bytes, get32}
use snu_os.Base.Words.{sub32}
use snu_os.Base.Outcome.{ok}
use snu_os.Buffers.{Disk, store}
use snu_os.Log.{
  Log, log_size, max_op_blocks, record_block, log_write, begin_op, end_op_enter, end_op_leave,
  commit,
}
use snu_os.Log.Recover.{Outside}
use snu_os.Log.Commit.{CanCommit, Committed, commit-Committed}
use snu_os.Log.Absorb.{Wrote, record_block-Wrote, HasRoom, log_write-ok}
use snu_os.Log.Keeps.{Keeps, Keeps-commit}

-- Where the last end_op stands: no one commits, it has `do_commit` and will commit, or it has committed
-- and will take the lock again.
pub data Phase : Type 0 where
  running committing committed : Phase

-- The log with the operations in progress, each by the number of blocks it has put into the log.
pub record System : Type 0 where
  pub log : Log
  pub ops : List ℕ
  pub phase : Phase

abbrev pub phase_of : Bool → Phase → Phase
phase_of do_commit p = if do_commit then committing else p

-- What the operations may do, in any order: begin when they are let in, change the contents of a
-- cached block outside the log, write a block outside the log while they have logged fewer than
-- `max_op_blocks`, and end. The last of them commits without the lock, so that others may step
-- before and after.
pub data Step (s : System) : System → Type 0 where
  modify :
      (b : ℕ) (d : Bytes)
      → Outside s.log.start s.log.size b
      → Step s (record s { log = record (s.log) { bufs = store b d s.log.bufs } })
  begin : {l : Log} → begin_op s.log ≡ some l → Step s (record s { log = l; ops = 0 ∷ s.ops })
  write :
      (xs ys : List ℕ) (k b : ℕ) {l : Log}
      → s.ops ≡ xs ++ (k ∷ ys)
      → k < max_op_blocks
      → Outside s.log.start s.log.size b
      → b < 2 ^ 32
      → log_write b s.log ≡ ok l
      → Step s (record s { log = l; ops = xs ++ ((k + (l.n - s.log.n)) ∷ ys) })
  finish :
      (xs ys : List ℕ) (k : ℕ) {r : Bool × Log}
      → s.ops ≡ xs ++ (k ∷ ys)
      → end_op_enter s.log ≡ ok r
      → Step s (record { log = r.1; ops = xs ++ ys; phase = phase_of r.0 s.phase })
  write_back : s.phase ≡ committing → Step s (record s { log = commit s.log; phase = committed })
  leave : s.phase ≡ committed → Step s (record s { log = end_op_leave s.log; phase = running })

pub data Reach (l : Log) : System → Type 0 where
  start : Reach l (record { log = l; ops = []; phase = running })
  next : {s t : System} → Reach l s → Step s t → Reach l t

-- The blocks that the operations in progress may still log.
abbrev pub spare : List ℕ → ℕ
spare [] = 0
spare (k ∷ ks) = (max_op_blocks - k) + spare ks

spare-append : (xs ys : List ℕ) → spare (xs ++ ys) ≡ spare xs + spare ys
spare-append [] ys = omega arith
spare-append (x ∷ xs) ys = omega (arith, spare-append xs ys)

-- What `committing` says of the phase.
abbrev pub InPhase : Phase → ℕ → List ℕ → Type 0
InPhase running c ops = c ≡ 0
InPhase committing c ops = (c ≡ 1) × (ops ≡ [])
InPhase committed c ops = (c ≡ 1) × (ops ≡ [])

pub record Inv (s : System) : Type 0 where
  pub can : CanCommit s.log
  pub counted : s.log.outstanding ≡ length s.ops
  pub idle : InPhase s.phase s.log.committing s.ops
  pub reserved : s.log.n + spare s.ops ≤ log_size
  pub many : length s.ops ≤ 3
  pub large : (log_size ≤ s.log.size) × (s.log.size < 2 ^ 31)
  pub once : (i j : ℕ) → i < s.log.n → j < s.log.n → s.log.block i ≡ s.log.block j → i ≡ j

spare-le : (ks : List ℕ) → spare ks ≤ 10 * length ks
spare-le [] = omega arith
spare-le (k ∷ ks) = omega (arith, spare-le ks)

begin_op-some :
    (l : Log) {l' : Log}
    → l.n ≤ log_size
    → l.outstanding ≤ 3
    → begin_op l ≡ some l'
    → (l.committing ≡ 0)
      × (l' ≡ record l { outstanding = l.outstanding + 1 })
      × (l.n + (l.outstanding + 1) * max_op_blocks ≤ log_size)
unfolding begin_op
begin_op-some l few many e = ground arith

-- Nobody is in progress while a commit is.
idle-running :
    (p : Phase) (c : ℕ) (ops : List ℕ)
    → InPhase p c ops
    → (c ≡ 0) ⊎ (ops ≢ [])
    → (p ≡ running) × (c ≡ 0)
idle-running running c ops h e = (refl, h)
idle-running committing c ops h (inl e) = absurd (omega (arith, e, h.0))
idle-running committing c ops h (inr e) = absurd (e h.1)
idle-running committed c ops h (inl e) = absurd (omega (arith, e, h.0))
idle-running committed c ops h (inr e) = absurd (e h.1)

some_op : (xs ys : List ℕ) (k : ℕ) → xs ++ (k ∷ ys) ≢ []
some_op [] ys k e = cc
some_op (x ∷ xs) ys k e = cc

begin-Inv :
    (s : System) {l : Log}
    → Inv s
    → begin_op s.log ≡ some l
    → Inv (record s { log = l; ops = 0 ∷ s.ops })
begin-Inv s {l} v e =
    let (zero_is, e', room) = begin_op-some s.log v.can.few (omega (arith, v.counted, v.many)) e in
    let (run, off) = idle-running s.phase s.log.committing s.ops v.idle (inl zero_is) in
    subst (λ m. Inv (record s { log = m; ops = 0 ∷ s.ops })) (sym e')
      (record {
        can = record {
          few = v.can.few;
          room = v.can.room;
          homes = v.can.homes;
          words = v.can.words;
          empty = v.can.empty;
        };
        counted = omega (arith, v.counted);
        idle = subst (λ p. InPhase p s.log.committing (0 ∷ s.ops)) (sym run) off;
        reserved = omega (arith, v.counted, v.reserved, spare-le s.ops);
        many = omega (arith, v.counted);
        large = v.large;
        once = v.once;
      })

module _ (s : System) (xs ys : List ℕ) (k : ℕ) (v : Inv s) (split : s.ops ≡ xs ++ (k ∷ ys)) where
  ops-length : length s.ops ≡ length xs + length ys + 1
  ops-length = ap length split ∙ length-append xs (k ∷ ys) ∙ omega arith

  ops-spare : spare s.ops ≡ spare xs + (max_op_blocks - k) + spare ys
  ops-spare = ap spare split ∙ spare-append xs (k ∷ ys) ∙ omega arith

  op-running : (s.phase ≡ running) × (s.log.committing ≡ 0)
  op-running =
      idle-running s.phase s.log.committing s.ops v.idle
        (inr (λ e. some_op xs ys k (sym split ∙ e)))

  pub op-few : k < max_op_blocks → s.log.n < log_size
  op-few lt = omega (arith, ops-spare, v.reserved)

  pub write-HasRoom : k < max_op_blocks → s.log.n + 1 < s.log.size → HasRoom s.log
  write-HasRoom lt fits = record {
    few = omega (arith, ops-spare, v.reserved);
    room = omega (arith, fits);
    small = v.large.1;
    inside = (omega (arith, ops-length, v.counted), omega (arith, v.counted, v.many));
  }

module _ (s : System) (v : Inv s) (b : ℕ) (l : Log) (w : Wrote b s.log l) where
  -- where the block at place `j` comes from
  slot :
      (j : ℕ)
      → j < l.n
      → ((j ≡ w.at) × (l.block j ≡ b)) ⊎ ((j ≢ w.at) × (j < s.log.n) × (l.block j ≡ s.log.block j))
  slot j p = elim (Bool-cases (w.at == j)) [
    | inl e ↦ inl (ground arith, ap (λ (f : ℕ → ℕ). f j) w.block ∙ ground arith)
    | inr e ↦
        inr (ground arith, ground (arith, w.found), ap (λ (f : ℕ → ℕ). f j) w.block ∙ ground arith)
  ]

  -- the block behind `at` is nowhere else
  alone : (j : ℕ) → j < s.log.n → j ≢ w.at → s.log.block j ≢ b
  alone j p ne e = elim w.found [
    | inl (lt, here, _) ↦ ne (v.once j w.at p lt (e ∙ sym here))
    | inr (_, _, fresh) ↦ fresh j p e
  ]

  slot-once : (i j : ℕ) → i < l.n → j < l.n → l.block i ≡ l.block j → i ≡ j
  slot-once i j p q e = elim (slot i p) [
    | inl (ei, bi) ↦ elim (slot j q) [
      | inl (ej, bj) ↦ ei ∙ sym ej
      | inr (nj, lj, bj) ↦ absurd (alone j lj nj (sym bj ∙ sym e ∙ bi))
    ]
    | inr (ni, li, bi) ↦ elim (slot j q) [
      | inl (ej, bj) ↦ absurd (alone i li ni (sym bi ∙ e ∙ bj))
      | inr (nj, lj, bj) ↦ v.once i j li lj (sym bi ∙ e ∙ bj)
    ]
  ]

  slot-Outside :
      Outside s.log.start s.log.size b → (j : ℕ) → j < l.n → Outside l.start l.size (l.block j)
  slot-Outside out j p =
      rw (w.same.0, w.same.1)
        (elim (slot j p) [ inl (_, e) ↦ rw e out | inr (_, lj, e) ↦ rw e (v.can.homes j lj) ])

  slot-word : b < 2 ^ 32 → (j : ℕ) → j < l.n → l.block j < 2 ^ 32
  slot-word word j p = elim (slot j p) [
    | inl (_, e) ↦ omega arith
    | inr (_, lj, e) ↦ omega (arith, v.can.words j lj)
  ]

  write-Inv :
      (xs ys : List ℕ) (k : ℕ)
      → s.ops ≡ xs ++ (k ∷ ys)
      → k < max_op_blocks
      → Outside s.log.start s.log.size b
      → b < 2 ^ 32
      → s.log.n + 1 < s.log.size
      → Inv (record s { log = l; ops = xs ++ ((k + (l.n - s.log.n)) ∷ ys) })
  write-Inv xs ys k split lt out word fits = record {
    can = record {
      few = omega (arith, spared, w.found);
      room = omega (arith, spared, w.found, w.same, fits);
      homes = slot-Outside out;
      words = slot-word word;
      empty =
          ap (λ (d : Disk). get32 (d l.start) 0) w.bufs.0
          ∙ ap (λ t. get32 (s.log.bufs.disk t) 0) w.same.0
          ∙ v.can.empty;
    };
    counted = omega (
      arith,
      w.same,
      v.counted,
      ops-length s xs ys k v split,
      length-append xs ((k + (l.n - s.log.n)) ∷ ys),
    );
    idle =
        subst (λ p. InPhase p l.committing (xs ++ ((k + (l.n - s.log.n)) ∷ ys))) (sym at.0)
          (w.same.3 ∙ at.1);
    reserved = omega (arith, spared, w.found, spare-append xs ((k + (l.n - s.log.n)) ∷ ys));
    many = omega (
      arith,
      v.many,
      ops-length s xs ys k v split,
      length-append xs ((k + (l.n - s.log.n)) ∷ ys),
    );
    large = omega (arith, v.large, w.same);
    once = slot-once;
  }
    where
      at : (s.phase ≡ running) × (s.log.committing ≡ 0)
      at = op-running s xs ys k v split

      spared : s.log.n + (spare xs + (max_op_blocks - k) + spare ys) ≤ log_size
      spared = omega (arith, ops-spare s xs ys k v split, v.reserved)

end_op_enter-ok :
    (l : Log)
    → l.committing ≡ 0
    → end_op_enter l
      ≡ ok (
          if sub32 l.outstanding 1 == 0
          then (true, record l { outstanding = sub32 l.outstanding 1; committing = 1 })
          else (false, record l { outstanding = sub32 l.outstanding 1 }))
unfolding end_op_enter
end_op_enter-ok l e = rw e

no_op : (ops : List ℕ) → length ops ≡ 0 → ops ≡ []
no_op [] e = refl
no_op (k ∷ ks) e = absurd (omega (arith, e))

pub finish-Inv :
    (s : System) (xs ys : List ℕ) (k : ℕ)
    → Inv s
    → s.ops ≡ xs ++ (k ∷ ys)
    → (r : Bool × Log) × (end_op_enter s.log ≡ ok r)
      × Inv (record { log = r.1; ops = xs ++ ys; phase = phase_of r.0 s.phase })
finish-Inv s xs ys k v split = elim (Bool-cases (sub32 s.log.outstanding 1 == 0)) [
  | inl e ↦ (
    (true, record (s.log) { outstanding = sub32 s.log.outstanding 1; committing = 1 }),
    end_op_enter-ok s.log at.1 ∙ rw e,
    record {
      can = same_can;
      counted = omega (arith, len, gone, v.many, ops-length s xs ys k v split);
      idle = (
        refl,
        no_op (xs ++ ys) (
            omega (
              arith,
              len,
              gone,
              v.many,
              ops-length s xs ys k v split,
              (==_iff (sub32 s.log.outstanding 1) 0).0 e,
            )),
      );
      reserved = omega (arith, v.reserved, ops-spare s xs ys k v split, spare-append xs ys);
      many = omega (arith, len, gone, v.many, ops-length s xs ys k v split);
      large = v.large;
      once = v.once;
    },
  )
  | inr e ↦ (
    (false, record (s.log) { outstanding = sub32 s.log.outstanding 1 }),
    end_op_enter-ok s.log at.1 ∙ rw e,
    record {
      can = same_can;
      counted = omega (arith, len, gone, v.many, ops-length s xs ys k v split);
      idle = subst (λ p. InPhase p s.log.committing (xs ++ ys)) (sym at.0) at.1;
      reserved = omega (arith, v.reserved, ops-spare s xs ys k v split, spare-append xs ys);
      many = omega (arith, len, gone, v.many, ops-length s xs ys k v split);
      large = v.large;
      once = v.once;
    },
  )
]
  where
    at : (s.phase ≡ running) × (s.log.committing ≡ 0)
    at = op-running s xs ys k v split

    same_can : {o c : ℕ} → CanCommit (record (s.log) { outstanding = o; committing = c })
    same_can = record {
      few = v.can.few;
      room = v.can.room;
      homes = v.can.homes;
      words = v.can.words;
      empty = v.can.empty;
    }

    len : s.log.outstanding ≡ length xs + length ys + 1
    len = v.counted ∙ ops-length s xs ys k v split

    gone : length (xs ++ ys) ≡ length xs + length ys
    gone = length-append xs ys

-- What commit leaves of the invariant.
commit-Inv :
    (s : System)
    → s.phase ≡ committing
    → Inv s
    → Inv (record s { log = commit s.log; phase = committed })
commit-Inv s at v = record {
  can = record {
    few = omega (arith, done.empty);
    room = omega (arith, done.empty, kept, v.large);
    homes = λ j p. absurd (omega (arith, done.empty));
    words = λ j p. absurd (omega (arith, done.empty));
    empty = ap (λ t. get32 ((commit s.log).bufs.disk t) 0) kept.0 ∙ done.empty.1;
  };
  counted = omega (arith, kept, v.counted);
  idle = (omega (arith, kept, here), here.1);
  reserved = omega (arith, done.empty, ap spare here.1);
  many = v.many;
  large = omega (arith, kept, v.large);
  once = λ i j p q h. absurd (omega (arith, done.empty));
}
  where
    here : (s.log.committing ≡ 1) × (s.ops ≡ [])
    here = subst (λ p. InPhase p s.log.committing s.ops) at v.idle

    kept : Keeps s.log (commit s.log)
    kept = Keeps-commit s.log

    done : Committed s.log (commit s.log)
    done = commit-Committed s.log v.can

-- A log_write that does not halt has room.
log_write-fits :
    (b : ℕ) (l m : Log)
    → l.n ≤ log_size
    → (log_size ≤ l.size) × (l.size < 2 ^ 31)
    → log_write b l ≡ ok m
    → l.n + 1 < l.size
unfolding log_write
log_write-fits b l m few large e = ground (arith, e, few, large)

-- Every step keeps the invariant.
pub Step-Inv : {s t : System} → Step s t → Inv s → Inv t
Step-Inv {s} (modify b d out) v = record {
  can = record {
    few = v.can.few;
    room = v.can.room;
    homes = v.can.homes;
    words = v.can.words;
    empty = v.can.empty;
  };
  counted = v.counted;
  idle = v.idle;
  reserved = v.reserved;
  many = v.many;
  large = v.large;
  once = v.once;
}
Step-Inv {s} (begin e) v = begin-Inv s v e
Step-Inv {s} (write xs ys k b {l} split lt out word e) v =
    let fits : s.log.n + 1 < s.log.size = log_write-fits b s.log l v.can.few v.large e in
    let room = write-HasRoom s xs ys k v split lt fits in
    let here : record_block b s.log ≡ l = cc (log_write-ok b s.log room) in
    write-Inv s v b l (subst (λ m. Wrote b s.log m) here (record_block-Wrote b s.log room.few)) xs
      ys k split lt out word fits
Step-Inv {s} (finish xs ys k split e) v =
    let (r, e', w) = finish-Inv s xs ys k v split in
    subst
      (λ (q : Bool × Log). Inv (record { log = q.1; ops = xs ++ ys; phase = phase_of q.0 s.phase }))
      (cc e') w
Step-Inv {s} (write_back at) v = commit-Inv s at v
Step-Inv {s} (leave at) v = record {
  can = record {
    few = v.can.few;
    room = v.can.room;
    homes = v.can.homes;
    words = v.can.words;
    empty = v.can.empty;
  };
  counted = v.counted;
  idle = refl;
  reserved = v.reserved;
  many = v.many;
  large = v.large;
  once = v.once;
}

pub Reach-Inv :
    {l : Log} {s : System} → Inv (record { log = l; ops = []; phase = running }) → Reach l s → Inv s
Reach-Inv v start = v
Reach-Inv v (next r st) = Step-Inv st (Reach-Inv v r)
