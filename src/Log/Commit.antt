-- ===== src/Log/Commit.antt =====
-- commit() against a power failure after any of its disk writes.
use mathlib.Core.Path.{subst}
use snu_os.Base.{
  ℕ, zero, suc, ◌+◌, ◌*◌, ◌^◌, ◌≤◌, ◌<◌, ◌≡◌, refl, sym, ap, ◌∙◌, inl, inr, arith, ◌==◌, ◌||◌,
  ==_iff, Bool-cases, Bool, true, false, List, [], ◌∷◌, ◌++◌, length, if◌then◌else◌,
}
use snu_os.Base.Bytes.{Bytes, get32, put32, get32-put32_self}
use snu_os.Base.Words.{lt_int, rounds, rounds_lem}
use snu_os.Buffers.{Disk, Buffers, bwrite, store, All, Since-refl, Since-cons}
use snu_os.Log.{
  Log, log_size, write_log_from, write_log, install_trans, write_blocks, write_head, commit,
}
use snu_os.Log.Header.{write_blocks_ne, write_blocks_at}
use snu_os.Log.Recover.{
  Outside, Logged, Recoverable, Installing, install_from-Installing, Clean, clear-Clean,
}

-- `b` is one of the first `n` logged blocks.
abbrev pub among : (ℕ → ℕ) → ℕ → ℕ → Bool
among block zero b = false
among block (suc n) b = (block n == b) || among block n b

pub among-at : (block : ℕ → ℕ) (n j : ℕ) → j < n → among block n (block j) ≡ true
among-at block zero j h = absurd (omega arith)
among-at block (suc n) j h = elim (Bool-cases (j == n)) [
  | inl e ↦ ground (arith, ap block ((==_iff j n).0 e))
  | inr e ↦ ground (arith, among-at block n j (ground arith))
]

pub among-index :
    (block : ℕ → ℕ) (n b : ℕ) → among block n b ≡ true → (j : ℕ) × (j < n) × (block j ≡ b)
among-index block zero b h = absurd (ground arith)
among-index block (suc n) b h = elim (Bool-cases (block n == b)) [
  | inl e ↦ (n, omega arith, ground arith)
  | inr e ↦ (let (j, lt, at) = among-index block n b (ground arith) in (j, omega arith, at))
]

-- The disk that the transaction means to make, outside the log.
abbrev pub target : Log → Disk
target l b = if among l.block l.n b then l.bufs.view b else l.bufs.disk b

-- What holds whenever a commit begins: the logged blocks fit the log and lie outside it, and the
-- header on the disk is empty.
pub record CanCommit (l : Log) : Type 0 where
  pub few : l.n ≤ log_size
  pub room : l.n < l.size
  pub homes : (j : ℕ) → j < l.n → Outside l.start l.size (l.block j)
  pub words : (j : ℕ) → j < l.n → l.block j < 2 ^ 32
  pub empty : get32 (l.bufs.disk l.start) 0 ≡ 0

-- write_log before round `tail`; it changes the buffers alone.
record Writing (s : Log) (tail : ℕ) (l : Buffers) : Type 0 where
  disks : (b : ℕ) → Outside s.start s.size b → l.disk b ≡ s.bufs.disk b
  header : l.disk s.start ≡ s.bufs.disk s.start
  views : (b : ℕ) → Outside s.start s.size b → l.view b ≡ s.bufs.view b
  copies :
      (j : ℕ)
      → j < tail
      → (l.view (s.start + j + 1) ≡ s.bufs.view (s.block j))
        × (l.disk (s.start + j + 1) ≡ s.bufs.view (s.block j))
  past :
      (older : List Disk) × (l.history ≡ older ++ s.bufs.history)
      × All (Recoverable s.start s.size s.bufs.disk) older
      × (length older ≡ tail)

module _ (s : Log) (c : CanCommit s) where
  -- While the header is empty, a disk that differs in the log alone is recovered to what it was.
  old-Recoverable :
      (d : Disk)
      → ((b : ℕ) → Outside s.start s.size b → d b ≡ s.bufs.disk b)
      → d s.start ≡ s.bufs.disk s.start
      → Recoverable s.start s.size s.bufs.disk d
  old-Recoverable d same head = (
    0,
    s.block,
    record {
      few = omega arith;
      room = omega (arith, c.room);
      head = ap (λ (b : Bytes). get32 b 0) head ∙ c.empty;
      heads = λ j p. absurd (omega arith);
      homes = λ j p. absurd (omega arith);
      logs = λ j p. absurd (omega arith);
      rest = λ b out. inl (same b out);
    },
  )

  -- the buffers after one round of write_log
  abbrev write_one : ℕ → Buffers → Buffers
  write_one tail l =
      bwrite (s.start + tail + 1) (store (s.start + tail + 1) (l.view (s.block tail)) l)

  write_one-Writing :
      (tail : ℕ) (l : Buffers)
      → tail < s.n
      → Writing s tail l
      → Writing s (tail + 1) (write_one tail l)
  write_one-Writing tail l lt w = record {
    disks = disks;
    header = header;
    views = λ b out. ground (arith, c.room, w.views b out);
    copies = copies;
    past =
        (let (older, e, all, len) = w.past in
          (
            (write_one tail l).disk ∷ older,
            ap (λ h. (write_one tail l).disk ∷ h) e,
            (old-Recoverable (write_one tail l).disk disks header, all),
            omega arith,
          ));
  }
    where
      disks : (b : ℕ) → Outside s.start s.size b → (write_one tail l).disk b ≡ s.bufs.disk b
      disks b out = ground (arith, c.room, w.disks b out)

      header : (write_one tail l).disk s.start ≡ s.bufs.disk s.start
      header = ground (arith, c.room, w.header)

      source : l.view (s.block tail) ≡ s.bufs.view (s.block tail)
      source = w.views (s.block tail) (c.homes tail lt)

      copies :
          (j : ℕ)
          → j < tail + 1
          → ((write_one tail l).view (s.start + j + 1) ≡ s.bufs.view (s.block j))
            × ((write_one tail l).disk (s.start + j + 1) ≡ s.bufs.view (s.block j))
      copies j p = elim (Bool-cases (j == tail)) [
        | inl e ↦ ground (
          arith,
          source,
          ap s.block ((==_iff j tail).0 e),
          ap (λ t. s.bufs.view (s.block t)) ((==_iff j tail).0 e),
        )
        | inr e ↦ ground (arith, w.copies j (ground arith))
      ]

  write_log_from-Writing :
      (k tail : ℕ) (l : Buffers)
      → tail + k ≡ s.n
      → Writing s tail l
      → (l' : Buffers) × (write_log_from k tail (record s { bufs = l }) ≡ record s { bufs = l' })
        × Writing s s.n l'
  unfolding write_log_from
  write_log_from-Writing zero tail l e w =
      (l, refl, (let e' : tail ≡ s.n = omega arith in subst (λ t. Writing s t l) e' w))
  write_log_from-Writing (suc k) tail l e w =
      write_log_from-Writing k (tail + 1) (write_one tail l) (omega arith)
        (write_one-Writing tail l (omega arith) w)

  begun-Writing : Writing s 0 s.bufs
  begun-Writing = record {
    disks = λ b out. refl;
    header = refl;
    views = λ b out. refl;
    copies = λ j p. absurd (omega arith);
    past = ([], refl, tt, refl);
  }

  target-home : (j : ℕ) → j < s.n → target s (s.block j) ≡ s.bufs.view (s.block j)
  target-home j p = rw (among-at s.block s.n j p)

  target-other : (b : ℕ) → among s.block s.n b ≡ false → target s b ≡ s.bufs.disk b
  target-other b e = rw e

  -- the header that write_head stores
  header_words :
      (v : Bytes)
      → (get32 (write_blocks s.n 0 s.block (put32 v 0 s.n)) 0 ≡ s.n)
        × ((j : ℕ)
            → j < s.n
            → get32 (write_blocks s.n 0 s.block (put32 v 0 s.n)) (4 + 4 * j) ≡ s.block j)
  header_words v = (
    write_blocks_ne s.n 0 s.block (put32 v 0 s.n) 0 (inl (omega arith))
        ∙ get32-put32_self v 0 s.n
        ∙ omega (arith, c.few),
    λ j p.
        write_blocks_at s.n 0 s.block (put32 v 0 s.n) j (omega arith) (omega arith) (c.words j p),
  )

  -- Once the header is written the transaction is on the disk.
  committed-Logged :
      (d : Disk)
      → (get32 (d s.start) 0 ≡ s.n)
      → ((j : ℕ) → j < s.n → get32 (d s.start) (4 + 4 * j) ≡ s.block j)
      → ((j : ℕ) → j < s.n → d (s.start + j + 1) ≡ s.bufs.view (s.block j))
      → ((b : ℕ) → Outside s.start s.size b → d b ≡ s.bufs.disk b)
      → Logged s.start s.size s.n s.block (target s) d
  committed-Logged d head heads copies same = record {
    few = c.few;
    room = c.room;
    head = head;
    heads = heads;
    homes = c.homes;
    logs = λ j p. copies j p ∙ sym (target-home j p);
    rest = λ b out. elim (Bool-cases (among s.block s.n b)) [
      | inl e ↦ inr (among-index s.block s.n b e)
      | inr e ↦ inl (same b out ∙ sym (target-other b e))
    ];
  }

  turns : rounds s.n ≡ s.n
  turns = rounds_lem s.n (omega (arith, c.few))

  -- the buffers after the header is written
  abbrev head_one : Buffers → Buffers
  head_one l =
      bwrite s.start (store s.start (write_blocks s.n 0 s.block (put32 (l.view s.start) 0 s.n)) l)

  write_head_lem :
      (l : Buffers) → write_head (record s { bufs = l }) ≡ record s { bufs = head_one l }
  unfolding write_head
  write_head_lem l =
      ap
        (λ k. record s {
          bufs =
              bwrite s.start
                (store s.start (write_blocks k 0 s.block (put32 (l.view s.start) 0 s.n)) l);
        })
        turns

  head_one-Installing :
      (l : Buffers)
      → Writing s s.n l
      → Installing s.start s.size s.n (target s) l.history 0 (record s { bufs = head_one l })
  head_one-Installing l w = record {
    at = refl;
    logged = committed;
    views = λ j p. ground (arith, c.room, w.copies j p) ∙ sym (target-home j p);
    pending = λ b out. elim (committed.rest b out) [
      | inl e ↦ inl e
      | inr (j, lt, e) ↦ inr (j, omega arith, lt, e)
    ];
    past =
        Since-cons (Recoverable s.start s.size (target s)) l.history _ l.history
          (s.n, s.block, committed) (Since-refl (Recoverable s.start s.size (target s)) l.history);
  }
    where
      hb : Bytes
      hb = write_blocks s.n 0 s.block (put32 (l.view s.start) 0 s.n)

      new : (head_one l).disk s.start ≡ hb
      new = ground arith

      committed : Logged s.start s.size s.n s.block (target s) (head_one l).disk
      committed =
          committed-Logged (head_one l).disk
            (ap (λ (b : Bytes). get32 b 0) new ∙ (header_words (l.view s.start)).0)
            (λ j p.
              ap (λ (b : Bytes). get32 b (4 + 4 * j)) new ∙ (header_words (l.view s.start)).1 j p)
            (λ j p. ground (arith, c.room, w.copies j p))
            (λ b out. ground (arith, c.room, w.disks b out))

-- The history of a commit: first `n` disks that recovery takes back to the old contents, then
-- only disks that it takes to the new; and the commit itself ends with the new contents.
pub record Committed (s l : Log) : Type 0 where
  pub newer : List Disk
  pub older : List Disk
  pub writes : l.bufs.history ≡ newer ++ (older ++ s.bufs.history)
  pub before : All (Recoverable s.start s.size s.bufs.disk) older
  pub point : length older ≡ s.n
  pub after : All (Recoverable s.start s.size (target s)) newer
  pub empty : (l.n ≡ 0) × (get32 (l.bufs.disk s.start) 0 ≡ 0)
  pub blocks : (b : ℕ) → Outside s.start s.size b → l.bufs.disk b ≡ target s b

module _ (s : Log) (c : CanCommit s) where
  commit-zero : s.n ≡ 0 → commit s ≡ s
  unfolding commit
  commit-zero e =
      let t : lt_int 0 s.n ≡ false = ground arith in
      ap
        (λ b.
          if b
          then write_head (record (install_trans false (write_head (write_log s))) { n = 0 })
          else s)
        t

  commit-pos :
      0 < s.n
      → commit s ≡ write_head (record (install_trans false (write_head (write_log s))) { n = 0 })
  unfolding commit
  commit-pos h =
      let t : lt_int 0 s.n ≡ true = ground (arith, c.few) in
      ap
        (λ b.
          if b
          then write_head (record (install_trans false (write_head (write_log s))) { n = 0 })
          else s)
        t

  finished :
      (l : Buffers)
      → Writing s s.n l
      → Committed s
          (write_head (record (install_trans false (record s { bufs = head_one s c l })) { n = 0 }))
  unfolding install_trans
  finished l w = record {
    newer = clean.past.0;
    older = w.past.0;
    writes = clean.past.1 ∙ ap (λ h. clean.past.0 ++ h) w.past.1;
    before = w.past.2;
    point = w.past.3;
    after = clean.past.2;
    empty = (clean.none_left, clean.header);
    blocks = clean.blocks;
  }
    where
      clean :
          Clean s.start s.size (target s) l.history (
            write_head
              (record (install_trans false (record s { bufs = head_one s c l })) { n = 0 }))
      clean =
          clear-Clean s.start s.size s.n (target s) l.history
            (install_trans false (record s { bufs = head_one s c l }))
            (install_from-Installing s.start s.size s.n (target s) l.history false (rounds s.n) 0
              (record s { bufs = head_one s c l }) (omega (arith, turns s c))
              (head_one-Installing s c l w))

  written : (l : Buffers) × (write_log s ≡ record s { bufs = l }) × Writing s s.n l
  unfolding write_log
  written =
      write_log_from-Writing s c (rounds s.n) 0 s.bufs (omega (arith, turns s c))
        (begun-Writing s c)

  nothing : s.n ≡ 0 → Committed s s
  nothing e = record {
    newer = [];
    older = [];
    writes = refl;
    before = tt;
    point = sym e;
    after = tt;
    empty = (e, c.empty);
    blocks = λ b out. sym (ap (λ n. if among s.block n b then s.bufs.view b else s.bufs.disk b) e);
  }

-- commit is atomic: whatever of its writes reach the disk, recovery makes either the old or the
-- new contents outside the log, and the new ones exactly from the write of the header on, the one
-- behind the `n` writes to the log.
pub commit-Committed : (s : Log) → CanCommit s → Committed s (commit s)
commit-Committed s c = elim (Bool-cases (s.n == 0)) [
  | inl e ↦
      subst (λ l. Committed s l) (sym (commit-zero s c (ground arith))) (nothing s c (ground arith))
  | inr e ↦
      (let (l, at, w) = written s c in
        subst (λ m. Committed s m)
          (sym (
            commit-pos s c (ground arith)
            ∙ ap (λ m. write_head (record (install_trans false m) { n = 0 }))
                (ap write_head at ∙ write_head_lem s c l)))
          (finished s c l w))
]
