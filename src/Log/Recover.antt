-- ===== src/Log/Recover.antt =====
-- What recovery makes of a disk on which a transaction has committed or none has.
use snu_os.Base.{
  ℕ, zero, suc, ◌+◌, ◌*◌, ◌≤◌, ◌<◌, ◌≡◌, refl, sym, ap, ◌∙◌, ◌⊎◌, inl, inr, arith, update, ◌==◌,
  ==_iff, Bool-cases, Bool, true, false, List, [],
}
use mathlib.Core.Path.{subst}
use snu_os.Base.Outcome.{ok}
use snu_os.Base.Bytes.{Bytes, get32, put32, get32-put32_self}
use snu_os.Base.Words.{rounds, rounds_lem}
use snu_os.Buffers.{Disk, boot, bwrite, store, Since, Since-refl, Since-cons}
use snu_os.Log.{
  Log, log_size, install_from, install_trans, read_head, write_head, recover_from_log, fresh_log,
  initlog,
}
use snu_os.Log.Header.{read_blocks_at}

-- `b` is no block of the log.
abbrev pub Outside : ℕ → ℕ → ℕ → Type 0
Outside start size b = (b < start) ⊎ (start + size ≤ b)

-- The header of `d` names the `n` blocks `home`, the log holds what `f` has in them, and every
-- other block outside the log is as in `f`.
pub record Logged (start size n : ℕ) (home : ℕ → ℕ) (f d : Disk) : Type 0 where
  pub few : n ≤ log_size
  pub room : n < size
  pub head : get32 (d start) 0 ≡ n
  pub heads : (j : ℕ) → j < n → get32 (d start) (4 + 4 * j) ≡ home j
  pub homes : (j : ℕ) → j < n → Outside start size (home j)
  pub logs : (j : ℕ) → j < n → d (start + j + 1) ≡ f (home j)
  pub rest : (b : ℕ) → Outside start size b → (d b ≡ f b) ⊎ ((j : ℕ) × (j < n) × (home j ≡ b))

-- A disk from which recovery makes `f`, outside the log.
abbrev pub Recoverable : ℕ → ℕ → Disk → Disk → Type 0
Recoverable start size f d = (n : ℕ) × (home : ℕ → ℕ) × Logged start size n home f d

module _ (start size n : ℕ) (home : ℕ → ℕ) (f : Disk) where
  rest-update :
      (d : Disk) (h b : ℕ) (x : Bytes)
      → x ≡ f h
      → ((d b ≡ f b) ⊎ ((j : ℕ) × (j < n) × (home j ≡ b)))
      → (update d h x b ≡ f b) ⊎ ((j : ℕ) × (j < n) × (home j ≡ b))
  rest-update d h b x e r = elim (Bool-cases (h == b)) [
    | inl same ↦ inl (rw same (e ∙ ap f ((==_iff h b).0 same)))
    | inr other ↦ rw other r
  ]

  -- Installing one more block keeps all of this.
  pub Logged-update :
      (d : Disk) (j : ℕ)
      → j < n
      → Logged start size n home f d
      → Logged start size n home f (update d (home j) (f (home j)))
  Logged-update d j lt g = record {
    few = g.few;
    room = g.room;
    head = rw at_start g.head;
    heads = λ i p. rw at_start (g.heads i p);
    homes = g.homes;
    logs = λ i p. at_log i p ∙ g.logs i p;
    rest = λ b out. rest-update d (home j) b (f (home j)) refl (g.rest b out);
  }
    where
      at_start : update d (home j) (f (home j)) start ≡ d start
      at_start = ground (arith, g.homes j lt, g.room)

      at_log : (i : ℕ) → i < n → update d (home j) (f (home j)) (start + i + 1) ≡ d (start + i + 1)
      at_log i p = ground (arith, g.homes j lt, g.room)

-- install_trans before round `tail`: the disk can be recovered to `f` at any moment, and only
-- blocks that are still to come differ from it.
pub record Installing (start size n : ℕ) (f : Disk) (base : List Disk) (tail : ℕ) (l : Log)
    : Type 0 where
  pub at : l.start ≡ start
  pub logged : Logged start size n l.block f l.bufs.disk
  pub views : (j : ℕ) → j < n → l.bufs.view (start + j + 1) ≡ f (l.block j)
  pub pending :
      (b : ℕ)
      → Outside start size b
      → (l.bufs.disk b ≡ f b) ⊎ ((j : ℕ) × (tail ≤ j) × (j < n) × (l.block j ≡ b))
  pub past : Since (Recoverable start size f) base l.bufs.history

-- the state after one round, without the reference that install_trans gives back
abbrev pub install_one : ℕ → Log → Log
install_one tail l = record l {
  bufs = bwrite (l.block tail) (store (l.block tail) (l.bufs.view (l.start + tail + 1)) l.bufs);
}

module _ (start size n : ℕ) (f : Disk) (base : List Disk) where
  pending-update :
      (d : Disk) (home : ℕ → ℕ) (tail b : ℕ) (x : Bytes)
      → x ≡ f (home tail)
      → ((d b ≡ f b) ⊎ ((j : ℕ) × (tail ≤ j) × (j < n) × (home j ≡ b)))
      → (update d (home tail) x b ≡ f b) ⊎ ((j : ℕ) × (tail + 1 ≤ j) × (j < n) × (home j ≡ b))
  pending-update d home tail b x e r = elim (Bool-cases (home tail == b)) [
    | inl same ↦ inl (rw same (e ∙ ap f ((==_iff (home tail) b).0 same)))
    | inr other ↦ rw other (elim r [
      | inl done ↦ inl done
      | inr (j, le, lt, at) ↦ inr (j, later j le at other, lt, at)
    ])
  ]
    where
      later : (j : ℕ) → tail ≤ j → home j ≡ b → (home tail == b) ≡ false → tail + 1 ≤ j
      later j le at other = elim (Bool-cases (tail == j)) [
        | inl same ↦ absurd (ground (arith, ap home ((==_iff tail j).0 same)))
        | inr ne ↦ ground arith
      ]

  install_one-Installing :
      (tail : ℕ) (l : Log)
      → tail < n
      → Installing start size n f base tail l
      → Installing start size n f base (tail + 1) (install_one tail l)
  install_one-Installing tail l lt g = record {
    at = g.at;
    logged = after;
    views = λ j p. ground (arith, g.logged.homes tail lt, g.logged.room, g.views j p);
    pending = λ b out. pending-update l.bufs.disk l.block tail b _ stored (g.pending b out);
    past =
        Since-cons (Recoverable start size f) base (install_one tail l).bufs.disk l.bufs.history
          (n, l.block, after) g.past;
  }
    where
      fetched : l.bufs.view (l.start + tail + 1) ≡ f (l.block tail)
      fetched = rw g.at (g.views tail lt)

      stored :
          update l.bufs.view (l.block tail) (l.bufs.view (l.start + tail + 1)) (l.block tail)
          ≡ f (l.block tail)
      stored = ground (arith, fetched)

      after : Logged start size n l.block f (install_one tail l).bufs.disk
      after = rw stored (Logged-update start size n l.block f l.bufs.disk tail lt g.logged)

  -- The pins play no part.
  unpinned-Installing :
      (tail : ℕ) (l : Log) (pins : ℕ → ℕ)
      → Installing start size n f base tail l
      → Installing start size n f base tail (record l { bufs = record (l.bufs) { pins = pins } })
  unpinned-Installing tail l pins g = record {
    at = g.at;
    logged = g.logged;
    views = g.views;
    pending = g.pending;
    past = g.past;
  }

  pub install_from-Installing :
      (recovering : Bool) (k tail : ℕ) (l : Log)
      → tail + k ≡ n
      → Installing start size n f base tail l
      → Installing start size n f base n (install_from recovering k tail l)
  unfolding install_from
  install_from-Installing r zero tail l e g =
      let e' : tail ≡ n = omega arith in subst (λ t. Installing start size n f base t l) e' g
  install_from-Installing true (suc k) tail l e g =
      install_from-Installing true k (tail + 1) (install_one tail l) (omega arith)
        (install_one-Installing tail l (omega arith) g)
  install_from-Installing false (suc k) tail l e g =
      install_from-Installing false k (tail + 1) _ (omega arith) (
        unpinned-Installing (tail + 1) (install_one tail l) _
          (install_one-Installing tail l (omega arith) g))

-- The log is empty on the disk and in memory, and outside it the disk is `f`.
pub record Clean (start size : ℕ) (f : Disk) (base : List Disk) (l : Log) : Type 0 where
  pub at : l.start ≡ start
  pub none_left : l.n ≡ 0
  pub header : get32 (l.bufs.disk start) 0 ≡ 0
  pub blocks : (b : ℕ) → Outside start size b → l.bufs.disk b ≡ f b
  pub past : Since (Recoverable start size f) base l.bufs.history

module _ (start size n : ℕ) (f : Disk) (base : List Disk) (l : Log) where
  installed :
      Installing start size n f base n l → (b : ℕ) → Outside start size b → l.bufs.disk b ≡ f b
  installed g b out = elim (g.pending b out) [
    | inl e ↦ e
    | inr (j, le, lt, at) ↦ absurd (omega arith)
  ]

  -- the write of an empty header, behind install_trans
  pub clear-Clean :
      Installing start size n f base n l → Clean start size f base (write_head (record l { n = 0 }))
  unfolding write_head
  clear-Clean g = record {
    at = g.at;
    none_left = refl;
    header = header;
    blocks = blocks;
    past =
        Since-cons (Recoverable start size f) base _ l.bufs.history
          (
            0,
            l.block,
            record {
              few = omega arith;
              room = omega (arith, g.logged.room);
              head = header;
              heads = λ j p. absurd (omega arith);
              homes = λ j p. absurd (omega arith);
              logs = λ j p. absurd (omega arith);
              rest = λ b out. inl (blocks b out);
            },
          )
          g.past;
  }
    where
      hb : Bytes
      hb = put32 (l.bufs.view l.start) 0 0

      new : update l.bufs.disk l.start (update l.bufs.view l.start hb l.start) start ≡ hb
      new = ground (arith, g.at)

      header :
          get32 (update l.bufs.disk l.start (update l.bufs.view l.start hb l.start) start) 0 ≡ 0
      header = ap (λ (b : Bytes). get32 b 0) new ∙ get32-put32_self (l.bufs.view l.start) 0 0

      blocks :
          (b : ℕ)
          → Outside start size b
          → update l.bufs.disk l.start (update l.bufs.view l.start hb l.start) b ≡ f b
      blocks b out = ground (arith, g.at, g.logged.room, installed g b out)

module _ (start size : ℕ) (f : Disk) where
  Logged-rehome :
      (n : ℕ) (home home' : ℕ → ℕ) (d : Disk)
      → ((j : ℕ) → j < n → home' j ≡ home j)
      → Logged start size n home f d
      → Logged start size n home' f d
  Logged-rehome n home home' d e g = record {
    few = g.few;
    room = g.room;
    head = g.head;
    heads = λ j p. g.heads j p ∙ sym (e j p);
    homes = λ j p. rw (e j p) (g.homes j p);
    logs = λ j p. rw (e j p) (g.logs j p);
    rest = λ b out. elim (g.rest b out) [
      | inl same ↦ inl same
      | inr (j, lt, at) ↦ inr (j, lt, e j lt ∙ at)
    ];
  }

  -- Recovery installs what has committed, ends with an empty log, and can itself be cut off after
  -- any of its writes and started again.
  recover_from_log-Clean :
      (base : List Disk)
      → (l : Log) → l.start ≡ start
      → ((b : ℕ) → l.bufs.view b ≡ l.bufs.disk b)
      → Since (Recoverable start size f) base l.bufs.history
      → Recoverable start size f l.bufs.disk
      → Clean start size f base (recover_from_log l)
  unfolding recover_from_log
  recover_from_log-Clean base l at cold past (n, home, g) =
      clear-Clean start size n f base (install_trans true (read_head l)) (
        install_from-Installing start size n f base true (rounds (read_head l).n) 0 (read_head l)
          (omega (arith, turns)) begun)
    where
      count : (read_head l).n ≡ n
      count =
          ap (λ b. get32 (l.bufs.view b) 0) at ∙ ap (λ (b : Bytes). get32 b 0) (cold start) ∙ g.head

      turns : rounds (read_head l).n ≡ n
      turns = rw count (rounds_lem n (omega (arith, g.few)))

      same : (j : ℕ) → j < n → (read_head l).block j ≡ home j
      same j p =
          read_blocks_at (rounds (read_head l).n) 0 (l.bufs.view l.start) l.block j (omega arith)
            (omega (arith, turns))
          ∙ ap (λ b. get32 (l.bufs.view b) (4 + 4 * j)) at
          ∙ ap (λ (b : Bytes). get32 b (4 + 4 * j)) (cold start)
          ∙ g.heads j p

      begun : Installing start size n f base 0 (read_head l)
      begun = record {
        at = at;
        logged = Logged-rehome n home (read_head l).block l.bufs.disk same g;
        views = λ j p. cold (start + j + 1) ∙ g.logs j p ∙ ap f (sym (same j p));
        pending = λ b out. elim (g.rest b out) [
          | inl e ↦ inl e
          | inr (j, lt, e) ↦ inr (j, omega arith, lt, same j lt ∙ e)
        ];
        past = past;
      }

  -- `initlog` after a restart on a recoverable disk does not halt, leaves `f` outside an empty log,
  -- and every disk that it goes through is recoverable to `f` again.
  pub initlog-Clean :
      (d : Disk)
      → Recoverable start size f d
      → (l : Log) × (initlog start size (boot d) ≡ ok l) × Clean start size f [] l
  unfolding initlog
  initlog-Clean d g = (
    recover_from_log (fresh_log start size (boot d)),
    refl,
    recover_from_log-Clean [] (fresh_log start size (boot d)) refl (λ b. refl)
        (Since-refl (Recoverable start size f) []) g,
  )
