-- ===== src/Bio/View.antt =====
-- What bread returns is the cached copy of the block or, if there is none, the block on the disk;
-- recycling a buffer loses nothing.
use snu_os.Base.{
  ℕ, ◌+◌, ◌%◌, ◌<◌, ◌^◌, ◌≡◌, ◌≢◌, refl, sym, ap, ◌∙◌, ◌⊎◌, inl, inr, Bool, true, false, none, some,
  List, [], ◌∷◌, ◌++◌, arith, ◌==◌, ==_iff, if◌then◌else◌, elem, Bool-cases, Option-cases,
}
use mathlib.Core.Path.{subst}
use snu_os.Base.Bytes.{Bytes}
use snu_os.Base.Outcome.{ok, panic}
use snu_os.Bio.{
  Buf, Bcache, root_dev, find, find_last, holds_block, set_buf, recycle, bget, fill, bread_locked,
}
use snu_os.Bio.Scan.{find-some, find-none, find_last-some, find_last-none}

abbrev pub holds_at : Bcache → ℕ → ℕ → Bool
holds_at s b i = holds_block root_dev b (s.bufs i)

-- Block `b`, read through the cache, has the bytes `d`.
abbrev pub Shows : Bcache → ℕ → Bytes → Type 0
Shows s b d =
    ((i : ℕ) × (elem i s.order ≡ true)
      × (holds_at s b i ≡ true)
      × ((s.bufs i).valid ≡ true)
      × ((s.bufs i).content ≡ d))
    ⊎ ((i : ℕ) → elem i s.order ≡ true → holds_at s b i ≡ true → (s.bufs i).valid ≡ false)
      × (s.disk b ≡ d)

-- A block of the disk has at most one buffer, and a buffer that nothing refers to has no changes
-- that the disk lacks.
pub record Inv (s : Bcache) : Type 0 where
  pub once :
      (b i j : ℕ)
      → elem i s.order ≡ true
      → elem j s.order ≡ true
      → holds_at s b i ≡ true
      → holds_at s b j ≡ true
      → i ≡ j
  pub clean :
      (b i : ℕ)
      → elem i s.order ≡ true
      → (s.bufs i).refcnt ≡ 0
      → holds_at s b i ≡ true
      → (s.bufs i).valid ≡ true
      → (s.bufs i).content ≡ s.disk b

module _ (s : Bcache) (v : Inv s) (i : ℕ) (m : elem i s.order ≡ true) where
  -- a change of one buffer that keeps its block and its contents, and refers to it
  keep-Inv :
      (b' : Buf)
      → b'.dev ≡ (s.bufs i).dev
      → b'.blockno ≡ (s.bufs i).blockno
      → b'.refcnt ≢ 0
      → Inv (set_buf i b' s)
  keep-Inv b' e1 e2 busy = record {
    once = λ b j k p q h h'. v.once b j k p q (ground (arith, e1, e2)) (ground (arith, e1, e2));
    clean = λ b j p z h w. elim (Bool-cases (i == j)) [
      | inl t ↦ absurd (ground (arith))
      | inr t ↦ ground (arith, v.clean b j p)
    ];
  }

  keep-Shows :
      (b' : Buf)
      → b'.dev ≡ (s.bufs i).dev
      → b'.blockno ≡ (s.bufs i).blockno
      → b'.valid ≡ (s.bufs i).valid
      → b'.content ≡ (s.bufs i).content
      → (b : ℕ) (d : Bytes) → Shows s b d
      → Shows (set_buf i b' s) b d
  keep-Shows b' e1 e2 e3 e4 b d (inl (j, p, h, w, c)) = elim (Bool-cases (i == j)) [
    | inl t ↦ inl (j, p, ground (arith, e1, e2), ground (arith, e3), ground (arith, e4))
    | inr t ↦ inl (j, p, ground arith, ground arith, ground arith)
  ]
  keep-Shows b' e1 e2 e3 e4 b d (inr (u, c)) = inr (λ j p h. ground (arith, e1, e2, e3, u j p), c)

  -- a buffer that nothing refers to, given another block
  abbrev emptied : ℕ → Buf
  emptied bn = record (s.bufs i) { dev = root_dev; blockno = bn; valid = false; refcnt = 1 }

  recycled-Inv :
      (bn : ℕ)
      → ((j : ℕ) → elem j s.order ≡ true → holds_at s bn j ≡ false)
      → Inv (set_buf i (emptied bn) s)
  recycled-Inv bn absent = record {
    once = λ b j k p q h h'. grind (arith, v.once, absent);
    clean = λ b j p z h w. ground (arith, v.clean b j p);
  }

  recycled-Shows :
      (bn : ℕ)
      → (s.bufs i).refcnt ≡ 0
      → (b : ℕ) (d : Bytes) → Shows s b d
      → Shows (set_buf i (emptied bn) s) b d
  recycled-Shows bn idle b d (inl (j, p, h, w, c)) = elim (Bool-cases (i == j)) [
    | inl t ↦ inr (
      λ k q h'. ground (arith, v.once b j k p q),
      sym (v.clean b j p (ap (λ x. (s.bufs x).refcnt) (sym ((==_iff i j).0 t)) ∙ idle) h w) ∙ c,
    )
    | inr t ↦ inl (j, p, ground arith, ground arith, ground arith)
  ]
  recycled-Shows bn idle b d (inr (u, c)) = inr (λ j p h. ground (arith, u j p), c)

-- What bget and bread leave: the buffer `i` of the cache holds block `bn`, is referred to, and every
-- block reads as before.
pub record Got (bn : ℕ) (s : Bcache) (i : ℕ) (s' : Bcache) : Type 0 where
  pub cached : elem i s'.order ≡ true
  pub block : holds_at s' bn i ≡ true
  pub held : (s'.bufs i).refcnt ≢ 0
  pub inv : Inv s'
  pub same : (b : ℕ) (d : Bytes) → Shows s b d → Shows s' b d

elem-middle : (i : ℕ) (xs ys : List ℕ) → elem i (xs ++ (i ∷ ys)) ≡ true
elem-middle i [] ys = ground arith
elem-middle i (x ∷ xs) ys = ground (arith, elem-middle i xs ys)

module _ (bn : ℕ) (s : Bcache) (v : Inv s) (small : (i : ℕ) → (s.bufs i).refcnt + 1 < 2 ^ 32) where
  bget_hit :
      (i : ℕ)
      → find (λ j. holds_at s bn j) s.order ≡ some i
      → (s' : Bcache) × (bget root_dev bn s ≡ ok (i, s')) × Got bn s i s'
  unfolding bget
  bget_hit i e =
      let (m, h) = find-some (λ j. holds_at s bn j) s.order i e in
      let b' : Buf = record (s.bufs i) { refcnt = ((s.bufs i).refcnt + 1) % 2 ^ 32 } in
      (
        set_buf i b' s,
        rw (e, bget),
        record {
          cached = m;
          block = ground (arith, h);
          held = ground (arith, small i);
          inv = keep-Inv s v i m b' refl refl (omega (arith, small i));
          same = keep-Shows s v i m b' refl refl refl refl;
        },
      )

  bget_miss :
      find (λ j. holds_at s bn j) s.order ≡ none
      → (i : ℕ) → find_last (λ j. (s.bufs j).refcnt == 0) s.order ≡ some i
      → elem i s.order ≡ true
      → (s' : Bcache) × (bget root_dev bn s ≡ ok (i, s')) × Got bn s i s'
  unfolding bget
  bget_miss e i l m =
      let idle : (s.bufs i).refcnt ≡ 0 =
        (==_iff (s.bufs i).refcnt 0).0
          (find_last-some (λ j. (s.bufs j).refcnt == 0) s.order i l).3 in
      (
        set_buf i (emptied s v i m bn) s,
        rw (e, bget) (rw (l, recycle)),
        record {
          cached = m;
          block = ground arith;
          held = ground arith;
          inv = recycled-Inv s v i m bn (λ j p. find-none (λ k. holds_at s bn k) s.order e j p);
          same = recycled-Shows s v i m bn idle;
        },
      )

  -- bget halts only when every buffer is referred to. Otherwise it returns a buffer for the block,
  -- referred to, without changing what any block reads; a block that has no buffer gets the least
  -- recently used of the buffers that nothing refers to.
  pub bget_lem :
      (((i : ℕ) → elem i s.order ≡ true → (s.bufs i).refcnt ≢ 0) × (bget root_dev bn s ≡ panic))
      ⊎ ((i : ℕ) × (s' : Bcache) × (bget root_dev bn s ≡ ok (i, s'))
          × Got bn s i s'
          × ((holds_at s bn i ≡ true)
              ⊎ ((newer : List ℕ) × (older : List ℕ) × (s.order ≡ newer ++ (i ∷ older))
                  × ((s.bufs i).refcnt ≡ 0)
                  × ((j : ℕ) → elem j older ≡ true → (s.bufs j).refcnt ≢ 0))))
  bget_lem = elim (Option-cases (find (λ j. holds_at s bn j) s.order)) [
    | inr (i, e) ↦
        (let (s', e', g) = bget_hit i e in
          inr (i, s', e', g, inl (find-some (λ j. holds_at s bn j) s.order i e).1))
    | inl e ↦ elim (Option-cases (find_last (λ j. (s.bufs j).refcnt == 0) s.order)) [
      | inl l ↦ inl (
        λ i m z. ground (arith, find_last-none (λ j. (s.bufs j).refcnt == 0) s.order l i m),
        full e l,
      )
      | inr (i, l) ↦
          (let (newer, older, at, idle, busy) =
              find_last-some (λ j. (s.bufs j).refcnt == 0) s.order i l in
            let (s', e', g) = bget_miss e i l (rw at (elem-middle i newer older)) in
            inr (
              i,
              s',
              e',
              g,
              inr (newer, older, at, ground (arith, idle), λ j m z. ground (arith, busy j m)),
            ))
    ]
  ]
    where
      full :
          find (λ j. holds_at s bn j) s.order ≡ none
          → find_last (λ j. (s.bufs j).refcnt == 0) s.order ≡ none
          → bget root_dev bn s ≡ panic
      full e l = unfold bget in rw (e, bget) (rw (l, recycle))

module _ (bn i : ℕ) (s : Bcache) (g : Got bn s i s) where
  -- a buffer read from the disk, when it was not valid
  abbrev loaded : Buf → Bcache
  loaded b = set_buf i (record b { content = s.disk b.blockno; valid = true }) s

  loaded-Shows :
      (b' : Buf)
      → b'.dev ≡ (s.bufs i).dev
      → b'.blockno ≡ (s.bufs i).blockno
      → (s.bufs i).valid ≡ false
      → (b : ℕ) (d : Bytes) → Shows s b d
      → Shows (loaded b') b d
  loaded-Shows b' e1 e2 cold b d (inl (j, p, h, w, c)) =
      inl (j, p, ground arith, ground arith, ground arith)
  loaded-Shows b' e1 e2 cold b d (inr (u, c)) = elim (Bool-cases (holds_at s b i)) [
    | inl h ↦ inl (i, g.cached, ground (arith, e1, e2), ground arith, ground (arith, e2))
    | inr h ↦ inr (λ j p h'. ground (arith, e1, e2, u j p), c)
  ]

  loaded-Got :
      (b' : Buf)
      → b'.dev ≡ (s.bufs i).dev
      → b'.blockno ≡ (s.bufs i).blockno
      → b'.refcnt ≡ (s.bufs i).refcnt
      → (s.bufs i).valid ≡ false
      → Shows s bn (s.disk b'.blockno) × Got bn s i (loaded b')
  loaded-Got b' e1 e2 e3 cold = (
    inr (
      λ j p h. ap (λ x. (s.bufs x).valid) (g.inv.once bn j i p g.cached h g.block) ∙ cold,
      ground (arith, g.block, e2),
    ),
    record {
      cached = g.cached;
      block = ground (arith, g.block, e1, e2);
      held = ground (arith, g.held, e3);
      inv =
          keep-Inv s g.inv i g.cached (record b' { content = s.disk b'.blockno; valid = true }) e1
            e2 (λ z. g.held (sym e3 ∙ z));
      same = loaded-Shows b' e1 e2 cold;
    },
  )

  locked-Got :
      (b' : Buf)
      → b'.dev ≡ (s.bufs i).dev
      → b'.blockno ≡ (s.bufs i).blockno
      → b'.refcnt ≡ (s.bufs i).refcnt
      → b'.valid ≡ (s.bufs i).valid
      → b'.content ≡ (s.bufs i).content
      → Got bn s i (set_buf i b' s)
  locked-Got b' e1 e2 e3 e4 e5 = record {
    cached = g.cached;
    block = ground (arith, g.block, e1, e2);
    held = ground (arith, g.held, e3);
    inv = keep-Inv s g.inv i g.cached b' e1 e2 (λ z. g.held (sym e3 ∙ z));
    same = keep-Shows s g.inv i g.cached b' e1 e2 e4 e5;
  }

  fill_lem :
      (((fill i s).bufs i).valid ≡ true)
      × Shows s bn ((fill i s).bufs i).content
      × Got bn s i (fill i s)
  unfolding fill
  fill_lem = elim (Bool-cases (s.bufs i).valid) [
    | inl h ↦
        subst (λ t. ((t.bufs i).valid ≡ true) × Shows s bn (t.bufs i).content × Got bn s i t)
          (sym (ap (λ x. if x then s else loaded (s.bufs i)) h))
          (h, inl (i, g.cached, g.block, h, refl), g)
    | inr h ↦
        subst (λ t. ((t.bufs i).valid ≡ true) × Shows s bn (t.bufs i).content × Got bn s i t)
          (sym (ap (λ x. if x then s else loaded (s.bufs i)) h))
          (
            ground arith,
            subst (λ x. Shows s bn x) (sym fresh) (loaded-Got (s.bufs i) refl refl refl h).0,
            (loaded-Got (s.bufs i) refl refl refl h).1,
          )
  ]
    where
      fresh : ((loaded (s.bufs i)).bufs i).content ≡ s.disk (s.bufs i).blockno
      fresh = ground arith

Shows-unique : (s : Bcache) → Inv s → (b : ℕ) (d d' : Bytes) → Shows s b d → Shows s b d' → d ≡ d'
Shows-unique s v b d d' (inl (i, m, h, w, c)) (inl (j, m', h', w', c')) =
    sym c ∙ ap (λ x. (s.bufs x).content) (v.once b i j m m' h h') ∙ c'
Shows-unique s v b d d' (inl (i, m, h, w, c)) (inr (u, c')) = cc (u i m h)
Shows-unique s v b d d' (inr (u, c)) (inl (i, m, h, w, c')) = cc (u i m h)
Shows-unique s v b d d' (inr (u, c)) (inr (u', c')) = sym c ∙ c'

Got-trans : (bn i : ℕ) (s t u : Bcache) → Got bn s i t → Got bn t i u → Got bn s i u
Got-trans bn i s t u g h = record {
  cached = h.cached;
  block = h.block;
  held = h.held;
  inv = h.inv;
  same = λ b d w. h.same b d (g.same b d w);
}

-- After bread the buffer is valid and holds what the block read as, and every block still reads as
-- before.
pub bread_locked_lem :
    (pid bn i : ℕ) (s s' : Bcache)
    → Got bn s i s
    → bread_locked pid i s ≡ some s'
    → ((s'.bufs i).valid ≡ true)
      × ((d : Bytes) → Shows s bn d → (s'.bufs i).content ≡ d)
      × Got bn s i s'
unfolding bread_locked
bread_locked_lem pid bn i s s' g e = elim (Bool-cases (s.bufs i).lock.locked) [
  | inl h ↦ absurd (ground (arith, h))
  | inr h ↦
      (let (v, shows, done) = fill_lem bn i taken locked in
        subst
          (λ t.
            ((t.bufs i).valid ≡ true)
            × ((d : Bytes) → Shows s bn d → (t.bufs i).content ≡ d)
            × Got bn s i t)
          (fetched h)
          (
            v,
            (λ d w. Shows-unique taken locked.inv bn _ d shows (first.same bn d w)),
            Got-trans bn i s taken (fill i taken) first done,
          ))
]
  where
    taken : Bcache
    taken = set_buf i (record (s.bufs i) { lock = record { locked = true; pid = pid } }) s

    first : Got bn s i taken
    first =
        locked-Got bn i s g (record (s.bufs i) { lock = record { locked = true; pid = pid } }) refl
          refl refl refl refl

    locked : Got bn taken i taken
    locked = record {
      cached = first.cached;
      block = first.block;
      held = first.held;
      inv = first.inv;
      same = λ b d w. w;
    }

    fetched : (s.bufs i).lock.locked ≡ false → fill i taken ≡ s'
    fetched h = ground (arith, h, e)
