-- ===== src/Fs/Blocks/Laws.antt =====
-- The free map before and after balloc and bfree.
use snu_os.Base.{
  ℕ, zero, suc, ◌+◌, ◌-◌, ◌*◌, ◌/◌, ◌%◌, ◌≤◌, ◌<◌, ◌≡◌, ◌≢◌, sym, ap, ◌∙◌, ◌⊎◌, inl, inr, false,
  none, some, arith, min, ltb, ◌==◌, ==_iff, if◌then◌else◌, update, update_self, Bool-cases,
  Option-cases,
}
use mathlib.Core.Path.{subst}
use snu_os.Base.Bytes.{Bytes}
use snu_os.Base.Outcome.{ok, panic, >>=-eq-ok}
use snu_os.Buffers.{Disk, store}
use snu_os.Log.{Log, log_write}
use snu_os.Log.Absorb.{log_write-eq, record_block-view}
use snu_os.Fs.{Superblock}
use snu_os.Fs.Bits.{bit-set_bit, bit-clear_bit}
use snu_os.Fs.Blocks.{
  bpb, bblock, store_logged, bzero, map_bit, mark, unmark, first_free, take_block, balloc_from,
  balloc, bfree,
}

-- The bit of block `x`, as the buffers show the free map: 0 is free.
abbrev pub used : Superblock → Log → ℕ → ℕ
used sb l x = map_bit (l.bufs.view (bblock x sb)) (x % bpb)

log_write-view : (b : ℕ) (l l' : Log) → log_write b l ≡ ok l' → l'.bufs.view ≡ l.bufs.view
log_write-view b l l' e = ap (λ (x : Log). x.bufs.view) (log_write-eq b l e) ∙ record_block-view b l

map_bit-mark :
    (bytes : Bytes) (i j : ℕ) → map_bit (mark bytes i) j ≡ (if i == j then 1 else map_bit bytes j)
map_bit-mark bytes i j = ground (arith, bit-set_bit (bytes (i / 8)) (i % 8) (j % 8))

map_bit-unmark :
    (bytes : Bytes) (i j : ℕ) → map_bit (unmark bytes i) j ≡ (if i == j then 0 else map_bit bytes j)
map_bit-unmark bytes i j = ground (arith, bit-clear_bit (bytes (i / 8)) (i % 8) (j % 8))

first_free-some :
    (k bi : ℕ) (bytes : Bytes) (i : ℕ)
    → first_free k bi bytes ≡ some i
    → (bi ≤ i) × (i < bi + k) × (map_bit bytes i ≡ 0)
unfolding first_free
first_free-some zero bi bytes i e = cc
first_free-some (suc k) bi bytes i e = ground (arith, first_free-some k (bi + 1) bytes i)

first_free-none :
    (k bi : ℕ) (bytes : Bytes)
    → first_free k bi bytes ≡ none
    → (i : ℕ) → bi ≤ i
    → i < bi + k
    → map_bit bytes i ≢ 0
unfolding first_free
first_free-none zero bi bytes e i lo hi z = absurd (omega arith)
first_free-none (suc k) bi bytes e i lo hi z = elim (Bool-cases (i == bi)) [
  | inl h ↦ ground (arith, ap (λ x. map_bit bytes x) ((==_iff i bi).0 h))
  | inr h ↦ first_free-none k (bi + 1) bytes (ground arith) i (ground arith) (omega arith) z
]

pub store_logged-view :
    (b : ℕ) (bytes : Bytes) (l l' : Log)
    → store_logged b bytes l ≡ ok l'
    → l'.bufs.view ≡ update l.bufs.view b bytes
unfolding store_logged
store_logged-view b bytes l l' e = log_write-view b (record l { bufs = store b bytes l.bufs }) l' e

-- What balloc has done when it returns block `r`: `r` was free and is marked, its bytes are zeroed,
-- and nothing else has changed.
pub record Allocated (sb : Superblock) (l : Log) (r : ℕ) (l' : Log) : Type 0 where
  pub range : r < sb.size
  pub was_free : used sb l r ≡ 0
  pub zeroed : (o : ℕ) → l'.bufs.view r o ≡ 0
  pub marked : (x : ℕ) → bblock x sb ≢ r → used sb l' x ≡ (if r == x then 1 else used sb l x)
  pub others : (b : ℕ) → b ≢ r → b ≢ bblock r sb → l'.bufs.view b ≡ l.bufs.view b

module _ (sb : Superblock) (b bi : ℕ) (l l' : Log) (al : b % bpb ≡ 0) (lo : bi < bpb)
    (hi : b + bi < sb.size) where
  -- the buffers that take_block leaves
  abbrev taken_view : Disk
  taken_view =
      update (update l.bufs.view (bblock b sb) (mark (l.bufs.view (bblock b sb)) bi)) (b + bi)
        (λ _. 0)

  same_block : bblock (b + bi) sb ≡ bblock b sb
  same_block = omega arith

  marked_at :
      (x : ℕ)
      → bblock x sb ≢ b + bi
      → map_bit (taken_view (bblock x sb)) (x % bpb) ≡ (if b + bi == x then 1 else used sb l x)
  marked_at x ne = elim (Bool-cases (bblock b sb == bblock x sb)) [
    | inl e ↦ ground (
      arith,
      map_bit-mark (l.bufs.view (bblock b sb)) bi (x % bpb),
      ap (λ y. map_bit (l.bufs.view y) (x % bpb)) ((==_iff (bblock b sb) (bblock x sb)).0 e),
    )
    | inr e ↦ ground (arith)
  ]

  Allocated-taken :
      map_bit (l.bufs.view (bblock b sb)) bi ≡ 0
      → l'.bufs.view ≡ taken_view
      → Allocated sb l (b + bi) l'
  Allocated-taken free e = record {
    range = hi;
    was_free =
        ap (λ y. map_bit (l.bufs.view y) ((b + bi) % bpb)) same_block
        ∙ ap (λ y. map_bit (l.bufs.view (bblock b sb)) y) (omega arith)
        ∙ free;
    zeroed = λ o.
        ap (λ (v : Disk). v (b + bi) o) e
        ∙ ap (λ (v : Bytes). v o)
            (update_self (update l.bufs.view (bblock b sb) (mark (l.bufs.view (bblock b sb)) bi))
              (b + bi) (λ _. 0));
    marked = λ x ne. ap (λ (v : Disk). map_bit (v (bblock x sb)) (x % bpb)) e ∙ marked_at x ne;
    others = λ c n1 n2. ap (λ (v : Disk). v c) e ∙ ground (arith, same_block);
  }

  take_block-Allocated :
      (r : ℕ)
      → map_bit (l.bufs.view (bblock b sb)) bi ≡ 0
      → take_block sb b bi l ≡ ok (r, l')
      → Allocated sb l r l'
  unfolding take_block bzero
  take_block-Allocated r free e =
      let (m, em, e1) =
        >>=-eq-ok (store_logged (bblock b sb) (mark (l.bufs.view (bblock b sb)) bi) l) _ e in
      let (z, ez, e2) = >>=-eq-ok (bzero (b + bi) m) _ e1 in
      let at : b + bi ≡ r = ground arith in
      let end : z ≡ l' = cc e2 in
      subst (λ x. Allocated sb l x l') at
        (Allocated-taken free (
          ap (λ (x : Log). x.bufs.view) (sym end)
          ∙ store_logged-view (b + bi) (λ _. 0) m z ez
          ∙ ap (λ v. update v (b + bi) (λ _. 0))
              (store_logged-view (bblock b sb) (mark (l.bufs.view (bblock b sb)) bi) l m em)))

-- What balloc has done when it returns.
abbrev pub Balloc : Superblock → Log → ℕ → Log → Type 0
Balloc sb l r l' =
    Allocated sb l r l' ⊎ ((r ≡ 0) × (l' ≡ l) × ((x : ℕ) → x < sb.size → used sb l x ≢ 0))

balloc_from-Balloc :
    (k b : ℕ) (sb : Superblock) (l : Log) (r : ℕ) (l' : Log)
    → b % bpb ≡ 0
    → sb.size ≤ b + k * bpb
    → ((x : ℕ) → x < b → x < sb.size → used sb l x ≢ 0)
    → balloc_from k b sb l ≡ ok (r, l')
    → Balloc sb l r l'
unfolding balloc_from
balloc_from-Balloc zero b sb l r l' al top before e =
    inr (ground arith, cc, λ x lt. before x (omega arith) lt)
balloc_from-Balloc (suc k) b sb l r l' al top before e =
    elim (Option-cases (first_free (min bpb (sb.size - b)) 0 (l.bufs.view (bblock b sb)))) [
      | inl n ↦
          balloc_from-Balloc k (b + bpb) sb l r l' (omega arith) (omega arith) (scanned n)
            (rw (n, balloc_from) at e)
      | inr (bi, s) ↦
          (let (_, lt, free) =
              first_free-some (min bpb (sb.size - b)) 0 (l.bufs.view (bblock b sb)) bi s in
            inl (
              take_block-Allocated sb b bi l l' al (omega arith) (omega arith) r free
                (rw (s, balloc_from) at e)))
    ]
  where
    scanned :
        first_free (min bpb (sb.size - b)) 0 (l.bufs.view (bblock b sb)) ≡ none
        → (x : ℕ) → x < b + bpb
        → x < sb.size
        → used sb l x ≢ 0
    scanned n x lt hi z = elim (Bool-cases (ltb x b)) [
      | inl h ↦ before x (ground arith) hi z
      | inr h ↦
          first_free-none (min bpb (sb.size - b)) 0 (l.bufs.view (bblock b sb)) n (x - b)
            (omega arith) (ground arith)
            (sym (
                ap (λ y. map_bit (l.bufs.view y) (x % bpb)) (ground arith)
                ∙ ap (λ y. map_bit (l.bufs.view (bblock b sb)) y) (ground arith))
              ∙ z)
    ]

-- balloc returns a block that was free, marked and zeroed and with no other change to the free map
-- or to any other block; or it returns 0, changes nothing, and no block is free.
pub balloc-Balloc :
    (sb : Superblock) (l : Log) (r : ℕ) (l' : Log) → balloc sb l ≡ ok (r, l') → Balloc sb l r l'
unfolding balloc
balloc-Balloc sb l r l' e =
    balloc_from-Balloc ((sb.size + bpb - 1) / bpb) 0 sb l r l' (omega arith) (omega arith)
      (λ x lt. absurd (omega arith)) e

-- bfree halts on a free block. On a used one it clears that block's bit, and nothing else changes.
pub bfree_lem :
    (sb : Superblock) (b : ℕ) (l : Log)
    → (used sb l b ≡ 0 → bfree sb b l ≡ panic)
      × ((l' : Log)
          → bfree sb b l ≡ ok l'
          → (used sb l b ≢ 0)
            × ((x : ℕ) → used sb l' x ≡ (if b == x then 0 else used sb l x))
            × ((c : ℕ) → c ≢ bblock b sb → l'.bufs.view c ≡ l.bufs.view c))
unfolding bfree
bfree_lem sb b l = (
  λ z. rw z,
  λ l' e. elim (Bool-cases (used sb l b == 0)) [
    | inl h ↦ absurd (ground (arith, h))
    | inr h ↦ (
      ground arith,
      (λ x. ap (λ (v : Disk). map_bit (v (bblock x sb)) (x % bpb)) (changed l' h e) ∙ cleared x),
      λ c ne. ap (λ (v : Disk). v c) (changed l' h e) ∙ ground arith,
    )
  ],
)
  where
    bytes : Bytes
    bytes = unmark (l.bufs.view (bblock b sb)) (b % bpb)

    changed :
        (l' : Log)
        → (used sb l b == 0) ≡ false
        → bfree sb b l ≡ ok l'
        → l'.bufs.view ≡ update l.bufs.view (bblock b sb) bytes
    changed l' h e = store_logged-view (bblock b sb) bytes l l' (ground (arith, h, e))

    cleared :
        (x : ℕ)
        → map_bit (update l.bufs.view (bblock b sb) bytes (bblock x sb)) (x % bpb)
          ≡ (if b == x then 0 else used sb l x)
    cleared x = elim (Bool-cases (bblock b sb == bblock x sb)) [
      | inl e ↦ ground (
        arith,
        map_bit-unmark (l.bufs.view (bblock b sb)) (b % bpb) (x % bpb),
        ap (λ y. map_bit (l.bufs.view y) (x % bpb)) ((==_iff (bblock b sb) (bblock x sb)).0 e),
      )
      | inr e ↦ ground arith
    ]
