-- ===== src/Virtio/Alloc.antt =====
-- alloc3_desc of kernel/virtio_disk.c takes three descriptors or none.
use snu_os.Base.{
  ℕ, zero, suc, ◌+◌, ◌≤◌, ◌<◌, ◌≡◌, ◌≢◌, refl, sym, ap, ◌∙◌, inl, inr, Bool, true, false, Option,
  none, some, arith, update, Bool-cases, Option-cases,
}
use mathlib.Core.Path.{subst}
use snu_os.Base.Outcome.{ok}
use snu_os.Virtio.{
  num, zero_desc, Disk, first_desc, alloc_desc, free_desc, alloc_third, alloc_second, alloc3_desc,
}

first_desc-some :
    (k i : ℕ) (free : ℕ → Bool) (j : ℕ)
    → first_desc k i free ≡ some j
    → (i ≤ j) × (j < i + k) × (free j ≡ true)
unfolding first_desc
first_desc-some zero i free j e = cc
first_desc-some (suc k) i free j e = elim (Bool-cases (free i)) [
  | inl h ↦
      (let at : i ≡ j = ground (arith, h, e) in
        (omega (arith, at), omega (arith, at), sym (ap free at) ∙ h))
  | inr h ↦
      (let (lo, hi, z) = first_desc-some k (i + 1) free j (rw (h, first_desc) at e) in
        (omega (arith, lo), omega (arith, hi), z))
]

-- How alloc_desc ends.
abbrev Alloc1 : Disk → Option (ℕ × Disk) → Type 0
Alloc1 d none = Unit
Alloc1 d (some (i, d')) =
    (i < num) × (d.free i ≡ true) × (d' ≡ record d { free = update d.free i false })

alloc_desc-Alloc1 : (d : Disk) → Alloc1 d (alloc_desc d)
unfolding alloc_desc
alloc_desc-Alloc1 d = elim (Option-cases (first_desc num 0 d.free)) [
  | inl h ↦ rw (h, alloc_desc) tt
  | inr (i, h) ↦
      (let (lo, hi, z) = first_desc-some num 0 d.free i h in
        rw (h, alloc_desc) (omega (arith, hi), z, refl))
]

pub free_desc-ok :
    (i : ℕ) (d : Disk)
    → i < num
    → d.free i ≡ false
    → free_desc i d
      ≡ ok (record d { desc = update d.desc i zero_desc; free = update d.free i true })
unfolding free_desc
free_desc-ok i d lt h = ground (arith, lt, h)

-- The same descriptors are free, and those that are not free are the same.
pub record Kept (d d' : Disk) : Type 0 where
  pub free : (x : ℕ) → d'.free x ≡ d.free x
  pub desc : (x : ℕ) → d.free x ≡ false → d'.desc x ≡ d.desc x

-- Three descriptors that were free no longer are, and nothing else has changed.
pub record Three (d : Disk) (i j k : ℕ) (d' : Disk) : Type 0 where
  pub range : (i < num) × (j < num) × (k < num)
  pub distinct : (i ≢ j) × (i ≢ k) × (j ≢ k)
  pub were_free : (d.free i ≡ true) × (d.free j ≡ true) × (d.free k ≡ true)
  pub now : d' ≡ record d { free = update (update (update d.free i false) j false) k false }

abbrev pub Alloc3 : Disk → Option (ℕ × ℕ × ℕ) × Disk → Type 0
Alloc3 d (none, d') = Kept d d'
Alloc3 d (some (i, j, k), d') = Three d i j k d'

-- What the failing rounds do to the descriptors in hand.
abbrev taken2 : Disk → ℕ → ℕ → Disk
taken2 d i j = record d { free = update (update d.free i false) j false }

abbrev pub cleared1 : Disk → ℕ → Disk
cleared1 d i = record d { desc = update d.desc i zero_desc; free = update d.free i true }

module _ (d : Disk) (i j : ℕ) (lo : i < num) (hi : j < num) (ne : i ≢ j) (fi : d.free i ≡ true)
    (fj : d.free j ≡ true) where
  first_free : free_desc i (taken2 d i j) ≡ ok (cleared1 (taken2 d i j) i)
  first_free = free_desc-ok i (taken2 d i j) lo (ground (arith, ne))

  second_free :
      free_desc j (cleared1 (taken2 d i j) i) ≡ ok (cleared1 (cleared1 (taken2 d i j) i) j)
  second_free = free_desc-ok j (cleared1 (taken2 d i j) i) hi (ground (arith, ne))

  both-Kept : Kept d (cleared1 (cleared1 (taken2 d i j) i) j)
  both-Kept = record { free = λ x. ground (arith, fi, fj); desc = λ x f. ground (arith, fi, fj, f) }

  alloc_third-Alloc3 :
      (r : Option (ℕ × ℕ × ℕ) × Disk) × (alloc_third i j (taken2 d i j) ≡ ok r) × Alloc3 d r
  unfolding alloc_third
  alloc_third-Alloc3 = elim (Option-cases (alloc_desc (taken2 d i j))) [
    | inl h ↦ (
      (none, cleared1 (cleared1 (taken2 d i j) i) j),
      rw (h, alloc_third, first_free, second_free) refl,
      both-Kept,
    )
    | inr (q, h) ↦
        (let (lt, fk, at) = subst (Alloc1 (taken2 d i j)) h (alloc_desc-Alloc1 (taken2 d i j)) in
          (
            (some (i, j, q.0), q.1),
            rw (h, alloc_third) refl,
            record {
              range = (lo, hi, lt);
              distinct = (ne, ground (arith, fk), ground (arith, fk));
              were_free = (fi, fj, ground (arith, fk));
              now = at;
            },
          ))
  ]

module _ (d : Disk) (i : ℕ) (lo : i < num) (fi : d.free i ≡ true) where
  alloc_second-Alloc3 :
      (r : Option (ℕ × ℕ × ℕ) × Disk) × (alloc_second i (record d { free = update d.free i false })
        ≡ ok r)
      × Alloc3 d r
  unfolding alloc_second
  alloc_second-Alloc3 = elim (Option-cases (alloc_desc one)) [
    | inl h ↦ (
      (none, cleared1 one i),
      rw (h, alloc_second, free_desc-ok i one lo (ground arith)) refl,
      record { free = λ x. ground (arith, fi); desc = λ x f. ground (arith, fi, f) },
    )
    | inr (q, h) ↦
        (let (lt, fj, at) = subst (Alloc1 one) h (alloc_desc-Alloc1 one) in
          let (r, run, spec) =
            alloc_third-Alloc3 d i q.0 lo lt (ground (arith, fj)) fi (ground (arith, fj)) in
          (r, rw (h, alloc_second, at) run, spec))
  ]
    where
      one : Disk
      one = record d { free = update d.free i false }

-- alloc3_desc never halts. It takes three different descriptors that were free, and nothing else
-- changes; or it takes none: the same descriptors are free as before, and the others are the same.
pub alloc3_desc-Alloc3 :
    (d : Disk) → (r : Option (ℕ × ℕ × ℕ) × Disk) × (alloc3_desc d ≡ ok r) × Alloc3 d r
unfolding alloc3_desc
alloc3_desc-Alloc3 d = elim (Option-cases (alloc_desc d)) [
  | inl h ↦ ((none, d), rw (h, alloc3_desc) refl, record { free = λ x. refl; desc = λ x f. refl })
  | inr (q, h) ↦
      (let (lt, fi, at) = subst (Alloc1 d) h (alloc_desc-Alloc1 d) in
        let (r, run, spec) = alloc_second-Alloc3 d q.0 lt fi in
        (r, rw (h, alloc3_desc, at) run, spec))
]
