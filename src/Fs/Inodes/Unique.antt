-- ===== src/Fs/Inodes/Unique.antt =====
-- An inode of the disk has at most one entry in the table of kernel/fs.c.
use snu_os.Base.{
  ℕ, zero, suc, ◌+◌, ◌≤◌, ◌<◌, ◌^◌, ◌≡◌, ◌≢◌, refl, ◌⊎◌, inl, inr, true, false, Option, none, some,
  arith, ◌==◌, ==_iff, update, Bool-cases,
}
use mathlib.Core.Path.{subst}
use snu_os.Base.Words.{add32}
use snu_os.Base.Run.{done, halts, done-eq}
use snu_os.Fs.Inodes.{ninode, Inode, State, is_inode, remember, scan_inodes, take_inode, iget}

-- No inode has two entries that are referred to.
pub record IsUnique (t : ℕ → Inode) : Type 0 where
  pub once :
      (i j : ℕ)
      → i < ninode
      → j < ninode
      → (t i).ref ≢ 0
      → (t j).ref ≢ 0
      → (t i).dev ≡ (t j).dev
      → (t i).inum ≡ (t j).inum
      → i ≡ j

-- The reference counts are positive ints that can grow.
abbrev pub AreCounts : (ℕ → Inode) → Type 0
AreCounts t = (j : ℕ) → (t j).ref + 1 < 2 ^ 31

-- What the loop of iget finds from slot `i` on, with the empty slot that it came with.
abbrev Scanned : ℕ → ℕ → Option ℕ → ℕ → ℕ → (ℕ → Inode) → Option ℕ × Option ℕ → Type 0
Scanned k i empty dev inum t (some j, e) = (i ≤ j) × (j < i + k) × (is_inode dev inum (t j) ≡ true)
Scanned k i empty dev inum t (none, none) =
    (empty ≡ none)
    × ((j : ℕ) → i ≤ j → j < i + k → (is_inode dev inum (t j) ≡ false) × ((t j).ref ≢ 0))
Scanned k i empty dev inum t (none, some e) =
    ((empty ≡ some e) ⊎ ((i ≤ e) × (e < i + k) × ((t e).ref ≡ 0)))
    × ((j : ℕ) → i ≤ j → j < i + k → is_inode dev inum (t j) ≡ false)

module _ (dev inum : ℕ) (t : ℕ → Inode) where
  -- one more round, whose slot is not the inode
  Scanned-suc :
      (k i : ℕ) (empty : Option ℕ) (r : Option ℕ × Option ℕ)
      → is_inode dev inum (t i) ≡ false
      → Scanned k (i + 1) (remember empty i (t i)) dev inum t r
      → Scanned (suc k) i empty dev inum t r
  Scanned-suc k i empty (some j, e) miss h = (omega arith, omega arith, h.2)
  Scanned-suc k i none (none, none) miss h = (
    refl,
    λ j lo hi. elim (Bool-cases (i == j)) [
      | inl e ↦
          subst (λ x. (is_inode dev inum (t x) ≡ false) × ((t x).ref ≢ 0)) ((==_iff i j).0 e)
            (miss, ground (arith, h.0))
      | inr e ↦ h.1 j (ground arith) (omega arith)
    ],
  )
  Scanned-suc k i (some x) (none, none) miss h = absurd (ground (arith, h.0))
  Scanned-suc k i none (none, some e) miss h = (
    inr (elim (Bool-cases ((t i).ref == 0)) [
      | inl z ↦ elim h.0 [ inl f ↦ ground (arith, f, z) | inr f ↦ (omega arith, omega arith, f.2) ]
      | inr z ↦ elim h.0 [
        | inl f ↦ absurd (ground (arith, f, z))
        | inr f ↦ (omega arith, omega arith, f.2)
      ]
    ]),
    λ j lo hi. elim (Bool-cases (i == j)) [
      | inl e ↦ subst (λ x. is_inode dev inum (t x) ≡ false) ((==_iff i j).0 e) miss
      | inr e ↦ h.1 j (ground arith) (omega arith)
    ],
  )
  Scanned-suc k i (some x) (none, some e) miss h = (
    elim h.0 [ inl f ↦ inl f | inr f ↦ inr (omega arith, omega arith, f.2) ],
    λ j lo hi. elim (Bool-cases (i == j)) [
      | inl e ↦ subst (λ x. is_inode dev inum (t x) ≡ false) ((==_iff i j).0 e) miss
      | inr e ↦ h.1 j (ground arith) (omega arith)
    ],
  )

  scan_inodes-Scanned :
      (k i : ℕ) (empty : Option ℕ) → Scanned k i empty dev inum t (scan_inodes k i empty dev inum t)
  unfolding scan_inodes
  scan_inodes-Scanned zero i none = (refl, λ j lo hi. absurd (omega arith))
  scan_inodes-Scanned zero i (some e) = (inl refl, λ j lo hi. absurd (omega arith))
  scan_inodes-Scanned (suc k) i empty = elim (Bool-cases (is_inode dev inum (t i))) [
    | inl e ↦ rw e (omega arith, omega arith, e)
    | inr e ↦ rw e (
        Scanned-suc k i empty (scan_inodes k (i + 1) (remember empty i (t i)) dev inum t) e
          (scan_inodes-Scanned k (i + 1) (remember empty i (t i))))
  ]

-- What iget leaves: the inode in its slot, referred to, no second entry for any inode, and the other
-- slots as they were.
pub record Got (dev inum : ℕ) (s : State) (i : ℕ) (s' : State) : Type 0 where
  pub slot : i < ninode
  pub names : ((s'.inodes i).dev ≡ dev) × ((s'.inodes i).inum ≡ inum)
  pub held : (s'.inodes i).ref ≢ 0
  pub unique : IsUnique s'.inodes
  pub others : (j : ℕ) → j ≢ i → s'.inodes j ≡ s.inodes j
  pub kept :
      ((s.inodes i).ref ≢ 0) → s'.inodes i ≡ record (s.inodes i) { ref = (s.inodes i).ref + 1 }
  pub recycled :
      (s.inodes i).ref ≡ 0
      → s'.inodes i ≡ record (s.inodes i) { dev = dev; inum = inum; ref = 1; valid = false }
  pub log : s'.log ≡ s.log

-- The slot `i` gets an entry for an inode, which no other slot has.
IsUnique-set :
    (dev inum : ℕ) (t : ℕ → Inode) (i : ℕ) (ip : Inode)
    → IsUnique t
    → ip.dev ≡ dev
    → ip.inum ≡ inum
    → ((j : ℕ) → j < ninode → j ≢ i → (t j).ref ≢ 0 → (t j).dev ≡ dev → (t j).inum ≡ inum → ⊥)
    → IsUnique (update t i ip)
IsUnique-set dev inum t i ip u e f alone = record {
  once = λ j k lj lk rj rk d n. elim (Bool-cases (i == j)) [
    | inl a ↦ elim (Bool-cases (i == k)) [
      | inl b ↦ ground arith
      | inr b ↦
          absurd
            (alone k lk (ground arith) (ground (arith, rk)) (ground (arith, d)) (ground (arith, n)))
    ]
    | inr a ↦ elim (Bool-cases (i == k)) [
      | inl b ↦
          absurd
            (alone j lj (ground arith) (ground (arith, rj)) (ground (arith, d)) (ground (arith, n)))
      | inr b ↦
          u.once j k lj lk (ground (arith, rj)) (ground (arith, rk)) (ground (arith, d))
            (ground (arith, n))
    ]
  ];
}

take_inode-Got :
    (dev inum : ℕ) (s : State) (r : Option ℕ × Option ℕ) (i : ℕ) (s' : State)
    → IsUnique s.inodes
    → AreCounts s.inodes
    → Scanned ninode 0 none dev inum s.inodes r
    → take_inode dev inum s r ≡ done (i, s')
    → Got dev inum s i s'
take_inode-Got dev inum s (none, none) i s' u c h e = cc
take_inode-Got dev inum s (none, some x) i s' u c h e =
    let fresh : Inode = record (s.inodes x) { dev = dev; inum = inum; ref = 1; valid = false } in
    let (lo, hi, z) = elim h.0 as (λ _. (0 ≤ x) × (x < ninode) × ((s.inodes x).ref ≡ 0)) [
      | inl f ↦ absurd (ground (arith, f))
      | inr f ↦ (f.0, omega arith, f.2)
    ] in
    subst (λ (p : ℕ × State). Got dev inum s p.0 p.1) (done-eq e)
      (record {
        slot = hi;
        names = (ground arith, ground arith);
        held = ground arith;
        unique =
            IsUnique-set dev inum s.inodes x fresh u refl refl
              (λ j lt ne r d n. ground (arith, h.1 j, c j, lt, r, d, n));
        others = λ j ne. ground arith;
        kept = λ r. absurd (r z);
        recycled = λ r. ground arith;
        log = refl;
      })
take_inode-Got dev inum s (some x, y) i s' u c h e =
    let more : Inode = record (s.inodes x) { ref = add32 (s.inodes x).ref 1 } in
    subst (λ (p : ℕ × State). Got dev inum s p.0 p.1) (done-eq e)
      (record {
        slot = omega (arith, h.1);
        names = (ground (arith, h.2), ground (arith, h.2));
        held = ground (arith, c x);
        unique =
            IsUnique-set dev inum s.inodes x more u (ground (arith, h.2)) (ground (arith, h.2))
              (λ j lt ne r d n. ne (
                u.once j x lt (omega (arith, h.1)) r (ground (arith, h.2)) (ground (arith, h.2, d))
                  (ground (arith, h.2, n))));
        others = λ j ne. ground arith;
        kept = λ r. ground (arith, c x);
        recycled = λ r. absurd (ground (arith, r, h.2));
        log = refl;
      })

-- iget halts only when all slots are referred to and none has the inode. Otherwise it returns a slot
-- with the inode, in a table in which no inode has two entries. A slot that was referred to has one
-- more reference and is otherwise as it was; one that was not has one reference, and its contents do
-- not count as read. All other slots and the log are as they were.
pub iget-Got :
    (dev inum : ℕ) (s : State)
    → IsUnique s.inodes
    → AreCounts s.inodes
    → ((iget dev inum s ≡ halts)
        × ((j : ℕ)
            → j < ninode
            → (is_inode dev inum (s.inodes j) ≡ false) × ((s.inodes j).ref ≢ 0)))
      ⊎ ((i : ℕ) × (s' : State) × (iget dev inum s ≡ done (i, s')) × Got dev inum s i s')
unfolding iget
iget-Got dev inum s u c =
    ends (scan_inodes ninode 0 none dev inum s.inodes)
      (scan_inodes-Scanned dev inum s.inodes ninode 0 none)
  where
    ends :
        (r : Option ℕ × Option ℕ)
        → Scanned ninode 0 none dev inum s.inodes r
        → ((take_inode dev inum s r ≡ halts)
            × ((j : ℕ)
                → j < ninode
                → (is_inode dev inum (s.inodes j) ≡ false) × ((s.inodes j).ref ≢ 0)))
          ⊎ ((i : ℕ) × (s' : State) × (take_inode dev inum s r ≡ done (i, s'))
              × Got dev inum s i s')
    ends (none, none) h = inl (refl, λ j lt. h.1 j (omega arith) (omega arith))
    ends (none, some x) h =
        inr (x, _, refl, take_inode-Got dev inum s (none, some x) x _ u c h refl)
    ends (some x, y) h = inr (x, _, refl, take_inode-Got dev inum s (some x, y) x _ u c h refl)
