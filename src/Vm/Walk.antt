-- ===== src/Vm/Walk.antt =====
-- walk of kernel/vm.c: the entry that a walk with allocation has made room for is the one that every
-- later walk finds.
use snu_os.Base.{
  ℕ, zero, suc, ◌+◌, ◌*◌, ◌/◌, ◌%◌, ◌<◌, ◌≡◌, ◌≢◌, refl, sym, ap, ◌∙◌, inl, inr, Bool, true, false,
  List, [], ◌∷◌, arith, elem, leb, ◌==◌, ==_iff, Bool-cases,
}
use mathlib.Core.Path.{subst}
use snu_os.Base.Outcome.{ok, ok-eq}
use snu_os.Kalloc.{Kmem, page_size, kalloc}
use snu_os.Kalloc.Chain.{Holds, Chain-frame, kalloc-nil, kalloc-cons, elem-IsPage, elem_ne}
use snu_os.Vm.{max_va, is_valid, pte_pa, make_pte, px, clear_page, set_word, walk_from, walk}

-- the page of an address
abbrev pub page : ℕ → ℕ
page a = a / 4096 * 4096

-- The tables that a walk to `va` goes through from `pt` down are pages, none of them free, and none
-- of them among those above, `above`.
abbrev pub Tables : ℕ → ℕ → ℕ → (ℕ → ℕ) → List ℕ → List ℕ → Type 0
Tables zero pt va word free above =
    (pt % page_size ≡ 0) × (elem pt free ≡ false) × (elem pt above ≡ false)
Tables (suc l) pt va word free above =
    (pt % page_size ≡ 0)
    × (elem pt free ≡ false)
    × (elem pt above ≡ false)
    × (is_valid (word (pt + 8 * px (suc l) va)) ≡ true
        → Tables l (pte_pa (word (pt + 8 * px (suc l) va))) va word free (pt ∷ above))

-- None of the tables above is free.
abbrev Apart : List ℕ → List ℕ → Type 0
Apart free above = (u : ℕ) → elem u above ≡ true → elem u free ≡ false

page-entry : (pt i : ℕ) → pt % page_size ≡ 0 → page (pt + 8 * (i % 512)) ≡ pt
page-entry pt i h = omega (arith, h)

px_small : (l va : ℕ) → px l va < 512
px_small l va = omega arith

module _ (kend : ℕ) where
  -- Writes outside the free pages.
  Holds-frame :
      (k : Kmem) (word : ℕ → ℕ) (xs : List ℕ)
      → Holds kend k xs
      → ((a : ℕ) → elem a xs ≡ true → word a ≡ k.word a)
      → Holds kend (record k { word = word }) xs
  Holds-frame k word xs h same = record {
    chain = Chain-frame k.word word k.freelist xs same h.chain;
    pages = h.pages;
    distinct = h.distinct;
  }

  -- The memory in which a walk goes on when it has put a new table into the entry `pte` of `pt`.
  abbrev extended : Kmem → ℕ → ℕ → Kmem
  extended k pte x = set_word pte (make_pte x 0) (clear_page x (kalloc k).1)

  -- One round of walk.
  step_valid :
      (l : ℕ) (alloc : Bool) (pt va : ℕ) (k : Kmem)
      → is_valid (k.word (pt + 8 * px (suc l) va)) ≡ true
      → walk_from (suc l) alloc pt va k
        ≡ walk_from l alloc (pte_pa (k.word (pt + 8 * px (suc l) va))) va k
  unfolding walk_from
  step_valid l alloc pt va k v = ground (arith, v)

  step_new :
      (l pt va x : ℕ) (k : Kmem)
      → is_valid (k.word (pt + 8 * px (suc l) va)) ≡ false
      → (kalloc k).0 ≡ x
      → x ≢ 0
      → walk_from (suc l) true pt va k
        ≡ walk_from l true x va (extended k (pt + 8 * px (suc l) va) x)
  unfolding walk_from
  step_new l pt va x k v e ne =
      let z : ((kalloc k).0 == 0) ≡ false = ground (arith, e, ne) in
      ground (arith, v, z)
      ∙ ap (λ (y : ℕ). walk_from l true y va (extended k (pt + 8 * px (suc l) va) y)) e

  step_full :
      (l pt va : ℕ) (k : Kmem)
      → is_valid (k.word (pt + 8 * px (suc l) va)) ≡ false
      → kalloc k ≡ (0, k)
      → walk_from (suc l) true pt va k ≡ (0, k)
  unfolding walk_from
  step_full l pt va k v e = ground (arith, v, e)

  -- What a new table in the entry `i` of `pt` leaves.
  record Extended (k : Kmem) (pt i x : ℕ) (xs : List ℕ) : Type 0 where
    taken : (kalloc k).0 ≡ x
    holds : Holds kend (extended k (pt + 8 * i) x) xs
    entry : (extended k (pt + 8 * i) x).word (pt + 8 * i) ≡ make_pte x 0
    zeros : (j : ℕ) → j < 512 → (extended k (pt + 8 * i) x).word (x + 8 * j) ≡ 0
    others : (a : ℕ) → page a ≢ x → a ≢ pt + 8 * i → (extended k (pt + 8 * i) x).word a ≡ k.word a

  extend :
      (k : Kmem) (pt i x : ℕ) (xs : List ℕ)
      → Holds kend k (x ∷ xs)
      → pt % page_size ≡ 0
      → i < 512
      → elem pt (x ∷ xs) ≡ false
      → Extended k pt i x xs
  extend k pt i x xs h al lt out =
      let (taken, rest, same) = kalloc-cons kend k x xs h in
      let ne : x ≢ pt = ground (arith, out) in
      let distinct : (m : ℕ) → elem m xs ≡ true → m ≢ x = λ m e. elem_ne m x xs h.distinct.0 e in
      record {
        taken = taken;
        holds = Holds-frame (kalloc k).1 (extended k (pt + 8 * i) x).word xs rest (λ a m. ground (
          arith,
          taken,
          distinct a m,
          h.pages.0,
          elem-IsPage kend a xs h.pages.1 m,
          elem_ne a pt xs (ground (arith, out)) m,
          al,
          lt,
        ));
        entry = ground (arith, taken);
        zeros = λ j lj. ground (arith, taken, h.pages.0, al, ne, lt, lj);
        others = λ a p q. ground (arith, taken, same a, h.pages.0, p, q);
      }

  -- The new table is where the walk goes on, and is apart from those above.
  Tables-new :
      (l pt va i x : ℕ) (k : Kmem) (xs above : List ℕ)
      → Extended k pt i x xs
      → Holds kend k (x ∷ xs)
      → Apart (x ∷ xs) (pt ∷ above)
      → Tables l x va (extended k (pt + 8 * i) x).word xs (pt ∷ above)
  Tables-new zero pt va i x k xs above e h apart = (
    h.pages.0.0,
    h.distinct.0,
    elim (Bool-cases (elem x (pt ∷ above))) [
      | inl m ↦ absurd (ground (arith, apart x m))
      | inr m ↦ m
    ],
  )
  Tables-new (suc l) pt va i x k xs above e h apart = (
    h.pages.0.0,
    h.distinct.0,
    elim (Bool-cases (elem x (pt ∷ above))) [
      | inl m ↦ absurd (ground (arith, apart x m))
      | inr m ↦ m
    ],
    λ v. absurd (ground (arith, v, e.zeros (px (suc l) va) (px_small (suc l) va))),
  )

  Apart-cons :
      (pt : ℕ) (free above : List ℕ)
      → Apart free above
      → elem pt free ≡ false
      → Apart free (pt ∷ above)
  Apart-cons pt free above apart out u m = elim (Bool-cases (u == pt)) [
    | inl e ↦ subst (λ (w : ℕ). elem w free ≡ false) (sym ((==_iff u pt).0 e)) out
    | inr e ↦ apart u (ground (arith, m, e))
  ]

  Apart-tail : (x : ℕ) (free above : List ℕ) → Apart (x ∷ free) above → Apart free above
  Apart-tail x free above apart u m = ground (arith, apart u m)

  -- A walk writes to free pages and to the tables from `pt` down only.
  walk-frame :
      (l pt va : ℕ) (k : Kmem) (xs above : List ℕ) (a : ℕ)
      → Holds kend k xs
      → Tables l pt va k.word xs above
      → Apart xs above
      → elem (page a) above ≡ true
      → (walk_from l true pt va k).1.word a ≡ k.word a
  walk-frame zero pt va k xs above a h t apart m = unfold walk_from in refl
  walk-frame (suc l) pt va k [] above a h t apart m =
      elim (Bool-cases (is_valid (k.word (pt + 8 * px (suc l) va)))) [
        | inl v ↦ rw (step_valid l true pt va k v) (
            walk-frame l (pte_pa (k.word (pt + 8 * px (suc l) va))) va k [] (pt ∷ above) a h (t.3 v)
              (λ u e. refl) (ground (arith, m)))
        | inr v ↦ rw (step_full l pt va k v (kalloc-nil kend k h)) refl
      ]
  walk-frame (suc l) pt va k (x ∷ xs) above a h t apart m =
      elim (Bool-cases (is_valid (k.word (pt + 8 * px (suc l) va)))) [
        | inl v ↦ rw (step_valid l true pt va k v) (
            walk-frame l (pte_pa (k.word (pt + 8 * px (suc l) va))) va k (x ∷ xs) (pt ∷ above) a h
              (t.3 v) (Apart-cons pt (x ∷ xs) above apart t.1) (ground (arith, m)))
        | inr v ↦
            (let e = extend k pt (px (suc l) va) x xs h t.0 (px_small (suc l) va) t.1 in
              let apart' = Apart-cons pt (x ∷ xs) above apart t.1 in
              rw (step_new l pt va x k v e.taken h.chain.1) (
                walk-frame l x va (extended k (pt + 8 * px (suc l) va) x) xs (pt ∷ above) a e.holds
                  (Tables-new l pt va (px (suc l) va) x k xs above e h apart')
                  (Apart-tail x xs (pt ∷ above) apart') (ground (arith, m))
                ∙ e.others a (λ q. ground (arith, apart (page a) m, q))
                    (λ q.
                      ground (
                        arith,
                        q,
                        m,
                        t.2,
                        page-entry pt (px (suc l) va) t.0,
                        px_small (suc l) va,
                      ))))
      ]

  -- A later walk goes through the same entry, if the entry is still there.
  again_after :
      (alloc : Bool) (l pt va child : ℕ) (r : ℕ × Kmem)
      → is_valid (r.1.word (pt + 8 * px (suc l) va)) ≡ true
      → pte_pa (r.1.word (pt + 8 * px (suc l) va)) ≡ child
      → walk_from l alloc child va r.1 ≡ r
      → walk_from (suc l) alloc pt va r.1 ≡ r
  again_after alloc l pt va child r v e ih =
      step_valid l alloc pt va r.1 v ∙ ap (λ (c : ℕ). walk_from l alloc c va r.1) e ∙ ih

  entry_above :
      (pt i : ℕ) (above : List ℕ)
      → pt % page_size ≡ 0
      → i < 512
      → elem (page (pt + 8 * i)) (pt ∷ above) ≡ true
  entry_above pt i above al lt =
      let e : page (pt + 8 * i) ≡ pt = omega (arith, al, lt) in ground (arith, e)

  -- The walk that has made room is the walk that finds.
  walk_again :
      (alloc : Bool) (l pt va : ℕ) (k : Kmem) (xs above : List ℕ)
      → Holds kend k xs
      → Tables l pt va k.word xs above
      → Apart xs above
      → (walk_from l true pt va k).0 ≢ 0
      → walk_from l alloc pt va (walk_from l true pt va k).1 ≡ walk_from l true pt va k
  walk_again alloc zero pt va k xs above h t apart nz = unfold walk_from in refl
  walk_again alloc (suc l) pt va k [] above h t apart nz =
      elim (Bool-cases (is_valid (k.word (pt + 8 * px (suc l) va)))) [
        | inl v ↦
            (let e = pt + 8 * px (suc l) va in
              let child = pte_pa (k.word e) in
              let same : (walk_from l true child va k).1.word e ≡ k.word e =
                walk-frame l child va k [] (pt ∷ above) e h (t.3 v) (λ u m. refl)
                  (entry_above pt (px (suc l) va) above t.0 (px_small (suc l) va)) in
              rw (step_valid l true pt va k v) (
                again_after alloc l pt va child (walk_from l true child va k)
                  (ap (λ (w : ℕ). is_valid w) same ∙ v) (ap (λ (w : ℕ). pte_pa w) same)
                  (walk_again alloc l child va k [] (pt ∷ above) h (t.3 v) (λ u m. refl)
                    (rw (step_valid l true pt va k v) at nz))))
        | inr v ↦
            absurd (nz (ap (λ (r : ℕ × Kmem). r.0) (step_full l pt va k v (kalloc-nil kend k h))))
      ]
  walk_again alloc (suc l) pt va k (x ∷ xs) above h t apart nz =
      elim (Bool-cases (is_valid (k.word (pt + 8 * px (suc l) va)))) [
        | inl v ↦
            (let e = pt + 8 * px (suc l) va in
              let child = pte_pa (k.word e) in
              let apart' = Apart-cons pt (x ∷ xs) above apart t.1 in
              let same : (walk_from l true child va k).1.word e ≡ k.word e =
                walk-frame l child va k (x ∷ xs) (pt ∷ above) e h (t.3 v) apart'
                  (entry_above pt (px (suc l) va) above t.0 (px_small (suc l) va)) in
              rw (step_valid l true pt va k v) (
                again_after alloc l pt va child (walk_from l true child va k)
                  (ap (λ (w : ℕ). is_valid w) same ∙ v) (ap (λ (w : ℕ). pte_pa w) same)
                  (walk_again alloc l child va k (x ∷ xs) (pt ∷ above) h (t.3 v) apart'
                    (rw (step_valid l true pt va k v) at nz))))
        | inr v ↦
            (let e = pt + 8 * px (suc l) va in
              let n = extend k pt (px (suc l) va) x xs h t.0 (px_small (suc l) va) t.1 in
              let apart' = Apart-cons pt (x ∷ xs) above apart t.1 in
              let k' = extended k e x in
              let t' = Tables-new l pt va (px (suc l) va) x k xs above n h apart' in
              let apart'' = Apart-tail x xs (pt ∷ above) apart' in
              let same : (walk_from l true x va k').1.word e ≡ make_pte x 0 =
                walk-frame l x va k' xs (pt ∷ above) e n.holds t' apart''
                  (entry_above pt (px (suc l) va) above t.0 (px_small (suc l) va))
                ∙ n.entry in
              rw (step_new l pt va x k v n.taken h.chain.1) (
                again_after alloc l pt va x (walk_from l true x va k')
                  (ap (λ (w : ℕ). is_valid w) same ∙ ground arith)
                  (ap (λ (w : ℕ). pte_pa w) same ∙ omega (arith, h.pages.0.0))
                  (walk_again alloc l x va k' xs (pt ∷ above) n.holds t' apart''
                    (rw (step_new l pt va x k v n.taken h.chain.1) at nz))))
      ]

  -- walk with allocation, in a page table whose tables on the way are pages that are not free and
  -- differ: if it returns an entry, then in the memory that it leaves, every walk for that address,
  -- with allocation or without, returns the same entry and changes nothing.
  pub walk-walk :
      (alloc : Bool) (pt va e : ℕ) (k k' : Kmem) (xs : List ℕ)
      → Holds kend k xs
      → Tables 2 pt va k.word xs []
      → walk true pt va k ≡ ok (e, k')
      → e ≢ 0
      → walk alloc pt va k' ≡ ok (e, k')
  unfolding walk
  walk-walk alloc pt va e k k' xs h t at nz = elim (Bool-cases (leb max_va va)) [
    | inl f ↦ absurd (ground (arith, f, at))
    | inr f ↦
        (let same : walk_from 2 true pt va k ≡ (e, k') = ok-eq (rw f at at) in
          let nz' : (walk_from 2 true pt va k).0 ≢ 0 =
            λ z. nz (sym (ap (λ (r : ℕ × Kmem). r.0) same) ∙ z) in
          rw f (
            ap (λ (r : ℕ × Kmem). ok (walk_from 2 alloc pt va r.1)) (sym same)
            ∙ ap (λ (r : ℕ × Kmem). ok r)
                (walk_again alloc 2 pt va k xs [] h t (λ u m. cc) nz' ∙ same)))
  ]
