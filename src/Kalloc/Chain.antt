-- ===== src/Kalloc/Chain.antt =====
-- The free list as a list of pages: what one kfree and one kalloc do to it.
use snu_os.Base.{
  ℕ, ◌+◌, ◌%◌, ◌≤◌, ◌<◌, ◌≡◌, ◌≢◌, refl, ap, true, false, ◌&&◌, inl, inr, List, [], ◌∷◌, arith,
  elem, Distinct, ltb, leb, ◌==◌, Bool-cases, update, update_self,
}
use snu_os.Base.Outcome.{ok, panic}
use snu_os.Kalloc.{Kmem, page_size, phys_top, fill_page, junk_freed, junk_taken, kfree, kalloc}

-- From `p` the words lead through the pages `xs` to the null pointer.
abbrev pub Chain : (ℕ → ℕ) → ℕ → List ℕ → Type 0
Chain m p [] = p ≡ 0
Chain m p (x ∷ xs) = (p ≡ x) × (x ≢ 0) × Chain m (m x) xs

-- An address that kfree accepts.
abbrev pub IsPage : ℕ → ℕ → Type 0
IsPage kend a = (a % page_size ≡ 0) × (kend ≤ a) × (a < phys_top)

abbrev pub AllPages : ℕ → List ℕ → Type 0
AllPages kend [] = Unit
AllPages kend (x ∷ xs) = IsPage kend x × AllPages kend xs

-- The allocator holds exactly the free pages `xs`, first out first.
pub record Holds (kend : ℕ) (k : Kmem) (xs : List ℕ) : Type 0 where
  pub chain : Chain k.word k.freelist xs
  pub pages : AllPages kend xs
  pub distinct : Distinct xs

-- Writes that spare the first words of the pages of a chain keep it.
pub Chain-frame :
    (m n : ℕ → ℕ) (p : ℕ) (xs : List ℕ)
    → ((a : ℕ) → elem a xs ≡ true → n a ≡ m a)
    → Chain m p xs
    → Chain n p xs
Chain-frame m n p [] same c = c
Chain-frame m n p (x ∷ xs) same (e, nz, c) =
    (e, nz, rw (same x (ground arith)) (Chain-frame m n (m x) xs (λ a h. same a (ground arith)) c))

pub elem-IsPage : (kend a : ℕ) (xs : List ℕ) → AllPages kend xs → elem a xs ≡ true → IsPage kend a
elem-IsPage kend a [] ps h = absurd (ground arith)
elem-IsPage kend a (x ∷ xs) (p, ps) h = elim (Bool-cases (a == x)) [
  | inl e ↦ ground arith
  | inr e ↦ elem-IsPage kend a xs ps (ground arith)
]

-- Two different pages do not overlap.
pub pages_apart :
    (a b : ℕ)
    → a % page_size ≡ 0
    → b % page_size ≡ 0
    → a ≢ b
    → (leb b a && ltb a (b + page_size)) ≡ false
pages_apart a b p q h = ground arith

pub elem_ne : (a b : ℕ) (xs : List ℕ) → elem b xs ≡ false → elem a xs ≡ true → a ≢ b
elem_ne a b xs h k e = cc (ap (λ z. elem z xs) e)

module _ (kend : ℕ) (k : Kmem) (xs : List ℕ) where
  -- kfree puts a page that the list does not hold in front of it, and touches no memory outside
  -- that page.
  pub kfree_lem :
      (pa : ℕ)
      → 0 < kend
      → Holds kend k xs
      → IsPage kend pa
      → elem pa xs ≡ false
      → (k' : Kmem) × (kfree kend k pa ≡ ok k')
        × Holds kend k' (pa ∷ xs)
        × ((a : ℕ) → (leb pa a && ltb a (pa + page_size)) ≡ false → k'.word a ≡ k.word a)
  unfolding kfree
  kfree_lem pa pos h (al, lo, hi) fresh = (
    record { word = update (fill_page k.word pa junk_freed) pa k.freelist; freelist = pa },
    ground arith,
    record {
      chain = (
        refl,
        omega arith,
        rw update_self (
            Chain-frame k.word (update (fill_page k.word pa junk_freed) pa k.freelist) k.freelist xs
              (λ a m.
                ground (
                  arith,
                  elem_ne a pa xs fresh m,
                  elem-IsPage kend a xs h.pages m,
                  pages_apart a pa,
                ))
              h.chain),
      );
      pages = ((al, lo, hi), h.pages);
      distinct = (fresh, h.distinct);
    },
    λ a out. ground arith,
  )

module _ (kend : ℕ) (k : Kmem) where
  -- An address that is unaligned, below the kernel's end or beyond RAM halts the machine.
  pub kfree-panic : (pa : ℕ) → ¬ IsPage kend pa → kfree kend k pa ≡ panic
  unfolding kfree
  kfree-panic pa bad = ground (arith, bad)

  -- With no page free, kalloc returns the null pointer and changes nothing.
  pub kalloc-nil : Holds kend k [] → kalloc k ≡ (0, k)
  unfolding kalloc
  kalloc-nil h = ground (arith, h.chain)

  -- Otherwise it returns the first page of the list, keeps the others, and touches no memory
  -- outside that page.
  pub kalloc-cons :
      (x : ℕ) (xs : List ℕ)
      → Holds kend k (x ∷ xs)
      → ((kalloc k).0 ≡ x)
        × Holds kend (kalloc k).1 xs
        × ((a : ℕ) → (leb x a && ltb a (x + page_size)) ≡ false → (kalloc k).1.word a ≡ k.word a)
  unfolding kalloc
  kalloc-cons x xs h = rw taken (refl, rest, λ a out. ground arith)
    where
      taken : kalloc k ≡ (x, record { word = fill_page k.word x junk_taken; freelist = k.word x })
      taken = rw (h.chain.0) (ground (arith, h.chain.1))

      rest : Holds kend (record { word = fill_page k.word x junk_taken; freelist = k.word x }) xs
      rest = record {
        chain =
            Chain-frame k.word (fill_page k.word x junk_taken) (k.word x) xs
              (λ a m. ground (
                arith,
                elem_ne a x xs h.distinct.0 m,
                elem-IsPage kend a xs h.pages.1 m,
                pages_apart a x,
                h.pages.0,
              ))
              h.chain.2;
        pages = h.pages.1;
        distinct = h.distinct.1;
      }

module _ (kend : ℕ) (k : Kmem) (xs : List ℕ) where
  -- A page that kfree has taken is the next that kalloc returns.
  pub kalloc-kfree :
      (pa : ℕ) (k' : Kmem)
      → 0 < kend
      → Holds kend k xs
      → IsPage kend pa
      → elem pa xs ≡ false
      → kfree kend k pa ≡ ok k'
      → ((kalloc k').0 ≡ pa) × Holds kend (kalloc k').1 xs
  kalloc-kfree pa k' pos h page fresh e =
      let (k'', e', h', _) = kfree_lem kend k xs pa pos h page fresh in
      let same : k'' ≡ k' = cc in
      let (p, q, _) = kalloc-cons kend k'' pa xs h' in rw (← same) (p, q)
