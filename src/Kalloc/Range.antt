-- ===== src/Kalloc/Range.antt =====
-- freerange and kinit: the list that the allocator starts with.
use snu_os.Base.{
  ℕ, zero, suc, ◌+◌, ◌*◌, ◌/◌, ◌%◌, ◌≤◌, ◌<◌, ◌≡◌, refl, false, List, [], ◌∷◌, arith, elem, length,
}
use snu_os.Base.Outcome.{ok}
use snu_os.Kalloc.{Kmem, page_size, phys_top, round_up, free_pages, kinit}
use snu_os.Kalloc.Chain.{Holds, kfree_lem}

-- `n` pages from `p` on, each put in front of what is there.
abbrev pub push_pages : ℕ → ℕ → List ℕ → List ℕ
push_pages p zero xs = xs
push_pages p (suc n) xs = push_pages (p + page_size) n (p ∷ xs)

pub length-push_pages : (p n : ℕ) (xs : List ℕ) → length (push_pages p n xs) ≡ n + length xs
length-push_pages p zero xs = omega arith
length-push_pages p (suc n) xs = omega (arith, length-push_pages (p + page_size) n (p ∷ xs))

-- Every page of `xs` stands below `p`.
abbrev Below : ℕ → List ℕ → Type 0
Below p [] = Unit
Below p (x ∷ xs) = (x < p) × Below p xs

Below-mono : (p q : ℕ) (xs : List ℕ) → p ≤ q → Below p xs → Below q xs
Below-mono p q [] le h = tt
Below-mono p q (x ∷ xs) le (h, hs) = (omega arith, Below-mono p q xs le hs)

not-elem_of_Below : (p : ℕ) (xs : List ℕ) → Below p xs → elem p xs ≡ false
not-elem_of_Below p [] h = refl
not-elem_of_Below p (x ∷ xs) (h, hs) = ground (arith, not-elem_of_Below p xs hs)

module _ (kend : ℕ) (pos : 0 < kend) (pa_end : ℕ) (top : pa_end ≤ phys_top) where
  free_pages_lem :
      (n fuel p : ℕ) (k : Kmem) (xs : List ℕ)
      → n < fuel
      → p % page_size ≡ 0
      → kend ≤ p
      → (p + n * page_size ≤ pa_end) × (pa_end < p + (n + 1) * page_size)
      → Below p xs
      → Holds kend k xs
      → (k' : Kmem) × (free_pages kend fuel p pa_end k ≡ ok k') × Holds kend k' (push_pages p n xs)
  unfolding free_pages
  free_pages_lem n zero p k xs hf al lo hn b h = absurd (omega arith)
  free_pages_lem zero (suc fuel) p k xs hf al lo hn b h = (k, ground arith, h)
  free_pages_lem (suc n) (suc fuel) p k xs hf al lo hn b h =
      let (k1, e1, h1, _) = kfree_lem kend k xs p pos h (omega arith) (not-elem_of_Below p xs b) in
      let (k2, e2, h2) =
        free_pages_lem n fuel (p + page_size) k1 (p ∷ xs) (omega arith) (omega arith) (omega arith)
          (omega arith) (omega arith, Below-mono p (p + page_size) xs (omega arith) b) h1 in
      (k2, ground (arith, e1, e2), h2)

-- kinit halts nowhere, and leaves in the allocator exactly the whole pages between the kernel's end
-- and the top of RAM.
pub kinit_lem :
    (kend n : ℕ) (k : Kmem)
    → 0 < kend
    → kend ≤ phys_top
    → (round_up kend + n * page_size ≤ phys_top) × (phys_top < round_up kend + (n + 1) * page_size)
    → (k' : Kmem) × (kinit kend k ≡ ok k') × Holds kend k' (push_pages (round_up kend) n [])
unfolding kinit
kinit_lem kend n k pos low hn =
    free_pages_lem kend pos phys_top (omega arith) n (suc (phys_top / page_size)) (round_up kend)
      (record k { freelist = 0 }) [] (omega arith) (omega arith) (omega arith) hn tt
      (record { chain = refl; pages = tt; distinct = tt })
