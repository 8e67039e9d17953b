-- ===== src/Bio/Scan.antt =====
-- The two loops of bget, and the list that brelse makes.
use snu_os.Base.{
  ℕ, ◌≡◌, ap, ◌∙◌, inl, inr, Bool, true, false, none, some, List, [], ◌∷◌, ◌++◌, arith, ◌==◌,
  ==_iff, elem, Bool-cases, Option-cases,
}
use snu_os.Bio.{find, find_last}

module _ (p : ℕ → Bool) where
  pub find-some : (is : List ℕ) (i : ℕ) → find p is ≡ some i → (elem i is ≡ true) × (p i ≡ true)
  unfolding find
  find-some [] i e = cc
  find-some (j ∷ js) i e = elim (Bool-cases (p j)) [
    | inl h ↦ ground (arith, h)
    | inr h ↦ (let (a, b) = find-some js i (ground (arith, h)) in (ground arith, b))
  ]

  pub find-none : (is : List ℕ) → find p is ≡ none → (i : ℕ) → elem i is ≡ true → p i ≡ false
  unfolding find
  find-none [] e i m = cc
  find-none (j ∷ js) e i m = elim (Bool-cases (p j)) [
    | inl h ↦ absurd (ground (arith, h))
    | inr h ↦ elim (Bool-cases (i == j)) [
      | inl s ↦ ap p ((==_iff i j).0 s) ∙ h
      | inr s ↦ find-none js (ground (arith, h)) i (ground arith)
    ]
  ]

  pub find_last-none :
      (is : List ℕ) → find_last p is ≡ none → (i : ℕ) → elem i is ≡ true → p i ≡ false
  unfolding find_last
  find_last-none [] e i m = cc
  find_last-none (j ∷ js) e i m = elim (Bool-cases (i == j)) [
    | inl s ↦ ap p ((==_iff i j).0 s) ∙ ground (arith, e)
    | inr s ↦ find_last-none js (ground (arith, e)) i (ground arith)
  ]

  -- What the backward loop stops at passes the test, and nothing that was used less recently does.
  pub find_last-some :
      (is : List ℕ) (i : ℕ)
      → find_last p is ≡ some i
      → (newer : List ℕ) × (older : List ℕ) × (is ≡ newer ++ (i ∷ older))
        × (p i ≡ true)
        × ((j : ℕ) → elem j older ≡ true → p j ≡ false)
  unfolding find_last
  find_last-some [] i e = cc
  find_last-some (j ∷ js) i e = elim (Option-cases (find_last p js)) [
    | inl n ↦ (
      [],
      js,
      ground (arith, n),
      ground (arith, n),
      λ k m. ground (arith, n, find_last-none js n k m, ap p),
    )
    | inr (k, s) ↦
        (let (newer, older, at, h, rest) = find_last-some js i (ground (arith, s)) in
          (j ∷ newer, older, ap (λ l. j ∷ l) at, h, rest))
  ]
