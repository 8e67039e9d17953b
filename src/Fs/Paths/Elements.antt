-- ===== src/Fs/Paths/Elements.antt =====
-- skipelem goes through a path element by element.
use snu_os.Base.{
  ℕ, ◌≤◌, ◌<◌, ◌≡◌, refl, sym, ◌∙◌, ap, ◌⊎◌, inl, inr, false, Option, none, some, List, [], ◌∷◌,
  length, arith, ◌==◌, if◌then◌else◌, Bool-cases,
}
use mathlib.Core.Path.{subst}
use snu_os.Fs.Paths.{slash, skip_slashes, take_elem, drop_elem, is_empty, split_path}

-- A character in front of the first element.
abbrev pub extend : ℕ → List (List ℕ) → List (List ℕ)
extend c [] = (c ∷ []) ∷ []
extend c (e ∷ es) = (c ∷ e) ∷ es

-- A character in front of the elements of the path behind it.
abbrev pub attach : ℕ → List ℕ → List (List ℕ) → List (List ℕ)
attach c [] es = (c ∷ []) ∷ es
attach c (d ∷ ds) es = if d == slash then (c ∷ []) ∷ es else extend c es

-- The maximal parts of a path that have no slash.
unfoldable pub elements : List ℕ → List (List ℕ)
elements [] = []
elements (c ∷ cs) = let rest = elements cs in if c == slash then rest else attach c cs rest

elements-skip_slashes : (p : List ℕ) → elements (skip_slashes p) ≡ elements p
unfolding elements skip_slashes
elements-skip_slashes [] = refl
elements-skip_slashes (c ∷ cs) = elim (Bool-cases (c == slash)) [
  | inl e ↦ rw e (elements-skip_slashes cs)
  | inr e ↦ rw (e, elements) (rw e refl)
]

elements-cons :
    (c : ℕ) (cs : List ℕ) → (c == slash) ≡ false → elements (c ∷ cs) ≡ attach c cs (elements cs)
unfolding elements
elements-cons c cs e = rw e refl

take_elem-cons :
    (c : ℕ) (cs : List ℕ) → (c == slash) ≡ false → take_elem (c ∷ cs) ≡ c ∷ take_elem cs
unfolding take_elem
take_elem-cons c cs e = rw e refl

drop_elem-cons : (c : ℕ) (cs : List ℕ) → (c == slash) ≡ false → drop_elem (c ∷ cs) ≡ drop_elem cs
unfolding drop_elem
drop_elem-cons c cs e = rw e refl

-- A path that starts with no slash starts with its first element.
elements-split :
    (c : ℕ) (cs : List ℕ)
    → (c == slash) ≡ false
    → elements (c ∷ cs) ≡ (c ∷ take_elem cs) ∷ elements (drop_elem cs)
unfolding take_elem drop_elem
elements-split c [] e = elements-cons c [] e
elements-split c (d ∷ ds) e = elim (Bool-cases (d == slash)) [
  | inl f ↦ rw (elements-cons c (d ∷ ds) e, f) refl
  | inr f ↦ rw (elements-cons c (d ∷ ds) e, f, elements-split d ds f) refl
]

length-skip_slashes : (p : List ℕ) → length (skip_slashes p) ≤ length p
unfolding skip_slashes
length-skip_slashes [] = omega arith
length-skip_slashes (c ∷ cs) = ground (arith, length-skip_slashes cs)

length-drop_elem : (p : List ℕ) → length (drop_elem p) ≤ length p
unfolding drop_elem
length-drop_elem [] = omega arith
length-drop_elem (c ∷ cs) = ground (arith, length-drop_elem cs)

skip_slashes_first :
    (p : List ℕ)
    → (skip_slashes p ≡ [])
      ⊎ ((c : ℕ) × (cs : List ℕ) × (skip_slashes p ≡ c ∷ cs) × ((c == slash) ≡ false))
unfolding skip_slashes
skip_slashes_first [] = inl refl
skip_slashes_first (c ∷ cs) = elim (Bool-cases (c == slash)) [
  | inl e ↦ rw e (skip_slashes_first cs)
  | inr e ↦ rw e (inr (c, cs, refl, e))
]

skip_slashes_twice : (p : List ℕ) → skip_slashes (skip_slashes p) ≡ skip_slashes p
unfolding skip_slashes
skip_slashes_twice [] = refl
skip_slashes_twice (c ∷ cs) = elim (Bool-cases (c == slash)) [
  | inl e ↦ rw e (skip_slashes_twice cs)
  | inr e ↦ rw (e, skip_slashes) (rw e refl)
]

-- What a split of the path `p` is: its first element and a path of the others that starts with no
-- slash; or none, for a path with no element.
abbrev pub Split : List ℕ → Option (List ℕ × List ℕ) → Type 0
Split p none = elements p ≡ []
Split p (some (e, rest)) =
    (elements p ≡ e ∷ elements rest) × (skip_slashes rest ≡ rest) × (length rest < length p)

-- skipelem splits the path: it passes the first element and returns a shorter path of the others,
-- without leading slashes, and finds none exactly when the path has no element.
pub split_path-Split : (p : List ℕ) → Split p (split_path p)
unfolding split_path
split_path-Split p = elim (skip_slashes_first p) [
  | inl e ↦
      subst
        (λ q. Split p (if is_empty q then none else some (take_elem q, skip_slashes (drop_elem q))))
        (sym e) (sym (elements-skip_slashes p) ∙ ap elements e ∙ unfold elements in refl)
  | inr (c, cs, e, ne) ↦
      subst
        (λ q. Split p (if is_empty q then none else some (take_elem q, skip_slashes (drop_elem q))))
        (sym e)
        (
          sym (elements-skip_slashes p)
              ∙ ap elements e
              ∙ elements-split c cs ne
              ∙ rw
                  (
                    take_elem-cons c cs ne,
                    drop_elem-cons c cs ne,
                    elements-skip_slashes (drop_elem cs),
                  )
                  refl,
          skip_slashes_twice (drop_elem (c ∷ cs)),
          omega (
            arith,
            ap length e,
            length-skip_slashes p,
            length-skip_slashes (drop_elem (c ∷ cs)),
            length-drop_elem cs,
            ap length (drop_elem-cons c cs ne),
          ),
        )
]
