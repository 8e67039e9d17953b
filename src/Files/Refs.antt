-- ===== src/Files/Refs.antt =====
-- Reference counts of open files.
use snu_os.Base.{
  ℕ, zero, suc, ◌+◌, ◌≤◌, ◌<◌, ◌^◌, ◌≡◌, ◌≢◌, refl, ap, ◌∙◌, ◌⊎◌, inl, inr, true, false, none, some,
  arith, ◌==◌, ==_iff, update, Bool-cases, Option-cases,
}
use mathlib.Core.Path.{subst}
use snu_os.Base.Words.{lt_int, sub32, add32}
use snu_os.Base.Outcome.{ok}
use snu_os.Files.{nfile, Ftable, free_file, filealloc, filedup, nothing, fileclose}

free_file-some :
    (k i : ℕ) (t : Ftable) (j : ℕ)
    → free_file k i t ≡ some j
    → (i ≤ j) × (j < i + k) × ((t j).ref ≡ 0)
unfolding free_file
free_file-some zero i t j e = cc
free_file-some (suc k) i t j e = ground (arith, free_file-some k (i + 1) t j)

free_file-none :
    (k i : ℕ) (t : Ftable) → free_file k i t ≡ none → (j : ℕ) → i ≤ j → j < i + k → (t j).ref ≢ 0
unfolding free_file
free_file-none zero i t e j lo hi z = omega arith
free_file-none (suc k) i t e j lo hi z = elim (Bool-cases (i == j)) [
  | inl h ↦ subst (λ x. (t x).ref ≢ 0) ((==_iff i j).0 h) (ground arith) z
  | inr h ↦ free_file-none k (i + 1) t (ground arith) j (ground arith) (omega arith) z
]

-- filealloc gives out a file of the table that nothing refers to, with one reference, and changes no
-- other; or it gives out none, and every file of the table is referred to.
pub filealloc_lem :
    (t : Ftable)
    → ((filealloc t ≡ none) × ((j : ℕ) → j < nfile → (t j).ref ≢ 0))
      ⊎ ((i : ℕ) × (i < nfile)
          × ((t i).ref ≡ 0)
          × (filealloc t ≡ some (i, update t i (record (t i) { ref = 1 }))))
unfolding filealloc
filealloc_lem t = elim (Option-cases (free_file nfile 0 t)) [
  | inl e ↦
      inl (rw (e, filealloc) refl, λ j lt. free_file-none nfile 0 t e j (omega arith) (omega arith))
  | inr (i, e) ↦
      (let (lo, hi, z) = free_file-some nfile 0 t i e in
        inr (i, omega arith, z, rw (e, filealloc) refl))
]

pub filedup-ok :
    (i : ℕ) (t t' : Ftable)
    → (t i).ref < 2 ^ 31
    → filedup i t ≡ ok t'
    → (0 < (t i).ref) × (t' ≡ update t i (record (t i) { ref = add32 (t i).ref 1 }))
unfolding filedup
filedup-ok i t t' small e = elim (Bool-cases (lt_int (t i).ref 1)) [
  | inl h ↦ absurd (ground (arith, e, h))
  | inr h ↦ (ground (arith, h), ground (arith, e, h))
]

pub fileclose-many :
    (i : ℕ) (t : Ftable)
    → 1 < (t i).ref
    → (t i).ref < 2 ^ 31
    → fileclose i t ≡ ok (nothing, update t i (record (t i) { ref = sub32 (t i).ref 1 }))
unfolding fileclose
fileclose-many i t many small =
    let a : lt_int (t i).ref 1 ≡ false = ground arith in
    let b : lt_int 0 (sub32 (t i).ref 1) ≡ true = ground arith in rw (a, b) refl

-- A filedup is undone by a fileclose, which then releases nothing, as long as the count is an int.
pub fileclose-filedup :
    (i : ℕ) (t t' : Ftable)
    → (t i).ref + 1 < 2 ^ 31
    → filedup i t ≡ ok t'
    → (u : Ftable) × (fileclose i t' ≡ ok (nothing, u))
      × ((u i).ref ≡ (t i).ref)
      × ((j : ℕ) → j ≢ i → u j ≡ t j)
fileclose-filedup i t t' small e =
    let (pos, at) = filedup-ok i t t' (omega arith) e in
    let n : (t' i).ref ≡ (t i).ref + 1 =
      ap (λ (x : Ftable). (x i).ref) at ∙ ground (arith, small) in
    (
      update t' i (record (t' i) { ref = sub32 (t' i).ref 1 }),
      fileclose-many i t' (omega arith) (omega arith),
      ground (arith, n, small),
      λ j ne. ground arith ∙ ap (λ (x : Ftable). x j) at ∙ ground (arith, ne),
    )
