-- ===== src/Strings/Copy.antt =====
-- strncpy, safestrcpy and strlen.
use snu_os.Base.{
  ℕ, zero, suc, ◌+◌, ◌-◌, ◌≤◌, ◌<◌, ◌≡◌, ◌≢◌, refl, sym, ap, ◌∙◌, ◌⊎◌, inl, inr, some, ◌&&◌, arith,
  ltb, leb, ◌==◌, if◌then◌else◌, update, Bool-cases,
}
use snu_os.Strings.{Memory, pad, strncpy, safestrcpy, strlen}

-- No byte below `s`, and none from `s + n` on, changes.
safestrcpy_ne :
    (n s t : ℕ) (m : Memory) (a : ℕ) → (a < s) ⊎ (s + n ≤ a) → safestrcpy s t n m a ≡ m a
unfolding safestrcpy
safestrcpy_ne zero s t m a h = refl
safestrcpy_ne (suc zero) s t m a h = ground arith
safestrcpy_ne (suc (suc n)) s t m a h =
    ground (arith, safestrcpy_ne (suc n) (s + 1) (t + 1) (update m s (m t)) a)

safestrcpy_found :
    (n s t : ℕ) (m : Memory) → 0 < n → (j : ℕ) × (j < n) × (safestrcpy s t n m (s + j) ≡ 0)
unfolding safestrcpy
safestrcpy_found zero s t m h = absurd (omega arith)
safestrcpy_found (suc zero) s t m h = (0, omega arith, ground arith)
safestrcpy_found (suc (suc n)) s t m h = elim (Bool-cases (m t == 0)) [
  | inl e ↦ (1, omega arith, ground (arith, e))
  | inr e ↦
      (let (j, lt, z) = safestrcpy_found (suc n) (s + 1) (t + 1) (update m s (m t)) (omega arith) in
        let at : s + (j + 1) ≡ s + 1 + j = omega arith in (j + 1, omega arith, rw (e, at) z))
]

-- safestrcpy always ends the copy with a NUL inside the `n` bytes at `s`, and writes nowhere else.
pub safestrcpy_terminates :
    (n s t : ℕ) (m : Memory)
    → 0 < n
    → ((j : ℕ) × (j < n) × (safestrcpy s t n m (s + j) ≡ 0))
      × ((a : ℕ) → (a < s) ⊎ (s + n ≤ a) → safestrcpy s t n m a ≡ m a)
safestrcpy_terminates n s t m h = (safestrcpy_found n s t m h, λ a out. safestrcpy_ne n s t m a out)

pad_lem :
    (n s : ℕ) (m : Memory) (a : ℕ) → pad s n m a ≡ (if leb s a && ltb a (s + n) then 0 else m a)
unfolding pad
pad_lem zero s m a = ground arith
pad_lem (suc n) s m a = ground (arith, pad_lem n (s + 1) (update m s 0) a)

-- strncpy of a text of `len` characters that lies apart from the target: the first `n` bytes are
-- the text, then NULs, and no other byte changes.
pub strncpy_lem :
    (n s t len : ℕ) (m : Memory) (a : ℕ)
    → ((j : ℕ) → j < len → m (t + j) ≢ 0)
    → m (t + len) ≡ 0
    → (s + n ≤ t) ⊎ (t + len < s)
    → strncpy s t n m a
      ≡ (if leb s a && ltb a (s + n) then (if ltb (a - s) len then m (t + (a - s)) else 0) else m a)
unfolding strncpy
strncpy_lem zero s t len m a before end apart = ground arith
strncpy_lem (suc n) s t zero m a before end apart =
    let end' : m t ≡ 0 = ap m (omega arith) ∙ end in
    ground (arith, end', pad_lem n (s + 1) (update m s (m t)) a)
strncpy_lem (suc n) s t (suc len) m a before end apart = ground (
  arith,
  first,
  strncpy_lem n (s + 1) (t + 1) len (update m s (m t)) a
      (λ j lt z. before (suc j) (omega arith) (sym (spared j (omega arith)) ∙ z))
      (spared len (omega arith) ∙ end) (omega arith),
  λ (p : s + 1 ≤ a) (q : a - (s + 1) < len). at p q,
  λ (p : a ≡ s). ap m (here p),
)
  where
    first : m t ≢ 0
    first z = before 0 (omega arith) (ap m (omega arith) ∙ z)

    spared : (j : ℕ) → j ≤ len → update m s (m t) (t + 1 + j) ≡ m (t + suc j)
    spared j le = let e : t + 1 + j ≡ t + suc j = omega arith in rw e (ground arith)

    at : s + 1 ≤ a → a - (s + 1) < len → update m s (m t) (t + 1 + (a - (s + 1))) ≡ m (t + (a - s))
    at p q = spared (a - (s + 1)) (omega arith) ∙ ap m (omega arith)

    here : a ≡ s → t + (a - s) ≡ t
    here p = omega arith

strlen_from :
    (k fuel s i len : ℕ) (m : Memory)
    → i + k ≡ len
    → ((j : ℕ) → j < len → m (s + j) ≢ 0)
    → m (s + len) ≡ 0
    → k < fuel
    → strlen fuel s i m ≡ some len
unfolding strlen
strlen_from k zero s i len m e before end lt = absurd (omega arith)
strlen_from zero (suc fuel) s i len m e before end lt =
    let e' : i ≡ len = omega arith in rw e' (ground (arith, end))
strlen_from (suc k) (suc fuel) s i len m e before end lt =
    ground
      (arith, before i, strlen_from k fuel s (i + 1) len m (omega arith) before end (omega arith))

-- strlen returns the number of bytes before the first NUL, with one round of fuel for each and one
-- for the NUL.
pub strlen_lem :
    (len fuel s : ℕ) (m : Memory)
    → ((j : ℕ) → j < len → m (s + j) ≢ 0)
    → m (s + len) ≡ 0
    → len < fuel
    → strlen fuel s 0 m ≡ some len
strlen_lem len fuel s m before end lt = strlen_from len fuel s 0 len m (omega arith) before end lt
