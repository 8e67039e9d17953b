-- ===== src/Shell/Tokens.antt =====
-- gettoken and peek of user/sh.c on a line that ends at `es`.
use snu_os.Base.{
  ℕ, zero, suc, ◌+◌, ◌-◌, ◌≤◌, ◌<◌, ◌≡◌, refl, sym, ap, ◌∙◌, ◌⊎◌, inl, inr, Bool, true, false, not,
  ◌&&◌, List, ◌==◌, arith, Bool-cases, ==_iff,
}
use mathlib.Core.Path.{subst}
use snu_os.Shell.{
  Memory, symbols, strchr, scan, is_blank, is_word, is_single, skip, take_token, gettoken, peek,
}

-- What a loop over the bytes that pass `test` leaves behind, from `s` to `e`.
abbrev pub Scanned : (ℕ → Bool) → Memory → ℕ → ℕ → ℕ → Type 0
Scanned test m es s e =
    (s ≤ e)
    × (e ≤ es)
    × ((i : ℕ) → s ≤ i → i < e → test (m i) ≡ true)
    × ((e ≡ es) ⊎ (test (m e) ≡ false))

scan-Scanned :
    (test : ℕ → Bool) (m : Memory) (es k s : ℕ) → k + s ≡ es → Scanned test m es s (scan test m k s)
unfolding scan
scan-Scanned test m es zero s h =
    (omega arith, omega arith, (λ i l u. ground arith), inl (omega arith))
scan-Scanned test m es (suc k) s h = elim (Bool-cases (test (m s))) [
  | inr e ↦ rw (e, scan) (omega arith, omega arith, (λ i l u. absurd (omega arith)), inr e)
  | inl e ↦
      (let after = scan-Scanned test m es k (s + 1) (omega arith) in
        rw (e, scan)
          (
            omega (arith, after.0),
            after.1,
            (λ i l u. elim (Bool-cases (i == s)) [
              | inl same ↦ subst (λ j. test (m j) ≡ true) (ground arith) e
              | inr other ↦ after.2 i (ground arith) u
            ]),
            after.3,
          ))
]

scan_stops : (test : ℕ → Bool) (m : Memory) (k s : ℕ) → test (m s) ≡ false → scan test m k s ≡ s
unfolding scan
scan_stops test m zero s e = refl
scan_stops test m (suc k) s e = rw (e, scan) refl

scan_none : (test : ℕ → Bool) (m : Memory) (k s : ℕ) → k ≡ 0 → scan test m k s ≡ s
unfolding scan
scan_none test m zero s e = refl
scan_none test m (suc k) s e = ground arith

not_symbol : (c : ℕ) → is_single c ≡ false → (c == 62) ≡ false → strchr symbols c ≡ false
unfolding strchr
not_symbol c h e = ground arith

pub clash : (b : Bool) → b ≡ true → b ≡ false → ⊥
clash b e h = ground (arith, e, h)

both : (b c : Bool) → (not b && c) ≡ true → b ≡ false
both b c e = ground (arith, e)

letter_a : is_single 97 ≡ false
unfolding strchr
letter_a = refl

-- The bytes of a word, and what stops it.
abbrev pub Word : Memory → ℕ → ℕ → ℕ → Type 0
Word m es q eq = (q < eq) × Scanned is_word m es q eq

-- What gettoken finds at its first byte `q`.
abbrev pub Taken : Memory → ℕ → ℕ → ℕ × ℕ → Type 0
Taken m es q got =
    (q ≤ got.1) × (got.1 ≤ es) × ((m q == 0) ≡ false → q < got.1) × (got.0 ≡ 97 → Word m es q got.1)

letter : (c : ℕ) → is_blank c ≡ false → is_single c ≡ false → (c == 62) ≡ false → is_word c ≡ true
letter c b e h = rw (b, not_symbol c e h) refl

Word-grows :
    (m : Memory) (es s e : ℕ) → Scanned is_word m es s e → s < es → is_word (m s) ≡ true → s < e
Word-grows m es s e w next h = elim (Bool-cases (s == e)) [
  | inr other ↦ (let reached = w.0 in ground (arith, reached, other))
  | inl same ↦
      (let at = (==_iff s e).0 same in
        elim w.3 [
          | inl end ↦ absurd (omega arith)
          | inr stop ↦
              absurd (clash (is_word (m s)) h (subst (λ i. is_word (m i) ≡ false) (sym at) stop))
        ])
]

module _ (m : Memory) (es : ℕ) (ends : m es ≡ 0) where
  pub skip-Scanned : (s : ℕ) → s ≤ es → Scanned is_blank m es s (skip m es s)
  unfolding skip
  skip-Scanned s h = scan-Scanned is_blank m es (es - s) s (omega arith)

  pub skip-skip : (s : ℕ) → s ≤ es → skip m es (skip m es s) ≡ skip m es s
  unfolding skip
  skip-skip s h = elim (skip-Scanned s h).3 [
    | inl e ↦ scan_none is_blank m (es - skip m es s) (skip m es s) (omega arith)
    | inr e ↦ scan_stops is_blank m (es - skip m es s) (skip m es s) e
  ]

  not_end : (s : ℕ) → s ≤ es → (m s == 0) ≡ false → s < es
  not_end s l h = elim (Bool-cases (s == es)) [
    | inl e ↦ absurd (
        clash (m s == 0) (subst (λ i. (m i == 0) ≡ true) (sym ((==_iff s es).0 e)) (rw (ends) refl))
          h)
    | inr e ↦ ground arith
  ]

  shown : (s : ℕ) → s < es → (s ≡ es) ⊎ (is_blank (m s) ≡ false) → is_blank (m s) ≡ false
  shown s h (inl e) = absurd (omega arith)
  shown s h (inr e) = e

  take_token-Taken :
      (s : ℕ) → s ≤ es → (s ≡ es) ⊎ (is_blank (m s) ≡ false) → Taken m es s (take_token m es s)
  unfolding take_token
  take_token-Taken s l b = elim (Bool-cases (m s == 0)) [
    | inl e ↦ rw (e) (omega arith, l, (λ n. ground arith), (λ n. ground arith))
    | inr e ↦
        (let next = not_end s l e in
          elim (Bool-cases (is_single (m s))) [
            | inl e1 ↦
                rw (e, e1)
                  (
                    omega arith,
                    omega (arith, next),
                    (λ n. omega arith),
                    (λ n. absurd (clash (is_single (m s)) e1 (ap is_single n ∙ letter_a))),
                  )
            | inr e1 ↦ elim (Bool-cases (m s == 62)) [
              | inl e2 ↦ elim (Bool-cases (m (s + 1) == 62)) [
                | inl e3 ↦
                    rw (e, e1, e2, e3)
                      (
                        omega arith,
                        omega (arith, not_end (s + 1) (omega (arith, next)) (ground (arith, e3))),
                        (λ n. omega arith),
                        (λ n. ground arith),
                      )
                | inr e3 ↦
                    rw (e, e1, e2, e3)
                      (omega arith, omega (arith, next), (λ n. omega arith), (λ n. ground arith))
              ]
              | inr e2 ↦
                  rw (e, e1, e2)
                    (let w = scan-Scanned is_word m es (es - s) s (omega arith) in
                      let lt =
                        Word-grows m es s (scan is_word m (es - s) s) w next
                          (letter (m s) (shown s next b) e1 e2) in
                      (omega arith, w.1, (λ n. lt), (λ n. (lt, w))))
            ]
          ])
  ]

  -- What gettoken leaves at `s`.
  pub gettoken-Taken :
      (s : ℕ)
      → s ≤ es
      → (let t = gettoken m es s in
          (s ≤ t.q)
          × Taken m es t.q (t.tok, t.eq)
          × (t.eq ≤ t.next)
          × (t.next ≤ es)
          × (t.q ≡ skip m es s))
  unfolding gettoken
  gettoken-Taken s h =
      let blanks = skip-Scanned s h in
      let got = take_token-Taken (skip m es s) blanks.1 blanks.3 in
      let rest = skip-Scanned (take_token m es (skip m es s)).1 got.1 in
      (blanks.0, got, rest.0, rest.1, refl)

  peek-seen : (toks : List ℕ) (s : ℕ) → peek m es toks s ≡ true → (m (skip m es s) == 0) ≡ false
  unfolding peek
  peek-seen toks s e = both (m (skip m es s) == 0) (strchr toks (m (skip m es s))) e

  -- Behind a token that peek saw, less of the line is left.
  pub peek-gettoken :
      (toks : List ℕ) (s : ℕ)
      → s ≤ es
      → peek m es toks s ≡ true
      → (s < (gettoken m es (skip m es s)).next) × ((gettoken m es (skip m es s)).next ≤ es)
  peek-gettoken toks s h e =
      let blanks = skip-Scanned s h in
      let t = gettoken-Taken (skip m es s) blanks.1 in
      let at = t.4 ∙ skip-skip s h in
      let eaten = t.1.2 (ap (λ i. m i == 0) at ∙ peek-seen toks s e) in
      let ahead = t.2 in let start = blanks.0 in (omega (arith, at, eaten, ahead, start), t.3)
