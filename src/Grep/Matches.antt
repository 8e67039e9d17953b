-- ===== src/Grep/Matches.antt =====
-- What a pattern of user/grep.c means, and that the matcher decides it.
use snu_os.Base.{
  ℕ, ◌≡◌, ◌≢◌, ◌↔◌, refl, ap, ◌⊎◌, inl, inr, Bool, true, ◌||◌, List, [], ◌∷◌, ◌++◌, arith, ◌==◌,
  Bool-cases,
}
use snu_os.Grep.{
  star, dot, dollar, caret, is_end, matchstar, match_one, matchhere, match_any, match,
}

-- A character of the pattern stands for a character of the text.
abbrev pub Fits : ℕ → ℕ → Type 0
Fits r t = (r ≡ dot) ⊎ (r ≡ t)

abbrev pub AllFit : ℕ → List ℕ → Type 0
AllFit r [] = Unit
AllFit r (t ∷ ts) = Fits r t × AllFit r ts

-- The text starts with what `r*` and then `Rest` describe.
abbrev pub Starred : ℕ → (List ℕ → Type 0) → List ℕ → Type 0
Starred r Rest text = (xs : List ℕ) × (ys : List ℕ) × (text ≡ xs ++ ys) × AllFit r xs × Rest ys

abbrev pub Single : ℕ → (List ℕ → Type 0) → List ℕ → Type 0
Single r Rest text = (t : ℕ) × (ts : List ℕ) × (text ≡ t ∷ ts) × Fits r t × Rest ts

-- The text starts with what the pattern describes.
abbrev pub Here : List ℕ → List ℕ → Type 0
Here [] text = Unit
Here (r ∷ []) text = ((r ≡ dollar) × (text ≡ [])) ⊎ ((r ≢ dollar) × Single r (Here []) text)
Here (r ∷ s ∷ re) text =
    ((s ≡ star) × Starred r (Here re) text) ⊎ ((s ≢ star) × Single r (Here (s ∷ re)) text)

-- Some part of the text is what the pattern describes, from the start if it begins with a caret.
abbrev pub Matches : List ℕ → List ℕ → Type 0
Matches [] text = Unit
Matches (r ∷ re) text =
    ((r ≡ caret) × Here re text)
    ⊎ ((r ≢ caret) × ((xs : List ℕ) × (ys : List ℕ) × (text ≡ xs ++ ys) × Here (r ∷ re) ys))

Fits-sound : (c t : ℕ) → (t == c || c == dot) ≡ true → Fits c t
Fits-sound c t e = elim (Bool-cases (c == dot)) [
  | inl g ↦ inl (ground arith)
  | inr g ↦ inr (ground (arith, e, g))
]

matchstar_sound :
    (c : ℕ) (here : List ℕ → Bool) (Rest : List ℕ → Type 0) (text : List ℕ)
    → ((ys : List ℕ) → here ys ≡ true → Rest ys)
    → matchstar c here text ≡ true
    → Starred c Rest text
unfolding matchstar
matchstar_sound c here Rest [] h e = ([], [], refl, tt, h [] e)
matchstar_sound c here Rest (t ∷ ts) h e = elim (Bool-cases (here (t ∷ ts))) [
  | inl g ↦ ([], t ∷ ts, refl, tt, h (t ∷ ts) g)
  | inr g ↦
      (let (xs, ys, at, fit, rest) = matchstar_sound c here Rest ts h (ground (arith, e, g)) in
        (t ∷ xs, ys, ap (λ l. t ∷ l) at, (Fits-sound c t (ground (arith, e, g)), fit), rest))
]

matchstar_complete :
    (c : ℕ) (here : List ℕ → Bool) (xs ys : List ℕ)
    → AllFit c xs
    → here ys ≡ true
    → matchstar c here (xs ++ ys) ≡ true
unfolding matchstar
matchstar_complete c here [] [] fit h = h
matchstar_complete c here [] (y ∷ ys) fit h = ground (arith, h)
matchstar_complete c here (x ∷ xs) ys (fit, fits) h =
    let rest : matchstar c here (xs ++ ys) ≡ true = matchstar_complete c here xs ys fits h in
    elim fit [ inl e ↦ ground (arith, e, rest) | inr e ↦ ground (arith, e, rest) ]

one_sound :
    (r : ℕ) (here : List ℕ → Bool) (Rest : List ℕ → Type 0) (text : List ℕ)
    → ((ts : List ℕ) → here ts ≡ true → Rest ts)
    → match_one r here text ≡ true
    → Single r Rest text
one_sound r here Rest [] h e = cc
one_sound r here Rest (t ∷ ts) h e = elim (Bool-cases (r == dot || r == t)) [
  | inl g ↦ (
    t,
    ts,
    refl,
    elim (Bool-cases (r == dot)) [
      | inl d ↦ inl (ground arith)
      | inr d ↦ inr (ground (arith, g, d))
    ],
    h ts (ground (arith, e, g)),
  )
  | inr g ↦ absurd (ground (arith, e, g))
]

one_complete :
    (r : ℕ) (here : List ℕ → Bool) (t : ℕ) (ts : List ℕ)
    → Fits r t
    → here ts ≡ true
    → match_one r here (t ∷ ts) ≡ true
one_complete r here t ts (inl e) h = ground (arith, e, h)
one_complete r here t ts (inr e) h = ground (arith, e, h)

is_end_sound : (text : List ℕ) → is_end text ≡ true → text ≡ []
is_end_sound [] e = refl
is_end_sound (t ∷ ts) e = cc

matchhere_sound : (re text : List ℕ) → matchhere re text ≡ true → Here re text
unfolding matchhere
matchhere_sound [] text e = tt
matchhere_sound (r ∷ []) text e = elim (Bool-cases (r == dollar)) [
  | inl g ↦ inl (ground arith, is_end_sound text (ground (arith, e, g)))
  | inr g ↦ inr (
    ground arith,
    one_sound r (matchhere []) (Here []) text (matchhere_sound []) (ground (arith, e, g)),
  )
]
matchhere_sound (r ∷ s ∷ re) text e = elim (Bool-cases (s == star)) [
  | inl g ↦ inl (
    ground arith,
    matchstar_sound r (matchhere re) (Here re) text (matchhere_sound re) (ground (arith, e, g)),
  )
  | inr g ↦ inr (
    ground arith,
    one_sound r (matchhere (s ∷ re)) (Here (s ∷ re)) text (matchhere_sound (s ∷ re))
        (ground (arith, e, g)),
  )
]

matchhere_complete : (re text : List ℕ) → Here re text → matchhere re text ≡ true
unfolding matchhere
matchhere_complete [] text h = refl
matchhere_complete (r ∷ []) text (inl (e, at)) = rw at (ground (arith, e))
matchhere_complete (r ∷ []) text (inr (ne, (t, ts, at, fit, rest))) =
    rw at (ground (arith, ne, one_complete r (matchhere []) t ts fit refl))
matchhere_complete (r ∷ s ∷ re) text (inl (e, (xs, ys, at, fit, rest))) = rw at (
    ground
      (arith, e, matchstar_complete r (matchhere re) xs ys fit (matchhere_complete re ys rest)))
matchhere_complete (r ∷ s ∷ re) text (inr (ne, (t, ts, at, fit, rest))) = rw at (
    ground (
      arith,
      ne,
      one_complete r (matchhere (s ∷ re)) t ts fit (matchhere_complete (s ∷ re) ts rest),
    ))

-- Some end of the text starts with what the pattern describes.
abbrev pub Somewhere : List ℕ → List ℕ → Type 0
Somewhere re text = (xs : List ℕ) × (ys : List ℕ) × (text ≡ xs ++ ys) × Here re ys

match_any_sound : (re text : List ℕ) → match_any re text ≡ true → Somewhere re text
unfolding match_any
match_any_sound re [] e = ([], [], refl, matchhere_sound re [] e)
match_any_sound re (t ∷ ts) e = elim (Bool-cases (matchhere re (t ∷ ts))) [
  | inl g ↦ ([], t ∷ ts, refl, matchhere_sound re (t ∷ ts) g)
  | inr g ↦
      (let (xs, ys, at, here) = match_any_sound re ts (ground (arith, e, g)) in
        (t ∷ xs, ys, ap (λ l. t ∷ l) at, here))
]

match_any_complete : (re xs ys : List ℕ) → matchhere re ys ≡ true → match_any re (xs ++ ys) ≡ true
unfolding match_any
match_any_complete re [] [] e = e
match_any_complete re [] (y ∷ ys) e = ground (arith, e)
match_any_complete re (x ∷ xs) ys e = ground (arith, match_any_complete re xs ys e)

-- match finds exactly the texts that contain what the pattern describes, at their start if the
-- pattern begins with a caret: a dot stands for any character, a character before a star for any
-- number of its kind, and a dollar at the end for the end of the text.
pub match_iff : (re text : List ℕ) → (match re text ≡ true) ↔ Matches re text
unfolding match
match_iff [] text = (λ e. tt, λ h. match_any_complete [] [] text (matchhere_complete [] text tt))
match_iff (r ∷ re) text = elim (Bool-cases (r == caret)) [
  | inl g ↦ (
    λ e. inl (ground arith, matchhere_sound re text (ground (arith, e, g))),
    λ h. elim h [
      | inl (c, here) ↦ ground (arith, g, matchhere_complete re text here)
      | inr (n, rest) ↦ absurd (ground arith)
    ],
  )
  | inr g ↦ (
    λ e. inr (ground arith, match_any_sound (r ∷ re) text (ground (arith, e, g))),
    λ h. elim h [
      | inl (c, here) ↦ absurd (ground arith)
      | inr (n, (xs, ys, at, here)) ↦ rw at (
          ground
            (arith, g, match_any_complete (r ∷ re) xs ys (matchhere_complete (r ∷ re) ys here)))
    ],
  )
]
