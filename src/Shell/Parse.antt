-- ===== src/Shell/Parse.antt =====
-- The loops of the parser of user/sh.c, on a line of the bytes from `base` to `es`.
use snu_os.Base.{
  ℕ, zero, suc, ◌+◌, ◌-◌, ◌≤◌, ◌<◌, ◌≡◌, inl, inr, List, [], ◌∷◌, ◌++◌, ltb, ◌==◌, arith,
  Bool-cases, ==_iff,
}
use snu_os.Shell.{
  Memory, Cmd, exec, redir, pipe, list, back, Result, ok, panic, out_of_fuel, ◌>>=◌, max_args, skip,
  gettoken, peek, redirect, parseredirs, add_arg, parse_args, parse_backs,
}
use snu_os.Shell.Tokens.{Word, skip-Scanned, gettoken-Taken, peek-gettoken}

-- `P` of the two addresses of each word of a command.
abbrev pub AllArgs : (ℕ → ℕ → Type 0) → List (ℕ × ℕ) → Type 0
AllArgs P [] = Unit
AllArgs P (word ∷ words) = P word.0 word.1 × AllArgs P words

abbrev pub AllWords : (ℕ → ℕ → Type 0) → Cmd → Type 0
AllWords P (exec args) = AllArgs P args
AllWords P (redir cmd q eq mode fd) = AllWords P cmd × P q eq
AllWords P (pipe left right) = AllWords P left × AllWords P right
AllWords P (list left right) = AllWords P left × AllWords P right
AllWords P (back cmd) = AllWords P cmd

-- A command that is read from `s` on, or a panic.
abbrev pub Good : (ℕ → ℕ → Type 0) → ℕ → ℕ → Result (Cmd × ℕ) → Type 0
Good P es s (ok (cmd, e)) = (s ≤ e) × (e ≤ es) × AllWords P cmd
Good P es s (panic message) = Unit
Good P es s out_of_fuel = ⊥

pub Good-bind :
    (P : ℕ → ℕ → Type 0) (es s : ℕ) (r : Result (Cmd × ℕ)) (k : Cmd × ℕ → Result (Cmd × ℕ))
    → Good P es s r
    → ((cmd : Cmd) (e : ℕ) → s ≤ e → e ≤ es → AllWords P cmd → Good P es s (k (cmd, e)))
    → Good P es s (r >>= k)
Good-bind P es s (ok (cmd, e)) k h go = go cmd e h.0 h.1 h.2
Good-bind P es s (panic message) k h go = tt
Good-bind P es s out_of_fuel k h go = absurd h

pub Good-before :
    (P : ℕ → ℕ → Type 0) (es s t : ℕ) (r : Result (Cmd × ℕ)) → s ≤ t → Good P es t r → Good P es s r
Good-before P es s t (ok (cmd, e)) l h = (let after = h.0 in omega (arith, l, after), h.1, h.2)
Good-before P es s t (panic message) l h = tt
Good-before P es s t out_of_fuel l h = h

AllArgs-append :
    (P : ℕ → ℕ → Type 0) (words : List (ℕ × ℕ)) (word : ℕ × ℕ)
    → AllArgs P words
    → P word.0 word.1
    → AllArgs P (words ++ (word ∷ []))
AllArgs-append P [] word h p = (p, tt)
AllArgs-append P (w ∷ words) word h p = (h.0, AllArgs-append P words word h.1 p)

add_arg-AllWords :
    (P : ℕ → ℕ → Type 0) (cmd : Cmd) (word : ℕ × ℕ)
    → AllWords P cmd
    → P word.0 word.1
    → AllWords P (add_arg cmd word)
add_arg-AllWords P (exec args) word h p = AllArgs-append P args word h p
add_arg-AllWords P (redir cmd q eq mode fd) word h p = (add_arg-AllWords P cmd word h.0 p, h.1)
add_arg-AllWords P (pipe left right) word h p = h
add_arg-AllWords P (list left right) word h p = h
add_arg-AllWords P (back cmd) word h p = h

redirect-AllWords :
    (P : ℕ → ℕ → Type 0) (tok : ℕ) (cmd : Cmd) (q eq : ℕ)
    → AllWords P cmd
    → P q eq
    → AllWords P (redirect tok cmd q eq)
redirect-AllWords P tok cmd q eq h p = elim (Bool-cases (tok == 60)) [
  | inl e ↦ rw (e) (h, p)
  | inr e ↦ elim (Bool-cases (tok == 62)) [
    | inl e1 ↦ rw (e, e1) (h, p)
    | inr e1 ↦ elim (Bool-cases (tok == 43)) [
      | inl e2 ↦ rw (e, e1, e2) (h, p)
      | inr e2 ↦ rw (e, e1, e2) h
    ]
  ]
]

-- A word of the line: its addresses lie between `base` and `es`.
abbrev pub LineWord : Memory → ℕ → ℕ → ℕ → ℕ → Type 0
LineWord m base es q eq = (base ≤ q) × Word m es q eq

module _ (m : Memory) (base es : ℕ) (ends : m es ≡ 0) where
  abbrev pub Reads : ℕ → Result (Cmd × ℕ) → Type 0
  Reads s r = Good (LineWord m base es) es s r

  pub skipped :
      (cmd : Cmd) (s : ℕ)
      → s ≤ es
      → AllWords (LineWord m base es) cmd
      → Reads s (ok (cmd, skip m es s))
  skipped cmd s h w = let blanks = skip-Scanned m es ends s h in (blanks.0, blanks.1, w)

  pub parseredirs-Good :
      (f : ℕ) (cmd : Cmd) (s : ℕ)
      → base ≤ s
      → s ≤ es
      → es - s < f
      → AllWords (LineWord m base es) cmd
      → Reads s (parseredirs f m es cmd s)
  unfolding parseredirs
  parseredirs-Good zero cmd s b h enough w = absurd (omega arith)
  parseredirs-Good (suc f) cmd s b h enough w = elim (Bool-cases (peek m es (60 ∷ 62 ∷ []) s)) [
    | inr e ↦ rw (e, parseredirs) (skipped cmd s h w)
    | inl e ↦
        (let op = gettoken m es (skip m es s) in
          let eaten = peek-gettoken m es ends (60 ∷ 62 ∷ []) s h e in
          let moved = eaten.0 in
          let file = gettoken m es op.next in
          let found = gettoken-Taken m es ends op.next eaten.1 in
          let ahead = found.0 in
          let inside = found.1.0 in
          let behind = found.2 in
          elim (Bool-cases (file.tok == 97)) [
            | inr e1 ↦ rw (e, e1, parseredirs) tt
            | inl e1 ↦
                rw (e, e1, parseredirs)
                  (Good-before (LineWord m base es) es s file.next
                    (parseredirs f m es (redirect op.tok cmd file.q file.eq) file.next)
                    (omega (arith, moved, ahead, inside, behind))
                    (parseredirs-Good f (redirect op.tok cmd file.q file.eq) file.next
                      (omega (arith, b, moved, ahead, inside, behind)) found.3
                      (omega (arith, enough, moved, ahead, inside, behind))
                      (redirect-AllWords (LineWord m base es) op.tok cmd file.q file.eq w
                        (omega (arith, b, moved, ahead), found.1.3 ((==_iff file.tok 97).0 e1)))))
          ])
  ]

  pub parse_backs-Good :
      (f : ℕ) (cmd : Cmd) (s : ℕ)
      → s ≤ es
      → es - s < f
      → AllWords (LineWord m base es) cmd
      → Reads s (parse_backs f m es cmd s)
  unfolding parse_backs
  parse_backs-Good zero cmd s h enough w = absurd (omega arith)
  parse_backs-Good (suc f) cmd s h enough w = elim (Bool-cases (peek m es (38 ∷ []) s)) [
    | inr e ↦ rw (e, parse_backs) (skipped cmd s h w)
    | inl e ↦
        (let eaten = peek-gettoken m es ends (38 ∷ []) s h e in
          let moved = eaten.0 in
          let next = (gettoken m es (skip m es s)).next in
          rw (e, parse_backs)
            (Good-before (LineWord m base es) es s next (parse_backs f m es (back cmd) next)
              (omega (arith, moved))
              (parse_backs-Good f (back cmd) next eaten.1 (omega (arith, enough, moved, h)) w)))
  ]

  pub parse_args-Good :
      (f : ℕ) (cmd : Cmd) (argc s : ℕ)
      → base ≤ s
      → s ≤ es
      → es - s + 1 < f
      → AllWords (LineWord m base es) cmd
      → Reads s (parse_args f m es cmd argc s)
  unfolding parse_args
  parse_args-Good zero cmd argc s b h enough w = absurd (omega arith)
  parse_args-Good (suc f) cmd argc s b h enough w =
      elim (Bool-cases (peek m es (124 ∷ 41 ∷ 38 ∷ 59 ∷ []) s)) [
        | inl e ↦ rw (e, parse_args) (skipped cmd s h w)
        | inr e ↦
            (let blanks = skip-Scanned m es ends s h in
              let blank = blanks.0 in
              let word = gettoken m es (skip m es s) in
              let found = gettoken-Taken m es ends (skip m es s) blanks.1 in
              let ahead = found.0 in
              let inside = found.1.0 in
              let behind = found.2 in
              elim (Bool-cases (word.tok == 0)) [
                | inl e1 ↦
                    rw (e, e1, parse_args) (omega (arith, blank, ahead, inside, behind), found.3, w)
                | inr e1 ↦ elim (Bool-cases (word.tok == 97)) [
                  | inr e2 ↦ rw (e, e1, e2, parse_args) tt
                  | inl e2 ↦ elim (Bool-cases (ltb (argc + 1) max_args)) [
                    | inr e3 ↦ rw (e, e1, e2, e3, parse_args) tt
                    | inl e3 ↦
                        (let text = found.1.3 ((==_iff word.tok 97).0 e2) in
                          let wide = text.0 in
                          rw (e, e1, e2, e3, parse_args)
                            (Good-before (LineWord m base es) es s word.next _
                              (omega (arith, blank, ahead, inside, behind))
                              (Good-bind (LineWord m base es) es word.next _ _
                                (parseredirs-Good f (add_arg cmd (word.q, word.eq)) word.next
                                  (omega (arith, b, blank, ahead, inside, behind)) found.3
                                  (omega (arith, enough, blank, ahead, wide, behind, h))
                                  (add_arg-AllWords (LineWord m base es) cmd (word.q, word.eq) w
                                    (omega (arith, b, blank, ahead), text)))
                                λ ret rest l u v.
                                  Good-before (LineWord m base es) es word.next rest _ l (
                                    parse_args-Good f ret (argc + 1) rest
                                      (omega (arith, b, blank, ahead, inside, behind, l)) u
                                      (omega (arith, enough, blank, ahead, wide, behind, l, h))
                                      v))))
                  ]
                ]
              ])
      ]
