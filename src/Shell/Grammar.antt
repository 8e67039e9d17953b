-- ===== src/Shell/Grammar.antt =====
-- The recursive descent of user/sh.c: fuel in proportion to the line is enough.
use snu_os.Base.{
  ℕ, zero, suc, ◌+◌, ◌-◌, ◌*◌, ◌≤◌, ◌<◌, ◌≡◌, inl, inr, true, false, List, [], ◌∷◌, arith,
  Bool-cases,
}
use snu_os.Shell.{
  Memory, Cmd, exec, pipe, list, Result, ok, panic, ◌>>=◌, missing_paren, skip, gettoken, peek,
  parseredirs, parse_backs, parseline, parsepipe, parseblock, parseexec,
}
use snu_os.Shell.Tokens.{skip-Scanned, peek-gettoken}
use snu_os.Shell.Parse.{
  AllWords, LineWord, Good-bind, Good-before, skipped, parseredirs-Good, parse_backs-Good,
  parse_args-Good, Reads,
}

module _ (m : Memory) (base es : ℕ) (ends : m es ≡ 0) where
  -- What is left of a command `first` of which the rest is read behind a token of `toks`.
  joined :
      (toks : List ℕ) (s at : ℕ) (first : Cmd) (r : Result (Cmd × ℕ)) (join : Cmd → Cmd → Cmd)
      → s ≤ at
      → at ≤ es
      → AllWords (LineWord m base es) first
      → ((right : Cmd)
          → AllWords (LineWord m base es) right
          → AllWords (LineWord m base es) (join first right))
      → (peek m es toks at ≡ true → Reads m base es ends (gettoken m es (skip m es at)).next r)
      → Reads m base es ends s (elim (peek m es toks at) [
        | false ↦ ok (first, skip m es at)
        | true ↦ r >>= λ (right, end). ok (join first right, end)
      ])
  joined toks s at first r join l u w j rest = elim (Bool-cases (peek m es toks at)) [
    | inr e ↦ rw (e) (
        Good-before (LineWord m base es) es s at (ok (first, skip m es at)) l
          (skipped m base es ends first at u w))
    | inl e ↦
        (let eaten = peek-gettoken m es ends toks at u e in
          let moved = eaten.0 in
          rw (e) (
            Good-bind (LineWord m base es) es s r _
              (Good-before (LineWord m base es) es s (gettoken m es (skip m es at)).next r
                (omega (arith, l, moved)) (rest e))
              λ right end a b v. (a, b, j right v)))
  ]

  -- The closing parenthesis of parseblock and what follows it.
  closed :
      (f s : ℕ) (cmd : Cmd) (at : ℕ)
      → base ≤ s
      → s ≤ at
      → at ≤ es
      → es - at < f
      → AllWords (LineWord m base es) cmd
      → Reads m base es ends s (elim (peek m es (41 ∷ []) at) [
        | false ↦ panic missing_paren
        | true ↦ parseredirs f m es cmd (gettoken m es (skip m es at)).next
      ])
  closed f s cmd at b l u enough w = elim (Bool-cases (peek m es (41 ∷ []) at)) [
    | inr e ↦ rw (e) tt
    | inl e ↦
        (let eaten = peek-gettoken m es ends (41 ∷ []) at u e in
          let moved = eaten.0 in
          let next = (gettoken m es (skip m es at)).next in
          rw (e) (
            Good-before (LineWord m base es) es s next _ (omega (arith, l, moved)) (
              parseredirs-Good m base es ends f cmd next (omega (arith, b, l, moved)) eaten.1
                (omega (arith, enough, moved)) w)))
  ]

  mutual
    unfolding parseline parsepipe parseblock parseexec

    pub parseline-Good :
        (f s : ℕ)
        → base ≤ s
        → s ≤ es
        → 4 * (es - s) + 5 < f
        → Reads m base es ends s (parseline f m es s)
    parseline-Good zero s b h enough = absurd (omega arith)
    parseline-Good (suc f) s b h enough =
        Good-bind (LineWord m base es) es s (parsepipe f m es s) _
          (parsepipe-Good f s b h (omega (arith, enough)))
          λ first after l u w.
            Good-bind (LineWord m base es) es s (parse_backs f m es first after) _
              (Good-before (LineWord m base es) es s after _ l
                (parse_backs-Good m base es ends f first after u (omega (arith, enough, l, h)) w))
              λ cmd rest l1 u1 w1.
                joined (59 ∷ []) s rest cmd (parseline f m es (gettoken m es (skip m es rest)).next)
                  list l1 u1 w1 (λ right v. (w1, v))
                  λ e.
                    (let eaten = peek-gettoken m es ends (59 ∷ []) rest u1 e in
                      let moved = eaten.0 in
                      let inside = eaten.1 in
                      parseline-Good f (gettoken m es (skip m es rest)).next
                        (omega (arith, b, l1, moved)) inside
                        (omega (arith, enough, l1, moved, inside)))

    parsepipe-Good :
        (f s : ℕ)
        → base ≤ s
        → s ≤ es
        → 4 * (es - s) + 4 < f
        → Reads m base es ends s (parsepipe f m es s)
    parsepipe-Good zero s b h enough = absurd (omega arith)
    parsepipe-Good (suc f) s b h enough =
        Good-bind (LineWord m base es) es s (parseexec f m es s) _
          (parseexec-Good f s b h (omega (arith, enough)))
          λ cmd rest l u w.
            joined (124 ∷ []) s rest cmd (parsepipe f m es (gettoken m es (skip m es rest)).next)
              pipe l u w (λ right v. (w, v))
              λ e.
                (let eaten = peek-gettoken m es ends (124 ∷ []) rest u e in
                  let moved = eaten.0 in
                  let inside = eaten.1 in
                  parsepipe-Good f (gettoken m es (skip m es rest)).next
                    (omega (arith, b, l, moved)) inside (omega (arith, enough, l, moved, inside)))

    parseexec-Good :
        (f s : ℕ)
        → base ≤ s
        → s ≤ es
        → 4 * (es - s) + 3 < f
        → Reads m base es ends s (parseexec f m es s)
    parseexec-Good zero s b h enough = absurd (omega arith)
    parseexec-Good (suc f) s b h enough =
        let blanks = skip-Scanned m es ends s h in
        let blank = blanks.0 in
        elim (Bool-cases (peek m es (40 ∷ []) s)) [
          | inl e ↦
              rw (e, parseexec)
                (Good-before (LineWord m base es) es s (skip m es s) _ blank (
                  parseblock-Good f (skip m es s) (omega (arith, b, blank)) blanks.1
                    (omega (arith, enough, blank))))
          | inr e ↦
              rw (e, parseexec)
                (Good-bind (LineWord m base es) es s (parseredirs f m es (exec []) (skip m es s)) _
                  (Good-before (LineWord m base es) es s (skip m es s) _ blank (
                    parseredirs-Good m base es ends f (exec []) (skip m es s)
                      (omega (arith, b, blank)) blanks.1 (omega (arith, enough, blank)) tt))
                  λ ret rest l u w. Good-before (LineWord m base es) es s rest _ l (
                    parse_args-Good m base es ends f ret 0 rest (omega (arith, b, l)) u
                      (omega (arith, enough, l)) w))
        ]

    parseblock-Good :
        (f s : ℕ)
        → base ≤ s
        → s ≤ es
        → 4 * (es - s) + 2 < f
        → Reads m base es ends s (parseblock f m es s)
    parseblock-Good zero s b h enough = absurd (omega arith)
    parseblock-Good (suc f) s b h enough = elim (Bool-cases (peek m es (40 ∷ []) s)) [
      | inr e ↦ rw (e, parseblock) tt
      | inl e ↦
          let eaten = peek-gettoken m es ends (40 ∷ []) s h e in
          let moved = eaten.0 in
          let inside = eaten.1 in
          let next = (gettoken m es (skip m es s)).next in
          rw (e, parseblock)
            (Good-before (LineWord m base es) es s next _ (omega (arith, moved)) (
              Good-bind (LineWord m base es) es next (parseline f m es next) _
                (parseline-Good f next (omega (arith, b, moved)) inside
                  (omega (arith, enough, moved, inside)))
                λ cmd rest l u w.
                  closed f next cmd rest (omega (arith, b, moved)) l u
                    (omega (arith, enough, moved, l)) w))
    ]
