-- ===== src/Shell/Words.antt =====
-- parsecmd of user/sh.c: the words of the command that it returns.
use snu_os.Base.{
  ℕ, zero, suc, ◌+◌, ◌-◌, ◌*◌, ◌≤◌, ◌<◌, ◌≡◌, refl, sym, ap, ◌∙◌, inl, inr, true, false, List, [],
  ◌∷◌, ◌==◌, ltb, if◌then◌else◌, arith, Bool-cases, ==_iff, update, update_self, some,
}
use mathlib.Core.Path.{subst}
use snu_os.Shell.{
  Memory, Cmd, exec, redir, pipe, list, back, Result, ok, panic, out_of_fuel, ◌>>=◌, is_word, skip,
  strlen, parseline, terminate_args, nulterminate, parse_to, parsecmd, syntax,
}
use snu_os.Shell.Tokens.{clash}
use snu_os.Shell.Parse.{AllArgs, AllWords, LineWord, Good}
use snu_os.Shell.Grammar.{parseline-Good}

zero-update : (m : Memory) (a i : ℕ) → m i ≡ 0 → update m a 0 i ≡ 0
zero-update m a i h = ground arith

kept-update : (m : Memory) (a i : ℕ) → (a == i) ≡ false → update m a 0 i ≡ m i
kept-update m a i h = rw (h) refl

args-zero : (words : List (ℕ × ℕ)) (m : Memory) (i : ℕ) → m i ≡ 0 → terminate_args words m i ≡ 0
unfolding terminate_args
args-zero [] m i h = h
args-zero (word ∷ words) m i h = args-zero words (update m word.1 0) i (zero-update m word.1 i h)

-- nulterminate leaves a NUL where one is.
nul : (cmd : Cmd) (m : Memory) (i : ℕ) → m i ≡ 0 → nulterminate cmd m i ≡ 0
unfolding nulterminate
nul (exec args) m i h = args-zero args m i h
nul (redir cmd q eq mode fd) m i h = zero-update (nulterminate cmd m) eq i (nul cmd m i h)
nul (pipe left right) m i h = nul right (nulterminate left m) i (nul left m i h)
nul (list left right) m i h = nul right (nulterminate left m) i (nul left m i h)
nul (back cmd) m i h = nul cmd m i h

args-kept :
    (words : List (ℕ × ℕ)) (m : Memory) (i : ℕ)
    → AllArgs (λ q eq. (eq == i) ≡ false) words
    → terminate_args words m i ≡ m i
unfolding terminate_args
args-kept [] m i h = refl
args-kept (word ∷ words) m i h =
    args-kept words (update m word.1 0) i h.1 ∙ kept-update m word.1 i h.0

-- nulterminate leaves each byte that does not stop a word.
kept :
    (cmd : Cmd) (m : Memory) (i : ℕ)
    → AllWords (λ q eq. (eq == i) ≡ false) cmd
    → nulterminate cmd m i ≡ m i
unfolding nulterminate
kept (exec args) m i h = args-kept args m i h
kept (redir cmd q eq mode fd) m i h = kept-update (nulterminate cmd m) eq i h.1 ∙ kept cmd m i h.0
kept (pipe left right) m i h = kept right (nulterminate left m) i h.1 ∙ kept left m i h.0
kept (list left right) m i h = kept right (nulterminate left m) i h.1 ∙ kept left m i h.0
kept (back cmd) m i h = kept cmd m i h

AllArgs-map :
    {P Q : ℕ → ℕ → Type 0} (words : List (ℕ × ℕ))
    → ((q eq : ℕ) → P q eq → Q q eq)
    → AllArgs P words
    → AllArgs Q words
AllArgs-map [] f h = tt
AllArgs-map (word ∷ words) f h = (f word.0 word.1 h.0, AllArgs-map words f h.1)

AllWords-map :
    {P Q : ℕ → ℕ → Type 0} (cmd : Cmd)
    → ((q eq : ℕ) → P q eq → Q q eq)
    → AllWords P cmd
    → AllWords Q cmd
AllWords-map (exec args) f h = AllArgs-map args f h
AllWords-map (redir cmd q eq mode fd) f h = (AllWords-map cmd f h.0, f q eq h.1)
AllWords-map (pipe left right) f h = (AllWords-map left f h.0, AllWords-map right f h.1)
AllWords-map (list left right) f h = (AllWords-map left f h.0, AllWords-map right f h.1)
AllWords-map (back cmd) f h = AllWords-map cmd f h

args-done :
    (P : ℕ → ℕ → Type 0) (words : List (ℕ × ℕ)) (m : Memory)
    → AllArgs P words
    → AllArgs (λ q eq. P q eq × (terminate_args words m eq ≡ 0)) words
unfolding terminate_args
args-done P [] m h = tt
args-done P (word ∷ words) m h = (
  (h.0, args-zero words (update m word.1 0) word.1 (update_self m word.1 0)),
  args-done P words (update m word.1 0) h.1,
)

-- nulterminate puts a NUL behind each word.
done :
    (P : ℕ → ℕ → Type 0) (cmd : Cmd) (m : Memory)
    → AllWords P cmd
    → AllWords (λ q eq. P q eq × (nulterminate cmd m eq ≡ 0)) cmd
unfolding nulterminate
done P (exec args) m h = args-done P args m h
done P (redir cmd q eq mode fd) m h = (
  AllWords-map cmd (λ a e w. (w.0, zero-update (nulterminate cmd m) eq e w.1)) (done P cmd m h.0),
  (h.1, update_self (nulterminate cmd m) eq 0),
)
done P (pipe left right) m h = (
  AllWords-map left (λ a e w. (w.0, nul right (nulterminate left m) e w.1)) (done P left m h.0),
  done P right (nulterminate left m) h.1,
)
done P (list left right) m h = (
  AllWords-map left (λ a e w. (w.0, nul right (nulterminate left m) e w.1)) (done P left m h.0),
  done P right (nulterminate left m) h.1,
)
done P (back cmd) m h = done P cmd m h

-- A line of `n` bytes at `s`: none of them is NUL, and a NUL follows.
abbrev pub IsLine : Memory → ℕ → ℕ → Type 0
IsLine m s n = ((i : ℕ) → s ≤ i → i < s + n → (m i == 0) ≡ false) × (m (s + n) ≡ 0)

-- A word of the line `m` from `s` to `es` that is a C string of the memory `after`.
abbrev pub Text : Memory → ℕ → ℕ → Memory → ℕ → ℕ → Type 0
Text m s es after q eq =
    (s ≤ q)
    × (q < eq)
    × (eq ≤ es)
    × ((i : ℕ) → q ≤ i → i < eq → (is_word (m i) ≡ true) × (after i ≡ m i) × ((m i == 0) ≡ false))
    × (after eq ≡ 0)

-- What parsecmd may return.
abbrev pub Parsed : Memory → ℕ → ℕ → Result (Cmd × Memory) → Type 0
Parsed m s n (ok (cmd, after)) = AllWords (Text m s (s + n) after) cmd
Parsed m s n (panic message) = Unit
Parsed m s n out_of_fuel = ⊥

full : (m : Memory) (s n k : ℕ) → IsLine m s n → k ≤ n → (m (s + k) == 0) ≡ true → k ≡ n
full m s n k h l z = elim (Bool-cases (ltb k n)) [
  | inl e ↦ absurd (clash (m (s + k) == 0) z (h.0 (s + k) (omega arith) (ground (arith, e))))
  | inr e ↦ ground (arith, e)
]

short : (m : Memory) (s n k : ℕ) → IsLine m s n → k ≤ n → (m (s + k) == 0) ≡ false → k < n
short m s n k h l z = elim (Bool-cases (k == n)) [
  | inl e ↦ absurd (
      clash (m (s + k) == 0)
        (subst (λ i. (m (s + i) == 0) ≡ true) (sym ((==_iff k n).0 e)) (rw (h.1) refl)) z)
  | inr e ↦ ground (arith, e)
]

length : (m : Memory) (s n k f : ℕ) → IsLine m s n → k ≤ n → n - k < f → strlen f m s k ≡ some n
unfolding strlen
length m s n k zero h l e = absurd (omega arith)
length m s n k (suc f) h l e = elim (Bool-cases (m (s + k) == 0)) [
  | inl z ↦ rw (z, strlen) (ap some (full m s n k h l z))
  | inr z ↦
      (let below = short m s n k h l z in
        rw (z, strlen) (length m s n (k + 1) f h (omega (arith, below)) (omega (arith, below, e))))
]

-- The byte of a word does not stop another word.
apart :
    (m : Memory) (base es i : ℕ) (cmd : Cmd)
    → i < es
    → is_word (m i) ≡ true
    → AllWords (LineWord m base es) cmd
    → AllWords (λ q eq. (eq == i) ≡ false) cmd
apart m base es i cmd below h words =
    AllWords-map cmd
      (λ q eq w. elim (Bool-cases (eq == i)) [
        | inr e ↦ e
        | inl e ↦ elim w.1.1.3 [
          | inl end ↦ (let at = (==_iff eq i).0 e in absurd (omega arith))
          | inr stop ↦ absurd (
              clash (is_word (m i)) h (subst (λ j. is_word (m j) ≡ false) ((==_iff eq i).0 e) stop))
        ]
      ])
      words

terminated :
    (m : Memory) (s n : ℕ) (cmd : Cmd)
    → IsLine m s n
    → AllWords (LineWord m s (s + n)) cmd
    → AllWords (Text m s (s + n) (nulterminate cmd m)) cmd
terminated m s n cmd h words =
    AllWords-map cmd
      (λ q eq w. (
        w.0.0,
        w.0.1.0,
        w.0.1.1.1,
        (λ i l u. (
          w.0.1.1.2 i l u,
          kept cmd m i
              (apart m s (s + n) i cmd (omega (arith, u, w.0.1.1.1)) (w.0.1.1.2 i l u) words),
          h.0 i (omega (arith, l, w.0.0)) (omega (arith, u, w.0.1.1.1)),
        )),
        w.1,
      ))
      (done (LineWord m s (s + n)) cmd m words)

finished :
    (m : Memory) (s n : ℕ) (r : Result (Cmd × ℕ))
    → IsLine m s n
    → Good (LineWord m s (s + n)) (s + n) s r
    → Parsed m s n (
        r >>= λ (cmd, rest).
        if skip m (s + n) rest == s + n then ok (cmd, nulterminate cmd m) else panic syntax)
finished m s n (ok (cmd, rest)) h good = elim (Bool-cases (skip m (s + n) rest == s + n)) [
  | inl e ↦ rw (e) (terminated m s n cmd h good.2)
  | inr e ↦ rw (e) tt
]
finished m s n (panic message) h good = tt
finished m s n out_of_fuel h good = good

-- parsecmd of the shell ends, and what it returns is made of C strings: for a line of `n` bytes other
-- than NUL that a NUL ends, and more than `4 * n + 5` units of fuel, the recursive descent does not
-- run out of fuel. It panics, or it returns a command and the memory after nulterminate; then each
-- argument and each file name of the command, below whatever pipes, lists, blocks and redirections,
-- is a nonempty stretch of the line that holds no blank, symbol or NUL, all of its bytes are still
-- those of the line, and the byte behind it is now NUL.
pub parsecmd-Parsed :
    (fuel : ℕ) (m : Memory) (s n : ℕ)
    → IsLine m s n
    → 4 * n + 5 < fuel
    → Parsed m s n (parsecmd fuel m s)
unfolding parsecmd parse_to
parsecmd-Parsed fuel m s n h enough =
    rw (length m s n 0 fuel h (omega arith) (omega (arith, enough)), parsecmd)
      (finished m s n (parseline fuel m (s + n) s) h
        (parseline-Good m s (s + n) h.1 fuel s (omega arith) (omega arith) (omega (arith, enough))))
