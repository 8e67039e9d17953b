-- ===== src/Grep.antt =====
-- The matcher of user/grep.c. A C string is the list of its characters before the NUL, so that `[]`
-- is a pointer to the NUL.
pub mod Matches
use snu_os.Base.{ℕ, Bool, true, false, ◌||◌, List, [], ◌∷◌, ◌==◌, if◌then◌else◌}

abbrev pub star : ℕ
star = 42

abbrev pub dot : ℕ
dot = 46

abbrev pub dollar : ℕ
dollar = 36

abbrev pub caret : ℕ
caret = 94

abbrev pub is_end : List ℕ → Bool
is_end [] = true
is_end (t ∷ ts) = false

-- `here` is matchhere of the rest of the pattern.
unfoldable pub matchstar : ℕ → (List ℕ → Bool) → List ℕ → Bool
matchstar c here [] = here []
matchstar c here (t ∷ ts) =
    let rest = matchstar c here ts in
    if here (t ∷ ts) then true else if t == c || c == dot then rest else false

-- the last test of matchhere
abbrev pub match_one : ℕ → (List ℕ → Bool) → List ℕ → Bool
match_one r here [] = false
match_one r here (t ∷ ts) = if r == dot || r == t then here ts else false

unfoldable pub matchhere : List ℕ → List ℕ → Bool
unfolding matchstar
matchhere [] text = true
matchhere (r ∷ []) text = if r == dollar then is_end text else match_one r (matchhere []) text
matchhere (r ∷ s ∷ re) text =
    if s == star then matchstar r (matchhere re) text else match_one r (matchhere (s ∷ re)) text

-- the loop of match
unfoldable pub match_any : List ℕ → List ℕ → Bool
unfolding matchhere
match_any re [] = matchhere re []
match_any re (t ∷ ts) = let rest = match_any re ts in if matchhere re (t ∷ ts) then true else rest

unfoldable pub match : List ℕ → List ℕ → Bool
unfolding match_any
match [] text = match_any [] text
match (r ∷ re) text = if r == caret then matchhere re text else match_any (r ∷ re) text
