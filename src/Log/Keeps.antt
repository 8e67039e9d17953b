-- ===== src/Log/Keeps.antt =====
-- What commit leaves alone.
use snu_os.Base.{ℕ, zero, suc, ◌+◌, ◌≡◌, refl, ◌∙◌, Bool, true, false, if◌then◌else◌}
use snu_os.Base.Words.{lt_int, rounds}
use snu_os.Log.{Log, install_from, install_trans, write_log_from, write_log, write_head, commit}

-- commit works on the buffers, `n` and nothing else.
abbrev pub Keeps : Log → Log → Type 0
Keeps l l' =
    (l'.start ≡ l.start)
    × (l'.size ≡ l.size)
    × (l'.outstanding ≡ l.outstanding)
    × (l'.committing ≡ l.committing)

Keeps-install_from : (r : Bool) (k tail : ℕ) (l : Log) → Keeps l (install_from r k tail l)
unfolding install_from
Keeps-install_from r zero tail l = (refl, refl, refl, refl)
Keeps-install_from true (suc k) tail l = Keeps-install_from true k (tail + 1) _
Keeps-install_from false (suc k) tail l = Keeps-install_from false k (tail + 1) _

Keeps-write_log_from : (k tail : ℕ) (l : Log) → Keeps l (write_log_from k tail l)
unfolding write_log_from
Keeps-write_log_from zero tail l = (refl, refl, refl, refl)
Keeps-write_log_from (suc k) tail l = Keeps-write_log_from k (tail + 1) _

Keeps-write_head : (l : Log) → Keeps l (write_head l)
unfolding write_head
Keeps-write_head l = (refl, refl, refl, refl)

Keeps-trans : (l m n : Log) → Keeps l m → Keeps m n → Keeps l n
Keeps-trans l m n (a, b, c, d) (a', b', c', d') = (a' ∙ a, b' ∙ b, c' ∙ c, d' ∙ d)

Keeps-if : (b : Bool) (l m : Log) → Keeps l m → Keeps l (if b then m else l)
Keeps-if true l m k = k
Keeps-if false l m k = (refl, refl, refl, refl)

-- the three states that commit goes through before it clears the header
module _ (l : Log) where
  abbrev copied : Log
  copied = write_log l

  abbrev named : Log
  named = write_head copied

  abbrev moved : Log
  moved = install_trans false named

  Keeps-moved : Keeps l moved
  unfolding write_log install_trans
  Keeps-moved =
      Keeps-trans l named moved
        (Keeps-trans l copied named (Keeps-write_log_from (rounds l.n) 0 l)
          (Keeps-write_head copied))
        (Keeps-install_from false (rounds named.n) 0 named)

  pub Keeps-commit : Keeps l (commit l)
  unfolding commit
  Keeps-commit = Keeps-if (lt_int 0 l.n) l (write_head (record moved { n = 0 })) (
      Keeps-trans l moved (write_head (record moved { n = 0 })) Keeps-moved
        (Keeps-write_head (record moved { n = 0 })))
