-- ===== src/Pipe/Ring.antt =====
-- The ring holds a queue of at most `pipe_size` bytes, also when `nread` and `nwrite` wrap.
use snu_os.Base.{
  ℕ, zero, suc, ◌%◌, ◌^◌, ◌≤◌, ◌<◌, ◌≡◌, refl, ap, ◌∙◌, ◌↔◌, true, false, List, [], ◌∷◌, ◌++◌,
  length, arith, update,
}
use mathlib.Core.Path.{ap₂}
use snu_os.Base.Words.{add32, sub32}
use snu_os.Pipe.{Pipe, pipe_size, is_full, is_empty, put_byte, get_byte}

-- the `n` bytes from position `r` on
abbrev pub window : (ℕ → ℕ) → ℕ → ℕ → List ℕ
window bytes r zero = []
window bytes r (suc n) = bytes (r % pipe_size) ∷ window bytes (add32 r 1) n

abbrev pub count : Pipe → ℕ
count p = sub32 p.nwrite p.nread

-- What has been written and not read, oldest first.
abbrev pub contents : Pipe → List ℕ
contents p = window p.bytes p.nread (count p)

pub record IsValid (p : Pipe) : Type 0 where
  pub reads : p.nread < 2 ^ 32
  pub writes : p.nwrite < 2 ^ 32
  pub fits : count p ≤ pipe_size

pub length-window : (bytes : ℕ → ℕ) (r n : ℕ) → length (window bytes r n) ≡ n
length-window bytes r zero = refl
length-window bytes r (suc n) = ap suc (length-window bytes (add32 r 1) n)

pub length-contents : (p : Pipe) → length (contents p) ≡ count p
length-contents p = length-window p.bytes p.nread (count p)

window-put :
    (bytes : ℕ → ℕ) (x n r i : ℕ)
    → r < 2 ^ 32
    → n < pipe_size
    → i ≡ add32 r n % pipe_size
    → window (update bytes i x) r (suc n) ≡ window bytes r n ++ (x ∷ [])
window-put bytes x zero r i hr hn e = ground arith
window-put bytes x (suc n) r i hr hn e =
    ap₂ ◌∷◌ (ground arith)
      (window-put bytes x n (add32 r 1) i (omega arith) (omega arith) (omega arith))

module _ (p : Pipe) (v : IsValid p) where
  full-count : is_full p ≡ true → count p ≡ pipe_size
  full-count h = ground (arith, v)

  count-full : count p ≡ pipe_size → is_full p ≡ true
  count-full h = ground (arith, v)

  room-count : is_full p ≡ false → count p < pipe_size
  room-count h = ground (arith, v)

  empty-count : is_empty p ≡ true → count p ≡ 0
  empty-count h = ground (arith, v)

  pub some-count : is_empty p ≡ false → 0 < count p
  some-count h = ground (arith, v)

  -- The full test is that of a queue of `pipe_size` bytes.
  pub full_iff : (is_full p ≡ true) ↔ (length (contents p) ≡ pipe_size)
  full_iff = (
    λ h. length-window p.bytes p.nread (count p) ∙ full-count h,
    λ h. count-full (omega (arith, length-window p.bytes p.nread (count p))),
  )

  pub empty_lem : is_empty p ≡ true → contents p ≡ []
  empty_lem h = ap (λ n. window p.bytes p.nread n) (empty-count h)

  put-count : (ch : ℕ) → is_full p ≡ false → count (put_byte ch p) ≡ suc (count p)
  unfolding put_byte
  put-count ch room = omega (arith, room-count room, v)

  pub put_byte-contents :
      (ch : ℕ)
      → is_full p ≡ false
      → (contents (put_byte ch p) ≡ contents p ++ (ch ∷ [])) × IsValid (put_byte ch p)
  unfolding put_byte
  put_byte-contents ch room = (
    ap (λ n. window (put_byte ch p).bytes p.nread n) (put-count ch room)
        ∙ window-put p.bytes ch (count p) p.nread (p.nwrite % pipe_size) v.reads (room-count room)
            (omega (arith, v)),
    record {
      reads = v.reads;
      writes = omega arith;
      fits = omega (arith, put-count ch room, room-count room);
    },
  )

  get-count : is_empty p ≡ false → count p ≡ suc (count (get_byte p).1)
  unfolding get_byte
  get-count more = omega (arith, some-count more, v)

  pub get_byte-contents :
      is_empty p ≡ false
      → (contents p ≡ (get_byte p).0 ∷ contents (get_byte p).1) × IsValid (get_byte p).1
  unfolding get_byte
  get_byte-contents more = (
    ap (λ n. window p.bytes p.nread n) (get-count more),
    record { reads = omega arith; writes = v.writes; fits = omega (arith, get-count more, v) },
  )
