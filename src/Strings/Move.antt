-- ===== src/Strings/Move.antt =====
-- memset and memmove at every address.
use snu_os.Base.{
  ℕ, zero, suc, ◌+◌, ◌-◌, ◌%◌, ◌≤◌, ◌≡◌, ap, ◌⊎◌, inl, inr, ◌&&◌, arith, ltb, leb, if◌then◌else◌,
  update, Bool-cases,
}
use snu_os.Strings.{Memory, memset_from, memset, move_up, move_down, memmove}

memset_from_lem :
    (dst c k i : ℕ) (m : Memory) (a : ℕ)
    → memset_from dst c k i m a ≡ (if leb (dst + i) a && ltb a (dst + i + k) then c % 256 else m a)
unfolding memset_from
memset_from_lem dst c zero i m a = ground arith
memset_from_lem dst c (suc k) i m a =
    ground (arith, memset_from_lem dst c k (i + 1) (update m (dst + i) (c % 256)) a)

-- memset gives the `n` bytes at `dst` the low byte of `c`, and changes no other byte.
pub memset_lem :
    (dst c n : ℕ) (m : Memory) (a : ℕ)
    → memset dst c n m a ≡ (if leb dst a && ltb a (dst + n) then c % 256 else m a)
unfolding memset
memset_lem dst c n m a = ground (arith, memset_from_lem dst c n 0 m a)

-- Upwards is right unless the destination starts inside the source.
move_up_lem :
    (n d s : ℕ) (m : Memory) (a : ℕ)
    → (d ≤ s) ⊎ (s + n ≤ d)
    → move_up d s n m a ≡ (if leb d a && ltb a (d + n) then m (s + (a - d)) else m a)
unfolding move_up
move_up_lem zero d s m a h = ground arith
move_up_lem (suc n) d s m a h = ground (
  arith,
  move_up_lem n (d + 1) (s + 1) (update m d (m s)) a,
  λ (p : d + 1 ≤ a). ap m (shift p),
  λ (p : a ≡ d). ap m (first p),
)
  where
    shift : d + 1 ≤ a → s + 1 + (a - (d + 1)) ≡ s + (a - d)
    shift p = omega arith

    first : a ≡ d → s + (a - d) ≡ s
    first p = omega arith

-- Downwards is right unless the source starts inside the destination.
move_down_lem :
    (n d s : ℕ) (m : Memory) (a : ℕ)
    → (s ≤ d) ⊎ (d + n ≤ s)
    → move_down (d + n) (s + n) n m a ≡ (if leb d a && ltb a (d + n) then m (s + (a - d)) else m a)
unfolding move_down
move_down_lem zero d s m a h = ground arith
move_down_lem (suc n) d s m a h =
    let ed : d + suc n - 1 ≡ d + n = omega arith in
    let es : s + suc n - 1 ≡ s + n = omega arith in
    rw (ed, es)
      (ground (
        arith,
        move_down_lem n d s (update m (d + n) (m (s + n))) a,
        λ (p : a ≡ d + n). ap m (last p),
      ))
  where
    last : a ≡ d + n → s + (a - d) ≡ s + n
    last p = omega arith

-- memmove copies the `n` bytes at `src` to `dst` as they were before the call, however the two
-- ranges overlap, and changes no other byte.
pub memmove_lem :
    (dst src n : ℕ) (m : Memory) (a : ℕ)
    → memmove dst src n m a ≡ (if leb dst a && ltb a (dst + n) then m (src + (a - dst)) else m a)
unfolding memmove
memmove_lem dst src n m a = elim (Bool-cases (ltb src dst && ltb dst (src + n))) [
  | inl e ↦ ground (arith, e, move_down_lem n dst src m a)
  | inr e ↦ ground (arith, e, move_up_lem n dst src m a)
]
