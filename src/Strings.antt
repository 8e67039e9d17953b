-- ===== src/Strings.antt =====
-- kernel/string.c over a memory of bytes. A count that the source declares `int` is what is left of
-- it when it is positive, and 0 otherwise; an `int` result is its 32-bit pattern.
pub mod Move
pub mod Compare
pub mod Copy
use snu_os.Base.{
  ℕ, zero, suc, ◌+◌, ◌-◌, ◌%◌, Bool, not, ◌&&◌, Option, none, some, ltb, ◌==◌, if◌then◌else◌,
  update,
}
use snu_os.Base.Words.{sub32}

abbrev pub Memory : Type 0
Memory = ℕ → ℕ

-- the loop of memset from `cdst[i]` on, `k` rounds
unfoldable pub memset_from : ℕ → ℕ → ℕ → ℕ → Memory → Memory
memset_from dst c zero i m = m
memset_from dst c (suc k) i m = memset_from dst c k (i + 1) (update m (dst + i) (c % 256))

unfoldable pub memset : ℕ → ℕ → ℕ → Memory → Memory
unfolding memset_from
memset dst c n m = memset_from dst c n 0 m

unfoldable pub memcmp : ℕ → ℕ → ℕ → Memory → ℕ
memcmp s1 s2 zero m = 0
memcmp s1 s2 (suc n) m =
    let rest = memcmp (s1 + 1) (s2 + 1) n m in
    if not (m s1 == m s2) then sub32 (m s1) (m s2) else rest

-- `while(n-- > 0) *d++ = *s++;`
unfoldable pub move_up : ℕ → ℕ → ℕ → Memory → Memory
move_up d s zero m = m
move_up d s (suc n) m = move_up (d + 1) (s + 1) n (update m d (m s))

-- `while(n-- > 0) *--d = *--s;`, entered with `d` and `s` behind the last byte
unfoldable pub move_down : ℕ → ℕ → ℕ → Memory → Memory
move_down d s zero m = m
move_down d s (suc n) m = move_down (d - 1) (s - 1) n (update m (d - 1) (m (s - 1)))

unfoldable pub memmove : ℕ → ℕ → ℕ → Memory → Memory
unfolding move_up move_down
memmove dst src n m =
    if n == 0
    then m
    else if ltb src dst && ltb dst (src + n)
    then move_down (dst + n) (src + n) n m
    else move_up dst src n m

unfoldable pub strncmp : ℕ → ℕ → ℕ → Memory → ℕ
strncmp p q zero m = 0
strncmp p q (suc n) m =
    let rest = strncmp (p + 1) (q + 1) n m in
    if not (m p == 0) && m p == m q then rest else sub32 (m p) (m q)

-- `while(n-- > 0) *s++ = 0;`
unfoldable pub pad : ℕ → ℕ → Memory → Memory
pad s zero m = m
pad s (suc n) m = pad (s + 1) n (update m s 0)

unfoldable pub strncpy : ℕ → ℕ → ℕ → Memory → Memory
unfolding pad
strncpy s t zero m = m
strncpy s t (suc n) m =
    let copied = update m s (m t) in
    let rest = strncpy (s + 1) (t + 1) n copied in if m t == 0 then pad (s + 1) n copied else rest

unfoldable pub safestrcpy : ℕ → ℕ → ℕ → Memory → Memory
safestrcpy s t zero m = m
safestrcpy s t (suc zero) m = update m s 0
safestrcpy s t (suc (suc n)) m =
    let copied = update m s (m t) in
    let rest = safestrcpy (s + 1) (t + 1) (suc n) copied in
    if m t == 0 then update copied (s + 1) 0 else rest

-- On fuel; `none` when it runs out.
unfoldable pub strlen : ℕ → ℕ → ℕ → Memory → Option ℕ
strlen zero s n m = none
strlen (suc fuel) s n m =
    let rest = strlen fuel s (n + 1) m in if m (s + n) == 0 then some n else rest
