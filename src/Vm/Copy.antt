-- ===== src/Vm/Copy.antt =====
-- copyin of kernel/vm.c goes through the page table byte for byte.
use snu_os.Base.{
  ℕ, zero, suc, ◌+◌, ◌-◌, ◌%◌, ◌≤◌, ◌<◌, ◌≡◌, ◌≢◌, refl, sym, ap, ◌∙◌, ◌⊎◌, inl, inr, min, Bool,
  true, false, arith, ltb, ◌==◌, Bool-cases,
}
use snu_os.Base.Bytes.{Bytes}
use snu_os.Kalloc.{Kmem, page_size}
use snu_os.Vm.{round_down, byte_at, read_bytes, walkaddr, copyin_from, copyin}

-- The page of a user address, 0 if it is not mapped, and the byte at the address.
abbrev pub user_page : ℕ → ℕ → Kmem → ℕ
user_page pt va k = walkaddr pt (round_down va) k

abbrev pub user_byte : ℕ → ℕ → Kmem → ℕ
user_byte pt va k = byte_at k.word (user_page pt va k + va % page_size)

-- What a copy of `len` bytes from `va` has made of `dst`, from number `i` on.
pub record Copied (pt va len i : ℕ) (k : Kmem) (dst out : Bytes) : Type 0 where
  pub mapped : (j : ℕ) → j < len → user_page pt (va + j) k ≢ 0
  pub bytes : (j : ℕ) → j < len → out (i + j) ≡ user_byte pt (va + j) k
  pub before : (a : ℕ) → a < i → out a ≡ dst a
  pub behind : (a : ℕ) → i + len ≤ a → out a ≡ dst a

-- A copy succeeds, and has copied, or fails, and a page is not mapped.
abbrev pub CopyIn : ℕ → ℕ → ℕ → ℕ → Kmem → Bytes → Bool × Bytes → Type 0
CopyIn pt va len i k dst r =
    ((r.0 ≡ true) × Copied pt va len i k dst r.1)
    ⊎ ((r.0 ≡ false) × ((j : ℕ) × (j < len) × (user_page pt (va + j) k ≡ 0)))

same_page :
    (va j : ℕ)
    → j < page_size - (va - round_down va)
    → (round_down (va + j) ≡ round_down va) × ((va + j) % page_size ≡ va - round_down va + j)
same_page va j h = omega arith

-- one round, and what the others have made of the rest
Copied-round :
    (pt va len n i : ℕ) (k : Kmem) (dst out : Bytes)
    → n ≡ min len (page_size - (va - round_down va))
    → user_page pt va k ≢ 0
    → Copied pt
        (round_down va + page_size)
        (len - n)
        (i + n)
        k
        (read_bytes n (user_page pt va k + (va - round_down va)) i k.word dst)
        out
    → Copied pt va len i k dst out
Copied-round pt va len n i k dst out e ne c = record {
  mapped = λ j lt. elim (Bool-cases (ltb j n)) [
    | inl a ↦ (let (same, off) = same_page va j (ground (arith, a, e)) in rw same ne)
    | inr a ↦
        (let at : va + j ≡ round_down va + page_size + (j - n) = ground (arith, a, e, lt) in
          rw at (c.mapped (j - n) (ground (arith, a, lt))))
  ];
  bytes = λ j lt. elim (Bool-cases (ltb j n)) [
    | inl a ↦
        (let (same, off) = same_page va j (ground (arith, a, e)) in
          c.before (i + j) (ground (arith, a))
          ∙ ground (arith, a)
          ∙ ap (λ (x : ℕ). byte_at k.word (user_page pt va k + x)) (sym off)
          ∙ ap (λ (x : ℕ). byte_at k.word (walkaddr pt x k + (va + j) % page_size)) (sym same))
    | inr a ↦
        (let at : round_down va + page_size + (j - n) ≡ va + j = ground (arith, a, e, lt) in
          let to : i + j ≡ i + n + (j - n) = ground (arith, a) in
          ap out to ∙ c.bytes (j - n) (ground (arith, a, lt)) ∙ ap (λ (x : ℕ). user_byte pt x k) at)
  ];
  before = λ a lt. c.before a (omega arith) ∙ ground (arith, lt);
  behind = λ a le. c.behind a (omega (arith, e)) ∙ ground (arith, le, e);
}

copyin_from-CopyIn :
    (fuel pt va len i : ℕ) (dst : Bytes) (k : Kmem)
    → len ≤ fuel
    → CopyIn pt va len i k dst (copyin_from fuel pt va len i dst k)
unfolding copyin_from
copyin_from-CopyIn zero pt va len i dst k h = inl (
  ground arith,
  record {
    mapped = λ j lt. absurd (omega arith);
    bytes = λ j lt. absurd (omega arith);
    before = λ a lt. refl;
    behind = λ a le. refl;
  },
)
copyin_from-CopyIn (suc fuel) pt va len i dst k h = elim (Bool-cases (len == 0)) [
  | inl e ↦
      rw (e, copyin_from)
        (inl (
          refl,
          record {
            mapped = λ j lt. absurd (ground arith);
            bytes = λ j lt. absurd (ground arith);
            before = λ a lt. refl;
            behind = λ a le. refl;
          },
        ))
  | inr e ↦ elim (Bool-cases (user_page pt va k == 0)) [
    | inl z ↦
        rw (e, z, copyin_from)
          (let here : va + 0 ≡ va = omega arith in
            inr
              (refl, (0, ground arith, ap (λ (x : ℕ). user_page pt x k) here ∙ ground (arith, z))))
    | inr z ↦
        (let n = min len (page_size - (va - round_down va)) in
          rw (e, z, copyin_from)
            (elim (copyin_from-CopyIn fuel pt (round_down va + page_size) (len - n) (i + n)
              (read_bytes n (user_page pt va k + (va - round_down va)) i k.word dst) k
              (ground (arith, e, h))) [
                | inl (t, c) ↦
                    inl (t, Copied-round pt va len n i k dst _ refl (ground (arith, z)) c)
                | inr (f, (j, lt, q)) ↦
                    (let at : va + (n + j) ≡ round_down va + page_size + j = omega (arith, lt) in
                      inr (f, (n + j, omega arith, ap (λ (x : ℕ). user_page pt x k) at ∙ q)))
              ]))
  ]
]

-- copyin returns 0 with each byte of the buffer the one at its user address, looked up page by page,
-- and no byte beyond the buffer changed; or it returns -1 and some page of the buffer is not mapped
-- for the user. One of the two is so for any address and length.
pub copyin-CopyIn :
    (pt va len : ℕ) (dst : Bytes) (k : Kmem) → CopyIn pt va len 0 k dst (copyin pt dst va len k)
unfolding copyin
copyin-CopyIn pt va len dst k = copyin_from-CopyIn len pt va len 0 dst k (omega arith)
