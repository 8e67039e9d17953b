-- ===== src/Vm.antt =====
-- kernel/vm.c: page tables of three levels in the memory of the page allocator, user memory, and
-- copies between user and kernel memory. A page-table entry is a 64-bit word whose low ten bits are
-- flags, so `|` of an address and flags is a sum.
pub mod Walk
pub mod Copy
pub mod Space
use snu_os.Base.{
  ℕ, zero, suc, ◌+◌, ◌-◌, ◌*◌, ◌/◌, ◌%◌, ◌^◌, min, Bool, true, false, not, ◌&&◌, ◌||◌, ltb, leb,
  ◌==◌, if◌then◌else◌, update,
}
use snu_os.Base.Bytes.{Bytes}
use snu_os.Base.Outcome.{Outcome, ok, panic, panic_if, ◌>>=◌, ◌>>◌}
use snu_os.Kalloc.{Kmem, page_size, fill_page, round_up, kfree, kalloc}

-- MAXVA
abbrev pub max_va : ℕ
max_va = 0x4000000000

-- PTE_R, PTE_W, PTE_X and PTE_U
abbrev pub pte_r : ℕ
pte_r = 2

abbrev pub pte_w : ℕ
pte_w = 4

abbrev pub pte_x : ℕ
pte_x = 8

abbrev pub pte_u : ℕ
pte_u = 16

-- `pte & PTE_V`, `pte & PTE_U`, and whether none of PTE_R, PTE_W and PTE_X is set
abbrev pub is_valid : ℕ → Bool
is_valid pte = pte % 2 == 1

abbrev pub is_user : ℕ → Bool
is_user pte = pte / 16 % 2 == 1

abbrev pub is_table : ℕ → Bool
is_table pte = pte / 2 % 8 == 0

-- PTE2PA, PTE_FLAGS, and an entry for `pa` with `perm` and PTE_V
abbrev pub pte_pa : ℕ → ℕ
pte_pa pte = pte / 1024 * 4096

abbrev pub pte_flags : ℕ → ℕ
pte_flags pte = pte % 1024

abbrev pub make_pte : ℕ → ℕ → ℕ
make_pte pa perm = pa / 4096 * 1024 + (perm / 2 * 2 + 1)

-- PX
abbrev pub px : ℕ → ℕ → ℕ
px level va = va / (4096 * 512 ^ level) % 512

-- PGROUNDDOWN
abbrev pub round_down : ℕ → ℕ
round_down a = a / 4096 * 4096

-- memset(pa, 0, PGSIZE), and an assignment to a word
abbrev pub clear_page : ℕ → Kmem → Kmem
clear_page pa k = record k { word = fill_page k.word pa 0 }

abbrev pub set_word : ℕ → ℕ → Kmem → Kmem
set_word a v k = record k { word = update k.word a v }

-- The loop of walk from `level` down, in the table `pt`.
unfoldable pub walk_from : ℕ → Bool → ℕ → ℕ → Kmem → ℕ × Kmem
walk_from zero alloc pt va k = (pt + 8 * px 0 va, k)
walk_from (suc l) alloc pt va k =
    let pte = pt + 8 * px (suc l) va in
    elim (is_valid (k.word pte)) [
      | true ↦ walk_from l alloc (pte_pa (k.word pte)) va k
      | false ↦ elim (not alloc || (kalloc k).0 == 0) [
        | true ↦ (0, if alloc then (kalloc k).1 else k)
        | false ↦
            walk_from l alloc (kalloc k).0 va
              (set_word pte (make_pte (kalloc k).0 0) (clear_page (kalloc k).0 (kalloc k).1))
      ]
    ]

-- walk: the address of the entry, or 0.
unfoldable pub walk : Bool → ℕ → ℕ → Kmem → Outcome (ℕ × Kmem)
walk alloc pt va k = do panic_if (leb max_va va); ok (walk_from 2 alloc pt va k)

unfoldable pub walkaddr : ℕ → ℕ → Kmem → ℕ
walkaddr pt va k =
    let pte = (walk_from 2 false pt va k).0 in
    let v = k.word pte in
    if leb max_va va || pte == 0 || not (is_valid v) || not (is_user v) then 0 else pte_pa v

-- The loop of mappages: whether it returns 0. `walk` halts at MAXVA, so the fuel is one round for
-- each page below it and one more.
unfoldable pub map_from : ℕ → ℕ → ℕ → ℕ → ℕ → ℕ → Kmem → Outcome (Bool × Kmem)
map_from zero pt a last pa perm k = panic
map_from (suc fuel) pt a last pa perm k = do
  (pte, k1) ← walk true pt a k
  if pte == 0
      then ok (false, k1)
      else (panic_if (is_valid (k1.word pte)) >> elim (a == last) [
        | true ↦ ok (true, set_word pte (make_pte pa perm) k1)
        | false ↦
            map_from fuel pt (a + page_size) last (pa + page_size) perm
              (set_word pte (make_pte pa perm) k1)
      ])

unfoldable pub mappages : ℕ → ℕ → ℕ → ℕ → ℕ → Kmem → Outcome (Bool × Kmem)
mappages pt va size pa perm k = do
  panic_if (size == 0)
  let a = round_down va
  let last = round_down ((va + size + 2 ^ 64 - 1) % 2 ^ 64)
  map_from (suc ((max_va - a) / page_size)) pt a last pa perm k

unfoldable pub kvmmap : ℕ → ℕ → ℕ → ℕ → ℕ → Kmem → Outcome Kmem
kvmmap pt va pa sz perm k = do
  (mapped, k') ← mappages pt va sz pa perm k
  panic_if (not mapped)
  ok k'

-- 0 for no memory
unfoldable pub uvmcreate : Kmem → ℕ × Kmem
uvmcreate k = let (pt, k') = kalloc k in (pt, if pt == 0 then k' else clear_page pt k')

-- a byte of memory, and an assignment to one
abbrev pub byte_at : (ℕ → ℕ) → ℕ → ℕ
byte_at word a = word (a / 8 * 8) / 256 ^ (a % 8) % 256

abbrev pub put_byte : ℕ → ℕ → (ℕ → ℕ) → ℕ → ℕ
put_byte a v word =
    let w = word (a / 8 * 8) in
    let p = 256 ^ (a % 8) in update word (a / 8 * 8) (w / (p * 256) * (p * 256) + v * p + w % p)

-- memmove of `n` bytes, from number `i` of `src`, to memory at `a`
unfoldable pub write_bytes : ℕ → ℕ → ℕ → Bytes → (ℕ → ℕ) → ℕ → ℕ
write_bytes zero a i src word = word
write_bytes (suc n) a i src word = write_bytes n (a + 1) (i + 1) src (put_byte a (src i) word)

-- memmove of a page
abbrev pub copy_page : ℕ → ℕ → Kmem → Kmem
copy_page to from k = record k {
  word = λ a. if leb to a && ltb a (to + page_size) then k.word (from + (a - to)) else k.word a;
}

-- memmove of `n` bytes of memory at `a`, to number `i` of `dst`
abbrev pub read_bytes : ℕ → ℕ → ℕ → (ℕ → ℕ) → Bytes → Bytes
read_bytes n a i word dst j = if leb i j && ltb j (i + n) then byte_at word (a + (j - i)) else dst j

-- The loop of copyout, at number `i` of `src`: whether it returns 0. One round of fuel for each byte
-- is enough, since each round copies at least one.
unfoldable pub copyout_from : ℕ → ℕ → ℕ → ℕ → ℕ → Bytes → Kmem → Bool × Kmem
copyout_from zero pt va len i src k = (len == 0, k)
copyout_from (suc fuel) pt va len i src k =
    let va0 = round_down va in
    let pa0 = walkaddr pt va0 k in
    let n = min len (page_size - (va - va0)) in
    elim (len == 0) [
      | true ↦ (true, k)
      | false ↦ elim (pa0 == 0) [
        | true ↦ (false, k)
        | false ↦
            copyout_from fuel pt (va0 + page_size) (len - n) (i + n) src
              (record k { word = write_bytes n (pa0 + (va - va0)) i src k.word })
      ]
    ]

unfoldable pub copyout : ℕ → ℕ → Bytes → ℕ → Kmem → Bool × Kmem
unfolding copyout_from
copyout pt dstva src len k = copyout_from len pt dstva len 0 src k

-- The loop of copyin, at number `i` of `dst`.
unfoldable pub copyin_from : ℕ → ℕ → ℕ → ℕ → ℕ → Bytes → Kmem → Bool × Bytes
copyin_from zero pt va len i dst k = (len == 0, dst)
copyin_from (suc fuel) pt va len i dst k =
    let va0 = round_down va in
    let pa0 = walkaddr pt va0 k in
    let n = min len (page_size - (va - va0)) in
    elim (len == 0) [
      | true ↦ (true, dst)
      | false ↦ elim (pa0 == 0) [
        | true ↦ (false, dst)
        | false ↦
            copyin_from fuel pt (va0 + page_size) (len - n) (i + n)
              (read_bytes n (pa0 + (va - va0)) i k.word dst) k
      ]
    ]

unfoldable pub copyin : ℕ → Bytes → ℕ → ℕ → Kmem → Bool × Bytes
unfolding copyin_from
copyin pt dst srcva len k = copyin_from len pt srcva len 0 dst k

-- The inner loop of copyinstr, `n` bytes from `p` on: whether it met the NUL, and how far it got.
unfoldable pub string_part : ℕ → ℕ → ℕ → (ℕ → ℕ) → Bytes → Bool × ℕ × Bytes
string_part zero p i word dst = (false, i, dst)
string_part (suc n) p i word dst = elim (byte_at word p == 0) [
  | true ↦ (true, i, update dst i 0)
  | false ↦ string_part n (p + 1) (i + 1) word (update dst i (byte_at word p))
]

-- The outer loop, on one round of fuel for each of `max` bytes.
unfoldable pub copyinstr_from : ℕ → ℕ → ℕ → ℕ → ℕ → Bytes → Kmem → Bool × Bytes
unfolding string_part
copyinstr_from zero pt va max i dst k = (false, dst)
copyinstr_from (suc fuel) pt va max i dst k =
    let va0 = round_down va in
    let pa0 = walkaddr pt va0 k in
    let n = min max (page_size - (va - va0)) in
    let part = string_part n (pa0 + (va - va0)) i k.word dst in
    elim (max == 0) [
      | true ↦ (false, dst)
      | false ↦ elim (pa0 == 0) [
        | true ↦ (false, dst)
        | false ↦ elim (part.0) [
          | true ↦ (true, part.2)
          | false ↦ copyinstr_from fuel pt (va0 + page_size) (max - n) (i + n) part.2 k
        ]
      ]
    ]

unfoldable pub copyinstr : ℕ → Bytes → ℕ → ℕ → Kmem → Bool × Bytes
unfolding copyinstr_from
copyinstr pt dst srcva max k = copyinstr_from max pt srcva max 0 dst k
