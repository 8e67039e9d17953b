-- ===== src/Vm/Space.antt =====
-- User address spaces in kernel/vm.c: what grows, shrinks, copies and frees them. `kend` is the end
-- of the kernel, for kfree.
use snu_os.Base.{
  ℕ, zero, suc, ◌+◌, ◌-◌, ◌*◌, ◌/◌, ◌%◌, ◌^◌, Bool, true, false, not, ◌&&◌, ltb, leb, ◌==◌,
  if◌then◌else◌,
}
use snu_os.Base.Bytes.{Bytes}
use snu_os.Base.Outcome.{Outcome, ok, panic, panic_if, ◌>>=◌, ◌>>◌}
use snu_os.Kalloc.{Kmem, page_size, round_up, kfree, kalloc}
use snu_os.Vm.{
  pte_r, pte_w, pte_x, pte_u, is_valid, is_user, is_table, pte_pa, pte_flags, clear_page, copy_page,
  set_word, walk, mappages, write_bytes,
}

module _ (kend : ℕ) where
  -- The loop of uvmunmap, `n` rounds from `a` on.
  unfoldable pub unmap_from : ℕ → ℕ → ℕ → Bool → Kmem → Outcome Kmem
  unmap_from zero pt a do_free k = ok k
  unmap_from (suc n) pt a do_free k = do
    (pte, k1) ← walk false pt a k
    panic_if (pte == 0)
    panic_if (not (is_valid (k1.word pte)))
    panic_if (pte_flags (k1.word pte) == 1)
    k2 ← if do_free then kfree kend k1 (pte_pa (k1.word pte)) else ok k1
    unmap_from n pt (a + page_size) do_free (set_word pte 0 k2)

  -- The rounds are those until `a` reaches `va + npages*PGSIZE` as a 64-bit number.
  unfoldable pub uvmunmap : ℕ → ℕ → ℕ → Bool → Kmem → Outcome Kmem
  uvmunmap pt va npages do_free k = do
    panic_if (not (va % page_size == 0))
    let end = (va + npages * page_size) % 2 ^ 64
    unmap_from ((end - va + 4095) / page_size) pt va do_free k

  unfoldable pub uvmfirst : ℕ → Bytes → ℕ → Kmem → Outcome Kmem
  uvmfirst pt src sz k = do
    panic_if (leb page_size sz)
    let (mem, k1) = kalloc k
    (mapped, k2) ← mappages pt 0 page_size mem (pte_w + pte_r + pte_x + pte_u) (clear_page mem k1)
    ok (record k2 { word = write_bytes sz mem 0 src k2.word })

  -- uvmdealloc: the new size.
  unfoldable pub uvmdealloc : ℕ → ℕ → ℕ → Kmem → Outcome (ℕ × Kmem)
  uvmdealloc pt oldsz newsz k =
      if leb oldsz newsz
      then ok (oldsz, k)
      else if ltb (round_up newsz) (round_up oldsz)
      then (uvmunmap pt (round_up newsz) ((round_up oldsz - round_up newsz) / page_size) true k
          >>= λ k'. ok (newsz, k'))
      else ok (newsz, k)

  -- the way out of uvmalloc when memory is short at `a`
  abbrev pub give_up : ℕ → ℕ → ℕ → Kmem → Outcome (ℕ × Kmem)
  give_up pt a oldsz k = uvmdealloc pt a oldsz k >>= λ r. ok (0, r.1)

  -- The loop of uvmalloc, `n` rounds from `a` on.
  unfoldable pub grow_from : ℕ → ℕ → ℕ → ℕ → ℕ → ℕ → Kmem → Outcome (ℕ × Kmem)
  grow_from zero pt a oldsz newsz xperm k = ok (newsz, k)
  grow_from (suc n) pt a oldsz newsz xperm k =
      let (mem, k1) = kalloc k in
      elim (mem == 0) [
        | true ↦ give_up pt a oldsz k1
        | false ↦
            (mappages pt a page_size mem (pte_r + pte_u + xperm) (clear_page mem k1) >>= λ r.
            elim (r.0) [
              | true ↦ grow_from n pt (a + page_size) oldsz newsz xperm r.1
              | false ↦ (kfree kend r.1 mem >>= λ k3. give_up pt a oldsz k3)
            ])
      ]

  unfoldable pub uvmalloc : ℕ → ℕ → ℕ → ℕ → Kmem → Outcome (ℕ × Kmem)
  uvmalloc pt oldsz newsz xperm k =
      let start = round_up oldsz in
      if ltb newsz oldsz
      then ok (oldsz, k)
      else grow_from ((newsz - start + 4095) / page_size) pt start start newsz xperm k

  -- The loop of freewalk, `n` entries of `pt` from number `i` on; `free` is freewalk of a table
  -- below.
  unfoldable pub free_tables : (ℕ → Kmem → Outcome Kmem) → ℕ → ℕ → ℕ → Kmem → Outcome Kmem
  free_tables free zero i pt k = ok k
  free_tables free (suc n) i pt k = do
    let pte = k.word (pt + 8 * i)
    panic_if (is_valid pte && not (is_table pte))
    k' ←
        if is_valid pte
        then (free (pte_pa pte) k >>= λ k1. ok (set_word (pt + 8 * i) 0 k1))
        else ok k
    free_tables free n (i + 1) pt k'

  -- freewalk of a table with `depth` levels; a page table has three. That a table of the lowest
  -- level has none below it, the model takes for a panic where it fails.
  unfoldable pub freewalk : ℕ → ℕ → Kmem → Outcome Kmem
  freewalk zero pt k = panic
  freewalk (suc depth) pt k = do k' ← free_tables (freewalk depth) 512 0 pt k; kfree kend k' pt

  unfoldable pub uvmfree : ℕ → ℕ → Kmem → Outcome Kmem
  uvmfree pt sz k = do
    k' ← if ltb 0 sz then uvmunmap pt 0 (round_up sz / page_size) true k else ok k
    freewalk 3 pt k'

  -- The loop of uvmcopy, `n` rounds from `i` on: whether it returns 0.
  unfoldable pub copy_from : ℕ → ℕ → ℕ → ℕ → Kmem → Outcome (Bool × Kmem)
  copy_from zero old new i k = ok (true, k)
  copy_from (suc n) old new i k = do
    (pte, k1) ← walk false old i k
    panic_if (pte == 0)
    panic_if (not (is_valid (k1.word pte)))
    let v = k1.word pte
    let (mem, k2) = kalloc k1
    elim (mem == 0) [
      | true ↦ (uvmunmap new 0 (i / page_size) true k2 >>= λ k3. ok (false, k3))
      | false ↦
          (mappages new i page_size mem (pte_flags v) (copy_page mem (pte_pa v) k2) >>= λ r.
          elim (r.0) [
            | true ↦ copy_from n old new (i + page_size) r.1
            | false ↦
                (kfree kend r.1 mem >>= λ k3.
                uvmunmap new 0 (i / page_size) true k3 >>= λ k4. ok (false, k4))
          ])
    ]

  unfoldable pub uvmcopy : ℕ → ℕ → ℕ → Kmem → Outcome (Bool × Kmem)
  uvmcopy old new sz k = copy_from ((sz + 4095) / page_size) old new 0 k

unfoldable pub uvmclear : ℕ → ℕ → Kmem → Outcome Kmem
uvmclear pt va k = do
  (pte, k') ← walk false pt va k
  panic_if (pte == 0)
  let v = k'.word pte
  ok (set_word pte (if is_user v then v - pte_u else v) k')
