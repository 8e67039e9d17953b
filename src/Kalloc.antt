-- ===== src/Kalloc.antt =====
-- kernel/kalloc.c: the allocator of physical pages. Free pages form a list through their own first
-- words, so the state is the memory itself, as 64-bit words indexed by byte address, and the head.
pub mod Chain
pub mod Range
use snu_os.Base.{
  ℕ, zero, suc, ◌+◌, ◌-◌, ◌*◌, ◌/◌, ◌%◌, ◌^◌, Bool, not, ◌&&◌, ◌||◌, ltb, leb, ◌==◌, if◌then◌else◌,
  update,
}
use snu_os.Base.Outcome.{Outcome, ok, panic_if, ◌>>=◌, ◌>>◌}

abbrev pub page_size : ℕ
page_size = 4096

abbrev pub phys_top : ℕ
phys_top = 0x88000000

-- `lock` is not part of the state: every access below stands between one acquire and its release.
pub record Kmem : Type 0 where
  pub word : ℕ → ℕ
  pub freelist : ℕ

-- memset of one page at `pa`, where `v` is the word that eight bytes of the value make
abbrev pub fill_page : (ℕ → ℕ) → ℕ → ℕ → ℕ → ℕ
fill_page m pa v a = if leb pa a && ltb a (pa + page_size) then v else m a

abbrev pub junk_freed : ℕ
junk_freed = 0x0101010101010101

abbrev pub junk_taken : ℕ
junk_taken = 0x0505050505050505

-- PGROUNDUP on 64-bit addresses
abbrev pub round_up : ℕ → ℕ
round_up a = (a + 4095) % 2 ^ 64 / 4096 * 4096

-- `kend` is the linker's symbol `end`
module _ (kend : ℕ) where
  unfoldable pub kfree : Kmem → ℕ → Outcome Kmem
  kfree k pa = do
    panic_if (not (pa % page_size == 0) || ltb pa kend || leb phys_top pa)
    let filled = fill_page k.word pa junk_freed
    ok (record { word = update filled pa k.freelist; freelist = pa })

  -- The loop of freerange, on fuel: `p` is the next page.
  unfoldable pub free_pages : ℕ → ℕ → ℕ → Kmem → Outcome Kmem
  free_pages zero p pa_end k = ok k
  free_pages (suc fuel) p pa_end k =
      let rest = (do k' ← kfree k p; free_pages fuel (p + page_size) pa_end k') in
      if leb (p + page_size) pa_end then rest else ok k

  -- One round of fuel for each page below `pa_end`, and one to leave the loop.
  unfoldable pub freerange : ℕ → ℕ → Kmem → Outcome Kmem
  unfolding free_pages
  freerange pa_start pa_end k = free_pages (suc (pa_end / page_size)) (round_up pa_start) pa_end k

  unfoldable pub kinit : Kmem → Outcome Kmem
  unfolding freerange
  kinit k = freerange kend phys_top (record k { freelist = 0 })

-- Address 0 is the null pointer.
unfoldable pub kalloc : Kmem → ℕ × Kmem
kalloc k =
    let r = k.freelist in
    if r == 0
    then (0, k)
    else (r, record { word = fill_page k.word r junk_taken; freelist = k.word r })
