-- ===== src/Examples/Memory.antt =====
-- kernel/kalloc.c and kernel/string.c at small memories.
use snu_os.Base.{ℕ, ◌-◌, ◌^◌, ◌+◌, ◌<◌, ◌≤◌, ◌⊎◌, ◌≡◌, refl, [], ◌∷◌, arith, update, ◌↔◌}
use snu_os.Base.Outcome.{ok, panic}
use snu_os.Kalloc.{Kmem, fill_page, junk_freed, round_up, kfree, kinit, kalloc}
use snu_os.Kalloc.Chain.{IsPage, Holds, kfree-panic, kalloc-kfree}
use snu_os.Kalloc.Range.{push_pages, kinit_lem}
use snu_os.Strings.{Memory, memmove, strncmp, safestrcpy}
use snu_os.Strings.Move.{memmove_lem}
use snu_os.Strings.Compare.{AreBytes, SameText, strncmp_iff}
use snu_os.Strings.Copy.{safestrcpy_terminates}

-- A kernel that ends inside the last page but one of RAM.
abbrev kernel_end : ℕ
kernel_end = 0x87ffe123

abbrev last_page : ℕ
last_page = 0x87fff000

abbrev no_pages : Kmem
no_pages = record { word = λ _. 0; freelist = 0 }

no_pages-Holds : Holds kernel_end no_pages []
no_pages-Holds = record { chain = refl; pages = tt; distinct = tt }

last_page-IsPage : IsPage kernel_end last_page
last_page-IsPage = (refl, omega arith, omega arith)

kinit_lem_example :
    (k' : Kmem) × (kinit kernel_end no_pages ≡ ok k')
    × Holds kernel_end k' (push_pages (round_up kernel_end) 1 [])
kinit_lem_example =
    kinit_lem kernel_end 1 no_pages (omega arith) (omega arith) (omega arith, omega arith)

abbrev one_page : Kmem
one_page = record {
  word = update (fill_page (λ _. 0) last_page junk_freed) last_page 0;
  freelist = last_page;
}

one_page-Holds : Holds kernel_end one_page (last_page ∷ [])
one_page-Holds = record {
  chain = (refl, ground arith, ground arith);
  pages = (last_page-IsPage, tt);
  distinct = (refl, tt);
}

kfree-one_page : kfree kernel_end no_pages last_page ≡ ok one_page
unfolding kfree
kfree-one_page = refl

kalloc-kfree_example : ((kalloc one_page).0 ≡ last_page) × Holds kernel_end (kalloc one_page).1 []
kalloc-kfree_example =
    kalloc-kfree kernel_end no_pages [] last_page one_page (omega arith) no_pages-Holds
      last_page-IsPage refl kfree-one_page

kfree-panic_example : kfree kernel_end no_pages 0x87fff008 ≡ panic
kfree-panic_example = kfree-panic kernel_end no_pages 0x87fff008 (λ h. ground (arith, h))

-- The text "ab" at 10, the text "ac" at 20, and zeros elsewhere.
abbrev texts : Memory
texts = update (update (update (update (λ _. 0) 10 97) 11 98) 20 97) 21 99

memmove_lem_example : memmove 11 10 4 texts 12 ≡ texts 11
memmove_lem_example = memmove_lem 11 10 4 texts 12

safestrcpy_terminates_example :
    ((j : ℕ) × (j < 2) × (safestrcpy 30 10 2 texts (30 + j) ≡ 0))
    × ((a : ℕ) → (a < 30) ⊎ (32 ≤ a) → safestrcpy 30 10 2 texts a ≡ texts a)
safestrcpy_terminates_example = safestrcpy_terminates 2 30 10 texts (omega arith)

texts-AreBytes : AreBytes texts
texts-AreBytes a = ground arith

strncmp_iff_example : (strncmp 10 20 2 texts ≡ 0) ↔ SameText texts 10 20 2
strncmp_iff_example = strncmp_iff 2 10 20 texts texts-AreBytes

texts_differ : strncmp 10 20 2 texts ≡ 2 ^ 32 - 1
unfolding strncmp
texts_differ = refl
