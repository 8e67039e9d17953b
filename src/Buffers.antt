-- ===== src/Buffers.antt =====
-- What the callers of kernel/bio.c see of it, on the one disk: the blocks on the disk, the blocks
-- as `bread` returns them (a cached copy where there is one), and the references that `bpin` holds.
use snu_os.Base.{ℕ, List, [], ◌∷◌, ◌++◌, ◌≡◌, refl, ap, update}
use snu_os.Base.Bytes.{Bytes}
use snu_os.Base.Words.{add32, sub32}

abbrev pub Disk : Type 0
Disk = ℕ → Bytes

-- `history` has the disk after each write, the newest first: the disks that a power failure can
-- leave.
pub record Buffers : Type 0 where
  pub disk : Disk
  pub view : Disk
  pub pins : ℕ → ℕ
  pub history : List Disk

-- an assignment to `bp->data`
abbrev pub store : ℕ → Bytes → Buffers → Buffers
store b d s = record s { view = update s.view b d }

abbrev pub bwrite : ℕ → Buffers → Buffers
bwrite b s = let d = update s.disk b (s.view b) in record s { disk = d; history = d ∷ s.history }

abbrev pub bpin : ℕ → Buffers → Buffers
bpin b s = record s { pins = update s.pins b (add32 (s.pins b) 1) }

abbrev pub bunpin : ℕ → Buffers → Buffers
bunpin b s = record s { pins = update s.pins b (sub32 (s.pins b) 1) }

-- After a restart the cache is empty, so that `bread` returns what is on the disk.
abbrev pub boot : Disk → Buffers
boot d = record { disk = d; view = d; pins = λ _. 0; history = [] }

-- `P` holds of every disk of a history.
abbrev pub All : (Disk → Type 0) → List Disk → Type 0
All P [] = Unit
All P (d ∷ ds) = P d × All P ds

-- `ds` is `base` with newer disks in front, of which `P` holds.
abbrev pub Since : (Disk → Type 0) → List Disk → List Disk → Type 0
Since P base ds = (newer : List Disk) × (ds ≡ newer ++ base) × All P newer

pub Since-refl : (P : Disk → Type 0) (base : List Disk) → Since P base base
Since-refl P base = ([], refl, tt)

pub Since-cons :
    (P : Disk → Type 0) (base : List Disk) (d : Disk) (ds : List Disk)
    → P d
    → Since P base ds
    → Since P base (d ∷ ds)
Since-cons P base d ds p (newer, e, ps) = (d ∷ newer, ap (λ l. d ∷ l) e, (p, ps))
