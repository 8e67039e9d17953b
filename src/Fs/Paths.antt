-- ===== src/Fs/Paths.antt =====
-- Paths in kernel/fs.c: skipelem and namex. A path is the list of its characters before the NUL.
pub mod Elements
use snu_os.Base.{
  ℕ, zero, suc, ◌+◌, Bool, true, false, not, ◌&&◌, Option, none, some, List, [], ◌∷◌, length,
  get_or, ltb, leb, ◌==◌, if◌then◌else◌,
}
use snu_os.Base.Bytes.{Bytes}
use snu_os.Base.Run.{Run, done, ◌>>=◌, ◌>>◌}
use snu_os.Bio.{root_dev}
use snu_os.Fs.{Superblock}
use snu_os.Fs.Inodes.{State, iget, idup, ilock, iunlock}
use snu_os.Fs.Content.{iput, iunlockput}
use snu_os.Fs.Directory.{dirsiz, t_dir, dirlookup}

abbrev pub slash : ℕ
slash = 47

-- ROOTINO
abbrev pub root_ino : ℕ
root_ino = 1

-- `while(*path == '/') path++`
unfoldable pub skip_slashes : List ℕ → List ℕ
skip_slashes [] = []
skip_slashes (c ∷ cs) = if c == slash then skip_slashes cs else c ∷ cs

-- `while(*path != '/' && *path != 0) path++`: what it passes, and where it ends
unfoldable pub take_elem : List ℕ → List ℕ
take_elem [] = []
take_elem (c ∷ cs) = let rest = take_elem cs in if c == slash then [] else c ∷ rest

unfoldable pub drop_elem : List ℕ → List ℕ
drop_elem [] = []
drop_elem (c ∷ cs) = if c == slash then c ∷ cs else drop_elem cs

abbrev pub is_empty : List ℕ → Bool
is_empty [] = true
is_empty (c ∷ cs) = false

-- what skipelem stores for the element `e` in the buffer `name`
abbrev pub store_name : List ℕ → Bytes → Bytes
store_name e name a =
    if leb dirsiz (length e)
    then (if ltb a dirsiz then get_or e a 0 else name a)
    else if ltb a (length e)
    then get_or e a 0
    else if a == length e
    then 0
    else name a

-- the element that skipelem passes, and the path that it returns
unfoldable pub split_path : List ℕ → Option (List ℕ × List ℕ)
unfolding skip_slashes take_elem drop_elem
split_path path =
    let p = skip_slashes path in
    if is_empty p then none else some (take_elem p, skip_slashes (drop_elem p))

unfoldable pub skipelem : List ℕ → Bytes → Option (List ℕ × Bytes)
unfolding split_path
skipelem path name = elim (split_path path) [
  | none ↦ none
  | some (e, rest) ↦ some (rest, store_name e name)
]

-- `sb` is the superblock, `de` as in dirlookup, `pid` the process that runs.
module _ (sb : Superblock) (de : Bytes) (pid : ℕ) where
  -- The loop of namex with inode `ip` in hand, on fuel: the inode, none for the null pointer, and
  -- the last element.
  unfoldable pub namex_from : ℕ → Bool → ℕ → List ℕ → Bytes → State → Run (Option ℕ × Bytes × State)
  unfolding skipelem ilock iunlock iunlockput dirlookup iput
  namex_from zero parent ip path name s = done (some ip, name, s)
  namex_from (suc fuel) parent ip path name s = elim (skipelem path name) [
    | none ↦
        (if parent
          then (iput sb pid ip s >>= λ s'. done (none, name, s'))
          else done (some ip, name, s))
    | some (path', name') ↦
        (ilock sb pid ip s >>= λ s1.
        if not ((s1.inodes ip).type_of == t_dir)
        then (iunlockput sb pid ip s1 >>= λ s2. done (none, name', s2))
        else if parent && is_empty path'
        then (iunlock pid ip s1 >>= λ s2. done (some ip, name', s2))
        else (dirlookup sb de ip name' s1 >>= λ r. elim (r.0) [
          | none ↦ (iunlockput sb pid ip r.1 >>= λ s3. done (none, name', s3))
          | some (next, off) ↦
              (iunlockput sb pid ip r.1 >>= λ s3. namex_from fuel parent next path' name' s3)
        ]))
  ]

  -- One round for each element, of which there are fewer than characters; `cwd` is the slot of
  -- the current directory.
  unfoldable pub namex : ℕ → Bool → List ℕ → Bytes → State → Run (Option ℕ × Bytes × State)
  unfolding namex_from iget idup
  namex cwd parent path name s =
      if (get_or path 0 0) == slash
      then (iget root_dev root_ino s >>= λ r.
          let (ip, s') = r in namex_from (suc (length path)) parent ip path name s')
      else namex_from (suc (length path)) parent cwd path name (idup cwd s)

  unfoldable pub namei : ℕ → List ℕ → Bytes → State → Run (Option ℕ × Bytes × State)
  unfolding namex
  namei cwd path name s = namex cwd false path name s

  unfoldable pub nameiparent : ℕ → List ℕ → Bytes → State → Run (Option ℕ × Bytes × State)
  unfolding namex
  nameiparent cwd path name s = namex cwd true path name s
