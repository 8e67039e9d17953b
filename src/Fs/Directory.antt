-- ===== src/Fs/Directory.antt =====
-- Directories in kernel/fs.c: namecmp, dirlookup and dirlink. A directory is an inode whose content
-- is a sequence of `struct dirent`, an inode number and a name each.
use snu_os.Base.{
  ℕ, zero, suc, ◌+◌, ◌-◌, ◌/◌, Bool, true, false, not, Option, none, some, ltb, ◌==◌, if◌then◌else◌,
}
use snu_os.Base.Bytes.{Bytes, get16, put16}
use snu_os.Base.Run.{Run, done, halt_if, ◌>>=◌, ◌>>◌}
use snu_os.Base.Words.{add32}
use snu_os.Strings.{Memory, strncmp, strncpy}
use snu_os.Fs.{Superblock}
use snu_os.Fs.Inodes.{State, iget}
use snu_os.Fs.Content.{readi, writei, iput}

-- DIRSIZ, and the size of `struct dirent`
abbrev pub dirsiz : ℕ
dirsiz = 14

abbrev pub dirent_size : ℕ
dirent_size = 16

-- T_DIR
abbrev pub t_dir : ℕ
t_dir = 1

-- two names in one memory, at 0 and at DIRSIZ
abbrev pub beside : Bytes → Bytes → Memory
beside s t a = if ltb a dirsiz then s a else t (a - dirsiz)

unfoldable pub namecmp : Bytes → Bytes → ℕ
unfolding strncmp
namecmp s t = strncmp 0 dirsiz dirsiz (beside s t)

-- the fields of a `struct dirent`
abbrev pub de_inum : Bytes → ℕ
de_inum de = get16 de 0

abbrev pub de_name : Bytes → Bytes
de_name de a = de (a + 2)

-- the dirent that dirlink writes over `de`
unfoldable pub make_dirent : Bytes → ℕ → Bytes → Bytes
unfolding strncpy
make_dirent name inum de =
    put16
      (λ a. if ltb 1 a then strncpy 0 dirsiz dirsiz (beside (de_name de) name) (a - 2) else de a) 0
      inum

-- `sb` is the superblock, `de` what stands in the local variable before the first read.
module _ (sb : Superblock) (de : Bytes) where
  -- one round of the loops over the entries: the entry at `off`
  unfoldable pub read_dirent : ℕ → ℕ → State → Run (Bytes × State)
  unfolding readi
  read_dirent dp off s = do
    (n, e, s') ← readi sb dirent_size dp off dirent_size de s
    halt_if (not (n == dirent_size))
    done (e, s')

  -- The loop of dirlookup, `fuel` rounds from `off` on: the slot of the inode and `*poff`.
  unfoldable pub dirlookup_from : ℕ → ℕ → ℕ → Bytes → State → Run (Option (ℕ × ℕ) × State)
  unfolding read_dirent namecmp iget
  dirlookup_from zero off dp name s = done (none, s)
  dirlookup_from (suc fuel) off dp name s = elim (ltb off (s.inodes dp).size) [
    | false ↦ done (none, s)
    | true ↦
        (read_dirent dp off s >>= λ r.
        let (e, s') = r in
        if de_inum e == 0
        then dirlookup_from fuel (add32 off dirent_size) dp name s'
        else if namecmp name (de_name e) == 0
        then (iget (s'.inodes dp).dev (de_inum e) s' >>= λ q.
            let (i, s'') = q in done (some (i, off), s''))
        else dirlookup_from fuel (add32 off dirent_size) dp name s')
  ]

  -- One round for each entry, and one to leave the loop.
  unfoldable pub dirlookup : ℕ → Bytes → State → Run (Option (ℕ × ℕ) × State)
  unfolding dirlookup_from
  dirlookup dp name s = do
    halt_if (not ((s.inodes dp).type_of == t_dir))
    dirlookup_from (suc ((s.inodes dp).size / dirent_size)) 0 dp name s

  -- The loop of dirlink: where the first empty entry stands, or the end of the directory, and the
  -- entry read last.
  unfoldable pub empty_from : ℕ → ℕ → ℕ → Bytes → State → Run (ℕ × Bytes × State)
  unfolding read_dirent
  empty_from zero off dp last s = done (off, last, s)
  empty_from (suc fuel) off dp last s = elim (ltb off (s.inodes dp).size) [
    | false ↦ done (off, last, s)
    | true ↦
        (read_dirent dp off s >>= λ r.
        let (e, s') = r in
        if de_inum e == 0
        then done (off, e, s')
        else empty_from fuel (add32 off dirent_size) dp e s')
  ]

  -- dirlink by process `pid`: whether it returns 0.
  unfoldable pub dirlink : ℕ → ℕ → Bytes → ℕ → State → Run (Bool × State)
  unfolding dirlookup empty_from writei iput make_dirent
  dirlink pid dp name inum s = do
    (found, s1) ← dirlookup dp name s
    elim found [
      | some (i, off) ↦ (iput sb pid i s1 >>= λ s2. done (false, s2))
      | none ↦
          (empty_from (suc ((s1.inodes dp).size / dirent_size)) 0 dp de s1 >>= λ r.
          let (off, e, s2) = r in
          writei sb dirent_size dp off dirent_size (make_dirent name inum e) s2 >>= λ q.
          let (n, s3) = q in done (n == dirent_size, s3))
    ]
