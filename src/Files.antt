-- ===== src/Files.antt =====
-- The table of open files in kernel/file.c: filealloc, filedup and fileclose, each under
-- `ftable.lock`.
pub mod Refs
use snu_os.Base.{
  ℕ, zero, suc, ◌+◌, ◌-◌, ◌<◌, Bool, true, false, Option, none, some, ltb, ◌==◌, if◌then◌else◌,
  update,
}
use snu_os.Base.Words.{add32, sub32, lt_int}
use snu_os.Base.Outcome.{Outcome, ok, panic_if, ◌>>=◌, ◌>>◌}

abbrev pub nfile : ℕ
nfile = 100

pub data FileType : Type 0 where
  fd_none fd_pipe fd_inode fd_device : FileType

-- `struct file`; `pipe` and `ip` are the pointers, `off` and `major` as in the source.
pub record File : Type 0 where
  pub type_of : FileType
  pub ref : ℕ
  pub readable : Bool
  pub writable : Bool
  pub pipe : ℕ
  pub ip : ℕ
  pub off : ℕ
  pub major : ℕ

abbrev pub Ftable : Type 0
Ftable = ℕ → File

-- The loop of filealloc from file `i` on, `k` rounds: the first that nothing refers to.
unfoldable pub free_file : ℕ → ℕ → Ftable → Option ℕ
free_file zero i t = none
free_file (suc k) i t = let rest = free_file k (i + 1) t in if (t i).ref == 0 then some i else rest

-- filealloc: `none` is the null pointer.
unfoldable pub filealloc : Ftable → Option (ℕ × Ftable)
unfolding free_file
filealloc t = elim (free_file nfile 0 t) [
  | none ↦ none
  | some i ↦ some (i, update t i (record (t i) { ref = 1 }))
]

unfoldable pub filedup : ℕ → Ftable → Outcome Ftable
filedup i t = do
  panic_if (lt_int (t i).ref 1)
  ok (update t i (record (t i) { ref = add32 (t i).ref 1 }))

-- What fileclose still does once it has given up the lock.
pub data Release : Type 0 where
  nothing : Release
  close_pipe : ℕ → Bool → Release
  put_inode : ℕ → Release

abbrev pub release_of : File → Release
release_of f = elim f.type_of [
  | fd_none ↦ nothing
  | fd_pipe ↦ close_pipe f.pipe f.writable
  | fd_inode ↦ put_inode f.ip
  | fd_device ↦ put_inode f.ip
]

unfoldable pub fileclose : ℕ → Ftable → Outcome (Release × Ftable)
fileclose i t = do
  panic_if (lt_int (t i).ref 1)
  let left = sub32 (t i).ref 1
  ok (
      if lt_int 0 left
      then (nothing, update t i (record (t i) { ref = left }))
      else (release_of (t i), update t i (record (t i) { ref = 0; type_of = fd_none })))
