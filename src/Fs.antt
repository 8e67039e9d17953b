-- ===== src/Fs.antt =====
-- kernel/fs.c and kernel/fs.h: the file system above the log.
pub mod Bits
pub mod Blocks
pub mod Inodes
pub mod Content
pub mod Directory
pub mod Paths
pub mod Links
use snu_os.Base.{ℕ}

-- `struct superblock`, without the log's fields
pub record Superblock : Type 0 where
  pub size : ℕ
  pub ninodes : ℕ
  pub inodestart : ℕ
  pub bmapstart : ℕ
