-- ===== src/Log/Safety.antt =====
-- What a system call may rely on between begin_op and end_op of kernel/log.c, when any number of
-- others runs at once.
use snu_os.Base.{◌≤◌, ◌<◌, ◌^◌, ◌≡◌}
use snu_os.Base.Bytes.{get32}
use snu_os.Log.{Log, log_size}

-- The log as initlog leaves it, with no operation in progress, and a log of LOGSIZE blocks or more.
pub record IsIdle (l : Log) : Type 0 where
  pub none_left : l.n ≡ 0
  pub nobody : (l.outstanding ≡ 0) × (l.committing ≡ 0)
  pub header : get32 (l.bufs.disk l.start) 0 ≡ 0
  pub large : (log_size ≤ l.size) × (l.size < 2 ^ 31)
