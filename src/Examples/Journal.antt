-- ===== src/Examples/Journal.antt =====
-- kernel/log.c, kernel/fs.c and kernel/bio.c on a disk whose log starts at block 2 and has 31 blocks.
use snu_os.Base.{◌≡◌, refl, inl, inr, [], ◌∷◌, arith, update, ◌==◌, Bool-cases}
use snu_os.Base.Bytes.{Bytes, get32, put32}
use snu_os.Base.Outcome.{ok}
use snu_os.Buffers.{Disk, boot}
use snu_os.Log.{Log, fresh_log, initlog, record_block, commit}
use snu_os.Log.Recover.{Logged, Clean, initlog-Clean}
use snu_os.Log.Commit.{CanCommit, Committed, commit-Committed}
use snu_os.Log.Reserve.{System, running, committing, start}

abbrev zeros : Bytes
zeros = λ _. 0

abbrev sevens : Bytes
sevens = λ _. 7

-- A transaction that changes block 100 has committed and is not installed.
abbrev crashed : Disk
crashed = update (update (λ _. zeros) 2 (put32 (put32 zeros 0 1) 4 100)) 3 sevens

abbrev wanted : Disk
wanted = update (λ _. zeros) 100 sevens

crashed-Logged : Logged 2 31 1 (λ _. 100) wanted crashed
unfolding get32 put32
crashed-Logged = record {
  few = omega arith;
  room = omega arith;
  head = refl;
  heads = λ j p. ground arith;
  homes = λ j p. inr (omega arith);
  logs = λ j p. ground arith;
  rest = λ b out. elim (Bool-cases (100 == b)) [
    | inl e ↦ inr (0, omega arith, ground arith)
    | inr e ↦ inl (ground arith)
  ];
}

initlog-Clean_example : (l : Log) × (initlog 2 31 (boot crashed) ≡ ok l) × Clean 2 31 wanted [] l
initlog-Clean_example = initlog-Clean 2 31 wanted crashed (1, (λ _. 100), crashed-Logged)

-- Block 100 has been changed in the cache and is in the log.
abbrev logged : Log
logged = record {
  start = 2;
  size = 31;
  outstanding = 0;
  committing = 1;
  n = 1;
  block = λ _. 100;
  bufs = record (boot (λ _. zeros)) { view = wanted };
}

logged-CanCommit : CanCommit logged
unfolding get32
logged-CanCommit = record {
  few = omega arith;
  room = omega arith;
  homes = λ j p. inr (omega arith);
  words = λ j p. omega arith;
  empty = refl;
}

commit-Committed_example : Committed logged (commit logged)
commit-Committed_example = commit-Committed logged logged-CanCommit

abbrev idle : Log
idle = fresh_log 2 31 (boot (λ _. zeros))

-- Two system calls have begun, one of them has ended, and the other has logged block 100.
abbrev two_ops : System
two_ops = record { log = record idle { outstanding = 2 }; ops = 0 ∷ 0 ∷ []; phase = running }

abbrev one_op : System
one_op = record {
  log = record_block 100 (record idle { outstanding = 2 });
  ops = 1 ∷ 0 ∷ [];
  phase = running;
}

abbrev last_op : System
last_op = record { log = record (one_op.log) { outstanding = 1 }; ops = 1 ∷ []; phase = running }

-- The last one commits.
abbrev ending : System
ending = record {
  log = record (one_op.log) { outstanding = 0; committing = 1 };
  ops = [];
  phase = committing;
}
