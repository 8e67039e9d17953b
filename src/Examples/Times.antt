-- ===== src/Examples/Times.antt =====
-- sys_sleep of kernel/sysproc.c across the wrap of `ticks`.
use snu_os.Base.{◌-◌, ◌^◌, ◌≡◌, arith, none, some, [], ◌∷◌}
use snu_os.Clock.{Clock, asleep, sys_sleep}
use snu_os.Clock.Sleep.{Others, sys_sleep_lem}
use snu_os.Examples.Spaces.{family}

abbrev late : Clock
late = record { ticks = 2 ^ 32 - 1; procs = family.procs }

others : Others 0 (none ∷ some 1 ∷ [])
others = ((λ e. cc), ((λ e. cc), tt))

too_early : (sys_sleep 4096 0 2 (none ∷ []) late).0 ≡ asleep
too_early =
    sys_sleep_lem 4096 0 2 (none ∷ []) late (omega arith) (omega arith) (others.0, tt) (omega arith)
