-- ===== src/Entry/Waits.antt =====
-- Where the tasks wait from the load of the module on.
use lunarkernel_sched_extent.Base.{ℕ, ◌≡◌, true, false, Bool}
use lunarkernel_sched_extent.Kernel.{Kernel}
use lunarkernel_sched_extent.Track.Globals.{Globals}
use lunarkernel_sched_extent.Dsq.Filed.{Filed}
use lunarkernel_sched_extent.Hooks.System.{System}
use lunarkernel_sched_extent.Sysctl.Memory.{Memory}
use lunarkernel_sched_extent.Entry.Idle.{Idle}

-- everything is switched on
abbrev pub SwitchedOn : System → Type 0
SwitchedOn s =
    (s.g.slim_walt_ctrl ≡ true) × (s.config.slim_stats ≡ true) × (s.config.lse_dsq_enable ≡ true)

abbrev pub nobody : ℕ → Bool
nobody a = false
