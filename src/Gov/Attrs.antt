-- ===== src/Gov/Attrs.antt =====
-- The writes to the governor's files: the `_store` functions of cpufreq_lse.c. The parser
-- of the kernel (kstrtouint, kstrtoint) has read the text; it gives nothing on a text that is no
-- number, where the functions return -EINVAL.
use lunarkernel_sched_extent.Base.{ℕ, Bool, true, false, ◌&&◌, Option, none, some, if◌then◌else◌}
use lunarkernel_sched_extent.Base.Int.{ℤ, pos, ltb_ℤ, ◌==ℤ◌}
use lunarkernel_sched_extent.Gov.Policy.{Switches, FreqPolicy, Tunables, GovPolicy, Command}
use lunarkernel_sched_extent.Gov.Freq.{lse_gov_update_soft_limit_cpufreq}

-- The tunables, the first policy that uses them, what the driver is told, and whether the write
-- returned `count`.
pub record Stored : Type 0 where
  pub tunables : Tunables
  pub lg : GovPolicy
  pub command : Option Command
  pub ok : Bool

unfoldable pub refuse : Tunables → GovPolicy → Stored
refuse t lg = record { tunables = t; lg = lg; command = none; ok = false }

unfoldable pub accept : Tunables → GovPolicy → Stored
accept t lg = record { tunables = t; lg = lg; command = none; ok = true }

-- the tunables are set; the frequency follows at once if `apply_freq_immediately` is set
unfoldable pub apply_limits : Switches → FreqPolicy → Tunables → GovPolicy → Stored
unfolding accept lse_gov_update_soft_limit_cpufreq
apply_limits s policy t lg =
    if t.apply_freq_immediately
    then (let (lg', command) = lse_gov_update_soft_limit_cpufreq s policy t lg in
        record { tunables = t; lg = lg'; command = command; ok = true })
    else accept t lg

unfoldable pub target_loads_store : Tunables → GovPolicy → Option ℕ → Stored
unfolding refuse accept
target_loads_store t lg none = refuse t lg
target_loads_store t lg (some n) = accept (record t { target_loads = n }) lg

unfoldable pub soft_freq_max_store :
    Switches → FreqPolicy → Tunables → GovPolicy → Option ℤ → Stored
unfolding refuse accept apply_limits
soft_freq_max_store s policy t lg none = refuse t lg
soft_freq_max_store s policy t lg (some n) =
    if t.soft_freq_max ==ℤ n
    then accept t lg
    else apply_limits s policy (record t { soft_freq_max = n }) lg

unfoldable pub soft_freq_min_store :
    Switches → FreqPolicy → Tunables → GovPolicy → Option ℤ → Stored
unfolding refuse accept apply_limits
soft_freq_min_store s policy t lg none = refuse t lg
soft_freq_min_store s policy t lg (some n) =
    if t.soft_freq_min ==ℤ n
    then accept t lg
    else apply_limits s policy (record t { soft_freq_min = n }) lg

unfoldable pub soft_freq_cur_store :
    Switches → FreqPolicy → Tunables → GovPolicy → Option ℤ → Stored
unfolding refuse accept apply_limits
soft_freq_cur_store s policy t lg none = refuse t lg
soft_freq_cur_store s policy t lg (some n) =
    if (t.soft_freq_max ==ℤ n) && (t.soft_freq_min ==ℤ n)
    then accept t lg
    else apply_limits s policy (record t { soft_freq_max = n; soft_freq_min = n }) lg

unfoldable pub apply_freq_immediately_store : Tunables → GovPolicy → Option ℤ → Stored
unfolding refuse accept
apply_freq_immediately_store t lg none = refuse t lg
apply_freq_immediately_store t lg (some n) =
    accept (record t { apply_freq_immediately = ltb_ℤ (pos 0) n }) lg
