-- ===== src/Gov/Target.antt =====
-- The target load: `lse_compute_power_pressure` and `lse_dynamic_target_load` of cpufreq_lse.c.
use lunarkernel_sched_extent.Base.{ℕ, ◌/◌, min, max, not, ◌&&◌, ltb, leb, ◌==◌, if◌then◌else◌}
use lunarkernel_sched_extent.Base.Word.{u32, add32, sub32}
use lunarkernel_sched_extent.Kernel.{Kernel}
use lunarkernel_sched_extent.Gov.Policy.{Switches, FreqPolicy, GovPolicy, default_target_load}

unfoldable pub lse_compute_power_pressure : Kernel → FreqPolicy → ℕ → ℕ
lse_compute_power_pressure k policy agg_util =
    let pressure =
      (if policy.max_freq == 0 then 0 else u32 (k.mult_frac policy.cur 1024 policy.max_freq)) in
    min (add32 pressure agg_util / 2) 1024

-- clamp_t(unsigned int, x, lo, hi)
abbrev pub clamp : ℕ → ℕ → ℕ → ℕ
clamp x lo hi = min (max x lo) hi

-- the base, or the default, within the limits
unfoldable pub static_target_load : GovPolicy → ℕ
static_target_load lg =
    clamp (if lg.target_load_base == 0 then default_target_load else lg.target_load_base)
      lg.target_load_min lg.target_load_max

-- the step that the pressure asks for
unfoldable pub step_target_load : GovPolicy → ℕ → ℕ → ℕ
step_target_load lg pressure tl =
    if ltb 850 pressure && leb (add32 tl lg.target_load_step) lg.target_load_max
    then add32 tl lg.target_load_step
    else if ltb pressure 450 && ltb (add32 lg.target_load_min lg.target_load_step) tl
    then sub32 tl lg.target_load_step
    else tl

unfoldable pub lse_dynamic_target_load :
    Kernel → Switches → FreqPolicy → GovPolicy → ℕ → GovPolicy × ℕ
unfolding lse_compute_power_pressure static_target_load step_target_load
lse_dynamic_target_load k s policy lg agg_util =
    let tl = static_target_load lg in
    let pressure = lse_compute_power_pressure k policy agg_util in
    if not s.cluster_tl_dyn_enable then (lg, tl) else (
      record lg { last_power_pressure = pressure },
      clamp (step_target_load lg pressure tl) lg.target_load_min lg.target_load_max,
    )
