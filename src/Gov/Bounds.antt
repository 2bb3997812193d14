-- ===== src/Gov/Bounds.antt =====
-- Bounds of the target load and of the next frequency.
use lunarkernel_sched_extent.Base.{ℕ, ◌+◌, ◌*◌, ◌^◌, ◌≤◌, ◌<◌, ◌≡◌, true, arith}
use lunarkernel_sched_extent.Base.Div.{le-div, div-lt, mul_mono}
use lunarkernel_sched_extent.Kernel.{Kernel}
use lunarkernel_sched_extent.Gov.Policy.{Switches, FreqPolicy, Tunables, GovPolicy}
use lunarkernel_sched_extent.Gov.Target.{
  static_target_load, step_target_load, lse_dynamic_target_load,
}
use lunarkernel_sched_extent.Gov.Freq.{scaled_freq, clamp_freq}

-- Where the limits are in order, the target load stands between them, whether it is adapted or
-- not, and it differs from the static one by at most one step, if the greatest target load and a
-- step together are below 2 ^ 32.
pub target_load-bounds :
    (k : Kernel) (s : Switches) (policy : FreqPolicy) (lg : GovPolicy) (agg_util : ℕ)
    → lg.target_load_min ≤ lg.target_load_max
    → lg.target_load_max + lg.target_load_step < 2 ^ 32
    → let tl = (lse_dynamic_target_load k s policy lg agg_util).1 in
      (lg.target_load_min ≤ tl)
      × (tl ≤ lg.target_load_max)
      × (static_target_load lg ≤ tl + lg.target_load_step)
      × (tl ≤ static_target_load lg + lg.target_load_step)
unfolding lse_dynamic_target_load static_target_load step_target_load
target_load-bounds k s policy lg agg_util h o = ground arith

-- With the caps of the cluster enabled, the least one set and the two in order, clamping a
-- frequency twice is clamping it once, a greater frequency stays the greater one or becomes the
-- same, and the result stands between the caps, whatever the soft limits are.
pub clamp_freq_lem :
    (s : Switches) (t : Tunables) (lg : GovPolicy) (f g : ℕ)
    → f ≤ g
    → s.cluster_freq_cap_enable ≡ true
    → 0 < lg.cluster_freq_cap_min
    → lg.cluster_freq_cap_min ≤ lg.cluster_freq_cap_max
    → (clamp_freq s t lg (clamp_freq s t lg f) ≡ clamp_freq s t lg f)
      × (clamp_freq s t lg f ≤ clamp_freq s t lg g)
      × (lg.cluster_freq_cap_min ≤ clamp_freq s t lg f)
      × (clamp_freq s t lg f ≤ lg.cluster_freq_cap_max)
unfolding clamp_freq
clamp_freq_lem s t lg f g le e lo hi = ground arith

-- A frequency does not fall where the utilisation, in parts of 1024, has reached the target load,
-- in parts of 100.
pub scaled_freq-ge :
    (policy : FreqPolicy) (freq agg_util tl : ℕ)
    → freq * agg_util < 2 ^ 32 * tl
    → tl ≤ 1024
    → tl ≤ agg_util
    → freq ≤ scaled_freq policy freq agg_util tl
unfolding scaled_freq
scaled_freq-ge policy freq agg_util tl o le h = ground (
  arith,
  le-div freq (freq * agg_util) tl (omega arith) (mul_mono freq tl agg_util h),
  div-lt (freq * agg_util) (2 ^ 32) tl (omega arith) o,
)
