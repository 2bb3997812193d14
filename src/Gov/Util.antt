-- ===== src/Gov/Util.antt =====
-- The utilisation of a cluster: `lse_get_policy_window_ns`, `lse_top2_avg_util` and
-- `lse_gov_cluster_util` of cpufreq_lse.c.
use lunarkernel_sched_extent.Base.{
  ℕ, zero, suc, ◌/◌, min, max, Bool, false, not, ◌&&◌, List, [], ◌∷◌, ltb, leb, ◌==◌, if◌then◌else◌,
}
use lunarkernel_sched_extent.Base.Int.{ℤ, pos, negsuc}
use lunarkernel_sched_extent.Base.Word.{u32, add32, add64, sub64, mul64, shl10}
use lunarkernel_sched_extent.State.{Lrq}
use lunarkernel_sched_extent.Gov.Policy.{
  Switches, FreqPolicy, GovPolicy, GovRq, util_cache_stale_ns,
}

unfoldable pub lse_get_policy_window_ns : Switches → GovPolicy → ℕ
lse_get_policy_window_ns s lg =
    if not s.cluster_window_enable
    then s.lse_sched_ravg_window
    else if lg.cluster_window_ns == 0
    then s.lse_sched_ravg_window
    else lg.cluster_window_ns

-- min_t(u64, div64_u64(sum << SCHED_CAPACITY_SHIFT, window), SCHED_CAPACITY_SCALE), at 0 < window
unfoldable pub util_of : ℕ → ℕ → ℕ
util_of sum window = min (shl10 sum / window) 1024

-- The two greatest values seen, one round of the loop over the CPUs.
unfoldable pub push_top2 : ℕ → ℕ × ℕ → ℕ × ℕ
push_top2 util (top1, top2) =
    if leb top1 util then (util, top1) else if ltb top2 util then (top1, util) else (top1, top2)

abbrev pub win_ns : Switches → Lrq → ℕ
win_ns s lrq = if lrq.prev_window_size == 0 then s.lse_sched_ravg_window else lrq.prev_window_size

-- The loop of `lse_top2_avg_util`, with the number of CPUs counted.
unfoldable pub top2_utils : Switches → (ℕ → Lrq) → List ℕ → ℕ × ℕ → ℕ → (ℕ × ℕ) × ℕ
unfolding push_top2 util_of
top2_utils s lrqs [] tops cnt = (tops, cnt)
top2_utils s lrqs (cpu ∷ cpus) tops cnt =
    let lrq = lrqs cpu in
    let counted = push_top2 (util_of lrq.prev_runnable_sum (win_ns s lrq)) tops in
    let skipped = win_ns s lrq == 0 in
    top2_utils s lrqs cpus (if skipped then tops else counted) (if skipped then cnt else suc cnt)

abbrev pub top2_avg : (ℕ × ℕ) × ℕ → ℕ
top2_avg (tops, zero) = 0
top2_avg (tops, suc zero) = tops.0
top2_avg (tops, suc (suc cnt)) = add32 tops.0 tops.1 / 2

unfoldable pub lse_top2_avg_util : Switches → (ℕ → Lrq) → List ℕ → ℕ
unfolding top2_utils
lse_top2_avg_util s lrqs mask = top2_avg (top2_utils s lrqs mask (0, 0) 0)

-- the loops of `lse_gov_cluster_util`
unfoldable pub top2_sums : (ℕ → Lrq) → List ℕ → ℕ × ℕ → ℕ × ℕ
unfolding push_top2
top2_sums lrqs [] tops = tops
top2_sums lrqs (cpu ∷ cpus) tops = top2_sums lrqs cpus (push_top2 (lrqs cpu).prev_runnable_sum tops)

unfoldable pub max_sum : (ℕ → Lrq) → List ℕ → ℕ → ℕ
max_sum lrqs [] m = m
max_sum lrqs (cpu ∷ cpus) m =
    max_sum lrqs cpus
      (if ltb m (lrqs cpu).prev_runnable_sum then (lrqs cpu).prev_runnable_sum else m)

-- cluster_agg_mode == LSE_AGG_TOP2_AVG
abbrev pub is_top2_mode : ℤ → Bool
is_top2_mode (pos n) = n == 1
is_top2_mode (negsuc n) = false

-- the full traversal
unfoldable pub traverse : Switches → FreqPolicy → (ℕ → Lrq) → ℕ
unfolding top2_sums max_sum util_of
traverse s policy lrqs =
    let tops = top2_sums lrqs policy.cpus (0, 0) in
    let sum =
      (if is_top2_mode s.cluster_agg_mode
        then add64 tops.0 tops.1 / 2
        else max_sum lrqs policy.cpus 0) in
    util_of sum (max s.lse_sched_ravg_window 1)

abbrev pub abs_diff : ℕ → ℕ → ℕ
abs_diff a b = if ltb b a then sub64 a b else sub64 b a

-- the tests of the incremental path
unfoldable pub is_cache_usable : ℕ → ℕ → GovRq → Bool
is_cache_usable this_sum now grq =
    not (grq.cached_agg_util == 0)
    && not (grq.cached_this_sum == 0)
    && ltb (sub64 now grq.last_tick_ns) util_cache_stale_ns
    && ltb (mul64 (abs_diff this_sum grq.cached_this_sum) 20) grq.cached_this_sum

-- Returns the utilisation with the cache of this CPU.
unfoldable pub lse_gov_cluster_util : Switches → FreqPolicy → (ℕ → Lrq) → ℕ → ℕ → GovRq → GovRq × ℕ
unfolding is_cache_usable traverse
lse_gov_cluster_util s policy lrqs this_cpu now grq =
    let this_sum = (lrqs this_cpu).prev_runnable_sum in
    let full = u32 (traverse s policy lrqs) in
    if is_cache_usable this_sum now grq
    then (record grq { cached_this_sum = this_sum }, grq.cached_agg_util)
    else (record grq { cached_this_sum = this_sum; cached_agg_util = full }, full)
