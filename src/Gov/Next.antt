-- ===== src/Gov/Next.antt =====
-- What `get_next_freq` makes of the sum that the end of a window hands it.
use lunarkernel_sched_extent.Base.{
  ℕ, zero, suc, ◌+◌, ◌*◌, ◌/◌, ◌^◌, ◌≤◌, ◌<◌, max, ◌≡◌, refl, false, ◌==◌, arith,
}
use lunarkernel_sched_extent.Base.Div.{le-div, div-lt, mul_mono, mul_comm}
use lunarkernel_sched_extent.Base.Word.{u32, mul64, shl10}
use lunarkernel_sched_extent.Base.Outcome.{done}
use lunarkernel_sched_extent.Kernel.{Kernel}
use lunarkernel_sched_extent.Gov.Policy.{Switches, FreqPolicy, GovPolicy}
use lunarkernel_sched_extent.Gov.Util.{util_of, lse_get_policy_window_ns}
use lunarkernel_sched_extent.Gov.Target.{lse_dynamic_target_load}
use lunarkernel_sched_extent.Gov.Freq.{scaled_freq, get_next_freq}
use lunarkernel_sched_extent.Gov.Bounds.{scaled_freq-ge, target_load-bounds}

util_of-le : (sum window : ℕ) → util_of sum window ≤ 1024
unfolding util_of
util_of-le sum window = omega arith

product-lt : (freq agg tl : ℕ) → freq < 2 ^ 22 → agg ≤ 1024 → 1 ≤ tl → freq * agg < 2 ^ 32 * tl
product-lt freq agg tl f a t = omega (arith, mul_mono freq agg 1024 a)

-- the utilisation and the target load of `get_next_freq`
abbrev agg_of : Switches → GovPolicy → ℕ → ℕ
agg_of s lg sum = u32 (util_of sum (max (lse_get_policy_window_ns s lg) 1))

abbrev target_of : Kernel → Switches → FreqPolicy → GovPolicy → ℕ → ℕ
target_of k s policy lg sum = (lse_dynamic_target_load k s policy lg (agg_of s lg sum)).1

abbrev frequency_of : Kernel → Switches → FreqPolicy → GovPolicy → ℕ → ℕ → ℕ
frequency_of k s policy lg sum freq =
    scaled_freq policy freq (agg_of s lg sum) (target_of k s policy lg sum)

get_next_freq-eq :
    (k : Kernel) (s : Switches) (policy : FreqPolicy) (lg : GovPolicy) (sum : ℕ)
    → s.gov_legacy_formula_enable ≡ false
    → 0 < policy.cur
    → (lg' : GovPolicy) × (get_next_freq k s policy lg sum
        ≡ done (lg', frequency_of k s policy lg sum policy.cur))
unfolding get_next_freq
get_next_freq-eq k s policy lg sum l p =
    let e : (policy.cur == 0) ≡ false = ground arith in
    let lg' = record (lse_dynamic_target_load k s policy lg (agg_of s lg sum)).0 {
      last_target_load_dyn = target_of k s policy lg sum;
      last_agg_util = agg_of s lg sum;
    } in
    (lg', rw (l, e) refl)

-- Outside the legacy formula, a utilisation that reaches the greatest target load never lowers the
-- frequency: the target loads are percentages (70 to 95), and the utilisation is in parts of 1024.
-- The limits of the target load are in order and from 1 to 1024, and the present frequency is
-- below 2 ^ 22 kHz.
pub get_next_freq-ge :
    (k : Kernel) (s : Switches) (policy : FreqPolicy) (lg : GovPolicy) (sum : ℕ)
    → s.gov_legacy_formula_enable ≡ false
    → 1 ≤ lg.target_load_min
    → lg.target_load_min ≤ lg.target_load_max
    → lg.target_load_max ≤ 1024
    → lg.target_load_step ≤ 1024
    → 0 < policy.cur
    → policy.cur < 2 ^ 22
    → lg.target_load_max ≤ util_of sum (max (lse_get_policy_window_ns s lg) 1)
    → (r : GovPolicy × ℕ) × (get_next_freq k s policy lg sum ≡ done r) × (policy.cur ≤ r.1)
get_next_freq-ge k s policy lg sum l lo le hi st p f u =
    let agg = agg_of s lg sum in
    let bounds = target_load-bounds k s policy lg agg le (omega arith) in
    let small = util_of-le sum (max (lse_get_policy_window_ns s lg) 1) in
    let r = get_next_freq-eq k s policy lg sum l p in
    (
      (r.0, frequency_of k s policy lg sum policy.cur),
      r.1,
      scaled_freq-ge policy policy.cur agg (target_of k s policy lg sum)
          (product-lt policy.cur agg _ f (omega arith) (omega arith)) (omega arith) (omega arith),
    )

low-le : (agg window : ℕ) → 1024 ≤ window → agg * window / 1024 * 1024 / window < agg + 1
low-le agg window lo =
    div-lt (agg * window / 1024 * 1024) (agg + 1) window (omega arith)
      (omega (arith, mul_comm agg window, mul_comm (agg + 1) window))

shl10-mul64 :
    (agg window : ℕ)
    → agg ≤ 1024
    → window < 2 ^ 32
    → shl10 (mul64 agg window / 1024) ≡ agg * window / 1024 * 1024
shl10-mul64 agg window a hi = omega (arith, mul_mono window agg 1024 a, mul_comm window agg)

high-le : (b window : ℕ) → 1024 ≤ window → b ≤ suc b * window / 1024 * 1024 / window
high-le b window lo =
    le-div b (suc b * window / 1024 * 1024) window (omega arith)
      (omega (arith, mul_comm b window, mul_comm (suc b) window))

-- The sum that the end of a window makes of the average utilisation of a cluster gives
-- `get_next_freq` that utilisation back, or one less: the division rounds down. The window has at
-- least 1024 ns and fits in 32 bits.
util_of-mul64 :
    (agg window : ℕ)
    → agg ≤ 1024
    → 1024 ≤ window
    → window < 2 ^ 32
    → (util_of (mul64 agg window / 1024) window ≤ agg)
      × (agg ≤ util_of (mul64 agg window / 1024) window + 1)
unfolding util_of
util_of-mul64 zero window a lo hi =
    rw (shl10-mul64 zero window a hi) (omega (arith, low-le 0 window lo))
util_of-mul64 (suc b) window a lo hi =
    rw (shl10-mul64 (suc b) window a hi)
      (omega (arith, low-le (suc b) window lo, high-le b window lo))
