-- ===== src/Track/History.antt =====
-- The demand history of a task: `update_history` of lse_util_track.c and
-- `lse_scale_time_to_util` of lse_main.h.
use lunarkernel_sched_extent.Base.{
  ℕ, zero, suc, ◌+◌, ◌/◌, ◌%◌, Bool, ◌||◌, List, [], ◌∷◌, ltb, ◌==◌, set, if◌then◌else◌,
}
use lunarkernel_sched_extent.Base.Int.{ℤ, pos, negsuc, pos_part}
use lunarkernel_sched_extent.Base.Word.{u16, u32, add64}
use lunarkernel_sched_extent.Base.Outcome.{Outcome, done, div_zero, ◌>>=◌}
use lunarkernel_sched_extent.Kernel.{Task}
use lunarkernel_sched_extent.State.{Lts, ravg_hist_size}
use lunarkernel_sched_extent.Track.Globals.{Globals}

-- do_div
unfoldable pub lse_scale_time_to_util : Globals → ℕ → Outcome ℕ
lse_scale_time_to_util g d =
    if g.lse_scale_demand_divisor == 0 then div_zero else done (d / g.lse_scale_demand_divisor)

-- `for (; samples > 0; samples--)`
unfoldable pub push_samples : ℕ → ℕ → Lts → Lts
push_samples zero runtime lts = lts
push_samples (suc samples) runtime lts = push_samples samples runtime (record lts {
  sum_history = set lts.sum_history lts.cidx runtime;
  cidx = (lts.cidx + 1) % ravg_hist_size;
})

-- the second loop: the sum and the maximum of the history
unfoldable pub scan_history : List ℕ → ℕ → ℕ → ℕ × ℕ
scan_history [] sum max = (sum, max)
scan_history (h ∷ hist) sum max = scan_history hist (add64 sum h) (if ltb max h then h else max)

-- The `switch` on `sched_window_stats_policy`: RECENT is 0, MAX is 1, AVG is 3.
unfoldable pub demand_by_policy : ℤ → ℕ → ℕ → ℕ → ℕ
demand_by_policy policy runtime max avg =
    if is_policy 0
    then runtime
    else if is_policy 1
    then max
    else if is_policy 3
    then avg
    else if ltb avg runtime
    then runtime
    else avg
  where
    is_policy : ℕ → Bool
    is_policy n = elim policy [ pos k ↦ k == n | negsuc k ↦ Bool.false ]

abbrev pub is_zero_int : ℤ → Bool
is_zero_int (pos n) = n == 0
is_zero_int (negsuc n) = Bool.false

-- what `update_history` does when it does not `goto done`
unfoldable pub record_history : Globals → Lts → ℕ → ℤ → Outcome Lts
unfolding push_samples scan_history demand_by_policy lse_scale_time_to_util
record_history g lts runtime samples =
    let lts' = push_samples (pos_part samples) runtime lts in
    let (sum, max) = scan_history lts'.sum_history 0 0 in
    let avg = u32 (sum / ravg_hist_size) in
    let demand = demand_by_policy g.sched_window_stats_policy runtime max avg in
    lse_scale_time_to_util g demand >>= λ scaled.
    done (record lts' { sum = 0; demand = demand; demand_scaled = u16 scaled })

unfoldable pub update_history : Globals → Lts → Task → ℕ → ℤ → Outcome Lts
unfolding record_history
update_history g lts p runtime samples =
    if runtime == 0 || p.is_idle_task || is_zero_int samples
    then done lts
    else record_history g lts runtime samples
