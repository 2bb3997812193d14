-- ===== src/Track/Accounted.antt =====
-- What the accounting of lse_util_track.c leaves where it divides by no zero.
use lunarkernel_sched_extent.Base.{
  ℕ, ◌/◌, ◌≡◌, ◌≢◌, ◌⊎◌, inl, inr, refl, sym, ◌∙◌, true, not, ◌||◌, ltb, ◌==◌, if◌then◌else◌,
  Bool-cases, arith,
}
use lunarkernel_sched_extent.Base.Int.{ℤ, pos, pos_part}
use lunarkernel_sched_extent.Base.Word.{u16, u32, add64, sub64, mul64, to_int, int_to_u64}
use lunarkernel_sched_extent.Base.Outcome.{Outcome, done, div_zero, done-injective}
use lunarkernel_sched_extent.Kernel.{Kernel, Task, Rq}
use lunarkernel_sched_extent.State.{Lts, Lrq, TaskEvent, ravg_hist_size}
use lunarkernel_sched_extent.Track.Globals.{Globals}
use lunarkernel_sched_extent.Track.History.{
  push_samples, scan_history, demand_by_policy, is_zero_int, lse_scale_time_to_util, record_history,
  update_history,
}
use lunarkernel_sched_extent.Track.Demand.{
  scale_exec_time, add_to_task_demand, account_busy_for_task_demand, is_nonzero_int,
  account_windows, update_task_demand,
}
use lunarkernel_sched_extent.Track.Busy.{update_task_rq_cpu_cycles, update_cpu_busy_time}
use lunarkernel_sched_extent.Track.Update.{account, start_window, account_marked}

-- what an update of the history that is not skipped leaves
unfoldable pub recorded : Globals → Lts → ℕ → ℤ → Lts
unfolding push_samples scan_history demand_by_policy
recorded g lts runtime samples =
    let lts' = push_samples (pos_part samples) runtime lts in
    let (sum, max) = scan_history lts'.sum_history 0 0 in
    let avg = u32 (sum / ravg_hist_size) in
    let demand = demand_by_policy g.sched_window_stats_policy runtime max avg in
    record lts' {
      sum = 0;
      demand = demand;
      demand_scaled = u16 (demand / g.lse_scale_demand_divisor);
    }

unfoldable pub history : Globals → Lts → Task → ℕ → ℤ → Lts
unfolding recorded
history g lts p runtime samples =
    if runtime == 0 || p.is_idle_task || is_zero_int samples
    then lts
    else recorded g lts runtime samples

-- busy time over at least two windows
unfoldable pub windows : Globals → Lts → Task → Lrq → ℕ → Lts × ℕ
windows g lts p lrq wallclock =
    let mark_start = lts.mark_start in
    let window_size = g.lse_sched_ravg_window in
    let delta = sub64 lrq.window_start mark_start in
    let nr_full_windows = to_int (delta / window_size) in
    let full = mul64 (int_to_u64 nr_full_windows) window_size in
    let first_start = sub64 lrq.window_start full in
    let (lts1, head) = add_to_task_demand g lts lrq (sub64 first_start mark_start) in
    let lts2 = history g lts1 p lts1.sum (pos 1) in
    let scaled_window = scale_exec_time window_size lrq in
    let some_full = is_nonzero_int nr_full_windows in
    let lts3 = (if some_full then history g lts2 p (u32 scaled_window) nr_full_windows else lts2) in
    let runtime =
      (if some_full then add64 head (mul64 (int_to_u64 nr_full_windows) scaled_window) else head) in
    let window_start = add64 first_start full in
    let (lts4, tail) = add_to_task_demand g lts3 lrq (sub64 wallclock window_start) in
    (lts4, add64 runtime tail)

-- Returns the task and the accounted time.
unfoldable pub demanded : Globals → Lts → Task → Rq → Lrq → TaskEvent → ℕ → Lts × ℕ
demanded g lts p rq lrq event wallclock =
    let new_window = ltb lts.mark_start lrq.window_start in
    if not (account_busy_for_task_demand rq p event)
    then ((if new_window then history g lts p lts.sum (pos 1) else lts), 0)
    else if not new_window
    then add_to_task_demand g lts lrq (sub64 wallclock lts.mark_start)
    else windows g lts p lrq wallclock

unfoldable pub accounted : Kernel → Globals → Task → Rq → TaskEvent → ℕ → Lts → Lrq → Lts × Lrq
accounted k g p rq event wallclock lts lrq =
    let lrq1 = update_task_rq_cpu_cycles k rq.cpu lrq in
    let task = (demanded g lts p rq lrq1 event wallclock).0 in
    let lrq2 = update_cpu_busy_time task p lrq1 event wallclock in
    (record task { window_start = lrq2.window_start }, lrq2)

unfoldable pub marked : Kernel → Globals → Task → Rq → TaskEvent → ℕ → Lts → Lrq → Lts × Lrq
marked k g p rq event wallclock lts lrq =
    let started = start_window lts lrq in
    if started.mark_start == 0
    then (started, lrq)
    else accounted k g p rq event wallclock started lrq

-- The call ends with the value, or divides by a divisor that is 0.
abbrev pub Checked {ℓ} : {A : Type ℓ} → Globals → Outcome A → A → Type ℓ
Checked g o v = (o ≡ done v) ⊎ ((o ≡ div_zero) × ((g.lse_scale_demand_divisor == 0) ≡ true))

pub Checked-done {ℓ} :
    {A : Type ℓ} (g : Globals) (o : Outcome A) (v : A)
    → g.lse_scale_demand_divisor ≢ 0
    → Checked g o v
    → o ≡ done v
Checked-done g o v n (inl e) = e
Checked-done g o v n (inr (e, z)) = absurd (ground arith)

pub Checked-only {ℓ} :
    {A : Type ℓ} (g : Globals) (o : Outcome A) (v r : A) → Checked g o v → o ≡ done r → v ≡ r
Checked-only g o v r (inl e) d = done-injective v r (sym e ∙ d)
Checked-only g o v r (inr (e, z)) d = let bad = (sym e ∙ d) in cc

pub record-Checked :
    (g : Globals) (lts : Lts) (runtime : ℕ) (samples : ℤ)
    → Checked g (record_history g lts runtime samples) (recorded g lts runtime samples)
unfolding record_history recorded lse_scale_time_to_util
record-Checked g lts runtime samples = elim (Bool-cases (g.lse_scale_demand_divisor == 0)) [
  | inl z ↦ rw z (inr (refl, refl))
  | inr n ↦ rw n (inl refl)
]

pub history-Checked :
    (g : Globals) (lts : Lts) (p : Task) (runtime : ℕ) (samples : ℤ)
    → Checked g (update_history g lts p runtime samples) (history g lts p runtime samples)
unfolding update_history history
history-Checked g lts p runtime samples =
    elim (Bool-cases (runtime == 0 || p.is_idle_task || is_zero_int samples)) [
      | inl skip ↦ rw skip (inl refl)
      | inr run ↦ rw run (record-Checked g lts runtime samples)
    ]

windows-Checked :
    (g : Globals) (lts : Lts) (p : Task) (lrq : Lrq) (wallclock : ℕ)
    → Checked g (account_windows g lts p lrq wallclock) (windows g lts p lrq wallclock)
unfolding account_windows windows
windows-Checked g lts p lrq wallclock =
    let w = g.lse_sched_ravg_window in
    let nr_full_windows = to_int (sub64 lrq.window_start lts.mark_start / w) in
    let full = mul64 (int_to_u64 nr_full_windows) w in
    let first_start = sub64 lrq.window_start full in
    let lts1 = (add_to_task_demand g lts lrq (sub64 first_start lts.mark_start)).0 in
    let lts2 = history g lts1 p lts1.sum (pos 1) in
    let sample = u32 (scale_exec_time w lrq) in
    elim (history-Checked g lts1 p lts1.sum (pos 1)) [
      | inr (e, z) ↦ inr (rw e refl, z)
      | inl e ↦ elim (Bool-cases (is_nonzero_int nr_full_windows)) [
        | inr few ↦ rw (e, few) (inl refl)
        | inl some_full ↦ elim (history-Checked g lts2 p sample nr_full_windows) [
          | inr (f, z) ↦ rw (e, some_full, f) (inr (refl, z))
          | inl f ↦ rw (e, some_full, f) (inl refl)
        ]
      ]
    ]

pub demand-Checked :
    (g : Globals) (lts : Lts) (p : Task) (rq : Rq) (lrq : Lrq) (event : TaskEvent) (wallclock : ℕ)
    → Checked g
        (update_task_demand g lts p rq lrq event wallclock)
        (demanded g lts p rq lrq event wallclock)
unfolding update_task_demand demanded
demand-Checked g lts p rq lrq event wallclock =
    elim (Bool-cases (account_busy_for_task_demand rq p event)) [
      | inl busy ↦ elim (Bool-cases (ltb lts.mark_start lrq.window_start)) [
        | inl new ↦ rw (busy, new) (windows-Checked g lts p lrq wallclock)
        | inr old ↦ rw (busy, old) (inl refl)
      ]
      | inr idle ↦ elim (Bool-cases (ltb lts.mark_start lrq.window_start)) [
        | inr old ↦ rw (idle, old) (inl refl)
        | inl new ↦ elim (history-Checked g lts p lts.sum (pos 1)) [
          | inr (e, z) ↦ rw (idle, new, e) (inr (refl, z))
          | inl e ↦ rw (idle, new, e) (inl refl)
        ]
      ]
    ]

account-Checked :
    (k : Kernel) (g : Globals) (p : Task) (rq : Rq) (event : TaskEvent) (wallclock : ℕ) (lts : Lts)
    (lrq : Lrq)
    → Checked g
        (account k g p rq event wallclock lts lrq)
        (accounted k g p rq event wallclock lts lrq)
unfolding account accounted
account-Checked k g p rq event wallclock lts lrq =
    let lrq1 = update_task_rq_cpu_cycles k rq.cpu lrq in
    elim (demand-Checked g lts p rq lrq1 event wallclock) [
      | inr (e, z) ↦ rw e (inr (refl, z))
      | inl e ↦ rw e (inl refl)
    ]

pub marked-Checked :
    (k : Kernel) (g : Globals) (p : Task) (rq : Rq) (event : TaskEvent) (wallclock : ℕ) (lts : Lts)
    (lrq : Lrq)
    → Checked g
        (account_marked k g p rq event wallclock lts lrq)
        (marked k g p rq event wallclock lts lrq)
unfolding account_marked marked
marked-Checked k g p rq event wallclock lts lrq =
    let started = start_window lts lrq in
    elim (Bool-cases (started.mark_start == 0)) [
      | inl unmarked ↦ rw unmarked (inl refl)
      | inr has_mark ↦ rw has_mark (account-Checked k g p rq event wallclock started lrq)
    ]
