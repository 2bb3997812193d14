-- ===== src/Track/Kept.antt =====
-- What the load tracking of lse_util_track.c leaves alone of a task: its place in the dispatch
-- queues and, past `lse_refresh_task_hint`, its class.
use mathlib.Core.Path.{subst}
use lunarkernel_sched_extent.Base.{
  ℕ, zero, suc, ◌/◌, ◌≡◌, refl, ◌∙◌, true, not, ◌||◌, ◌==◌, ltb, if-keeps, arith,
}
use lunarkernel_sched_extent.Base.Int.{ℤ, pos, pos_part}
use lunarkernel_sched_extent.Base.Word.{sub64, mul64, to_int, int_to_u64, u32}
use lunarkernel_sched_extent.Base.Outcome.{Outcome, done, >>=-eq-done, done-injective}
use lunarkernel_sched_extent.Kernel.{Kernel, Task, Rq}
use lunarkernel_sched_extent.State.{Lts, Lrq, TaskEvent}
use lunarkernel_sched_extent.Track.Accounted.{
  history, recorded, windows, demanded, accounted, marked, marked-Checked, Checked-only,
}
use lunarkernel_sched_extent.Track.Globals.{Globals}
use lunarkernel_sched_extent.Track.Rollover.{Shared}
use lunarkernel_sched_extent.Track.Classify.{lse_refresh_task_hint}
use lunarkernel_sched_extent.Track.Window.{update_window_start}
use lunarkernel_sched_extent.Track.History.{push_samples, is_zero_int}
use lunarkernel_sched_extent.Track.Demand.{
  scale_exec_time, add_to_task_demand, account_busy_for_task_demand, is_nonzero_int,
}
use lunarkernel_sched_extent.Track.Busy.{update_task_rq_cpu_cycles}
use lunarkernel_sched_extent.Track.Update.{
  Walt, start_window, account_marked, check_mark, finish, check_locked, update_running,
  lse_update_task_ravg,
}

-- The same mark of a dispatch queue, class and boost.
abbrev pub Kept : Lts → Lts → Type 0
Kept a b = (b.on_dsq ≡ a.on_dsq) × (b.task_class ≡ a.task_class) × (b.boost_pct ≡ a.boost_pct)

Kept-trans : (a b c : Lts) → Kept a b → Kept b c → Kept a c
Kept-trans a b c h k = (k.0 ∙ h.0, k.1 ∙ h.1, k.2 ∙ h.2)

push_samples-Kept : (samples runtime : ℕ) (lts : Lts) → Kept lts (push_samples samples runtime lts)
unfolding push_samples
push_samples-Kept zero runtime lts = (refl, refl, refl)
push_samples-Kept (suc samples) runtime lts = push_samples-Kept samples runtime _

update_history-Kept :
    (g : Globals) (lts : Lts) (p : Task) (runtime : ℕ) (samples : ℤ)
    → Kept lts (history g lts p runtime samples)
unfolding history recorded
update_history-Kept g lts p runtime samples =
    if-keeps (Kept lts) (runtime == 0 || p.is_idle_task || is_zero_int samples)
      (λ q. (refl, refl, refl)) (λ q. push_samples-Kept (pos_part samples) runtime lts)

account_windows-Kept :
    (g : Globals) (lts : Lts) (p : Task) (lrq : Lrq) (wallclock : ℕ)
    → Kept lts (windows g lts p lrq wallclock).0
unfolding windows add_to_task_demand
account_windows-Kept g lts p lrq wallclock =
    let w = g.lse_sched_ravg_window in
    let nr_full_windows = to_int (sub64 lrq.window_start lts.mark_start / w) in
    let full = mul64 (int_to_u64 nr_full_windows) w in
    let first_start = sub64 lrq.window_start full in
    let lts1 = (add_to_task_demand g lts lrq (sub64 first_start lts.mark_start)).0 in
    let lts2 = history g lts1 p lts1.sum (pos 1) in
    let k2 : Kept lts lts2 = update_history-Kept g lts1 p lts1.sum (pos 1) in
    let sample = u32 (scale_exec_time w lrq) in
    let lts3 = history g lts2 p sample nr_full_windows in
    let k3 : Kept lts2 lts3 = update_history-Kept g lts2 p sample nr_full_windows in
    if-keeps (Kept lts) (is_nonzero_int nr_full_windows) (λ q. Kept-trans lts lts2 lts3 k2 k3)
      (λ q. k2)

update_task_demand-Kept :
    (g : Globals) (lts : Lts) (p : Task) (rq : Rq) (lrq : Lrq) (event : TaskEvent) (wallclock : ℕ)
    → Kept lts (demanded g lts p rq lrq event wallclock).0
unfolding demanded add_to_task_demand
update_task_demand-Kept g lts p rq lrq event wallclock =
    let new_window = ltb lts.mark_start lrq.window_start in
    if-keeps (λ (r : Lts × ℕ). Kept lts r.0) (not (account_busy_for_task_demand rq p event))
      (λ b.
        if-keeps (Kept lts) new_window (λ q. update_history-Kept g lts p lts.sum (pos 1))
          (λ q. (refl, refl, refl)))
      (λ b.
        if-keeps (λ (r : Lts × ℕ). Kept lts r.0) (not new_window) (λ q. (refl, refl, refl))
          (λ q. account_windows-Kept g lts p lrq wallclock))

account_marked-Kept :
    (k : Kernel) (g : Globals) (p : Task) (rq : Rq) (event : TaskEvent) (wallclock : ℕ) (lts : Lts)
    (lrq : Lrq)
    → Kept lts (marked k g p rq event wallclock lts lrq).0
unfolding marked accounted start_window
account_marked-Kept k g p rq event wallclock lts lrq =
    let started = start_window lts lrq in
    let k1 : Kept lts started =
      if-keeps (Kept lts) (lts.window_start == 0) (λ q. (refl, refl, refl))
        (λ q. (refl, refl, refl)) in
    let lrq1 = update_task_rq_cpu_cycles k rq.cpu lrq in
    let task = (demanded g started p rq lrq1 event wallclock).0 in
    let k2 : Kept started task = update_task_demand-Kept g started p rq lrq1 event wallclock in
    if-keeps (λ (r : Lts × Lrq). Kept lts r.0) (started.mark_start == 0) (λ q. k1)
      (λ q. Kept-trans lts started task k1 k2)

finish-Kept :
    (g : Globals) (old wallclock : ℕ) (lts : Lts) (lrq : Lrq) (shared : Shared) (w : Walt)
    → finish g old wallclock lts lrq shared ≡ done w
    → Kept lts w.lts
unfolding finish
finish-Kept g old wallclock lts lrq shared w e =
    let (_, _, r) = >>=-eq-done (check_mark g lts wallclock) _ e in
    let same = done-injective _ w r in
    (ground (arith, same), ground (arith, same), ground (arith, same))

update_running-Kept :
    (k : Kernel) (g : Globals) (p : Task) (rq : Rq) (event : TaskEvent) (wallclock : ℕ)
    (w w' : Walt)
    → update_running k g p rq event wallclock w ≡ done w'
    → Kept w.lts w'.lts
unfolding update_running
update_running-Kept k g p rq event wallclock w w' e =
    let (_, _, r) = >>=-eq-done (check_locked g rq) _ e in
    let (rolled, _, f0) = >>=-eq-done (update_window_start g w.lrq wallclock) _ r in
    let (a, c, f) = >>=-eq-done (account_marked k g p rq event wallclock w.lts rolled.0) _ f0 in
    let same =
      Checked-only g (account_marked k g p rq event wallclock w.lts rolled.0)
        (marked k g p rq event wallclock w.lts rolled.0) a
        (marked-Checked k g p rq event wallclock w.lts rolled.0) c in
    Kept-trans w.lts a.0 w'.lts
      (subst (λ (x : Lts × Lrq). Kept w.lts x.0) same
        (account_marked-Kept k g p rq event wallclock w.lts rolled.0))
      (finish-Kept g rolled.1 wallclock a.0 a.1 w.shared w' f)

-- What an update leaves, if it ends.
abbrev Leaves : Globals → Lts → Lts → Outcome Walt → Type 0
Leaves g before hinted o =
    (w : Walt)
    → o ≡ done w
    → (w.lts.on_dsq ≡ before.on_dsq) × (g.slim_walt_ctrl ≡ true → Kept hinted w.lts)

-- An update leaves the place of the task in the dispatch queues alone, and while the tracking is on
-- it leaves the class and the boost that the hint of the task gives.
pub update_task_ravg-Kept :
    (k : Kernel) (g : Globals) (p : Task) (rq : Rq) (event : TaskEvent) (wallclock : ℕ) (w : Walt)
    → Leaves g w.lts
        (lse_refresh_task_hint g w.lts p)
        (lse_update_task_ravg k g p rq event wallclock w)
unfolding lse_update_task_ravg lse_refresh_task_hint
update_task_ravg-Kept k g p rq event wallclock w =
    let hinted = lse_refresh_task_hint g w.lts p in
    let w1 : Walt = record w { lts = hinted } in
    let same = λ (v w' : Walt) (e : Outcome.done v ≡ done w'). done-injective v w' e in
    if-keeps (Leaves g w.lts hinted) (not g.slim_walt_ctrl)
      (λ off w' e. (ground (arith, same w w' e), λ on. cc))
      (λ _.
        if-keeps (Leaves g w.lts hinted) (w.lrq.window_start == 0 || w.lts.mark_start == wallclock)
          (λ _ w' e. rw (← same w1 w' e) (refl, λ on. (refl, refl, refl)))
          (λ _ w' e.
            let kept = update_running-Kept k g p rq event wallclock w1 w' e in
            (kept.0, λ on. kept)))
