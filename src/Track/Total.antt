-- ===== src/Track/Total.antt =====
-- The updates of a task and its CPU end without a bug while the clock runs forwards.
use lunarkernel_sched_extent.Base.{
  ℕ, ◌+◌, ◌*◌, ◌^◌, ◌≤◌, ◌<◌, ◌≡◌, ◌≢◌, ◌⊎◌, inl, refl, sym, ◌∙◌, true, not, ◌||◌, ◌==◌, List, [],
  ◌∷◌, if-keeps, arith,
}
use lunarkernel_sched_extent.Base.Outcome.{Outcome, done, ◌>>=◌}
use lunarkernel_sched_extent.Kernel.{Kernel, Task, Rq}
use lunarkernel_sched_extent.State.{Lts, Lrq, TaskEvent}
use lunarkernel_sched_extent.Monitor.Stats.{lse_stats_inc}
use lunarkernel_sched_extent.Track.Accounted.{
  demanded, accounted, marked, marked-Checked, Checked-done,
}
use lunarkernel_sched_extent.Track.Globals.{Globals}
use lunarkernel_sched_extent.Track.Classify.{lse_refresh_task_hint}
use lunarkernel_sched_extent.Track.Busy.{update_task_rq_cpu_cycles, update_cpu_busy_time}
use lunarkernel_sched_extent.Track.Rollover.{lse_window_rollover_run_once}
use lunarkernel_sched_extent.Track.Update.{
  Walt, start_window, account_marked, check_mark, finish, check_locked, update_running,
  lse_update_task_ravg,
}
use lunarkernel_sched_extent.Track.Aligned.{ClockOk, update_window_start-Rolled}

-- A task that was never marked has no window yet.
abbrev pub IsFresh : Lts → Type 0
IsFresh lts = (lts.mark_start ≢ 0) ⊎ (lts.window_start ≡ 0)

-- the window of the CPU stays behind the clock of its last update
abbrev pub Ready : Walt → Type 0
Ready w = IsFresh w.lts × (w.lrq.window_start ≤ w.lrq.latest_clock)

busy-window_start :
    (lts : Lts) (p : Task) (lrq : Lrq) (event : TaskEvent) (wallclock : ℕ)
    → let r = update_cpu_busy_time lts p lrq event wallclock in
      (r.window_start ≡ lrq.window_start) × (r.latest_clock ≡ lrq.latest_clock)
unfolding update_cpu_busy_time
busy-window_start lts p lrq event wallclock = ground arith

cycles-window_start :
    (k : Kernel) (cpu : ℕ) (lrq : Lrq)
    → let r = update_task_rq_cpu_cycles k cpu lrq in
      (r.window_start ≡ lrq.window_start) × (r.latest_clock ≡ lrq.latest_clock)
unfolding update_task_rq_cpu_cycles
cycles-window_start k cpu lrq = (refl, refl)

account-window :
    (k : Kernel) (g : Globals) (p : Task) (rq : Rq) (event : TaskEvent) (wallclock : ℕ) (lts : Lts)
    (lrq : Lrq)
    → let r = accounted k g p rq event wallclock lts lrq in
      (r.0.window_start ≡ lrq.window_start)
      × (r.1.window_start ≡ lrq.window_start)
      × (r.1.latest_clock ≡ lrq.latest_clock)
unfolding accounted
account-window k g p rq event wallclock lts lrq =
    let lrq1 = update_task_rq_cpu_cycles k rq.cpu lrq in
    let task = (demanded g lts p rq lrq1 event wallclock).0 in
    let busy = busy-window_start task p lrq1 event wallclock in
    let cycles = cycles-window_start k rq.cpu lrq in
    (busy.0 ∙ cycles.0, busy.0 ∙ cycles.0, busy.1 ∙ cycles.1)

start_window-fresh :
    (lts : Lts) (lrq : Lrq)
    → IsFresh lts
    → ((start_window lts lrq).mark_start == 0) ≡ true
    → (start_window lts lrq).window_start ≡ lrq.window_start
unfolding start_window
start_window-fresh lts lrq h e = ground arith

-- Behind the accounting, the task's window is the CPU's, and the CPU's has not moved.
account_marked-window :
    (k : Kernel) (g : Globals) (p : Task) (rq : Rq) (event : TaskEvent) (wallclock : ℕ) (lts : Lts)
    (lrq : Lrq)
    → IsFresh lts
    → let r = marked k g p rq event wallclock lts lrq in
      (r.0.window_start ≡ lrq.window_start)
      × (r.1.window_start ≡ lrq.window_start)
      × (r.1.latest_clock ≡ lrq.latest_clock)
unfolding marked
account_marked-window k g p rq event wallclock lts lrq h =
    let started = start_window lts lrq in
    if-keeps
      (λ (r : Lts × Lrq).
        (r.0.window_start ≡ lrq.window_start)
        × (r.1.window_start ≡ lrq.window_start)
        × (r.1.latest_clock ≡ lrq.latest_clock))
      (started.mark_start == 0) (λ e. (start_window-fresh lts lrq h e, refl, refl))
      (λ e. account-window k g p rq event wallclock started lrq)

check_mark-passes :
    (g : Globals) (lts : Lts) (start wallclock : ℕ)
    → lts.window_start ≡ start
    → start ≤ wallclock
    → wallclock < 2 ^ 63
    → g.lse_sched_ravg_window < 2 ^ 32
    → wallclock < start + g.lse_sched_ravg_window
    → check_mark g lts wallclock ≡ done tt
unfolding check_mark
check_mark-passes g lts start wallclock e le b w lt = ground arith

pub check_locked-passes : (g : Globals) (rq : Rq) → rq.locked ≡ true → check_locked g rq ≡ done tt
unfolding check_locked
check_locked-passes g rq h = rw h refl

-- The state after an update that ran: the task is marked with the clock, its window is the CPU's,
-- and that contains the clock.
abbrev pub Updated : Globals → ℕ → Walt → Type 0
Updated g wallclock w =
    (w.lts.mark_start ≡ wallclock)
    × (w.lts.window_start ≡ w.lrq.window_start)
    × (w.lrq.latest_clock ≡ wallclock)
    × (w.lrq.window_start ≤ wallclock)
    × (wallclock < w.lrq.window_start + g.lse_sched_ravg_window)

finish-Updated :
    (g : Globals) (old wallclock : ℕ) (lts : Lts) (lrq : Lrq) (w : Walt)
    → lts.window_start ≡ lrq.window_start
    → lrq.latest_clock ≡ wallclock
    → lrq.window_start ≤ wallclock
    → wallclock < 2 ^ 63
    → g.lse_sched_ravg_window < 2 ^ 32
    → wallclock < lrq.window_start + g.lse_sched_ravg_window
    → (w' : Walt) × (finish g old wallclock lts lrq w.shared ≡ done w') × Updated g wallclock w'
unfolding finish
finish-Updated g old wallclock lts lrq w e c le b f lt =
    let s = lse_window_rollover_run_once g old lrq.window_start w.shared in
    let w' : Walt = record {
      lts = record lts { mark_start = wallclock };
      lrq = lrq;
      shared = record s {
        lse_stats_update_cnt = lse_stats_inc g.slim_stats s.lse_stats_update_cnt;
      };
    } in
    (
      w',
      rw (check_mark-passes g lts lrq.window_start wallclock e le b f lt) refl,
      (refl, e, c, le, lt),
    )

update_running-Updated :
    (k : Kernel) (g : Globals) (p : Task) (rq : Rq) (event : TaskEvent) (wallclock : ℕ) (w : Walt)
    → g.lse_scale_demand_divisor ≢ 0
    → rq.locked ≡ true
    → IsFresh w.lts
    → ClockOk g w.lrq wallclock
    → (w' : Walt) × (update_running k g p rq event wallclock w ≡ done w') × Updated g wallclock w'
unfolding update_running
update_running-Updated k g p rq event wallclock w n0 locked fresh clock =
    let (lrq', e, (c, le, lt, n, s, sums)) = update_window_start-Rolled g w.lrq wallclock clock in
    let ends = marked k g p rq event wallclock w.lts lrq' in
    let kept = account_marked-window k g p rq event wallclock w.lts lrq' fresh in
    let (w', d, u) =
      finish-Updated g w.lrq.window_start wallclock ends.0 ends.1 w (kept.0 ∙ sym kept.1)
        (kept.2 ∙ c) (rw kept.1 le) clock.4 clock.1 (rw kept.1 lt) in
    let passes =
      Checked-done g (account_marked k g p rq event wallclock w.lts lrq')
        (marked k g p rq event wallclock w.lts lrq') n0
        (marked-Checked k g p rq event wallclock w.lts lrq') in
    (w', rw (check_locked-passes g rq locked, e, passes, d) refl, u)

refresh-IsFresh :
    (g : Globals) (lts : Lts) (p : Task) → IsFresh lts → IsFresh (lse_refresh_task_hint g lts p)
unfolding lse_refresh_task_hint
refresh-IsFresh g lts p h = h

-- The call ended without a bug, and the next update may come at any later clock.
abbrev pub EndsReady : ℕ → Outcome Walt → Type 0
EndsReady wallclock o =
    (w : Walt) × (o ≡ done w)
    × Ready w
    × (w.lrq.latest_clock ≤ wallclock)
    × (w.lrq.window_start ≤ wallclock)

pub update_task_ravg-EndsReady :
    (k : Kernel) (g : Globals) (p : Task) (rq : Rq) (event : TaskEvent) (wallclock : ℕ) (w : Walt)
    → g.lse_scale_demand_divisor ≢ 0
    → rq.locked ≡ true
    → 0 < wallclock
    → Ready w
    → ClockOk g w.lrq wallclock
    → EndsReady wallclock (lse_update_task_ravg k g p rq event wallclock w)
unfolding lse_update_task_ravg
update_task_ravg-EndsReady k g p rq event wallclock w n0 locked positive (fresh, behind) clock =
    let w1 : Walt = record w { lts = lse_refresh_task_hint g w.lts p } in
    let fresh1 = refresh-IsFresh g w.lts p fresh in
    let (w2, e, u) = update_running-Updated k g p rq event wallclock w1 n0 locked fresh1 clock in
    if-keeps (EndsReady wallclock) (not g.slim_walt_ctrl)
      (λ h. (w, refl, (fresh, behind), clock.2, clock.3))
      (λ h.
        if-keeps (EndsReady wallclock)
          ((w.lrq.window_start == 0) || (w.lts.mark_start == wallclock))
          (λ q. (w1, refl, (fresh1, behind), clock.2, clock.3))
          (λ q. (w2, e, (inl (ground arith), omega arith), omega arith, u.3)))

-- The same without a look at where the window of the CPU stood before.
abbrev pub EndsFresh : ℕ → Outcome Walt → Type 0
EndsFresh wallclock o =
    (w : Walt) × (o ≡ done w)
    × IsFresh w.lts
    × (w.lrq.latest_clock ≤ wallclock)
    × (w.lrq.window_start ≤ wallclock)

pub update_task_ravg-EndsFresh :
    (k : Kernel) (g : Globals) (p : Task) (rq : Rq) (event : TaskEvent) (wallclock : ℕ) (w : Walt)
    → g.lse_scale_demand_divisor ≢ 0
    → rq.locked ≡ true
    → 0 < wallclock
    → IsFresh w.lts
    → ClockOk g w.lrq wallclock
    → EndsFresh wallclock (lse_update_task_ravg k g p rq event wallclock w)
unfolding lse_update_task_ravg
update_task_ravg-EndsFresh k g p rq event wallclock w n0 locked positive fresh clock =
    let w1 : Walt = record w { lts = lse_refresh_task_hint g w.lts p } in
    let fresh1 = refresh-IsFresh g w.lts p fresh in
    let (w2, e, u) = update_running-Updated k g p rq event wallclock w1 n0 locked fresh1 clock in
    if-keeps (EndsFresh wallclock) (not g.slim_walt_ctrl) (λ h. (w, refl, fresh, clock.2, clock.3))
      (λ h.
        if-keeps (EndsFresh wallclock)
          ((w.lrq.window_start == 0) || (w.lts.mark_start == wallclock))
          (λ q. (w1, refl, fresh1, clock.2, clock.3))
          (λ q. (w2, e, inl (ground arith), omega arith, u.3)))

-- An update: the run queue, the event and the clock at which it comes.
pub record UpdateInput : Type 0 where
  pub rq : Rq
  pub event : TaskEvent
  pub wallclock : ℕ

module _ (k : Kernel) (g : Globals) (p : Task) where
  abbrev pub updates : List UpdateInput → Walt → Outcome Walt
  updates [] w = done w
  updates (u ∷ us) w = lse_update_task_ravg k g p u.rq u.event u.wallclock w >>= updates us

  -- From `last` on the clock never runs backwards, under the lock of the run queue, and stays below
  -- 2 ^ 63 ns and below 2 ^ 31 windows.
  abbrev pub Forwards : ℕ → List UpdateInput → Type 0
  Forwards last [] = Unit
  Forwards last (u ∷ us) =
      (u.rq.locked ≡ true)
      × (0 < u.wallclock)
      × (last ≤ u.wallclock)
      × (u.wallclock < 2 ^ 63)
      × (u.wallclock < 2 ^ 31 * g.lse_sched_ravg_window)
      × Forwards u.wallclock us

  -- However often a task is updated on a CPU, by whatever events, no update ends in a bug or a
  -- division by zero, on any branch, as long as the clock does not run backwards and stays below 2
  -- ^ 63 ns and 2 ^ 31 windows, for a window from 1 to 2 ^ 32 - 1 ns, a divisor of the demand that
  -- is not 0 and a task that has no window before its first mark.
  pub updates-Ready :
      (us : List UpdateInput) (w : Walt) (last : ℕ)
      → g.lse_scale_demand_divisor ≢ 0
      → 0 < g.lse_sched_ravg_window
      → g.lse_sched_ravg_window < 2 ^ 32
      → Ready w
      → w.lrq.latest_clock ≤ last
      → Forwards last us
      → (w' : Walt) × (updates us w ≡ done w') × Ready w'
  updates-Ready [] w last n0 pos small ready le h = (w, refl, ready)
  updates-Ready (u ∷ us) w last n0 pos small ready le (locked, clock, later, b, c, h) =
      let (w1, e, ready1, l, s) =
        update_task_ravg-EndsReady k g p u.rq u.event u.wallclock w n0 locked clock ready
          (pos, small, omega arith, omega arith, b, omega arith) in
      let (w2, f, ready2) = updates-Ready us w1 u.wallclock n0 pos small ready1 l h in
      (w2, rw e f, ready2)
