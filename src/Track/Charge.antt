-- ===== src/Track/Charge.antt =====
-- What an update of the demand charges a task.
use lunarkernel_sched_extent.Base.{
  false, min, max, ltb, if-keeps, Bool-cases, inl, inr, ◌≢◌, ℕ, zero, suc, ◌+◌, ◌-◌, ◌*◌, ◌/◌, ◌%◌,
  ◌^◌, ◌≤◌, ◌<◌, ◌≡◌, refl, ◌∙◌, true, if◌then◌else◌, arith,
}
use lunarkernel_sched_extent.Base.Div.{quotient, mul_comm, div-lt}
use lunarkernel_sched_extent.Base.Int.{ℤ, pos}
use lunarkernel_sched_extent.Base.Word.{u32, sub64, add64, mul64}
use lunarkernel_sched_extent.Kernel.{Task, Rq}
use lunarkernel_sched_extent.State.{Lts, Lrq, TaskEvent}
use lunarkernel_sched_extent.Track.Accounted.{
  history, recorded, windows, demanded, demand-Checked, Checked-done,
}
use lunarkernel_sched_extent.Track.Globals.{Globals}
use lunarkernel_sched_extent.Track.Demand.{
  scale_exec_time, add_to_task_demand, is_nonzero_int, update_task_demand,
  account_busy_for_task_demand,
}
use lunarkernel_sched_extent.Base.Outcome.{done}
use lunarkernel_sched_extent.Track.Aligned.{nr_windows-exact}

-- At the full scale, a duration below 2 ^ 54 ns is itself.
scale_exec_time-full :
    (delta : ℕ) (lrq : Lrq)
    → lrq.task_exec_scale ≡ 1024
    → delta < 2 ^ 54
    → scale_exec_time delta lrq ≡ delta
unfolding scale_exec_time
scale_exec_time-full delta lrq e h = rw e (omega arith)

demand-runtime :
    (g : Globals) (lts : Lts) (lrq : Lrq) (delta : ℕ)
    → (add_to_task_demand g lts lrq delta).1 ≡ scale_exec_time delta lrq
unfolding add_to_task_demand
demand-runtime g lts lrq delta = refl

demand-full :
    (g : Globals) (lts : Lts) (lrq : Lrq) (delta d : ℕ)
    → lrq.task_exec_scale ≡ 1024
    → delta ≡ d
    → d < 2 ^ 54
    → (add_to_task_demand g lts lrq delta).1 ≡ d
demand-full g lts lrq delta d e h b =
    demand-runtime g lts lrq delta ∙ rw h (scale_exec_time-full d lrq e b)

-- head, full windows and tail together
sum-parts :
    (q w head tail : ℕ)
    → w * q + head + tail < 2 ^ 54
    → add64 (if is_nonzero_int (pos q) then add64 head (mul64 q w) else head) tail
      ≡ w * q + head + tail
sum-parts zero w head tail h = omega arith
sum-parts (suc q) w head tail h = omega (arith, mul_comm (suc q) w)

windows-runtime :
    (g : Globals) (lts : Lts) (p : Task) (lrq : Lrq) (wallclock : ℕ)
    → lrq.task_exec_scale ≡ 1024
    → lts.mark_start ≤ lrq.window_start
    → lrq.window_start ≤ wallclock
    → wallclock < 2 ^ 54
    → 0 < g.lse_sched_ravg_window
    → g.lse_sched_ravg_window < 2 ^ 32
    → lrq.window_start < lts.mark_start + 2 ^ 31 * g.lse_sched_ravg_window
    → (windows g lts p lrq wallclock).1 ≡ wallclock - lts.mark_start
unfolding windows
windows-runtime g lts p lrq wallclock e m s c nonempty small n =
    let w = g.lse_sched_ravg_window in
    let delta = lrq.window_start - lts.mark_start in
    let q = delta / w in
    let since : sub64 lrq.window_start lts.mark_start ≡ delta = omega arith in
    let few = div-lt delta (2 ^ 31) w nonempty (omega arith) in
    let (r, d, f) = quotient delta w nonempty in
    let exact = nr_windows-exact q few in
    let fits : q % 2 ^ 64 ≡ q = omega arith in
    let full : mul64 q w ≡ w * q = omega (arith, mul_comm q w) in
    let first : sub64 lrq.window_start (w * q) ≡ lts.mark_start + r = omega arith in
    let head : sub64 (lts.mark_start + r) lts.mark_start ≡ r = omega arith in
    let back : add64 (lts.mark_start + r) (w * q) ≡ lrq.window_start = omega arith in
    let tail : sub64 wallclock lrq.window_start ≡ wallclock - lrq.window_start = omega arith in
    let scaled = scale_exec_time-full w lrq e (omega arith) in
    let head_full : (l : Lts)
        → (add_to_task_demand g l lrq (sub64 (lts.mark_start + r) lts.mark_start)).1 ≡ r =
      λ l. demand-full g l lrq (sub64 (lts.mark_start + r) lts.mark_start) r e head (omega arith) in
    let tail_full : (l : Lts)
        → (add_to_task_demand g l lrq (sub64 wallclock lrq.window_start)).1
          ≡ wallclock - lrq.window_start =
      λ l.
        demand-full g l lrq (sub64 wallclock lrq.window_start) (wallclock - lrq.window_start) e tail
          (omega arith) in
    let parts = sum-parts q w r (wallclock - lrq.window_start) (omega arith) in
    rw (since, exact, fits, full, first, back, scaled, head_full, tail_full, parts) (omega arith)

-- An update of the history that is not of an idle task, with the running sum itself or with none
-- left, leaves no running sum.
history-sum :
    (g : Globals) (lts : Lts) (p : Task) (runtime : ℕ) (samples : ℤ)
    → p.is_idle_task ≡ false
    → lts.sum ≡ 0
    → (history g lts p runtime samples).sum ≡ 0
unfolding history recorded
history-sum g lts p runtime samples i z = ground arith

sum-history :
    (g : Globals) (lts : Lts) (p : Task)
    → p.is_idle_task ≡ false
    → (history g lts p lts.sum (pos 1)).sum ≡ 0
unfolding history recorded
sum-history g lts p i = ground arith

demand-sum :
    (g : Globals) (lts : Lts) (lrq : Lrq) (delta d : ℕ)
    → lrq.task_exec_scale ≡ 1024
    → delta ≡ d
    → g.lse_sched_ravg_window < 2 ^ 32
    → lts.sum + d < 2 ^ 32
    → (add_to_task_demand g lts lrq delta).0.sum ≡ min g.lse_sched_ravg_window (lts.sum + d)
unfolding add_to_task_demand scale_exec_time
demand-sum g lts lrq delta d e h w b = rw (h, e) (ground arith)

windows-sum :
    (g : Globals) (lts : Lts) (p : Task) (lrq : Lrq) (wallclock : ℕ)
    → lrq.task_exec_scale ≡ 1024
    → p.is_idle_task ≡ false
    → lts.mark_start ≤ lrq.window_start
    → lrq.window_start ≤ wallclock
    → wallclock < lrq.window_start + 2 ^ 32
    → wallclock < 2 ^ 54
    → 0 < g.lse_sched_ravg_window
    → g.lse_sched_ravg_window < 2 ^ 32
    → lrq.window_start < lts.mark_start + 2 ^ 31 * g.lse_sched_ravg_window
    → (windows g lts p lrq wallclock).0.sum
      ≡ min g.lse_sched_ravg_window (wallclock - lrq.window_start)
unfolding windows
windows-sum g lts p lrq wallclock e i m s near c nonempty small n =
    let w = g.lse_sched_ravg_window in
    let delta = lrq.window_start - lts.mark_start in
    let q = delta / w in
    let since : sub64 lrq.window_start lts.mark_start ≡ delta = omega arith in
    let few = div-lt delta (2 ^ 31) w nonempty (omega arith) in
    let (r, d, f) = quotient delta w nonempty in
    let exact = nr_windows-exact q few in
    let fits : q % 2 ^ 64 ≡ q = omega arith in
    let full : mul64 q w ≡ w * q = omega (arith, mul_comm q w) in
    let first : sub64 lrq.window_start (w * q) ≡ lts.mark_start + r = omega arith in
    let back : add64 (lts.mark_start + r) (w * q) ≡ lrq.window_start = omega arith in
    let tail : sub64 wallclock lrq.window_start ≡ wallclock - lrq.window_start = omega arith in
    let lts1 = (add_to_task_demand g lts lrq (sub64 (lts.mark_start + r) lts.mark_start)).0 in
    let lts2 = history g lts1 p lts1.sum (pos 1) in
    let lts3 : Lts =
      (if is_nonzero_int (pos q)
        then history g lts2 p (u32 (scale_exec_time w lrq)) (pos q)
        else lts2) in
    let zero2 : lts2.sum ≡ 0 = sum-history g lts1 p i in
    let zero3 : lts3.sum ≡ 0 =
      if-keeps (λ (l : Lts). l.sum ≡ 0) (is_nonzero_int (pos q))
        (λ _. history-sum g lts2 p (u32 (scale_exec_time w lrq)) (pos q) i zero2) (λ _. zero2) in
    let sum =
      demand-sum g lts3 lrq (sub64 wallclock lrq.window_start) (wallclock - lrq.window_start) e tail
        small (omega arith) in
    let tail_alone : lts3.sum + (wallclock - lrq.window_start) ≡ wallclock - lrq.window_start =
      omega (arith, zero3) in
    rw (since, exact, fits, full, first, back) (sum ∙ rw tail_alone refl)

-- On a CPU at full speed, the update of the demand of a task that counts as busy and is not idle
-- ends and accounts for exactly the time since the task was marked, however many windows that time
-- reaches over. The running sum of the task then holds, up to the window, what it held before and
-- that time, or, where the CPU's window has begun since, the time in it alone. The window is from
-- 1 to 2 ^ 32 - 1 ns, the divisor of the demand is not 0, the mark is not ahead of the clock and
-- fewer than 2 ^ 31 windows before the CPU's, the clock is below 2 ^ 54 ns, and the sum before and
-- the time since the later of the mark and the start of the CPU's window are together below 2 ^ 32
-- ns.
pub task_demand-charged :
    (g : Globals) (lts : Lts) (p : Task) (rq : Rq) (lrq : Lrq) (event : TaskEvent) (wallclock : ℕ)
    → g.lse_scale_demand_divisor ≢ 0
    → lrq.task_exec_scale ≡ 1024
    → p.is_idle_task ≡ false
    → account_busy_for_task_demand rq p event ≡ true
    → lts.mark_start ≤ wallclock
    → lrq.window_start ≤ wallclock
    → wallclock < 2 ^ 54
    → 0 < g.lse_sched_ravg_window
    → g.lse_sched_ravg_window < 2 ^ 32
    → lrq.window_start < lts.mark_start + 2 ^ 31 * g.lse_sched_ravg_window
    → lts.sum + (wallclock - max lts.mark_start lrq.window_start) < 2 ^ 32
    → (r : Lts × ℕ) × (update_task_demand g lts p rq lrq event wallclock ≡ done r)
      × (r.1 ≡ wallclock - lts.mark_start)
      × (r.0.sum
          ≡ min g.lse_sched_ravg_window (
              if ltb lts.mark_start lrq.window_start
              then wallclock - lrq.window_start
              else lts.sum + (wallclock - lts.mark_start)))
unfolding demanded
task_demand-charged g lts p rq lrq event wallclock v e i b m s c nonempty small n near =
    let ends =
      Checked-done g (update_task_demand g lts p rq lrq event wallclock)
        (demanded g lts p rq lrq event wallclock) v
        (demand-Checked g lts p rq lrq event wallclock) in
    elim (Bool-cases (ltb lts.mark_start lrq.window_start)) [
      | inl new ↦
          let runtime =
            windows-runtime g lts p lrq wallclock e (ground arith) s c nonempty small n in
          let sum =
            windows-sum g lts p lrq wallclock e i (ground arith) s (ground arith) c nonempty small
              n in
          (demanded g lts p rq lrq event wallclock, ends, rw (b, new) runtime, rw (b, new) sum)
      | inr old ↦
          let delta : sub64 wallclock lts.mark_start ≡ wallclock - lts.mark_start = omega arith in
          let runtime =
            demand-full g lts lrq (sub64 wallclock lts.mark_start) (wallclock - lts.mark_start) e
              delta (omega arith) in
          let sum =
            demand-sum g lts lrq (sub64 wallclock lts.mark_start) (wallclock - lts.mark_start) e
              delta small (ground arith) in
          (demanded g lts p rq lrq event wallclock, ends, rw (b, old) runtime, rw (b, old) sum)
    ]
