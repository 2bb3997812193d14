-- ===== src/Hooks/Cfs.antt =====
-- The hooks of lse_cfs.c: `lse_scheduler_tick`, `lse_schedule` and `lse_tick_entry`.
use lunarkernel_sched_extent.Base.{
  ℕ, true, false, not, none, some, List, [], ◌∷◌, some, ◌==◌, ◌||◌, if◌then◌else◌,
}
use lunarkernel_sched_extent.Base.Word.{sub64}
use lunarkernel_sched_extent.Base.Outcome.{Outcome, done, ◌>>=◌}
use lunarkernel_sched_extent.Kernel.{Kernel, Task, Rq}
use lunarkernel_sched_extent.State.{Lrq, put_prev_task, pick_next_task, task_update}
use lunarkernel_sched_extent.Dsq.Queue.{put_at}
use lunarkernel_sched_extent.Dsq.Schedule.{lse_dsq_on_schedule}
use lunarkernel_sched_extent.Dsq.Timeout.{lse_dsq_urgency_signal}
use lunarkernel_sched_extent.Track.Update.{lse_update_task_ravg, adopt_new_window}
use lunarkernel_sched_extent.Gov.Tick.{lse_gov_tick_update}
use lunarkernel_sched_extent.Monitor.Watch.{lse_monitor_touch}
use lunarkernel_sched_extent.Shadow.Timer.{lse_shadow_tick_update_cpu, lse_shadow_tick_cb}
use lunarkernel_sched_extent.Hooks.Hook.{cpufreq_update_util}
use lunarkernel_sched_extent.Hooks.System.{Governor, System, update_ext, put_walt, lse_sched_clock}

-- for_each_possible_cpu
unfoldable pub start_windows : List ℕ → ℕ → (ℕ → Lrq) → ℕ → Lrq
unfolding put_at
start_windows [] clock lrqs = lrqs
start_windows (cpu ∷ cpus) clock lrqs =
    start_windows cpus clock (put_at cpu (record (lrqs cpu) { window_start = clock }) lrqs)

-- what the first tick does that finds no clock, alone
unfoldable pub start_clock : Kernel → ℕ → System → System
unfolding start_windows
start_clock k rq_clock s =
    let clock = sub64 rq_clock 20000 in
    record s {
      tick_sched_clock = clock;
      lrqs = start_windows k.possible_cpus clock s.lrqs;
      shared = record s.shared { lse_run_rollover_lastq_ws = clock };
    }

-- `rq_clock` is `rq->clock`.
unfoldable pub lse_scheduler_tick : Kernel → ℕ → ℕ → System → System
unfolding start_clock lse_monitor_touch
lse_scheduler_tick k jiffies rq_clock s =
    let s' = (if s.tick_sched_clock == 0 then start_clock k rq_clock s else s) in
    if not s.g.slim_walt_ctrl
    then s
    else record s' { monitor = lse_monitor_touch jiffies s'.monitor }

-- the updates of the task that leaves and of the one that arrives
unfoldable pub update_switched : Kernel → ℕ → Rq → Task → Task → System → Outcome System
update_switched k rq_clock rq prev next s =
    if prev.addr == next.addr
    then update_ext k rq_clock prev rq task_update (s.dsq.ext prev.addr) s
    else (do
      s' ← update_ext k rq_clock prev rq put_prev_task (s.dsq.ext prev.addr) s
      update_ext k rq_clock next rq pick_next_task (s'.dsq.ext next.addr) s')

-- the calls that follow the updates
unfoldable pub after_updates : Kernel → ℕ → Rq → Task → Task → System → System
after_updates k jiffies rq prev next s = record s {
  dsq = lse_dsq_on_schedule k s.config jiffies rq (some prev) (some next) s.dsq;
  shadow = lse_shadow_tick_update_cpu rq.cpu rq s.shadow;
}

unfoldable pub lse_schedule : Kernel → ℕ → ℕ → Rq → Task → Task → System → Outcome System
lse_schedule k jiffies rq_clock rq prev next s = if not s.g.slim_walt_ctrl then done s else (do
  s' ← update_switched k rq_clock rq prev next s
  done (after_updates k jiffies rq prev next s'))

-- The call of `lse_gov_tick_update` on a CPU; `now_ns` and `now` are its readings of the clock.
unfoldable pub gov_tick : Kernel → ℕ → ℕ → ℕ → System → System
gov_tick k now_ns now cpu s =
    let gov = s.governor in
    elim (gov.policy_of cpu) [
      | none ↦ s
      | some id ↦
          let d = gov.policies id in
          let boost = lse_dsq_urgency_signal s.config s.dsq in
          let grq = gov.lse_gov_rq_data cpu in
          let r =
            lse_gov_tick_update k gov.switches d.policy d.tunables s.lrqs cpu boost now_ns now d.lg
              grq in
          record s {
            governor = record gov {
              policies = put_at id (record d { lg = r.lg; command = r.command }) gov.policies;
              lse_gov_rq_data = put_at cpu r.grq gov.lse_gov_rq_data;
            };
          }
    ]

-- `curr` is `rq->curr`.
unfoldable pub lse_tick_entry : Kernel → ℕ → ℕ → ℕ → ℕ → Rq → Task → System → Outcome System
lse_tick_entry k jiffies rq_clock now_ns now rq curr s =
    let touched = record s { monitor = lse_monitor_touch jiffies s.monitor } in
    if not s.g.slim_walt_ctrl then done s else (do
      s' ← update_ext k rq_clock curr rq task_update (touched.dsq.ext curr.addr) touched
      done (gov_tick k now_ns now rq.cpu s'))

-- The work of `lse_shadow_tick_cb` on the running task, under the lock that it takes, while the
-- shadow tick and the load tracking are on; `Shadow.Timer` has what it does to the timers.
unfoldable pub shadow_tick_account : Kernel → ℕ → ℕ → Rq → Task → System → Outcome System
shadow_tick_account k jiffies sched_clock rq curr s =
    let touched = record s { monitor = lse_monitor_touch jiffies s.monitor } in
    elim (s.dsq.ext curr.addr) [
      | none ↦ done touched
      | some lts ↦ if rq.curr == rq.idle then done touched else (do
        w ←
            lse_update_task_ravg k s.g curr (record rq { locked = true }) task_update
              (lse_sched_clock sched_clock s)
              (record { lts = lts; lrq = s.lrqs rq.cpu; shared = s.shared })
        done (put_walt curr.addr rq.cpu w s))
    ]

-- The callback of the timer of the CPU `owner`, where it runs on the CPU of `rq`.
unfoldable pub shadow_tick : Kernel → ℕ → ℕ → ℕ → Rq → Task → System → Outcome System
shadow_tick k jiffies sched_clock owner rq curr s =
    let timed = record s { shadow = lse_shadow_tick_cb owner rq.cpu s.shadow } in
    if not s.shadow.highres_tick_ctrl || not s.shadow.slim_walt_ctrl
    then done timed
    else shadow_tick_account k jiffies sched_clock rq curr timed

-- the update of the running task by the irq work, which takes the lock of the run queue
unfoldable pub update_rolled : Kernel → ℕ → Rq → Task → System → Outcome System
update_rolled k wc rq curr s = elim (s.dsq.ext curr.addr) [
  | none ↦ done s
  | some lts ↦ (do
    w ←
        lse_update_task_ravg k s.g curr (record rq { locked = true }) task_update wc
          (record { lts = lts; lrq = s.lrqs rq.cpu; shared = s.shared })
    done (put_walt curr.addr rq.cpu w s))
]

-- what the hook and the adoption of a new window leave; the governor reads the same global
abbrev pub adopted : Governor → ℕ → ℕ → System → System
adopted gov cpu wc s =
    let g = adopt_new_window s.g (s.lrqs cpu) wc in
    record s {
      g = g;
      governor = record gov {
        switches = record gov.switches { lse_sched_ravg_window = g.lse_sched_ravg_window };
      };
    }

-- The irq work of a rollover, which is no longer queued; `curr` is `rq->curr`.
unfoldable pub irq_work : Kernel → ℕ → Rq → Task → System → Outcome System
unfolding update_rolled cpufreq_update_util
irq_work k sched_clock rq curr s =
    let wc = lse_sched_clock sched_clock s in
    let run = record s { shared = record s.shared { irq_work_queued = false } } in
    (do
      updated ← update_rolled k wc rq curr run
      gov ← cpufreq_update_util k updated.lrqs rq.cpu updated.governor
      done (adopted gov rq.cpu wc updated))
