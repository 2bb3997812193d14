-- ===== src/Hooks/Ticks.antt =====
-- What the ticks of lse_cfs.c and lse_shadow_tick.c leave where the tasks wait.

use lunarkernel_sched_extent.Base.{
  ℕ, refl, sym, ◌∙◌, ap, Bool, true, not, ◌||◌, ◌==◌, Option-cases, inl, inr, if-keeps, arith,
}
use lunarkernel_sched_extent.Base.Outcome.{done, >>=-eq-done}
use lunarkernel_sched_extent.Kernel.{Kernel, Task, Rq}
use lunarkernel_sched_extent.State.{task_update}
use lunarkernel_sched_extent.Track.Globals.{Globals}
use lunarkernel_sched_extent.Track.Update.{Walt, lse_update_task_ravg}
use lunarkernel_sched_extent.Track.Kept.{update_task_ravg-Kept}
use lunarkernel_sched_extent.Dsq.Invariant.{on_dsq_of}
use lunarkernel_sched_extent.Hooks.System.{System, lse_sched_clock, put_walt, update_ext}
use lunarkernel_sched_extent.Hooks.Cfs.{gov_tick, lse_tick_entry, shadow_tick_account, shadow_tick}
use lunarkernel_sched_extent.Monitor.Watch.{lse_monitor_touch}
use lunarkernel_sched_extent.Shadow.Timer.{lse_shadow_tick_cb}
use lunarkernel_sched_extent.Hooks.Waiting.{
  Settled, Leaves, Leaves-done, put_walt-Settled, same-Settled, update_ext-Settled,
}

module _ (k : Kernel) (g0 : Globals) (place : ℕ → ℕ) where
  gov_tick-Settled :
      (now_ns now cpu : ℕ) (s : System) (may : ℕ → Bool)
      → Settled k g0 place may s
      → Settled k g0 place may (gov_tick k now_ns now cpu s)
  unfolding gov_tick
  gov_tick-Settled now_ns now cpu s may v = elim (Option-cases (s.governor.policy_of cpu)) [
    | inl e ↦ rw (e, gov_tick) v
    | inr (id, e) ↦ rw (e, gov_tick) (same-Settled k g0 place s _ may refl refl refl v)
  ]

  pub tick_entry-Settled :
      (jiffies clock now_ns now : ℕ) (rq : Rq) (curr : Task) (s : System) (may : ℕ → Bool)
      → Settled k g0 place may s
      → Leaves (Settled k g0 place may) (lse_tick_entry k jiffies clock now_ns now rq curr s)
  unfolding lse_tick_entry
  tick_entry-Settled jiffies clock now_ns now rq curr s may v =
      let touched : System = record s { monitor = lse_monitor_touch jiffies s.monitor } in
      let vt : Settled k g0 place may touched =
        same-Settled k g0 place s touched may refl refl refl v in
      if-keeps (Leaves (Settled k g0 place may)) (not s.g.slim_walt_ctrl)
        (λ off. absurd (ground (arith, v.walt)))
        (λ _ s' r.
          let (t, r1, r2) =
            >>=-eq-done (update_ext k clock curr rq task_update (s.dsq.ext curr.addr) touched)
              (λ t. done (gov_tick k now_ns now rq.cpu t)) r in
          let u =
            update_ext-Settled k g0 place clock curr rq task_update (s.dsq.ext curr.addr) touched
              may refl vt t r1 in
          Leaves-done (Settled k g0 place may) (gov_tick k now_ns now rq.cpu t)
            (gov_tick-Settled now_ns now rq.cpu t may u) s' r2)

  account-Settled :
      (jiffies clock : ℕ) (rq : Rq) (curr : Task) (s : System) (may : ℕ → Bool)
      → Settled k g0 place may s
      → Leaves (Settled k g0 place may) (shadow_tick_account k jiffies clock rq curr s)
  unfolding shadow_tick_account
  account-Settled jiffies clock rq curr s may v =
      let touched : System = record s { monitor = lse_monitor_touch jiffies s.monitor } in
      let vt : Settled k g0 place may touched =
        same-Settled k g0 place s touched may refl refl refl v in
      elim (Option-cases (s.dsq.ext curr.addr)) [
        | inl e ↦ rw (e, shadow_tick_account) (Leaves-done (Settled k g0 place may) touched vt)
        | inr (lts, e) ↦
            rw (e, shadow_tick_account)
              (if-keeps (Leaves (Settled k g0 place may)) (rq.curr == rq.idle)
                (λ _. Leaves-done (Settled k g0 place may) touched vt)
                (λ _ s' r.
                  let before : Walt = record {
                    lts = lts;
                    lrq = s.lrqs rq.cpu;
                    shared = s.shared;
                  } in
                  let now = lse_sched_clock clock s in
                  let locked : Rq = record rq { locked = true } in
                  let (w, u, r2) =
                    >>=-eq-done (lse_update_task_ravg k s.g curr locked task_update now before)
                      (λ w. done (put_walt curr.addr rq.cpu w s)) r in
                  let kept = update_task_ravg-Kept k s.g curr locked task_update now before w u in
                  Leaves-done (Settled k g0 place may) (put_walt curr.addr rq.cpu w s)
                    (put_walt-Settled k g0 place curr.addr rq.cpu w s may
                      (kept.0 ∙ sym (ap on_dsq_of e)) v)
                    s' r2))
      ]

  pub shadow_tick-Settled :
      (jiffies clock owner : ℕ) (rq : Rq) (curr : Task) (s : System) (may : ℕ → Bool)
      → Settled k g0 place may s
      → Leaves (Settled k g0 place may) (shadow_tick k jiffies clock owner rq curr s)
  unfolding shadow_tick
  shadow_tick-Settled jiffies clock owner rq curr s may v =
      let timed : System = record s { shadow = lse_shadow_tick_cb owner rq.cpu s.shadow } in
      let vt : Settled k g0 place may timed =
        same-Settled k g0 place s timed may refl refl refl v in
      if-keeps (Leaves (Settled k g0 place may))
        (not s.shadow.highres_tick_ctrl || not s.shadow.slim_walt_ctrl)
        (λ _. Leaves-done (Settled k g0 place may) timed vt)
        (λ _. account-Settled jiffies clock rq curr timed may vt)
