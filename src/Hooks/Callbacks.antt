-- ===== src/Hooks/Callbacks.antt =====
-- The callback of the shadow tick, the irq work and a change of the frame rate leave a sound module.
use mathlib.Core.Path.{subst}
use lunarkernel_sched_extent.Base.{
  ℕ, zero, suc, ◌/◌, ◌≤◌, ◌<◌, ◌≢◌, refl, Bool, true, false, not, ◌||◌, ◌==◌, if-keeps,
  Option-cases, inl, inr, arith,
}
use lunarkernel_sched_extent.Base.Div.{div-lt}
use lunarkernel_sched_extent.Kernel.{Kernel, Task, Rq}
use lunarkernel_sched_extent.State.{Lrq, task_update}
use lunarkernel_sched_extent.Track.Globals.{Globals}
use lunarkernel_sched_extent.Track.Update.{sched_ravg_window_change, adopt_new_window}
use lunarkernel_sched_extent.Monitor.Watch.{lse_monitor_touch}
use lunarkernel_sched_extent.Shadow.Timer.{lse_shadow_tick_cb}
use lunarkernel_sched_extent.Hooks.System.{System, Governor, lse_sched_clock, put_walt}
use lunarkernel_sched_extent.Hooks.Guided.{Guided-same, SameGuide, update_util-Visited}
use lunarkernel_sched_extent.Hooks.Cfs.{
  shadow_tick_account, shadow_tick, update_rolled, adopted, irq_work,
}
use lunarkernel_sched_extent.Hooks.Events.{at_rate, respond}
use lunarkernel_sched_extent.Hooks.Sound.{ExtOk, WindowOk, Sound, InRange, update-Sound}
use lunarkernel_sched_extent.Hooks.Steps.{Fine, same-Sound}

module _ (k : Kernel) (least clock : ℕ) (off : Bool) (range : InRange least clock) where
  account-Fine :
      (jiffies : ℕ) (rq : Rq) (curr : Task) (s : System)
      → Sound least clock off s
      → Fine least clock off (shadow_tick_account k jiffies clock rq curr s)
  unfolding shadow_tick_account
  account-Fine jiffies rq curr s v =
      let touched = record s { monitor = lse_monitor_touch jiffies s.monitor } in
      let v0 = same-Sound k least clock off range s touched refl refl refl refl refl refl v in
      elim (Option-cases (s.dsq.ext curr.addr)) [
        | inl e ↦ rw (e, shadow_tick_account) (touched, refl, v0)
        | inr (lts, e) ↦
            let (w, d, u, b) =
              update-Sound k least clock off range curr (record rq { locked = true }) task_update
                lts s.shared s refl (subst ExtOk e (v.fresh curr.addr)) v in
            rw (e, shadow_tick_account)
              (if-keeps (Fine least clock off) (rq.curr == rq.idle) (λ _. (touched, refl, v0))
                (λ _. (put_walt curr.addr rq.cpu w s, rw d refl, u)))
      ]

  pub shadow_tick-Fine :
      (jiffies owner : ℕ) (rq : Rq) (curr : Task) (s : System)
      → Sound least clock off s
      → Fine least clock off (shadow_tick k jiffies clock owner rq curr s)
  unfolding shadow_tick
  shadow_tick-Fine jiffies owner rq curr s v =
      let timed = record s { shadow = lse_shadow_tick_cb owner rq.cpu s.shadow } in
      let v0 = same-Sound k least clock off range s timed refl refl refl refl refl refl v in
      if-keeps (Fine least clock off)
        (not s.shadow.highres_tick_ctrl || not s.shadow.slim_walt_ctrl) (λ _. (timed, refl, v0))
        (λ _. account-Fine jiffies rq curr timed v0)

  adopt-WindowOk :
      (g : Globals) (lrq : Lrq) (wc : ℕ)
      → WindowOk least g.lse_sched_ravg_window
      → WindowOk least g.new_lse_sched_ravg_window
      → let g' = adopt_new_window g lrq wc in
        WindowOk least g'.lse_sched_ravg_window × WindowOk least g'.new_lse_sched_ravg_window
  unfolding adopt_new_window
  adopt-WindowOk g lrq wc h n = ground arith

  adopt-divisor :
      (g : Globals) (lrq : Lrq) (wc : ℕ)
      → g.lse_scale_demand_divisor ≢ 0
      → (adopt_new_window g lrq wc).lse_scale_demand_divisor ≢ 0
  unfolding adopt_new_window
  adopt-divisor g lrq wc h = ground (arith, h)

  adopted-Sound :
      (gov : Governor) (cpu wc : ℕ) (s : System)
      → SameGuide s.governor gov
      → Sound least clock off s
      → Sound least clock off (adopted gov cpu wc s)
  unfolding lse_sched_clock
  adopted-Sound gov cpu wc s same v =
      let (w, n) = adopt-WindowOk s.g (s.lrqs cpu) wc v.window v.coming in
      record {
        window = w;
        coming = n;
        divisor = adopt-divisor s.g (s.lrqs cpu) wc v.divisor;
        guided = Guided-same s.governor gov same v.guided;
        clock_in = v.clock_in;
        awake = v.awake;
        behind = v.behind;
        fresh = v.fresh;
      }

  rolled-Fine :
      (rq : Rq) (curr : Task) (s : System)
      → Sound least clock off s
      → Fine least clock off (update_rolled k (lse_sched_clock clock s) rq curr s)
  unfolding update_rolled
  rolled-Fine rq curr s v = elim (Option-cases (s.dsq.ext curr.addr)) [
    | inl e ↦ rw (e, update_rolled) (s, refl, v)
    | inr (lts, e) ↦
        let (w, d, u, b) =
          update-Sound k least clock off range curr (record rq { locked = true }) task_update lts
            s.shared s refl (subst ExtOk e (v.fresh curr.addr)) v in
        (put_walt curr.addr rq.cpu w s, rw (e, update_rolled, d) refl, u)
  ]

  pub irq_work-Fine :
      (rq : Rq) (curr : Task) (s : System)
      → Sound least clock off s
      → Fine least clock off (irq_work k clock rq curr s)
  unfolding irq_work lse_sched_clock
  irq_work-Fine rq curr s v =
      let wc : ℕ = lse_sched_clock clock s in
      let run : System = record s { shared = record s.shared { irq_work_queued = false } } in
      let v0 = same-Sound k least clock off range s run refl refl refl refl refl refl v in
      let (t, e, u) = rolled-Fine rq curr run v0 in
      let (gov, d, same) = update_util-Visited k t.lrqs rq.cpu t.governor u.guided in
      (adopted gov rq.cpu wc t, rw (e, d) refl, adopted-Sound gov rq.cpu wc t same u)

  pub rate-Fine :
      (fps : ℕ) (s : System)
      → 0 < fps
      → least ≤ 1000000000 / fps
      → Sound least clock off s
      → Fine least clock off (respond k clock (at_rate fps) s)
  unfolding respond sched_ravg_window_change lse_sched_clock
  rate-Fine zero s p h v = absurd (omega arith)
  rate-Fine (suc n) s p h v =
      let small = div-lt 1000000000 1000000001 (suc n) (omega arith) (omega arith) in
      (
        _,
        refl,
        record {
          window = v.window;
          coming = (omega arith, omega arith);
          divisor = v.divisor;
          guided = v.guided;
          clock_in = v.clock_in;
          awake = v.awake;
          behind = v.behind;
          fresh = v.fresh;
        },
      )
