-- ===== src/Hooks/Lasting.antt =====
-- What the other events leave where the tasks wait.

use lunarkernel_sched_extent.Base.{
  ℕ, zero, suc, ◌≡◌, refl, sym, ◌∙◌, ap, Bool, true, false, ==_iff, some, Option-cases, inl, inr,
  arith,
}
use lunarkernel_sched_extent.Base.Int.{ℤ, pos, negsuc}
use lunarkernel_sched_extent.Base.Outcome.{done, ◌>>=◌, >>=-eq-done}
use lunarkernel_sched_extent.Kernel.{Kernel, Task, Rq}
use lunarkernel_sched_extent.State.{Lrq, task_update}
use lunarkernel_sched_extent.Track.Globals.{Globals}
use lunarkernel_sched_extent.Track.Update.{
  Walt, adopt_new_window, lse_update_task_ravg, sched_ravg_window_change,
}
use lunarkernel_sched_extent.Track.Kept.{update_task_ravg-Kept}
use lunarkernel_sched_extent.Dsq.Queue.{put_at}
use lunarkernel_sched_extent.Dsq.Invariant.{on_dsq_of, is_some}
use lunarkernel_sched_extent.Hooks.System.{System, lse_sched_clock, put_walt}
use lunarkernel_sched_extent.Hooks.Hook.{cpufreq_update_util}
use lunarkernel_sched_extent.Hooks.Cfs.{
  update_rolled, adopted, lse_scheduler_tick, start_clock, irq_work,
}
use lunarkernel_sched_extent.Hooks.Extension.{alloc_lse_task_struct, free_lse_task_struct}
use lunarkernel_sched_extent.Hooks.Places.{hints-window, hints-adopt}
use lunarkernel_sched_extent.Hooks.Waiting.{
  Settled, Leaves, Leaves-done, put_walt-Settled, same-Settled,
}

module _ (k : Kernel) (g0 : Globals) (place : ℕ → ℕ) where
  -- The adoption of a window changes no hint.
  adopted-Settled :
      (s : System) (lrq : Lrq) (wc : ℕ) (may : ℕ → Bool)
      → Settled k g0 place may s
      → Settled k g0 place may (record s { g = adopt_new_window s.g lrq wc })
  unfolding adopt_new_window
  adopted-Settled s lrq wc may v = record {
    walt = ground (arith, v.walt);
    stats = v.stats;
    enabled = v.enabled;
    hints = λ p. hints-adopt s.g lrq wc p ∙ v.hints p;
    filed = v.filed;
  }

  rolled-Settled :
      (wc : ℕ) (rq : Rq) (curr : Task) (s : System) (may : ℕ → Bool)
      → Settled k g0 place may s
      → Leaves (Settled k g0 place may) (update_rolled k wc rq curr s)
  unfolding update_rolled
  rolled-Settled wc rq curr s may v =
      let P = Settled k g0 place may in
      elim (Option-cases (s.dsq.ext curr.addr)) [
        | inl e ↦ rw (e, update_rolled) (Leaves-done P s v)
        | inr (lts, e) ↦
            rw (e, update_rolled)
              (λ s' r.
                let before : Walt = record { lts = lts; lrq = s.lrqs rq.cpu; shared = s.shared } in
                let locked : Rq = record rq { locked = true } in
                let (w, u, r2) =
                  >>=-eq-done (lse_update_task_ravg k s.g curr locked task_update wc before)
                    (λ w. done (put_walt curr.addr rq.cpu w s)) r in
                let kept = update_task_ravg-Kept k s.g curr locked task_update wc before w u in
                Leaves-done P (put_walt curr.addr rq.cpu w s)
                  (put_walt-Settled k g0 place curr.addr rq.cpu w s may
                    (kept.0 ∙ sym (ap on_dsq_of e)) v)
                  s' r2)
      ]

  pub irq_work-Settled :
      (clock : ℕ) (rq : Rq) (curr : Task) (s : System) (may : ℕ → Bool)
      → Settled k g0 place may s
      → Leaves (Settled k g0 place may) (irq_work k clock rq curr s)
  unfolding irq_work
  irq_work-Settled clock rq curr s may v s' r =
      let P = Settled k g0 place may in
      let wc = lse_sched_clock clock s in
      let run : System = record s { shared = record s.shared { irq_work_queued = false } } in
      let (t, u, r1) =
        >>=-eq-done (update_rolled k wc rq curr run)
          (λ t. cpufreq_update_util k t.lrqs rq.cpu t.governor >>= λ gov.
            done (adopted gov rq.cpu wc t))
          r in
      let vt =
        rolled-Settled wc rq curr run may (same-Settled k g0 place s run may refl refl refl v) t
          u in
      let (gov, _, r2) =
        >>=-eq-done (cpufreq_update_util k t.lrqs rq.cpu t.governor)
          (λ gov. done (adopted gov rq.cpu wc t)) r1 in
      let va = adopted-Settled t (t.lrqs rq.cpu) wc may vt in
      let a : System = record t { g = adopt_new_window t.g (t.lrqs rq.cpu) wc } in
      Leaves-done P (adopted gov rq.cpu wc t)
        (same-Settled k g0 place a (adopted gov rq.cpu wc t) may refl refl refl va) s' r2

  -- the allocation and the release of an extension
  pub alloc-Settled :
      (ok : Bool) (p : Task) (s : System) (may : ℕ → Bool)
      → Settled k g0 place may s
      → Settled k g0 place may (record s { dsq = alloc_lse_task_struct ok (some p) s.dsq })
  unfolding alloc_lse_task_struct
  alloc-Settled ok p s may v =
      let (home, placed, h) = v.filed in
      record {
        walt = v.walt;
        stats = v.stats;
        enabled = v.enabled;
        hints = v.hints;
        filed = (
          home,
          record {
            counted = λ q. ground (arith, placed.counted q);
            located = λ q a. ground (arith, placed.located q a);
            flagged = λ a. ground (arith, placed.flagged a, ==_iff p.addr a);
          },
          h,
        );
      }

  pub free-Settled :
      (p : Task) (s : System) (may : ℕ → Bool)
      → may p.addr ≡ false
      → Settled k g0 place may s
      → Settled k g0 place may (record s { dsq = free_lse_task_struct (some p) s.dsq })
  unfolding free_lse_task_struct put_at
  free-Settled p s may never v =
      let (home, placed, h) = v.filed in
      let stays : is_some (home p.addr) ≡ false = elim (Option-cases (home p.addr)) [
        | inl none_home ↦ rw none_home refl
        | inr (q, there) ↦ let both : true ≡ false = sym (h p.addr q there).2 ∙ never in cc
      ] in
      record {
        walt = v.walt;
        stats = v.stats;
        enabled = v.enabled;
        hints = v.hints;
        filed = (
          home,
          record {
            counted = placed.counted;
            located = placed.located;
            flagged = λ a. ground (arith, placed.flagged a, ==_iff p.addr a);
          },
          h,
        );
      }

  pub tick-Settled :
      (jiffies clock : ℕ) (s : System) (may : ℕ → Bool)
      → Settled k g0 place may s
      → Settled k g0 place may (lse_scheduler_tick k jiffies clock s)
  unfolding lse_scheduler_tick start_clock
  tick-Settled jiffies clock s may v =
      same-Settled k g0 place s (lse_scheduler_tick k jiffies clock s) may (ground arith)
        (ground arith) (ground arith) v

  window-Settled :
      (window : ℕ) (s : System) (may : ℕ → Bool)
      → Settled k g0 place may s
      → Leaves
          (Settled k g0 place may)
          (done (record s { g = record s.g { new_lse_sched_ravg_window = window } }))
  window-Settled window s may v =
      Leaves-done (Settled k g0 place may)
        (record s { g = record s.g { new_lse_sched_ravg_window = window } })
        (record {
          walt = v.walt;
          stats = v.stats;
          enabled = v.enabled;
          hints = λ p. hints-window s.g s.g.lse_sched_ravg_window window p ∙ v.hints p;
          filed = v.filed;
        })

  pub rate-Settled :
      (fps : ℤ) (s : System) (may : ℕ → Bool)
      → Settled k g0 place may s
      → Leaves
          (Settled k g0 place may)
          (sched_ravg_window_change s.g fps >>= λ g. done (record s { g = g }))
  unfolding sched_ravg_window_change
  rate-Settled (pos zero) s may v = λ s' r. cc
  rate-Settled (pos (suc n)) s may v = window-Settled _ s may v
  rate-Settled (negsuc n) s may v = window-Settled _ s may v
