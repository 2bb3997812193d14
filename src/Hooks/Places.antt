-- ===== src/Hooks/Places.antt =====
-- The dispatch queue that a task goes to once its hint was refreshed: what decides on it.

use lunarkernel_sched_extent.Base.{ℕ, ◌≡◌, refl, ◌∙◌, ap, ◌==◌, some, if-keeps, ltb}
use lunarkernel_sched_extent.Base.Int.{ℤ}
use lunarkernel_sched_extent.Base.Word.{add64, int_to_u16}
use lunarkernel_sched_extent.Kernel.{Task}
use lunarkernel_sched_extent.State.{
  TaskClass, class_idle, class_background, class_normal, class_foreground, class_rt, class_deadline,
  Lrq, Lts,
}
use lunarkernel_sched_extent.Track.Globals.{Globals}
use lunarkernel_sched_extent.Track.Classify.{
  lse_refresh_task_hint, lse_task_classify, lse_task_boost_for_class,
}
use lunarkernel_sched_extent.Track.Update.{adopt_new_window}
use lunarkernel_sched_extent.Track.Kept.{Kept}
use lunarkernel_sched_extent.Dsq.Classify.{prio_of_class, lse_dsq_classify_lts}
use lunarkernel_sched_extent.Hooks.Extension.{init_lse_task_struct}

-- The index of the queue that a task goes to once its hint was refreshed.
abbrev pub index_for : Globals → Task → ℕ
index_for g p = lse_dsq_classify_lts (some (lse_refresh_task_hint g (init_lse_task_struct p) p)) p

-- The class and the boost of an extension decide on the queue.
prio-boost :
    (a b : Lts) (t : TaskClass) → b.boost_pct ≡ a.boost_pct → prio_of_class b t ≡ prio_of_class a t
unfolding prio_of_class
prio-boost a b class_idle e = refl
prio-boost a b class_background e = refl
prio-boost a b class_normal e = refl
prio-boost a b class_foreground e = rw e refl
prio-boost a b class_rt e = refl
prio-boost a b class_deadline e = refl

classify-same :
    (p : Task) (a b : Lts)
    → b.task_class ≡ a.task_class
    → b.boost_pct ≡ a.boost_pct
    → lse_dsq_classify_lts (some b) p ≡ lse_dsq_classify_lts (some a) p
unfolding lse_dsq_classify_lts
classify-same p a b cls boost =
    let same : prio_of_class b b.task_class ≡ prio_of_class a a.task_class =
      prio-boost a b b.task_class boost ∙ ap (prio_of_class a) cls in
    rw same refl

-- An extension that keeps the hint of the task leads to its index.
pub classify-Kept :
    (g : Globals) (p : Task) (lts b : Lts)
    → Kept (lse_refresh_task_hint g lts p) b
    → lse_dsq_classify_lts (some b) p ≡ index_for g p
unfolding lse_refresh_task_hint
classify-Kept g p lts b h = classify-same p _ b h.1 h.2

-- The index does not depend on the windows, the divisor and the policy of the history.
abbrev pub without_hints : Globals → ℕ → ℕ → ℕ → ℤ → Globals
without_hints g window coming divisor policy = record g {
  lse_sched_ravg_window = window;
  new_lse_sched_ravg_window = coming;
  lse_scale_demand_divisor = divisor;
  sched_window_stats_policy = policy;
}

boost-rest :
    (g : Globals) (window coming divisor : ℕ) (policy : ℤ) (t : TaskClass)
    → lse_task_boost_for_class (without_hints g window coming divisor policy) t
      ≡ lse_task_boost_for_class g t
unfolding lse_task_boost_for_class
boost-rest g window coming divisor policy class_idle = refl
boost-rest g window coming divisor policy class_background = refl
boost-rest g window coming divisor policy class_normal = refl
boost-rest g window coming divisor policy class_foreground = refl
boost-rest g window coming divisor policy class_rt = refl
boost-rest g window coming divisor policy class_deadline = refl

pub hints-rest :
    (g : Globals) (window coming divisor : ℕ) (policy : ℤ) (p : Task)
    → index_for (without_hints g window coming divisor policy) p ≡ index_for g p
unfolding lse_refresh_task_hint
hints-rest g window coming divisor policy p =
    classify-same p _ _ refl
      (ap int_to_u16 (boost-rest g window coming divisor policy (lse_task_classify g p)))

pub hints-window :
    (g : Globals) (window coming : ℕ) (p : Task)
    → index_for (record g { lse_sched_ravg_window = window; new_lse_sched_ravg_window = coming }) p
      ≡ index_for g p
hints-window g window coming p =
    hints-rest g window coming g.lse_scale_demand_divisor g.sched_window_stats_policy p

pub hints-adopt :
    (g : Globals) (lrq : Lrq) (wc : ℕ) (p : Task)
    → index_for (adopt_new_window g lrq wc) p ≡ index_for g p
unfolding adopt_new_window
hints-adopt g lrq wc p =
    if-keeps (λ (h : Globals). index_for h p ≡ index_for g p)
      (g.new_lse_sched_ravg_window == g.lse_sched_ravg_window) (λ _. refl)
      (λ _.
        if-keeps (λ (h : Globals). index_for h p ≡ index_for g p)
          (ltb wc (add64 lrq.window_start g.new_lse_sched_ravg_window))
          (λ _. hints-window g g.new_lse_sched_ravg_window g.new_lse_sched_ravg_window p)
          (λ _. refl))
