-- ===== src/Track/Classify.antt =====
-- The class, boost and priority hint of a task: `lse_task_classify`, `lse_task_boost_for_class`
-- and `lse_refresh_task_hint` of lse_util_track.c.
use lunarkernel_sched_extent.Base.{◌||◌, if◌then◌else◌}
use lunarkernel_sched_extent.Base.Int.{ℤ, pos, ltb_ℤ, leb_ℤ}
use lunarkernel_sched_extent.Base.Word.{int_to_u16, int_to_u8}
use lunarkernel_sched_extent.Kernel.{
  Task, Policy, sched_fifo, sched_rr, sched_deadline, sched_other,
}
use lunarkernel_sched_extent.State.{
  Lts, TaskClass, class_idle, class_background, class_normal, class_foreground, class_rt,
  class_deadline,
}
use lunarkernel_sched_extent.Track.Globals.{Globals}

-- DEFAULT_PRIO of the kernel
abbrev pub default_prio : ℤ
default_prio = pos 120

-- the tests behind the `switch` of `lse_task_classify`
unfoldable pub classify_by_prio : Globals → Task → TaskClass
classify_by_prio g p =
    if ltb_ℤ p.task_nice (pos 0) || leb_ℤ p.prio g.lse_fg_prio_threshold
    then class_foreground
    else if leb_ℤ p.prio (pos 124)
    then class_normal
    else class_background

unfoldable pub classify_by_policy : Globals → Task → Policy → TaskClass
unfolding classify_by_prio
classify_by_policy g p sched_fifo = class_rt
classify_by_policy g p sched_rr = class_rt
classify_by_policy g p sched_deadline = class_deadline
classify_by_policy g p sched_other = classify_by_prio g p

unfoldable pub lse_task_classify : Globals → Task → TaskClass
unfolding classify_by_policy
lse_task_classify g p = if p.is_idle_task then class_idle else classify_by_policy g p p.policy

-- max(1, x) on `int`
abbrev max_one : ℤ → ℤ
max_one x = if ltb_ℤ (pos 1) x then x else pos 1

unfoldable pub lse_task_boost_for_class : Globals → TaskClass → ℤ
lse_task_boost_for_class g class_rt = max_one g.lse_boost_rt_pct
lse_task_boost_for_class g class_deadline = max_one g.lse_boost_rt_pct
lse_task_boost_for_class g class_foreground = max_one g.lse_boost_fg_pct
lse_task_boost_for_class g class_normal = pos 1024
lse_task_boost_for_class g class_background = max_one g.lse_boost_bg_pct
lse_task_boost_for_class g class_idle = max_one g.lse_boost_bg_pct

unfoldable pub lse_refresh_task_hint : Globals → Lts → Task → Lts
unfolding lse_task_classify lse_task_boost_for_class
lse_refresh_task_hint g lts p =
    let cls = lse_task_classify g p in
    record lts {
      task_class = cls;
      boost_pct = int_to_u16 (lse_task_boost_for_class g cls);
      priority_hint = int_to_u8 p.prio;
    }
