-- ===== src/State.antt =====
-- The structures that the components share: lse_main.h.
use lunarkernel_sched_extent.Base.{ℕ, Bool, List}

-- enum task_event
pub data TaskEvent : Type 0 where
  put_prev_task pick_next_task task_wake task_migrate task_update irq_update : TaskEvent

-- enum lse_task_class
pub data TaskClass : Type 0 where
  class_idle class_background class_normal class_foreground class_rt class_deadline : TaskClass

-- struct lse_task_struct. The list node `dsq_node` is in the queues of `Dsq`.
pub record Lts : Type 0 where
  pub task : ℕ
  pub mark_start : ℕ
  pub window_start : ℕ
  pub sum : ℕ
  pub sum_history : List ℕ
  pub cidx : ℕ
  pub demand : ℕ
  pub demand_scaled : ℕ
  pub task_class : TaskClass
  pub boost_pct : ℕ
  pub priority_hint : ℕ
  pub on_dsq : Bool

-- struct lse_rq, without the cluster and its mask.
pub record Lrq : Type 0 where
  pub window_start : ℕ
  pub latest_clock : ℕ
  pub prev_window_size : ℕ
  pub task_exec_scale : ℕ
  pub prev_runnable_sum : ℕ
  pub curr_runnable_sum : ℕ

-- SCHED_CAPACITY_SCALE
abbrev pub sched_capacity_scale : ℕ
sched_capacity_scale = 1024

-- RAVG_HIST_SIZE
abbrev pub ravg_hist_size : ℕ
ravg_hist_size = 5

-- DEFAULT_SCHED_RAVG_WINDOW
abbrev pub default_sched_ravg_window : ℕ
default_sched_ravg_window = 8000000
