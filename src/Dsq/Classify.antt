-- ===== src/Dsq/Classify.antt =====
-- From a task to the index of its queue: `lse_dsq_classify_lts`, `lse_dsq_is_pcp_candidate` and
-- `dsq_idx_valid` of lse_dsq.c, for kernels from 5.15 on.
use lunarkernel_sched_extent.Base.{
  ℕ, ◌+◌, ◌-◌, Bool, false, ◌&&◌, ◌||◌, Option, none, some, ltb, leb, ◌==◌, if◌then◌else◌,
}
use lunarkernel_sched_extent.Base.Int.{pos, negsuc, ltb_ℤ, leb_ℤ}
use lunarkernel_sched_extent.Kernel.{Kernel, Task}
use lunarkernel_sched_extent.State.{
  Lts, TaskClass, class_idle, class_background, class_normal, class_foreground, class_rt,
  class_deadline,
}
use lunarkernel_sched_extent.Dsq.Queue.{QueueId, global, pcp, max_global_dsqs}

-- enum lse_dsq_task_prio
pub data TaskPrio : Type 0 where
  critical_system critical_app rt enhanced foreground normal background : TaskPrio

abbrev pub index_of : TaskPrio → ℕ
index_of critical_system = 0
index_of critical_app = 1
index_of rt = 2
index_of enhanced = 3
index_of foreground = 6
index_of normal = 8
index_of background = 9

unfoldable pub is_pinned : Task → Bool
is_pinned p = p.nr_cpus_allowed == 1 || p.migration_disabled

-- the switch on `lts->task_class`
unfoldable pub prio_of_class : Lts → TaskClass → TaskPrio
prio_of_class lts class_rt = critical_system
prio_of_class lts class_deadline = critical_system
prio_of_class lts class_foreground = if ltb 1280 lts.boost_pct then enhanced else foreground
prio_of_class lts class_normal = normal
prio_of_class lts class_background = background
prio_of_class lts class_idle = background

-- the label `fallback`
unfoldable pub prio_fallback : Task → TaskPrio
prio_fallback p =
    if ltb_ℤ p.task_nice (negsuc 4) || ltb_ℤ p.prio (pos 110)
    then critical_system
    else if ltb_ℤ p.prio (pos 115)
    then critical_app
    else if leb_ℤ p.prio (pos 120)
    then foreground
    else if leb_ℤ p.prio (pos 124)
    then normal
    else background

unfoldable pub lse_dsq_classify_lts : Option Lts → Task → ℕ
unfolding is_pinned prio_of_class prio_fallback
lse_dsq_classify_lts none p = index_of (prio_fallback p)
lse_dsq_classify_lts (some lts) p =
    if is_pinned p
    then max_global_dsqs + p.any_cpu
    else if p.dl_task
    then index_of critical_system
    else if p.rt_prio
    then index_of rt
    else index_of (prio_of_class lts lts.task_class)

unfoldable pub lse_dsq_is_pcp_candidate : Option Task → Bool
unfolding is_pinned
lse_dsq_is_pcp_candidate none = false
lse_dsq_is_pcp_candidate (some p) = is_pinned p

unfoldable pub dsq_idx_valid : Kernel → ℕ → Bool
dsq_idx_valid k idx =
    ltb idx max_global_dsqs || (leb max_global_dsqs idx && ltb idx (max_global_dsqs + k.nr_cpu_ids))

-- the choice between `&per_cpu(lse_pcp_dsq, idx - LSE_DSQ_PCP_BASE)` and `&lse_gdsqs[idx]`
unfoldable pub queue_at : ℕ → QueueId
queue_at idx = if leb max_global_dsqs idx then pcp (idx - max_global_dsqs) else global idx

-- `idx >= LSE_DSQ_PCP_BASE` with a CPU that is out of range
unfoldable pub pcp_out_of_range : Kernel → ℕ → Bool
pcp_out_of_range k idx = leb max_global_dsqs idx && leb k.nr_cpu_ids (idx - max_global_dsqs)
