-- ===== src/Hooks/Extension.antt =====
-- The extensions of tasks: lse_task_struct_ext.c.
use lunarkernel_sched_extent.Base.{Bool, false, List, [], ◌∷◌, Option, none, some, if◌then◌else◌}
use lunarkernel_sched_extent.Base.Word.{int_to_u8}
use lunarkernel_sched_extent.Kernel.{Task}
use lunarkernel_sched_extent.State.{Lts, class_normal}
use lunarkernel_sched_extent.Dsq.Queue.{Dsq, put_at}

unfoldable pub init_lse_task_struct : Task → Lts
init_lse_task_struct tsk = record {
  task = tsk.addr;
  mark_start = 0;
  window_start = 0;
  sum = 0;
  sum_history = 0 ∷ 0 ∷ 0 ∷ 0 ∷ 0 ∷ [];
  cidx = 0;
  demand = 0;
  demand_scaled = 0;
  task_class = class_normal;
  boost_pct = 1024;
  priority_hint = int_to_u8 tsk.prio;
  on_dsq = false;
}

-- `ok` tells whether kmem_cache_alloc succeeds.
unfoldable pub alloc_lse_task_struct : Bool → Option Task → Dsq → Dsq
unfolding init_lse_task_struct put_at
alloc_lse_task_struct ok none s = s
alloc_lse_task_struct ok (some tsk) s = elim (s.ext tsk.addr) [
  | some lts ↦ s
  | none ↦
      if ok then record s { ext = put_at tsk.addr (some (init_lse_task_struct tsk)) s.ext } else s
]

unfoldable pub free_lse_task_struct : Option Task → Dsq → Dsq
unfolding put_at
free_lse_task_struct none s = s
free_lse_task_struct (some tsk) s = record s { ext = put_at tsk.addr none s.ext }

-- The loop over all threads, then over the idle tasks of the CPUs, with the outcome of each
-- allocation.
unfoldable pub alloc_lts_mem_for_all_threads : List (Bool × Task) → Dsq → Dsq
unfolding alloc_lse_task_struct
alloc_lts_mem_for_all_threads [] s = s
alloc_lts_mem_for_all_threads ((ok, p) ∷ tasks) s =
    alloc_lts_mem_for_all_threads tasks (alloc_lse_task_struct ok (some p) s)
