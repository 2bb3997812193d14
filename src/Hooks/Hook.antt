-- ===== src/Hooks/Hook.antt =====
-- The governor's hook on the state of the module: `cpufreq_update_util` of the kernel, which calls
-- what is set for the CPU, and `lsegov_update_freq` of cpufreq_lse.c behind it.
use lunarkernel_sched_extent.Base.{ℕ, List, [], ◌∷◌, Option, none, some, if◌then◌else◌}
use lunarkernel_sched_extent.Base.Outcome.{Outcome, done, ◌>>=◌}
use lunarkernel_sched_extent.Kernel.{Kernel}
use lunarkernel_sched_extent.State.{Lrq}
use lunarkernel_sched_extent.Dsq.Queue.{put_at}
use lunarkernel_sched_extent.Gov.Rollover.{Cluster, update_cluster}
use lunarkernel_sched_extent.Hooks.System.{Attached, Governor, OnlineCluster}

-- `cpufreq_cpu_get_raw` of the first CPU that is online, if it has a policy with the governor's data
abbrev pub policy_at : Governor → List ℕ → Option ℕ
policy_at gov [] = none
policy_at gov (cpu ∷ cpus) = gov.policy_of cpu

-- the cluster as a round of the loop sees it
abbrev pub cluster_at : Governor → OnlineCluster → Cluster
cluster_at gov c = record {
  id = c.id;
  cluster_online_cpus = c.cluster_online_cpus;
  governed = elim (policy_at gov c.cluster_online_cpus) [
    | none ↦ none
    | some id ↦ some (record {
      policy = (gov.policies id).policy;
      tunables = (gov.policies id).tunables;
      lg = some (gov.policies id).lg;
    })
  ];
  command = none;
}

-- what the round leaves of a policy
abbrev pub attached_after : Cluster → Attached → Attached
attached_after c d = elim c.governed [
  | none ↦ d
  | some g ↦ elim g.lg [ none ↦ d | some lg ↦ record d { lg = lg; command = c.command } ]
]

-- one round of the loop, which writes through the policy
unfoldable pub visit_cluster : Kernel → (ℕ → Lrq) → OnlineCluster → Governor → Outcome Governor
unfolding update_cluster put_at
visit_cluster k lrqs c gov =
    update_cluster k gov.switches gov.gov_flag lrqs (cluster_at gov c) >>= λ visited.
    done (elim (policy_at gov c.cluster_online_cpus) [
      | none ↦ gov
      | some id ↦ record gov {
        policies = put_at id (attached_after visited (gov.policies id)) gov.policies;
      }
    ])

unfoldable pub visit_clusters :
    Kernel → (ℕ → Lrq) → List OnlineCluster → Governor → Outcome Governor
unfolding visit_cluster
visit_clusters k lrqs [] gov = done gov
visit_clusters k lrqs (c ∷ cs) gov = visit_cluster k lrqs c gov >>= visit_clusters k lrqs cs

-- with LSE_CPUFREQ_WINDOW_ROLLOVER
unfoldable pub cpufreq_update_util : Kernel → (ℕ → Lrq) → ℕ → Governor → Outcome Governor
unfolding visit_clusters
cpufreq_update_util k lrqs cpu gov =
    if gov.hooked cpu then visit_clusters k lrqs gov.clusters gov else done gov
