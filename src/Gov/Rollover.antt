-- ===== src/Gov/Rollover.antt =====
-- The update at the end of a window, for all clusters: `lsegov_update_freq` of cpufreq_lse.c.
use lunarkernel_sched_extent.Base.{
  ℕ, ◌/◌, Bool, List, [], ◌∷◌, Option, none, some, get_elem?, if◌then◌else◌,
}
use lunarkernel_sched_extent.Base.Word.{mul64}
use lunarkernel_sched_extent.Base.Outcome.{Outcome, done, fault, ◌>>=◌}
use lunarkernel_sched_extent.Kernel.{Kernel}
use lunarkernel_sched_extent.State.{Lrq}
use lunarkernel_sched_extent.Gov.Policy.{Switches, FreqPolicy, Tunables, GovPolicy, Command}
use lunarkernel_sched_extent.Gov.Util.{
  lse_get_policy_window_ns, lse_top2_avg_util, max_sum, is_top2_mode,
}
use lunarkernel_sched_extent.Gov.Freq.{lse_gov_update_cpufreq}

-- A policy with the governor's data, if it has some.
pub record Governed : Type 0 where
  pub policy : FreqPolicy
  pub tunables : Tunables
  pub lg : Option GovPolicy

-- A cluster, its CPUs that are online, the policy of the first of them, and what the driver was
-- told last.
pub record Cluster : Type 0 where
  pub id : ℕ
  pub cluster_online_cpus : List ℕ
  pub governed : Option Governed
  pub command : Option Command

-- the window by which the average is turned back into a sum
unfoldable pub window_of : Switches → Option Governed → ℕ
unfolding lse_get_policy_window_ns
window_of s none = s.lse_sched_ravg_window
window_of s (some g) = elim g.lg [
  | none ↦ s.lse_sched_ravg_window
  | some lg ↦ lse_get_policy_window_ns s lg
]

unfoldable pub cluster_sum : Switches → (ℕ → Lrq) → Cluster → ℕ
unfolding lse_top2_avg_util window_of max_sum
cluster_sum s lrqs c =
    if is_top2_mode s.cluster_agg_mode
    then mul64 (lse_top2_avg_util s lrqs c.cluster_online_cpus) (window_of s c.governed) / 1024
    else max_sum lrqs c.cluster_online_cpus 0

-- The call of `lse_gov_update_cpufreq` reads through `policy` and `policy->governor_data`.
unfoldable pub update_governed : Kernel → Switches → Cluster → ℕ → Outcome Cluster
unfolding lse_gov_update_cpufreq
update_governed k s c sum = elim c.governed [
  | none ↦ fault
  | some g ↦ elim g.lg [
    | none ↦ fault
    | some lg ↦ (do
      updated ← lse_gov_update_cpufreq k s g.policy g.tunables lg sum
      done (record c { governed = some (record g { lg = some updated.0 }); command = updated.1 }))
  ]
]

-- one round of the loop over the clusters
unfoldable pub update_cluster :
    Kernel → Switches → List Bool → (ℕ → Lrq) → Cluster → Outcome Cluster
unfolding cluster_sum update_governed
update_cluster k s gov_flag lrqs c = elim (get_elem? gov_flag c.id) [
  | none ↦ fault
  | some flag ↦
      if flag
      then update_governed k s c (cluster_sum s lrqs c)
      else done (record c { command = none })
]

-- `rollover` is the flag LSE_CPUFREQ_WINDOW_ROLLOVER.
unfoldable pub update_clusters :
    Kernel → Switches → List Bool → (ℕ → Lrq) → List Cluster → Outcome (List Cluster)
unfolding update_cluster
update_clusters k s gov_flag lrqs [] = done []
update_clusters k s gov_flag lrqs (c ∷ cs) = do
  c' ← update_cluster k s gov_flag lrqs c
  cs' ← update_clusters k s gov_flag lrqs cs
  done (c' ∷ cs')

unfoldable pub lsegov_update_freq :
    Kernel → Switches → List Bool → (ℕ → Lrq) → Bool → List Cluster → Outcome (List Cluster)
unfolding update_clusters
lsegov_update_freq k s gov_flag lrqs rollover clusters =
    if rollover then update_clusters k s gov_flag lrqs clusters else done clusters
