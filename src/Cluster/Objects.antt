-- ===== src/Cluster/Objects.antt =====
-- The clusters as objects that the CPUs point to: `init_clusters` and `cleanup_clusters` of
-- lse_sched_cluster.c.
use lunarkernel_sched_extent.Base.{ℕ, ◌-◌, false, List, [], ◌∷◌, ◌==◌, if◌then◌else◌}
use lunarkernel_sched_extent.Kernel.{Kernel}
use lunarkernel_sched_extent.Cluster.Topology.{SchedCluster}

-- FREQ_QOS_MIN and FREQ_QOS_MAX
pub data FreqQos : Type 0 where
  freq_qos_min freq_qos_max : FreqQos

-- A notifier that stands in the list of a policy's constraints: the policy, the list, and the
-- cluster whose `nb_min` or `nb_max` it is.
pub record Registration : Type 0 where
  pub policy : ℕ
  pub kind : FreqQos
  pub cluster : ℕ

-- The clusters by their addresses, `lse_cluster_head` with its counter, the `cluster` and the
-- `freq_domain_cpumask` of each CPU's `struct lse_rq`, and the notifiers that the kernel holds.
pub record Clusters : Type 0 where
  pub heap : ℕ → SchedCluster
  pub lse_cluster_head : List ℕ
  pub lse_num_sched_clusters : ℕ
  pub cluster : ℕ → ℕ
  pub freq_domain_cpumask : ℕ → List ℕ
  pub qos : List Registration

abbrev pub put {ℓ} : {A : Type ℓ} → ℕ → A → (ℕ → A) → ℕ → A
put i v f j = if i == j then v else f j

-- the address of the static `init_cluster`
abbrev pub init_cluster : ℕ
init_cluster = 0

-- what `init_cluster` holds, with the CPUs that `init_clusters` gives it
unfoldable pub initial_cluster : List ℕ → SchedCluster
initial_cluster cpus = record {
  id = 0;
  cpus = cpus;
  max_possible_capacity = 1024;
  cur_freq = 1;
  max_freq = 1;
  min_freq = 1;
  freq_init_done = false;
  capacity_margin = 1280;
  sd_capacity_margin = 1280;
}

-- for_each_possible_cpu
unfoldable pub reset_cpus : List ℕ → Clusters → Clusters
reset_cpus [] s = s
reset_cpus (cpu ∷ cpus) s = reset_cpus cpus (record s {
  cluster = put cpu init_cluster s.cluster;
  freq_domain_cpumask = put cpu (cpu ∷ []) s.freq_domain_cpumask;
})

unfoldable pub init_clusters : Kernel → Clusters → Clusters
unfolding initial_cluster reset_cpus
init_clusters k s = reset_cpus k.possible_cpus (record s {
  heap = put init_cluster (initial_cluster k.possible_cpus) s.heap;
  lse_cluster_head = init_cluster ∷ [];
})

-- for_each_cpu(i, &cluster->cpus)
unfoldable pub detach_cpus : List ℕ → Clusters → Clusters
detach_cpus [] s = s
detach_cpus (cpu ∷ cpus) s =
    detach_cpus cpus (record s { cluster = put cpu init_cluster s.cluster })

-- The loop over the list behind `head`, which is empty afterwards. The counter is an `int` that
-- counts the clusters.
unfoldable pub cleanup_clusters : List ℕ → Clusters → Clusters
unfolding detach_cpus
cleanup_clusters [] s = s
cleanup_clusters (a ∷ head) s =
    let detached = detach_cpus (s.heap a).cpus s in
    cleanup_clusters head
      (record detached { lse_num_sched_clusters = detached.lse_num_sched_clusters - 1 })
