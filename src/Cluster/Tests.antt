-- ===== src/Cluster/Tests.antt =====
-- Concrete topologies, at which the theorems on the clusters hold.
use lunarkernel_sched_extent.Base.{
  ℕ, ◌+◌, ◌≡◌, ◌⊎◌, refl, true, ◌&&◌, ◌||◌, Option, none, some, List, [], ◌∷◌, ◌==◌, if◌then◌else◌,
  arith,
}
use lunarkernel_sched_extent.Base.Int.{ℤ, pos}
use lunarkernel_sched_extent.Base.Outcome.{Outcome, done, bug, div_zero, fault}
use lunarkernel_sched_extent.Samples.{two_cpus}
use lunarkernel_sched_extent.Cluster.Topology.{
  SchedCluster, alloc_new_cluster, update_cluster_topology, make_clusters, add_cluster,
  insert_cluster, get_possible_siblings, siblings, andnot, align_clusters, assign_cluster_ids,
}
use lunarkernel_sched_extent.Cluster.Objects.{Clusters, Registration}
use lunarkernel_sched_extent.Cluster.Notifiers.{
  NotedPolicy, QosFns, create_policy, cpufreq_notifier_policy, cpufreq_notifier_trans,
}
use lunarkernel_sched_extent.Cluster.Freqs.{Partitioned}
use lunarkernel_sched_extent.Cluster.Noted.{Noted, policy-Noted, trans-own}
use lunarkernel_sched_extent.Cluster.Build.{
  attach_cluster, add_cluster_at, make_clusters_at, update_cluster_topology_at,
  lse_sched_cluster_init_at,
}
use lunarkernel_sched_extent.Cluster.Seen.{Allocates}
use lunarkernel_sched_extent.Cluster.Init.{init-Partitioned}
use lunarkernel_sched_extent.Cluster.Divided.{AllStatic, Unknown, FollowsIds}
use lunarkernel_sched_extent.Cluster.Notices.{
  Notice, new_policy, transition, new_min, notify_all, told, notify_all-Known,
}
use lunarkernel_sched_extent.Cluster.Sorted.{Rising, topology-Rising}

-- each CPU is a cluster of its own
abbrev pub two_clusters : List SchedCluster
two_clusters = alloc_new_cluster two_cpus (0 ∷ []) ∷ alloc_new_cluster two_cpus (1 ∷ []) ∷ []

two_made : update_cluster_topology two_cpus (λ cpu. pos cpu) [] ≡ done two_clusters
unfolding update_cluster_topology make_clusters add_cluster insert_cluster alloc_new_cluster
    get_possible_siblings siblings andnot align_clusters assign_cluster_ids
two_made = refl

topology-Rising_example : Rising two_cpus 0 two_clusters
topology-Rising_example =
    topology-Rising two_cpus (λ cpu. pos cpu) [] two_clusters tt two_made (ground arith)

-- CPUs 0 and 1 in the cluster at 0, every other CPU in one of its own
abbrev cluster_of : ℕ → ℕ
cluster_of cpu = if cpu == 1 then 0 else cpu

abbrev cpus_of : ℕ → List ℕ
cpus_of a = if a == 0 then 0 ∷ 1 ∷ [] else if a == 1 then [] else a ∷ []

abbrev pairs : Clusters
pairs = record {
  heap = λ a. alloc_new_cluster two_cpus (cpus_of a);
  lse_cluster_head = 2 ∷ 3 ∷ [];
  lse_num_sched_clusters = 2;
  cluster = cluster_of;
  freq_domain_cpumask = λ cpu. cpu ∷ [];
  qos = [];
}

abbrev remove_from : Option ℕ → List Registration → List Registration
remove_from none qos = qos
remove_from (some a) [] = []
remove_from (some a) (r ∷ qos) =
    let rest = remove_from (some a) qos in if r.cluster == a then rest else r ∷ rest

abbrev kernel_qos : QosFns
kernel_qos = record {
  add = λ policy kind a qos. (pos 0, record { policy = policy; kind = kind; cluster = a } ∷ qos);
  remove = λ policy kind o qos. remove_from o qos;
}

abbrev little : NotedPolicy
little = record { addr = 7; related_cpus = 0 ∷ 1 ∷ []; min_freq = 300000; max_freq = 2000000 }

trans-own_example :
    (s' : Clusters) × (cpufreq_notifier_trans true 1 800000 pairs ≡ done s')
    × ((b : ℕ)
        → s'.heap b ≡ (
            if (cluster_of 1 == b) && true
            then record (pairs.heap b) { cur_freq = 800000 }
            else pairs.heap b))
trans-own_example = trans-own 1 800000 pairs (omega arith)

-- the n-th allocation is at n + 1
abbrev allocator : ℕ → Option ℕ
allocator n = some (n + 1)

allocator-Allocates : Allocates allocator (λ n. n + 1)
allocator-Allocates = record {
  given = λ n. refl;
  apart = λ m n e. omega (arith, e);
  not_static = λ n e. absurd (omega (arith, e));
}

-- the static cluster before the set-up, with nothing in it
abbrev alone : Clusters
alone = record pairs { lse_cluster_head = 0 ∷ []; lse_num_sched_clusters = 0 }

-- what a call that ends leaves
abbrev left_by : Outcome Clusters → Clusters
left_by (done t) = t
left_by bug = alone
left_by div_zero = alone
left_by fault = alone

abbrev set_up : Clusters
set_up = left_by (lse_sched_cluster_init_at two_cpus allocator (λ cpu. pos cpu) alone)

set_up_made : lse_sched_cluster_init_at two_cpus allocator (λ cpu. pos cpu) alone ≡ done set_up
unfolding lse_sched_cluster_init_at update_cluster_topology_at make_clusters_at add_cluster_at
    attach_cluster get_possible_siblings siblings
set_up_made = refl

init-Partitioned_example :
    Partitioned (0 ∷ 1 ∷ []) set_up
    × (FollowsIds two_cpus (λ cpu. pos cpu) set_up
        ⊎ (AllStatic two_cpus (λ cpu. pos cpu) set_up
            × (i : ℕ) × Unknown two_cpus (λ cpu. pos cpu) i))
init-Partitioned_example =
    init-Partitioned two_cpus allocator (λ n. n + 1) allocator-Allocates (λ cpu. pos cpu) alone
      set_up refl set_up_made

-- a new policy after the set-up
policy-Noted_example :
    (ret : ℤ) × (s' : Clusters) × (cpufreq_notifier_policy kernel_qos create_policy little set_up
      ≡ done (ret, s'))
    × Noted (0 ∷ 1 ∷ []) little set_up s'
policy-Noted_example =
    policy-Noted kernel_qos little 0 (1 ∷ []) (0 ∷ 1 ∷ []) set_up refl (refl, (refl, tt))
      (init-Partitioned two_cpus allocator (λ n. n + 1) allocator-Allocates (λ cpu. pos cpu) alone
        set_up refl set_up_made).0

-- the policy of both CPUs, a change of a frequency, and a new limit
abbrev news : List Notice
news = new_policy little ∷ transition true 1 800000 ∷ new_min 1 400000 ∷ []

notify_all-Known_example :
    (s' : Clusters) × (notify_all kernel_qos news set_up ≡ done s')
    × (s'.cluster ≡ set_up.cluster)
    × Partitioned (0 ∷ 1 ∷ []) s'
    × ((b : ℕ)
        → (s'.heap b).freq_init_done
          ≡ ((set_up.heap b).freq_init_done || told set_up.cluster b news))
notify_all-Known_example =
    notify_all-Known kernel_qos news (0 ∷ 1 ∷ []) set_up
      (init-Partitioned two_cpus allocator (λ n. n + 1) allocator-Allocates (λ cpu. pos cpu) alone
        set_up refl set_up_made).0
      ((refl, (refl, (refl, tt))), (omega arith, (tt, tt)))
