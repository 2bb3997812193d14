-- ===== src/Cluster/Notifiers.antt =====
-- The notifiers of lse_sched_cluster.c, which follow the frequencies of the clusters.
use lunarkernel_sched_extent.Base.{
  ℕ, Bool, true, not, List, [], ◌∷◌, Option, none, some, ◌==◌, is_member, if◌then◌else◌,
}
use lunarkernel_sched_extent.Base.Int.{ℤ, pos, negsuc}
use lunarkernel_sched_extent.Base.Outcome.{Outcome, done, bug, fault}
use lunarkernel_sched_extent.Cluster.Topology.{andnot}
use lunarkernel_sched_extent.Cluster.Objects.{
  FreqQos, freq_qos_min, freq_qos_max, Registration, Clusters, put,
}

-- The notifiers of a cluster; `container_of` gives its address.
unfoldable pub cpufreq_update_min : ℕ → ℕ → Clusters → Clusters
cpufreq_update_min a freq s = record s {
  heap = put a (record (s.heap a) { min_freq = freq }) s.heap;
}

unfoldable pub cpufreq_update_max : ℕ → ℕ → Clusters → Clusters
cpufreq_update_max a freq s = record s {
  heap = put a (record (s.heap a) { max_freq = freq }) s.heap;
}

-- What the code reads of the `struct cpufreq_policy` that comes with a notification.
pub record NotedPolicy : Type 0 where
  pub addr : ℕ
  pub related_cpus : List ℕ
  pub min_freq : ℕ
  pub max_freq : ℕ

-- for_each_cpu(j, &cluster->cpus)
unfoldable pub copy_domain : List ℕ → List ℕ → (ℕ → List ℕ) → ℕ → List ℕ
copy_domain [] domain masks = masks
copy_domain (j ∷ js) domain masks = copy_domain js domain (put j domain masks)

-- the branch on a cluster whose frequencies are not known yet
unfoldable pub init_freq : NotedPolicy → ℕ → Clusters → Clusters
unfolding copy_domain
init_freq policy a s = if (s.heap a).freq_init_done then s else record s {
  freq_domain_cpumask = copy_domain (s.heap a).cpus policy.related_cpus s.freq_domain_cpumask;
  heap =
      put a
        (record (s.heap a) {
          min_freq = policy.min_freq;
          max_freq = policy.max_freq;
          freq_init_done = true;
        })
        s.heap;
}

-- The loop over the CPUs that are left in the mask, with the cluster that `cluster` points to.
unfoldable pub visit_related :
    NotedPolicy → List ℕ → List ℕ → Option ℕ → Clusters → Option ℕ × Clusters
unfolding init_freq andnot
visit_related policy [] mask last s = (last, s)
visit_related policy (i ∷ is) mask last s =
    let a = s.cluster i in
    if is_member i mask
    then visit_related policy is (andnot mask (s.heap a).cpus) (some a) (init_freq policy a s)
    else visit_related policy is mask last s

-- CPUFREQ_CREATE_POLICY, CPUFREQ_REMOVE_POLICY and any other value
pub data PolicyEvent : Type 0 where
  create_policy remove_policy other_event : PolicyEvent

-- `add` and `remove` are the kernel's `freq_qos_add_notifier` and `freq_qos_remove_notifier`, on the
-- notifiers that it holds; the first also returns its result, which is only printed, and returned
-- from the call for the maximum. `none` stands for the notifier of a cluster at a null pointer.
pub record QosFns : Type 0 where
  pub add : ℕ → FreqQos → ℕ → List Registration → ℤ × List Registration
  pub remove : ℕ → FreqQos → Option ℕ → List Registration → List Registration

-- the two calls of `freq_qos_add_notifier`, and the result of the second
unfoldable pub add_notifiers : QosFns → NotedPolicy → ℕ → Clusters → ℤ × Clusters
add_notifiers fns policy a s =
    let (ret_min, with_min) = fns.add policy.addr freq_qos_min a s.qos in
    let (ret_max, with_max) = fns.add policy.addr freq_qos_max a with_min in
    (ret_max, record s { qos = with_max })

-- the branch of a new policy; with no CPU the notifier of a null pointer is added
unfoldable pub create : QosFns → NotedPolicy → Clusters → Outcome (ℤ × Clusters)
create fns policy s =
    let (last, visited) = visit_related policy policy.related_cpus policy.related_cpus none s in
    elim last [ none ↦ fault | some a ↦ done (add_notifiers fns policy a visited) ]

-- -EINVAL
abbrev pub einval : ℤ
einval = negsuc 21

-- Where a policy goes, `cluster` is still null.
unfoldable pub cpufreq_notifier_policy :
    QosFns → PolicyEvent → NotedPolicy → Clusters → Outcome (ℤ × Clusters)
cpufreq_notifier_policy fns create_policy policy s = create fns policy s
cpufreq_notifier_policy fns remove_policy policy s =
    let without_max = fns.remove policy.addr freq_qos_max none s.qos in
    done (pos 0, record s { qos = fns.remove policy.addr freq_qos_min none without_max })
cpufreq_notifier_policy fns other_event policy s = done (einval, s)

-- The loop of the transition notifier over the CPUs that are left: every round writes to the
-- cluster of the CPU that was notified.
unfoldable pub set_cur_freq : ℕ → ℕ → List ℕ → List ℕ → Clusters → Clusters
unfolding andnot
set_cur_freq own new_freq [] mask s = s
set_cur_freq own new_freq (i ∷ is) mask s =
    let written = record s {
      heap = put own (record (s.heap own) { cur_freq = new_freq }) s.heap;
    } in
    if is_member i mask
    then set_cur_freq own new_freq is (andnot mask (s.heap own).cpus) written
    else set_cur_freq own new_freq is mask s

-- `postchange` tells whether the event is CPUFREQ_POSTCHANGE. The call returns 0.
unfoldable pub cpufreq_notifier_trans : Bool → ℕ → ℕ → Clusters → Outcome Clusters
unfolding set_cur_freq
cpufreq_notifier_trans postchange cpu new_freq s =
    let domain = s.freq_domain_cpumask cpu in
    if not postchange
    then done s
    else if new_freq == 0
    then bug
    else done (set_cur_freq (s.cluster cpu) new_freq domain domain s)
