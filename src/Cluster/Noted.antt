-- ===== src/Cluster/Noted.antt =====
-- The notifications as a whole, and the removal of the clusters.
use mathlib.Core.Path.{subst}
use lunarkernel_sched_extent.Base.{
  ℕ, ◌-◌, ◌≡◌, ◌≢◌, refl, sym, ap, ◌∙◌, Bool, true, false, not, ◌&&◌, ◌||◌, List, [], ◌∷◌, Option,
  none, some, ◌==◌, ==_refl, ==_iff, is_member, is_empty, length, if◌then◌else◌, if-keeps, All,
  All-map, arith,
}
use lunarkernel_sched_extent.Base.Int.{ℤ}
use lunarkernel_sched_extent.Base.Outcome.{done}
use lunarkernel_sched_extent.Cluster.Topology.{SchedCluster, andnot}
use lunarkernel_sched_extent.Cluster.Objects.{Clusters, put, detach_cpus, cleanup_clusters}
use lunarkernel_sched_extent.Cluster.Notifiers.{
  NotedPolicy, QosFns, init_freq, visit_related, create_policy, create, add_notifiers,
  cpufreq_notifier_policy, set_cur_freq, cpufreq_notifier_trans,
}
use lunarkernel_sched_extent.Cluster.Freqs.{Partitioned, reaches, known, visit-heap, visit-domain}

-- whether one of the CPUs points to the cluster
abbrev pub points : (ℕ → ℕ) → ℕ → List ℕ → Bool
points cluster b [] = false
points cluster b (i ∷ is) = (cluster i == b) || points cluster b is

reaches-points :
    (cluster : ℕ → ℕ) (b : ℕ) (is mask : List ℕ)
    → All (λ (i : ℕ). is_member i mask ≡ true) is
    → reaches cluster b is mask ≡ points cluster b is
reaches-points cluster b [] mask h = refl
reaches-points cluster b (i ∷ is) mask (m, h) = ground (arith, reaches-points cluster b is mask h)

pub All-member : (is : List ℕ) → All (λ (i : ℕ). is_member i is ≡ true) is
All-member [] = tt
All-member (i ∷ is) = (
  rw ==_refl refl,
  All-map (λ (j : ℕ). is_member j is ≡ true) (λ (j : ℕ). is_member j (i ∷ is) ≡ true) is
      (λ j h. ground arith) (All-member is),
)

visit-some :
    (policy : NotedPolicy) (is mask : List ℕ) (a : ℕ) (s : Clusters)
    → (c : ℕ) × ((visit_related policy is mask (some a) s).0 ≡ some c)
unfolding visit_related
visit-some policy [] mask a s = (a, refl)
visit-some policy (i ∷ is) mask a s =
    let b = s.cluster i in
    let rest = andnot mask (s.heap b).cpus in
    if-keeps (λ (r : Option ℕ × Clusters). (c : ℕ) × (r.0 ≡ some c)) (is_member i mask)
      (λ _. visit-some policy is rest b (init_freq policy b s)) (λ _. visit-some policy is mask a s)

-- the cluster that the notifiers are added for
visit-last :
    (policy : NotedPolicy) (i : ℕ) (is : List ℕ) (s : Clusters)
    → (c : ℕ) × ((visit_related policy (i ∷ is) (i ∷ is) none s).0 ≡ some c)
unfolding visit_related
visit-last policy i is s =
    let b = s.cluster i in
    let rest = andnot (i ∷ is) (s.heap b).cpus in
    let own : is_member i (i ∷ is) ≡ true = rw ==_refl refl in
    rw own (visit-some policy is rest b (init_freq policy b s))

create-done :
    (fns : QosFns) (policy : NotedPolicy) (s : Clusters) (c : ℕ)
    → (visit_related policy policy.related_cpus policy.related_cpus none s).0 ≡ some c
    → create fns policy s
      ≡ done (
          add_notifiers fns policy c
            (visit_related policy policy.related_cpus policy.related_cpus none s).1)
unfolding create
create-done fns policy s c e = rw (e, create) refl

-- What is known of the clusters once a policy is there.
abbrev pub Noted : List ℕ → NotedPolicy → Clusters → Clusters → Type 0
Noted cpus policy s s' =
    ((b : ℕ)
      → s'.heap b
        ≡ (if points s.cluster b policy.related_cpus then known policy (s.heap b) else s.heap b))
    × ((j : ℕ)
        → is_member j cpus ≡ true
        → s'.freq_domain_cpumask j ≡ (
            if points s.cluster (s.cluster j) policy.related_cpus
              && not (s.heap (s.cluster j)).freq_init_done
            then policy.related_cpus
            else s.freq_domain_cpumask j))

-- A new policy on at least one CPU ends the notification without a fault. Exactly the clusters of
-- its CPUs whose frequencies were not known have its limits then and are known, and exactly their
-- CPUs, of those at hand, have its CPUs for their frequency domain, if the policy's CPUs are at hand
-- and each CPU at hand points to the cluster that names it, as the set-up leaves the possible CPUs.
pub policy-Noted :
    (fns : QosFns) (policy : NotedPolicy) (i : ℕ) (is cpus : List ℕ) (s : Clusters)
    → policy.related_cpus ≡ (i ∷ is)
    → All (λ (x : ℕ). is_member x cpus ≡ true) policy.related_cpus
    → Partitioned cpus s
    → (ret : ℤ) × (s' : Clusters) × (cpufreq_notifier_policy fns create_policy policy s
        ≡ done (ret, s'))
      × Noted cpus policy s s'
unfolding cpufreq_notifier_policy add_notifiers
policy-Noted fns policy i is cpus s e w h =
    let related = policy.related_cpus in
    let visited = visit_related policy related related none s in
    let (c, found) = visit-last policy i is s in
    let last : visited.0 ≡ some c =
      subst (λ (l : List ℕ). (visit_related policy l l none s).0 ≡ some c) (sym e) found in
    let all_in = All-member related in
    (
      _,
      _,
      create-done fns policy s c last,
      (
        (λ b.
            visit-heap policy related related none cpus s b h w
            ∙ ap (λ (x : Bool). if x then known policy (s.heap b) else s.heap b)
                (reaches-points s.cluster b related related all_in)),
        (λ j q.
            visit-domain policy related related none cpus s j (s.cluster j) refl h w q
            ∙ ap
                (λ (x : Bool).
                  if x && not (s.heap (s.cluster j)).freq_init_done
                  then related
                  else s.freq_domain_cpumask j)
                (reaches-points s.cluster (s.cluster j) related related all_in)),
      ),
    )

-- whether a CPU of the first list is in the mask
abbrev pub some_in : List ℕ → List ℕ → Bool
some_in [] mask = false
some_in (i ∷ is) mask = is_member i mask || some_in is mask

abbrev pub with_freq : ℕ → SchedCluster → SchedCluster
with_freq new_freq c = record c { cur_freq = new_freq }

pub heap-set_cur_freq :
    (own new_freq : ℕ) (is mask : List ℕ) (s : Clusters) (b : ℕ)
    → (set_cur_freq own new_freq is mask s).heap b
      ≡ (if (own == b) && some_in is mask then with_freq new_freq (s.heap b) else s.heap b)
unfolding set_cur_freq
heap-set_cur_freq own new_freq [] mask s b = ground arith
heap-set_cur_freq own new_freq (i ∷ is) mask s b = ground (
  arith,
  heap-set_cur_freq own new_freq is (andnot mask (s.heap own).cpus)
      (record s { heap = put own (with_freq new_freq (s.heap own)) s.heap }) b,
  heap-set_cur_freq own new_freq is mask s b,
  ==_iff own b,
)

some_in_self : (is : List ℕ) → some_in is is ≡ not (is_empty is)
some_in_self [] = refl
some_in_self (i ∷ is) = rw ==_refl refl

-- A change of the frequency of a CPU to one that is not 0 ends without a bug. It is noted in the
-- cluster that the CPU points to, unless the CPU has an empty frequency domain, and in no other
-- cluster, whichever CPUs the domain has.
pub trans-own :
    (cpu new_freq : ℕ) (s : Clusters)
    → new_freq ≢ 0
    → (s' : Clusters) × (cpufreq_notifier_trans true cpu new_freq s ≡ done s')
      × ((b : ℕ)
          → s'.heap b ≡ (
              if (s.cluster cpu == b) && not (is_empty (s.freq_domain_cpumask cpu))
              then with_freq new_freq (s.heap b)
              else s.heap b))
unfolding cpufreq_notifier_trans
trans-own cpu new_freq s n =
    let domain = s.freq_domain_cpumask cpu in
    let own = s.cluster cpu in
    let nonzero : (new_freq == 0) ≡ false = ground arith in
    (
      set_cur_freq own new_freq domain domain s,
      rw nonzero refl,
      λ b. ground (arith, heap-set_cur_freq own new_freq domain domain s b, some_in_self domain),
    )

cluster-detach_cpus :
    (cpus : List ℕ) (s : Clusters) (j : ℕ)
    → ((detach_cpus cpus s).cluster j ≡ (if is_member j cpus then 0 else s.cluster j))
      × ((detach_cpus cpus s).heap ≡ s.heap)
      × ((detach_cpus cpus s).lse_num_sched_clusters ≡ s.lse_num_sched_clusters)
unfolding detach_cpus
cluster-detach_cpus [] s j = (refl, refl, refl)
cluster-detach_cpus (cpu ∷ cpus) s j =
    ground
      (arith, cluster-detach_cpus cpus (record s { cluster = put cpu 0 s.cluster }) j, ==_iff cpu j)

-- whether one of the clusters has the CPU
abbrev pub covers : (ℕ → SchedCluster) → ℕ → List ℕ → Bool
covers heap j [] = false
covers heap j (a ∷ head) = is_member j (heap a).cpus || covers heap j head

pub cleanup-cluster :
    (head : List ℕ) (s : Clusters) (j : ℕ)
    → ((cleanup_clusters head s).cluster j ≡ (if covers s.heap j head then 0 else s.cluster j))
      × ((cleanup_clusters head s).lse_num_sched_clusters ≡ s.lse_num_sched_clusters - length head)
unfolding cleanup_clusters
cleanup-cluster [] s j = (refl, omega arith)
cleanup-cluster (a ∷ head) s j =
    let t = detach_cpus (s.heap a).cpus s in
    ground (
      arith,
      cleanup-cluster head (record t { lse_num_sched_clusters = t.lse_num_sched_clusters - 1 }) j,
      cluster-detach_cpus (s.heap a).cpus s j,
      ap (λ (heap : ℕ → SchedCluster). covers heap j head)
          (cluster-detach_cpus (s.heap a).cpus s j).1,
    )

pub covers-own :
    (head : List ℕ) (s : Clusters) (j : ℕ)
    → is_member j (s.heap (s.cluster j)).cpus ≡ true
    → is_member (s.cluster j) head ≡ true
    → covers s.heap j head ≡ true
covers-own [] s j h m = cc
covers-own (a ∷ head) s j h m = ground (
  arith,
  covers-own head s j h,
  ==_iff a (s.cluster j),
  ap (λ (x : ℕ). is_member j (s.heap x).cpus),
)

-- After the clusters of a list are freed, a CPU points to none of them, and they are counted no
-- more, if the CPU points to a cluster that names it, and the static cluster is not in the list.
cleanup-detached :
    (head : List ℕ) (s : Clusters) (j : ℕ)
    → is_member j (s.heap (s.cluster j)).cpus ≡ true
    → is_member 0 head ≡ false
    → (is_member ((cleanup_clusters head s).cluster j) head ≡ false)
      × ((cleanup_clusters head s).lse_num_sched_clusters ≡ s.lse_num_sched_clusters - length head)
cleanup-detached head s j own n =
    let (c, count) = cleanup-cluster head s j in (ground (arith, c, covers-own head s j own), count)
