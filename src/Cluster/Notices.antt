-- ===== src/Cluster/Notices.antt =====
-- The notifications of lse_sched_cluster.c one after another.

use lunarkernel_sched_extent.Base.{
  ℕ, ◌≡◌, ◌≢◌, refl, sym, ap, ◌∙◌, Bool, true, false, ◌||◌, List, [], ◌∷◌, Option, none, some, ◌==◌,
  ==_iff, is_member, is_empty, if-keeps, All, Option-cases, inl, inr, arith,
}
use lunarkernel_sched_extent.Base.Int.{ℤ}
use lunarkernel_sched_extent.Base.Outcome.{Outcome, done, ◌>>=◌, done-injective}
use lunarkernel_sched_extent.Cluster.Topology.{SchedCluster, andnot}
use lunarkernel_sched_extent.Cluster.Objects.{Clusters, put}
use lunarkernel_sched_extent.Cluster.Notifiers.{
  NotedPolicy, QosFns, create_policy, remove_policy, other_event, init_freq, visit_related, create,
  add_notifiers, cpufreq_notifier_policy, set_cur_freq, cpufreq_notifier_trans, cpufreq_update_min,
  cpufreq_update_max,
}
use lunarkernel_sched_extent.Cluster.Freqs.{Partitioned, Within, known, cluster-init_freq}
use lunarkernel_sched_extent.Cluster.Noted.{points, policy-Noted, with_freq, heap-set_cur_freq}

-- A policy comes, goes or changes in another way; a CPU has another frequency; a cluster has other
-- limits.
pub data Notice : Type 0 where
  new_policy gone_policy changed_policy : NotedPolicy → Notice
  transition : Bool → ℕ → ℕ → Notice
  new_min new_max : ℕ → ℕ → Notice

unfoldable pub notify : QosFns → Notice → Clusters → Outcome Clusters
unfolding cpufreq_notifier_policy cpufreq_notifier_trans cpufreq_update_min cpufreq_update_max
notify fns (new_policy p) s = cpufreq_notifier_policy fns create_policy p s >>= λ r. done r.1
notify fns (gone_policy p) s = cpufreq_notifier_policy fns remove_policy p s >>= λ r. done r.1
notify fns (changed_policy p) s = cpufreq_notifier_policy fns other_event p s >>= λ r. done r.1
notify fns (transition postchange cpu new_freq) s = cpufreq_notifier_trans postchange cpu new_freq s
notify fns (new_min a freq) s = done (cpufreq_update_min a freq s)
notify fns (new_max a freq) s = done (cpufreq_update_max a freq s)

unfoldable pub notify_all : QosFns → List Notice → Clusters → Outcome Clusters
unfolding notify
notify_all fns [] s = done s
notify_all fns (n ∷ ns) s = notify fns n s >>= notify_all fns ns

-- A new policy has a CPU, all of them at hand, and no frequency is 0.
abbrev pub Proper : List ℕ → Notice → Type 0
Proper cpus (new_policy p) = (is_empty p.related_cpus ≡ false) × Within cpus p.related_cpus
Proper cpus (gone_policy p) = Unit
Proper cpus (changed_policy p) = Unit
Proper cpus (transition postchange cpu new_freq) = new_freq ≢ 0
Proper cpus (new_min a freq) = Unit
Proper cpus (new_max a freq) = Unit

-- whether it tells the frequencies of the cluster
abbrev pub tells : (ℕ → ℕ) → ℕ → Notice → Bool
tells cluster b (new_policy p) = points cluster b p.related_cpus
tells cluster b (gone_policy p) = false
tells cluster b (changed_policy p) = false
tells cluster b (transition postchange cpu new_freq) = false
tells cluster b (new_min a freq) = false
tells cluster b (new_max a freq) = false

abbrev pub told : (ℕ → ℕ) → ℕ → List Notice → Bool
told cluster b [] = false
told cluster b (n ∷ ns) = tells cluster b n || told cluster b ns

-- The pointers and the masks stay, and what is told is known.
record Follows (new : ℕ → Bool) (s s' : Clusters) : Type 0 where
  pub cluster : s'.cluster ≡ s.cluster
  pub cpus : (b : ℕ) → (s'.heap b).cpus ≡ (s.heap b).cpus
  pub known : (b : ℕ) → (s'.heap b).freq_init_done ≡ ((s.heap b).freq_init_done || new b)

cluster-visit_related :
    (policy : NotedPolicy) (is mask : List ℕ) (last : Option ℕ) (s : Clusters)
    → (visit_related policy is mask last s).1.cluster ≡ s.cluster
unfolding visit_related
cluster-visit_related policy [] mask last s = refl
cluster-visit_related policy (i ∷ is) mask last s =
    let a = s.cluster i in
    if-keeps (λ (r : Option ℕ × Clusters). r.1.cluster ≡ s.cluster) (is_member i mask)
      (λ _.
        cluster-visit_related policy is (andnot mask (s.heap a).cpus) (some a)
          (init_freq policy a s)
        ∙ cluster-init_freq policy a s)
      (λ _. cluster-visit_related policy is mask last s)

cluster-set_cur_freq :
    (own new_freq : ℕ) (is mask : List ℕ) (s : Clusters)
    → (set_cur_freq own new_freq is mask s).cluster ≡ s.cluster
unfolding set_cur_freq
cluster-set_cur_freq own new_freq [] mask s = refl
cluster-set_cur_freq own new_freq (i ∷ is) mask s = ground (
  arith,
  cluster-set_cur_freq own new_freq is (andnot mask (s.heap own).cpus)
      (record s { heap = put own (with_freq new_freq (s.heap own)) s.heap }),
  cluster-set_cur_freq own new_freq is mask s,
)

cluster-create :
    (fns : QosFns) (policy : NotedPolicy) (s s' : Clusters) (ret : ℤ)
    → create fns policy s ≡ done (ret, s')
    → s'.cluster ≡ s.cluster
unfolding create add_notifiers
cluster-create fns policy s s' ret e =
    let visited = visit_related policy policy.related_cpus policy.related_cpus none s in
    let same = cluster-visit_related policy policy.related_cpus policy.related_cpus none s in
    elim (Option-cases visited.0) [
      | inl no_one ↦ let never = rw (no_one, create) at e in cc
      | inr (a, found) ↦
          let ends = rw (found, create) at e in
          let told = done-injective (add_notifiers fns policy a visited.1) (ret, s') ends in
          sym (ap (λ (r : ℤ × Clusters). r.1.cluster) told) ∙ same
    ]

has_first : (l : List ℕ) → is_empty l ≡ false → (i : ℕ) × (is : List ℕ) × (l ≡ (i ∷ is))
has_first [] e = cc
has_first (i ∷ is) e = (i, is, refl)

create-Follows :
    (fns : QosFns) (p : NotedPolicy) (cpus : List ℕ) (s : Clusters)
    → Partitioned cpus s
    → is_empty p.related_cpus ≡ false
    → Within cpus p.related_cpus
    → (s' : Clusters) × (notify fns (new_policy p) s ≡ done s')
      × Follows (λ b. points s.cluster b p.related_cpus) s s'
unfolding notify
create-Follows fns p cpus s h some_cpu within =
    let (i, is, first) = has_first p.related_cpus some_cpu in
    let (ret, s', e, (heap, domain)) = policy-Noted fns p i is cpus s first within h in
    (
      s',
      rw e refl,
      record {
        cluster = cluster-create fns p s s' ret e;
        cpus = λ b. ground (arith, ap (λ (c : SchedCluster). c.cpus) (heap b));
        known = λ b. ground (arith, ap (λ (c : SchedCluster). c.freq_init_done) (heap b));
      },
    )

-- the other notices tell no frequencies
same-Follows :
    (s s' : Clusters)
    → s'.cluster ≡ s.cluster
    → ((b : ℕ)
        → ((s'.heap b).cpus ≡ (s.heap b).cpus)
          × ((s'.heap b).freq_init_done ≡ (s.heap b).freq_init_done))
    → Follows (λ b. false) s s'
same-Follows s s' cluster heap = record {
  cluster = cluster;
  cpus = λ b. (heap b).0;
  known = λ b. ground (arith, (heap b).1);
}

notify-Follows :
    (fns : QosFns) (n : Notice) (cpus : List ℕ) (s : Clusters)
    → Partitioned cpus s
    → Proper cpus n
    → (s' : Clusters) × (notify fns n s ≡ done s') × Follows (λ b. tells s.cluster b n) s s'
unfolding notify cpufreq_notifier_trans cpufreq_update_min cpufreq_update_max
notify-Follows fns (new_policy p) cpus s h (some_cpu, within) =
    create-Follows fns p cpus s h some_cpu within
notify-Follows fns (gone_policy p) cpus s h ok =
    (_, refl, same-Follows s _ refl (λ b. (refl, refl)))
notify-Follows fns (changed_policy p) cpus s h ok =
    (s, refl, same-Follows s s refl (λ b. (refl, refl)))
notify-Follows fns (transition false cpu new_freq) cpus s h ok =
    (s, refl, same-Follows s s refl (λ b. (refl, refl)))
notify-Follows fns (transition true cpu new_freq) cpus s h ok =
    let domain = s.freq_domain_cpumask cpu in
    let own = s.cluster cpu in
    let nonzero : (new_freq == 0) ≡ false = ground arith in
    (
      set_cur_freq own new_freq domain domain s,
      rw nonzero refl,
      same-Follows s (set_cur_freq own new_freq domain domain s)
          (cluster-set_cur_freq own new_freq domain domain s)
          (λ b. rw (heap-set_cur_freq own new_freq domain domain s b) (ground arith)),
    )
notify-Follows fns (new_min a freq) cpus s h ok =
    (cpufreq_update_min a freq s, refl, same-Follows s _ refl (λ b. ground (arith, ==_iff a b)))
notify-Follows fns (new_max a freq) cpus s h ok =
    (cpufreq_update_max a freq s, refl, same-Follows s _ refl (λ b. ground (arith, ==_iff a b)))

Follows-Partitioned :
    (new : ℕ → Bool) (cpus : List ℕ) (s s' : Clusters)
    → Follows new s s'
    → Partitioned cpus s
    → Partitioned cpus s'
Follows-Partitioned new cpus s s' f h i j p q = rw (f.cluster, f.cpus (s.cluster i)) (h i j p q)

-- Any notifications, in any order, end without a fault or a bug, and leave each CPU at its cluster,
-- which names the CPUs that point to it. The frequencies of a CPU's cluster are known afterwards
-- exactly if they were before or a policy came that has a CPU of the cluster. The policies have at
-- least one CPU each and only CPUs at hand, no frequency is 0, and each CPU at hand points to the
-- cluster that names it before.
pub notify_all-Known :
    (fns : QosFns) (ns : List Notice) (cpus : List ℕ) (s : Clusters)
    → Partitioned cpus s
    → All (Proper cpus) ns
    → (s' : Clusters) × (notify_all fns ns s ≡ done s')
      × (s'.cluster ≡ s.cluster)
      × Partitioned cpus s'
      × ((b : ℕ) → (s'.heap b).freq_init_done ≡ ((s.heap b).freq_init_done || told s.cluster b ns))
unfolding notify_all
notify_all-Known fns [] cpus s h ok = (s, refl, refl, h, λ b. ground arith)
notify_all-Known fns (n ∷ ns) cpus s h (proper, ok) =
    let (t, first, f) = notify-Follows fns n cpus s h proper in
    let (s', rest, cluster, parted, known) =
      notify_all-Known fns ns cpus t (Follows-Partitioned (λ b. tells s.cluster b n) cpus s t f h)
        ok in
    (
      s',
      rw first rest,
      cluster ∙ f.cluster,
      parted,
      λ b. ground (arith, known b, f.known b, ap (λ (c : ℕ → ℕ). told c b ns) f.cluster),
    )
