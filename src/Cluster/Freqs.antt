-- ===== src/Cluster/Freqs.antt =====
-- What the notifiers do to the clusters.
use lunarkernel_sched_extent.Base.{
  ℕ, ◌≡◌, refl, ap, ◌∙◌, Bool, true, false, not, ◌&&◌, ◌||◌, List, [], ◌∷◌, Option, some, ◌==◌,
  ==_iff, is_member, if◌then◌else◌, if-keeps, All, arith,
}
use lunarkernel_sched_extent.Cluster.Topology.{SchedCluster, andnot}
use lunarkernel_sched_extent.Cluster.Objects.{Clusters, put}
use lunarkernel_sched_extent.Cluster.Notifiers.{NotedPolicy, copy_domain, init_freq, visit_related}

-- Of the given CPUs, those that a CPU's cluster names are those that point to it.
abbrev pub Partitioned : List ℕ → Clusters → Type 0
Partitioned cpus s =
    (i j : ℕ)
    → is_member i cpus ≡ true
    → is_member j cpus ≡ true
    → is_member j (s.heap (s.cluster i)).cpus ≡ (s.cluster i == s.cluster j)

abbrev pub Within : List ℕ → List ℕ → Type 0
Within cpus is = All (λ (i : ℕ). is_member i cpus ≡ true) is

pub member-andnot :
    (j : ℕ) (mask gone : List ℕ)
    → is_member j (andnot mask gone) ≡ (is_member j mask && not (is_member j gone))
unfolding andnot
member-andnot j [] gone = refl
member-andnot j (x ∷ mask) gone = ground (arith, member-andnot j mask gone, ==_iff x j)

-- whether one of the CPUs is in the mask and points to the cluster
abbrev pub reaches : (ℕ → ℕ) → ℕ → List ℕ → List ℕ → Bool
reaches cluster a [] mask = false
reaches cluster a (i ∷ is) mask =
    (is_member i mask && (cluster i == a)) || reaches cluster a is mask

copy_domain-eq :
    (js domain : List ℕ) (masks : ℕ → List ℕ) (j : ℕ)
    → copy_domain js domain masks j ≡ (if is_member j js then domain else masks j)
unfolding copy_domain
copy_domain-eq [] domain masks j = refl
copy_domain-eq (x ∷ js) domain masks j =
    ground (arith, copy_domain-eq js domain (put x domain masks) j)

-- what a cluster becomes whose frequencies were not known
abbrev pub known : NotedPolicy → SchedCluster → SchedCluster
known policy c =
    if c.freq_init_done
    then c
    else record c { min_freq = policy.min_freq; max_freq = policy.max_freq; freq_init_done = true }

heap-init_freq :
    (policy : NotedPolicy) (a b : ℕ) (s : Clusters)
    → (init_freq policy a s).heap b ≡ (if a == b then known policy (s.heap b) else s.heap b)
unfolding init_freq
heap-init_freq policy a b s = ground arith

pub cluster-init_freq :
    (policy : NotedPolicy) (a : ℕ) (s : Clusters) → (init_freq policy a s).cluster ≡ s.cluster
unfolding init_freq
cluster-init_freq policy a s = ground arith

domain-init_freq :
    (policy : NotedPolicy) (a j : ℕ) (s : Clusters)
    → (init_freq policy a s).freq_domain_cpumask j ≡ (
        if is_member j (s.heap a).cpus && not (s.heap a).freq_init_done
        then policy.related_cpus
        else s.freq_domain_cpumask j)
unfolding init_freq
domain-init_freq policy a j s =
    ground (arith, copy_domain-eq (s.heap a).cpus policy.related_cpus s.freq_domain_cpumask j)

known-cpus : (policy : NotedPolicy) (c : SchedCluster) → (known policy c).cpus ≡ c.cpus
known-cpus policy c = ground arith

known_twice :
    (policy : NotedPolicy) (c : SchedCluster) → known policy (known policy c) ≡ known policy c
known_twice policy c = ground arith

init_freq-Partitioned :
    (policy : NotedPolicy) (a : ℕ) (cpus : List ℕ) (s : Clusters)
    → Partitioned cpus s
    → Partitioned cpus (init_freq policy a s)
init_freq-Partitioned policy a cpus s h i j p q =
    let c = s.cluster i in
    let same : ((init_freq policy a s).heap c).cpus ≡ (s.heap c).cpus =
      rw (heap-init_freq policy a c s) (
        if-keeps (λ (x : SchedCluster). x.cpus ≡ (s.heap c).cpus) (a == c)
          (λ _. known-cpus policy (s.heap c)) (λ _. refl)) in
    rw (cluster-init_freq policy a s, same) (h i j p q)

-- The CPUs of another cluster are no loss to a mask.
reaches-andnot :
    (cpus : List ℕ) (cluster : ℕ → ℕ) (a b : ℕ) (is mask gone : List ℕ)
    → (a == b) ≡ false
    → ((j : ℕ) → is_member j cpus ≡ true → is_member j gone ≡ (a == cluster j))
    → Within cpus is
    → reaches cluster b is (andnot mask gone) ≡ reaches cluster b is mask
reaches-andnot cpus cluster a b [] mask gone n h w = refl
reaches-andnot cpus cluster a b (i ∷ is) mask gone n h (m, w) =
    ground
      (arith, reaches-andnot cpus cluster a b is mask gone n h w, member-andnot i mask gone, h i m)

pub visit-heap :
    (policy : NotedPolicy) (is mask : List ℕ) (last : Option ℕ) (cpus : List ℕ) (s : Clusters)
    (b : ℕ)
    → Partitioned cpus s
    → Within cpus is
    → (visit_related policy is mask last s).1.heap b
      ≡ (if reaches s.cluster b is mask then known policy (s.heap b) else s.heap b)
unfolding visit_related
visit-heap policy [] mask last cpus s b h w = refl
visit-heap policy (i ∷ is) mask last cpus s b h (m, w) =
    let a = s.cluster i in
    let t = init_freq policy a s in
    let rest = andnot mask (s.heap a).cpus in
    ground (
      arith,
      visit-heap policy is rest (some a) cpus t b (init_freq-Partitioned policy a cpus s h) w,
      visit-heap policy is mask last cpus s b h w,
      ap (λ (f : ℕ → ℕ). reaches f b is rest) (cluster-init_freq policy a s),
      heap-init_freq policy a b s,
      known_twice policy (s.heap b),
      reaches-andnot cpus s.cluster a b is mask (s.heap a).cpus,
      (λ (j : ℕ) (q : is_member j cpus ≡ true). h i j m q),
      w,
    )

pub visit-domain :
    (policy : NotedPolicy) (is mask : List ℕ) (last : Option ℕ) (cpus : List ℕ) (s : Clusters)
    (j b : ℕ)
    → s.cluster j ≡ b
    → Partitioned cpus s
    → Within cpus is
    → is_member j cpus ≡ true
    → (visit_related policy is mask last s).1.freq_domain_cpumask j ≡ (
        if reaches s.cluster b is mask && not (s.heap b).freq_init_done
        then policy.related_cpus
        else s.freq_domain_cpumask j)
unfolding visit_related
visit-domain policy [] mask last cpus s j b e h w q = refl
visit-domain policy (i ∷ is) mask last cpus s j b e h (m, w) q =
    let a = s.cluster i in
    let t = init_freq policy a s in
    let rest = andnot mask (s.heap a).cpus in
    let member : is_member j (s.heap a).cpus ≡ (a == b) = h i j m q ∙ ap (λ (x : ℕ). a == x) e in
    ground (
      arith,
      visit-domain policy is rest (some a) cpus t j b
          (ap (λ (f : ℕ → ℕ). f j) (cluster-init_freq policy a s) ∙ e)
          (init_freq-Partitioned policy a cpus s h) w q,
      visit-domain policy is mask last cpus s j b e h w q,
      ap (λ (f : ℕ → ℕ). reaches f b is rest) (cluster-init_freq policy a s),
      heap-init_freq policy a b s,
      domain-init_freq policy a j s,
      member,
      reaches-andnot cpus s.cluster a b is mask (s.heap a).cpus,
      (λ (x : ℕ) (q : is_member x cpus ≡ true). h i x m q),
      w,
      ==_iff a b,
    )
