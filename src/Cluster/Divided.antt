-- ===== src/Cluster/Divided.antt =====
-- Which clusters the loop that makes them leaves to the CPUs.

use lunarkernel_sched_extent.Base.{
  ℕ, ◌≡◌, refl, sym, ap, ◌∙◌, true, false, List, [], ◌∷◌, Option, none, some, ◌==◌, ==_iff,
  is_empty, is_member, Bool-cases, inl, inr, arith,
}
use lunarkernel_sched_extent.Base.Int.{ℤ, negsuc, ◌==ℤ◌}
use lunarkernel_sched_extent.Base.Outcome.{done}
use lunarkernel_sched_extent.Kernel.{Kernel}
use lunarkernel_sched_extent.Cluster.Topology.{SchedCluster, get_possible_siblings}
use lunarkernel_sched_extent.Cluster.Objects.{Clusters, cleanup_clusters}
use lunarkernel_sched_extent.Cluster.Build.{make_clusters_at}
use lunarkernel_sched_extent.Cluster.Noted.{covers-own, cleanup-cluster}
use lunarkernel_sched_extent.Cluster.Seen.{Allocates, make-keeps}
use lunarkernel_sched_extent.Cluster.Published.{cleanup-rest}
use lunarkernel_sched_extent.Cluster.Parted.{==ℤ_iff, Assigned, Built, member-sib, skip-Built}
use lunarkernel_sched_extent.Cluster.Step.{step-Built}

empty-member : (l : List ℕ) (j : ℕ) → is_empty l ≡ true → is_member j l ≡ false
empty-member [] j e = refl
empty-member (x ∷ l) j e = cc

module _ (k : Kernel) (cluster_id : ℕ → ℤ) where
  -- Two CPUs point to the same cluster where their ids are equal.
  abbrev pub ById : Clusters → Type 0
  ById s =
      (i j : ℕ)
      → is_member i k.possible_cpus ≡ true
      → is_member j k.possible_cpus ≡ true
      → (s.cluster i == s.cluster j) ≡ (cluster_id i ==ℤ cluster_id j)

  -- Every CPU points to the static cluster, which names them all.
  abbrev pub AllStatic : Clusters → Type 0
  AllStatic s =
      ((j : ℕ) → is_member j k.possible_cpus ≡ true → s.cluster j ≡ 0)
      × ((s.heap 0).cpus ≡ k.possible_cpus)

  -- the kernel knows no cluster of the CPU
  abbrev pub Unknown : ℕ → Type 0
  Unknown i = (is_member i k.possible_cpus ≡ true) × ((cluster_id i ==ℤ negsuc 0) ≡ true)

  -- The clusters follow the ids, each with the CPUs of its id, if all are known.
  abbrev pub FollowsIds : Clusters → Type 0
  FollowsIds t =
      ById t
      × ((j : ℕ)
          → is_member j k.possible_cpus ≡ true
          → ((t.heap (t.cluster j)).cpus ≡ get_possible_siblings k cluster_id j)
            × ((cluster_id j ==ℤ negsuc 0) ≡ false))

module _ (k : Kernel) (kzalloc : ℕ → Option ℕ) (address : ℕ → ℕ) (fresh : Allocates kzalloc address)
    (cluster_id : ℕ → ℤ) where
  abbrev sibs : ℕ → List ℕ
  sibs i = get_possible_siblings k cluster_id i

  abbrev pub Divided : Option (List ℕ) × Clusters → Type 0
  Divided (none, t) = AllStatic k cluster_id t × (i : ℕ) × Unknown k cluster_id i
  Divided (some head, t) = FollowsIds k cluster_id t

  made-AllStatic :
      (is cpus head : List ℕ) (s : Clusters)
      → Built k cluster_id address is cpus head s
      → AllStatic k cluster_id (cleanup_clusters head s)
  made-AllStatic is cpus head s b =
      let heap = (cleanup-rest head s).0 in
      (
        (λ j p.
            let (reset, _) = cleanup-cluster head s j in
            elim (Bool-cases (is_member j cpus)) [
              | inl waits ↦ ground (arith, reset, b.left j waits)
              | inr has_one ↦
                  let own = b.made j p has_one in
                  let mine : is_member j (s.heap (s.cluster j)).cpus ≡ true = rw own.named (
                    member-sib k cluster_id j j own.known
                    ∙ ground (arith, p, ==ℤ_iff (cluster_id j) (cluster_id j))) in
                  ground (arith, reset, covers-own head s j mine own.listed)
            ]),
        ap (λ (f : ℕ → SchedCluster). (f 0).cpus) heap ∙ b.static,
      )

  made-FollowsIds :
      (cpus head : List ℕ) (s : Clusters)
      → Built k cluster_id address [] cpus head s
      → FollowsIds k cluster_id s
  made-FollowsIds cpus head s b =
      let assigned : (j : ℕ) → is_member j k.possible_cpus ≡ true → Assigned k cluster_id head s j =
        λ j p. b.made j p (ground (arith, b.to_come j)) in
      (
        (λ i j p q.
            let own = assigned i p in
            let other = assigned j q in
            ground (
              arith,
              ==ℤ_iff (cluster_id i) (cluster_id j),
              ==ℤ_iff (cluster_id j) (cluster_id j),
              ==_iff (s.cluster i) (s.cluster j),
              b.same i j p q (ground (arith, b.to_come i)),
              member-sib k cluster_id i j own.known,
              member-sib k cluster_id j j other.known,
              ap (λ (c : ℕ). is_member j (s.heap c).cpus),
              ap (λ (l : List ℕ). is_member j l) own.named,
              ap (λ (l : List ℕ). is_member j l) other.named,
            )),
        (λ j p. let own = assigned j p in (own.named, own.known)),
      )

  -- a CPU without siblings
  alone-Unknown :
      (i : ℕ)
      → is_member i k.possible_cpus ≡ true
      → is_empty (sibs i) ≡ true
      → Unknown k cluster_id i
  alone-Unknown i p alone = elim (Bool-cases (cluster_id i ==ℤ negsuc 0)) [
    | inl unknown ↦ (p, unknown)
    | inr known ↦
        let mine : is_member i (sibs i) ≡ true =
          member-sib k cluster_id i i known
          ∙ ground (arith, p, ==ℤ_iff (cluster_id i) (cluster_id i)) in
        absurd (ground (arith, mine, empty-member (sibs i) i alone))
  ]

  pub make-Divided :
      (s : Clusters)
      → s.lse_num_sched_clusters ≡ 0
      → AllStatic k cluster_id s
      → (r : Option (List ℕ) × Clusters)
      → make_clusters_at k kzalloc cluster_id k.possible_cpus k.possible_cpus [] s ≡ done r
      → Divided r
  make-Divided s num (all, static) =
      make-keeps k kzalloc address fresh cluster_id (Built k cluster_id address) Divided
        (λ i is cpus head t gone b. skip-Built k cluster_id address i is cpus head t gone b)
        (step-Built k kzalloc address fresh cluster_id)
        (λ i is cpus head t here alone b. (
          made-AllStatic (i ∷ is) cpus head t b,
          i,
          alone-Unknown i (b.among i (b.to_come i here)) alone,
        ))
        made-FollowsIds k.possible_cpus k.possible_cpus [] s
        (record {
          num = num;
          own = λ a m. cc;
          to_come = λ j m. m;
          among = λ j m. m;
          static = static;
          left = all;
          made = λ j p out. absurd (ground arith);
          same = λ i j p q out. absurd (ground arith);
          closed = λ i j p q e. p ∙ sym q;
        })
