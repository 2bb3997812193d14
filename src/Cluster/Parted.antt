-- ===== src/Cluster/Parted.antt =====
-- What the loop that makes the clusters keeps of the CPUs' pointers.

use lunarkernel_sched_extent.Base.{
  ℕ, ◌≡◌, ◌↔◌, refl, ◌∙◌, true, false, ◌&&◌, List, [], ◌∷◌, length, ◌==◌, ==_iff, ==_refl, is_empty,
  is_member, if◌then◌else◌, arith,
}
use lunarkernel_sched_extent.Base.Int.{ℤ, pos, negsuc, ◌==ℤ◌}
use lunarkernel_sched_extent.Kernel.{Kernel}
use lunarkernel_sched_extent.Cluster.Topology.{alloc_new_cluster, siblings, get_possible_siblings}
use lunarkernel_sched_extent.Cluster.Objects.{Clusters, put}
use lunarkernel_sched_extent.Cluster.Build.{attach_cpus, attach_cluster}
use lunarkernel_sched_extent.Cluster.Seen.{Owned, member-insert}

pub ==ℤ_iff : (a b : ℤ) → ((a ==ℤ b) ≡ true) ↔ (a ≡ b)
==ℤ_iff (pos a) (pos b) = ground (arith, ==_iff a b)
==ℤ_iff (negsuc a) (negsuc b) = ground (arith, ==_iff a b)
==ℤ_iff (pos a) (negsuc b) = ((λ h. cc), (λ h. cc))
==ℤ_iff (negsuc a) (pos b) = ((λ h. cc), (λ h. cc))

member-siblings :
    (cluster_id : ℕ → ℤ) (own : ℤ) (cpus : List ℕ) (j : ℕ)
    → is_member j (siblings cluster_id own cpus) ≡ (is_member j cpus && (own ==ℤ cluster_id j))
unfolding siblings
member-siblings cluster_id own [] j = refl
member-siblings cluster_id own (cpu ∷ cpus) j =
    ground (arith, member-siblings cluster_id own cpus j, ==_iff cpu j)

pub attach_cpus-eq :
    (a : ℕ) (cpus : List ℕ) (cluster : ℕ → ℕ) (j : ℕ)
    → attach_cpus a cpus cluster j ≡ (if is_member j cpus then a else cluster j)
unfolding attach_cpus
attach_cpus-eq a [] cluster j = refl
attach_cpus-eq a (cpu ∷ cpus) cluster j =
    ground (arith, attach_cpus-eq a cpus (put cpu a cluster) j)

module _ (k : Kernel) (cluster_id : ℕ → ℤ) where
  abbrev pub sib : ℕ → List ℕ
  sib i = get_possible_siblings k cluster_id i

  abbrev IsPossible : ℕ → Type 0
  IsPossible j = is_member j k.possible_cpus ≡ true

  -- The CPU points to a cluster of its siblings.
  pub record Assigned (head : List ℕ) (s : Clusters) (j : ℕ) : Type 0 where
    pub listed : is_member (s.cluster j) head ≡ true
    pub named : (s.heap (s.cluster j)).cpus ≡ sib j
    pub known : (cluster_id j ==ℤ negsuc 0) ≡ false

  -- The CPUs of `cpus` are left of those of the loop's rest `is`; the others have their clusters.
  pub record Built (address : ℕ → ℕ) (is cpus head : List ℕ) (s : Clusters) : Type 0 where
    pub num : s.lse_num_sched_clusters ≡ length head
    pub own : Owned address (length head) head
    pub to_come : (j : ℕ) → is_member j cpus ≡ true → is_member j is ≡ true
    pub among : (j : ℕ) → is_member j is ≡ true → IsPossible j
    pub static : (s.heap 0).cpus ≡ k.possible_cpus
    pub left : (j : ℕ) → is_member j cpus ≡ true → s.cluster j ≡ 0
    pub made : (j : ℕ) → IsPossible j → is_member j cpus ≡ false → Assigned head s j
    pub same :
        (i j : ℕ)
        → IsPossible i
        → IsPossible j
        → is_member i cpus ≡ false
        → cluster_id i ≡ cluster_id j
        → s.cluster i ≡ s.cluster j
    pub closed :
        (i j : ℕ)
        → IsPossible i
        → IsPossible j
        → cluster_id i ≡ cluster_id j
        → is_member i cpus ≡ is_member j cpus

  pub member-sib :
      (i j : ℕ)
      → (cluster_id i ==ℤ negsuc 0) ≡ false
      → is_member j (sib i) ≡ (is_member j k.possible_cpus && (cluster_id i ==ℤ cluster_id j))
  unfolding get_possible_siblings
  member-sib i j e = rw e (member-siblings cluster_id (cluster_id i) k.possible_cpus j)

  pub known_of : (i : ℕ) → is_empty (sib i) ≡ false → (cluster_id i ==ℤ negsuc 0) ≡ false
  unfolding get_possible_siblings
  known_of i h = ground arith

  sib-eq : (i j : ℕ) → cluster_id i ≡ cluster_id j → sib i ≡ sib j
  unfolding get_possible_siblings
  sib-eq i j e = rw e refl

  pub skip-Built :
      (address : ℕ → ℕ) (i : ℕ) (is cpus head : List ℕ) (s : Clusters)
      → is_member i cpus ≡ false
      → Built address (i ∷ is) cpus head s
      → Built address is cpus head s
  skip-Built address i is cpus head s gone b = record {
    num = b.num;
    own = b.own;
    to_come = λ j h. ground (arith, b.to_come j h, ==_iff i j);
    among = λ j h. b.among j (ground arith);
    static = b.static;
    left = b.left;
    made = b.made;
    same = b.same;
    closed = b.closed;
  }

  -- the clusters that a new one leaves as they are
  pub attach-Assigned :
      (a : ℕ) (cpus head : List ℕ) (s : Clusters) (j : ℕ)
      → is_member a head ≡ false
      → is_member j cpus ≡ false
      → Assigned head s j
      → let r = attach_cluster k a cpus head s in Assigned r.0 r.1 j
  unfolding attach_cluster
  attach-Assigned a cpus head s j off out p =
      let same : attach_cpus a cpus s.cluster j ≡ s.cluster j =
        attach_cpus-eq a cpus s.cluster j ∙ rw out refl in
      let other : (a == s.cluster j) ≡ false = ground (arith, p.listed, ==_iff a (s.cluster j)) in
      record {
        listed =
            rw
              (
                same,
                member-insert k (put a (alloc_new_cluster k cpus) s.heap) a head (s.cluster j),
                p.listed,
              )
              (ground arith);
        named = rw (same, other) p.named;
        known = p.known;
      }

  -- the CPUs of a new cluster
  pub attach-own :
      (a i : ℕ) (head : List ℕ) (s : Clusters) (j : ℕ)
      → (cluster_id i ==ℤ negsuc 0) ≡ false
      → is_member j (sib i) ≡ true
      → let r = attach_cluster k a (sib i) head s in Assigned r.0 r.1 j
  unfolding attach_cluster alloc_new_cluster
  attach-own a i head s j known m =
      let new : attach_cpus a (sib i) s.cluster j ≡ a =
        attach_cpus-eq a (sib i) s.cluster j ∙ rw m refl in
      let e : cluster_id i ≡ cluster_id j =
        ground (arith, member-sib i j known, ==ℤ_iff (cluster_id i) (cluster_id j)) in
      record {
        listed =
            rw (new, member-insert k (put a (alloc_new_cluster k (sib i)) s.heap) a head a, ==_refl)
              refl;
        named = rw (new, ==_refl) (sib-eq i j e);
        known = rw (← e) known;
      }
