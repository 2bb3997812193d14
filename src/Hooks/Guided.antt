-- ===== src/Hooks/Guided.antt =====
-- When the governor's hook ends, and what it leaves alone.
use mathlib.Core.Path.{subst}
use lunarkernel_sched_extent.Base.{
  ℕ, ◌≡◌, refl, sym, ap, ◌∙◌, Bool, true, false, List, [], ◌∷◌, Option, none, some, get_elem?,
  if-keeps, All, All-map, Option-cases, inl, inr,
}
use lunarkernel_sched_extent.Base.Outcome.{Outcome, done}
use lunarkernel_sched_extent.Kernel.{Kernel}
use lunarkernel_sched_extent.State.{Lrq}
use lunarkernel_sched_extent.Dsq.Queue.{put_at}
use lunarkernel_sched_extent.Gov.Policy.{Switches, FreqPolicy, Tunables, GovPolicy, Command}
use lunarkernel_sched_extent.Gov.Freq.{get_next_freq, lse_gov_update_cpufreq}
use lunarkernel_sched_extent.Gov.Rollover.{Cluster, cluster_sum, update_governed, update_cluster}
use lunarkernel_sched_extent.Hooks.System.{Governor, OnlineCluster}
use lunarkernel_sched_extent.Hooks.Hook.{
  policy_at, cluster_at, attached_after, visit_cluster, visit_clusters, cpufreq_update_util,
}

abbrev pub has_policy : Option ℕ → Bool
has_policy none = false
has_policy (some id) = true

-- The cluster has a flag, and where it is set the first CPU that is online has a policy.
abbrev pub Served : Governor → OnlineCluster → Type 0
Served gov c =
    (flag : Bool) × (get_elem? gov.gov_flag c.id ≡ some flag)
    × (flag ≡ true → has_policy (policy_at gov c.cluster_online_cpus) ≡ true)

-- Where the kernel holds the hook, the governor serves every cluster, by the scaled formula.
abbrev pub Guided : Governor → Type 0
Guided gov =
    (cpu : ℕ)
    → gov.hooked cpu ≡ true
    → (gov.switches.gov_legacy_formula_enable ≡ false) × All (Served gov) gov.clusters

-- The hook changes the policies alone.
abbrev pub SameGuide : Governor → Governor → Type 0
SameGuide a b =
    (b.switches ≡ a.switches)
    × (b.hooked ≡ a.hooked)
    × (b.gov_flag ≡ a.gov_flag)
    × (b.clusters ≡ a.clusters)
    × (b.policy_of ≡ a.policy_of)

update_cpufreq-done :
    (k : Kernel) (s : Switches) (policy : FreqPolicy) (t : Tunables) (lg : GovPolicy) (sum : ℕ)
    → s.gov_legacy_formula_enable ≡ false
    → (r : GovPolicy × Option Command) × (lse_gov_update_cpufreq k s policy t lg sum ≡ done r)
unfolding lse_gov_update_cpufreq get_next_freq
update_cpufreq-done k s policy t lg sum off = rw off (_, refl)

governed-done :
    (k : Kernel) (s : Switches) (lrqs : ℕ → Lrq) (gov : Governor) (c : OnlineCluster) (sum : ℕ)
    → s.gov_legacy_formula_enable ≡ false
    → has_policy (policy_at gov c.cluster_online_cpus) ≡ true
    → (r : Cluster) × (update_governed k s (cluster_at gov c) sum ≡ done r)
unfolding update_governed
governed-done k s lrqs gov c sum off there =
    elim (Option-cases (policy_at gov c.cluster_online_cpus)) [
      | inl none_there ↦ let bad : false ≡ true = rw none_there at there in cc
      | inr (id, found) ↦
          let d = gov.policies id in
          let (r, e) = update_cpufreq-done k s d.policy d.tunables d.lg sum off in
          rw (found, e) (_, refl)
    ]

cluster-done :
    (k : Kernel) (lrqs : ℕ → Lrq) (gov : Governor) (c : OnlineCluster)
    → gov.switches.gov_legacy_formula_enable ≡ false
    → Served gov c
    → (r : Cluster) × (update_cluster k gov.switches gov.gov_flag lrqs (cluster_at gov c) ≡ done r)
unfolding update_cluster
cluster-done k lrqs gov c off (false, e, h) =
    (record (cluster_at gov c) { command = none }, rw (e, update_cluster) refl)
cluster-done k lrqs gov c off (true, e, h) =
    let (r, d) =
      governed-done k gov.switches lrqs gov c (cluster_sum gov.switches lrqs (cluster_at gov c)) off
        (h refl) in
    (r, rw (e, update_cluster) d)

-- a hook that ended
abbrev Visited : Governor → Outcome Governor → Type 0
Visited gov o = (gov' : Governor) × (o ≡ done gov') × SameGuide gov gov'

visit_cluster-Visited :
    (k : Kernel) (lrqs : ℕ → Lrq) (c : OnlineCluster) (gov : Governor)
    → gov.switches.gov_legacy_formula_enable ≡ false
    → Served gov c
    → Visited gov (visit_cluster k lrqs c gov)
unfolding visit_cluster
visit_cluster-Visited k lrqs c gov off served =
    let (r, e) = cluster-done k lrqs gov c off served in
    let after : Option ℕ → Governor = λ (o : Option ℕ). elim o [
      | none ↦ gov
      | some id ↦ record gov {
        policies = put_at id (attached_after r (gov.policies id)) gov.policies;
      }
    ] in
    (
      after (policy_at gov c.cluster_online_cpus),
      rw e refl,
      elim (policy_at gov c.cluster_online_cpus) as (λ (o : Option ℕ). SameGuide gov (after o)) [
        | none ↦ (refl, refl, refl, refl, refl)
        | some id ↦ (refl, refl, refl, refl, refl)
      ],
    )

Served-same : (a b : Governor) (c : OnlineCluster) → SameGuide a b → Served a c → Served b c
Served-same a b c (switches, hooked, flags, clusters, policies) (flag, e, h) =
    (flag, rw flags e, λ t. served b.policy_of policies (h t))
  where
    served :
        (f : ℕ → Option ℕ)
        → f ≡ a.policy_of
        → has_policy (policy_at a c.cluster_online_cpus) ≡ true
        → has_policy (policy_at (record a { policy_of = f }) c.cluster_online_cpus) ≡ true
    served f e h = rw e h

visit_clusters-Visited :
    (k : Kernel) (lrqs : ℕ → Lrq) (cs : List OnlineCluster) (gov : Governor)
    → gov.switches.gov_legacy_formula_enable ≡ false
    → All (Served gov) cs
    → Visited gov (visit_clusters k lrqs cs gov)
unfolding visit_clusters
visit_clusters-Visited k lrqs [] gov off h = (gov, refl, (refl, refl, refl, refl, refl))
visit_clusters-Visited k lrqs (c ∷ cs) gov off (h, hs) =
    let (g1, e1, s1) = visit_cluster-Visited k lrqs c gov off h in
    let off1 : g1.switches.gov_legacy_formula_enable ≡ false = rw s1.0 off in
    let hs1 = All-map (Served gov) (Served g1) cs (λ x v. Served-same gov g1 x s1 v) hs in
    let (g2, e2, s2) = visit_clusters-Visited k lrqs cs g1 off1 hs1 in
    (g2, rw e1 e2, (s2.0 ∙ s1.0, s2.1 ∙ s1.1, s2.2 ∙ s1.2, s2.3 ∙ s1.3, s2.4 ∙ s1.4))

pub Guided-same : (a b : Governor) → SameGuide a b → Guided a → Guided b
Guided-same a b same v cpu on =
    let (off, all) = v cpu (ap (λ (f : ℕ → Bool). f cpu) (sym same.1) ∙ on) in
    (
      rw same.0 off,
      subst (All (Served b)) (sym same.3)
          (All-map (Served a) (Served b) a.clusters (λ x h. Served-same a b x same h) all),
    )

-- Where the governor serves every cluster, its hook ends, and it still does.
pub update_util-Visited :
    (k : Kernel) (lrqs : ℕ → Lrq) (cpu : ℕ) (gov : Governor)
    → Guided gov
    → Visited gov (cpufreq_update_util k lrqs cpu gov)
unfolding cpufreq_update_util
update_util-Visited k lrqs cpu gov v =
    if-keeps (Visited gov) (gov.hooked cpu)
      (λ on. let (off, all) = v cpu on in visit_clusters-Visited k lrqs gov.clusters gov off all)
      (λ _. (gov, refl, (refl, refl, refl, refl, refl)))
