-- ===== src/Gov/Detach.antt =====
-- The exit of the governor: lse_gov_exit of cpufreq_lse.c.
use lunarkernel_sched_extent.Base.{ℕ, Bool, List, none, some, ◌==◌, if◌then◌else◌}
use lunarkernel_sched_extent.Base.Outcome.{Outcome, done, fault}
use lunarkernel_sched_extent.Gov.Attach.{
  AttrSet, Held, attach, disable_fast_switch, lse_gov_cpu_reset, lse_gov_kthread_stop,
  lse_gov_policy_free, lse_gov_tunables_free, lse_gov_tunables_save, set_count,
}

-- the count that is left of the tunables at `t`
abbrev pub count_of : ℕ → Held → ℕ
count_of t s = elim (s.tunables t) [ none ↦ 0 | some set ↦ set.usage_count ]

-- What the exit reads of the policy: its number, `policy->cpu`, and the CPUs.
pub record Left : Type 0 where
  pub id : ℕ
  pub cpu : ℕ
  pub cpus : List ℕ
  pub related_cpus : List ℕ

-- the part of the exit under `global_tunables_lock`
unfoldable pub release_tunables : AttrSet → Bool → Bool → Left → ℕ → Held → Held
release_tunables attr per_policy ok p t s =
    let left = attach p.id none (set_count t attr.set_put s) in
    if count_of t left == 0
    then lse_gov_tunables_free per_policy t (lse_gov_tunables_save ok p.cpu p.related_cpus left)
    else left

-- the part behind it
unfoldable pub tear_down : Left → Held → Held
tear_down p s =
    disable_fast_switch p.id
      (lse_gov_policy_free p.id (lse_gov_cpu_reset p.cpus (lse_gov_kthread_stop p.id s)))

-- `per_policy` and `ok` are what the kernel answers.
unfoldable pub lse_gov_exit : AttrSet → Bool → Bool → Left → Held → Outcome Held
lse_gov_exit attr per_policy ok p s = elim (s.governor_data p.id) [
  | none ↦ fault
  | some t ↦ done (tear_down p (release_tunables attr per_policy ok p t s))
]
