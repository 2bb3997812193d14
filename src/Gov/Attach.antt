-- ===== src/Gov/Attach.antt =====
-- How the governor comes to a policy: `lse_gov_policy_alloc` to `lse_gov_init` of cpufreq_lse.c.
-- The answers of the kernel's allocator, threads and objects are arguments.
use lunarkernel_sched_extent.Base.{
  ℕ, ◌-◌, Bool, true, false, not, List, [], ◌∷◌, Option, none, some, ◌==◌, if◌then◌else◌,
}
use lunarkernel_sched_extent.Base.Int.{ℤ, pos, negsuc, ◌==ℤ◌}
use lunarkernel_sched_extent.Gov.Policy.{Tunables, default_target_load}

-- struct lse_gov_tunables with the usage count of its `attr_set`
pub record TunablesSet : Type 0 where
  pub values : Tunables
  pub usage_count : ℕ

-- What the code holds of the kernel, by policy, and the tunables by their addresses. `governor_data`
-- is the address of the tunables of the policy's record, where the policy has one, and `governs` the
-- policy whose record the `lg_policy` of a CPU points to.
pub record Held : Type 0 where
  pub governor_data : ℕ → Option ℕ
  pub fast_switch_enabled : ℕ → Bool
  pub policy_records : ℕ → Bool
  pub threads : ℕ → Bool
  pub global_tunables : Option ℕ
  pub tunables : ℕ → Option TunablesSet
  pub cached_tunables : ℕ → Bool
  pub dvfs_possible_from_any_cpu : ℕ → Bool
  pub governs : ℕ → Option ℕ

-- `kthread_create` fails, `sched_setscheduler_nocheck` fails, or the thread runs.
pub data ThreadResult : Type 0 where
  create_failed sched_failed : (errno : ℕ) → ThreadResult
  runs : ThreadResult

-- What the kernel answers to an initialisation: whether the driver can switch fast, whether the
-- record of the policy is allocated, how the thread comes up, whether governors are per policy, the
-- address of new tunables, and the error of `kobject_init_and_add`, if any.
pub record Answers : Type 0 where
  pub can_fast_switch : Bool
  pub policy_allocated : Bool
  pub thread : ThreadResult
  pub per_policy : Bool
  pub tunables_at : Option ℕ
  pub kobject_error : Option ℕ

-- The kernel's `gov_attr_set_init`, `gov_attr_set_get` and `gov_attr_set_put`, on the usage count.
pub record AttrSet : Type 0 where
  pub set_init : ℕ
  pub set_get : ℕ → ℕ
  pub set_put : ℕ → ℕ

abbrev pub put {ℓ} : {A : Type ℓ} → ℕ → A → (ℕ → A) → ℕ → A
put i v f j = if i == j then v else f j

-- a negative errno
abbrev pub err : ℕ → ℤ
err errno = negsuc (errno - 1)

unfoldable pub lse_gov_policy_alloc : ℕ → Held → Held
lse_gov_policy_alloc id s = record s { policy_records = put id true s.policy_records }

unfoldable pub lse_gov_policy_free : ℕ → Held → Held
lse_gov_policy_free id s = record s { policy_records = put id false s.policy_records }

-- cpufreq_enable_fast_switch and cpufreq_disable_fast_switch
abbrev pub enable_fast_switch : Bool → ℕ → Held → Held
enable_fast_switch can id s = record s { fast_switch_enabled = put id can s.fast_switch_enabled }

abbrev pub disable_fast_switch : ℕ → Held → Held
disable_fast_switch id s = record s { fast_switch_enabled = put id false s.fast_switch_enabled }

abbrev pub put_thread : ℕ → Bool → Held → Held
put_thread id up s = record s { threads = put id up s.threads }

unfoldable pub lse_gov_kthread_create : ThreadResult → ℕ → Held → ℤ × Held
lse_gov_kthread_create (create_failed errno) id s =
    if s.fast_switch_enabled id then (pos 0, s) else (err errno, s)
lse_gov_kthread_create (sched_failed errno) id s =
    if s.fast_switch_enabled id
    then (pos 0, s)
    else (err errno, put_thread id false (put_thread id true s))
lse_gov_kthread_create runs id s =
    if s.fast_switch_enabled id then (pos 0, s) else (pos 0, put_thread id true s)

unfoldable pub lse_gov_kthread_stop : ℕ → Held → Held
lse_gov_kthread_stop id s = if s.fast_switch_enabled id then s else put_thread id false s

-- The tunables are zeroed.
unfoldable pub lse_gov_tunables_alloc : AttrSet → Bool → ℕ → Held → Held
lse_gov_tunables_alloc attr per_policy t s = record s {
  tunables =
      put t
        (some (record {
          values = record {
            target_loads = 0;
            soft_freq_max = pos 0;
            soft_freq_min = pos 0;
            apply_freq_immediately = false;
          };
          usage_count = attr.set_init;
        }))
        s.tunables;
  global_tunables = (if not per_policy then some t else s.global_tunables);
}

unfoldable pub lse_gov_tunables_free : Bool → ℕ → Held → Held
lse_gov_tunables_free per_policy t s = record s {
  global_tunables = (if not per_policy then none else s.global_tunables);
  tunables = put t none s.tunables;
}

abbrev pub default_tunables : Tunables
default_tunables = record {
  target_loads = default_target_load;
  soft_freq_max = negsuc 0;
  soft_freq_min = negsuc 0;
  apply_freq_immediately = true;
}

-- an assignment to the values of the tunables at `t`
abbrev pub set_values : ℕ → Tunables → Held → Held
set_values t v s = record s {
  tunables =
      put t (elim (s.tunables t) [ none ↦ none | some set ↦ some (record set { values = v }) ])
        s.tunables;
}

-- a change of the usage count of the tunables at `t`
abbrev pub set_count : ℕ → (ℕ → ℕ) → Held → Held
set_count t f s = record s {
  tunables =
      put t
        (elim (s.tunables t) [
          | none ↦ none
          | some set ↦ some (record set { usage_count = f set.usage_count })
        ])
        s.tunables;
}

abbrev pub attach : ℕ → Option ℕ → Held → Held
attach id o s = record s { governor_data = put id o s.governor_data }

-- what stands behind the label `stop_kthread`
unfoldable pub fail_stopped : ℕ → ℤ → Held → ℤ × Held
fail_stopped id ret s =
    (ret, disable_fast_switch id (lse_gov_policy_free id (lse_gov_kthread_stop id s)))

-- new tunables, where there are no global ones
unfoldable pub init_own : AttrSet → Answers → ℕ → Held → ℤ × Held
init_own attr a id s = elim a.tunables_at [
  | none ↦ fail_stopped id (err 12) s
  | some t ↦
      let set = set_values t default_tunables (lse_gov_tunables_alloc attr a.per_policy t s) in
      let attached = attach id (some t) set in
      elim a.kobject_error [
        | none ↦ (
          pos 0,
          record attached {
            dvfs_possible_from_any_cpu = put id true attached.dvfs_possible_from_any_cpu;
          },
        )
        | some errno ↦
            fail_stopped id (err errno)
              (lse_gov_tunables_free a.per_policy t (attach id none attached))
      ]
]

-- under `global_tunables_lock`
unfoldable pub init_tunables : AttrSet → Answers → ℕ → Held → ℤ × Held
init_tunables attr a id s = elim s.global_tunables [
  | none ↦ init_own attr a id s
  | some t ↦
      if a.per_policy
      then fail_stopped id (err 22) s
      else (pos 0, set_count t attr.set_get (attach id (some t) s))
]

-- where the record of the policy is there
unfoldable pub init_allocated : AttrSet → Answers → ℕ → Held → ℤ × Held
init_allocated attr a id s =
    let created = lse_gov_kthread_create a.thread id s in
    if not (created.0 ==ℤ pos 0)
    then (created.0, disable_fast_switch id (lse_gov_policy_free id created.1))
    else init_tunables attr a id created.1

unfoldable pub lse_gov_init : AttrSet → Answers → ℕ → Held → ℤ × Held
lse_gov_init attr a id s = elim (s.governor_data id) [
  | some t ↦ (err 16, s)
  | none ↦
      let fast = enable_fast_switch a.can_fast_switch id s in
      if not a.policy_allocated
      then (err 12, disable_fast_switch id fast)
      else init_allocated attr a id (lse_gov_policy_alloc id fast)
]

-- for_each_cpu(cpu, lg_policy->policy->cpus)
unfoldable pub unset_cpus : List ℕ → (ℕ → Option ℕ) → ℕ → Option ℕ
unset_cpus [] governs = governs
unset_cpus (cpu ∷ cpus) governs = unset_cpus cpus (put cpu none governs)

unfoldable pub lse_gov_cpu_reset : List ℕ → Held → Held
unfolding unset_cpus
lse_gov_cpu_reset cpus s = record s { governs = unset_cpus cpus s.governs }

-- for_each_cpu(cpu, policy->related_cpus)
unfoldable pub cache_cpus : List ℕ → (ℕ → Bool) → ℕ → Bool
cache_cpus [] cached = cached
cache_cpus (cpu ∷ cpus) cached = cache_cpus cpus (put cpu true cached)

-- `ok` tells whether the allocation succeeds. What is allocated holds no values.
unfoldable pub lse_gov_tunables_save : Bool → ℕ → List ℕ → Held → Held
unfolding cache_cpus
lse_gov_tunables_save ok cpu related_cpus s =
    if s.cached_tunables cpu
    then s
    else if not ok
    then s
    else record s { cached_tunables = cache_cpus related_cpus s.cached_tunables }
