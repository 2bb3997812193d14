-- ===== src/Gov/Tests.antt =====
-- Concrete runs of the governor, at which the theorems of the other modules hold.
use lunarkernel_sched_extent.Base.{
  ℕ, ◌≡◌, ◌≢◌, ◌≤◌, ◌<◌, ◌^◌, refl, List, false, true, some, ◌-◌, [], ◌∷◌, none, arith, max, ◌+◌,
}
use lunarkernel_sched_extent.Base.Int.{pos}
use lunarkernel_sched_extent.Base.Outcome.{done}
use mathlib.Core.List.Perm
use lunarkernel_sched_extent.Samples.{
  two_cpus, freq_policy, switches, tunables, gov_policy, half_busy,
}
use lunarkernel_sched_extent.Gov.Policy.{GovRq, GovPolicy, Tunables}
use lunarkernel_sched_extent.Gov.Util.{util_of, lse_get_policy_window_ns, traverse, max_sum}
use lunarkernel_sched_extent.Gov.Freq.{
  get_next_freq, clamp_freq, commit, lse_gov_update_soft_limit_cpufreq, soft_freq_clamp,
}
use lunarkernel_sched_extent.Gov.Tick.{Ticked}
use lunarkernel_sched_extent.Gov.Bounds.{clamp_freq_lem}
use lunarkernel_sched_extent.Gov.Next.{get_next_freq-ge}
use lunarkernel_sched_extent.Gov.Attach.{
  AttrSet, Answers, Held, runs, lse_gov_init, init_allocated, init_tunables, init_own,
  lse_gov_kthread_create, lse_gov_policy_alloc, fail_stopped,
}
use lunarkernel_sched_extent.Gov.Detach.{Left, lse_gov_exit}
use lunarkernel_sched_extent.Gov.Undo.{init-SameHeld}
use lunarkernel_sched_extent.Gov.Taken.{SameHeld}
use lunarkernel_sched_extent.Gov.Leave.{exit-init}
use lunarkernel_sched_extent.Base.Outcome.{done}
use lunarkernel_sched_extent.Gov.Top2.{traverse-perm}
use lunarkernel_sched_extent.Gov.Cache.{TickInput, ticks, ticks-cached}
use lunarkernel_sched_extent.Gov.Settle.{Driven, issue, Step, Reach, freq-settled}

clamp_freq_example :
    (clamp_freq switches tunables gov_policy (clamp_freq switches tunables gov_policy 200000)
      ≡ clamp_freq switches tunables gov_policy 200000)
    × (clamp_freq switches tunables gov_policy 200000
        ≤ clamp_freq switches tunables gov_policy 900000)
    × (300000 ≤ clamp_freq switches tunables gov_policy 200000)
    × (clamp_freq switches tunables gov_policy 200000 ≤ 2000000)
clamp_freq_example =
    clamp_freq_lem switches tunables gov_policy 200000 900000 (omega arith) refl (omega arith)
      (omega arith)

-- the cached utilisation of a half busy cluster
abbrev cached_half : GovRq
cached_half = record {
  last_tick_ns = 10000000;
  curr_util = 512;
  cached_this_sum = 4000000;
  cached_agg_util = 512;
}

half_reaches : 95 ≤ util_of 4000000 (max (lse_get_policy_window_ns switches gov_policy) 1)
unfolding util_of lse_get_policy_window_ns
half_reaches = omega arith

get_next_freq_example :
    (r : GovPolicy × ℕ) × (get_next_freq two_cpus switches freq_policy gov_policy 4000000 ≡ done r)
    × (1000000 ≤ r.1)
get_next_freq_example =
    get_next_freq-ge two_cpus switches freq_policy gov_policy 4000000 refl (omega arith)
      (omega arith) (omega arith) (omega arith) (omega arith) (omega arith) half_reaches

traverse-perm_example :
    traverse switches freq_policy half_busy
    ≡ traverse switches (record freq_policy { cpus = 1 ∷ 0 ∷ [] }) half_busy
traverse-perm_example = traverse-perm switches freq_policy (1 ∷ 0 ∷ []) half_busy (Perm.swap 1 0 [])

half_small : max_sum half_busy (0 ∷ 1 ∷ []) 0 < 2 ^ 54
unfolding max_sum
half_small = omega arith

-- a tick a second later, and one more, with the sum of CPU 0 a little lower each time
abbrev late_ticks : List TickInput
late_ticks =
    record {
      lrqs = λ cpu. record (half_busy cpu) { prev_runnable_sum = 3900000 };
      dsq_boost = 0;
      now_ns = 1010000000;
      now = 1010000100;
    }
    ∷ record {
      lrqs = λ cpu. record (half_busy cpu) { prev_runnable_sum = 3800000 };
      dsq_boost = 0;
      now_ns = 2010000000;
      now = 2010000100;
    }
    ∷ []

abbrev ticked_half : Ticked
ticked_half = record { lg = gov_policy; grq = cached_half; command = none }

ticks-cached_example :
    (ticks two_cpus switches freq_policy tunables 0 late_ticks ticked_half).grq.cached_agg_util
    ≡ 512
ticks-cached_example =
    ticks-cached two_cpus switches freq_policy tunables 0 late_ticks ticked_half (omega arith)
      (ground arith)

abbrev started : Driven
started = record { lg = gov_policy; work_queued = false; freq = 1000000 }

abbrev low_max : Tunables
low_max = record tunables { soft_freq_max = pos 500000 }

-- a write to the soft limits right after the start
abbrev written : Driven
written = issue (lse_gov_update_soft_limit_cpufreq switches freq_policy low_max gov_policy) started

written_idle : written.work_queued ≡ false
unfolding lse_gov_update_soft_limit_cpufreq commit soft_freq_clamp
written_idle = refl

written_asked : written.lg.next_freq ≢ 0
unfolding lse_gov_update_soft_limit_cpufreq commit soft_freq_clamp
written_asked = ground arith

freq-settled_example : written.freq ≡ written.lg.next_freq
freq-settled_example =
    freq-settled two_cpus switches (λ f. f) (λ f. refl) refl
      (Reach.next Reach.here (Step.at_write freq_policy low_max)) written_idle written_asked

abbrev counted : AttrSet
counted = record { set_init = 1; set_get = λ n. n + 1; set_put = λ n. n - 1 }

-- the driver cannot switch fast, and all else succeeds
abbrev granted : Answers
granted = record {
  can_fast_switch = false;
  policy_allocated = true;
  thread = runs;
  per_policy = false;
  tunables_at = some 40;
  kobject_error = none;
}

abbrev nothing_held : Held
nothing_held = record {
  governor_data = λ id. none;
  fast_switch_enabled = λ id. false;
  policy_records = λ id. false;
  threads = λ id. false;
  global_tunables = none;
  tunables = λ t. none;
  cached_tunables = λ cpu. false;
  dvfs_possible_from_any_cpu = λ id. false;
  governs = λ cpu. none;
}

-- the object of the tunables cannot be added, once the thread runs
abbrev refused : Answers
refused = record granted { kobject_error = some 17 }

refused-fails : (lse_gov_init counted refused 3 nothing_held).0 ≢ pos 0
unfolding lse_gov_init init_allocated init_tunables init_own lse_gov_kthread_create
    lse_gov_policy_alloc fail_stopped
refused-fails e = cc

init-SameHeld_example : SameHeld nothing_held (lse_gov_init counted refused 3 nothing_held).1
init-SameHeld_example =
    init-SameHeld counted refused 3 nothing_held (refl, refl, refl, refl) refl refused-fails

abbrev little : Left
little = record { id = 3; cpu = 0; cpus = 0 ∷ 1 ∷ []; related_cpus = 0 ∷ 1 ∷ [] }

granted-starts : (lse_gov_init counted granted 3 nothing_held).0 ≡ pos 0
unfolding lse_gov_init init_allocated init_tunables init_own lse_gov_kthread_create
    lse_gov_policy_alloc
granted-starts = refl

exit-init_example :
    (s' : Held) × (lse_gov_exit counted false true little
        (lse_gov_init counted granted 3 nothing_held).1
      ≡ done s')
    × SameHeld nothing_held s'
exit-init_example =
    exit-init counted granted true little nothing_held (refl, λ n. omega arith)
      (refl, refl, refl, refl) refl tt granted-starts
