-- ===== src/Gov/Settle.antt =====
-- What the governor has asked for and what the driver runs at.
use lunarkernel_sched_extent.Base.{
  ℕ, max, ◌≡◌, ◌≢◌, ◌⊎◌, inl, refl, sym, ap, ◌∙◌, Bool, true, false, Option, none, some, if-keeps,
  not, if◌then◌else◌, arith, ◌==◌,
}
use lunarkernel_sched_extent.Base.Outcome.{Outcome, done, >>=-eq-done, done-injective}
use lunarkernel_sched_extent.Base.Word.{u32}
use lunarkernel_sched_extent.Kernel.{Kernel}
use lunarkernel_sched_extent.Gov.Policy.{
  Switches, FreqPolicy, Tunables, GovPolicy, Command, fast_switch, queue_work,
}
use lunarkernel_sched_extent.Gov.Util.{util_of, lse_get_policy_window_ns}
use lunarkernel_sched_extent.Gov.Target.{lse_dynamic_target_load}
use lunarkernel_sched_extent.Gov.Freq.{
  get_next_freq, legacy_freq, soft_freq_clamp, commit, lse_gov_update_cpufreq,
  lse_gov_update_soft_limit_cpufreq, lse_gov_work, lse_gov_limits,
}
use lunarkernel_sched_extent.Gov.Tick.{tick_freq, tick_target_load}

-- A policy's record, whether its work is queued, and the frequency of the driver.
pub record Driven : Type 0 where
  pub lg : GovPolicy
  pub work_queued : Bool
  pub freq : ℕ

-- An update of the policy, carried out by the driver or left to the thread.
abbrev pub issue : GovPolicy × Option Command → Driven → Driven
issue (lg, none) d = record d { lg = lg }
issue (lg, some (fast_switch f)) d = record d { lg = lg; freq = f }
issue (lg, some queue_work) d = record d { lg = lg; work_queued = true }

abbrev agg_of : Switches → GovPolicy → ℕ → ℕ
agg_of s lg sum = u32 (util_of sum (max (lse_get_policy_window_ns s lg) 1))

module _ (k : Kernel) (s : Switches) (resolve : ℕ → ℕ) where
  abbrev resolved : FreqPolicy → FreqPolicy
  resolved policy = record policy { resolve_freq = resolve }

  -- One step of the governor on a policy whose limits stay: the end of a window, a tick behind its
  -- rate limit, a write to the soft limits, the run of the queued work, and the call for limits of
  -- a driver that switches fast.
  pub data Step : Driven → Driven → Type 0 where
    at_rollover :
        {d : Driven} (policy : FreqPolicy) (t : Tunables) (sum : ℕ) {r : GovPolicy × Option Command}
        → lse_gov_update_cpufreq k s (resolved policy) t d.lg sum ≡ done r
        → Step d (issue r d)
    at_tick :
        {d : Driven} (policy : FreqPolicy) (t : Tunables) (agg_util : ℕ)
        → Step d (issue (tick_freq k s (resolved policy) t d.lg agg_util) d)
    at_write :
        {d : Driven} (policy : FreqPolicy) (t : Tunables)
        → Step d (issue (lse_gov_update_soft_limit_cpufreq s (resolved policy) t d.lg) d)
    at_work :
        {d : Driven}
        → d.work_queued ≡ true
        → Step d (record d { work_queued = false; freq = lse_gov_work d.lg })
    at_limits :
        {d : Driven} (policy : FreqPolicy)
        → Step d (issue (d.lg, lse_gov_limits (resolved policy) d.lg) d)

  pub data Reach (start : Driven) : Driven → Type 0 where
    here : Reach start start
    next : {d e : Driven} → Reach start d → Step d e → Reach start e

  -- Nothing was asked for yet, or the driver runs at what was asked for or has work queued that
  -- sets it.
  abbrev pub Agrees : Driven → Type 0
  Agrees d =
      (d.lg.next_freq ≡ 0)
      ⊎ ((resolve d.lg.next_freq ≡ d.lg.next_freq)
          × ((d.work_queued ≡ true) ⊎ (d.freq ≡ d.lg.next_freq)))

  commit-Agrees :
      (policy : FreqPolicy) (lg : GovPolicy) (x : ℕ) (d : Driven)
      → ((f : ℕ) → resolve (resolve f) ≡ resolve f)
      → lg.next_freq ≡ d.lg.next_freq
      → Agrees d
      → Agrees (issue (commit policy lg (resolve x)) d)
  unfolding commit
  commit-Agrees policy lg x d idem e h = ground (arith, idem x)

  dynamic-next_freq :
      (policy : FreqPolicy) (lg : GovPolicy) (agg : ℕ)
      → (lse_dynamic_target_load k s policy lg agg).0.next_freq ≡ lg.next_freq
  unfolding lse_dynamic_target_load
  dynamic-next_freq policy lg agg =
      if-keeps (λ (r : GovPolicy × ℕ). r.0.next_freq ≡ lg.next_freq) (not s.cluster_tl_dyn_enable)
        (λ h. refl) (λ h. refl)

  tick_target-next_freq :
      (policy : FreqPolicy) (lg : GovPolicy) (agg : ℕ)
      → (tick_target_load k s policy lg agg).0.next_freq ≡ lg.next_freq
  unfolding tick_target_load
  tick_target-next_freq policy lg agg =
      if-keeps (λ (r : GovPolicy × ℕ). r.0.next_freq ≡ lg.next_freq) s.cluster_tl_dyn_enable
        (λ h. dynamic-next_freq policy lg agg) (λ h. refl)

  get_next_freq-next_freq :
      (policy : FreqPolicy) (lg : GovPolicy) (sum : ℕ) {r : GovPolicy × ℕ}
      → get_next_freq k s policy lg sum ≡ done r
      → r.0.next_freq ≡ lg.next_freq
  unfolding get_next_freq
  get_next_freq-next_freq policy lg sum {r} h =
      let agg = agg_of s lg sum in
      let kept = dynamic-next_freq policy lg agg in
      if-keeps
        (λ (o : Outcome (GovPolicy × ℕ)).
          (r : GovPolicy × ℕ) → o ≡ done r → r.0.next_freq ≡ lg.next_freq)
        s.gov_legacy_formula_enable
        (λ l r e.
          let (f, p, q) = >>=-eq-done (legacy_freq k s _ _ _ sum) _ e in
          ap (λ (r : GovPolicy × ℕ). r.0.next_freq) (sym (done-injective _ r q)) ∙ kept)
        (λ l r e. ap (λ (r : GovPolicy × ℕ). r.0.next_freq) (sym (done-injective _ r e)) ∙ kept) r h

  update_cpufreq-Agrees :
      (policy : FreqPolicy) (t : Tunables) (sum : ℕ) (d : Driven) {r : GovPolicy × Option Command}
      → ((f : ℕ) → resolve (resolve f) ≡ resolve f)
      → lse_gov_update_cpufreq k s (resolved policy) t d.lg sum ≡ done r
      → Agrees d
      → Agrees (issue r d)
  unfolding lse_gov_update_cpufreq soft_freq_clamp
  update_cpufreq-Agrees policy t sum d {r} idem e h =
      let (n, p, q) = >>=-eq-done (get_next_freq k s (resolved policy) d.lg sum) _ e in
      rw (sym (done-injective _ r q)) (
        commit-Agrees (resolved policy)
          (record (soft_freq_clamp s t n.0 n.1).0 {
            freq_cached =
                (if n.0.next_freq == 0
                  then resolve (soft_freq_clamp s t n.0 n.1).1
                  else n.0.next_freq);
          })
          (soft_freq_clamp s t n.0 n.1).1 d idem
          (get_next_freq-next_freq (resolved policy) d.lg sum p) h)

  Step-Agrees :
      {d e : Driven} → ((f : ℕ) → resolve (resolve f) ≡ resolve f) → Step d e → Agrees d → Agrees e
  unfolding tick_freq soft_freq_clamp lse_gov_update_soft_limit_cpufreq lse_gov_work lse_gov_limits
  Step-Agrees idem (at_rollover {d = d} policy t sum e) h =
      update_cpufreq-Agrees policy t sum d idem e h
  Step-Agrees idem (at_tick {d = d} policy t agg_util) h =
      commit-Agrees (resolved policy) _ _ d idem
        (tick_target-next_freq (resolved policy) d.lg agg_util) h
  Step-Agrees idem (at_write {d = d} policy t) h = commit-Agrees (resolved policy) _ _ d idem refl h
  Step-Agrees idem (at_work {d = d} q) h = ground arith
  Step-Agrees idem (at_limits {d = d} policy) h = ground arith

  Reach-Agrees :
      {d e : Driven} → ((f : ℕ) → resolve (resolve f) ≡ resolve f) → Reach d e → Agrees d → Agrees e
  Reach-Agrees idem here h = h
  Reach-Agrees idem (next r step) h = Step-Agrees idem step (Reach-Agrees idem r h)

  -- From a start of the governor on a policy whose limits stay, whatever windows end, ticks come,
  -- soft limits are written and work is run: once no work is queued, the driver runs at the
  -- frequency that was asked for last, if one was. The driver resolves a frequency that it has
  -- resolved to itself.
  pub freq-settled :
      {d e : Driven}
      → ((f : ℕ) → resolve (resolve f) ≡ resolve f)
      → d.lg.next_freq ≡ 0
      → Reach d e
      → e.work_queued ≡ false
      → e.lg.next_freq ≢ 0
      → e.freq ≡ e.lg.next_freq
  freq-settled idem z r q n = let h = Reach-Agrees idem r (inl z) in ground arith
