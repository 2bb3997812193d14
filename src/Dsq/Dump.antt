-- ===== src/Dsq/Dump.antt =====
-- What `lse_dsq_dump_state` of lse_dsq.c writes to the log.
use lunarkernel_sched_extent.Base.{
  ℕ, zero, suc, ◌+◌, ◌/◌, Bool, ◌||◌, List, [], ◌∷◌, ◌++◌, none, some, get_elem?, ltb, leb, ◌==◌,
  ==_iff, ◌≡◌, refl, ap, false, ◌&&◌, is_member, arith, if◌then◌else◌, if-keeps, ◌∙◌, ◌<◌,
}
use lunarkernel_sched_extent.Base.Int.{pos}
use lunarkernel_sched_extent.Kernel.{Kernel}
use lunarkernel_sched_extent.Dsq.Queue.{
  QueueId, eq_id, global, pcp, Dsq, DsqConfig, max_global_dsqs,
}
use lunarkernel_sched_extent.Dsq.Timeout.{
  deadline_of, lse_dsq_has_timeout, lse_dsq_depth_global, lse_dsq_depth_pcp, lse_dsq_total_backlog,
  lse_dsq_urgency_signal,
}

-- LSE_DSQ_DEFAULT_QUOTAS, in ns
abbrev pub dsq_quota_ns : List ℕ
dsq_quota_ns = 0 ∷ 0 ∷ 0 ∷ 0 ∷ 0 ∷ 32000000 ∷ 20000000 ∷ 14000000 ∷ 8000000 ∷ 6000000 ∷ []

-- the lines with their arguments, in the order of the formats
pub data DumpLine : Type 0 where
  dump_start : DumpLine
  round_counter : ℕ → DumpLine
  curr_idx : ℕ → ℕ → DumpLine
  gdsq : (i deadline_ms quota_ms depth : ℕ) → Bool → DumpLine
  pcp_dsq : (cpu depth rtime : ℕ) → Bool → DumpLine
  total_backlog : ℕ → DumpLine
  urgency_signal : ℕ → ℕ → DumpLine

-- one round of the loop over the global queues
unfoldable pub dump_global : Dsq → ℕ → List DumpLine
unfolding lse_dsq_depth_global lse_dsq_has_timeout deadline_of
dump_global s i =
    let depth = lse_dsq_depth_global s (pos i) in
    let quota : ℕ = elim (get_elem? dsq_quota_ns i) [ none ↦ 0 | some q ↦ q ] in
    if ltb 0 depth || lse_dsq_has_timeout s (pos i)
    then gdsq i (deadline_of i) (quota / 1000000) depth (lse_dsq_has_timeout s (pos i)) ∷ []
    else []

-- `n` rounds of the loop, from index `i`
unfoldable pub dump_globals : Dsq → ℕ → ℕ → List DumpLine
unfolding dump_global
dump_globals s zero i = []
dump_globals s (suc n) i = dump_global s i ++ dump_globals s n (i + 1)

-- the loop over the CPUs that are online
unfoldable pub dump_pcps : Kernel → Dsq → List ℕ → List DumpLine
unfolding lse_dsq_depth_pcp
dump_pcps k s [] = []
dump_pcps k s (cpu ∷ cpus) =
    let rest = dump_pcps k s cpus in
    let depth = lse_dsq_depth_pcp k s (pos cpu) in
    if ltb 0 depth then pcp_dsq cpu depth (s.pcp_rtime cpu) (s.pcp_round cpu) ∷ rest else rest

-- `this_cpu` is the CPU that runs the call.
unfoldable pub lse_dsq_dump_state : Kernel → DsqConfig → ℕ → Dsq → List DumpLine
unfolding dump_globals dump_pcps lse_dsq_total_backlog lse_dsq_urgency_signal
lse_dsq_dump_state k c this_cpu s =
    dump_start
    ∷ round_counter s.lse_dsq_round
    ∷ curr_idx s.curr_idx_big s.curr_idx_little
    ∷ (dump_globals s max_global_dsqs 0
        ++ (dump_pcps k s k.online_cpus
            ++ (total_backlog (lse_dsq_total_backlog k s)
                ∷ urgency_signal this_cpu (lse_dsq_urgency_signal c s)
                ∷ [])))

-- whether one of the lines is on the queue
abbrev is_reported : QueueId → List DumpLine → Bool
is_reported q [] = false
is_reported q (dump_start ∷ ls) = is_reported q ls
is_reported q (round_counter n ∷ ls) = is_reported q ls
is_reported q (curr_idx big little ∷ ls) = is_reported q ls
is_reported q (gdsq i deadline quota depth late ∷ ls) = eq_id (global i) q || is_reported q ls
is_reported q (pcp_dsq cpu depth rtime r ∷ ls) = eq_id (pcp cpu) q || is_reported q ls
is_reported q (total_backlog n ∷ ls) = is_reported q ls
is_reported q (urgency_signal cpu n ∷ ls) = is_reported q ls

reported-append :
    (q : QueueId) (xs ys : List DumpLine)
    → is_reported q (xs ++ ys) ≡ (is_reported q xs || is_reported q ys)
reported-append q [] ys = refl
reported-append q (dump_start ∷ xs) ys = reported-append q xs ys
reported-append q (round_counter n ∷ xs) ys = reported-append q xs ys
reported-append q (curr_idx big little ∷ xs) ys = reported-append q xs ys
reported-append q (gdsq i deadline quota depth late ∷ xs) ys =
    ground (arith, reported-append q xs ys)
reported-append q (pcp_dsq cpu depth rtime r ∷ xs) ys = ground (arith, reported-append q xs ys)
reported-append q (total_backlog n ∷ xs) ys = reported-append q xs ys
reported-append q (urgency_signal cpu n ∷ xs) ys = reported-append q xs ys

-- whether the loop reports the global queue
abbrev to_report : Dsq → ℕ → Bool
to_report s i = ltb 0 (s.queues (global i)).nr || (s.queues (global i)).is_timeout

reported-global :
    (s : Dsq) (i j : ℕ)
    → i < 10
    → is_reported (global j) (dump_global s i) ≡ ((i == j) && to_report s i)
unfolding dump_global eq_id lse_dsq_depth_global lse_dsq_has_timeout
reported-global s i j lt =
    let inside : leb max_global_dsqs i ≡ false = ground arith in
    rw inside (
      if-keeps (λ (l : List DumpLine). is_reported (global j) l ≡ ((i == j) && to_report s i))
        (to_report s i) (λ h. rw h (ground arith)) (λ h. rw h (ground arith)))

reported-globals :
    (s : Dsq) (n i j : ℕ)
    → i + n ≡ 10
    → is_reported (global j) (dump_globals s n i) ≡ (leb i j && ltb j 10 && to_report s j)
unfolding dump_globals
reported-globals s zero i j e = ground arith
reported-globals s (suc n) i j e =
    let rest = reported-globals s n (i + 1) j (omega (arith, e)) in
    reported-append (global j) (dump_global s i) (dump_globals s n (i + 1))
    ∙ rw (reported-global s i j (omega (arith, e)), rest)
        (ground (arith, ==_iff i j, ap (to_report s)))

reported-pcps :
    (k : Kernel) (s : Dsq) (cpus : List ℕ) (cpu : ℕ)
    → is_reported (pcp cpu) (dump_pcps k s cpus)
      ≡ (is_member cpu cpus && ltb cpu k.nr_cpu_ids && ltb 0 (s.queues (pcp cpu)).nr)
unfolding dump_pcps eq_id lse_dsq_depth_pcp
reported-pcps k s [] cpu = refl
reported-pcps k s (x ∷ cpus) cpu =
    ground (arith, reported-pcps k s cpus cpu, ==_iff x cpu, ap (λ (y : ℕ). (s.queues (pcp y)).nr))

others-global : (s : Dsq) (n i cpu : ℕ) → is_reported (pcp cpu) (dump_globals s n i) ≡ false
unfolding dump_globals dump_global eq_id
others-global s zero i cpu = refl
others-global s (suc n) i cpu =
    reported-append (pcp cpu) (dump_global s i) (dump_globals s n (i + 1))
    ∙ rw (others-global s n (i + 1) cpu) (
        if-keeps (λ (l : List DumpLine). (is_reported (pcp cpu) l || false) ≡ false)
          (ltb 0 (lse_dsq_depth_global s (pos i)) || lse_dsq_has_timeout s (pos i)) (λ _. refl)
          (λ _. refl))

others-pcp :
    (k : Kernel) (s : Dsq) (cpus : List ℕ) (j : ℕ)
    → is_reported (global j) (dump_pcps k s cpus) ≡ false
unfolding dump_pcps eq_id
others-pcp k s [] j = refl
others-pcp k s (x ∷ cpus) j = ground (arith, others-pcp k s cpus j)

-- The dump reports exactly the global queues that are not empty or late, and of the CPUs that are
-- online those whose own queue is not empty.
dump_state-reported :
    (k : Kernel) (c : DsqConfig) (this_cpu : ℕ) (s : Dsq)
    → let lines = lse_dsq_dump_state k c this_cpu s in
      ((j : ℕ) → is_reported (global j) lines ≡ (ltb j 10 && to_report s j))
      × ((cpu : ℕ)
          → is_reported (pcp cpu) lines ≡ (
              is_member cpu k.online_cpus && ltb cpu k.nr_cpu_ids && ltb 0 (s.queues (pcp cpu)).nr))
unfolding lse_dsq_dump_state
dump_state-reported k c this_cpu s =
    let globals = dump_globals s max_global_dsqs 0 in
    let pcps = dump_pcps k s k.online_cpus in
    let last =
      total_backlog (lse_dsq_total_backlog k s)
      ∷ urgency_signal this_cpu (lse_dsq_urgency_signal c s)
      ∷ [] in
    (
      (λ j.
          reported-append (global j) globals (pcps ++ last)
          ∙ rw
              (
                reported-append (global j) pcps last,
                reported-globals s 10 0 j refl,
                others-pcp k s k.online_cpus j,
              )
              (ground arith)),
      (λ cpu.
          reported-append (pcp cpu) globals (pcps ++ last)
          ∙ rw
              (
                reported-append (pcp cpu) pcps last,
                others-global s 10 0 cpu,
                reported-pcps k s k.online_cpus cpu,
              )
              (ground arith)),
    )
