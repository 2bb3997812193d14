-- ===== src/Dsq/Drain.antt =====
-- What `lse_dsq_sync` of lse_dsq.c does when the queues are disabled.
use lunarkernel_sched_extent.Base.{
  ℕ, zero, suc, ◌+◌, ◌≡◌, refl, false, List, [], ◌∷◌, Option, none, some, ◌==◌, ltb, leb, ◌&&◌,
  ==_iff, arith, count, if-keeps, if◌then◌else◌,
}
use lunarkernel_sched_extent.Kernel.{Kernel}
use lunarkernel_sched_extent.State.{Lts}
use lunarkernel_sched_extent.Dsq.Queue.{
  QueueId, global, pcp, eq_id, DispatchQ, Dsq, DsqConfig, put_queue, put_at, max_global_dsqs,
}
use lunarkernel_sched_extent.Dsq.Sync.{
  off_dsq, release, drain, drain_globals, drain_pcps, reset_pcp_info, lse_dsq_sync,
}
use lunarkernel_sched_extent.Dsq.Invariant.{eq_id_eq, at_home, on_dsq_of, Placed, IsWellFormed}

on_dsq-release :
    (fifo : List ℕ) (ext : ℕ → Option Lts) (b : ℕ)
    → on_dsq_of (release fifo ext b) ≡ (if count b fifo == 0 then on_dsq_of (ext b) else false)
unfolding release put_at
on_dsq-release [] ext b = ground arith
on_dsq-release (a ∷ fifo) ext b =
    ground (arith, on_dsq-release fifo (put_at a (off_dsq (ext a)) ext) b, ==_iff a b)

-- the home of a task once `q` is drained
leave_home : QueueId → Option QueueId → Option QueueId
leave_home q none = none
leave_home q (some r) = if eq_id r q then none else some r

drain-Placed :
    (q : QueueId) (s : Dsq) (home : ℕ → Option QueueId)
    → Placed home s
    → Placed (λ a. leave_home q (home a)) (drain q s)
unfolding drain put_queue leave_home
drain-Placed q s home v = record {
  counted = λ r. ground (arith, v.counted r);
  located = λ r a. ground (arith, v.located r a, v.located q a, eq_id_eq q r, at_left r (home a));
  flagged =
      λ a. ground (arith, v.flagged a, v.located q a, on_dsq-release (s.queues q).fifo s.ext a);
}
  where
    at_left :
        (r : QueueId) (o : Option QueueId)
        → at_home (leave_home q o) r ≡ (if eq_id q r then 0 else at_home o r)
    at_left r none = ground arith
    at_left r (some x) = ground (arith, eq_id_eq q r, eq_id_eq x q)

drain_globals-IsWellFormed :
    (n i : ℕ) (s : Dsq) → IsWellFormed s → IsWellFormed (drain_globals n i s)
unfolding drain_globals
drain_globals-IsWellFormed zero i s w = w
drain_globals-IsWellFormed (suc n) i s (home, v) =
    drain_globals-IsWellFormed n (i + 1) (drain (global i) s) (_, drain-Placed (global i) s home v)

drain_pcps-IsWellFormed :
    (cpus : List ℕ) (s : Dsq) → IsWellFormed s → IsWellFormed (drain_pcps cpus s)
unfolding drain_pcps
drain_pcps-IsWellFormed [] s w = w
drain_pcps-IsWellFormed (cpu ∷ cpus) s (home, v) =
    drain_pcps-IsWellFormed cpus (drain (pcp cpu) s) (_, drain-Placed (pcp cpu) s home v)

reset_pcp_info-Placed :
    (cpus : List ℕ) (s : Dsq) (home : ℕ → Option QueueId)
    → Placed home s
    → Placed home (reset_pcp_info cpus s)
unfolding reset_pcp_info
reset_pcp_info-Placed [] s home v = v
reset_pcp_info-Placed (cpu ∷ cpus) s home v =
    reset_pcp_info-Placed cpus
      (record s { pcp_rtime = put_at cpu 0 s.pcp_rtime; pcp_round = put_at cpu false s.pcp_round })
      home (record { counted = v.counted; located = v.located; flagged = v.flagged })

-- `lse_dsq_sync` keeps the invariant, enabled or not.
sync-IsWellFormed :
    (k : Kernel) (c : DsqConfig) (s : Dsq) → IsWellFormed s → IsWellFormed (lse_dsq_sync k c s)
unfolding lse_dsq_sync
sync-IsWellFormed k c s w = if-keeps IsWellFormed c.lse_dsq_enable (λ _. w) (λ _. reset drained)
  where
    drained : IsWellFormed (drain_pcps k.online_cpus (drain_globals max_global_dsqs 0 s))
    drained =
        drain_pcps-IsWellFormed k.online_cpus _ (drain_globals-IsWellFormed max_global_dsqs 0 s w)

    reset :
        {t : Dsq}
        → IsWellFormed t
        → IsWellFormed (
            reset_pcp_info k.online_cpus
              (record t { curr_idx_big = 5; curr_idx_little = 8; rtime = λ i. 0 }))
    reset {t} (home, v) = (
      home,
      reset_pcp_info-Placed k.online_cpus _ home
          (record { counted = v.counted; located = v.located; flagged = v.flagged }),
    )

-- A queue with no task, no count and no mark.
abbrev pub emptied : DispatchQ → DispatchQ
emptied dsq = record dsq { fifo = []; nr = 0; is_timeout = false }

queues-drain_globals :
    (n i m : ℕ) (s : Dsq)
    → ((drain_globals n i s).queues (global m)
        ≡ (if leb i m && ltb m (i + n) then emptied (s.queues (global m)) else s.queues (global m)))
      × ((drain_globals n i s).queues (pcp m) ≡ s.queues (pcp m))
unfolding drain_globals drain put_queue eq_id
queues-drain_globals zero i m s = (ground arith, refl)
queues-drain_globals (suc n) i m s =
    ground (arith, queues-drain_globals n (i + 1) m (drain (global i) s), ==_iff i m)

queues-drain_pcps :
    (cpus : List ℕ) (m : ℕ) (s : Dsq)
    → ((drain_pcps cpus s).queues (pcp m)
        ≡ (if count m cpus == 0 then s.queues (pcp m) else emptied (s.queues (pcp m))))
      × ((drain_pcps cpus s).queues (global m) ≡ s.queues (global m))
unfolding drain_pcps drain put_queue eq_id
queues-drain_pcps [] m s = (ground arith, refl)
queues-drain_pcps (cpu ∷ cpus) m s =
    ground (arith, queues-drain_pcps cpus m (drain (pcp cpu) s), ==_iff cpu m)

queues-reset : (cpus : List ℕ) (s : Dsq) → (reset_pcp_info cpus s).queues ≡ s.queues
unfolding reset_pcp_info
queues-reset [] s = refl
queues-reset (cpu ∷ cpus) s = queues-reset cpus _

-- With the queues disabled, `lse_dsq_sync` empties the ten global queues and the queue of every
-- CPU that is online, and touches no other queue.
pub queues-sync :
    (k : Kernel) (c : DsqConfig) (s : Dsq) (m : ℕ)
    → c.lse_dsq_enable ≡ false
    → let after = (lse_dsq_sync k c s).queues in
      (after (global m) ≡ (if ltb m 10 then emptied (s.queues (global m)) else s.queues (global m)))
      × (after (pcp m)
          ≡ (if count m k.online_cpus == 0 then s.queues (pcp m) else emptied (s.queues (pcp m))))
unfolding lse_dsq_sync
queues-sync k c s m off =
    rw (off, queues-reset)
      (ground (
        arith,
        queues-drain_pcps k.online_cpus m (drain_globals max_global_dsqs 0 s),
        queues-drain_globals 10 0 m s,
      ))
