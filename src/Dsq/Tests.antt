-- ===== src/Dsq/Tests.antt =====
-- Runs of the dispatch queues of lse_dsq.c on two CPUs, and the theorems at concrete inputs.
use mathlib.Core.Option.{some-injective}
use mathlib.Core.Path.{subst}
use lunarkernel_sched_extent.Base.{
  ℕ, ◌≡◌, refl, true, false, [], ◌∷◌, Option, none, some, min, ◌*◌, ◌==◌, arith, count, length,
  if◌then◌else◌,
}
use lunarkernel_sched_extent.State.{Lts, class_background}
use lunarkernel_sched_extent.Samples.{two_cpus, plain_task, plain_lts, cpu0}
use lunarkernel_sched_extent.Dsq.Queue.{
  QueueId, global, pcp, eq_id, Dsq, DsqConfig, put_queue, put_at,
}
use lunarkernel_sched_extent.Dsq.Classify.{
  lse_dsq_classify_lts, dsq_idx_valid, queue_at, pcp_out_of_range,
}
use lunarkernel_sched_extent.Dsq.Enqueue.{dsq_enqueue, lse_dsq_enqueue_task}
use lunarkernel_sched_extent.Dsq.Dequeue.{lse_dsq_dequeue_task}
use lunarkernel_sched_extent.Dsq.Timeout.{
  deadline_of, lse_dsq_scan_timeout, count_timeouts, lse_dsq_urgency_signal, lse_dsq_total_backlog,
}
use lunarkernel_sched_extent.Dsq.Schedule.{leave, lse_dsq_on_schedule}
use lunarkernel_sched_extent.Dsq.Sync.{lse_dsq_sync, lse_dsq_init}
use lunarkernel_sched_extent.Dsq.Invariant.{Placed, IsWellFormed}
use lunarkernel_sched_extent.Dsq.Keeps.{dsq_enqueue-Placed, IsFiled, on_schedule-IsWellFormed}
use lunarkernel_sched_extent.Dsq.Misfiled.{misfiled_dequeue-not-IsWellFormed}
use lunarkernel_sched_extent.Dsq.Scan.{is_timeout-scan}
use lunarkernel_sched_extent.Dsq.Quiet.{here, more, schedule, urgency_signal_lem}
use lunarkernel_sched_extent.Dsq.Drain.{emptied, queues-sync}
use lunarkernel_sched_extent.Dsq.Effects.{accepts, queues-enqueue_task, dequeue-enqueue_task}
use lunarkernel_sched_extent.Dsq.Backlog.{waiting, total_backlog-waiting}

abbrev on : DsqConfig
on = record { lse_dsq_enable = true; slim_stats = true }

abbrev off : DsqConfig
off = record { lse_dsq_enable = false; slim_stats = true }

-- No task waits; tasks 1 and 2 have extensions.
abbrev fresh : Dsq
fresh = record {
  queues = λ q. record { fifo = []; nr = 0; id = 0; last_consume_at = 0; is_timeout = false };
  ext = λ a. if a == 1 then some (plain_lts 1) else if a == 2 then some (plain_lts 2) else none;
  curr_idx_big = 5;
  curr_idx_little = 8;
  rtime = λ i. 0;
  pcp_rtime = λ cpu. 0;
  pcp_round = λ cpu. false;
  lse_dsq_round = 0;
  last_scan_jf = λ cpu. 0;
}

fresh-Placed : Placed (λ a. none) fresh
fresh-Placed = record { counted = λ q. refl; located = λ q a. refl; flagged = λ a. ground arith }

-- Task 1 waits in the queue of its class, at jiffy 100.
abbrev one_waits : Dsq
one_waits = dsq_enqueue 100 (global 8) (plain_task 1) (plain_lts 1) fresh

abbrev home_of_one : ℕ → Option QueueId
home_of_one = put_at 1 (some (global 8)) (λ a. none)

one_waits-Placed : Placed home_of_one one_waits
one_waits-Placed =
    dsq_enqueue-Placed 100 (global 8) (plain_task 1) (plain_lts 1) (λ a. none) fresh fresh-Placed
      refl

one_waits-IsFiled : IsFiled (plain_task 1) one_waits
unfolding dsq_enqueue put_at lse_dsq_classify_lts queue_at put_queue
one_waits-IsFiled lts e h =
    subst
      (λ l.
        count 1 (one_waits.queues (queue_at (lse_dsq_classify_lts (some l) (plain_task 1)))).fifo
        ≡ 1)
      (some-injective (record (plain_lts 1) { on_dsq = true }) lts e) refl

on_schedule-IsWellFormed_example :
    IsWellFormed (lse_dsq_on_schedule two_cpus on 101 cpu0 none (some (plain_task 1)) one_waits)
on_schedule-IsWellFormed_example =
    on_schedule-IsWellFormed two_cpus on 101 cpu0 none (plain_task 1) one_waits
      (home_of_one, one_waits-Placed) (unfold leave in one_waits-IsFiled)

-- Task 1 waits as a normal task and is then classified as a background task.
abbrev background_lts : Lts
background_lts = record (plain_lts 1) { task_class = class_background; on_dsq = true }

abbrev retagged : Dsq
retagged = record one_waits { ext = put_at 1 (some background_lts) one_waits.ext }

retagged-Placed : Placed home_of_one retagged
retagged-Placed = record {
  counted = one_waits-Placed.counted;
  located = one_waits-Placed.located;
  flagged = λ a. unfold put_at dsq_enqueue in ground (arith, one_waits-Placed.flagged a);
}

misfiled_dequeue-not-IsWellFormed_example :
    ¬ IsWellFormed (lse_dsq_dequeue_task two_cpus on 101 (some (plain_task 1)) retagged)
unfolding put_at lse_dsq_classify_lts pcp_out_of_range queue_at eq_id dsq_enqueue
misfiled_dequeue-not-IsWellFormed_example =
    misfiled_dequeue-not-IsWellFormed two_cpus on 101 (plain_task 1) retagged background_lts
      home_of_one (global 8) retagged-Placed refl refl refl refl refl refl

is_timeout-scan_example :
    let after = (lse_dsq_scan_timeout two_cpus on 200 0 one_waits).queues in
    ((after (global 8)).is_timeout ≡ true) × ((after (pcp 0)).is_timeout ≡ false)
unfolding dsq_enqueue deadline_of put_queue
is_timeout-scan_example = is_timeout-scan two_cpus on 200 0 one_waits refl 8

urgency_signal_lem_example :
    lse_dsq_urgency_signal on (
      lse_dsq_on_schedule two_cpus on 200 cpu0
        (some (plain_task 1))
        (some (plain_task 2))
        (lse_dsq_init two_cpus 100 fresh))
    ≡ min
        (count_timeouts
            (lse_dsq_on_schedule two_cpus on 200 cpu0
              (some (plain_task 1))
              (some (plain_task 2))
              (lse_dsq_init two_cpus 100 fresh))
            5
            5
          * 256)
        1024
urgency_signal_lem_example =
    urgency_signal_lem two_cpus 100 fresh _
      (more here (schedule on 200 cpu0 (some (plain_task 1)) (some (plain_task 2)))) on

queues-sync_example :
    let after = (lse_dsq_sync two_cpus off one_waits).queues in
    (after (global 8) ≡ emptied (one_waits.queues (global 8)))
    × (after (pcp 8) ≡ one_waits.queues (pcp 8))
queues-sync_example = queues-sync two_cpus off one_waits 8 refl

-- Task 2 joins task 1.
queues-enqueue_task_example :
    let after =
      (lse_dsq_enqueue_task two_cpus on 100 9 (some (plain_task 2)) one_waits).queues (global 8) in
    (after.fifo ≡ 1 ∷ 2 ∷ []) × (after.nr ≡ 2)
unfolding accepts dsq_enqueue put_queue put_at lse_dsq_classify_lts dsq_idx_valid pcp_out_of_range
    queue_at
queues-enqueue_task_example =
    queues-enqueue_task two_cpus on 100 9 (plain_task 2) (plain_lts 2) one_waits refl (global 8)

dequeue-enqueue_task_example :
    let after =
      lse_dsq_dequeue_task two_cpus on 101
        (some (plain_task 2))
        (lse_dsq_enqueue_task two_cpus on 100 9 (some (plain_task 2)) one_waits) in
    ((after.queues (global 8)).fifo ≡ 1 ∷ []) × ((after.queues (global 8)).nr ≡ 1)
unfolding dsq_enqueue put_queue put_at
dequeue-enqueue_task_example =
    dequeue-enqueue_task two_cpus on 100 101 9 (plain_task 2) (plain_lts 2) one_waits refl refl
      (home_of_one, one_waits-Placed) (global 8)

total_backlog-waiting_example :
    lse_dsq_total_backlog two_cpus one_waits ≡ length (waiting two_cpus one_waits)
total_backlog-waiting_example =
    total_backlog-waiting two_cpus one_waits (home_of_one, one_waits-Placed)

-- The task waits past the 64 ms of its queue.
one_waits_late : lse_dsq_urgency_signal on (lse_dsq_scan_timeout two_cpus on 200 0 one_waits) ≡ 256
unfolding lse_dsq_urgency_signal lse_dsq_scan_timeout dsq_enqueue
one_waits_late = refl
