-- ===== src/Hooks/Freed.antt =====
-- The release of the extension of a task that waits in a queue.
use lunarkernel_sched_extent.Base.{
  ℕ, ◌≡◌, true, false, Option, some, Option-cases, inl, inr, ==_refl, count, arith,
}
use lunarkernel_sched_extent.Kernel.{Task}
use lunarkernel_sched_extent.Dsq.Queue.{QueueId, Dsq, put_at}
use lunarkernel_sched_extent.Dsq.Invariant.{Placed, IsWellFormed, is_some, eq_id_refl}
use lunarkernel_sched_extent.Hooks.Extension.{free_lse_task_struct}

-- Releasing the extension of a task that waits in a queue breaks the invariant of the queues: the
-- node of the released extension stays in the list, whatever queues the tasks are assigned to.
pub freed-not-IsWellFormed :
    (home : ℕ → Option QueueId) (p : Task) (q : QueueId) (s : Dsq)
    → Placed home s
    → home p.addr ≡ some q
    → ¬ IsWellFormed (free_lse_task_struct (some p) s)
unfolding free_lse_task_struct put_at
freed-not-IsWellFormed home p q s h e (home', placed) =
    let gone : false ≡ is_some (home' p.addr) = rw ==_refl at (placed.flagged p.addr) in
    let after = placed.located q p.addr in
    let once : count p.addr (s.queues q).fifo ≡ 1 = rw (e, eq_id_refl q) at (h.located q p.addr) in
    elim (Option-cases (home' p.addr)) [
      | inl n ↦ let absent : count p.addr (s.queues q).fifo ≡ 0 = rw n at after in omega arith
      | inr (r, there) ↦ let some_home : false ≡ true = rw there at gone in cc
    ]
