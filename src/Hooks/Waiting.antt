-- ===== src/Hooks/Waiting.antt =====
-- Where the tasks wait while the module runs.
use mathlib.Core.Path.{subst}
use lunarkernel_sched_extent.Base.{
  ℕ, ◌≡◌, refl, sym, ◌∙◌, ap, Bool, true, false, not, ◌==◌, ==_iff, ==_refl, Option, none, some,
  if-keeps, arith,
}
use lunarkernel_sched_extent.Base.Outcome.{Outcome, done, >>=-eq-done, done-injective}
use lunarkernel_sched_extent.Kernel.{Kernel, Task, Rq}
use lunarkernel_sched_extent.State.{Lts, TaskEvent, put_prev_task, pick_next_task, task_update}
use lunarkernel_sched_extent.Track.Globals.{Globals}
use lunarkernel_sched_extent.Track.Update.{Walt, lse_update_task_ravg}
use lunarkernel_sched_extent.Track.Kept.{update_task_ravg-Kept}
use lunarkernel_sched_extent.Dsq.Queue.{put_at}
use lunarkernel_sched_extent.Dsq.Classify.{lse_dsq_classify_lts}
use lunarkernel_sched_extent.Dsq.Invariant.{on_dsq_of}
use lunarkernel_sched_extent.Dsq.Filed.{Filed, Agrees, switched, on_schedule-Filed}
use lunarkernel_sched_extent.Hooks.System.{System, lse_rq_clock, put_walt, update_ext}
use lunarkernel_sched_extent.Hooks.Cfs.{update_switched, after_updates, lse_schedule}
use lunarkernel_sched_extent.Hooks.Places.{index_for, classify-Kept}

-- While the module runs with everything switched on, `place` gives the index of every task, and only
-- tasks that `may` wait do.
pub record Settled (k : Kernel) (g : Globals) (place : ℕ → ℕ) (may : ℕ → Bool) (s : System)
    : Type 0 where
  pub walt : s.g.slim_walt_ctrl ≡ true
  pub stats : s.config.slim_stats ≡ true
  pub enabled : s.config.lse_dsq_enable ≡ true
  pub hints : (p : Task) → index_for s.g p ≡ index_for g p
  pub filed : Filed k place may s.dsq

-- a property of the state that a call leaves, if it ends
abbrev pub Leaves : (System → Type 0) → Outcome System → Type 0
Leaves P o = (s : System) → o ≡ done s → P s

pub Leaves-done : (P : System → Type 0) (s : System) → P s → Leaves P (done s)
Leaves-done P s h t e = subst P (done-injective s t e) h

module _ (k : Kernel) (g0 : Globals) (place : ℕ → ℕ) where
  -- what an update of a task leaves of the queues
  put_walt-Filed :
      (a cpu : ℕ) (w : Walt) (s : System) (may : ℕ → Bool)
      → w.lts.on_dsq ≡ on_dsq_of (s.dsq.ext a)
      → Filed k place may s.dsq
      → Filed k place may (put_walt a cpu w s).dsq
  unfolding put_walt put_at
  put_walt-Filed a cpu w s may e (home, v, h) = (
    home,
    record {
      counted = v.counted;
      located = v.located;
      flagged = λ b. ground (arith, v.flagged b, ==_iff a b);
    },
    h,
  )

  pub put_walt-Settled :
      (a cpu : ℕ) (w : Walt) (s : System) (may : ℕ → Bool)
      → w.lts.on_dsq ≡ on_dsq_of (s.dsq.ext a)
      → Settled k g0 place may s
      → Settled k g0 place may (put_walt a cpu w s)
  unfolding put_walt
  put_walt-Settled a cpu w s may e v = record {
    walt = v.walt;
    stats = v.stats;
    enabled = v.enabled;
    hints = v.hints;
    filed = put_walt-Filed a cpu w s may e v.filed;
  }

  -- the updates of a task that has the extension `o`
  pub update_ext-Settled :
      (clock : ℕ) (p : Task) (rq : Rq) (event : TaskEvent) (o : Option Lts) (s : System)
      (may : ℕ → Bool)
      → s.dsq.ext p.addr ≡ o
      → Settled k g0 place may s
      → Leaves (Settled k g0 place may) (update_ext k clock p rq event o s)
  unfolding update_ext
  update_ext-Settled clock p rq event none s may e v s' r =
      Leaves-done (Settled k g0 place may) s v s' r
  update_ext-Settled clock p rq event (some lts) s may e v s' r =
      let (now, _, r1) = >>=-eq-done (lse_rq_clock clock rq s) _ r in
      let before : Walt = record { lts = lts; lrq = s.lrqs rq.cpu; shared = s.shared } in
      let (w, u, r2) = >>=-eq-done (lse_update_task_ravg k s.g p rq event now before) _ r1 in
      let kept = update_task_ravg-Kept k s.g p rq event now before w u in
      Leaves-done (Settled k g0 place may) (put_walt p.addr rq.cpu w s)
        (put_walt-Settled p.addr rq.cpu w s may (kept.0 ∙ sym (ap on_dsq_of e)) v) s' r2

  -- the class of `p` is found, and the other tasks are as they were
  abbrev After : Task → System → System → Type 0
  After p s t =
      Agrees k place p (t.dsq.ext p.addr)
      × ((a : ℕ) → (p.addr == a) ≡ false → t.dsq.ext a ≡ s.dsq.ext a)

  -- After an update the code finds the class of the task that its attributes give.
  update_ext-Agrees :
      (clock : ℕ) (p : Task) (rq : Rq) (event : TaskEvent) (o : Option Lts) (s : System)
      → s.dsq.ext p.addr ≡ o
      → s.g.slim_walt_ctrl ≡ true
      → index_for s.g p ≡ place p.addr
      → Leaves (After p s) (update_ext k clock p rq event o s)
  unfolding update_ext put_walt put_at
  update_ext-Agrees clock p rq event none s e on at s' r =
      Leaves-done (After p s) s
        ((λ lts f. let gone : none ≡ some lts = sym e ∙ f in cc), (λ a n. refl)) s' r
  update_ext-Agrees clock p rq event (some lts) s e on at s' r =
      let (now, _, r1) = >>=-eq-done (lse_rq_clock clock rq s) _ r in
      let before : Walt = record { lts = lts; lrq = s.lrqs rq.cpu; shared = s.shared } in
      let (w, u, r2) = >>=-eq-done (lse_update_task_ravg k s.g p rq event now before) _ r1 in
      let kept = (update_task_ravg-Kept k s.g p rq event now before w u).1 on in
      let same : lse_dsq_classify_lts (some w.lts) p ≡ place p.addr =
        classify-Kept s.g p lts w.lts kept ∙ at in
      Leaves-done (After p s) (put_walt p.addr rq.cpu w s)
        (
          (λ lts' f.
              let found : some w.lts ≡ some lts' = rw ==_refl at f in
              subst (λ (o : Option Lts). lse_dsq_classify_lts o p ≡ place p.addr) found same),
          (λ a n. rw n refl),
        )
        s' r2

  pub same-Settled :
      (s t : System) (may : ℕ → Bool)
      → t.g ≡ s.g
      → t.config ≡ s.config
      → t.dsq ≡ s.dsq
      → Settled k g0 place may s
      → Settled k g0 place may t
  same-Settled s t may g config dsq v = record {
    walt = rw g v.walt;
    stats = rw config v.stats;
    enabled = rw config v.enabled;
    hints = λ p. rw g (v.hints p);
    filed = rw dsq v.filed;
  }

  -- the extensions that the hook of the queues finds
  abbrev Found : Task → Task → System → Type 0
  Found prev next t =
      (prev.addr == next.addr) ≡ false
      → Agrees k place prev (t.dsq.ext prev.addr) × Agrees k place next (t.dsq.ext next.addr)

  update_switched-Settled :
      (clock : ℕ) (rq : Rq) (prev next : Task) (s : System) (may : ℕ → Bool)
      → index_for g0 prev ≡ place prev.addr
      → index_for g0 next ≡ place next.addr
      → Settled k g0 place may s
      → Leaves
          (λ (t : System). Settled k g0 place may t × Found prev next t)
          (update_switched k clock rq prev next s)
  unfolding update_switched
  update_switched-Settled clock rq prev next s may p n v =
      if-keeps (Leaves (λ (t : System). Settled k g0 place may t × Found prev next t))
        (prev.addr == next.addr)
        (λ same t r. (
          update_ext-Settled clock prev rq task_update (s.dsq.ext prev.addr) s may refl v t r,
          λ other. let never : true ≡ false = sym same ∙ other in cc,
        ))
        (λ other t r.
          let swapped : (next.addr == prev.addr) ≡ false = ground arith in
          let (s1, r1, r2) =
            >>=-eq-done (update_ext k clock prev rq put_prev_task (s.dsq.ext prev.addr) s)
              (λ s1. update_ext k clock next rq pick_next_task (s1.dsq.ext next.addr) s1) r in
          let v1 =
            update_ext-Settled clock prev rq put_prev_task (s.dsq.ext prev.addr) s may refl v s1
              r1 in
          let a1 =
            update_ext-Agrees clock prev rq put_prev_task (s.dsq.ext prev.addr) s refl v.walt
              (v.hints prev ∙ p) s1 r1 in
          let v2 =
            update_ext-Settled clock next rq pick_next_task (s1.dsq.ext next.addr) s1 may refl v1 t
              r2 in
          let a2 =
            update_ext-Agrees clock next rq pick_next_task (s1.dsq.ext next.addr) s1 refl v1.walt
              (v1.hints next ∙ n) t r2 in
          (v2, λ _. (rw (a2.1 prev.addr swapped) a1.0, a2.0)))

  pub schedule-Settled :
      (jiffies clock : ℕ) (rq : Rq) (prev next : Task) (s : System) (may : ℕ → Bool)
      → index_for g0 prev ≡ place prev.addr
      → index_for g0 next ≡ place next.addr
      → Settled k g0 place may s
      → Leaves
          (Settled k g0 place (switched prev next may))
          (lse_schedule k jiffies clock rq prev next s)
  unfolding lse_schedule after_updates
  schedule-Settled jiffies clock rq prev next s may p n v =
      let wide = switched prev next may in
      if-keeps (Leaves (Settled k g0 place wide)) (not s.g.slim_walt_ctrl)
        (λ off. absurd (ground (arith, v.walt)))
        (λ _ s' r.
          let (t, r1, r2) =
            >>=-eq-done (update_switched k clock rq prev next s)
              (λ t. done (after_updates k jiffies rq prev next t)) r in
          let (u, found) = update_switched-Settled clock rq prev next s may p n v t r1 in
          Leaves-done (Settled k g0 place wide) (after_updates k jiffies rq prev next t)
            (record {
              walt = u.walt;
              stats = u.stats;
              enabled = u.enabled;
              hints = u.hints;
              filed =
                  on_schedule-Filed k place t.config u.enabled jiffies rq prev next may t.dsq
                    u.stats (λ other. (found other).0) (λ other. (found other).1) u.filed;
            })
            s' r2)
