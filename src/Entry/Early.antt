-- ===== src/Entry/Early.antt =====
-- What holds of the module from its static memory to the end of its load.
use lunarkernel_sched_extent.Base.{
  ℕ, ◌≤◌, ◌<◌, ◌≡◌, refl, false, List, [], ◌∷◌, none, if-keeps, ◌==◌, arith,
}
use lunarkernel_sched_extent.Kernel.{Kernel}
use lunarkernel_sched_extent.State.{default_sched_ravg_window}
use lunarkernel_sched_extent.Track.Update.{lse_sched_init_rq, init_globals}
use lunarkernel_sched_extent.Dsq.Queue.{QueueId, Dsq, put_at}
use lunarkernel_sched_extent.Dsq.Sync.{lse_dsq_init}
use lunarkernel_sched_extent.Hooks.System.{System, lse_sched_clock}
use lunarkernel_sched_extent.Hooks.Sound.{WindowOk, ClockIn, Behind}
use lunarkernel_sched_extent.Hooks.Exts.{ExtsOk}
use lunarkernel_sched_extent.Entry.Init.{init_rqs, lse_sched_stats_init, init_parts}
use lunarkernel_sched_extent.Entry.Idle.{Idle, Unmarked, EmptyAt, to_init}

-- The static memory of the module, as far as it matters: what has no initial value in the source is
-- 0, a pointer null, and the kernel holds no hook of the governor. Of the queues it says something
-- only where the initialisation writes nothing, at indices that the program does not have.
pub record AtLoad (k : Kernel) (s : System) : Type 0 where
  pub window : s.g.lse_sched_ravg_window ≡ default_sched_ravg_window
  pub coming : s.g.new_lse_sched_ravg_window ≡ default_sched_ravg_window
  pub awake : s.lse_clock_suspended ≡ false
  pub clocks : (cpu : ℕ) → ((s.lrqs cpu).latest_clock ≡ 0) × ((s.lrqs cpu).window_start ≡ 0)
  pub empty : (q : QueueId) → to_init k q ≡ false → EmptyAt s.dsq q
  pub bare : (a : ℕ) → s.dsq.ext a ≡ none
  pub unhooked : (cpu : ℕ) → s.governor.hooked cpu ≡ false

pub AtLoad-Unmarked : (k : Kernel) (s : System) → AtLoad k s → Unmarked s.dsq
AtLoad-Unmarked k s v = record {
  unflagged = λ a. rw (v.bare a) refl;
  fresh = λ a. rw (v.bare a) tt;
}

-- What the invariant of the hooks asks of the module while it is loaded, but for the divisor of the
-- demand, which is 0 at first, and with no hook of the governor.
pub record Early (least clock : ℕ) (s : System) : Type 0 where
  pub window : WindowOk least s.g.lse_sched_ravg_window
  pub coming : WindowOk least s.g.new_lse_sched_ravg_window
  pub clock_in : ClockIn clock s
  pub awake : s.lse_clock_suspended ≡ false
  pub behind : (cpu : ℕ) → Behind (lse_sched_clock clock s) (s.lrqs cpu)
  pub fresh : ExtsOk s.dsq
  pub unhooked : (cpu : ℕ) → s.governor.hooked cpu ≡ false

module _ (least clock : ℕ) where
  pub AtLoad-Early :
      (k : Kernel) (s : System) → 0 < clock → least ≤ 8000000 → AtLoad k s → Early least clock s
  unfolding lse_sched_clock
  AtLoad-Early k s p le v = record {
    window = omega (arith, v.window);
    coming = omega (arith, v.coming);
    clock_in = rw v.awake (p, omega arith);
    awake = v.awake;
    behind = λ cpu. rw ((v.clocks cpu).0, (v.clocks cpu).1) (omega arith, omega arith);
    fresh = (AtLoad-Unmarked k s v).fresh;
    unhooked = v.unhooked;
  }

  pub dsq-Early :
      (s : System) (dsq : Dsq)
      → ExtsOk dsq
      → Early least clock s
      → Early least clock (record s { dsq = dsq })
  unfolding lse_sched_clock
  dsq-Early s dsq h v = record {
    window = v.window;
    coming = v.coming;
    clock_in = v.clock_in;
    awake = v.awake;
    behind = v.behind;
    fresh = h;
    unhooked = v.unhooked;
  }

  init_rq-Early :
      (cpu : ℕ) (s : System)
      → Early least clock s
      → Early least clock
          (record s { lrqs = put_at cpu (lse_sched_init_rq s.g (s.lrqs cpu)) s.lrqs })
  unfolding lse_sched_clock put_at lse_sched_init_rq
  init_rq-Early cpu s v = record {
    window = v.window;
    coming = v.coming;
    clock_in = v.clock_in;
    awake = v.awake;
    behind = λ c.
        if-keeps (Behind (lse_sched_clock clock s)) (cpu == c)
          (λ e. ((v.behind cpu).0, omega arith)) (λ e. v.behind c);
    fresh = v.fresh;
    unhooked = v.unhooked;
  }

  init_rqs-Early :
      (cpus : List ℕ) (s : System) → Early least clock s → Early least clock (init_rqs cpus s)
  unfolding init_rqs
  init_rqs-Early [] s v = v
  init_rqs-Early (cpu ∷ cpus) s v = init_rqs-Early cpus _ (init_rq-Early cpu s v)

  -- Of the parts that the initialisation writes, the invariant reads the extensions alone.
  pub init_parts-Early :
      (k : Kernel) (jiffies : ℕ) (s : System)
      → Idle (lse_dsq_init k jiffies s.dsq)
      → Early least clock s
      → Early least clock (init_parts k jiffies s)
  unfolding init_parts lse_sched_stats_init init_globals lse_sched_clock
  init_parts-Early k jiffies s i v =
      let queued : System = record s { dsq = lse_dsq_init k jiffies s.dsq } in
      let tracked = init_rqs-Early k.possible_cpus queued (dsq-Early s _ i.fresh v) in
      record {
        window = tracked.window;
        coming = tracked.coming;
        clock_in = tracked.clock_in;
        awake = tracked.awake;
        behind = tracked.behind;
        fresh = tracked.fresh;
        unhooked = tracked.unhooked;
      }

dsq-init_rqs : (cpus : List ℕ) (s : System) → (init_rqs cpus s).dsq ≡ s.dsq
unfolding init_rqs
dsq-init_rqs [] s = refl
dsq-init_rqs (cpu ∷ cpus) s = dsq-init_rqs cpus _

pub init_parts-Idle :
    (k : Kernel) (jiffies : ℕ) (s : System)
    → Idle (lse_dsq_init k jiffies s.dsq)
    → Idle (init_parts k jiffies s).dsq
unfolding init_parts lse_sched_stats_init
init_parts-Idle k jiffies s i = rw (dsq-init_rqs k.possible_cpus) i

pub g-init_rqs :
    (cpus : List ℕ) (s : System)
    → ((init_rqs cpus s).g ≡ s.g) × ((init_rqs cpus s).config ≡ s.config)
unfolding init_rqs
g-init_rqs [] s = (refl, refl)
g-init_rqs (cpu ∷ cpus) s = g-init_rqs cpus _
