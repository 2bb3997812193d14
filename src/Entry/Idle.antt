-- ===== src/Entry/Idle.antt =====
-- The dispatch queues and the extensions of tasks from the load of the module on.
use mathlib.Core.Path.{subst}
use lunarkernel_sched_extent.Base.{
  ℕ, zero, suc, ◌+◌, ◌≡◌, refl, sym, ◌∙◌, ◌&&◌, ◌||◌, ltb, leb, is_member, Bool, true, false, List,
  [], ◌∷◌, Option, none, some, if-keeps, arith,
}
use lunarkernel_sched_extent.Kernel.{Kernel, Task}
use lunarkernel_sched_extent.State.{Lts}
use lunarkernel_sched_extent.Dsq.Queue.{
  QueueId, global, pcp, eq_id, DispatchQ, Dsq, DsqConfig, put_queue,
}
use lunarkernel_sched_extent.Dsq.Sync.{
  release, drain, drain_globals, drain_pcps, reset_pcp_info, lse_dsq_sync, init_one_dsq,
  init_global, init_globals, init_pcps, lse_dsq_init,
}
use lunarkernel_sched_extent.Dsq.Invariant.{on_dsq_of, IsWellFormed}
use lunarkernel_sched_extent.Hooks.Extension.{alloc_lse_task_struct, alloc_lts_mem_for_all_threads}
use lunarkernel_sched_extent.Hooks.Sound.{ExtOk}
use lunarkernel_sched_extent.Hooks.Exts.{ExtsOk, alloc-ExtsOk}
use lunarkernel_sched_extent.Entry.Init.{lse_task_struct_ext_init}

-- No queue has a task, no task is marked as waiting, and none that was never marked has a window.
pub record Idle (s : Dsq) : Type 0 where
  pub empty : (q : QueueId) → ((s.queues q).fifo ≡ []) × ((s.queues q).nr ≡ 0)
  pub unflagged : (a : ℕ) → on_dsq_of (s.ext a) ≡ false
  pub fresh : ExtsOk s

pub Idle-IsWellFormed : (s : Dsq) → Idle s → IsWellFormed s
Idle-IsWellFormed s v = (
  λ a. none,
  record {
    counted = λ q. rw ((v.empty q).0, (v.empty q).1) refl;
    located = λ q a. rw (v.empty q).0 refl;
    flagged = v.unflagged;
  },
)

-- No task is marked as waiting, and none that was never marked has a window.
pub record Unmarked (s : Dsq) : Type 0 where
  pub unflagged : (a : ℕ) → on_dsq_of (s.ext a) ≡ false
  pub fresh : ExtsOk s

-- The allocation of the extensions.
alloc-Unmarked :
    (ok : Bool) (p : Task) (s : Dsq) → Unmarked s → Unmarked (alloc_lse_task_struct ok (some p) s)
unfolding alloc_lse_task_struct
alloc-Unmarked ok p s v = record {
  unflagged = λ a. ground (arith, v.unflagged a);
  fresh = alloc-ExtsOk ok p s v.fresh;
}

alloc_threads-Unmarked :
    (tasks : List (Bool × Task)) (s : Dsq)
    → Unmarked s
    → Unmarked (alloc_lts_mem_for_all_threads tasks s)
unfolding alloc_lts_mem_for_all_threads
alloc_threads-Unmarked [] s v = v
alloc_threads-Unmarked ((ok, p) ∷ tasks) s v =
    alloc_threads-Unmarked tasks (alloc_lse_task_struct ok (some p) s) (alloc-Unmarked ok p s v)

pub ext_init-Unmarked :
    (cache : Bool) (tasks : List (Bool × Task)) (s : Dsq)
    → Unmarked s
    → Unmarked (lse_task_struct_ext_init cache tasks s).1
unfolding lse_task_struct_ext_init
ext_init-Unmarked true tasks s v = alloc_threads-Unmarked tasks s v
ext_init-Unmarked false tasks s v = v

queues-alloc :
    (ok : Bool) (p : Task) (s : Dsq) → (alloc_lse_task_struct ok (some p) s).queues ≡ s.queues
unfolding alloc_lse_task_struct
queues-alloc ok p s = ground arith

queues-alloc_threads :
    (tasks : List (Bool × Task)) (s : Dsq)
    → (alloc_lts_mem_for_all_threads tasks s).queues ≡ s.queues
unfolding alloc_lts_mem_for_all_threads
queues-alloc_threads [] s = refl
queues-alloc_threads ((ok, p) ∷ tasks) s =
    queues-alloc_threads tasks (alloc_lse_task_struct ok (some p) s) ∙ queues-alloc ok p s

pub queues-ext_init :
    (cache : Bool) (tasks : List (Bool × Task)) (s : Dsq)
    → (lse_task_struct_ext_init cache tasks s).1.queues ≡ s.queues
unfolding lse_task_struct_ext_init
queues-ext_init true tasks s = queues-alloc_threads tasks s
queues-ext_init false tasks s = refl

-- The initialisation of the queues: it writes the global queues below 10 and the queues of the
-- possible CPUs, whatever they hold.
abbrev pub EmptyAt : Dsq → QueueId → Type 0
EmptyAt s q = ((s.queues q).fifo ≡ []) × ((s.queues q).nr ≡ 0)

unfoldable pub to_init : Kernel → QueueId → Bool
to_init k (global i) = ltb i 10
to_init k (pcp cpu) = is_member cpu k.possible_cpus

-- the queues that the loops over the global queues and over the CPUs write
abbrev in_globals : ℕ → ℕ → QueueId → Bool
in_globals zero i q = false
in_globals (suc n) i q = eq_id (global i) q || in_globals n (i + 1) q

abbrev in_pcps : List ℕ → QueueId → Bool
in_pcps [] q = false
in_pcps (cpu ∷ cpus) q = eq_id (pcp cpu) q || in_pcps cpus q

init_globals-EmptyAt :
    (jiffies n i : ℕ) (s : Dsq) (q : QueueId)
    → (in_globals n i q ≡ false → EmptyAt s q)
    → EmptyAt (init_globals jiffies n i s) q
unfolding init_globals init_global init_one_dsq put_queue eq_id
init_globals-EmptyAt jiffies zero i s q h = h refl
init_globals-EmptyAt jiffies (suc n) i s q h =
    init_globals-EmptyAt jiffies n (i + 1) (init_global jiffies i s) q (λ out.
      if-keeps (λ (d : DispatchQ). (d.fifo ≡ []) × (d.nr ≡ 0)) (eq_id (global i) q)
        (λ e. (refl, refl)) (λ e. h (rw (e, out) refl)))

init_pcps-EmptyAt :
    (jiffies : ℕ) (cpus : List ℕ) (s : Dsq) (q : QueueId)
    → (in_pcps cpus q ≡ false → EmptyAt s q)
    → EmptyAt (init_pcps jiffies cpus s) q
unfolding init_pcps init_one_dsq put_queue eq_id
init_pcps-EmptyAt jiffies [] s q h = h refl
init_pcps-EmptyAt jiffies (cpu ∷ cpus) s q h = init_pcps-EmptyAt jiffies cpus _ q (λ out.
    if-keeps (λ (d : DispatchQ). (d.fifo ≡ []) × (d.nr ≡ 0)) (eq_id (pcp cpu) q) (λ e. (refl, refl))
      (λ e. h (rw (e, out) refl)))

same-Idle : (s t : Dsq) → s.queues ≡ t.queues → s.ext ≡ t.ext → Idle s → Idle t
same-Idle s t e f v = record {
  empty =
      λ q. subst (λ (x : QueueId → DispatchQ). ((x q).fifo ≡ []) × ((x q).nr ≡ 0)) e (v.empty q);
  unflagged = λ a. subst (λ (x : ℕ → Option Lts). on_dsq_of (x a) ≡ false) f (v.unflagged a);
  fresh = λ a. subst (λ (x : ℕ → Option Lts). ExtOk (x a)) f (v.fresh a);
}

reset_pcp_info-Idle : (cpus : List ℕ) (s : Dsq) → Idle s → Idle (reset_pcp_info cpus s)
unfolding reset_pcp_info
reset_pcp_info-Idle [] s v = v
reset_pcp_info-Idle (cpu ∷ cpus) s v = reset_pcp_info-Idle cpus _ (same-Idle s _ refl refl v)

-- what the loops do not write is not to be initialised
in_globals-eq : (n i j : ℕ) → in_globals n i (global j) ≡ leb i j && ltb j (i + n)
unfolding eq_id
in_globals-eq zero i j = ground arith
in_globals-eq (suc n) i j = rw (in_globals-eq n (i + 1) j) (ground arith)

in_pcps-global : (cpus : List ℕ) (i : ℕ) → in_pcps cpus (global i) ≡ false
unfolding eq_id
in_pcps-global [] i = refl
in_pcps-global (cpu ∷ cpus) i = in_pcps-global cpus i

in_pcps-pcp : (cpus : List ℕ) (cpu : ℕ) → in_pcps cpus (pcp cpu) ≡ is_member cpu cpus
unfolding eq_id
in_pcps-pcp [] cpu = refl
in_pcps-pcp (c ∷ cpus) cpu = rw (in_pcps-pcp cpus cpu) refl

to_init-rest :
    (k : Kernel) (q : QueueId)
    → in_pcps k.possible_cpus q ≡ false
    → in_globals 10 0 q ≡ false
    → to_init k q ≡ false
unfolding to_init
to_init-rest k (global i) p g = ground (arith, in_globals-eq 10 0 i, g)
to_init-rest k (pcp cpu) p g = sym (in_pcps-pcp k.possible_cpus cpu) ∙ p

ext-init_globals : (jiffies n i : ℕ) (s : Dsq) → (init_globals jiffies n i s).ext ≡ s.ext
unfolding init_globals init_global
ext-init_globals jiffies zero i s = refl
ext-init_globals jiffies (suc n) i s = ext-init_globals jiffies n (i + 1) _

ext-init_pcps : (jiffies : ℕ) (cpus : List ℕ) (s : Dsq) → (init_pcps jiffies cpus s).ext ≡ s.ext
unfolding init_pcps
ext-init_pcps jiffies [] s = refl
ext-init_pcps jiffies (cpu ∷ cpus) s = ext-init_pcps jiffies cpus _

pub dsq_init-Idle :
    (k : Kernel) (jiffies : ℕ) (s : Dsq)
    → Unmarked s
    → ((q : QueueId) → to_init k q ≡ false → EmptyAt s q)
    → Idle (lse_dsq_init k jiffies s)
unfolding lse_dsq_init
dsq_init-Idle k jiffies s v h =
    let started = init_globals jiffies 10 0 s in
    let queued = init_pcps jiffies k.possible_cpus started in
    let ext : queued.ext ≡ s.ext =
      ext-init_pcps jiffies k.possible_cpus started ∙ ext-init_globals jiffies 10 0 s in
    let empty : (q : QueueId) → EmptyAt queued q = λ q.
      init_pcps-EmptyAt jiffies k.possible_cpus started q
        (λ out. init_globals-EmptyAt jiffies 10 0 s q (λ rest. h q (to_init-rest k q out rest))) in
    let idle : Idle queued = record {
      empty = empty;
      unflagged = λ a. rw ext (v.unflagged a);
      fresh = λ a. rw ext (v.fresh a);
    } in
    same-Idle _ _ refl refl (reset_pcp_info-Idle k.possible_cpus _ (same-Idle _ _ refl refl idle))

-- The sync of the queues.
put-Idle :
    (q : QueueId) (dsq : DispatchQ) (s : Dsq)
    → (dsq.fifo ≡ []) × (dsq.nr ≡ 0)
    → Idle s
    → Idle (record s { queues = put_queue q dsq s.queues })
unfolding put_queue
put-Idle q dsq s e v = record {
  empty = λ r. ground (arith, v.empty r);
  unflagged = v.unflagged;
  fresh = v.fresh;
}

drain-Idle : (q : QueueId) (s : Dsq) → Idle s → Idle (drain q s)
unfolding drain release
drain-Idle q s v = rw (v.empty q).0 (put-Idle q _ s (refl, refl) v)

drain_globals-Idle : (n i : ℕ) (s : Dsq) → Idle s → Idle (drain_globals n i s)
unfolding drain_globals
drain_globals-Idle zero i s v = v
drain_globals-Idle (suc n) i s v = drain_globals-Idle n (i + 1) _ (drain-Idle (global i) s v)

drain_pcps-Idle : (cpus : List ℕ) (s : Dsq) → Idle s → Idle (drain_pcps cpus s)
unfolding drain_pcps
drain_pcps-Idle [] s v = v
drain_pcps-Idle (cpu ∷ cpus) s v = drain_pcps-Idle cpus _ (drain-Idle (pcp cpu) s v)

pub dsq_sync-Idle : (k : Kernel) (c : DsqConfig) (s : Dsq) → Idle s → Idle (lse_dsq_sync k c s)
unfolding lse_dsq_sync
dsq_sync-Idle k c s v =
    let drained = drain_pcps-Idle k.online_cpus _ (drain_globals-Idle 10 0 s v) in
    if-keeps Idle c.lse_dsq_enable (λ _. v)
      (λ _. reset_pcp_info-Idle k.online_cpus _ (same-Idle _ _ refl refl drained))
