-- ===== src/Monitor/Printed.antt =====
-- What the file `tasks` of lse_monitor.c shows, and how long it is.
use Prim.Native.String.{String}
use lunarkernel_sched_extent.Base.{
  ℕ, ◌<◌, ◌≤◌, ◌≡◌, ◌⊎◌, refl, ap, true, List, [], ◌∷◌, ◌++◌, length, length-append, leb, Option,
  none, some, if-keeps, if◌then◌else◌, inl, inr, arith,
}
use lunarkernel_sched_extent.Base.Word.{sub64, sub64_of_le}
use lunarkernel_sched_extent.State.{Lts}
use lunarkernel_sched_extent.Monitor.Proc.{
  Arg, Shown, tasks_header, print_task, print_tasks, task_row, lse_proc_tasks_read,
}

-- The kernel's documented `scnprintf`: what it writes and the byte that ends it fit into the room.
abbrev pub Fits : (ℕ → String → List Arg → List ℕ) → Type 0
Fits scnprintf =
    (size : ℕ) (format : String) (args : List Arg)
    → 0 < size
    → length (scnprintf size format args) < size

-- the lines of all the given CPUs behind `tmp`
abbrev pub all_tasks : Shown → List ℕ → List ℕ → List ℕ
all_tasks v [] tmp = tmp
all_tasks v (cpu ∷ cpus) tmp = all_tasks v cpus (print_task v cpu (v.dsq.ext (v.curr cpu).addr) tmp)

-- The text has the lines of the first CPUs, and if others are left, less than 96 bytes are.
abbrev pub ShowsFirst : Shown → List ℕ → List ℕ → List ℕ → Type 0
ShowsFirst v cpus tmp text =
    (shown : List ℕ) × (rest : List ℕ) × (shown ++ rest ≡ cpus)
    × (text ≡ all_tasks v shown tmp)
    × ((rest ≡ []) ⊎ (928 ≤ length text))

-- The loop ends early where the text is long, and only behind a line.
ends-keeps :
    (P : List ℕ → Type 0) (o : Option Lts) (printed rest : List ℕ)
    → P rest
    → (leb 928 (length printed) ≡ true → P printed)
    → P (elim o [ none ↦ rest | some lts ↦ if leb 928 (length printed) then printed else rest ])
ends-keeps P none printed rest p q = p
ends-keeps P (some lts) printed rest p q = if-keeps P (leb 928 (length printed)) q (λ _. p)

module _ (v : Shown) (fits : Fits v.scnprintf) where
  print_task-fits :
      (cpu : ℕ) (o : Option Lts) (tmp : List ℕ)
      → length tmp < 1024
      → length (print_task v cpu o tmp) < 1024
  unfolding print_task
  print_task-fits cpu none tmp lt = lt
  print_task-fits cpu (some lts) tmp lt =
      let format : String = "%d %d %s %s %u %u %u %u %d %u %u %u %u %u\n" in
      let room = sub64_of_le 1024 (length tmp) (omega (arith, lt)) (omega arith) in
      let line = v.scnprintf (sub64 1024 (length tmp)) format (task_row v cpu lts) in
      let less =
        fits (sub64 1024 (length tmp)) format (task_row v cpu lts) (omega (arith, room, lt)) in
      omega (arith, length-append tmp line, room, less, lt)

  print_tasks-fits :
      (cpus tmp : List ℕ)
      → length tmp < 1024
      → let text = print_tasks v cpus tmp in (length text < 1024) × ShowsFirst v cpus tmp text
  unfolding print_tasks
  print_tasks-fits [] tmp lt = (lt, ([], [], refl, refl, inl refl))
  print_tasks-fits (cpu ∷ cpus) tmp lt =
      let o = v.dsq.ext (v.curr cpu).addr in
      let printed = print_task v cpu o tmp in
      let less = print_task-fits cpu o tmp lt in
      let (short, (shown, rest, all, text, left)) = print_tasks-fits cpus printed less in
      let later : ShowsFirst v (cpu ∷ cpus) tmp (print_tasks v cpus printed) =
        (cpu ∷ shown, rest, ap (λ (l : List ℕ). cpu ∷ l) all, text, left) in
      ends-keeps (λ (t : List ℕ). (length t < 1024) × ShowsFirst v (cpu ∷ cpus) tmp t) o printed
        (print_tasks v cpus printed) (short, later)
        (λ long. (less, (cpu ∷ [], cpus, refl, refl, inr (ground arith))))

  -- The file `tasks` never leaves its buffer of 1024 bytes. It shows the lines of the first online CPUs, in order, one for each whose
  -- task has an extension, and all of them unless less than 96 bytes are left.
  pub tasks_read-fits :
      let text = lse_proc_tasks_read v in
      (length text < 1024) × ShowsFirst v v.k.online_cpus (v.scnprintf 1024 tasks_header []) text
  unfolding lse_proc_tasks_read
  tasks_read-fits =
      print_tasks-fits v.k.online_cpus (v.scnprintf 1024 tasks_header [])
        (fits 1024 tasks_header [] (omega arith))
