-- ===== src/Scheduler/Spacing.antt =====
-- How often a task runs.
use mathlib.Core.Option.{some-injective}
use mathlib.Core.Path.{subst}
use engram_mem.Base.{
  All, ℕ, ◌+◌, ◌-◌, ◌*◌, ◌≤◌, ◌≡◌, refl, sym, ap, ◌∙◌, String, false, not, ◌&&◌, some, List, [],
  ◌∷◌, arith, str_eq, inl, inr, Bool-cases,
}
use engram_mem.Base.Dict.{get}
use engram_mem.Scheduler.{
  ScheduledTask, RunResult, completed, timed_out, raised, MemoryScheduler, is_waiting, after_run,
  Turn, run_task, tick_tasks, tick,
}

-- A tick: its time and what each task meets.
pub record Tick : Type 0 where
  pub now : ℕ
  pub turns : String → Turn

unfoldable pub ticks : List Tick → MemoryScheduler → MemoryScheduler
ticks [] s = s
ticks (t ∷ ts) s = ticks ts (tick t.now t.turns s)

-- `later` is the task after `runs` more runs, each at least its interval after the one before.
pub record IsSpaced (limit runs : ℕ) (earlier later : ScheduledTask) : Type 0 where
  pub counted : later.run_count ≡ earlier.run_count + runs
  pub interval : later.interval_seconds ≡ earlier.interval_seconds
  pub spaced : earlier.last_run + runs * earlier.interval_seconds ≤ later.last_run
  pub within : earlier.last_run ≤ limit → later.last_run ≤ limit

no_run : (limit : ℕ) (task : ScheduledTask) → IsSpaced limit 0 task task
no_run limit task = record {
  counted = omega arith;
  interval = refl;
  spaced = omega arith;
  within = λ h. h;
}

after_run_lem :
    (limit now task_timeout : ℕ) (result : RunResult) (task : ScheduledTask)
    → now ≤ limit
    → is_waiting now task ≡ false
    → (runs : ℕ) × IsSpaced limit runs task (after_run now task_timeout result task)
unfolding after_run is_waiting
after_run_lem limit now task_timeout completed task le h =
    (1, record { counted = refl; interval = refl; spaced = ground (arith, h); within = λ k. le })
after_run_lem limit now task_timeout timed_out task le h =
    (0, record { counted = omega arith; interval = refl; spaced = omega arith; within = λ k. k })
after_run_lem limit now task_timeout (raised message) task le h =
    (0, record { counted = omega arith; interval = refl; spaced = omega arith; within = λ k. k })

run_task_lem :
    (limit now task_timeout : ℕ) (turn : Turn) (task : ScheduledTask)
    → now ≤ limit
    → (runs : ℕ) × IsSpaced limit runs task (run_task now task_timeout turn task)
unfolding run_task
run_task_lem limit now task_timeout turn task le = elim (Bool-cases (is_waiting now task)) [
  | inl e ↦ rw e (0, no_run limit task)
  | inr e ↦ elim (Bool-cases (task.requires_llm && not turn.can_use_llm)) [
    | inl l ↦ rw (e, l) (0, no_run limit task)
    | inr l ↦ rw (e, l) (after_run_lem limit now task_timeout turn.result task le e)
  ]
]

distribute : (m n i : ℕ) → (m + n) * i ≡ m * i + n * i
distribute m n i = grind arith

IsSpaced-trans :
    (limit m n : ℕ) (a b c : ScheduledTask)
    → IsSpaced limit m a b
    → IsSpaced limit n b c
    → IsSpaced limit (m + n) a c
IsSpaced-trans limit m n a b c h k = record {
  counted = omega (arith, h.counted, k.counted);
  interval = k.interval ∙ h.interval;
  spaced =
      omega
        (arith, h.spaced, k.spaced, ap (λ i. n * i) h.interval, distribute m n a.interval_seconds);
  within = λ le. k.within (h.within le);
}

tick_tasks_lem :
    (now task_timeout : ℕ) (turns : String → Turn) (tasks : List (String × ScheduledTask))
    (name : String) (task : ScheduledTask)
    → get tasks name ≡ some task
    → (turn : Turn) × (get (tick_tasks now task_timeout turns tasks) name
        ≡ some (run_task now task_timeout turn task))
unfolding get tick_tasks
tick_tasks_lem now task_timeout turns [] name task h = absurd (ground arith)
tick_tasks_lem now task_timeout turns ((here, t) ∷ tasks) name task h =
    elim (Bool-cases (str_eq here name)) [
      | inl e ↦ (
        turns t.name,
        rw e (
            ap (λ x. some (run_task now task_timeout (turns t.name) x))
              (some-injective t task (ground (arith, e, h)))),
      )
      | inr e ↦ rw e (tick_tasks_lem now task_timeout turns tasks name task (ground (arith, e, h)))
    ]

ticks_lem :
    (limit : ℕ) (ts : List Tick) (s : MemoryScheduler) (name : String) (task later : ScheduledTask)
    → All (λ t. t.now ≤ limit) ts
    → get s.tasks name ≡ some task
    → get (ticks ts s).tasks name ≡ some later
    → (runs : ℕ) × IsSpaced limit runs task later
unfolding ticks tick
ticks_lem limit [] s name task later le h k =
    (0, subst (IsSpaced limit 0 task) (some-injective task later (sym h ∙ k)) (no_run limit task))
ticks_lem limit (t ∷ ts) s name task later le h k =
    let (turn, found) = tick_tasks_lem t.now s.task_timeout t.turns s.tasks name task h in
    let next = run_task t.now s.task_timeout turn task in
    let (m, first) = run_task_lem limit t.now s.task_timeout turn task le.0 in
    let (n, rest) = ticks_lem limit ts (tick t.now t.turns s) name next later le.1 found k in
    (m + n, IsSpaced-trans limit m n task next later first rest)

add_minus : (a n : ℕ) → (a + n) - a ≡ n
add_minus a n = omega arith

-- However ticks come and however runs end, a task succeeds no more often than its interval allows:
-- the successes between two moments, each counted as one interval, fit between the last success
-- before them and the time of the last tick.
pub ticks-spaced :
    (limit : ℕ) (ts : List Tick) (s : MemoryScheduler) (name : String) (task later : ScheduledTask)
    → All (λ t. t.now ≤ limit) ts
    → task.last_run ≤ limit
    → get s.tasks name ≡ some task
    → get (ticks ts s).tasks name ≡ some later
    → (task.run_count ≤ later.run_count)
      × (task.last_run + (later.run_count - task.run_count) * task.interval_seconds ≤ limit)
ticks-spaced limit ts s name task later le start h k =
    let (runs, spaced) = ticks_lem limit ts s name task later le h k in
    (
      omega (arith, spaced.counted),
      rw (spaced.counted, add_minus task.run_count runs)
          (omega (arith, spaced.spaced, spaced.within start)),
    )
