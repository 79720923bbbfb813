-- ===== src/Scheduler.antt =====
-- src/engram/scheduler.py: the periodic tasks. Times are natural numbers on the monotonic clock. What a
-- task does when it runs, and whether the LLM may be used at that moment, are arguments of a tick.
pub mod Spacing
mod Examples
use Prim.Native.String.{slice}
use engram_mem.Base.Texts.{prefix}
use engram_mem.Base.{
  ℕ, ◌+◌, ◌-◌, max, String, Bool, true, false, not, ◌&&◌, Option, none, some, List, [], ◌∷◌, map,
  ltb, str_eq, if◌then◌else◌,
}
use engram_mem.Base.Dict.{put}

pub data RunError : Type 0 where
  timeout : ℕ → RunError
  failed : String → RunError

pub record ScheduledTask : Type 0 where
  pub name : String
  pub interval_seconds : ℕ
  pub requires_llm : Bool
  pub last_run : ℕ
  pub run_count : ℕ
  pub last_error : Option RunError

-- How a task that runs ends.
pub data RunResult : Type 0 where
  completed timed_out : RunResult
  raised : String → RunResult

pub record MemoryScheduler : Type 0 where
  pub tick_interval : ℕ
  pub task_timeout : ℕ
  pub tasks : List (String × ScheduledTask)
  pub running : Bool

unfoldable pub new_scheduler : ℕ → ℕ → MemoryScheduler
new_scheduler tick_interval task_timeout = record {
  tick_interval = tick_interval;
  task_timeout = task_timeout;
  tasks = [];
  running = false;
}

unfoldable pub new_task : String → ℕ → Bool → ScheduledTask
new_task name interval_seconds requires_llm = record {
  name = name;
  interval_seconds = interval_seconds;
  requires_llm = requires_llm;
  last_run = 0;
  run_count = 0;
  last_error = none;
}

unfoldable pub register : String → ℕ → Bool → MemoryScheduler → MemoryScheduler
register name interval_seconds requires_llm s = record s {
  tasks = put s.tasks name (new_task name interval_seconds requires_llm);
}

-- Whether the loop is begun, and the scheduler afterwards; `loaded` are the tasks with the state of
-- the file.
unfoldable pub start_scheduler :
    (List (String × ScheduledTask) → List (String × ScheduledTask))
    → MemoryScheduler
    → Bool × MemoryScheduler
start_scheduler loaded s =
    if s.running then (false, s) else (true, record s { running = true; tasks = loaded s.tasks })

unfoldable pub stop_scheduler : MemoryScheduler → MemoryScheduler
stop_scheduler s = record s { running = false }

-- `elapsed < task.interval_seconds`
unfoldable pub is_waiting : ℕ → ScheduledTask → Bool
is_waiting now task = ltb now (task.last_run + task.interval_seconds)

-- The task after it has run; a message is cut to 200 characters.
unfoldable pub after_run : ℕ → ℕ → RunResult → ScheduledTask → ScheduledTask
unfolding prefix
after_run now task_timeout completed task = record task {
  last_run = now;
  run_count = task.run_count + 1;
  last_error = none;
}
after_run now task_timeout timed_out task = record task { last_error = some (timeout task_timeout) }
after_run now task_timeout (raised message) task = record task {
  last_error = some (failed (prefix 200 message));
}

-- What one task meets in a tick.
pub record Turn : Type 0 where
  pub can_use_llm : Bool
  pub result : RunResult

unfoldable pub run_task : ℕ → ℕ → Turn → ScheduledTask → ScheduledTask
run_task now task_timeout turn task =
    if is_waiting now task
    then task
    else if task.requires_llm && not turn.can_use_llm
    then task
    else after_run now task_timeout turn.result task

unfoldable pub tick_tasks :
    ℕ → ℕ → (String → Turn) → List (String × ScheduledTask) → List (String × ScheduledTask)
tick_tasks now task_timeout turns [] = []
tick_tasks now task_timeout turns ((name, task) ∷ tasks) =
    (name, run_task now task_timeout (turns task.name) task)
    ∷ tick_tasks now task_timeout turns tasks

unfoldable pub tick : ℕ → (String → Turn) → MemoryScheduler → MemoryScheduler
tick now turns s = record s { tasks = tick_tasks now s.task_timeout turns s.tasks }

-- `next_run_in` of the status, before rounding.
unfoldable pub next_run_in : ℕ → ScheduledTask → ℕ
next_run_in now task =
    if ltb 0 task.last_run then task.interval_seconds - (now - task.last_run) else 0
