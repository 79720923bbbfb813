-- ===== src/Scheduler/Examples.antt =====
-- Ticks of a concrete scheduler.
use engram_mem.Base.{◌+◌, ◌-◌, ◌*◌, ◌≤◌, ◌≡◌, refl, String, true, false, List, [], ◌∷◌, none, arith}
use engram_mem.Base.Dict.{get}
use engram_mem.Scheduler.{
  MemoryScheduler, ScheduledTask, Turn, completed, new_task, tick, tick_tasks, run_task, is_waiting,
  after_run, next_run_in,
}
use engram_mem.Scheduler.Spacing
use engram_mem.Scheduler.Spacing.{Tick, ticks}

all_well : String → Turn
all_well name = record { can_use_llm = true; result = completed }

abbrev cleanup : ScheduledTask
cleanup = record {
  name = "cleanup";
  interval_seconds = 10;
  requires_llm = false;
  last_run = 5;
  run_count = 1;
  last_error = none;
}

abbrev scheduler : MemoryScheduler
scheduler = record {
  tick_interval = 60;
  task_timeout = 300;
  tasks = ("cleanup", cleanup) ∷ [];
  running = true;
}

abbrev three_ticks : List Tick
three_ticks =
    record { now = 14; turns = all_well }
    ∷ record { now = 15; turns = all_well }
    ∷ record { now = 25; turns = all_well }
    ∷ []

abbrev cleanup_later : ScheduledTask
cleanup_later = record cleanup { last_run = 25; run_count = 3 }

-- A task that has never run has to wait for its interval, though the status says 0.
new_task-waits :
    (is_waiting 50 (new_task "decay" 60 false) ≡ true)
    × (next_run_in 50 (new_task "decay" 60 false) ≡ 0)
unfolding is_waiting next_run_in new_task
new_task-waits = (refl, refl)

ticks-spaced_example : (1 ≤ 3) × (5 + (3 - 1) * 10 ≤ 25)
unfolding get ticks tick tick_tasks run_task is_waiting after_run all_well
ticks-spaced_example =
    Spacing.ticks-spaced 25 three_ticks scheduler "cleanup" cleanup cleanup_later
      (omega arith, (omega arith, (omega arith, tt))) (omega arith) refl refl
