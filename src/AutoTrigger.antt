-- ===== src/AutoTrigger.antt =====
-- src/engram/consolidation/auto_trigger.py: consolidation after so many messages. A task that the
-- event loop has created waits, runs up to the `await` of the engine, and ends when that returns or
-- raises: `start` and `finish` are these two parts of `_run_background`, and the steps interleave
-- them with messages and resets in any order.
pub mod Counting
pub mod Exclusion
mod Examples
use engram_mem.Base.{ℕ, ◌+◌, ◌-◌, ◌<◌, ◌≡◌, Bool, true, false, leb, if◌then◌else◌}

pub record AutoConsolidationTrigger : Type 0 where
  pub auto_trigger_threshold : ℕ
  pub message_count : ℕ
  pub running : Bool

unfoldable pub new_trigger : ℕ → AutoConsolidationTrigger
new_trigger threshold = record {
  auto_trigger_threshold = threshold;
  message_count = 0;
  running = false;
}

-- Whether a task is created, and the trigger afterwards.
unfoldable pub on_message : AutoConsolidationTrigger → Bool × AutoConsolidationTrigger
on_message t =
    if leb t.auto_trigger_threshold (t.message_count + 1)
    then (true, record t { message_count = 0 })
    else (false, record t { message_count = t.message_count + 1 })

-- The first part of `_run_background`: whether the engine is called.
unfoldable pub start : AutoConsolidationTrigger → Bool × AutoConsolidationTrigger
start t = if t.running then (false, t) else (true, record t { running = true })

-- The `finally` block, after a result as well as after an exception.
unfoldable pub finish : AutoConsolidationTrigger → AutoConsolidationTrigger
finish t = record t { running = false }

unfoldable pub reset : AutoConsolidationTrigger → AutoConsolidationTrigger
reset t = record t { message_count = 0 }

-- The trigger with the event loop's tasks: those that have not begun and those inside the engine.
pub record World : Type 0 where
  pub trigger : AutoConsolidationTrigger
  pub waiting : ℕ
  pub consolidating : ℕ

abbrev pub bit : Bool → ℕ
bit true = 1
bit false = 0

abbrev pub after_message : World → World
after_message w = record {
  trigger = (on_message w.trigger).1;
  waiting = w.waiting + bit (on_message w.trigger).0;
  consolidating = w.consolidating;
}

abbrev pub after_start : World → World
after_start w = record {
  trigger = (start w.trigger).1;
  waiting = w.waiting - 1;
  consolidating = w.consolidating + bit (start w.trigger).0;
}

abbrev pub after_finish : World → World
after_finish w = record {
  trigger = finish w.trigger;
  waiting = w.waiting;
  consolidating = w.consolidating - 1;
}

pub data Step : World → World → Type 0 where
  message : (w : World) → Step w (after_message w)
  task_starts : (w : World) → 0 < w.waiting → Step w (after_start w)
  task_ends : (w : World) → 0 < w.consolidating → Step w (after_finish w)
  is_reset : (w : World) → Step w (record w { trigger = reset w.trigger })

pub data Reach (u : World) : World → Type 0 where
  here : Reach u u
  next : {v w : World} → Reach u v → Step v w → Reach u w

-- No task, and no message yet.
unfoldable pub new_world : ℕ → World
new_world threshold = record { trigger = new_trigger threshold; waiting = 0; consolidating = 0 }
