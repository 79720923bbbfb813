-- ===== src/AutoTrigger/Examples.antt =====
-- Runs of the trigger.
use engram_mem.Base.{◌≤◌, ◌≡◌, refl, ◌↔◌, true, arith}
use engram_mem.AutoTrigger.{
  World, Reach, here, next, message, task_starts, new_world, new_trigger, on_message, start,
  after_message, after_start,
}
use engram_mem.AutoTrigger.Exclusion

-- Two messages with threshold 2: the second one triggers, and its task calls the engine.
abbrev two_messages : World
two_messages = after_message (after_message (new_world 2))

busy : World
busy = after_start two_messages

busy-Reach : Reach (new_world 2) busy
unfolding busy new_world new_trigger on_message
busy-Reach =
    next (next (next here (message (new_world 2))) (message (after_message (new_world 2))))
      (task_starts two_messages (omega arith))

busy_lem : busy.consolidating ≡ 1
unfolding busy new_world new_trigger on_message start
busy_lem = refl

Reach-exclusive_example :
    (busy.consolidating ≤ 1) × ((busy.trigger.running ≡ true) ↔ (busy.consolidating ≡ 1))
Reach-exclusive_example = Exclusion.Reach-exclusive 2 busy busy-Reach
