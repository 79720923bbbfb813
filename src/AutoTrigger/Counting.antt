-- ===== src/AutoTrigger/Counting.antt =====
-- How often messages trigger a consolidation.
use engram_mem.Base.{ℕ, zero, suc, ◌+◌, ◌*◌, ◌<◌, ◌≡◌, refl, arith}
use engram_mem.AutoTrigger.{AutoConsolidationTrigger, on_message, bit, new_trigger}

-- `n` messages in a row: the number of times that one triggered, and the trigger afterwards.
unfoldable pub messages : ℕ → AutoConsolidationTrigger → ℕ × AutoConsolidationTrigger
messages zero t = (0, t)
messages (suc n) t =
    let (fired, t') = on_message t in let (count, t'') = messages n t' in (bit fired + count, t'')

on_message_lem :
    (t : AutoConsolidationTrigger)
    → t.message_count < t.auto_trigger_threshold
    → let (fired, t') = on_message t in
      (t'.auto_trigger_threshold ≡ t.auto_trigger_threshold)
      × (t'.message_count < t.auto_trigger_threshold)
      × (bit fired * t.auto_trigger_threshold + t'.message_count ≡ t.message_count + 1)
unfolding on_message
on_message_lem t h = ground arith

add_times :
    (a a' b c m m' m'' n : ℕ)
    → a' ≡ a
    → b * a + m' ≡ m + 1
    → c * a' + m'' ≡ m' + n
    → (b + c) * a + m'' ≡ m + suc n
add_times a a' b c m m' m'' n e one rest = grind arith

messages_lem :
    (n : ℕ) (t : AutoConsolidationTrigger)
    → t.message_count < t.auto_trigger_threshold
    → let (count, t') = messages n t in
      (t'.auto_trigger_threshold ≡ t.auto_trigger_threshold)
      × (t'.message_count < t.auto_trigger_threshold)
      × (count * t.auto_trigger_threshold + t'.message_count ≡ t.message_count + n)
unfolding messages
messages_lem zero t h = (refl, h, omega arith)
messages_lem (suc n) t h =
    let one = on_message_lem t h in
    let t' = (on_message t).1 in
    let rest = messages_lem n t' (omega (arith, one.0, one.1)) in
    (
      omega (arith, rest.0, one.0),
      omega (arith, rest.1, one.0),
      add_times t.auto_trigger_threshold t'.auto_trigger_threshold (bit (on_message t).0)
          (messages n t').0 t.message_count t'.message_count (messages n t').1.message_count n one.0
          one.2 rest.2,
    )

-- Messages trigger one consolidation for each full threshold: `n` messages after a start trigger
-- `n` divided by the threshold, and the remainder is what the counter shows.
pub messages-count :
    (threshold n : ℕ)
    → 0 < threshold
    → let (count, t) = messages n (new_trigger threshold) in
      (count * threshold + t.message_count ≡ n) × (t.message_count < threshold)
unfolding new_trigger
messages-count threshold n pos =
    let h = messages_lem n (new_trigger threshold) pos in (omega (arith, h.2), h.1)
