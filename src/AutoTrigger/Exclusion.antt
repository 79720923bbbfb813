-- ===== src/AutoTrigger/Exclusion.antt =====
-- At most one consolidation runs.
use engram_mem.Base.{ℕ, ◌+◌, ◌≤◌, ◌≡◌, refl, true, arith, ◌↔◌, zero, suc, dec_lt}
use engram_mem.AutoTrigger.{
  AutoConsolidationTrigger, on_message, start, finish, reset, World, bit, after_start, after_finish,
  Step, message, task_starts, task_ends, is_reset, Reach, here, next, new_trigger, new_world,
}

-- The flag counts the consolidations that run.
abbrev pub IsExclusive : World → Type 0
IsExclusive w = w.consolidating ≡ bit w.trigger.running

on_message-running : (t : AutoConsolidationTrigger) → (on_message t).1.running ≡ t.running
unfolding on_message
on_message-running t = ground arith

start_lem :
    (t : AutoConsolidationTrigger) → bit t.running + bit (start t).0 ≡ bit (start t).1.running
unfolding start
start_lem t = ground arith

Step-IsExclusive : {u v : World} → Step u v → IsExclusive u → IsExclusive v
unfolding finish reset
Step-IsExclusive (message u) h = ground (arith, on_message-running u.trigger)
Step-IsExclusive (task_starts u waits) h = omega (arith, start_lem u.trigger, h)
Step-IsExclusive (task_ends u runs) h = ground (arith, h, runs)
Step-IsExclusive (is_reset u) h = h

Reach-IsExclusive : {u v : World} → IsExclusive u → Reach u v → IsExclusive v
Reach-IsExclusive h here = h
Reach-IsExclusive h (next r step) = Step-IsExclusive step (Reach-IsExclusive h r)

-- However messages, resets and the tasks interleave, at most one consolidation runs at a time, and
-- the flag is up exactly while one does: it never stays up behind a consolidation that has ended.
pub Reach-exclusive :
    (threshold : ℕ) (w : World)
    → Reach (new_world threshold) w
    → (w.consolidating ≤ 1) × ((w.trigger.running ≡ true) ↔ (w.consolidating ≡ 1))
unfolding new_world new_trigger
Reach-exclusive threshold w r =
    let h : IsExclusive w = Reach-IsExclusive refl r in ground (arith, h)

append-Reach : {u v w : World} → Reach u v → Reach v w → Reach u w
append-Reach r here = r
append-Reach r (next r' step) = next (append-Reach r r') step

clear :
    (u : World)
    → IsExclusive u
    → (v : World) × Reach u v × (v.consolidating ≡ 0) × (v.waiting ≡ u.waiting)
clear u h = elim (dec_lt 0 u.consolidating) [
  | yes runs ↦
      let at_most : u.consolidating ≤ 1 = ground (arith, h) in
      (after_finish u, next here (task_ends u runs), omega arith, refl)
  | no idle ↦ (u, here, omega arith, refl)
]

settle :
    (n : ℕ) (u : World)
    → u.waiting ≡ n
    → IsExclusive u
    → (v : World) × Reach u v × (v.waiting ≡ 0) × (v.consolidating ≡ 0)
settle zero u e h = let (v, r, c, w) = clear u h in (v, r, omega arith, c)
settle (suc n) u e h =
    let (v, r, c, w) = clear u h in
    let begun = next r (task_starts v (omega arith)) in
    let (x, r', q, q') = settle n (after_start v) (omega arith) (Reach-IsExclusive h begun) in
    (x, append-Reach begun r', q, q')

-- No state is stuck: from wherever messages, resets and tasks have led, the event loop can reach a
-- state in which no task waits and no consolidation runs.
pub Reach-settles :
    (threshold : ℕ) (w : World)
    → Reach (new_world threshold) w
    → (v : World) × Reach w v × (v.waiting ≡ 0) × (v.consolidating ≡ 0)
unfolding new_world new_trigger
Reach-settles threshold w r = settle w.waiting w refl (Reach-IsExclusive refl r)
