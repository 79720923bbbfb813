-- ===== src/ResourceTier/Recovery.antt =====
-- Degradation by failures, recovery by time, and the length of the backoff.
use native.Mathlib.Nat.{one-le-pow}
use engram_mem.Base.{
  ℕ, ◌+◌, ◌*◌, ◌≤◌, ◌<◌, ◌≡◌, refl, String, Bool, false, none, List, [], ◌∷◌, ◌++◌, arith, length,
  count_by, All,
}
use engram_mem.ResourceTier.{
  full, basic, Failure, ResourceMonitor, is_recent, record_failure, get_tier, can_use_llm, backoff,
  draws, second, backoff_max,
}
use engram_mem.ResourceTier.Tier.{failures_at, get_tier_lem}

-- A failed call: its time, its kind and the random draw.
pub record Call : Type 0 where
  pub at : ℕ
  pub error_type : String
  pub draw : ℕ

pub record_failures : List Call → ResourceMonitor → ResourceMonitor
record_failures [] m = m
record_failures (c ∷ cs) m = record_failures cs (record_failure c.at c.error_type c.draw m)

count-append_one :
    (p : Failure → Bool) (fs : List Failure) (f : Failure)
    → count_by p (fs ++ f ∷ []) ≡ count_by p fs + count_by p (f ∷ [])
count-append_one p [] f = omega arith
count-append_one p (g ∷ fs) f = ground (arith, count-append_one p fs f)

record Same (m m' : ResourceMonitor) : Type 0 where
  threshold : m'.failure_threshold ≡ m.failure_threshold
  window : m'.window ≡ m.window
  forced : m'.forced_tier ≡ m.forced_tier

record_failures-Same : (cs : List Call) (m : ResourceMonitor) → Same m (record_failures cs m)
unfolding record_failures record_failure
record_failures-Same [] m = record { threshold = refl; window = refl; forced = refl }
record_failures-Same (c ∷ cs) m =
    let s = record_failures-Same cs (record_failure c.at c.error_type c.draw m) in
    record { threshold = s.threshold; window = s.window; forced = s.forced }

failures_at-record_failures :
    (now : ℕ) (cs : List Call) (m : ResourceMonitor)
    → All (λ c. now < c.at + m.window) cs
    → failures_at now (record_failures cs m) ≡ failures_at now m + length cs
unfolding record_failures record_failure
failures_at-record_failures now [] m h = omega arith
failures_at-record_failures now (c ∷ cs) m h =
    let f : Failure = record { at = c.at; error_type = c.error_type } in
    let step = count-append_one (is_recent now m.window) m.recent_failures f in
    let rest = failures_at-record_failures now cs (record_failure c.at c.error_type c.draw m) h.1 in
    ground (arith, step, rest, h.0)

-- As many failures as the threshold, all still within the window, bring a monitor that is not forced
-- to the basic tier, whatever their kind and order; the LLM is not used.
pub record_failures-basic :
    (now : ℕ) (cs : List Call) (m : ResourceMonitor)
    → m.forced_tier ≡ none
    → All (λ c. now < c.at + m.window) cs
    → 0 < length cs
    → m.failure_threshold ≤ length cs
    → ((get_tier now (record_failures cs m)).0 ≡ basic)
      × ((can_use_llm now (record_failures cs m)).0 ≡ false)
unfolding can_use_llm
record_failures-basic now cs m e h pos reached =
    let s = record_failures-Same cs m in
    let t : (get_tier now (record_failures cs m)).0 ≡ basic = ground (
      arith,
      get_tier_lem now (record_failures cs m),
      s.forced,
      s.threshold,
      failures_at-record_failures now cs m h,
    ) in
    (t, rw t)

count-old :
    (now window : ℕ) (fs : List Failure)
    → All (λ f. f.at + window ≤ now) fs
    → count_by (is_recent now window) fs ≡ 0
count-old now window [] h = refl
count-old now window (f ∷ fs) h = ground (arith, h.0, count-old now window fs h.1)

-- Once the window has passed over all failures, a monitor that is not forced is at full service.
pub get_tier-recovers :
    (now : ℕ) (m : ResourceMonitor)
    → m.forced_tier ≡ none
    → All (λ f. f.at + m.window ≤ now) m.recent_failures
    → (get_tier now m).0 ≡ full
get_tier-recovers now m e h =
    ground (arith, get_tier_lem now m, count-old now m.window m.recent_failures h)

mul_room : (b d D : ℕ) → d < D → b * d + b ≤ b * D
mul_room b d D h = grind arith

jitter_bounds :
    (now b d D : ℕ)
    → 0 < b
    → d < D
    → (4 * now + 3 * (b * (4 * D)) ≤ 4 * (now + b * (3 * D + 2 * d)))
      × (4 * (now + b * (3 * D + 2 * d)) < 4 * now + 5 * (b * (4 * D)))
jitter_bounds now b d D pos h = (omega arith, omega (arith, mul_room b d D h))

-- The backoff that a failure sets ends at least three quarters and less than five quarters of its
-- length after the failure, for each outcome of the random draw, and its length is at most an hour.
pub record_failure-backoff :
    (now : ℕ) (error_type : String) (draw : ℕ) (m : ResourceMonitor)
    → draw < draws
    → let length' = backoff (m.consecutive_failures + 1) * second in
      let until = (record_failure now error_type draw m).recovery_cooldown_until in
      (4 * now + 3 * length' ≤ 4 * until)
      × (4 * until < 4 * now + 5 * length')
      × (length' ≤ backoff_max * second)
unfolding record_failure
record_failure-backoff now error_type draw m h =
    let b = backoff (m.consecutive_failures + 1) in
    let bounds =
      jitter_bounds now b draw draws
        (omega (arith, one-le-pow (m.consecutive_failures + 1) 2 (omega arith))) h in
    (bounds.0, bounds.1, omega arith)
