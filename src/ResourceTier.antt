-- ===== src/ResourceTier.antt =====
-- src/engram/resource_tier.py: the monitor of LLM calls. A second is 4 * draws units of time, where
-- `random.random()` is one of `draws` equally spaced fractions, so that the jitter is exact.
-- Comparisons with `now - d` are written with `+` on the other side.
pub mod Tier
pub mod Recovery
mod Examples
use engram_mem.Base.{
  ℕ, ◌+◌, ◌-◌, ◌*◌, ◌^◌, min, String, Bool, true, false, not, ◌&&◌, ◌||◌, Option, none, some, List,
  [], ◌∷◌, ◌++◌, length, filter_by, count_by, ltb, leb, ◌==◌, str_eq, if◌then◌else◌,
}

pub data ResourceTier : Type 0 where
  full standard basic readonly : ResourceTier

abbrev pub draws : ℕ
draws = 2 ^ 53

abbrev pub second : ℕ
second = 4 * draws

abbrev pub backoff_base : ℕ
backoff_base = 2

abbrev pub backoff_max : ℕ
backoff_max = 3600

pub record Failure : Type 0 where
  pub at : ℕ
  pub error_type : String

pub record ResourceMonitor : Type 0 where
  pub failure_threshold : ℕ
  pub cooldown : ℕ
  pub window : ℕ
  pub recent_failures : List Failure
  pub last_success : ℕ
  pub forced_tier : Option ResourceTier
  pub consecutive_failures : ℕ
  pub recovery_cooldown_until : ℕ

unfoldable pub new_monitor : ℕ → ℕ → ℕ → ℕ → ResourceMonitor
new_monitor failure_threshold cooldown_seconds window_seconds now = record {
  failure_threshold = failure_threshold;
  cooldown = cooldown_seconds * second;
  window = window_seconds * second;
  recent_failures = [];
  last_success = now;
  forced_tier = none;
  consecutive_failures = 0;
  recovery_cooldown_until = 0;
}

unfoldable pub record_success : ℕ → ResourceMonitor → ResourceMonitor
record_success now m = record m {
  last_success = now;
  consecutive_failures = 0;
  recovery_cooldown_until = 0;
}

-- The backoff of `k` failures in a row, in seconds.
abbrev pub backoff : ℕ → ℕ
backoff k = min (backoff_base ^ k) backoff_max

-- `backoff + backoff * 0.25 * (2 * r - 1)` for `r = draw / draws`, in units of time
abbrev pub jittered : ℕ → ℕ → ℕ
jittered seconds draw = seconds * (3 * draws + 2 * draw)

unfoldable pub record_failure : ℕ → String → ℕ → ResourceMonitor → ResourceMonitor
record_failure now error_type draw m =
    let failures = m.consecutive_failures + 1 in
    record m {
      recent_failures = m.recent_failures ++ record { at = now; error_type = error_type } ∷ [];
      consecutive_failures = failures;
      recovery_cooldown_until = now + jittered (backoff failures) draw;
    }

unfoldable pub force_tier : Option ResourceTier → ResourceMonitor → ResourceMonitor
force_tier tier m = record m { forced_tier = tier }

-- `t > now - window`
abbrev pub is_recent : ℕ → ℕ → Failure → Bool
is_recent now window f = ltb now (f.at + window)

abbrev pub is_quota : Failure → Bool
is_quota f = str_eq f.error_type "rate_limit" || str_eq f.error_type "quota"

-- The time of `self._recent_failures[-1]`
abbrev pub last_at : ℕ → List Failure → ℕ
last_at t [] = t
last_at t (f ∷ fs) = last_at f.at fs

-- The early return of the cooldown block.
unfoldable pub is_recovering : ℕ → List Failure → ResourceMonitor → Bool
is_recovering now recent m =
    if ltb now m.recovery_cooldown_until
    then false
    else ltb (last_at 0 recent + m.cooldown) now && ltb (length recent) m.failure_threshold

unfoldable pub tier_of : ℕ → List Failure → ResourceMonitor → ResourceTier
unfolding is_recovering
tier_of now recent m =
    let failure_count = length recent in
    if failure_count == 0
    then full
    else if is_recovering now recent m
    then standard
    else if leb m.failure_threshold (count_by is_quota recent)
    then basic
    else if leb m.failure_threshold failure_count
    then basic
    else standard

-- The tier, and the monitor with the old failures pruned.
unfoldable pub get_tier : ℕ → ResourceMonitor → ResourceTier × ResourceMonitor
get_tier now m =
    let recent = filter_by (is_recent now m.window) m.recent_failures in
    elim m.forced_tier [
      | some tier ↦ (tier, m)
      | none ↦ (tier_of now recent m, record m { recent_failures = recent })
    ]

abbrev pub uses_llm : ResourceTier → Bool
uses_llm full = true
uses_llm standard = true
uses_llm _ = false

abbrev pub is_readonly : ResourceTier → Bool
is_readonly readonly = true
is_readonly _ = false

unfoldable pub can_use_llm : ℕ → ResourceMonitor → Bool × ResourceMonitor
can_use_llm now m = let (tier, m') = get_tier now m in (uses_llm tier, m')

unfoldable pub can_write : ℕ → ResourceMonitor → Bool × ResourceMonitor
can_write now m = let (tier, m') = get_tier now m in (not (is_readonly tier), m')

-- The diagnostics; `since_success` is in units of time, before rounding.
pub record MonitorStatus : Type 0 where
  pub tier : ResourceTier
  pub recent : ℕ
  pub threshold : ℕ
  pub since_success : ℕ
  pub forced : Option ResourceTier

unfoldable pub status : ℕ → ResourceMonitor → MonitorStatus × ResourceMonitor
status now m =
    let (tier, m') = get_tier now m in
    (
      record {
        tier = tier;
        recent = count_by (is_recent now m.window) m.recent_failures;
        threshold = m.failure_threshold;
        since_success = now - m.last_success;
        forced = m.forced_tier;
      },
      m',
    )
