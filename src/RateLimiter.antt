-- ===== src/RateLimiter.antt =====
-- src/engram/rate_limiter.py: a sliding window for each tenant in a sorted set of Redis. A set is the list
-- of its scores, whose members are their texts; times are in microseconds, and a reset time in seconds.
pub mod Window
mod Examples
use Prim.Native.String.{◌++◌ as join}
use engram_mem.Base.{
  ℕ, ◌+◌, ◌-◌, ◌*◌, ◌/◌, String, Bool, true, false, not, ◌||◌, Option, none, some, List, [], ◌∷◌,
  ◌++◌, filter_by, any_of, length, ltb, leb, ◌==◌, if◌then◌else◌,
}
use engram_mem.Base.Dict.{get, put}

-- `redis` is `none` if it is not connected.
pub record RateLimiter : Type 0 where
  pub requests_per_minute : ℕ
  pub burst : ℕ
  pub fail_open : Bool
  pub redis : Option (List (String × List ℕ))

-- What fails while a request is checked.
pub data Failure : Type 0 where
  nothing : Failure
  pipeline : Failure
  removal : Failure

pub record Verdict : Type 0 where
  pub is_allowed : Bool
  pub remaining : ℕ
  pub reset_at : ℕ

abbrev pub window : ℕ
window = 60

abbrev pub micros : ℕ → ℕ
micros seconds = seconds * 1000000

abbrev pub set_at : List (String × List ℕ) → String → List ℕ
set_at sets key = elim (get sets key) [ none ↦ [] | some scores ↦ scores ]

-- `zremrangebyscore(key, 0, high)`, `high` being `now - length`, which may lie below 0.
unfoldable pub zremrangebyscore : ℕ → ℕ → List ℕ → List ℕ
zremrangebyscore now length_ scores =
    if leb length_ now then filter_by (λ t. ltb (now - length_) t) scores else scores

-- `zadd` of a member that may be there
unfoldable pub zadd : ℕ → List ℕ → List ℕ
zadd now scores = if any_of (λ t. t == now) scores then scores else scores ++ now ∷ []

unfoldable pub zrem : ℕ → List ℕ → List ℕ
zrem now scores = filter_by (λ t. not (t == now)) scores

abbrev pub limit_of : RateLimiter → ℕ
limit_of l = l.requests_per_minute + l.burst

-- The answer where Redis cannot be asked.
unfoldable pub degraded : RateLimiter → Verdict
degraded l = record { is_allowed = l.fail_open; remaining = 0; reset_at = 0 }

abbrev pub tenant_key : String → String
tenant_key tenant_id = join "engram:ratelimit:" tenant_id

-- The verdict on a set after the pipeline, and the set afterwards; `none` where the removal raises.
unfoldable pub check_set : ℕ → ℕ → Bool → List ℕ → Option Verdict × List ℕ
unfolding zremrangebyscore zadd zrem
check_set limit now removal_fails scores =
    let kept = zremrangebyscore now (micros window) scores in
    let added = zadd now kept in
    let reset_at = now / 1000000 + window in
    if leb limit (length kept)
    then if removal_fails then (none, added) else (
      some (record { is_allowed = false; remaining = 0; reset_at = reset_at }),
      zrem now added,
    )
    else (
      some (record { is_allowed = true; remaining = limit - length kept - 1; reset_at = reset_at }),
      added,
    )

abbrev pub is_removal : Failure → Bool
is_removal removal = true
is_removal _ = false

abbrev pub is_pipeline : Failure → Bool
is_pipeline pipeline = true
is_pipeline _ = false

abbrev pub verdict_or : Verdict → Option Verdict → Verdict
verdict_or default none = default
verdict_or default (some v) = v

unfoldable pub check : String → ℕ → Failure → RateLimiter → Verdict × RateLimiter
unfolding degraded check_set
check tenant_id now failure l = elim l.redis [
  | none ↦ (degraded l, l)
  | some sets ↦
      let key = tenant_key tenant_id in
      let (verdict, scores) = check_set (limit_of l) now (is_removal failure) (set_at sets key) in
      if is_pipeline failure
      then (degraded l, l)
      else (verdict_or (degraded l) verdict, record l { redis = some (put sets key scores) })
]
