-- ===== src/RateLimiter/Examples.antt =====
-- Requests under a limit of two.
use engram_mem.Base.{ℕ, ◌+◌, ◌-◌, ◌≤◌, ◌≡◌, refl, false, some, List, [], ◌∷◌, count_by, arith}
use engram_mem.Base.Dict.{get, put}
use engram_mem.RateLimiter.{RateLimiter, micros, check}
use engram_mem.RateLimiter.Window
use engram_mem.RateLimiter.Window.{allowed_at, IsIncreasing, since, last_of}

abbrev limiter : RateLimiter
limiter = record { requests_per_minute = 1; burst = 1; fail_open = false; redis = some [] }

abbrev times : List ℕ
times = 60000001 ∷ 60000002 ∷ 60000003 ∷ []

increasing : IsIncreasing (micros 60) times
unfolding IsIncreasing
increasing = (omega arith, (omega arith, (omega arith, tt)))

allowed_at-IsLimited_example :
    count_by (since (last_of (micros 60) times - micros 60)) (allowed_at "t" times [] limiter)
    ≤ 1 + 1
unfolding get
allowed_at-IsLimited_example = Window.allowed_at-IsLimited "t" times limiter [] refl refl increasing

-- The third request is refused.
third_refused : allowed_at "t" times [] limiter ≡ 60000002 ∷ 60000001 ∷ []
unfolding allowed_at check get put
third_refused = refl

-- Requests at the same instant share their member, so that all of them are allowed.
same_instant :
    allowed_at "t" (60000001 ∷ 60000001 ∷ 60000001 ∷ 60000001 ∷ []) [] limiter
    ≡ 60000001 ∷ 60000001 ∷ 60000001 ∷ 60000001 ∷ []
unfolding allowed_at check get put
same_instant = refl
