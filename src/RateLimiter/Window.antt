-- ===== src/RateLimiter/Window.antt =====
-- The requests of one tenant that `check` of src/engram/rate_limiter.py allows.
use engram_mem.Base.{
  ℕ, ◌+◌, ◌-◌, ◌≤◌, ◌<◌, ◌≡◌, refl, sym, ◌∙◌, ap, inl, inr, String, Bool, false, none, some, List,
  [], ◌∷◌, ◌++◌, filter_by, any_of, count_by, length, ltb, leb, le→leb, gt→leb, length-append,
  dec_le, ◌==◌, arith, str_eq, str_eq_iff, str_eq_refl, if◌then◌else◌, Bool-cases, All,
}
use mathlib.Core.Path.{subst}
use engram_mem.Base.Dict.{get, put, get-put}
use engram_mem.Base.Members.{All-append, All-filter_map, All-impl}
use text.Mathlib.TextLemmas.{append_cancel_left}
use engram_mem.RateLimiter.{
  is_pipeline, RateLimiter, Verdict, Failure, nothing, degraded, micros, window, set_at,
  zremrangebyscore, zadd, zrem, limit_of, tenant_key, check_set, verdict_or, check,
}

-- The times of the requests that are allowed, the last one first, when a tenant asks at these times and
-- nothing fails.
unfoldable pub allowed_at : String → List ℕ → List ℕ → RateLimiter → List ℕ
allowed_at tenant_id [] history l = history
allowed_at tenant_id (now ∷ times) history l =
    let (verdict, l') = check tenant_id now nothing l in
    allowed_at tenant_id times (if verdict.is_allowed then now ∷ history else history) l'

-- Each time lies after the one before, the first one after `last`.
unfoldable pub IsIncreasing : ℕ → List ℕ → Type 0
IsIncreasing last [] = Unit
IsIncreasing last (t ∷ times) = (last < t) × IsIncreasing t times

abbrev pub since : ℕ → ℕ → Bool
since w t = ltb w t

-- The set of a tenant has the allowed requests of the window.
record IsWindow (limit last : ℕ) (history scores : List ℕ) : Type 0 where
  agrees :
      (w : ℕ) → last - micros window ≤ w → count_by (since w) history ≡ count_by (since w) scores
  earlier : All (λ t. t ≤ last) scores
  few : length scores ≤ limit

count-kept :
    (w low : ℕ) (scores : List ℕ)
    → low ≤ w
    → count_by (since w) (filter_by (since low) scores) ≡ count_by (since w) scores
count-kept w low [] h = refl
count-kept w low (t ∷ scores) h = ground (arith, count-kept w low scores h, h)

count-append_one :
    (w now : ℕ) (scores : List ℕ)
    → count_by (since w) (scores ++ now ∷ []) ≡ count_by (since w) (now ∷ scores)
count-append_one w now [] = refl
count-append_one w now (t ∷ scores) = ground (arith, count-append_one w now scores)

-- A time that is later than all of the set is added to it, and its removal undoes that.
absent :
    (now : ℕ) (scores : List ℕ) → All (λ t. t < now) scores → any_of (λ t. t == now) scores ≡ false
absent now [] h = refl
absent now (t ∷ scores) h = ground (arith, absent now scores h.1, h.0)

zadd-new :
    (now : ℕ) (scores : List ℕ) → All (λ t. t < now) scores → zadd now scores ≡ scores ++ now ∷ []
unfolding zadd
zadd-new now scores h = rw (absent now scores h, zadd) refl

zrem-append :
    (now : ℕ) (scores : List ℕ) → All (λ t. t < now) scores → zrem now (scores ++ now ∷ []) ≡ scores
unfolding zrem
zrem-append now [] h = ground arith
zrem-append now (t ∷ scores) h = ground (arith, zrem-append now scores h.1, h.0)

length-kept : (low : ℕ) (scores : List ℕ) → length (filter_by (since low) scores) ≤ length scores
length-kept low [] = omega arith
length-kept low (t ∷ scores) = ground (arith, length-kept low scores)

All-kept :
    (low now : ℕ) (scores : List ℕ)
    → All (λ t. t < now) scores
    → All (λ t. t < now) (filter_by (since low) scores)
All-kept low now scores h = All-filter_map _ (λ t p q. q) scores h

count-le-length : (p : ℕ → Bool) (xs : List ℕ) → count_by p xs ≤ length xs
count-le-length p [] = omega arith
count-le-length p (x ∷ xs) = ground (arith, count-le-length p xs)

count-none : (w now : ℕ) (scores : List ℕ) → All (λ t. t ≤ w) scores → count_by (since w) scores ≡ 0
count-none w now [] h = refl
count-none w now (t ∷ scores) h = ground (arith, count-none w now scores h.1, h.0)

-- One check, with the set before and after it.
check_set-IsWindow :
    (limit last now : ℕ) (history scores : List ℕ)
    → micros window ≤ last
    → last < now
    → IsWindow limit last history scores
    → let low = now - micros window in
      let kept = filter_by (since low) scores in
      let is_full = leb limit (length kept) in
      IsWindow limit now
        (if is_full then history else now ∷ history)
        (if is_full then kept else kept ++ now ∷ [])
check_set-IsWindow limit last now history scores old later h =
    let low = now - micros window in
    let kept = filter_by (since low) scores in
    elim (dec_le limit (length kept)) [
      | yes full ↦ rw (le→leb limit (length kept) full) (record {
        agrees = λ w q. h.agrees w (omega (arith, q, later, old)) ∙ sym (count-kept w low scores q);
        earlier =
            All-impl (λ t q. omega (arith, q, later)) kept
              (All-filter_map _ (λ t p q. q) scores h.earlier);
        few = omega (arith, length-kept low scores, h.few);
      })
      | no free ↦ rw (gt→leb limit (length kept) free) (record {
        agrees = λ w q. ground (
          arith,
          h.agrees w (omega (arith, q, later, old)),
          count-kept w low scores q,
          count-append_one w now kept,
        );
        earlier =
            All-append _ kept (now ∷ [])
              (All-impl (λ t q. omega (arith, q, later)) kept
                (All-filter_map _ (λ t p q. q) scores h.earlier))
              (omega arith, tt);
        few = omega (arith, length-append kept (now ∷ []), free);
      })
    ]

zremrangebyscore_lem :
    (now : ℕ) (scores : List ℕ)
    → micros window ≤ now
    → zremrangebyscore now (micros window) scores ≡ filter_by (since (now - micros window)) scores
unfolding zremrangebyscore
zremrangebyscore_lem now scores h = rw (le→leb (micros window) now h, zremrangebyscore) refl

-- The verdict on a set and the set afterwards, where nothing fails.
check_set_lem :
    (limit last now : ℕ) (history scores : List ℕ) (default : Verdict)
    → micros window ≤ last
    → last < now
    → IsWindow limit last history scores
    → let (verdict, scores') = check_set limit now false scores in
      IsWindow limit now
        (if (verdict_or default verdict).is_allowed then now ∷ history else history)
        scores'
unfolding check_set
check_set_lem limit last now history scores default old later h =
    let kept = filter_by (since (now - micros window)) scores in
    let next = check_set-IsWindow limit last now history scores old later h in
    let before =
      All-kept (now - micros window) now scores
        (All-impl (λ t q. omega (arith, q, later)) scores h.earlier) in
    let drop_old = zremrangebyscore_lem now scores (omega (arith, old, later)) in
    let add_now = zadd-new now kept before in
    elim (Bool-cases (leb limit (length kept))) [
      | inl e ↦
          rw (drop_old, e, add_now, zrem-append now kept before)
            (subst
              (λ b.
                IsWindow limit now (if b then history else now ∷ history)
                  (if b then kept else kept ++ now ∷ []))
              e next)
      | inr e ↦
          rw (drop_old, e, add_now)
            (subst
              (λ b.
                IsWindow limit now (if b then history else now ∷ history)
                  (if b then kept else kept ++ now ∷ []))
              e next)
    ]

set_at-put :
    (sets : List (String × List ℕ)) (key : String) (scores : List ℕ)
    → set_at (put sets key scores) key ≡ scores
set_at-put sets key scores = ground (arith, get-put sets key scores key, str_eq_refl key)

-- Where the limiter stands after requests of the tenant.
record Tracks (tenant_id : String) (limit last : ℕ) (history : List ℕ) (l : RateLimiter)
    : Type 0 where
  same_limit : limit_of l ≡ limit
  sets : List (String × List ℕ)
  connected : l.redis ≡ some sets
  tracked : IsWindow limit last history (set_at sets (tenant_key tenant_id))

check-Tracks :
    (tenant_id : String) (limit last now : ℕ) (history : List ℕ) (l : RateLimiter)
    → micros window ≤ last
    → last < now
    → Tracks tenant_id limit last history l
    → let (verdict, l') = check tenant_id now nothing l in
      Tracks tenant_id limit now (if verdict.is_allowed then now ∷ history else history) l'
unfolding check
check-Tracks tenant_id limit last now history l old later h =
    let key = tenant_key tenant_id in
    let scores = set_at h.sets key in
    let answer = check_set (limit_of l) now false scores in
    rw (h.connected, check)
      (record {
        same_limit = h.same_limit;
        sets = put h.sets key answer.1;
        connected = refl;
        tracked = subst (IsWindow limit now _) (sym (set_at-put h.sets key answer.1)) (
            subst
              (λ n.
                let (verdict, scores') = check_set n now false scores in
                IsWindow limit now
                  (if (verdict_or (degraded l) verdict).is_allowed then now ∷ history else history)
                  scores')
              (sym h.same_limit)
              (check_set_lem limit last now history scores (degraded l) old later h.tracked));
      })

-- The time of the last request.
abbrev pub last_of : ℕ → List ℕ → ℕ
last_of last [] = last
last_of last (t ∷ times) = last_of t times

allowed_at-few :
    (tenant_id : String) (limit last : ℕ) (times history : List ℕ) (l : RateLimiter)
    → micros window ≤ last
    → IsIncreasing last times
    → Tracks tenant_id limit last history l
    → count_by (since (last_of last times - micros window)) (allowed_at tenant_id times history l)
      ≤ limit
unfolding allowed_at IsIncreasing
allowed_at-few tenant_id limit last [] history l old up h = omega (
  arith,
  h.tracked.agrees (last - micros window) (omega arith),
  count-le-length (since (last - micros window)) (set_at h.sets (tenant_key tenant_id)),
  h.tracked.few,
)
allowed_at-few tenant_id limit last (now ∷ times) history l old up h =
    allowed_at-few tenant_id limit now times _ _ (omega (arith, old, up.0)) up.1
      (check-Tracks tenant_id limit last now history l old up.0 h)

-- A tenant without earlier requests that asks at increasing times, while Redis is connected and nothing
-- fails, is allowed at most `requests_per_minute + burst` requests in the 60 seconds before its last
-- one, that one included.
pub allowed_at-IsLimited :
    (tenant_id : String) (times : List ℕ) (l : RateLimiter) (sets : List (String × List ℕ))
    → l.redis ≡ some sets
    → get sets (tenant_key tenant_id) ≡ none
    → IsIncreasing (micros window) times
    → count_by
        (since (last_of (micros window) times - micros window))
        (allowed_at tenant_id times [] l)
      ≤ l.requests_per_minute + l.burst
allowed_at-IsLimited tenant_id times l sets e fresh up =
    allowed_at-few tenant_id (limit_of l) (micros window) times [] l (omega arith) up (record {
      same_limit = refl;
      sets = sets;
      connected = e;
      tracked =
          rw (fresh, set_at) (record { agrees = λ w q. refl; earlier = tt; few = omega arith });
    })

tenant_key-ne : (t u : String) → str_eq t u ≡ false → str_eq (tenant_key t) (tenant_key u) ≡ false
tenant_key-ne t u ne = elim (Bool-cases (str_eq (tenant_key t) (tenant_key u))) [
  | inl e ↦
      let same : t ≡ u = append_cancel_left "engram:ratelimit:" t u ((str_eq_iff _ _).0 e) in
      absurd (ground (arith, (str_eq_iff t u).1 same, ne))
  | inr e ↦ e
]

get-put_other :
    (sets : List (String × List ℕ)) (t u : String) (scores : List ℕ)
    → str_eq t u ≡ false
    → get (put sets (tenant_key t) scores) (tenant_key u) ≡ get sets (tenant_key u)
get-put_other sets t u scores ne =
    get-put sets (tenant_key t) scores (tenant_key u)
    ∙ ap (λ b. if b then some scores else get sets (tenant_key u)) (tenant_key-ne t u ne)

-- A request of one tenant leaves the sets of the others as they are, whatever fails.
pub check-other :
    (tenant_id other : String) (now : ℕ) (failure : Failure) (l : RateLimiter)
    (sets : List (String × List ℕ))
    → l.redis ≡ some sets
    → str_eq tenant_id other ≡ false
    → (sets' : List (String × List ℕ)) × ((check tenant_id now failure l).1.redis ≡ some sets')
      × (get sets' (tenant_key other) ≡ get sets (tenant_key other))
unfolding check
check-other tenant_id other now failure l sets e ne = elim (Bool-cases (is_pipeline failure)) [
  | inl p ↦ rw (e, check) (rw p (sets, e, refl))
  | inr p ↦
      rw (e, check)
        (rw p (put sets (tenant_key tenant_id) _, refl, get-put_other sets tenant_id other _ ne))
]
