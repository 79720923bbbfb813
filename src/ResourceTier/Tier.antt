-- ===== src/ResourceTier/Tier.antt =====
-- What the tier depends on, and what it does not.
use engram_mem.Base.{
  ℕ, ◌≤◌, ◌≡◌, ◌≢◌, refl, sym, ◌∙◌, ◌↔◌, Bool, false, Option, none, some, List, [], ◌∷◌, arith,
  length, filter_by, count_by, leb, ◌==◌, if◌then◌else◌, inl, inr, Option-cases,
}
use engram_mem.Base.Sort.{length-filter_by}
use engram_mem.ResourceTier.{
  ResourceTier, full, standard, basic, readonly, Failure, ResourceMonitor, is_recent, is_quota,
  tier_of, get_tier, can_write,
}

count-le-length {ℓ} : {A : Type ℓ} (p : A → Bool) (xs : List A) → count_by p xs ≤ length xs
count-le-length p [] = omega arith
count-le-length p (x ∷ xs) = ground (arith, count-le-length p xs)

-- The number of failures within the window.
abbrev pub failures_at : ℕ → ResourceMonitor → ℕ
failures_at now m = count_by (is_recent now m.window) m.recent_failures

-- What the class promises of a monitor that is not forced: full service without failures, basic
-- from the threshold on, standard between.
abbrev pub tier_for : ℕ → ℕ → ResourceTier
tier_for count threshold =
    if count == 0 then full else if leb threshold count then basic else standard

tier_of_lem :
    (now : ℕ) (recent : List Failure) (m : ResourceMonitor)
    → tier_of now recent m ≡ tier_for (length recent) m.failure_threshold
unfolding tier_of
tier_of_lem now recent m = ground (arith, count-le-length is_quota recent)

recent_of : ℕ → ResourceMonitor → List Failure
recent_of now m = filter_by (is_recent now m.window) m.recent_failures

unforced :
    (now : ℕ) (m : ResourceMonitor)
    → m.forced_tier ≡ none
    → ((get_tier now m).0 ≡ tier_for (failures_at now m) m.failure_threshold)
      × ((get_tier now m).1 ≡ record m { recent_failures = recent_of now m })
unfolding get_tier recent_of
unforced now m e = (
  ground (
    arith,
    tier_of_lem now (filter_by (is_recent now m.window) m.recent_failures) m,
    length-filter_by (is_recent now m.window) m.recent_failures,
  ),
  ground arith,
)

forced :
    (now : ℕ) (m : ResourceMonitor) (tier : ResourceTier)
    → m.forced_tier ≡ some tier
    → get_tier now m ≡ (tier, m)
unfolding get_tier
forced now m tier e = ground arith

-- The tier that the class promises: the forced one or, without one, that of the number of recent
-- failures.
abbrev pub promised : Option ResourceTier → ℕ → ℕ → ResourceTier
promised (some tier) count threshold = tier
promised none count threshold = tier_for count threshold

-- A forced tier is returned as it is. Without one the tier is full if no failure lies in the window,
-- basic from the threshold on and standard between: neither the backoff nor the cooldown nor the
-- kind of the errors plays a part.
pub get_tier_lem :
    (now : ℕ) (m : ResourceMonitor)
    → (get_tier now m).0 ≡ promised m.forced_tier (failures_at now m) m.failure_threshold
get_tier_lem now m = elim (Option-cases m.forced_tier) [
  | inl e ↦ ground (arith, (unforced now m e).0)
  | inr (tier, e) ↦ ground (arith, forced now m tier e)
]

-- The backoff of M16 has no effect: whatever the time until which recovery is to wait, and whatever
-- the cooldown, the tier is the same.
pub get_tier-backoff :
    (now until cooldown : ℕ) (m : ResourceMonitor)
    → (get_tier now (record m { recovery_cooldown_until = until; cooldown = cooldown })).0
      ≡ (get_tier now m).0
get_tier-backoff now until cooldown m =
    get_tier_lem now (record m { recovery_cooldown_until = until; cooldown = cooldown })
    ∙ sym (get_tier_lem now m)

count-prune :
    (window now later : ℕ) (fs : List Failure)
    → now ≤ later
    → count_by (is_recent later window) (filter_by (is_recent now window) fs)
      ≡ count_by (is_recent later window) fs
count-prune window now later [] h = refl
count-prune window now later (f ∷ fs) h = ground (arith, count-prune window now later fs h)

-- Pruning cannot be seen: asking for the tier at one time changes no answer at a later time.
pub get_tier-get_tier :
    (now later : ℕ) (m : ResourceMonitor)
    → now ≤ later
    → (get_tier later (get_tier now m).1).0 ≡ (get_tier later m).0
unfolding recent_of
get_tier-get_tier now later m h = elim (Option-cases m.forced_tier) [
  | inl e ↦ rw (unforced now m e).1 (
      get_tier_lem later (record m { recent_failures = recent_of now m })
      ∙ rw (count-prune m.window now later m.recent_failures h) (sym (get_tier_lem later m)))
  | inr (tier, e) ↦ rw (forced now m tier e)
]

tier_for-ne-readonly : (count threshold : ℕ) → tier_for count threshold ≢ readonly
tier_for-ne-readonly count threshold h = ground arith

-- Writes are refused exactly while an administrator forces the read-only tier.
pub can_write-false_iff :
    (now : ℕ) (m : ResourceMonitor)
    → ((can_write now m).0 ≡ false) ↔ (m.forced_tier ≡ some readonly)
unfolding can_write
can_write-false_iff now m = elim (Option-cases m.forced_tier) [
  | inl e ↦
      ground
        (arith, get_tier_lem now m, tier_for-ne-readonly (failures_at now m) m.failure_threshold)
  | inr (tier, e) ↦ ground (arith, get_tier_lem now m)
]
