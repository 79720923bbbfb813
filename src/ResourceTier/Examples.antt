-- ===== src/ResourceTier/Examples.antt =====
-- The monitor at concrete calls.
use engram_mem.Base.{◌*◌, ◌≡◌, refl, [], none}
use engram_mem.ResourceTier.{
  ResourceMonitor, standard, new_monitor, record_failure, get_tier, tier_of, second,
}
use engram_mem.ResourceTier.Tier
use engram_mem.ResourceTier.Tier.{promised, failures_at}
use engram_mem.ResourceTier.Recovery.{Call}

-- A monitor as `ResourceMonitor()` builds it.
abbrev fresh : ResourceMonitor
fresh = record {
  failure_threshold = 3;
  cooldown = 60 * second;
  window = 300 * second;
  recent_failures = [];
  last_success = 0;
  forced_tier = none;
  consecutive_failures = 0;
  recovery_cooldown_until = 0;
}

new_monitor-fresh : new_monitor 3 60 300 0 ≡ fresh
unfolding new_monitor
new_monitor-fresh = refl

abbrev timeout : Call
timeout = record { at = 10 * second; error_type = "timeout"; draw = 0 }

one_failure : (get_tier (20 * second) (record_failure (10 * second) "timeout" 0 fresh)).0 ≡ standard
unfolding get_tier record_failure tier_of
one_failure = refl

get_tier-backoff_example :
    (get_tier 5 (record fresh { recovery_cooldown_until = 99; cooldown = 7 })).0
    ≡ (get_tier 5 fresh).0
get_tier-backoff_example = Tier.get_tier-backoff 5 99 7 fresh
