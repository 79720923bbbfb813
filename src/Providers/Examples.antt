-- ===== src/Providers/Examples.antt =====
-- Searches over concrete providers.
use engram_mem.Base.{ℕ, ◌+◌, ◌≤◌, ◌≡◌, refl, String, true, false, List, [], ◌∷◌, arith, All}
use engram_mem.Base.Sort.{sort_down, sort_by, insert_by}
use engram_mem.Providers.{
  ProviderResult, MemoryProvider, Outcome, answered, raised, timed_out, new_provider, merge,
  federated_search, dedup, finish_search, is_active, count_error, count_answer,
}
use engram_mem.Providers.Tracked
use engram_mem.Providers.Tracked.{Running, SearchReach, here, next, starts, ends}
use engram_mem.Providers.Federated
use engram_mem.Providers.Federated.{IsFrom}

abbrev answer : ProviderResult
answer = record { content = "tea"; score = 3; source = "" }

abbrev better : ProviderResult
better = record { content = "milk"; score = 7; source = "" }

abbrev same_text : String → String
same_text s = s

abbrev three_calls : List (MemoryProvider × Outcome)
three_calls =
    (new_provider "wiki" true 2, answered (answer ∷ better ∷ answer ∷ []) 12)
    ∷ (new_provider "docs" true 2, raised 5)
    ∷ (new_provider "notes" true 2, timed_out)
    ∷ []

merged : merge same_text 5 (answer ∷ better ∷ answer ∷ []) ≡ better ∷ answer ∷ []
unfolding merge dedup sort_down sort_by insert_by
merged = refl

-- Two searches overlap; the first fails, the second answers.
abbrev wiki_now : MemoryProvider → ℕ → Running
wiki_now p n = record { provider = p; awaited = n }

abbrev failed_once : MemoryProvider
failed_once = (finish_search (raised 3) (new_provider "wiki" true 1)).1

abbrev answered_late : Running
answered_late = wiki_now (finish_search (answered (answer ∷ []) 9) failed_once).1 0

overlap : SearchReach (wiki_now (new_provider "wiki" true 1) 0) answered_late
unfolding new_provider is_active
overlap =
    next
      (next
        (next (next here (starts (wiki_now (new_provider "wiki" true 1) 0) refl))
          (starts (wiki_now (new_provider "wiki" true 1) 1) refl))
        (ends (wiki_now (new_provider "wiki" true 1) 2) (raised 3) (omega arith)))
      (ends (wiki_now failed_once 1) (answered (answer ∷ []) 9) (omega arith))

-- The late answer clears the errors of a provider that stays disabled.
late_answer :
    (answered_late.provider.stats.consecutive_errors ≡ 0)
    × (answered_late.provider.auto_disabled ≡ true)
unfolding finish_search new_provider count_error count_answer
late_answer = (refl, refl)

new_provider-IsConsistent_example :
    let p = answered_late.provider in
    (p.stats.hit_count + p.stats.error_count ≤ p.stats.query_count)
    × (p.stats.consecutive_errors ≤ p.stats.error_count)
    × (p.max_consecutive_errors ≤ p.stats.consecutive_errors → is_active p ≡ false)
new_provider-IsConsistent_example =
    Tracked.new_provider-IsConsistent "wiki" true 1 answered_late (omega arith) overlap

federated_search-IsFrom_example :
    All (IsFrom three_calls) (federated_search same_text same_text "tea?" false 5 three_calls).0
federated_search-IsFrom_example =
    Federated.federated_search-IsFrom same_text same_text "tea?" false 5 three_calls
