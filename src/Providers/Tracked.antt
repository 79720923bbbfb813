-- ===== src/Providers/Tracked.antt =====
-- The statistics of a provider while its searches overlap: `tracked_search` of
-- src/engram/providers/base.py awaits the search between its test and its counters.
use engram_mem.Base.{ℕ, ◌+◌, ◌-◌, ◌≤◌, ◌<◌, ◌≡◌, String, Bool, true, false, List, [], ◌∷◌, arith}
use engram_mem.Providers.{
  ProviderResult, MemoryProvider, Outcome, answered, raised, timed_out, is_active, hit,
  count_answer, count_error, finish_search, re_enable, new_provider,
}

-- A provider with the number of its searches that are awaited.
pub record Running : Type 0 where
  pub provider : MemoryProvider
  pub awaited : ℕ

-- A search starts where the provider is active, and ends with its outcome; the others can take their
-- steps between.
pub data SearchStep : Running → Running → Type 0 where
  starts :
      (r : Running)
      → is_active r.provider ≡ true
      → SearchStep r (record r { awaited = r.awaited + 1 })
  ends :
      (r : Running) (outcome : Outcome)
      → 1 ≤ r.awaited
      → SearchStep r
          (record { provider = (finish_search outcome r.provider).1; awaited = r.awaited - 1 })
  enables : (r : Running) → SearchStep r (record r { provider = re_enable r.provider })

pub data SearchReach : Running → Running → Type 0 where
  here : {r : Running} → SearchReach r r
  next : {r s t : Running} → SearchReach r s → SearchStep s t → SearchReach r t

-- The numbers of a provider agree, and it is disabled if the errors in a row have reached the maximum.
pub record IsConsistent (p : MemoryProvider) : Type 0 where
  pub counted : p.stats.hit_count + p.stats.error_count ≤ p.stats.query_count
  pub in_row : p.stats.consecutive_errors ≤ p.stats.error_count
  pub has_max : 0 < p.max_consecutive_errors
  pub disabled : p.max_consecutive_errors ≤ p.stats.consecutive_errors → p.auto_disabled ≡ true

hit-le : (results : List ProviderResult) → hit results ≤ 1
hit-le [] = omega arith
hit-le (r ∷ rs) = omega arith

finish_search-IsConsistent :
    (outcome : Outcome) (p : MemoryProvider)
    → IsConsistent p
    → IsConsistent (finish_search outcome p).1
unfolding finish_search count_answer count_error
finish_search-IsConsistent (answered results elapsed) p h = record {
  counted = omega (arith, h.counted, hit-le results);
  in_row = omega arith;
  has_max = h.has_max;
  disabled = λ most. absurd (omega (arith, most, h.has_max));
}
finish_search-IsConsistent (raised elapsed) p h = record {
  counted = omega (arith, h.counted);
  in_row = omega (arith, h.in_row);
  has_max = h.has_max;
  disabled = λ most. ground (arith, most);
}
finish_search-IsConsistent timed_out p h = h

SearchStep-IsConsistent :
    {r s : Running} → SearchStep r s → IsConsistent r.provider → IsConsistent s.provider
unfolding re_enable
SearchStep-IsConsistent (starts r active) h = h
SearchStep-IsConsistent (ends r outcome some_awaited) h =
    finish_search-IsConsistent outcome r.provider h
SearchStep-IsConsistent (enables r) h = record {
  counted = h.counted;
  in_row = omega arith;
  has_max = h.has_max;
  disabled = λ most. absurd (omega (arith, most, h.has_max));
}

SearchReach-IsConsistent :
    {r s : Running} → SearchReach r s → IsConsistent r.provider → IsConsistent s.provider
SearchReach-IsConsistent here h = h
SearchReach-IsConsistent (next way step) h =
    SearchStep-IsConsistent step (SearchReach-IsConsistent way h)

-- However the searches of a new provider overlap, end and are mixed with re-enabling, its numbers
-- agree: no more hits and errors than queries, no more errors in a row than errors, and where the
-- errors in a row have reached the maximum, which is not 0, it is not active, so that no search of it
-- can start.
pub new_provider-IsConsistent :
    (name : String) (enabled : Bool) (most : ℕ) (r : Running)
    → 0 < most
    → SearchReach (record { provider = new_provider name enabled most; awaited = 0 }) r
    → let p = r.provider in
      (p.stats.hit_count + p.stats.error_count ≤ p.stats.query_count)
      × (p.stats.consecutive_errors ≤ p.stats.error_count)
      × (p.max_consecutive_errors ≤ p.stats.consecutive_errors → is_active p ≡ false)
unfolding new_provider is_active
new_provider-IsConsistent name enabled most r pos way =
    let h : IsConsistent r.provider = SearchReach-IsConsistent way (record {
      counted = omega arith;
      in_row = omega arith;
      has_max = pos;
      disabled = λ reached. absurd (omega (arith, reached, pos));
    }) in
    (h.counted, h.in_row, λ reached. ground (arith, h.disabled reached))
