-- ===== src/Providers.antt =====
-- src/engram/providers/base.py and providers/router.py: external providers with their statistics, and
-- the search over all of them. A provider's `search` is its outcome: results, an exception, or no
-- answer before the timeout, when `wait_for` cancels the call. A search over all providers calls each
-- of them once; Tracked has the overlapping calls of one provider. Scores are natural numbers.
pub mod Tracked
pub mod Merged
pub mod Federated
mod Examples
use text.Mathlib.Text.{find?}
use engram_mem.Base.{
  ℕ, ◌+◌, ◌*◌, String, Bool, true, false, not, ◌&&◌, ◌||◌, Option, none, some, List, [], ◌∷◌, ◌++◌,
  map, any_of, filter_by, take, ltb, leb, str_eq, if◌then◌else◌,
}
use engram_mem.Base.Sort.{sort_down}

pub record ProviderResult : Type 0 where
  pub content : String
  pub score : ℕ
  pub source : String

pub record ProviderStats : Type 0 where
  pub query_count : ℕ
  pub hit_count : ℕ
  pub error_count : ℕ
  pub consecutive_errors : ℕ
  pub total_latency_ms : ℕ

pub record MemoryProvider : Type 0 where
  pub name : String
  pub enabled : Bool
  pub max_consecutive_errors : ℕ
  pub stats : ProviderStats
  pub auto_disabled : Bool

abbrev pub no_stats : ProviderStats
no_stats = record {
  query_count = 0;
  hit_count = 0;
  error_count = 0;
  consecutive_errors = 0;
  total_latency_ms = 0;
}

unfoldable pub new_provider : String → Bool → ℕ → MemoryProvider
new_provider name enabled max_consecutive_errors = record {
  name = name;
  enabled = enabled;
  max_consecutive_errors = max_consecutive_errors;
  stats = no_stats;
  auto_disabled = false;
}

pub data Outcome : Type 0 where
  answered : List ProviderResult → ℕ → Outcome
  raised : ℕ → Outcome
  timed_out : Outcome

unfoldable pub is_active : MemoryProvider → Bool
is_active p = p.enabled && not p.auto_disabled

abbrev pub hit : List ProviderResult → ℕ
hit [] = 0
hit (r ∷ rs) = 1

unfoldable pub count_answer : List ProviderResult → ℕ → ProviderStats → ProviderStats
count_answer results elapsed_ms s = record s {
  query_count = s.query_count + 1;
  hit_count = s.hit_count + hit results;
  consecutive_errors = 0;
  total_latency_ms = s.total_latency_ms + elapsed_ms;
}

unfoldable pub count_error : ℕ → ProviderStats → ProviderStats
count_error elapsed_ms s = record s {
  query_count = s.query_count + 1;
  error_count = s.error_count + 1;
  consecutive_errors = s.consecutive_errors + 1;
  total_latency_ms = s.total_latency_ms + elapsed_ms;
}

unfoldable pub with_source : String → ProviderResult → ProviderResult
with_source name r = record r { source = name }

-- The part of `tracked_search` after the `await`, on the provider as it is then; `none` where the call
-- is cancelled: `except Exception` does not catch that, and no number changes.
unfoldable pub finish_search :
    Outcome → MemoryProvider → Option (List ProviderResult) × MemoryProvider
finish_search (answered results elapsed_ms) p = (
  some (map (with_source p.name) results),
  record p { stats = count_answer results elapsed_ms p.stats },
)
finish_search (raised elapsed_ms) p =
    let stats = count_error elapsed_ms p.stats in
    (
      some [],
      record p {
        stats = stats;
        auto_disabled = p.auto_disabled || leb p.max_consecutive_errors stats.consecutive_errors;
      },
    )
finish_search timed_out p = (none, p)

-- A call that no other call of the provider overlaps.
unfoldable pub tracked_search :
    Outcome → MemoryProvider → Option (List ProviderResult) × MemoryProvider
unfolding finish_search
tracked_search outcome p = if is_active p then finish_search outcome p else (some [], p)

unfoldable pub re_enable : MemoryProvider → MemoryProvider
re_enable p = record p { auto_disabled = false; stats = record p.stats { consecutive_errors = 0 } }

abbrev pub internal_keywords : List String
internal_keywords =
    "decision" ∷ "error" ∷ "preference" ∷ "todo" ∷ "context" ∷ "workflow" ∷ "quyết định" ∷ "lỗi"
    ∷ "ưu tiên" ∷ "ghi nhớ" ∷ "what did i" ∷ "what decision" ∷ "my preference" ∷ []

abbrev pub domain_keywords : List String
domain_keywords =
    "how to" ∷ "what is" ∷ "guide" ∷ "tutorial" ∷ "docs" ∷ "best practice" ∷ "hướng dẫn" ∷ "cách"
    ∷ "là gì" ∷ "tài liệu" ∷ "example" ∷ "implement" ∷ "setup" ∷ "configure" ∷ "deploy" ∷ []

pub data QueryClass : Type 0 where
  internal domain : QueryClass

-- `keyword in text`
unfoldable pub has_keyword : String → String → Bool
has_keyword text keyword = elim (find? text keyword) [ some i ↦ true | none ↦ false ]

-- `q_lower` is the query in lower case.
unfoldable pub classify_query : String → QueryClass
classify_query q_lower =
    if any_of (has_keyword q_lower) internal_keywords
    then internal
    else if any_of (has_keyword q_lower) domain_keywords
    then domain
    else domain

abbrev pub is_internal : QueryClass → Bool
is_internal internal = true
is_internal domain = false

-- One provider of the fan-out with its outcome; the inactive ones are not asked.
unfoldable pub ask : MemoryProvider × Outcome → Option (List ProviderResult) × MemoryProvider
ask (p, outcome) = if is_active p then tracked_search outcome p else (none, p)

-- `all_results`, without the calls that ended in an exception.
unfoldable pub collect : List (MemoryProvider × Outcome) → List ProviderResult
collect [] = []
collect (call ∷ calls) = elim (ask call).0 [
  | some results ↦ results ++ collect calls
  | none ↦ collect calls
]

unfoldable pub asked : List (MemoryProvider × Outcome) → List MemoryProvider
asked [] = []
asked (call ∷ calls) = (ask call).1 ∷ asked calls

abbrev pub not_asked : List (MemoryProvider × Outcome) → List MemoryProvider
not_asked [] = []
not_asked ((p, outcome) ∷ calls) = p ∷ not_asked calls

-- `content_key` computes the key `content[:200].strip().lower()` of a content.
module _ (content_key : String → String) where
  abbrev pub key_of : ProviderResult → String
  key_of r = content_key r.content

  -- The first result of each key that `seen` has not.
  unfoldable pub dedup : List String → List ProviderResult → List ProviderResult
  dedup seen [] = []
  dedup seen (r ∷ rs) =
      let is_seen = any_of (str_eq (key_of r)) seen in
      let rest = dedup (if is_seen then seen else key_of r ∷ seen) rs in
      if is_seen then rest else r ∷ rest

  unfoldable pub merge : ℕ → List ProviderResult → List ProviderResult
  merge limit results = take (limit * 2) (sort_down (λ r. r.score) (dedup [] results))

  -- The results, and the providers afterwards; `lower` is `str.lower`.
  unfoldable pub federated_search :
      (String → String)
      → String
      → Bool
      → ℕ
      → List (MemoryProvider × Outcome)
      → List ProviderResult × List MemoryProvider
  federated_search lower query force_federation limit calls =
      if not force_federation && is_internal (classify_query (lower query))
      then ([], not_asked calls)
      else (merge limit (collect calls), asked calls)
