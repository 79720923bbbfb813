-- ===== src/Recall.antt =====
-- src/engram/recall/parallel_search.py (`_fuse`) and recall/reranker.py: merging the results of the
-- search channels. Scores are natural numbers; the hash of a content and the answer of the reranking
-- model are arguments.
pub mod Format
pub mod Formatted
pub mod Rerank
pub mod Fuse
mod Examples
use engram_mem.Base.{
  ℕ, String, Bool, true, false, not, ◌&&◌, ◌||◌, Option, none, some, List, [], ◌∷◌, map, length,
  filter_by, take, ltb, leb, str_eq, if◌then◌else◌,
}
use engram_mem.Base.Dict.{get, put}
use engram_mem.Base.Sort.{sort_down}

pub record SearchResult : Type 0 where
  pub id : String
  pub content : String
  pub score : ℕ
  pub channel : String

pub record RerankConfig : Type 0 where
  pub enabled : Bool
  pub min_candidates : ℕ
  pub rerank_top_k : ℕ
  pub rerank_threshold : ℕ
  pub fallback_top_k : ℕ

-- The model's answer: it cannot be loaded, it fails, or it gives a score to each content.
pub data Model : Type 0 where
  not_loaded predict_fails : Model
  scores : (String → ℕ) → Model

-- `[c for c, _ in ...]`
abbrev pub candidates_of : List (SearchResult × ℕ) → List SearchResult
candidates_of [] = []
candidates_of ((c, s) ∷ rest) = c ∷ candidates_of rest

-- `zip(candidates, scores)`
abbrev pub with_scores : (String → ℕ) → List SearchResult → List (SearchResult × ℕ)
with_scores score [] = []
with_scores score (c ∷ cs) = (c, score c.content) ∷ with_scores score cs

-- The branches after the model's scores.
unfoldable pub choose : RerankConfig → List (SearchResult × ℕ) → List SearchResult
choose config scored =
    let above_threshold = filter_by (λ p. leb config.rerank_threshold p.1) scored in
    if ltb (length above_threshold) config.fallback_top_k
    then candidates_of (take config.fallback_top_k scored)
    else candidates_of (take config.rerank_top_k above_threshold)

unfoldable pub reranked : Model → RerankConfig → List SearchResult → List SearchResult
reranked not_loaded config candidates = candidates
reranked predict_fails config candidates = candidates
reranked (scores score) config candidates =
    choose config (sort_down (λ p. p.1) (with_scores score candidates))

unfoldable pub rerank : Model → RerankConfig → List SearchResult → List SearchResult
rerank model config candidates =
    if not config.enabled || ltb (length candidates) config.min_candidates
    then candidates
    else reranked model config candidates

module _ (hash : String → String) where
  -- One turn of the loop of `_fuse`.
  unfoldable pub keep_best :
      List (String × SearchResult) → SearchResult → List (String × SearchResult)
  keep_best seen r = elim (get seen (hash r.content)) [
    | none ↦ put seen (hash r.content) r
    | some best ↦ if ltb best.score r.score then put seen (hash r.content) r else seen
  ]

  unfoldable pub best_of :
      List (String × SearchResult) → List SearchResult → List (String × SearchResult)
  best_of seen [] = seen
  best_of seen (r ∷ rs) = best_of (keep_best seen r) rs

  -- `seen.values()`
  abbrev pub seen_values : List (String × SearchResult) → List SearchResult
  seen_values [] = []
  seen_values ((key, r) ∷ seen) = r ∷ seen_values seen

  -- `config` is `none` where reranking is not configured.
  unfoldable pub fuse :
      Model → Option RerankConfig → String → ℕ → List SearchResult → List SearchResult
  fuse model config query limit results =
      let fused = sort_down (λ r. r.score) (seen_values (best_of [] results)) in
      elim config [
        | none ↦ take limit fused
        | some c ↦
            if c.enabled && not (str_eq query "")
            then take limit (rerank model c fused)
            else take limit fused
      ]
