-- ===== src/Recall/Rerank.antt =====
-- Reranking only chooses: nothing is made up, and nothing is returned twice.
use engram_mem.Base.{
  String, ℕ, ◌≤◌, ◌≡◌, refl, Bool, List, [], ◌∷◌, arith, length, count_by, filter_by, take, ltb,
  leb, inl, inr, Bool-cases,
}
use engram_mem.Base.Sort.{sort_down, count-sort_down, count-take-le, count-filter_by}
use engram_mem.Recall.{
  SearchResult, RerankConfig, Model, not_loaded, predict_fails, scores, candidates_of, with_scores,
  choose, reranked, rerank,
}
use mathlib.Core.Bool.{◌&&◌}

count-candidates_of :
    (p : SearchResult → Bool) (scored : List (SearchResult × ℕ))
    → count_by p (candidates_of scored) ≡ count_by (λ c. p c.0) scored
count-candidates_of p [] = refl
count-candidates_of p ((c, s) ∷ rest) = ground (arith, count-candidates_of p rest)

count-with_scores :
    (p : SearchResult → Bool) (score : String → ℕ) (cs : List SearchResult)
    → count_by (λ c. p c.0) (with_scores score cs) ≡ count_by p cs
count-with_scores p score [] = refl
count-with_scores p score (c ∷ cs) = ground (arith, count-with_scores p score cs)

count-both-le {ℓ} :
    {A : Type ℓ} (p q : A → Bool) (xs : List A) → count_by (λ x. p x && q x) xs ≤ count_by p xs
count-both-le p q [] = omega arith
count-both-le p q (x ∷ xs) = ground (arith, count-both-le p q xs)

choose-le :
    (p : SearchResult → Bool) (config : RerankConfig) (scored : List (SearchResult × ℕ))
    → count_by p (choose config scored) ≤ count_by (λ c. p c.0) scored
unfolding choose
choose-le p config scored =
    let above = filter_by (λ s. leb config.rerank_threshold s.1) scored in
    elim (Bool-cases (ltb (length above) config.fallback_top_k)) [
      | inl e ↦ rw e (
          omega (
            arith,
            count-candidates_of p (take config.fallback_top_k scored),
            count-take-le (λ c. p c.0) config.fallback_top_k scored,
          ))
      | inr e ↦ rw e (
          omega (
            arith,
            count-candidates_of p (take config.rerank_top_k above),
            count-take-le (λ c. p c.0) config.rerank_top_k above,
            count-filter_by (λ c. p c.0) (λ s. leb config.rerank_threshold s.1) scored,
            count-both-le (λ c. p c.0) (λ s. leb config.rerank_threshold s.1) scored,
          ))
    ]

reranked-le :
    (p : SearchResult → Bool) (model : Model) (config : RerankConfig) (cs : List SearchResult)
    → count_by p (reranked model config cs) ≤ count_by p cs
unfolding reranked
reranked-le p not_loaded config cs = omega arith
reranked-le p predict_fails config cs = omega arith
reranked-le p (scores score) config cs = omega (
  arith,
  choose-le p config (sort_down (λ c. c.1) (with_scores score cs)),
  count-sort_down (λ c. c.1) (λ c. p c.0) (with_scores score cs),
  count-with_scores p score cs,
)

-- Reranking returns no result more often than it is a candidate, whatever the model answers, so that
-- it adds none and repeats none.
pub rerank-le :
    (p : SearchResult → Bool) (model : Model) (config : RerankConfig) (cs : List SearchResult)
    → count_by p (rerank model config cs) ≤ count_by p cs
unfolding rerank
rerank-le p model config cs = ground (arith, reranked-le p model config cs)
