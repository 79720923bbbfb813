-- ===== src/Recall/Examples.antt =====
-- Fusing concrete results.
use engram_mem.Base.{
  ℕ, take, ◌≤◌, ◌≡◌, refl, String, true, List, [], ◌∷◌, some, none, length, count_by,
}
use engram_mem.Base.Dict.{get, put}
use engram_mem.Base.Sort.{sort_up, sort_down, sort_by, insert_by}
use engram_mem.Recall.{SearchResult, RerankConfig, scores, predict_fails, fuse, best_of, keep_best}
use engram_mem.Recall.Format.{Recalled, format_for_llm, join_lines, ordered_entries}
use engram_mem.Recall.Formatted
use engram_mem.Base.Texts.{prefix, size}
use engram_mem.Recall.Fuse
use engram_mem.Recall.Fuse.{has_hash, is_as_good}

abbrev low : SearchResult
low = record { id = "1"; content = "tea"; score = 3; channel = "fts" }

abbrev high : SearchResult
high = record { id = "1"; content = "tea"; score = 8; channel = "semantic" }

abbrev other : SearchResult
other = record { id = "2"; content = "milk"; score = 5; channel = "keyword" }

same_hash : String → String
same_hash s = s

abbrev found : List SearchResult
found = low ∷ other ∷ high ∷ []

fused : fuse same_hash predict_fails none "tea" 5 found ≡ high ∷ other ∷ []
unfolding fuse best_of keep_best get put sort_down sort_by insert_by same_hash
fused = refl

abbrev settings : RerankConfig
settings = record {
  enabled = true;
  min_candidates = 1;
  rerank_top_k = 8;
  rerank_threshold = 15;
  fallback_top_k = 3;
}

fuse-once_example :
    let out = fuse same_hash (scores (λ s. 20)) (some settings) "tea" 5 found in
    (length out ≤ 5) × (count_by (has_hash same_hash "tea") out ≤ 1)
fuse-once_example = Fuse.fuse-once same_hash (scores (λ s. 20)) (some settings) "tea" 5 found "tea"

abbrev recalled : String → String → Recalled
recalled type content = record {
  id = "";
  content = content;
  memory_type = type;
  meta_type = none;
  outdated = none;
}

abbrev results : List Recalled
results = recalled "lesson" "no Friday" ∷ recalled "fact" "HCMC" ∷ []

formatted : format_for_llm results 40 ≡ "[fact] HCMC\n[lesson] no Friday"
unfolding format_for_llm sort_up sort_by insert_by get put prefix size
formatted = refl

cut_short : format_for_llm results 20 ≡ "[fact] HCMC"
unfolding format_for_llm sort_up sort_by insert_by get put prefix size
cut_short = refl

size-format_for_llm_example :
    (size (format_for_llm results 20) ≤ 20)
    × ((n : ℕ) × (format_for_llm results 20 ≡ join_lines (take n (ordered_entries results))))
size-format_for_llm_example = Formatted.size-format_for_llm results 20
