-- ===== src/Recall/Fuse.antt =====
-- Fusion keeps one result of each content, with the best score that the channels gave it.
use engram_mem.Base.{
  ℕ, ◌≤◌, ◌<◌, ◌≡◌, refl, sym, max, String, Bool, not, ◌&&◌, Option, none, some, List, [], ◌∷◌,
  arith, length, length-take, count_by, All, take, ltb, leb, str_eq, str_eq_iff, str_eq_refl,
  if◌then◌else◌, inl, inr, Bool-cases, Option-cases,
}
use engram_mem.Base.Dict.{get, put, get-put}
use engram_mem.Base.Sort.{sort_down, count-sort_down, count-take-le, take_all}
use engram_mem.Recall.{
  SearchResult, RerankConfig, Model, keep_best, best_of, seen_values, fuse, rerank,
}
use engram_mem.Recall.Rerank.{rerank-le}

module _ (hash : String → String) where
  -- The result has the hash.
  unfoldable pub has_hash : String → SearchResult → Bool
  has_hash key r = str_eq (hash r.content) key

  -- Every key is the hash of its result, and stands once.
  pub record IsHashed (seen : List (String × SearchResult)) : Type 0 where
    pub own : All (λ e. hash e.1.content ≡ e.0) seen
    pub once : (key : String) → count_by (λ e. str_eq e.0 key) seen ≤ 1

  count-put :
      (seen : List (String × SearchResult)) (key asked : String) (r : SearchResult)
      → count_by (λ e. str_eq e.0 asked) (put seen key r) ≡ (
          if str_eq key asked
          then max 1 (count_by (λ e. str_eq e.0 asked) seen)
          else count_by (λ e. str_eq e.0 asked) seen)
  unfolding put
  count-put [] key asked r = ground arith
  count-put ((here, old) ∷ seen) key asked r = ground (
    arith,
    count-put seen key asked r,
    str_eq_iff here key,
    str_eq_iff here asked,
    str_eq_iff key asked,
  )

  own-put :
      (seen : List (String × SearchResult)) (r : SearchResult)
      → All (λ e. hash e.1.content ≡ e.0) seen
      → All (λ e. hash e.1.content ≡ e.0) (put seen (hash r.content) r)
  unfolding put
  own-put [] r h = (refl, tt)
  own-put ((here, old) ∷ seen) r h = elim (Bool-cases (str_eq here (hash r.content))) [
    | inl e ↦ rw e (sym ((str_eq_iff here (hash r.content)).0 e), h.1)
    | inr e ↦ rw e (h.0, own-put seen r h.1)
  ]

  put-IsHashed :
      (seen : List (String × SearchResult)) (r : SearchResult)
      → IsHashed seen
      → IsHashed (put seen (hash r.content) r)
  put-IsHashed seen r h = record {
    own = own-put seen r h.own;
    once = λ key. ground (arith, count-put seen (hash r.content) key r, h.once key);
  }

  keep_best-IsHashed :
      (seen : List (String × SearchResult)) (r : SearchResult)
      → IsHashed seen
      → IsHashed (keep_best hash seen r)
  unfolding keep_best
  keep_best-IsHashed seen r h = elim (Option-cases (get seen (hash r.content))) [
    | inl e ↦ rw (e, keep_best) (put-IsHashed seen r h)
    | inr (best, e) ↦ elim (Bool-cases (ltb best.score r.score)) [
      | inl l ↦ rw (e, keep_best) (rw l (put-IsHashed seen r h))
      | inr l ↦ rw (e, keep_best) (rw l h)
    ]
  ]

  best_of-IsHashed :
      (seen : List (String × SearchResult)) (rs : List SearchResult)
      → IsHashed seen
      → IsHashed (best_of hash seen rs)
  unfolding best_of
  best_of-IsHashed seen [] h = h
  best_of-IsHashed seen (r ∷ rs) h =
      best_of-IsHashed (keep_best hash seen r) rs (keep_best-IsHashed seen r h)

  -- What stands under the hash of the result scores at least as much.
  abbrev IsAtLeast : Option SearchResult → SearchResult → Type 0
  IsAtLeast none r = ⊥
  IsAtLeast (some best) r = r.score ≤ best.score

  keep_best_self :
      (seen : List (String × SearchResult)) (r : SearchResult)
      → IsAtLeast (get (keep_best hash seen r) (hash r.content)) r
  unfolding keep_best
  keep_best_self seen r =
      ground (arith, get-put seen (hash r.content) r (hash r.content), str_eq_refl (hash r.content))

  keep_best_other :
      (seen : List (String × SearchResult)) (r old : SearchResult)
      → IsAtLeast (get seen (hash old.content)) old
      → IsAtLeast (get (keep_best hash seen r) (hash old.content)) old
  unfolding keep_best
  keep_best_other seen r old h = ground (
    arith,
    get-put seen (hash r.content) r (hash old.content),
    str_eq_iff (hash r.content) (hash old.content),
    h,
  )

  best_of-covers :
      (seen : List (String × SearchResult)) (rs : List SearchResult) (old : SearchResult)
      → IsAtLeast (get seen (hash old.content)) old
      → IsAtLeast (get (best_of hash seen rs) (hash old.content)) old
  unfolding best_of
  best_of-covers seen [] old h = h
  best_of-covers seen (r ∷ rs) old h =
      best_of-covers (keep_best hash seen r) rs old (keep_best_other seen r old h)

  best_of-covers_results :
      (seen : List (String × SearchResult)) (rs : List SearchResult)
      → All (λ r. IsAtLeast (get (best_of hash seen rs) (hash r.content)) r) rs
  unfolding best_of
  best_of-covers_results seen [] = tt
  best_of-covers_results seen (r ∷ rs) = (
    best_of-covers (keep_best hash seen r) rs r (keep_best_self seen r),
    best_of-covers_results (keep_best hash seen r) rs,
  )

  -- The second result has the content of the first, by its hash, and at least its score.
  unfoldable pub is_as_good : SearchResult → SearchResult → Bool
  is_as_good r v = has_hash (hash r.content) v && leb r.score v.score

  found_as_good :
      (seen : List (String × SearchResult)) (r : SearchResult)
      → All (λ e. hash e.1.content ≡ e.0) seen
      → IsAtLeast (get seen (hash r.content)) r
      → 0 < count_by (is_as_good r) (seen_values hash seen)
  unfolding get is_as_good has_hash
  found_as_good [] r own h = absurd h
  found_as_good ((here, v) ∷ seen) r own h = elim (Bool-cases (str_eq here (hash r.content))) [
    | inl e ↦ ground (
      arith,
      own.0,
      str_eq_iff here (hash r.content),
      str_eq_iff (hash v.content) (hash r.content),
      e,
      h,
    )
    | inr e ↦ ground (arith, found_as_good seen r own.1, e, h)
  ]

  count-seen_values :
      (seen : List (String × SearchResult)) (key : String)
      → All (λ e. hash e.1.content ≡ e.0) seen
      → count_by (has_hash key) (seen_values hash seen) ≡ count_by (λ e. str_eq e.0 key) seen
  unfolding has_hash
  count-seen_values [] key own = refl
  count-seen_values ((here, v) ∷ seen) key own = ground (
    arith,
    own.0,
    count-seen_values seen key own.1,
    str_eq_iff here key,
    str_eq_iff (hash v.content) key,
  )

  nothing-IsHashed : IsHashed []
  nothing-IsHashed = record { own = tt; once = λ key. omega arith }

  -- The list before reranking.
  abbrev merged : List SearchResult → List SearchResult
  merged results = sort_down (λ r. r.score) (seen_values hash (best_of hash [] results))

  merged_once :
      (results : List SearchResult) (key : String) → count_by (has_hash key) (merged results) ≤ 1
  merged_once results key =
      let h = best_of-IsHashed [] results nothing-IsHashed in
      let seen = best_of hash [] results in
      omega (
        arith,
        h.once key,
        count-seen_values seen key h.own,
        count-sort_down (λ r. r.score) (has_hash key) (seen_values hash seen),
      )

  taken_once :
      (limit : ℕ) (rs : List SearchResult) (key : String)
      → count_by (has_hash key) rs ≤ 1
      → (length (take limit rs) ≤ limit) × (count_by (has_hash key) (take limit rs) ≤ 1)
  taken_once limit rs key h =
      (omega (arith, length-take limit rs), omega (arith, h, count-take-le (has_hash key) limit rs))

  -- Fusion returns at most as many results as asked for and no two with the same content, whether
  -- they are reranked or not and whatever the model answers.
  pub fuse-once :
      (model : Model) (config : Option RerankConfig) (query : String) (limit : ℕ)
      (results : List SearchResult) (key : String)
      → let fused = fuse hash model config query limit results in
        (length fused ≤ limit) × (count_by (has_hash key) fused ≤ 1)
  unfolding fuse
  fuse-once model none query limit results key =
      taken_once limit (merged results) key (merged_once results key)
  fuse-once model (some c) query limit results key =
      elim (Bool-cases (c.enabled && not (str_eq query ""))) [
        | inl e ↦ rw e (
            taken_once limit (rerank model c (merged results)) key (
              omega (
                arith,
                rerank-le (has_hash key) model c (merged results),
                merged_once results key,
              )))
        | inr e ↦ rw e (taken_once limit (merged results) key (merged_once results key))
      ]

  All-covers :
      (seen : List (String × SearchResult)) (rs : List SearchResult)
      → All (λ e. hash e.1.content ≡ e.0) seen
      → All (λ r. IsAtLeast (get seen (hash r.content)) r) rs
      → All (λ r. 0 < count_by (is_as_good r) (sort_down (λ v. v.score) (seen_values hash seen))) rs
  All-covers seen [] own h = tt
  All-covers seen (r ∷ rs) own h = (
    omega (
      arith,
      found_as_good seen r own h.0,
      count-sort_down (λ v. v.score) (is_as_good r) (seen_values hash seen),
    ),
    All-covers seen rs own h.1,
  )

  -- Without reranking nothing is lost below the limit: for each result of a channel there is one with
  -- the same content, and no smaller score, among the fused ones.
  pub fuse-covers :
      (model : Model) (query : String) (limit : ℕ) (results : List SearchResult)
      → length (fuse hash model none query limit results) < limit
      → All (λ r. 0 < count_by (is_as_good r) (fuse hash model none query limit results)) results
  unfolding fuse
  fuse-covers model query limit results room =
      let h = best_of-IsHashed [] results nothing-IsHashed in
      rw (take_all limit (merged results) room)
        (All-covers (best_of hash [] results) results h.own (best_of-covers_results [] results))
