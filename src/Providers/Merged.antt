-- ===== src/Providers/Merged.antt =====
-- Merging the answers: one result for each key, the best first.
use engram_mem.Base.{
  ℕ, ◌*◌, ◌≤◌, ◌<◌, ◌≡◌, refl, ◌∙◌, String, Bool, true, List, [], ◌∷◌, arith, length, length-take,
  count_by, any_of, All, str_eq, str_eq_iff, if◌then◌else◌, inl, inr, Bool-cases,
}
use engram_mem.Base.Sort.{
  sort_down, count-sort_down, count-take-le, All-take, All-sort_down, IsDescending,
  sort_down-IsDescending, IsDescending-take, take_all,
}
use engram_mem.Providers.{ProviderResult, key_of, dedup, merge}

same_seen :
    (here key : String) (seen : List String)
    → here ≡ key
    → any_of (str_eq here) seen ≡ any_of (λ k. str_eq k key) seen
same_seen here key [] e = refl
same_seen here key (k ∷ ks) e =
    ground (arith, same_seen here key ks e, str_eq_iff here k, str_eq_iff k key)

module _ (content_key : String → String) where
  -- Whether a result has the key.
  unfoldable pub has_key : String → ProviderResult → Bool
  has_key key r = str_eq (key_of content_key r) key

  -- One result is left of each key that occurs and has not been seen.
  count-dedup :
      (key : String) (seen : List String) (rs : List ProviderResult)
      → count_by (has_key key) (dedup content_key seen rs)
        ≡ (if any_of (λ k. str_eq k key) seen then 0 else if any_of (has_key key) rs then 1 else 0)
  unfolding has_key dedup
  count-dedup key seen [] = ground arith
  count-dedup key seen (r ∷ rs) =
      let here = key_of content_key r in
      let seen_as = same_seen here key seen in
      let same = str_eq_iff here key in
      elim (Bool-cases (any_of (str_eq here) seen)) [
        | inl e ↦ rw e (ground (arith, count-dedup key seen rs, seen_as, same, e))
        | inr e ↦ rw e (ground (arith, count-dedup key (here ∷ seen) rs, seen_as, same, e))
      ]

  All-dedup {κ} :
      (P : ProviderResult → Type κ) (seen : List String) (rs : List ProviderResult)
      → All P rs
      → All P (dedup content_key seen rs)
  unfolding dedup
  All-dedup P seen [] h = tt
  All-dedup P seen (r ∷ rs) h = elim (Bool-cases (any_of (str_eq (key_of content_key r)) seen)) [
    | inl e ↦ rw e (All-dedup P seen rs h.1)
    | inr e ↦ rw e (h.0, All-dedup P (key_of content_key r ∷ seen) rs h.1)
  ]

  count-pos :
      (p : ProviderResult → Bool) (rs : List ProviderResult)
      → any_of p rs ≡ true
      → 0 < count_by p rs
  count-pos p [] e = absurd (ground arith)
  count-pos p (r ∷ rs) e = ground (arith, count-pos p rs)

  -- The answers are at most twice the limit, no two of them have the same key, and none scores more
  -- than one before it.
  pub merge_lem :
      (limit : ℕ) (results : List ProviderResult) (key : String)
      → let merged = merge content_key limit results in
        (length merged ≤ limit * 2)
        × (count_by (has_key key) merged ≤ 1)
        × IsDescending (λ r. r.score) merged
  unfolding merge
  merge_lem limit results key =
      let kept = dedup content_key [] results in
      let sorted = sort_down (λ r. r.score) kept in
      (
        omega (arith, length-take (limit * 2) sorted),
        ground (
          arith,
          count-take-le (has_key key) (limit * 2) sorted,
          count-sort_down (λ r. r.score) (has_key key) kept,
          count-dedup key [] results,
        ),
        IsDescending-take (λ r. r.score) (limit * 2) sorted
            (sort_down-IsDescending (λ r. r.score) kept),
      )

  -- Nothing is lost as long as the answers stay below twice the limit: each key that some provider
  -- has answered stands in the merged answers, once, and no other key does.
  pub merge_complete :
      (limit : ℕ) (results : List ProviderResult) (key : String)
      → length (merge content_key limit results) < limit * 2
      → count_by (has_key key) (merge content_key limit results)
        ≡ (if any_of (has_key key) results then 1 else 0)
  unfolding merge
  merge_complete limit results key h =
      let kept = dedup content_key [] results in
      let sorted = sort_down (λ r. r.score) kept in
      rw (take_all (limit * 2) sorted h)
        (count-sort_down (λ r. r.score) (has_key key) kept ∙ count-dedup key [] results)

  pub All-merge {κ} :
      (P : ProviderResult → Type κ) (limit : ℕ) (results : List ProviderResult)
      → All P results
      → All P (merge content_key limit results)
  unfolding merge
  All-merge P limit results h =
      All-take P (limit * 2) (sort_down (λ r. r.score) (dedup content_key [] results))
        (All-sort_down P (λ r. r.score) (dedup content_key [] results) (All-dedup P [] results h))
