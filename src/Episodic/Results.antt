-- ===== src/Episodic/Results.antt =====
-- What the searches of src/engram/episodic/episodic_search.py and episodic/search.py answer with.

use engram_mem.Base.{
  ℕ, zero, suc, ◌+◌, ◌*◌, ◌≤◌, min, ◌≡◌, refl, inl, inr, String, Bool, true, false, ◌==◌, Option,
  none, some, List, [], ◌∷◌, map, filter_by, drop, length, length-take, length-map, dec_le, arith,
  Bool-cases, All,
}
use engram_mem.Base.Sort.{
  sort_down, length-sort_down, All-sort_down, All-take, All-filter_by, IsDescending,
  sort_down-IsDescending, IsDescending-take,
}
use engram_mem.Base.Members.{All-filter_map, All-impl}
use engram_mem.Episodic.{Point, contains, conditions_of, build_filter, passes}
use engram_mem.Episodic.Maintenance.{is_expired}
use engram_mem.Episodic.Filters.{IsMet, IsOfType, IsShared, build_filter-met, type_clauses-IsOfType}
use engram_mem.Episodic.Search.{
  Hit, Scored, Query, is_result, has_tags, or_one, scored, hits_of, ranked, search, shares_entity,
  plain, type_clauses, filtered_search, temporal_search,
}

All-drop {ℓ κ} : {A : Type ℓ} (P : A → Type κ) (n : ℕ) (xs : List A) → All P xs → All P (drop n xs)
All-drop P zero xs h = h
All-drop P (suc n) [] h = tt
All-drop P (suc n) (x ∷ xs) h = All-drop P n xs h.1

IsDescending-drop {ℓ} :
    {A : Type ℓ} (key : A → ℕ) (n : ℕ) (xs : List A)
    → IsDescending key xs
    → IsDescending key (drop n xs)
IsDescending-drop key zero xs h = h
IsDescending-drop key (suc n) [] h = tt
IsDescending-drop key (suc n) (x ∷ xs) h = IsDescending-drop key n xs h.1

zero_test : (n : ℕ) → 1 ≤ n → (n == 0) ≡ false
zero_test n h = ground (arith, h)

All-map {ℓ κ μ} :
    {A : Type ℓ} {B : Type κ} (P : B → Type μ) (f : A → B) (xs : List A)
    → All (λ x. P (f x)) xs
    → All P (map f xs)
All-map P f [] h = tt
All-map P f (x ∷ xs) h = (h.0, All-map P f xs h.1)

has_tags-All :
    (tags : List String) (p : Point)
    → has_tags tags p ≡ true
    → All (λ t. contains t p.tags ≡ true) tags
unfolding has_tags
has_tags-All [] p h = tt
has_tags-All (t ∷ tags) p h = (ground (arith, h), has_tags-All tags p (ground (arith, h)))

-- What a memory is that a search answers with.
IsFound : ℕ → List String → Point → Type 0
IsFound now tags p =
    (is_expired now p ≡ false) × (p.outdated ≡ false) × All (λ t. contains t p.tags ≡ true) tags

is_result-IsFound :
    (now : ℕ) (tags : List String) (p : Point) → is_result now tags p ≡ true → IsFound now tags p
unfolding is_result IsFound
is_result-IsFound now tags p h =
    (ground (arith, h), ground (arith, h), has_tags-All tags p (ground (arith, h)))

module _ (activation : ℕ → Point → ℕ → ℕ) (nearest : List Point → ℕ → List Hit) where
  All-scored :
      (p : Point → Bool) (now : ℕ) (tags : List String) (hits : List Hit)
      → All (λ h. p h.point ≡ true) hits
      → All
          (λ s. (p s.memory ≡ true) × (is_result now tags s.memory ≡ true))
          (scored activation nearest now tags hits)
  unfolding scored
  All-scored p now tags [] h = tt
  All-scored p now tags (x ∷ hits) h = elim (Bool-cases (is_result now tags x.point)) [
    | inl e ↦ rw (e, scored) ((h.0, e), All-scored p now tags hits h.1)
    | inr e ↦ rw (e, scored) (All-scored p now tags hits h.1)
  ]

  length-scored :
      (now : ℕ) (tags : List String) (hits : List Hit)
      → length (scored activation nearest now tags hits) ≤ length hits
  unfolding scored
  length-scored now tags [] = omega arith
  length-scored now tags (x ∷ hits) = ground (arith, length-scored now tags hits)

  All-ranked {κ} :
      (P : Scored → Type κ) (now : ℕ) (q : Query) (hits : List Hit)
      → All P (scored activation nearest now q.tags hits)
      → All P (ranked activation nearest now q hits)
  unfolding ranked
  All-ranked P now q hits h =
      let sorted = All-sort_down P (λ s. s.score) (scored activation nearest now q.tags hits) h in
      elim (Bool-cases (q.offset == 0)) [
        | inl e ↦ rw (e, ranked) sorted
        | inr e ↦ rw (e, ranked) (All-take P q.limit _ (All-drop P q.offset _ sorted))
      ]

  ranked-IsDescending :
      (now : ℕ) (q : Query) (hits : List Hit)
      → IsDescending (λ s. s.score) (ranked activation nearest now q hits)
  unfolding ranked
  ranked-IsDescending now q hits =
      let sorted =
        sort_down-IsDescending (λ s. s.score) (scored activation nearest now q.tags hits) in
      elim (Bool-cases (q.offset == 0)) [
        | inl e ↦ rw (e, ranked) sorted
        | inr e ↦
            rw (e, ranked) (IsDescending-take _ q.limit _ (IsDescending-drop _ q.offset _ sorted))
      ]

  length-ranked :
      (now : ℕ) (q : Query) (hits : List Hit)
      → length hits ≤ q.limit + q.offset
      → length (ranked activation nearest now q hits) ≤ q.limit
  unfolding ranked
  length-ranked now q hits h =
      let all = scored activation nearest now q.tags hits in
      let few = length-scored now q.tags hits in
      let size = length-sort_down (λ s. s.score) all in
      elim (dec_le 1 q.offset) [
        | yes pos ↦
            rw (zero_test q.offset pos, ranked)
              (omega (arith, length-take q.limit (drop q.offset (sort_down (λ s. s.score) all))))
        | no z ↦
            let e : (q.offset == 0) ≡ true = ground (arith, z) in
            rw (e, ranked) (omega (arith, few, size, h, z))
      ]

  module _ (fits : (points : List Point) (n : ℕ) → length (nearest points n) ≤ n)
      (own : (p : Point → Bool) (points : List Point) (n : ℕ)
        → All (λ x. p x ≡ true) points
        → All (λ h. p h.point ≡ true) (nearest points n)) where
    -- If the vector search gives at most as many hits as it is asked for, all of them points that it is
    -- given, then a search answers with at most `limit` memories, best first; each has the values of
    -- the plain and the `$eq` clauses of the filter under keys without a dollar (the other clauses
    -- are not looked at), is neither expired nor outdated, and has every tag asked for.
    pub search_lem :
        (now : ℕ) (update_fails : Bool) (q : Query) (points : List Point)
        → let hits = hits_of activation nearest q points in
          let results = (search activation nearest now update_fails q points).0 in
          (results ≡ map (λ s. s.memory) (ranked activation nearest now q hits))
          × IsDescending (λ s. s.score) (ranked activation nearest now q hits)
          × (length results ≤ q.limit)
          × All
              (λ p.
                All (IsMet p) q.where_
                × (is_expired now p ≡ false)
                × (p.outdated ≡ false)
                × All (λ t. contains t p.tags ≡ true) q.tags)
              results
    unfolding search hits_of IsFound
    search_lem now update_fails q points =
        let hits = hits_of activation nearest q points in
        let n = min (q.limit + q.offset) (or_one (length points)) in
        let passing = passes (build_filter q.where_) in
        let few = length-ranked now q hits (omega (arith, fits (filter_by passing points) n)) in
        let from = own passing (filter_by passing points) n (All-filter_by passing points) in
        (
          refl,
          ranked-IsDescending now q hits,
          omega (arith, length-map (λ s. s.memory) (ranked activation nearest now q hits), few),
          All-map _ (λ s. s.memory) (ranked activation nearest now q hits)
              (All-ranked _ now q hits (
                All-impl
                  (λ s h.
                    let (fresh, current, tagged) = is_result-IsFound now q.tags s.memory h.1 in
                    (build_filter-met q.where_ s.memory h.0, fresh, current, tagged))
                  _ (All-scored passing now q.tags hits from))),
        )

    -- If the vector search gives at most as many hits as it is asked for, all of them points that it is
    -- given, then `filtered_search` answers with at most `limit` memories, each of the type, if one is
    -- given, and with one of the entities at least, if any are given.
    pub filtered_search_lem :
        (now : ℕ) (update_fails : Bool) (memory_type : Option String) (entities : List String)
        (limit : ℕ) (points : List Point)
        → let results =
            (filtered_search activation nearest now update_fails memory_type entities limit
              points).0 in
          (length results ≤ limit) × All (λ p. IsShared entities p × IsOfType memory_type p) results
    unfolding filtered_search shares_entity
    filtered_search_lem now update_fails memory_type [] limit points =
        let q = plain limit (type_clauses memory_type) in
        let found = (search activation nearest now update_fails q points).0 in
        (
          omega (arith, length-take limit found),
          All-take _ limit found (
              All-impl (λ p h. (tt, type_clauses-IsOfType memory_type p h.0)) found
                (search_lem now update_fails q points).3),
        )
    filtered_search_lem now update_fails memory_type (e ∷ entities) limit points =
        let q = plain (limit * 3) (type_clauses memory_type) in
        let found = (search activation nearest now update_fails q points).0 in
        let sharing = filter_by (shares_entity (e ∷ entities)) found in
        (
          omega (arith, length-take limit sharing),
          All-take _ limit sharing (
              All-filter_map _ (λ p shares h. (shares, type_clauses-IsOfType memory_type p h.0))
                found (search_lem now update_fails q points).3),
        )

  -- Whatever bounds it is given, `temporal_search` does what a search without any filter does: its
  -- results and its effect on the collection do not depend on the range.
  pub temporal_search_lem :
      (now : ℕ) (update_fails : Bool) (start end : Option ℕ) (limit : ℕ) (points : List Point)
      → temporal_search activation nearest now update_fails start end limit points
        ≡ search activation nearest now update_fails
            (record { limit = limit; offset = 0; tags = []; where_ = [] })
            points
  unfolding temporal_search search hits_of build_filter conditions_of
  temporal_search_lem now update_fails none none limit points = refl
  temporal_search_lem now update_fails (some start) none limit points = refl
  temporal_search_lem now update_fails none (some end) limit points = refl
  temporal_search_lem now update_fails (some start) (some end) limit points = refl
