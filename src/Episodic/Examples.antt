-- ===== src/Episodic/Examples.antt =====
-- A small collection.
use engram_mem.Base.{
  ℕ, zero, suc, ◌≤◌, min, ◌≡◌, refl, Bool, true, false, not, none, some, Option, List, [], ◌∷◌, map,
  filter_by, take, length, length-take, length-map, arith, All, String,
}
use engram_mem.Base.Sort.{sort_down, IsDescending}
use engram_mem.Episodic.{equals, word, Point, FtsRow, contains, ids_of, get_many}
use engram_mem.Episodic.Maintenance.{
  EpisodicStore, everything, reconcile_stores, is_expired, cleanup_expired,
}
use engram_mem.Episodic.Search.{
  Hit, Query, hits_of, ranked, search, filtered_search, temporal_search, get_recent,
}
use engram_mem.Episodic.Reconcile
use engram_mem.Episodic.Reconcile.{indexed}
use engram_mem.Episodic.Expired
use engram_mem.Episodic.Expired.{expired_page}
use engram_mem.Episodic.Results
use engram_mem.Episodic.Filters.{IsMet, IsOfType, IsShared}
use engram_mem.Episodic.Recent
use engram_mem.Episodic.Dedup.{settled, cleanup_dedup}
use engram_mem.Episodic.Updated

abbrev point : String → ℕ → Point
point id timestamp = record {
  id = id;
  document = id;
  memory_type = some "fact";
  timestamp = timestamp;
  expires_at = none;
  outdated = false;
  tags = "t" ∷ [];
  entities = "Engram" ∷ [];
  access_count = 0;
  last_accessed = none;
  confidence = 95;
  priority = 5;
  other = [];
}

abbrev stale : Point
stale = record (point "old" 1) { expires_at = some 5 }

abbrev row : String → FtsRow
row id = record { id = id; content = id; memory_type = "fact" }

abbrev store : EpisodicStore
store = record {
  points = stale ∷ point "new" 9 ∷ [];
  fts = some (row "gone" ∷ row "new" ∷ []);
  audit = [];
}

abbrev always : ℕ → Bool
always o = false

reconcile_stores_lem_example :
    indexed "gone" (reconcile_stores true store).1.fts
    ≡ contains "gone" (ids_of (get_many true everything none none store.points))
reconcile_stores_lem_example =
    Reconcile.reconcile_stores_lem true store (row "gone" ∷ row "new" ∷ []) "gone" refl

reconcile_stores-indexed_example :
    indexed "old" (reconcile_stores true store).1.fts ≡ contains "old" (ids_of store.points)
reconcile_stores-indexed_example =
    Reconcile.reconcile_stores-indexed true store (row "gone" ∷ row "new" ∷ []) "old" refl
      (omega arith)

cleanup_expired_lem_example :
    (cleanup_expired true 7 always store).1.points
    ≡ filter_by (λ p. not (contains p.id (expired_page true 7 store.points))) store.points
cleanup_expired_lem_example = Expired.cleanup_expired_lem true 7 always store (λ o. refl)

cleanup_expired-fresh_example :
    let points' = (cleanup_expired true 7 always store).1.points in
    All (λ p. is_expired 7 p ≡ false) points'
    × (points'
        ≡ filter_by
            (λ p. not (contains p.id (ids_of (filter_by (is_expired 7) store.points))))
            store.points)
cleanup_expired-fresh_example =
    Expired.cleanup_expired-fresh true 7 always store (λ o. refl) (omega arith)

-- A vector search that takes the first points.
abbrev hit : Point → Hit
hit p = record { point = p; distance = 100 }

abbrev first : List Point → ℕ → List Hit
first points n = map hit (take n points)

abbrev newest : ℕ → Point → ℕ → ℕ
newest similarity p now = p.timestamp

first-fits : (points : List Point) (n : ℕ) → length (first points n) ≤ n
first-fits points n = omega (arith, length-map hit (take n points), length-take n points)

first-own :
    (p : Point → Bool) (points : List Point) (n : ℕ)
    → All (λ x. p x ≡ true) points
    → All (λ h. p h.point ≡ true) (first points n)
first-own p points zero h = tt
first-own p [] (suc n) h = tt
first-own p (x ∷ points) (suc n) h = (h.0, first-own p points n h.1)

abbrev asked : Query
asked = record {
  limit = 1;
  offset = 1;
  tags = "t" ∷ [];
  where_ = equals "memory_type" (word "fact") ∷ [];
}

abbrev memories : List Point
memories = point "a" 3 ∷ point "b" 8 ∷ stale ∷ []

search_lem_example :
    let hits = hits_of newest first asked memories in
    let results = (search newest first 7 false asked memories).0 in
    (results ≡ map (λ s. s.memory) (ranked newest first 7 asked hits))
    × IsDescending (λ s. s.score) (ranked newest first 7 asked hits)
    × (length results ≤ 1)
    × All
        (λ p.
          All (IsMet p) asked.where_
          × (is_expired 7 p ≡ false)
          × (p.outdated ≡ false)
          × All (λ t. contains t p.tags ≡ true) ("t" ∷ []))
        results
search_lem_example = Results.search_lem newest first first-fits first-own 7 false asked memories

filtered_search_lem_example :
    let results =
      (filtered_search newest first 7 false (some "fact") ("Engram" ∷ []) 1 memories).0 in
    (length results ≤ 1) × All (λ p. IsShared ("Engram" ∷ []) p × IsOfType (some "fact") p) results
filtered_search_lem_example =
    Results.filtered_search_lem newest first first-fits first-own 7 false (some "fact")
      ("Engram" ∷ []) 1 memories

temporal_search_lem_example :
    temporal_search newest first 7 false (some 5) (some 6) 2 memories
    ≡ search newest first 7 false
        (record { limit = 2; offset = 0; tags = []; where_ = [] })
        memories
temporal_search_lem_example =
    Results.temporal_search_lem newest first 7 false (some 5) (some 6) 2 memories

-- Memories outside the range are found.
range_ignored :
    ids_of (temporal_search newest first 7 false (some 5) (some 6) 2 memories).0 ≡ "b" ∷ "a" ∷ []
unfolding temporal_search sort_down
range_ignored = refl

-- The searches find what they should, best first.
search_finds :
    ids_of (search newest first 7 false (record asked { offset = 0; limit = 3 }) memories).0
    ≡ "b" ∷ "a" ∷ []
unfolding search sort_down
search_finds = refl

get_recent_lem_example :
    get_recent true 2 none memories ≡ take (min 2 1000) (sort_down (λ p. p.timestamp) memories)
get_recent_lem_example = Recent.get_recent_lem 2 memories

-- Each memory is found near all of them; the update of a winner and the deletions succeed.
abbrev near_all : Point → Option (List Hit)
near_all p = some (map hit memories)

abbrev can_write : String → Bool
can_write id = true

abbrev can_delete : List String → Bool
can_delete ids = false

abbrev dup_store : EpisodicStore
dup_store = record { points = memories; fts = some (row "a" ∷ []); audit = [] }

-- The newest memory absorbs the other two, which are deleted.
dedup_run :
    ids_of (cleanup_dedup near_all 900 2 true always can_write false can_delete dup_store).1.points
    ≡ "b" ∷ []
unfolding cleanup_dedup sort_down
dedup_run = refl

cleanup_dedup-kept_example :
    let d = settled near_all 900 2 true always can_write false dup_store.points in
    let after = (cleanup_dedup near_all 900 2 true always can_write false can_delete dup_store).1 in
    (contains "b" d.winners ≡ true → contains "b" (ids_of after.points) ≡ true)
    × (contains "b" d.to_delete ≡ false → contains "b" (ids_of after.points) ≡ true)
cleanup_dedup-kept_example =
    Updated.cleanup_dedup-kept near_all 900 2 true always can_write can_delete dup_store "b" refl

cleanup_dedup-dry_run_example :
    (cleanup_dedup near_all 900 2 true always can_write true can_delete dup_store).1 ≡ dup_store
cleanup_dedup-dry_run_example =
    Updated.cleanup_dedup-dry_run near_all 900 2 true always can_write can_delete dup_store
