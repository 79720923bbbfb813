-- ===== src/Episodic/Search.antt =====
-- The searches of src/engram/episodic/episodic_search.py and episodic/search.py. The answer of the
-- vector search of a query, `nearest`, is an argument, and so is `activation`, the score of
-- src/engram/episodic/decay.py by the similarity in thousandths and the memory.
use engram_mem.Base.{
  ℕ, ◌+◌, ◌-◌, ◌*◌, min, String, Bool, true, not, ◌&&◌, ◌==◌, Option, none, some, List, [], ◌∷◌,
  map, filter_by, any_of, take, drop, length, str_eq, if◌then◌else◌,
}
use engram_mem.Base.Sort.{sort_down}
use engram_mem.Episodic.{
  Point, FtsRow, contains, get_many, retrieve, Clause, operators, joined, word, instant,
  build_filter, passes,
}
use engram_mem.Episodic.Maintenance.{everything, is_expired}

-- A point that the vector search finds, with its distance in thousandths.
pub record Hit : Type 0 where
  pub point : Point
  pub distance : ℕ

pub record Scored : Type 0 where
  pub score : ℕ
  pub memory : Point

-- `all(t in memory.tags for t in tags)`
unfoldable pub has_tags : List String → Point → Bool
has_tags [] p = true
has_tags (t ∷ tags) p = contains t p.tags && has_tags tags p

-- A hit that a search answers with: neither expired nor outdated, and with every tag.
unfoldable pub is_result : ℕ → List String → Point → Bool
unfolding is_expired has_tags
is_result now tags p = not (is_expired now p) && not p.outdated && has_tags tags p

-- `min(1.0, confidence + 0.1)` and one more access.
unfoldable pub accessed : ℕ → Point → Point
accessed now p = record p {
  access_count = p.access_count + 1;
  last_accessed = some now;
  confidence = min 100 (p.confidence + 10);
}

-- `update` of the points with these ids by what the search has read of them.
unfoldable pub write_access : ℕ → Point → Point → Point
write_access now read p =
    if str_eq p.id read.id
    then record p {
      access_count = (accessed now read).access_count;
      last_accessed = (accessed now read).last_accessed;
      confidence = (accessed now read).confidence;
    }
    else p

unfoldable pub track_access : ℕ → List Point → List Point → List Point
unfolding write_access accessed
track_access now [] points = points
track_access now (read ∷ reads) points = track_access now reads (map (write_access now read) points)

-- `collection_count or 1`
abbrev pub or_one : ℕ → ℕ
or_one n = if n == 0 then 1 else n

abbrev pub points_of : List Hit → List Point
points_of = map (λ h. h.point)

-- What a search asks of the collection.
pub record Query : Type 0 where
  pub limit : ℕ
  pub offset : ℕ
  pub tags : List String
  pub where_ : List Clause

-- `entity_set & set(m.entities)`
unfoldable pub shares_entity : List String → Point → Bool
shares_entity entities p = any_of (λ e. contains e p.entities) entities

abbrev pub plain : ℕ → List Clause → Query
plain limit where_ = record { limit = limit; offset = 0; tags = []; where_ = where_ }

-- The filters of `filtered_search` and of `temporal_search`.
abbrev pub type_clauses : Option String → List Clause
type_clauses none = []
type_clauses (some type) =
    if str_eq type "" then [] else operators "memory_type" (("$eq", word type) ∷ []) ∷ []

abbrev pub time_clauses : Option ℕ → Option ℕ → List Clause
time_clauses none none = []
time_clauses (some start) none = operators "timestamp" (("$gte", instant start) ∷ []) ∷ []
time_clauses none (some end) = operators "timestamp" (("$lte", instant end) ∷ []) ∷ []
time_clauses (some start) (some end) =
    joined "$and"
      (("timestamp", ("$gte", instant start) ∷ []) ∷ ("timestamp", ("$lte", instant end) ∷ []) ∷ [])
    ∷ []

module _ (activation : ℕ → Point → ℕ → ℕ) (nearest : List Point → ℕ → List Hit) where
  -- `max(0.0, 1.0 - distance)` is the similarity.
  unfoldable pub scored : ℕ → List String → List Hit → List Scored
  unfolding is_result
  scored now tags [] = []
  scored now tags (h ∷ hits) =
      let rest = scored now tags hits in
      if is_result now tags h.point
      then record { score = activation (1000 - h.distance) h.point now; memory = h.point } ∷ rest
      else rest

  unfoldable pub hits_of : Query → List Point → List Hit
  unfolding build_filter passes
  hits_of q points =
      nearest (filter_by (passes (build_filter q.where_)) points)
        (min (q.limit + q.offset) (or_one (length points)))

  -- The results best first; only a search with an offset is cut to the limit here.
  unfoldable pub ranked : ℕ → Query → List Hit → List Scored
  unfolding scored
  ranked now q hits =
      let sorted = sort_down (λ s. s.score) (scored now q.tags hits) in
      if q.offset == 0 then sorted else take q.limit (drop q.offset sorted)

  -- A search at a time `now`: the results and the collection with the accesses noted; `update_fails`
  -- says that the update raises, which is only logged.
  unfoldable pub search : ℕ → Bool → Query → List Point → List Point × List Point
  unfolding ranked scored track_access hits_of
  search now update_fails q points =
      let hits = hits_of q points in
      let found = map (λ s. s.memory) (scored now q.tags hits) in
      (
        map (λ s. s.memory) (ranked now q hits),
        if update_fails then points else track_access now found points,
      )

  unfoldable pub filtered_search :
      ℕ → Bool → Option String → List String → ℕ → List Point → List Point × List Point
  unfolding search shares_entity
  filtered_search now update_fails memory_type [] limit points =
      let (results, points') =
        search now update_fails (plain limit (type_clauses memory_type)) points in
      (take limit results, points')
  filtered_search now update_fails memory_type (e ∷ entities) limit points =
      let (results, points') =
        search now update_fails (plain (limit * 3) (type_clauses memory_type)) points in
      (take limit (filter_by (shares_entity (e ∷ entities)) results), points')

  unfoldable pub temporal_search :
      ℕ → Bool → Option ℕ → Option ℕ → ℕ → List Point → List Point × List Point
  unfolding search
  temporal_search now update_fails start end limit points =
      search now update_fails (plain limit (time_clauses start end)) points

-- The rows that the full-text search finds, in its order; the points come as the collection gives them.
unfoldable pub search_fulltext : List FtsRow → List Point → List Point
unfolding retrieve
search_fulltext [] points = []
search_fulltext (r ∷ rows) points = retrieve (map (λ r. r.id) (r ∷ rows)) points

-- The page of the newest memories that `get_recent` asks for.
abbrev pub tail_page : Bool → ℕ → List Point → List Point
tail_page has_index n points =
    let count = length points in
    let fetch_limit = min (min (n * 5) count) 2000 in
    get_many has_index everything (some fetch_limit) (some (count - fetch_limit)) points

-- The page that `get_recent` asks for; an empty filter counts as none.
unfoldable pub recent_page : Bool → ℕ → Option (List Clause) → List Point → List Point
unfolding get_many
recent_page has_index n none points = tail_page has_index n points
recent_page has_index n (some []) points = tail_page has_index n points
recent_page has_index n (some (c ∷ where_)) points =
    get_many has_index (c ∷ where_) none none points

unfoldable pub get_recent : Bool → ℕ → Option (List Clause) → List Point → List Point
unfolding recent_page
get_recent has_index n where_ points =
    if length points == 0
    then []
    else take (min n 1000)
        (sort_down (λ p. p.timestamp) (recent_page has_index (min n 1000) where_ points))
