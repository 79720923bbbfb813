-- ===== src/Episodic.antt =====
-- src/engram/episodic: the vector store and its full-text index. This file has the calls of
-- qdrant_backend.py and fts_index.py; the collection is the list of its points, the index the list of
-- its rows. A payload has the fields that the store reads; times are numbers, and an `expires_at` that
-- cannot be parsed is absent; `other` are the fields of text that only filters read. Confidence is in hundredths.
pub mod Maintenance
pub mod Ids
pub mod Reconcile
pub mod Pages
pub mod Expired
pub mod Search
pub mod Filters
pub mod Results
pub mod Recent
pub mod Dedup
pub mod Winners
pub mod Updated
mod Examples
use text.Mathlib.Text.{starts_with}
use engram_mem.Base.Dict.{get}
use engram_mem.Base.{
  ℕ, ◌+◌, String, Bool, true, false, not, ◌&&◌, ◌==◌, Option, none, some, List, [], ◌∷◌, ◌++◌, map,
  filter_by, any_of, take, length, str_eq, if◌then◌else◌,
}
use engram_mem.Base.Sort.{sort_down}

pub record Point : Type 0 where
  pub id : String
  pub document : String
  pub memory_type : Option String
  pub timestamp : ℕ
  pub expires_at : Option ℕ
  pub outdated : Bool
  pub tags : List String
  pub entities : List String
  pub access_count : ℕ
  pub last_accessed : Option ℕ
  pub confidence : ℕ
  pub priority : ℕ
  pub other : List (String × String)

-- A field of a payload: a text, or the timestamp, which is a number here.
pub data FieldValue : Type 0 where
  word : String → FieldValue
  instant : ℕ → FieldValue

-- The items of a `where` clause: `key: value`, `key: {op: value}`, and `$and` or `$or` with its
-- clauses.
pub data Clause : Type 0 where
  equals : String → FieldValue → Clause
  operators : String → List (String × FieldValue) → Clause
  joined : String → List (String × List (String × FieldValue)) → Clause

pub record FieldCondition : Type 0 where
  pub key : String
  pub value : FieldValue

abbrev pub is_value : FieldValue → FieldValue → Bool
is_value (word s) (word t) = str_eq s t
is_value (instant m) (instant n) = m == n
is_value _ _ = false

-- `MatchValue`: the payload has the value under the key.
unfoldable pub has_value : String → FieldValue → Point → Bool
has_value key value p =
    if str_eq key "memory_type"
    then elim p.memory_type [ none ↦ false | some t ↦ is_value (word t) value ]
    else if str_eq key "timestamp"
    then is_value (instant p.timestamp) value
    else elim (get p.other key) [ none ↦ false | some t ↦ is_value (word t) value ]

-- `$eq` is the only operator that makes a condition.
unfoldable pub conditions_of : String → List (String × FieldValue) → List FieldCondition
conditions_of key [] = []
conditions_of key ((op, value) ∷ ops) =
    let rest = conditions_of key ops in
    if str_eq op "$eq" then record { key = key; value = value } ∷ rest else rest

-- `_build_qdrant_filter`: the conditions of the filter, none for no filter.
unfoldable pub build_filter : List Clause → List FieldCondition
unfolding conditions_of
build_filter [] = []
build_filter (equals key value ∷ where_) =
    let rest = build_filter where_ in
    if starts_with key "$" then rest else record { key = key; value = value } ∷ rest
build_filter (operators key ops ∷ where_) =
    let rest = build_filter where_ in
    if starts_with key "$" then rest else conditions_of key ops ++ rest
build_filter (joined op clauses ∷ where_) = build_filter where_

-- `must` of the filter.
unfoldable pub passes : List FieldCondition → Point → Bool
unfolding has_value
passes [] p = true
passes (c ∷ conditions) p = has_value c.key c.value p && passes conditions p

pub record FtsRow : Type 0 where
  pub id : String
  pub content : String
  pub memory_type : String

abbrev pub contains : String → List String → Bool
contains x = any_of (str_eq x)

abbrev pub ids_of : List Point → List String
ids_of = map (λ p. p.id)

-- `limit or 100`
abbrev pub limit_or_100 : Option ℕ → ℕ
limit_or_100 none = 100
limit_or_100 (some n) = if n == 0 then 100 else n

-- The order of `scroll`: the newest first, or as the points are stored where the collection has no
-- index of the timestamps.
unfoldable pub scroll_order : Bool → List Point → List Point
scroll_order has_index points = if has_index then sort_down (λ p. p.timestamp) points else points

-- `get_many` without ids: `offset` is not used.
unfoldable pub get_many : Bool → List Clause → Option ℕ → Option ℕ → List Point → List Point
unfolding scroll_order build_filter passes
get_many has_index where_ limit offset points =
    take (limit_or_100 limit)
      (scroll_order has_index (filter_by (passes (build_filter where_)) points))

-- `get_many` with ids
unfoldable pub retrieve : List String → List Point → List Point
retrieve ids points = filter_by (λ p. contains p.id ids) points

-- `delete`
unfoldable pub delete_points : List String → List Point → List Point
delete_points ids points = filter_by (λ p. not (contains p.id ids)) points

unfoldable pub fts_delete : String → List FtsRow → List FtsRow
fts_delete id rows = filter_by (λ r. not (str_eq r.id id)) rows

unfoldable pub fts_insert : FtsRow → List FtsRow → List FtsRow
unfolding fts_delete
fts_insert row rows = fts_delete row.id rows ++ row ∷ []

-- `insert_batch`: the rows with these ids are deleted first, then all are inserted.
unfoldable pub fts_insert_batch : List FtsRow → List FtsRow → List FtsRow
fts_insert_batch batch rows =
    filter_by (λ r. not (contains r.id (map (λ b. b.id) batch))) rows ++ batch

unfoldable pub fts_get_all_ids : List FtsRow → List String
fts_get_all_ids rows = map (λ r. r.id) rows

unfoldable pub fts_delete_all : List String → List FtsRow → List FtsRow
unfolding fts_delete
fts_delete_all [] rows = rows
fts_delete_all (id ∷ ids) rows = fts_delete_all ids (fts_delete id rows)
