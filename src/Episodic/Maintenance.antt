-- ===== src/Episodic/Maintenance.antt =====
-- `reconcile_stores` and `cleanup_expired` of src/engram/episodic/episodic_maintenance.py. `has_index`
-- says whether the collection can be read in the order of the timestamps.
use engram_mem.Base.{
  ℕ, zero, suc, ◌+◌, String, Bool, false, not, Option, none, some, List, [], ◌∷◌, ◌++◌, map,
  filter_by, take, drop, length, ltb, ◌==◌, if◌then◌else◌,
}
use engram_mem.Episodic.{
  Clause, Point, FtsRow, contains, ids_of, get_many, retrieve, delete_points, fts_get_all_ids,
  fts_insert_batch, fts_delete_all,
}

-- `fts` is `none` for a store without an index, and `audit` has the numbers of deleted memories.
pub record EpisodicStore : Type 0 where
  pub points : List Point
  pub fts : Option (List FtsRow)
  pub audit : List ℕ

pub record Reconciled : Type 0 where
  pub orphaned_removed : ℕ
  pub missing_added : ℕ

abbrev pub everything : List Clause
everything = []

-- `set(xs)`: a list without repetitions.
unfoldable pub set_of : List String → List String
set_of [] = []
set_of (x ∷ xs) = let rest = set_of xs in if contains x rest then rest else x ∷ rest

-- `xs - ys`
unfoldable pub minus : List String → List String → List String
minus xs ys = filter_by (λ x. not (contains x ys)) xs

unfoldable pub row_of_point : Point → FtsRow
row_of_point p = record {
  id = p.id;
  content = p.document;
  memory_type = elim p.memory_type [ none ↦ "fact" | some t ↦ t ];
}

-- The rows afterwards, without those of `orphaned` and with those of `missing`.
unfoldable pub reconcile_rows : List String → List String → List Point → List FtsRow → List FtsRow
unfolding fts_delete_all retrieve row_of_point fts_insert_batch
reconcile_rows orphaned missing points rows =
    fts_insert_batch (map row_of_point (retrieve missing points)) (fts_delete_all orphaned rows)

unfoldable pub reconcile_stores : Bool → EpisodicStore → Reconciled × EpisodicStore
unfolding get_many fts_get_all_ids set_of minus reconcile_rows
reconcile_stores has_index s = elim s.fts [
  | none ↦ (record { orphaned_removed = 0; missing_added = 0 }, s)
  | some rows ↦
      let chroma_ids = set_of (ids_of (get_many has_index everything none none s.points)) in
      let fts_ids = set_of (fts_get_all_ids rows) in
      let orphaned = minus fts_ids chroma_ids in
      let missing = minus chroma_ids fts_ids in
      (
        record { orphaned_removed = length orphaned; missing_added = length missing },
        record s { fts = some (reconcile_rows orphaned missing s.points rows) },
      )
]

abbrev pub page_size : ℕ
page_size = 1000

-- `range(offset, total, page)` on fuel.
unfoldable pub page_offsets : ℕ → ℕ → ℕ → ℕ → List ℕ
page_offsets zero page offset total = []
page_offsets (suc fuel) page offset total =
    let rest = page_offsets fuel page (offset + page) total in
    if ltb offset total then offset ∷ rest else []

-- `expires_at` lies before `now`.
unfoldable pub is_expired : ℕ → Point → Bool
is_expired now p = elim p.expires_at [ none ↦ false | some expires ↦ ltb expires now ]

-- The ids that the pages give, up to the first page that cannot be read.
unfoldable pub expired_ids : Bool → ℕ → (ℕ → Bool) → List ℕ → List Point → List String
unfolding get_many is_expired
expired_ids has_index now fails [] points = []
expired_ids has_index now fails (offset ∷ offsets) points =
    if fails offset
    then []
    else ids_of (
        filter_by (is_expired now)
          (get_many has_index everything (some page_size) (some offset) points))
      ++ expired_ids has_index now fails offsets points

-- Deletion in batches: both stores, batch by batch, on fuel.
unfoldable pub delete_batches : ℕ → ℕ → List String → EpisodicStore → EpisodicStore
unfolding delete_points fts_delete_all
delete_batches zero page ids s = s
delete_batches (suc fuel) page [] s = s
delete_batches (suc fuel) page (id ∷ ids) s =
    let batch = take page (id ∷ ids) in
    delete_batches fuel page (drop page (id ∷ ids)) (record s {
      points = delete_points batch s.points;
      fts = elim s.fts [ none ↦ none | some rows ↦ some (fts_delete_all batch rows) ];
    })

abbrev pub note_deleted : ℕ → EpisodicStore → EpisodicStore
note_deleted n s = if n == 0 then s else record s { audit = s.audit ++ n ∷ [] }

-- The number of ids that are deleted, at a time `now`; `fails` says which pages cannot be read.
unfoldable pub cleanup_expired : Bool → ℕ → (ℕ → Bool) → EpisodicStore → ℕ × EpisodicStore
unfolding page_offsets expired_ids delete_batches
cleanup_expired has_index now fails s =
    let total = length s.points in
    let ids = expired_ids has_index now fails (page_offsets total page_size 0 total) s.points in
    (length ids, note_deleted (length ids) (delete_batches (length ids) page_size ids s))
