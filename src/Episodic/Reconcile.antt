-- ===== src/Episodic/Reconcile.antt =====
-- `reconcile_stores` of src/engram/episodic/episodic_maintenance.py against what it promises, an index
-- with the ids of the collection.
use engram_mem.Base.{
  ◌≤◌, ◌≡◌, ◌∙◌, String, Bool, true, false, Option, none, some, List, length, arith,
}
use engram_mem.Episodic.{Point, FtsRow, contains, ids_of, get_many, fts_get_all_ids}
use engram_mem.Episodic.Maintenance.{
  EpisodicStore, everything, set_of, minus, reconcile_rows, reconcile_stores,
}
use engram_mem.Episodic.Ids.{
  contains-minus, contains-set_of, has_row, has_row-reconcile_rows, contains-get_many,
  contains-get_many_all,
}

abbrev pub indexed : String → Option (List FtsRow) → Bool
indexed x none = false
indexed x (some rows) = has_row x rows

reconciled_rows :
    (x : String) (page points : List Point) (rows : List FtsRow)
    → (contains x (ids_of page) ≡ true → contains x (ids_of points) ≡ true)
    → let chroma_ids = set_of (ids_of page) in
      let fts_ids = set_of (fts_get_all_ids rows) in
      has_row x (reconcile_rows (minus fts_ids chroma_ids) (minus chroma_ids fts_ids) points rows)
      ≡ contains x (ids_of page)
reconciled_rows x page points rows h =
    let chroma_ids = set_of (ids_of page) in
    let fts_ids = set_of (fts_get_all_ids rows) in
    ground (
      arith,
      has_row-reconcile_rows x (minus fts_ids chroma_ids) (minus chroma_ids fts_ids) points rows,
      contains-minus x fts_ids chroma_ids,
      contains-minus x chroma_ids fts_ids,
      contains-set_of x (ids_of page),
      contains-set_of x (fts_get_all_ids rows),
      h,
    )

-- After a reconciliation the index has exactly the ids that one request to the collection gives, which
-- are at most 100; every other row is deleted, also that of a memory in the collection.
pub reconcile_stores_lem :
    (has_index : Bool) (s : EpisodicStore) (rows : List FtsRow) (x : String)
    → s.fts ≡ some rows
    → indexed x (reconcile_stores has_index s).1.fts
      ≡ contains x (ids_of (get_many has_index everything none none s.points))
unfolding reconcile_stores
reconcile_stores_lem has_index s rows x e =
    rw (e, reconcile_stores)
      (reconciled_rows x (get_many has_index everything none none s.points) s.points rows
        (contains-get_many x has_index none none s.points))

-- With an index and at most 100 memories in the collection, a reconciliation leaves an index that has
-- exactly the ids of the collection, whatever was in it before.
pub reconcile_stores-indexed :
    (has_index : Bool) (s : EpisodicStore) (rows : List FtsRow) (x : String)
    → s.fts ≡ some rows
    → length s.points ≤ 100
    → indexed x (reconcile_stores has_index s).1.fts ≡ contains x (ids_of s.points)
reconcile_stores-indexed has_index s rows x e h =
    reconcile_stores_lem has_index s rows x e
    ∙ contains-get_many_all x has_index none none s.points h
