-- ===== src/Consolidation/Engine.antt =====
-- `ConsolidationEngine.consolidate` of src/engram/consolidation/engine.py: the loop over the clusters. The
-- store is a dict of memories; what the LLM and `remember` answer for a cluster is an argument.
use engram_mem.Base.{
  ℕ, String, Bool, true, Option, none, some, List, [], ◌∷◌, ◌++◌, length, filter_by, ltb, str_eq,
  if◌then◌else◌, ◌>>=◌,
}
use engram_mem.Base.Dict.{get, put}
use engram_mem.Consolidation.Cluster.{Memory, Threshold, set_union, cluster_by_overlap}

abbrev pub Memories : Type 0
Memories = List (String × Memory)

-- The summary or the storing of a cluster raises, or the summary is stored under a new id.
pub data ClusterOutcome : Type 0 where
  raises : ClusterOutcome
  stored : String → String → ClusterOutcome

-- `not m.consolidated_into`
unfoldable pub is_unconsolidated : Memory → Bool
is_unconsolidated m = elim m.consolidated_into [ none ↦ true | some id ↦ str_eq id "" ]

-- `{e for m in cluster for e in m.entities}`, and for tags.
unfoldable pub all_entities : List Memory → List String
unfolding set_union
all_entities [] = []
all_entities (m ∷ ms) = set_union (set_union [] m.entities) (all_entities ms)

unfoldable pub all_tags : List Memory → List String
unfolding set_union
all_tags [] = []
all_tags (m ∷ ms) = set_union (set_union [] m.tags) (all_tags ms)

-- The memory that `remember` stores.
unfoldable pub summary_memory : String → String → List Memory → Memory
summary_memory new_id summary cluster = record {
  id = new_id;
  content = summary;
  memory_type = "context";
  entities = all_entities cluster;
  tags = all_tags cluster ++ "consolidated" ∷ [];
  consolidated_into = none;
}

-- `update_metadata` of one original.
unfoldable pub mark : String → String → Memories → Memories
mark new_id id d = elim (get d id) [
  | none ↦ d
  | some m ↦ put d id (record m { consolidated_into = some new_id })
]

unfoldable pub mark_originals : String → List Memory → Memories → Memories
mark_originals new_id [] d = d
mark_originals new_id (m ∷ ms) d = mark_originals new_id ms (mark new_id m.id d)

-- The body of the `try`: the new id, if there is one, and the store. `remember` is taken to store the
-- summary under its id at once and `update_metadata` to succeed.
unfoldable pub store_summary : ClusterOutcome → List Memory → Memories → Option String × Memories
store_summary raises cluster d = (none, d)
store_summary (stored new_id summary) cluster d = (
  some new_id,
  mark_originals new_id cluster (put d new_id (summary_memory new_id summary cluster)),
)

unfoldable pub consolidate_cluster :
    ℕ → (List Memory → ClusterOutcome) → List Memory → Memories → Option String × Memories
consolidate_cluster min_cluster_size outcome cluster d =
    if ltb (length cluster) min_cluster_size
    then (none, d)
    else store_summary (outcome cluster) cluster d

abbrev pub add_id : Option String → List String → List String
add_id none ids = ids
add_id (some id) ids = id ∷ ids

unfoldable pub consolidate_clusters :
    ℕ → (List Memory → ClusterOutcome) → List (List Memory) → Memories → List String × Memories
consolidate_clusters min_cluster_size outcome [] d = ([], d)
consolidate_clusters min_cluster_size outcome (c ∷ cs) d =
    let (new, d') = consolidate_cluster min_cluster_size outcome c d in
    let (ids, after) = consolidate_clusters min_cluster_size outcome cs d' in
    (add_id new ids, after)

-- `recent` are the memories that `get_recent` returns.
unfoldable pub consolidate :
    Threshold
    → ℕ
    → (List Memory → ClusterOutcome)
    → List Memory
    → Memories
    → Option (List String × Memories)
consolidate t min_cluster_size outcome recent d =
    let unconsolidated = filter_by is_unconsolidated recent in
    if ltb (length unconsolidated) min_cluster_size
    then some ([], d)
    else cluster_by_overlap t unconsolidated
      >>= (λ clusters. some (consolidate_clusters min_cluster_size outcome clusters d))
