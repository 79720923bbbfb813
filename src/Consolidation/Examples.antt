-- ===== src/Consolidation/Examples.antt =====
-- Clustering at concrete memories.
use engram_mem.Base.{arith, ◌≢◌, String, str_eq_iff, ℕ, ◌≡◌, refl, List, [], ◌∷◌, none, some, take}
use engram_mem.Consolidation.UnionFind.{find, union}
use engram_mem.Consolidation.Cluster.{Memory, Threshold, cluster_by_overlap, pick_all}
use engram_mem.Consolidation.Linking.{Chain}
use engram_mem.Consolidation.Groups.{IsPartition}
use engram_mem.Consolidation.Partition
use engram_mem.Consolidation.Untouched
use engram_mem.Consolidation.Untouched.{is_member}
use engram_mem.Consolidation.Engine.{
  Memories, ClusterOutcome, stored, consolidate, consolidate_clusters, consolidate_cluster,
  store_summary, is_unconsolidated,
}
use engram_mem.Base.Dict.{get}
use engram_mem.Consolidation.Partition.{cap, Overlap}

abbrev about_db : Memory
about_db = record {
  id = "a";
  content = "uses postgres";
  memory_type = "fact";
  entities = "db" ∷ "ann" ∷ [];
  tags = [];
  consolidated_into = none;
}

abbrev about_ui : Memory
about_ui = record about_db { id = "b"; entities = "ui" ∷ [] }

abbrev about_both : Memory
about_both = record about_db { id = "c"; entities = "db" ∷ []; tags = "ann" ∷ "db" ∷ [] }

abbrev three : List Memory
three = about_db ∷ about_ui ∷ about_both ∷ []

abbrev third : Threshold
third = record { num = 3; den = 10 }

clusters :
    cluster_by_overlap third three ≡ some ((about_db ∷ about_both ∷ []) ∷ (about_ui ∷ []) ∷ [])
unfolding cluster_by_overlap union find
clusters = refl

cluster_by_overlap-IsPartition_example :
    (groups : List (List ℕ)) × (found : List (List Memory)) × (cluster_by_overlap third three
      ≡ some found)
    × (pick_all (take (cap three) three) groups ≡ some found)
    × IsPartition (cap three) (Chain (Overlap third three)) groups
cluster_by_overlap-IsPartition_example = Partition.cluster_by_overlap-IsPartition third three

abbrev dict : Memories
dict =
    ("a", about_db) ∷ ("b", about_ui) ∷ ("c", about_both) ∷ ("z", record about_ui { id = "z" }) ∷ []

summarized : List Memory → ClusterOutcome
summarized cluster = stored "new" "uses postgres"

-- The pair that overlaps is summarized; the third memory is alone and stays.
new_ids :
    (consolidate_clusters 2 summarized ((about_db ∷ about_both ∷ []) ∷ (about_ui ∷ []) ∷ []) dict).0
    ≡ "new" ∷ []
unfolding consolidate_clusters consolidate_cluster store_summary summarized
new_ids = refl

new-ne-z :
    (c : List Memory) (new_id summary : String)
    → summarized c ≡ stored new_id summary
    → new_id ≢ "z"
unfolding summarized
new-ne-z c new_id summary e h = ground (arith, e, h, (str_eq_iff "new" "z").1)

consolidate-untouched_example :
    (out : List String × Memories) × (consolidate third 2 summarized three dict ≡ some out)
    × (get out.1 "z" ≡ get dict "z")
unfolding is_member is_unconsolidated
consolidate-untouched_example =
    Untouched.consolidate-untouched "z" summarized third 2 three dict new-ne-z refl
