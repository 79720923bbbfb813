-- ===== src/Semantic/LinkExamples.antt =====
-- Suggested links at a small graph.
use engram_mem.Base.{
  ◌≤◌, ◌≡◌, refl, String, Bool, true, false, ◌||◌, some, List, [], ◌∷◌, any_of, str_eq, All,
}
use engram_mem.Base.Sort.{IsDescending, sort_down, sort_by, insert_by}
use engram_mem.Base.Dict.{get, put}
use engram_mem.Base.Texts.{strip}
use engram_mem.Semantic.{SemanticNode, SemanticEdge, node_key}
use engram_mem.Semantic.Orphans.{infer_relation, type_at, types_of, suggest_orphan_links}
use engram_mem.Semantic.Suggestions
use engram_mem.Semantic.Counts.{co_mentioned}

abbrev same : String → String
same s = s

abbrev item : String → String → SemanticNode
item type name = record { type = type; name = name; attributes = [] }

abbrev items : List SemanticNode
items = item "Technology" "Qdrant" ∷ item "Project" "Engram" ∷ item "Person" "Hao" ∷ []

abbrev links : List SemanticEdge
links =
    record {
      from_node = "Person:Hao";
      to_node = "Project:Engram";
      relation = "works_on";
      weight = 100;
      attributes = [];
    }
    ∷ []

abbrev mentions : List (List String)
mentions = ("Qdrant" ∷ "Engram" ∷ []) ∷ (" Engram " ∷ "Qdrant" ∷ "Hao" ∷ []) ∷ ("Engram" ∷ []) ∷ []

-- The technology is linked to the project and not to the person.
suggested :
    suggest_orphan_links same items links mentions 2
    ≡ record {
      orphan_key = "Technology:Qdrant";
      target_key = "Project:Engram";
      relation = "uses";
      co_mentions = 2;
    }
      ∷ []
unfolding suggest_orphan_links node_key strip get put sort_down sort_by insert_by
suggested = refl

suggest_orphan_links-IsOrphan_example :
    let suggestions = suggest_orphan_links same items links mentions 2 in
    let types = types_of items [] in
    All
      (λ s.
        All
          (λ e. (str_eq e.from_node s.orphan_key ≡ false) × (str_eq e.to_node s.orphan_key ≡ false))
          links
        × (any_of (λ e. str_eq e.from_node s.target_key || str_eq e.to_node s.target_key) links
            ≡ true)
        × (2 ≤ s.co_mentions)
        × (s.co_mentions ≤ co_mentioned same items mentions s.orphan_key s.target_key)
        × ((from_target : Bool) × (infer_relation
                (type_at types s.orphan_key)
                (type_at types s.target_key)
              ≡ some (s.relation, from_target))))
      suggestions
    × IsDescending (λ s. s.co_mentions) suggestions
suggest_orphan_links-IsOrphan_example =
    Suggestions.suggest_orphan_links-IsOrphan same items links mentions 2
