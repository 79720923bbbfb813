-- ===== src/Semantic/Merge.antt =====
-- The rows that `_ensure_loaded` of src/engram/semantic/graph.py reads: their nodes and edges, and nodes
-- with the same key merged.
use engram_mem.Base.{
  String, Bool, true, false, not, ◌&&◌, Option, none, some, List, [], ◌∷◌, ◌++◌, any_of, str_eq,
  if◌then◌else◌,
}
use engram_mem.Base.Dict.{get, put}
use engram_mem.Base.Texts.{characters}
use engram_mem.Semantic.{
  Value, Value.texts, Value.text, SemanticNode, SemanticEdge, new_node, update,
}
use engram_mem.Semantic.Backend.{NodeRow, EdgeRow}

-- `list(value)`, which raises for what is no sequence.
abbrev pub list_of : Value → Option (List String)
list_of (texts names) = some names
list_of (text s) = some (characters s)
list_of _ = none

abbrev pub contains : String → List String → Bool
contains name = any_of (str_eq name)

abbrev pub add_alias : String → String → List String → List String
add_alias name alias aliases =
    if not (str_eq alias "") && not (str_eq alias name) && not (contains alias aliases)
    then aliases ++ alias ∷ []
    else aliases

abbrev pub is_empty : List String → Bool
is_empty [] = true
is_empty (x ∷ xs) = false

-- The aliases that the merged attributes hold, with the names of both nodes.
unfoldable pub merged_aliases :
    SemanticNode → SemanticNode → List (String × Value) → Option (List (String × Value))
merged_aliases old node attributes = elim (get attributes "aliases") [
  | none ↦
      let aliases = add_alias node.name node.name (add_alias node.name old.name []) in
      some (if is_empty aliases then attributes else put attributes "aliases" (texts aliases))
  | some value ↦ elim (list_of value) [
    | none ↦ none
    | some names ↦
        let aliases = add_alias node.name node.name (add_alias node.name old.name names) in
        some (if is_empty aliases then attributes else put attributes "aliases" (texts aliases))
  ]
]

-- A node over one that is there with the same key.
unfoldable pub merge_nodes : Option SemanticNode → SemanticNode → Option SemanticNode
unfolding update merged_aliases new_node
merge_nodes none node = some node
merge_nodes (some old) node =
    let attributes = update old.attributes node.attributes in
    elim (if str_eq old.name node.name
      then some attributes
      else merged_aliases old node attributes) [
        | none ↦ none
        | some merged ↦ some (new_node node.type node.name merged)
      ]

abbrev pub or_empty : Option (List (String × Value)) → List (String × Value)
or_empty none = []
or_empty (some attributes) = attributes

unfoldable pub row_node : NodeRow → SemanticNode
unfolding new_node
row_node r = new_node r.type r.name (or_empty r.attributes)

-- `d.get(key, key)`
abbrev pub mapped : List (String × String) → String → String
mapped d key = elim (get d key) [ none ↦ key | some other ↦ other ]

unfoldable pub row_edge : List (String × String) → EdgeRow → SemanticEdge
row_edge key_map r = record {
  from_node = mapped key_map r.from_key;
  to_node = mapped key_map r.to_key;
  relation = r.relation;
  weight = r.weight;
  attributes = r.attributes;
}
