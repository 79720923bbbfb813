-- ===== src/Semantic/Orphans.antt =====
-- src/engram/semantic/orphan_linker.py: links for nodes without edges, suggested by the memories that
-- mention them beside other nodes. A memory is the list of its entities, `fold` is `str.casefold`, and
-- a set is a list without repetitions.
use engram_mem.Base.{
  ℕ, ◌+◌, ◌*◌, min, String, Bool, true, false, not, ◌&&◌, ◌||◌, Option, none, some, List, [], ◌∷◌,
  ◌++◌, map, filter_by, any_of, take, length, ltb, str_eq, if◌then◌else◌,
}
use engram_mem.Base.Dict.{get, put}
use engram_mem.Base.Sort.{sort_down}
use engram_mem.Base.Texts.{strip}
use engram_mem.Semantic.{Value.text, Value.number, SemanticNode, SemanticEdge, node_key, Networkx}
use engram_mem.Semantic.Merge.{contains}
use engram_mem.Semantic.Graph.{Call, SemanticGraph, ◌>>>◌}
use engram_mem.Semantic.Writes.{add_edge}

pub record LinkSuggestion : Type 0 where
  pub orphan_key : String
  pub target_key : String
  pub relation : String
  pub co_mentions : ℕ

-- The relation, and whether it leads from the target to the orphan.
unfoldable pub infer_relation : String → String → Option (String × Bool)
infer_relation orphan_type target_type =
    if not (str_eq target_type "Project")
    then none
    else if str_eq orphan_type "Technology" || str_eq orphan_type "Service"
    then some ("uses", true)
    else if str_eq orphan_type "Server"
    then some ("deployed_on", true)
    else if str_eq orphan_type "Environment"
    then some ("runs_on", true)
    else if str_eq orphan_type "Person"
    then some ("works_on", false)
    else none

-- A degree of the node is not 0.
unfoldable pub is_linked : List SemanticEdge → String → Bool
is_linked edges key = any_of (λ e. str_eq e.from_node key || str_eq e.to_node key) edges

-- `{n.key: n.type for n in nodes}`
unfoldable pub types_of : List SemanticNode → List (String × String) → List (String × String)
unfolding node_key
types_of [] types = types
types_of (n ∷ nodes) types = types_of nodes (put types (node_key n) n.type)

abbrev pub keys_at : List (String × List String) → String → List String
keys_at index name = elim (get index name) [ none ↦ [] | some keys ↦ keys ]

unfoldable pub add_all : List String → List String → List String
add_all [] present = present
add_all (k ∷ keys) present =
    add_all keys (if contains k present then present else present ++ k ∷ [])

module _ (fold : String → String) where
  -- `name_to_keys`
  unfoldable pub index_names :
      List SemanticNode → List (String × List String) → List (String × List String)
  unfolding node_key
  index_names [] index = index
  index_names (n ∷ nodes) index =
      index_names nodes (put index (fold n.name) (keys_at index (fold n.name) ++ node_key n ∷ []))

  -- The keys of the nodes that the entities name.
  unfoldable pub present_of : List (String × List String) → List String → List String → List String
  unfolding add_all
  present_of index [] present = present
  present_of index (e ∷ entities) present =
      present_of index entities (add_all (keys_at index (fold e)) present)

pub record Pair : Type 0 where
  pub orphan : String
  pub target : String
  pub count : ℕ

-- `pair_counts[(orphan, target)] += 1`
unfoldable pub bump : String → String → List Pair → List Pair
bump orphan target [] = record { orphan = orphan; target = target; count = 1 } ∷ []
bump orphan target (p ∷ pairs) =
    let rest = bump orphan target pairs in
    if str_eq p.orphan orphan && str_eq p.target target
    then record p { count = p.count + 1 } ∷ pairs
    else p ∷ rest

unfoldable pub bump_targets : String → List String → List Pair → List Pair
unfolding bump
bump_targets orphan [] pairs = pairs
bump_targets orphan (t ∷ targets) pairs =
    bump_targets orphan targets (if str_eq orphan t then pairs else bump orphan t pairs)

unfoldable pub bump_orphans : List String → List String → List Pair → List Pair
unfolding bump_targets
bump_orphans [] targets pairs = pairs
bump_orphans (o ∷ orphans) targets pairs =
    bump_orphans orphans targets (bump_targets o targets pairs)

-- The entities of a memory that are not blank.
unfoldable pub named_entities : List String → List String
unfolding strip
named_entities entities = filter_by (λ e. not (str_eq e "")) (map strip entities)

module _ (fold : String → String) (edges : List SemanticEdge) where
  -- What one memory adds.
  unfoldable pub count_memory : List (String × List String) → List String → List Pair → List Pair
  unfolding bump_orphans present_of is_linked named_entities
  count_memory index memory pairs =
      let entities = named_entities memory in
      let present = present_of fold index entities [] in
      if ltb (length entities) 2 || ltb (length present) 2
      then pairs
      else bump_orphans (filter_by (λ k. not (is_linked edges k)) present)
          (filter_by (is_linked edges) present) pairs

  unfoldable pub count_memories :
      List (String × List String) → List (List String) → List Pair → List Pair
  unfolding count_memory
  count_memories index [] pairs = pairs
  count_memories index (m ∷ memories) pairs =
      count_memories index memories (count_memory index m pairs)

unfoldable pub is_existing : List SemanticEdge → String → String → String → Bool
is_existing edges from_key to_key relation =
    any_of
      (λ e. str_eq e.from_node from_key && str_eq e.to_node to_key && str_eq e.relation relation)
      edges

abbrev pub type_at : List (String × String) → String → String
type_at types key = elim (get types key) [ none ↦ "" | some t ↦ t ]

-- The ends of the edge.
abbrev pub directed : Bool → String → String → String × String
directed true orphan target = (target, orphan)
directed false orphan target = (orphan, target)

-- The suggestion for a pair whose relation is inferred, unless there is that edge.
unfoldable pub link_of : List SemanticEdge → Pair → Option (String × Bool) → Option LinkSuggestion
unfolding is_existing
link_of edges p none = none
link_of edges p (some (relation, from_target)) =
    let (from_key, to_key) = directed from_target p.orphan p.target in
    if is_existing edges from_key to_key relation
    then none
    else some (record {
      orphan_key = p.orphan;
      target_key = p.target;
      relation = relation;
      co_mentions = p.count;
    })

module _ (edges : List SemanticEdge) (types : List (String × String)) (min_co_mentions : ℕ) where
  unfoldable pub suggestion_of : Pair → Option LinkSuggestion
  unfolding infer_relation link_of
  suggestion_of p =
      if ltb p.count min_co_mentions
      then none
      else link_of edges p (infer_relation (type_at types p.orphan) (type_at types p.target))

  unfoldable pub suggestions_of : List Pair → List LinkSuggestion
  unfolding suggestion_of
  suggestions_of [] = []
  suggestions_of (p ∷ pairs) = elim (suggestion_of p) [
    | none ↦ suggestions_of pairs
    | some s ↦ s ∷ suggestions_of pairs
  ]

-- `memories` are the recent ones, by their entities.
unfoldable pub suggest_orphan_links :
    (String → String)
    → List SemanticNode
    → List SemanticEdge
    → List (List String)
    → ℕ
    → List LinkSuggestion
unfolding index_names types_of count_memories suggestions_of
suggest_orphan_links fold nodes edges memories min_co_mentions =
    let pairs = count_memories fold edges (index_names fold nodes []) memories [] in
    sort_down (λ s. s.co_mentions) (suggestions_of edges (types_of nodes []) min_co_mentions pairs)

unfoldable pub autolink : LinkSuggestion → String → Bool → SemanticEdge
autolink s relation from_target =
    let (from_key, to_key) = directed from_target s.orphan_key s.target_key in
    record {
      from_node = from_key;
      to_node = to_key;
      relation = relation;
      weight = min 100 (40 + s.co_mentions * 8);
      attributes = ("source", text "orphan_autolink") ∷ ("co_mentions", number s.co_mentions) ∷ [];
    }

module _ {G : Type 0} (lower : String → String) (nx : Networkx G)
    (types : List (String × String)) where
  -- The loop over the suggestions; an edge that cannot be added ends it.
  unfoldable pub apply_links :
      List LinkSuggestion → ℕ → (Call → Bool) → SemanticGraph G → Option ℕ × SemanticGraph G
  unfolding infer_relation autolink
  apply_links [] applied fails g = (some applied, g)
  apply_links (s ∷ suggestions) applied fails g =
      elim (infer_relation (type_at types s.orphan_key) (type_at types s.target_key)) [
        | none ↦ apply_links suggestions applied fails g
        | some (relation, from_target) ↦
            add_edge lower nx (autolink s relation from_target) fails g
            >>> (λ is_new. apply_links suggestions (applied + 1) fails)
      ]

  unfoldable pub apply_suggestions :
      List LinkSuggestion → ℕ → (Call → Bool) → SemanticGraph G → Option ℕ × SemanticGraph G
  unfolding apply_links
  apply_suggestions suggestions limit fails g = apply_links (take limit suggestions) 0 fails g
