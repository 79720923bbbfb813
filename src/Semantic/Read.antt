-- ===== src/Semantic/Read.antt =====
-- The reads of `SemanticGraph` in src/engram/semantic/graph.py and `query_related` of semantic/query.py,
-- on a graph that is loaded. `strip_diacritics` and `dumps` are the functions of these names,
-- and `lower` is `str.lower`.
use text.Mathlib.Text.{find?}
use Prim.Native.String.{◌++◌ as join}
use engram_mem.Base.{
  ℕ, ◌+◌, String, Bool, true, false, ◌&&◌, ◌||◌, Option, none, some, List, [], ◌∷◌, ◌++◌, map,
  filter_by, take, length, any_of, str_eq, if◌then◌else◌,
}
use engram_mem.Base.Dict.{get, put}
use engram_mem.Base.Texts.{ends_with, strip}
use engram_mem.Semantic.{Value, SemanticNode, SemanticEdge, edge_key, Arc, Networkx}
use engram_mem.Semantic.Backend.{Backend, query_nodes_by_name}
use engram_mem.Semantic.Merge.{row_node}
use engram_mem.Semantic.Writes.{keys_of}

-- The nodes that have data.
unfoldable pub held_nodes : List (String × Option SemanticNode) → List SemanticNode
held_nodes [] = []
held_nodes ((key, none) ∷ rest) = held_nodes rest
held_nodes ((key, some n) ∷ rest) = n ∷ held_nodes rest

-- `type is None or n.type == type`
abbrev pub is_of_type : Option String → SemanticNode → Bool
is_of_type none n = true
is_of_type (some type) n = str_eq n.type type

abbrev pub joins : Option String → SemanticEdge → Bool
joins none e = true
joins (some key) e = str_eq e.from_node key || str_eq e.to_node key

-- `part in whole`
abbrev pub contains_text : String → String → Bool
contains_text part whole = elim (find? whole part) [ none ↦ false | some at ↦ true ]

abbrev pub edges_of : List Arc → List SemanticEdge
edges_of [] = []
edges_of (a ∷ rest) = a.data_of ∷ edges_of rest

abbrev pub is_same_edge : SemanticEdge → SemanticEdge → Bool
is_same_edge e e' =
    str_eq e.from_node e'.from_node && str_eq e.relation e'.relation && str_eq e.to_node e'.to_node

-- The edges whose `same` has not been seen, `seen` being those that have.
unfoldable pub unseen :
    (SemanticEdge → SemanticEdge → Bool) → List SemanticEdge → List SemanticEdge → List SemanticEdge
unseen same seen [] = []
unseen same seen (e ∷ rest) =
    if any_of (same e) seen then unseen same seen rest else e ∷ unseen same (e ∷ seen) rest

unfoldable pub count_types : List SemanticNode → List (String × ℕ) → List (String × ℕ)
count_types [] counts = counts
count_types (n ∷ rest) counts = elim (get counts n.type) [
  | none ↦ count_types rest (put counts n.type 1)
  | some count ↦ count_types rest (put counts n.type (count + 1))
]

pub record Related : Type 0 where
  pub nodes : List SemanticNode
  pub edges : List SemanticEdge

-- The data of a node that is there.
unfoldable pub value_at : List (String × Option SemanticNode) → String → Option SemanticNode
value_at nodes key = elim (get nodes key) [ none ↦ none | some found ↦ found ]

module _ {G : Type 0} (nx : Networkx G) where
  -- `self._graph.nodes[key].get("data")`
  unfoldable pub held : G → String → Option SemanticNode
  unfolding value_at
  held g key = value_at (nx.nodes g) key

  unfoldable pub get_node : String → G → Option SemanticNode
  unfolding held
  get_node key g = held g key

  unfoldable pub get_nodes : Option String → G → List SemanticNode
  unfolding held_nodes
  get_nodes type g = filter_by (is_of_type type) (held_nodes (nx.nodes g))

  unfoldable pub get_edges : Option String → G → List SemanticEdge
  get_edges key g = filter_by (joins key) (edges_of (nx.arcs g))

  unfoldable pub nodes_at : List String → G → List SemanticNode
  unfolding held
  nodes_at [] g = []
  nodes_at (key ∷ rest) g = elim (held g key) [
    | none ↦ nodes_at rest g
    | some n ↦ n ∷ nodes_at rest g
  ]

  -- The edges that leave the nodes, in the order of the nodes.
  unfoldable pub arcs_from : List String → G → List Arc
  arcs_from [] g = []
  arcs_from (key ∷ rest) g = filter_by (λ a. str_eq a.source key) (nx.arcs g) ++ arcs_from rest g

  unfoldable pub related_to : ℕ → ℕ → G → List String → Related
  unfolding nodes_at arcs_from unseen
  related_to depth cap g [] = record { nodes = []; edges = [] }
  related_to depth cap g (start ∷ starts) =
      let visited = take cap (nx.within g start depth) in
      let rest = related_to depth cap g starts in
      record {
        nodes = nodes_at visited g ++ rest.nodes;
        edges = unseen is_same_edge [] (edges_of (arcs_from visited g)) ++ rest.edges;
      }

  -- `cap` is `max_nodes` or, if it is not given, the limit of the graph.
  unfoldable pub get_related :
      List String → ℕ → ℕ → G → List (String × Related) → List (String × Related)
  unfolding related_to ends_with strip
  get_related [] depth cap g result = result
  get_related (name ∷ names) depth cap g result =
      let starts = filter_by (λ k. ends_with k (join ":" (strip name))) (keys_of (nx.nodes g)) in
      get_related names depth cap g (put result name (related_to depth cap g starts))

  -- `number_of_nodes`, `number_of_edges` and the nodes by type.
  unfoldable pub stats : G → ℕ × ℕ × List (String × ℕ)
  unfolding held_nodes count_types
  stats g = (length (nx.nodes g), length (nx.arcs g), count_types (held_nodes (nx.nodes g)) [])

  unfoldable pub dump : G → List SemanticNode × List SemanticEdge
  unfolding get_nodes get_edges
  dump g = (get_nodes none g, get_edges none g)

  unfoldable pub query_related : String → ℕ → G → Related
  unfolding nodes_at unseen
  query_related key depth g = elim (get (nx.nodes g) key) [
    | none ↦ record { nodes = []; edges = [] }
    | some found ↦
        let visited = nx.within g key depth in
        let is_visited = λ (k : String). any_of (str_eq k) visited in
        let near = filter_by (λ a. is_visited a.source || is_visited a.target) (nx.arcs g) in
        record {
          nodes = nodes_at visited g;
          edges = unseen (λ e e'. str_eq (edge_key e) (edge_key e')) [] (edges_of near);
        }
  ]

module _ (lower strip_diacritics : String → String) (dumps : List (String × Value) → String) where
  unfoldable pub is_match : String → SemanticNode → Bool
  is_match keyword n =
      let kw = lower keyword in
      let stripped = strip_diacritics kw in
      let name = lower n.name in
      let attrs = lower (dumps n.attributes) in
      contains_text kw name
      || contains_text kw attrs
      || contains_text stripped (strip_diacritics name)
      || contains_text stripped (strip_diacritics attrs)

  -- The path with `related_to`, which reads the loaded graph; the name it is given is not used.
  unfoldable pub query_loaded :
      {G : Type 0} → Networkx G → String → Option String → G → List SemanticNode
  unfolding held_nodes is_match
  query_loaded nx keyword type g =
      filter_by (is_match keyword) (filter_by (is_of_type type) (held_nodes (nx.nodes g)))

-- The path without it asks the backend; `like` is the LIKE of SQL.
unfoldable pub query_stored :
    (String → String → Bool) → String → Option String → ℕ → ℕ → Backend → List SemanticNode
unfolding query_nodes_by_name row_node
query_stored like keyword type limit offset b =
    let pattern = join (join "%" keyword) "%" in
    filter_by (is_of_type type) (map row_node (query_nodes_by_name like pattern limit offset b))
