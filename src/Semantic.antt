-- ===== src/Semantic.antt =====
-- src/engram/semantic: the graph of entities. This file has the nodes and edges of src/engram/models.py
-- and what graph.py relies on of NetworkX. The text of a JSON column is the value it decodes to, and a
-- weight is in hundredths.
pub mod Backend
pub mod Merge
pub mod Graph
pub mod Writes
pub mod Batches
pub mod Read
pub mod Agree
pub mod Arcs
pub mod Synced
pub mod Runs
pub mod Variants
pub mod OneKey
pub mod Loading
pub mod Joined
pub mod Removal
pub mod Orphans
pub mod Tally
pub mod Mentions
pub mod Counts
pub mod Suggestions
mod Examples
mod LinkExamples
use Prim.Native.String.{◌++◌ as join}
use engram_mem.Base.{
  ℕ, ◌≡◌, String, Bool, true, false, not, ◌&&◌, ◌||◌, Option, none, some, List, [], ◌∷◌, filter_by,
  str_eq, if◌then◌else◌,
}
use engram_mem.Base.Dict.{get, put, pop}
use engram_mem.Base.Texts.{strip, split_colon}

-- The values of attributes that occur: a number is a natural number, and a list has texts.
pub data Value : Type 0 where
  null : Value
  boolean : Bool → Value
  number : ℕ → Value
  text : String → Value
  texts : List String → Value

pub record SemanticNode : Type 0 where
  pub type : String
  pub name : String
  pub attributes : List (String × Value)

pub record SemanticEdge : Type 0 where
  pub from_node : String
  pub to_node : String
  pub relation : String
  pub weight : ℕ
  pub attributes : List (String × Value)

-- The constructor strips the name.
unfoldable pub new_node : String → String → List (String × Value) → SemanticNode
new_node type name attributes = record { type = type; name = strip name; attributes = attributes }

unfoldable pub node_key : SemanticNode → String
node_key n = join (join n.type ":") n.name

unfoldable pub edge_key : SemanticEdge → String
edge_key e = join (join (join (join e.from_node "--") e.relation) "-->") e.to_node

unfoldable pub canonicalize_node_key : String → String
canonicalize_node_key key = elim (split_colon key) [
  | none ↦ key
  | some (type, name) ↦ join (join type ":") (strip name)
]

-- `d.update(changes)`
unfoldable pub update : List (String × Value) → List (String × Value) → List (String × Value)
update d [] = d
update d ((name, value) ∷ changes) = update (put d name value) changes

-- An edge of a MultiDiGraph, `data` being its attribute of this name.
pub record Arc : Type 0 where
  pub source : String
  pub target : String
  pub key : String
  pub data_of : SemanticEdge

unfoldable pub is_arc : String → String → String → Arc → Bool
is_arc u v k a = str_eq a.source u && str_eq a.target v && str_eq a.key k

unfoldable pub find_arc : String → String → String → List Arc → Option SemanticEdge
unfolding is_arc
find_arc u v k [] = none
find_arc u v k (a ∷ arcs) = if is_arc u v k a then some a.data_of else find_arc u v k arcs

-- An edge leaves the node or comes to it.
unfoldable pub touches : String → Arc → Bool
touches key a = str_eq a.source key || str_eq a.target key

-- A node that an edge brings in has no data.
unfoldable pub ensure :
    String → List (String × Option SemanticNode) → List (String × Option SemanticNode)
ensure key nodes = elim (get nodes key) [ none ↦ put nodes key none | some held ↦ nodes ]

-- What the graph relies on of `networkx.MultiDiGraph`, `G` being its type: `nodes` are the nodes with
-- their attribute `data` in the order in which they came, `arcs` the edges. `within g start cutoff`
-- are the keys of `single_source_shortest_path_length`.
pub record Networkx (G : Type 0) : Type 0 where
  pub empty : G
  pub nodes : G → List (String × Option SemanticNode)
  pub arcs : G → List Arc
  pub add_node : G → String → SemanticNode → G
  pub add_edge : G → String → String → String → SemanticEdge → G
  pub remove_node : G → String → G
  pub remove_edge : G → String → String → String → G
  pub within : G → String → ℕ → List String
  pub nodes-empty : nodes empty ≡ []
  pub arcs-empty : arcs empty ≡ []
  pub nodes-add_node :
      (g : G) (k : String) (n : SemanticNode) → nodes (add_node g k n) ≡ put (nodes g) k (some n)
  pub arcs-add_node : (g : G) (k : String) (n : SemanticNode) → arcs (add_node g k n) ≡ arcs g
  pub nodes-add_edge :
      (g : G) (u v k : String) (e : SemanticEdge)
      → nodes (add_edge g u v k e) ≡ ensure v (ensure u (nodes g))
  pub arcs-add_edge :
      (g : G) (u v k : String) (e : SemanticEdge) (u' v' k' : String)
      → find_arc u' v' k' (arcs (add_edge g u v k e))
        ≡ (if str_eq u u' && str_eq v v' && str_eq k k' then some e else find_arc u' v' k' (arcs g))
  pub nodes-remove_node : (g : G) (k : String) → nodes (remove_node g k) ≡ pop (nodes g) k
  pub arcs-remove_node :
      (g : G) (k : String) → arcs (remove_node g k) ≡ filter_by (λ a. not (touches k a)) (arcs g)
  pub nodes-remove_edge : (g : G) (u v k : String) → nodes (remove_edge g u v k) ≡ nodes g
  pub arcs-remove_edge :
      (g : G) (u v k : String)
      → arcs (remove_edge g u v k) ≡ filter_by (λ a. not (is_arc u v k a)) (arcs g)
