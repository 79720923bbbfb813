-- ===== src/Semantic/Graph.antt =====
-- `SemanticGraph` of src/engram/semantic/graph.py: loading and the writes. A method returns its value,
-- `none` for an exception, with the state that it leaves. `lower` is `str.lower`, and `fails` says
-- which calls of the backend raise while the method runs.
use engram_mem.Base.{
  ℕ, ◌≡◌, arith, String, Bool, true, false, ◌&&◌, ◌||◌, Option, none, some, List, [], ◌∷◌, take,
  if◌then◌else◌,
}
use engram_mem.Base.Dict.{get, put}
use engram_mem.Semantic.{SemanticNode, node_key, edge_key, Networkx}
use engram_mem.Semantic.Merge.{contains, merge_nodes, row_node, row_edge}
use engram_mem.Semantic.Backend.{NodeRow, EdgeRow, Backend}

-- The calls of the backend.
pub data Call : Type 0 where
  initializing : Call
  loading_nodes : Call
  loading_edges : Call
  saving : Call
  deleting_edges : Call
  deleting_node : Call
  deleting_edge : Call

pub record AuditEntry : Type 0 where
  pub operation : String
  pub resource_id : String
  pub details : List (String × String)

pub record SemanticGraph (G : Type 0) : Type 0 where
  pub graph : G
  pub backend : Backend
  pub is_loaded : Bool
  pub is_initialized : Bool
  pub max_nodes : ℕ
  pub audit : Option (List AuditEntry)

-- The rest of a method, which an exception skips.
infixl 5 ◌>>>◌
abbrev pub ◌>>>◌ :
    {G A B : Type 0}
    → Option A × SemanticGraph G
    → (A → SemanticGraph G → Option B × SemanticGraph G)
    → Option B × SemanticGraph G
(none, s) >>> f = (none, s)
(some a, s) >>> f = f a s

-- Where the loop over the rows stands: `map_of` is `key_map`.
pub record Loading (G : Type 0) : Type 0 where
  pub graph : G
  pub map_of : List (String × String)
  pub keys : List String

abbrev pub unread : {G : Type 0} → G → Loading G
unread g = record { graph = g; map_of = []; keys = [] }

module _ {G : Type 0} (nx : Networkx G) where
  -- A node in the place of one with the same key, if they merge; the Boolean says that it raised.
  unfoldable pub replace_node : Option SemanticNode → String → Loading G → Bool × Loading G
  replace_node none key l = (true, l)
  replace_node (some merged) key l = (false, record l { graph = nx.add_node l.graph key merged })

  -- `found` is what the graph has under the key.
  unfoldable pub place_node :
      Option (Option SemanticNode) → SemanticNode → String → Loading G → Bool × Loading G
  unfolding replace_node merge_nodes
  place_node none node key l = (false, record l { graph = nx.add_node l.graph key node })
  place_node (some old) node key l = replace_node (merge_nodes old node) key l

  unfoldable pub load_node : NodeRow → Loading G → Bool × Loading G
  unfolding row_node node_key place_node
  load_node r l =
      let node = row_node r in
      let key = node_key node in
      place_node (get (nx.nodes l.graph) key) node key
        (record l { map_of = put l.map_of r.key key; keys = key ∷ l.keys })

  -- The loop stops at a row that raises.
  unfoldable pub load_nodes : List NodeRow → Loading G → Bool × Loading G
  unfolding load_node
  load_nodes [] l = (false, l)
  load_nodes (r ∷ rows) l = elim (load_node r l).0 [
    | true ↦ load_node r l
    | false ↦ load_nodes rows (load_node r l).1
  ]

  unfoldable pub load_edge : List (String × String) → List String → EdgeRow → G → G
  unfolding row_edge edge_key
  load_edge key_map keys r g =
      let edge = row_edge key_map r in
      if contains edge.from_node keys && contains edge.to_node keys
      then nx.add_edge g edge.from_node edge.to_node (edge_key edge) edge
      else g

  unfoldable pub load_edges : List (String × String) → List String → List EdgeRow → G → G
  unfolding load_edge
  load_edges key_map keys [] g = g
  load_edges key_map keys (r ∷ rows) g = load_edges key_map keys rows (load_edge key_map keys r g)

  -- Under the lock, with the tables as they are then; the graph is not emptied first.
  unfoldable pub load : (Call → Bool) → SemanticGraph G → Option {0} Unit × SemanticGraph G
  unfolding load_nodes load_edges
  load fails s =
      if fails loading_nodes
      then (none, s)
      else let (raised, l) = load_nodes (take s.max_nodes s.backend.nodes) (unread s.graph) in
        let s1 = record s { graph = l.graph } in
        if raised || fails loading_edges
        then (none, s1)
        else let g = load_edges l.map_of l.keys s.backend.edges l.graph in
          (some tt, record s { graph = g; is_loaded = true })

  unfoldable pub ensure_initialized :
      (Call → Bool) → SemanticGraph G → Option {0} Unit × SemanticGraph G
  ensure_initialized fails s =
      if s.is_initialized
      then (some tt, s)
      else if fails initializing
      then (none, s)
      else (some tt, record s { is_initialized = true })

  unfoldable pub ensure_loaded : (Call → Bool) → SemanticGraph G → Option {0} Unit × SemanticGraph G
  unfolding ensure_initialized load
  ensure_loaded fails s =
      if s.is_loaded then (some tt, s) else ensure_initialized fails s >>> (λ u. load fails)

  -- A loaded graph is not loaded again.
  pub ensure_loaded_lem :
      (fails : Call → Bool) (s : SemanticGraph G)
      → s.is_loaded ≡ true
      → ensure_loaded fails s ≡ (some tt, s)
  unfolding ensure_loaded
  ensure_loaded_lem fails s h = simp h

  pub ensure_loaded_else :
      (fails : Call → Bool) (s : SemanticGraph G)
      → s.is_loaded ≡ false
      → ensure_loaded fails s ≡ (ensure_initialized fails s >>> (λ u. load fails))
  unfolding ensure_loaded
  ensure_loaded_else fails s h = simp h

  pub graph-ensure_initialized :
      (fails : Call → Bool) (s : SemanticGraph G) → (ensure_initialized fails s).1.graph ≡ s.graph
  unfolding ensure_initialized
  graph-ensure_initialized fails s = ground arith
