-- ===== src/Semantic/Synced.antt =====
-- The graph in memory and the backend, for src/engram/semantic/graph.py: every run of writes keeps them in
-- step.
use engram_mem.Base.{
  ◌≡◌, refl, sym, ◌∙◌, ap, String, Bool, true, not, none, some, List, [], ◌∷◌, map, arith,
  str_eq_iff, str_eq, if◌then◌else◌, All,
}
use engram_mem.Base.Members.{All-filter_map}
use engram_mem.Semantic.{SemanticNode, SemanticEdge, node_key, edge_key, Arc, Networkx}
use engram_mem.Semantic.Backend.{
  Backend, EdgeRow, save_node, save_edge, save_nodes_batch, save_edges_batch, delete_edges_for_node,
  delete_node, delete_edge,
}
use engram_mem.Semantic.Graph.{Call, SemanticGraph}
use engram_mem.Semantic.Writes.{node_row, edge_row, hold_nodes, hold_edges, add_node, add_edge}
use engram_mem.Semantic.Batches.{
  add_nodes_batch, add_edges_batch, remove_node, drop_arcs, remove_edge,
}
use engram_mem.Semantic.Read.{held}
use engram_mem.Semantic.Agree.{
  stored, stored-insert_node, stored-delete, held-add_node, held-add_edge, held-remove_node,
  held-remove_edge,
}
use engram_mem.Semantic.Arcs.{IsHeld, IsHeld-insert_edge, IsHeld-delete_node, IsHeld-remove_edge}

-- The writes that a client asks for.
pub data Request : Type 0 where
  put_node : SemanticNode → Request
  put_nodes : List SemanticNode → Request
  put_edge : SemanticEdge → Request
  put_edges : List SemanticEdge → Request
  cut_node : String → Request
  cut_edge : String → Request

module _ {G : Type 0} (lower : String → String) (nx : Networkx G) where
  -- The state after a request, whether it raises or not.
  unfoldable pub perform : Request → (Call → Bool) → SemanticGraph G → SemanticGraph G
  perform (put_node n) fails s = (add_node lower nx n fails s).1
  perform (put_nodes ns) fails s = (add_nodes_batch lower nx ns fails s).1
  perform (put_edge e) fails s = (add_edge lower nx e fails s).1
  perform (put_edges es) fails s = (add_edges_batch lower nx es fails s).1
  perform (cut_node key) fails s = (remove_node lower nx key fails s).1
  perform (cut_edge key) fails s = (remove_edge lower nx key fails s).1

  unfoldable pub perform_all : List (Request × (Call → Bool)) → SemanticGraph G → SemanticGraph G
  perform_all [] s = s
  perform_all ((request, fails) ∷ rest) s = perform_all rest (perform request fails s)

  -- The graph and the tables agree on every node, and the graph has the edge of each row.
  pub record InStep (b : Backend) (g : G) : Type 0 where
    pub nodes_agree : (key : String) → held nx g key ≡ stored b.nodes key
    pub edges_held : All (IsHeld (nx.arcs g)) b.edges

  pub record IsSynced (s : SemanticGraph G) : Type 0 where
    pub loaded : s.is_loaded ≡ true
    pub in_step : InStep s.backend s.graph

  pub InStep-node :
      (b : Backend) (g : G) (key : String) (n : SemanticNode)
      → InStep b g
      → InStep (save_node (node_row key n) b) (nx.add_node g key n)
  unfolding save_node node_row
  InStep-node b g key n h = record {
    nodes_agree = λ k.
        held-add_node nx g key n k
        ∙ ap (λ o. if str_eq key k then some n else o) (h.nodes_agree k)
        ∙ sym (stored-insert_node (node_row key n) b.nodes k);
    edges_held = rw (nx.arcs-add_node g key n) h.edges_held;
  }

  pub InStep-edge :
      (b : Backend) (g : G) (e : SemanticEdge)
      → InStep b g
      → InStep (save_edge (edge_row e) b) (nx.add_edge g e.from_node e.to_node (edge_key e) e)
  unfolding save_edge
  InStep-edge b g e h = record {
    nodes_agree = λ k. held-add_edge nx g e.from_node e.to_node (edge_key e) e k ∙ h.nodes_agree k;
    edges_held = IsHeld-insert_edge nx g e b.edges h.edges_held;
  }

  pub InStep-nodes :
      (ns : List SemanticNode) (b : Backend) (g : G)
      → InStep b g
      → InStep
          (save_nodes_batch (map (λ n. node_row (node_key n) n) ns) b)
          (hold_nodes lower nx ns g)
  unfolding save_nodes_batch hold_nodes
  InStep-nodes [] b g h = h
  InStep-nodes (n ∷ ns) b g h = InStep-nodes ns _ _ (InStep-node b g (node_key n) n h)

  pub InStep-edges :
      (es : List SemanticEdge) (b : Backend) (g : G)
      → InStep b g
      → InStep (save_edges_batch (map edge_row es) b) (hold_edges lower nx es g)
  unfolding save_edges_batch hold_edges
  InStep-edges [] b g h = h
  InStep-edges (e ∷ es) b g h = InStep-edges es _ _ (InStep-edge b g e h)

  pub InStep-cut_node :
      (b : Backend) (g : G) (key : String)
      → InStep b g
      → InStep (delete_node key (delete_edges_for_node key b)) (nx.remove_node g key)
  unfolding delete_node delete_edges_for_node
  InStep-cut_node b g key h = record {
    nodes_agree = λ k.
        held-remove_node nx g key k
        ∙ ap (λ o. if str_eq key k then none else o) (h.nodes_agree k)
        ∙ sym (stored-delete key b.nodes k);
    edges_held = All-filter_map _ (λ r p q. q) _ (IsHeld-delete_node nx g key b.edges h.edges_held);
  }

  held-drop_arcs :
      (k : String) (found : List Arc) (g : G) → held nx (drop_arcs lower nx found g) k ≡ held nx g k
  unfolding drop_arcs
  held-drop_arcs k [] g = refl
  held-drop_arcs k (a ∷ found) g =
      held-drop_arcs k found _ ∙ held-remove_edge nx g a.source a.target a.key k

  IsHeld-drop_arcs :
      (key : String) (r : EdgeRow) (found : List Arc) (g : G)
      → not (str_eq r.key key) ≡ true
      → All (λ a. str_eq a.key key ≡ true) found
      → IsHeld (nx.arcs g) r
      → IsHeld (nx.arcs (drop_arcs lower nx found g)) r
  unfolding drop_arcs
  IsHeld-drop_arcs key r [] g other own h = h
  IsHeld-drop_arcs key r (a ∷ found) g other own h = IsHeld-drop_arcs key r found _ other own.1 (
      IsHeld-remove_edge nx g a.source a.target a.key r
        (ground
          (arith, str_eq_iff a.key key, str_eq_iff r.key key, str_eq_iff r.key a.key, other, own.0))
        h)

  pub InStep-cut_edge :
      (b : Backend) (g : G) (key : String) (found : List Arc)
      → All (λ a. str_eq a.key key ≡ true) found
      → InStep b g
      → InStep (delete_edge key b) (drop_arcs lower nx found g)
  unfolding delete_edge
  InStep-cut_edge b g key found own h = record {
    nodes_agree = λ k. held-drop_arcs k found g ∙ h.nodes_agree k;
    edges_held =
        All-filter_map _ (λ r other q. IsHeld-drop_arcs key r found g other own q) b.edges
          h.edges_held;
  }
