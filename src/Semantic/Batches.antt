-- ===== src/Semantic/Batches.antt =====
-- The batches and the removals of `SemanticGraph` in src/engram/semantic/graph.py.
use engram_mem.Base.{
  String, Bool, true, false, not, Option, none, some, List, [], ◌∷◌, map, filter_by, str_eq,
  if◌then◌else◌,
}
use engram_mem.Semantic.{SemanticNode, SemanticEdge, node_key, Arc, Networkx}
use engram_mem.Semantic.Backend.{
  save_nodes_batch, save_edges_batch, delete_edges_for_node, delete_node, delete_edge,
}
use engram_mem.Semantic.Graph.{
  Call, saving, deleting_edges, deleting_node, deleting_edge, SemanticGraph, ◌>>>◌, ensure_loaded,
}
use engram_mem.Semantic.Writes.{
  node_row, edge_row, log, keys_of, index_keys, normalize_edge, dedup_nodes, has, hold_nodes,
  hold_edges,
}

module _ {G : Type 0} (lower : String → String) (nx : Networkx G) where
  unfoldable pub write_nodes :
      List SemanticNode → (Call → Bool) → SemanticGraph G → Option {0} Unit × SemanticGraph G
  write_nodes nodes fails s =
      elim (dedup_nodes lower nodes (index_keys lower (keys_of (nx.nodes s.graph)) [])) [
        | none ↦ (none, s)
        | some deduped ↦ if fails saving then (none, s) else (
          some tt,
          record s {
            backend = save_nodes_batch (map (λ n. node_row (node_key n) n) deduped) s.backend;
            graph = hold_nodes lower nx deduped s.graph;
          },
        )
      ]

  unfoldable pub add_nodes_batch :
      List SemanticNode → (Call → Bool) → SemanticGraph G → Option {0} Unit × SemanticGraph G
  add_nodes_batch [] fails s = (some tt, s)
  add_nodes_batch (n ∷ rest) fails s =
      ensure_loaded nx fails s >>> (λ u. write_nodes (n ∷ rest) fails)

  unfoldable pub write_edges :
      List SemanticEdge → (Call → Bool) → SemanticGraph G → Option {0} Unit × SemanticGraph G
  write_edges edges fails s =
      let index = index_keys lower (keys_of (nx.nodes s.graph)) [] in
      let normalized = map (normalize_edge lower index) edges in
      if fails saving then (none, s) else (
        some tt,
        record s {
          backend = save_edges_batch (map edge_row normalized) s.backend;
          graph = hold_edges lower nx normalized s.graph;
        },
      )

  unfoldable pub add_edges_batch :
      List SemanticEdge → (Call → Bool) → SemanticGraph G → Option {0} Unit × SemanticGraph G
  add_edges_batch [] fails s = (some tt, s)
  add_edges_batch (e ∷ rest) fails s =
      ensure_loaded nx fails s >>> (λ u. write_edges (e ∷ rest) fails)

  -- A call of the backend that raises leaves the graph marked as not loaded; the first call may have
  -- had its effect then.
  unfoldable pub drop_node :
      String → (Call → Bool) → SemanticGraph G → Option Bool × SemanticGraph G
  drop_node key fails s =
      if not (has lower nx s.graph key)
      then (some false, s)
      else if fails deleting_edges
      then (none, record s { is_loaded = false })
      else let b = delete_edges_for_node key s.backend in
        if fails deleting_node then (none, record s { backend = b; is_loaded = false }) else (
          some true,
          log "semantic.remove_node" key []
              (record s { backend = delete_node key b; graph = nx.remove_node s.graph key }),
        )

  unfoldable pub remove_node :
      String → (Call → Bool) → SemanticGraph G → Option Bool × SemanticGraph G
  remove_node key fails s = ensure_loaded nx fails s >>> (λ u. drop_node key fails)

  unfoldable pub drop_arcs : List Arc → G → G
  drop_arcs [] g = g
  drop_arcs (a ∷ rest) g = drop_arcs rest (nx.remove_edge g a.source a.target a.key)

  -- `drop_edge` on the edges that it finds.
  unfoldable pub drop_found :
      List Arc → String → (Call → Bool) → SemanticGraph G → Option Bool × SemanticGraph G
  drop_found [] key fails s = (some false, s)
  drop_found (found ∷ more) key fails s = if fails deleting_edge then (none, s) else (
    some true,
    log "semantic.remove_edge" key [] (record s {
      backend = delete_edge key s.backend;
      graph = drop_arcs (found ∷ more) s.graph;
    }),
  )

  unfoldable pub drop_edge :
      String → (Call → Bool) → SemanticGraph G → Option Bool × SemanticGraph G
  unfolding drop_found
  drop_edge key fails s =
      drop_found (filter_by (λ a. str_eq a.key key) (nx.arcs s.graph)) key fails s

  unfoldable pub remove_edge :
      String → (Call → Bool) → SemanticGraph G → Option Bool × SemanticGraph G
  remove_edge key fails s = ensure_loaded nx fails s >>> (λ u. drop_edge key fails)
