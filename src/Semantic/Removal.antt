-- ===== src/Semantic/Removal.antt =====
-- The removal of a node and the loading of src/engram/semantic/graph.py.
use engram_mem.Base.{
  ◌≡◌, refl, String, Bool, true, false, not, none, some, str_eq, str_eq_refl, arith, All,
}
use engram_mem.Base.Sort.{All-filter_by}
use engram_mem.Base.Dict.{get-pop}
use engram_mem.Semantic.{touches, Networkx}
use engram_mem.Semantic.Backend.{row_touches, delete_node, delete_edges_for_node}
use engram_mem.Semantic.Graph.{
  Call, deleting_edges, deleting_node, SemanticGraph, ensure_loaded, ensure_loaded_lem,
}
use engram_mem.Semantic.Writes.{has, has_edge, log}
use engram_mem.Semantic.Loading.{has_edge-ensure_loaded}
use engram_mem.Semantic.Batches.{drop_node, remove_node}

module _ {G : Type 0} (lower : String → String) (nx : Networkx G) where
  has-remove_node : (key : String) (g : G) → has lower nx (nx.remove_node g key) key ≡ false
  unfolding has
  has-remove_node key g =
      rw (nx.nodes-remove_node g key, has)
        (ground (arith, get-pop (nx.nodes g) key key, str_eq_refl key))

  touches-remove_node :
      (key : String) (g : G)
      → All (λ a. not (touches key a) ≡ true) (nx.arcs (nx.remove_node g key))
  touches-remove_node key g =
      rw (nx.arcs-remove_node g key) (All-filter_by (λ a. not (touches key a)) (nx.arcs g))

  -- A node that is there is removed, if the backend does not raise, with every edge that touches it, from
  -- memory and from the backend.
  pub remove_node-gone :
      (key : String) (fails : Call → Bool) (s : SemanticGraph G)
      → s.is_loaded ≡ true
      → has lower nx s.graph key ≡ true
      → fails deleting_edges ≡ false
      → fails deleting_node ≡ false
      → let (removed, s') = remove_node lower nx key fails s in
        (removed ≡ some true)
        × (has lower nx s'.graph key ≡ false)
        × All (λ a. not (touches key a) ≡ true) (nx.arcs s'.graph)
        × All (λ r. not (str_eq r.key key) ≡ true) s'.backend.nodes
        × All (λ r. not (row_touches key r) ≡ true) s'.backend.edges
  unfolding remove_node drop_node log has delete_node delete_edges_for_node
  remove_node-gone key fails s loaded there e n = rw (ensure_loaded_lem nx fails s loaded) (
      rw (there, e, n)
        (
          refl,
          has-remove_node key s.graph,
          touches-remove_node key s.graph,
          All-filter_by (λ r. not (str_eq r.key key)) s.backend.nodes,
          All-filter_by (λ r. not (row_touches key r)) (delete_edges_for_node key s.backend).edges,
        ))

  -- The removal of a node whose second call of the backend raises leaves the graph not loaded; the rows of
  -- the edges at the node are gone by then, but memory keeps each edge that it had, these included,
  -- also when it is loaded again.
  pub remove_node-stale :
      (key u v k : String) (fails later : Call → Bool) (s : SemanticGraph G)
      → s.is_loaded ≡ true
      → has lower nx s.graph key ≡ true
      → fails deleting_edges ≡ false
      → fails deleting_node ≡ true
      → has_edge lower nx s.graph u v k ≡ true
      → let (removed, s') = remove_node lower nx key fails s in
        (removed ≡ none)
        × (s'.is_loaded ≡ false)
        × All (λ r. not (row_touches key r) ≡ true) s'.backend.edges
        × (has_edge lower nx (ensure_loaded nx later s').1.graph u v k ≡ true)
  unfolding remove_node drop_node delete_edges_for_node
  remove_node-stale key u v k fails later s loaded there e n h =
      rw (ensure_loaded_lem nx fails s loaded) (
        rw (there, e, n)
          (
            refl,
            refl,
            All-filter_by (λ r. not (row_touches key r)) s.backend.edges,
            has_edge-ensure_loaded lower nx u v k later _ h,
          ))
