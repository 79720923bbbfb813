-- ===== src/Semantic/Runs.antt =====
-- Runs of writes on a loaded `SemanticGraph` of src/engram/semantic/graph.py.
use engram_mem.Base.{
  ◌≡◌, inl, inr, String, Bool, true, false, Option, none, some, List, [], ◌∷◌, str_eq, Bool-cases,
  Option-cases, All,
}
use engram_mem.Base.Sort.{All-filter_by}
use engram_mem.Semantic.{SemanticNode, SemanticEdge, Arc, Networkx}
use engram_mem.Semantic.Graph.{
  Call, saving, deleting_edges, deleting_node, deleting_edge, SemanticGraph, ◌>>>◌, ensure_loaded,
  ensure_loaded_lem,
}
use engram_mem.Semantic.Writes.{
  keys_of, index_keys, dedup_nodes, has, log, write_node, write_resolved, add_node, write_edge,
  add_edge,
}
use engram_mem.Semantic.Batches.{
  write_nodes, add_nodes_batch, write_edges, add_edges_batch, drop_node, remove_node, drop_edge,
  drop_found, remove_edge,
}
use engram_mem.Semantic.Read.{get_node}
use engram_mem.Semantic.Agree.{stored}
use engram_mem.Semantic.Arcs.{IsHeld}
use engram_mem.Semantic.Synced.{
  Request, put_node, put_nodes, put_edge, put_edges, cut_node, cut_edge, perform, perform_all,
  IsSynced, InStep-node, InStep-nodes, InStep-edge, InStep-edges, InStep-cut_node, InStep-cut_edge,
}

module _ {G : Type 0} (lower : String → String) (nx : Networkx G) where
  write_resolved-IsSynced :
      (w : Option (String × SemanticNode)) (fails : Call → Bool) (s : SemanticGraph G)
      → IsSynced lower nx s
      → IsSynced lower nx (write_resolved lower nx w fails s).1
  unfolding write_resolved log
  write_resolved-IsSynced none fails s h = h
  write_resolved-IsSynced (some (key, m)) fails s h = elim (Bool-cases (fails saving)) [
    | inl f ↦ rw (f, write_resolved) h
    | inr f ↦
        rw (f, write_resolved)
          (record {
            loaded = h.loaded;
            in_step = InStep-node lower nx s.backend s.graph key m h.in_step;
          })
  ]

  write_edge-IsSynced :
      (e : SemanticEdge) (fails : Call → Bool) (s : SemanticGraph G)
      → IsSynced lower nx s
      → IsSynced lower nx (write_edge lower nx e fails s).1
  unfolding write_edge log
  write_edge-IsSynced e fails s h = elim (Bool-cases (fails saving)) [
    | inl f ↦ rw (f, write_edge) h
    | inr f ↦
        rw (f, write_edge)
          (record {
            loaded = h.loaded;
            in_step = InStep-edge lower nx s.backend s.graph _ h.in_step;
          })
  ]

  write_nodes-IsSynced :
      (ns : List SemanticNode) (fails : Call → Bool) (s : SemanticGraph G)
      → IsSynced lower nx s
      → IsSynced lower nx (write_nodes lower nx ns fails s).1
  unfolding write_nodes
  write_nodes-IsSynced ns fails s h =
      elim (Option-cases
        (dedup_nodes lower ns (index_keys lower (keys_of (nx.nodes s.graph)) []))) [
          | inl e ↦ rw (e, write_nodes) h
          | inr (deduped, e) ↦ elim (Bool-cases (fails saving)) [
            | inl f ↦ rw (e, write_nodes) (rw f h)
            | inr f ↦
                rw (e, write_nodes)
                  (rw f (record {
                    loaded = h.loaded;
                    in_step = InStep-nodes lower nx deduped s.backend s.graph h.in_step;
                  }))
          ]
        ]

  write_edges-IsSynced :
      (es : List SemanticEdge) (fails : Call → Bool) (s : SemanticGraph G)
      → IsSynced lower nx s
      → IsSynced lower nx (write_edges lower nx es fails s).1
  unfolding write_edges
  write_edges-IsSynced es fails s h = elim (Bool-cases (fails saving)) [
    | inl f ↦ rw (f, write_edges) h
    | inr f ↦
        rw (f, write_edges)
          (record {
            loaded = h.loaded;
            in_step = InStep-edges lower nx _ s.backend s.graph h.in_step;
          })
  ]

  drop_node-IsSynced :
      (key : String) (fails : Call → Bool) (s : SemanticGraph G)
      → fails deleting_edges ≡ false
      → fails deleting_node ≡ false
      → IsSynced lower nx s
      → IsSynced lower nx (drop_node lower nx key fails s).1
  unfolding drop_node log
  drop_node-IsSynced key fails s e n h = elim (Bool-cases (has lower nx s.graph key)) [
    | inl f ↦
        rw (f, drop_node)
          (rw (e, n)
            (record {
              loaded = h.loaded;
              in_step = InStep-cut_node lower nx s.backend s.graph key h.in_step;
            }))
    | inr f ↦ rw (f, drop_node) h
  ]

  drop_found-IsSynced :
      (found : List Arc) (key : String) (fails : Call → Bool) (s : SemanticGraph G)
      → All (λ a. str_eq a.key key ≡ true) found
      → IsSynced lower nx s
      → IsSynced lower nx (drop_found lower nx found key fails s).1
  unfolding drop_found log
  drop_found-IsSynced [] key fails s own h = h
  drop_found-IsSynced (a ∷ found) key fails s own h = elim (Bool-cases (fails deleting_edge)) [
    | inl f ↦ rw (f, drop_found) h
    | inr f ↦
        rw (f, drop_found)
          (record {
            loaded = h.loaded;
            in_step = InStep-cut_edge lower nx s.backend s.graph key (a ∷ found) own h.in_step;
          })
  ]

  after_loading :
      {A : Type 0} (fails : Call → Bool) (s : SemanticGraph G)
      (f : Unit → SemanticGraph G → Option A × SemanticGraph G)
      → IsSynced lower nx s
      → IsSynced lower nx (f tt s).1
      → IsSynced lower nx (ensure_loaded nx fails s >>> f).1
  after_loading fails s f h done = rw (ensure_loaded_lem nx fails s h.loaded) done

  -- The state after a request that does not fail in a deletion of a node.
  perform-IsSynced :
      (request : Request) (fails : Call → Bool) (s : SemanticGraph G)
      → fails deleting_edges ≡ false
      → fails deleting_node ≡ false
      → IsSynced lower nx s
      → IsSynced lower nx (perform lower nx request fails s)
  unfolding perform add_node add_nodes_batch add_edge add_edges_batch remove_node remove_edge
      drop_edge write_node
  perform-IsSynced (put_node n) fails s e f h =
      after_loading fails s _ h (write_resolved-IsSynced _ fails s h)
  perform-IsSynced (put_nodes []) fails s e f h = h
  perform-IsSynced (put_nodes (n ∷ ns)) fails s e f h =
      after_loading fails s _ h (write_nodes-IsSynced (n ∷ ns) fails s h)
  perform-IsSynced (put_edge x) fails s e f h =
      after_loading fails s _ h (write_edge-IsSynced x fails s h)
  perform-IsSynced (put_edges []) fails s e f h = h
  perform-IsSynced (put_edges (x ∷ xs)) fails s e f h =
      after_loading fails s _ h (write_edges-IsSynced (x ∷ xs) fails s h)
  perform-IsSynced (cut_node key) fails s e f h =
      after_loading fails s _ h (drop_node-IsSynced key fails s e f h)
  perform-IsSynced (cut_edge key) fails s e f h = after_loading fails s _ h (
      drop_found-IsSynced _ key fails s (All-filter_by (λ a. str_eq a.key key) (nx.arcs s.graph)) h)

  -- After any run of writes on a graph that is loaded and in step with its backend, whatever calls of
  -- the backend raise except those that delete a node, the graph is loaded, `get_node` gives for each
  -- key the node of the backend's row, and memory holds the edge of each row.
  pub perform_all-IsSynced :
      (run : List (Request × (Call → Bool))) (s : SemanticGraph G) (key : String)
      → All (λ (request, fails). (fails deleting_edges ≡ false) × (fails deleting_node ≡ false)) run
      → IsSynced lower nx s
      → let s' = perform_all lower nx run s in
        (s'.is_loaded ≡ true)
        × (get_node nx key s'.graph ≡ stored s'.backend.nodes key)
        × All (IsHeld (nx.arcs s'.graph)) s'.backend.edges
  unfolding perform_all get_node
  perform_all-IsSynced [] s key ok h = (h.loaded, h.in_step.nodes_agree key, h.in_step.edges_held)
  perform_all-IsSynced ((request, fails) ∷ run) s key ok h =
      perform_all-IsSynced run (perform lower nx request fails s) key ok.1
        (perform-IsSynced request fails s ok.0.0 ok.0.1 h)
