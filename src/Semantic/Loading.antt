-- ===== src/Semantic/Loading.antt =====
-- The loading of `SemanticGraph` in src/engram/semantic/graph.py.
use engram_mem.Base.{
  ◌≡◌, refl, ◌∙◌, ap, inl, inr, String, Bool, true, ◌&&◌, ◌||◌, Option, none, some, List, [], ◌∷◌,
  take, str_eq, if◌then◌else◌, Bool-cases, arith,
}
use engram_mem.Base.Dict.{get}
use engram_mem.Semantic.{SemanticNode, SemanticEdge, edge_key, Networkx}
use engram_mem.Semantic.Backend.{NodeRow, EdgeRow}
use engram_mem.Semantic.Graph.{
  Call, loading_nodes, loading_edges, SemanticGraph, ◌>>>◌, Loading, unread, replace_node,
  place_node, load_node, load_nodes, load_edge, load_edges, load, ensure_initialized, ensure_loaded,
  ensure_loaded_lem, ensure_loaded_else, graph-ensure_initialized,
}
use engram_mem.Semantic.Merge.{contains, row_node, row_edge}
use engram_mem.Semantic.Writes.{has_edge}

module _ {G : Type 0} (lower : String → String) (nx : Networkx G) where
  has_edge-add_node :
      (u v k key : String) (n : SemanticNode) (g : G)
      → has_edge lower nx (nx.add_node g key n) u v k ≡ has_edge lower nx g u v k
  unfolding has_edge
  has_edge-add_node u v k key n g = rw (nx.arcs-add_node g key n, has_edge) refl

  -- Adding an edge makes this one and keeps the others.
  pub has_edge-add_edge :
      (u v k from_key to_key key : String) (e : SemanticEdge) (g : G)
      → has_edge lower nx (nx.add_edge g from_key to_key key e) u v k ≡ (
          if str_eq from_key u && str_eq to_key v && str_eq key k
          then true
          else has_edge lower nx g u v k)
  unfolding has_edge
  has_edge-add_edge u v k from_key to_key key e g =
      ground (arith, nx.arcs-add_edge g from_key to_key key e u v k)

  has_edge-replace_node :
      (u v k key : String) (n : Option SemanticNode) (l : Loading G)
      → has_edge lower nx (replace_node nx n key l).1.graph u v k ≡ has_edge lower nx l.graph u v k
  unfolding replace_node
  has_edge-replace_node u v k key none l = refl
  has_edge-replace_node u v k key (some n) l = has_edge-add_node u v k key n l.graph

  has_edge-place_node :
      (u v k key : String) (found : Option (Option SemanticNode)) (n : SemanticNode) (l : Loading G)
      → has_edge lower nx (place_node nx found n key l).1.graph u v k
        ≡ has_edge lower nx l.graph u v k
  unfolding place_node
  has_edge-place_node u v k key none n l = has_edge-add_node u v k key n l.graph
  has_edge-place_node u v k key (some old) n l = has_edge-replace_node u v k key _ l

  pub has_edge-load_nodes :
      (u v k : String) (rows : List NodeRow) (l : Loading G)
      → has_edge lower nx (load_nodes nx rows l).1.graph u v k ≡ has_edge lower nx l.graph u v k
  unfolding load_nodes load_node
  has_edge-load_nodes u v k [] l = refl
  has_edge-load_nodes u v k (r ∷ rows) l =
      let first = has_edge-place_node u v k _ (get (nx.nodes l.graph) _) (row_node r) _ in
      elim (Bool-cases (load_node nx r l).0) [
        | inl e ↦ rw (e, load_nodes) first
        | inr e ↦ rw (e, load_nodes) (has_edge-load_nodes u v k rows _ ∙ first)
      ]

  has_edge-load_edge :
      (u v k : String) (m : List (String × String)) (keys : List String) (r : EdgeRow) (g : G)
      → has_edge lower nx g u v k ≡ true
      → has_edge lower nx (load_edge nx m keys r g) u v k ≡ true
  unfolding load_edge
  has_edge-load_edge u v k m keys r g h =
      let e = row_edge m r in
      elim (Bool-cases (contains e.from_node keys && contains e.to_node keys)) [
        | inl c ↦
            rw (c, load_edge)
              (ground (arith, has_edge-add_edge u v k e.from_node e.to_node (edge_key e) e g, h))
        | inr c ↦ rw (c, load_edge) h
      ]

  has_edge-load_edges :
      (u v k : String) (m : List (String × String)) (keys : List String) (rows : List EdgeRow)
      (g : G)
      → has_edge lower nx g u v k ≡ true
      → has_edge lower nx (load_edges nx m keys rows g) u v k ≡ true
  unfolding load_edges
  has_edge-load_edges u v k m keys [] g h = h
  has_edge-load_edges u v k m keys (r ∷ rows) g h =
      has_edge-load_edges u v k m keys rows _ (has_edge-load_edge u v k m keys r g h)

  has_edge-load :
      (u v k : String) (fails : Call → Bool) (s : SemanticGraph G)
      → has_edge lower nx s.graph u v k ≡ true
      → has_edge lower nx (load nx fails s).1.graph u v k ≡ true
  unfolding load
  has_edge-load u v k fails s h =
      let rows = take s.max_nodes s.backend.nodes in
      let l = load_nodes nx rows (unread s.graph) in
      let kept = has_edge-load_nodes u v k rows (unread s.graph) ∙ h in
      elim (Bool-cases (fails loading_nodes)) [
        | inl e ↦ rw (e, load) h
        | inr e ↦ elim (Bool-cases (l.0 || fails loading_edges)) [
          | inl f ↦ rw (e, load) (rw f kept)
          | inr f ↦
              rw (e, load) (rw f (has_edge-load_edges u v k _ _ s.backend.edges l.1.graph kept))
        ]
      ]

  has_edge-after_init :
      (u v k : String) (fails : Call → Bool) (o : Option {0} Unit × SemanticGraph G)
      → has_edge lower nx o.1.graph u v k ≡ true
      → has_edge lower nx (o >>> (λ x. load nx fails)).1.graph u v k ≡ true
  has_edge-after_init u v k fails (none, s) h = h
  has_edge-after_init u v k fails (some x, s) h = has_edge-load u v k fails s h

  -- Loading keeps the edges that are in memory.
  pub has_edge-ensure_loaded :
      (u v k : String) (fails : Call → Bool) (s : SemanticGraph G)
      → has_edge lower nx s.graph u v k ≡ true
      → has_edge lower nx (ensure_loaded nx fails s).1.graph u v k ≡ true
  has_edge-ensure_loaded u v k fails s h = elim (Bool-cases s.is_loaded) [
    | inl e ↦ rw (ensure_loaded_lem nx fails s e) h
    | inr e ↦ rw (ensure_loaded_else nx fails s e) (
        has_edge-after_init u v k fails (ensure_initialized nx fails s)
          (ap (λ g. has_edge lower nx g u v k) (graph-ensure_initialized nx fails s) ∙ h))
  ]
