-- ===== src/Semantic/Joined.antt =====
-- The edges that `_ensure_loaded` of src/engram/semantic/graph.py puts into an empty graph.
use engram_mem.Base.{
  ◌≡◌, refl, ◌∙◌, ap, inl, inr, String, Bool, true, false, ◌&&◌, ◌||◌, Option, none, some, List, [],
  ◌∷◌, take, str_eq, str_eq_iff, Bool-cases, arith,
}
use mathlib.Core.Path.{subst}
use engram_mem.Semantic.{SemanticNode, SemanticEdge, node_key, edge_key, find_arc, Networkx}
use engram_mem.Semantic.Backend.{NodeRow, EdgeRow}
use engram_mem.Semantic.Graph.{
  Call, loading_nodes, loading_edges, SemanticGraph, ◌>>>◌, Loading, unread, replace_node,
  place_node, load_node, load_nodes, load_edge, load_edges, load, ensure_initialized, ensure_loaded,
  ensure_loaded_else, graph-ensure_initialized,
}
use engram_mem.Semantic.Merge.{contains, merge_nodes, row_node, row_edge}
use engram_mem.Semantic.Writes.{has_edge}
use engram_mem.Semantic.Read.{held}
use engram_mem.Semantic.Agree.{held-add_node, held-add_edge}
use engram_mem.Semantic.Loading.{has_edge-load_nodes, has_edge-add_edge}

abbrev pub is_node : Option SemanticNode → Bool
is_node none = false
is_node (some n) = true

module _ {G : Type 0} (lower : String → String) (nx : Networkx G) where
  held-added :
      (g : G) (key x : String) (n : SemanticNode) (keys : List String)
      → ((y : String) → contains y keys ≡ true → is_node (held nx g y) ≡ true)
      → contains x (key ∷ keys) ≡ true
      → is_node (held nx (nx.add_node g key n) x) ≡ true
  held-added g key x n keys h c =
      ground (arith, held-add_node nx g key n x, str_eq_iff key x, str_eq_iff x key, h x, c)

  -- Every key that has been read is that of a node.
  replace_node-held :
      (merged : Option SemanticNode) (l : Loading G) (key x : String)
      → ((y : String) → contains y l.keys ≡ true → is_node (held nx l.graph y) ≡ true)
      → let l' = replace_node nx merged key (record l { keys = key ∷ l.keys }) in
        l'.0 ≡ false → contains x l'.1.keys ≡ true → is_node (held nx l'.1.graph x) ≡ true
  unfolding replace_node
  replace_node-held none l key x h ok c = absurd (ground (arith, ok))
  replace_node-held (some m) l key x h ok c = held-added l.graph key x m l.keys h c

  place_node-held :
      (found : Option (Option SemanticNode)) (n : SemanticNode) (l : Loading G) (key x : String)
      → ((y : String) → contains y l.keys ≡ true → is_node (held nx l.graph y) ≡ true)
      → let l' = place_node nx found n key (record l { keys = key ∷ l.keys }) in
        l'.0 ≡ false → contains x l'.1.keys ≡ true → is_node (held nx l'.1.graph x) ≡ true
  unfolding place_node
  place_node-held none n l key x h ok c = held-added l.graph key x n l.keys h c
  place_node-held (some old) n l key x h ok c = replace_node-held (merge_nodes old n) l key x h ok c

  -- The rows have been read without an exception, and every key read is that of a node.
  IsRead : String → Bool × Loading G → Type 0
  IsRead x l = l.0 ≡ false → contains x l.1.keys ≡ true → is_node (held nx l.1.graph x) ≡ true

  load_nodes-IsRead :
      (rows : List NodeRow) (l : Loading G) (x : String)
      → ((y : String) → contains y l.keys ≡ true → is_node (held nx l.graph y) ≡ true)
      → IsRead x (load_nodes nx rows l)
  unfolding load_nodes load_node IsRead
  load_nodes-IsRead [] l x h = λ ok c. h x c
  load_nodes-IsRead (r ∷ rows) l x h = elim (Bool-cases (load_node nx r l).0) [
    | inl e ↦ rw (e, load_nodes) (λ ok c. absurd (ground (arith, e, ok)))
    | inr e ↦
        rw (e, load_nodes)
          (load_nodes-IsRead rows (load_node nx r l).1 x (λ y c.
            place_node-held _ (row_node r) (record l { map_of = _ }) (node_key (row_node r)) y h e
              c))
  ]

  held-load_edge :
      (m : List (String × String)) (keys : List String) (r : EdgeRow) (g : G) (x : String)
      → held nx (load_edge nx m keys r g) x ≡ held nx g x
  unfolding load_edge
  held-load_edge m keys r g x =
      let e = row_edge m r in
      elim (Bool-cases (contains e.from_node keys && contains e.to_node keys)) [
        | inl c ↦ rw (c, load_edge) (held-add_edge nx g e.from_node e.to_node (edge_key e) e x)
        | inr c ↦ rw (c, load_edge) refl
      ]

  held-load_edges :
      (m : List (String × String)) (keys : List String) (rows : List EdgeRow) (g : G) (x : String)
      → held nx (load_edges nx m keys rows g) x ≡ held nx g x
  unfolding load_edges
  held-load_edges m keys [] g x = refl
  held-load_edges m keys (r ∷ rows) g x =
      held-load_edges m keys rows _ x ∙ held-load_edge m keys r g x

  -- An edge that is loaded joins keys that have been read.
  IsJoined : String → String → String → List String → G → Type 0
  IsJoined u v k keys g =
      has_edge lower nx g u v k ≡ true → (contains u keys ≡ true) × (contains v keys ≡ true)

  added-IsJoined :
      (u v k : String) (keys : List String) (from_key to_key key : String) (e : SemanticEdge)
      (g : G)
      → (contains from_key keys && contains to_key keys) ≡ true
      → IsJoined u v k keys g
      → IsJoined u v k keys (nx.add_edge g from_key to_key key e)
  unfolding IsJoined
  added-IsJoined u v k keys from_key to_key key e g c h q =
      elim (Bool-cases (str_eq from_key u && str_eq to_key v && str_eq key k)) [
        | inl same ↦
            let p : from_key ≡ u = ground (arith, str_eq_iff from_key u, same) in
            let p' : to_key ≡ v = ground (arith, str_eq_iff to_key v, same) in
            (
              subst (λ x. contains x keys ≡ true) p (ground (arith, c)),
              subst (λ x. contains x keys ≡ true) p' (ground (arith, c)),
            )
        | inr other ↦
            h (ground (arith, has_edge-add_edge lower nx u v k from_key to_key key e g, other, q))
      ]

  load_edge-IsJoined :
      (u v k : String) (m : List (String × String)) (keys : List String) (r : EdgeRow) (g : G)
      → IsJoined u v k keys g
      → IsJoined u v k keys (load_edge nx m keys r g)
  unfolding load_edge IsJoined
  load_edge-IsJoined u v k m keys r g h =
      let e = row_edge m r in
      elim (Bool-cases (contains e.from_node keys && contains e.to_node keys)) [
        | inl c ↦
            rw (c, load_edge) (added-IsJoined u v k keys e.from_node e.to_node (edge_key e) e g c h)
        | inr c ↦ rw (c, load_edge) h
      ]

  load_edges-IsJoined :
      (u v k : String) (m : List (String × String)) (keys : List String) (rows : List EdgeRow)
      (g : G)
      → IsJoined u v k keys g
      → IsJoined u v k keys (load_edges nx m keys rows g)
  unfolding load_edges
  load_edges-IsJoined u v k m keys [] g h = h
  load_edges-IsJoined u v k m keys (r ∷ rows) g h =
      load_edges-IsJoined u v k m keys rows _ (load_edge-IsJoined u v k m keys r g h)

  JoinsNodes : String → String → String → G → Type 0
  JoinsNodes u v k g =
      has_edge lower nx g u v k ≡ true
      → (is_node (held nx g u) ≡ true) × (is_node (held nx g v) ≡ true)

  load-JoinsNodes :
      (u v k : String) (fails : Call → Bool) (s : SemanticGraph G)
      → has_edge lower nx s.graph u v k ≡ false
      → JoinsNodes u v k (load nx fails s).1.graph
  unfolding load JoinsNodes IsRead IsJoined
  load-JoinsNodes u v k fails s before =
      let rows = take s.max_nodes s.backend.nodes in
      let l = load_nodes nx rows (unread s.graph) in
      let kept = has_edge-load_nodes lower nx u v k rows (unread s.graph) ∙ before in
      let empty = λ (y : String) (c : contains y [] ≡ true). absurd (ground (arith, c)) in
      elim (Bool-cases (fails loading_nodes)) [
        | inl e ↦ rw (e, load) (λ h. absurd (ground (arith, before, h)))
        | inr e ↦ elim (Bool-cases (l.0 || fails loading_edges)) [
          | inl f ↦ rw (e, load) (rw f (λ h. absurd (ground (arith, kept, h))))
          | inr f ↦
              rw (e, load)
                (rw f (λ h.
                  let ok : l.0 ≡ false = ground (arith, f) in
                  let (at_u, at_v) =
                    load_edges-IsJoined u v k l.1.map_of l.1.keys s.backend.edges l.1.graph
                      (λ q. absurd (ground (arith, kept, q))) h in
                  (
                    ap is_node (held-load_edges l.1.map_of l.1.keys s.backend.edges l.1.graph u)
                        ∙ load_nodes-IsRead rows (unread s.graph) u empty ok at_u,
                    ap is_node (held-load_edges l.1.map_of l.1.keys s.backend.edges l.1.graph v)
                        ∙ load_nodes-IsRead rows (unread s.graph) v empty ok at_v,
                  )))
        ]
      ]

  after_init-JoinsNodes :
      (u v k : String) (fails : Call → Bool) (o : Option {0} Unit × SemanticGraph G)
      → has_edge lower nx o.1.graph u v k ≡ false
      → JoinsNodes u v k (o >>> (λ x. load nx fails)).1.graph
  unfolding JoinsNodes
  after_init-JoinsNodes u v k fails (none, s) before = λ h. absurd (ground (arith, before, h))
  after_init-JoinsNodes u v k fails (some x, s) before = load-JoinsNodes u v k fails s before

  has_edge-empty : (u v k : String) → has_edge lower nx nx.empty u v k ≡ false
  unfolding has_edge find_arc
  has_edge-empty u v k = rw (nx.arcs-empty, has_edge) refl

  -- Every edge of a graph that is loaded for the first time, also when the number of nodes is cut to
  -- `max_nodes` or a call of the backend raises, joins two nodes that are loaded with their data.
  pub ensure_loaded-joined :
      (u v k : String) (fails : Call → Bool) (s : SemanticGraph G)
      → s.graph ≡ nx.empty
      → s.is_loaded ≡ false
      → has_edge lower nx (ensure_loaded nx fails s).1.graph u v k ≡ true
      → (is_node (held nx (ensure_loaded nx fails s).1.graph u) ≡ true)
        × (is_node (held nx (ensure_loaded nx fails s).1.graph v) ≡ true)
  unfolding JoinsNodes
  ensure_loaded-joined u v k fails s fresh e =
      let empty =
        ap (λ g. has_edge lower nx g u v k) (graph-ensure_initialized nx fails s ∙ fresh)
        ∙ has_edge-empty u v k in
      rw (ensure_loaded_else nx fails s e)
        (after_init-JoinsNodes u v k fails (ensure_initialized nx fails s) empty)
