-- ===== src/Semantic/Arcs.antt =====
-- The edges of the backend and those in memory, for src/engram/semantic/graph.py: what a write to both
-- does to the rows that memory holds.
use engram_mem.Base.{
  ◌≡◌, ◌∙◌, String, true, not, some, List, filter_by, arith, str_eq, str_eq_iff, str_eq_refl, All,
}
use engram_mem.Base.Members.{All-append, All-filter_map}
use engram_mem.Semantic.{SemanticEdge, edge_key, Arc, is_arc, find_arc, touches, Networkx}
use engram_mem.Semantic.Backend.{EdgeRow, insert_edge, row_touches}
use engram_mem.Semantic.Writes.{edge_row}
use engram_mem.Semantic.Agree.{stored_edge, find_arc-filter_by}

-- The edge of the row is in memory.
abbrev pub IsHeld : List Arc → EdgeRow → Type 0
IsHeld arcs r = find_arc r.from_key r.to_key r.key arcs ≡ some (stored_edge r)

module _ {G : Type 0} (nx : Networkx G) where
  IsHeld-add_edge :
      (g : G) (e : SemanticEdge) (r : EdgeRow)
      → not (str_eq r.key (edge_key e)) ≡ true
      → IsHeld (nx.arcs g) r
      → IsHeld (nx.arcs (nx.add_edge g e.from_node e.to_node (edge_key e) e)) r
  IsHeld-add_edge g e r other h = ground (
    arith,
    nx.arcs-add_edge g e.from_node e.to_node (edge_key e) e r.from_key r.to_key r.key,
    str_eq_iff r.key (edge_key e),
    str_eq_iff (edge_key e) r.key,
    other,
    h,
  )

  IsHeld-added :
      (g : G) (e : SemanticEdge)
      → IsHeld (nx.arcs (nx.add_edge g e.from_node e.to_node (edge_key e) e)) (edge_row e)
  unfolding edge_row
  IsHeld-added g e = ground (
    arith,
    nx.arcs-add_edge g e.from_node e.to_node (edge_key e) e e.from_node e.to_node (edge_key e),
    str_eq_refl e.from_node,
    str_eq_refl e.to_node,
    str_eq_refl (edge_key e),
  )

  pub IsHeld-insert_edge :
      (g : G) (e : SemanticEdge) (rows : List EdgeRow)
      → All (IsHeld (nx.arcs g)) rows
      → All
          (IsHeld (nx.arcs (nx.add_edge g e.from_node e.to_node (edge_key e) e)))
          (insert_edge (edge_row e) rows)
  unfolding insert_edge edge_key edge_row
  IsHeld-insert_edge g e rows h =
      All-append _ _ _ (All-filter_map _ (λ r. IsHeld-add_edge g e r) rows h) (IsHeld-added g e, tt)

  is_arc-far :
      (key : String) (r : EdgeRow) (a : Arc)
      → not (row_touches key r) ≡ true
      → is_arc r.from_key r.to_key r.key a ≡ true
      → not (touches key a) ≡ true
  unfolding is_arc touches row_touches
  is_arc-far key r a other q = ground (
    arith,
    str_eq_iff a.source r.from_key,
    str_eq_iff a.target r.to_key,
    str_eq_iff a.source key,
    str_eq_iff a.target key,
    str_eq_iff r.from_key key,
    str_eq_iff r.to_key key,
    other,
    q,
  )

  is_arc-other :
      (u v key : String) (r : EdgeRow) (a : Arc)
      → not (str_eq r.key key) ≡ true
      → is_arc r.from_key r.to_key r.key a ≡ true
      → not (is_arc u v key a) ≡ true
  unfolding is_arc
  is_arc-other u v key r a other q =
      ground (arith, str_eq_iff a.key r.key, str_eq_iff a.key key, str_eq_iff r.key key, other, q)

  -- A row that does not touch the node keeps its edge.
  IsHeld-remove_node :
      (g : G) (key : String) (r : EdgeRow)
      → not (row_touches key r) ≡ true
      → IsHeld (nx.arcs g) r
      → IsHeld (nx.arcs (nx.remove_node g key)) r
  IsHeld-remove_node g key r other h = rw (nx.arcs-remove_node g key) (
      find_arc-filter_by (λ a. not (touches key a)) r.from_key r.to_key r.key (nx.arcs g)
        (λ a q. is_arc-far key r a other q)
      ∙ h)

  pub IsHeld-delete_node :
      (g : G) (key : String) (rows : List EdgeRow)
      → All (IsHeld (nx.arcs g)) rows
      → All
          (IsHeld (nx.arcs (nx.remove_node g key)))
          (filter_by (λ r. not (row_touches key r)) rows)
  IsHeld-delete_node g key rows h = All-filter_map _ (λ r. IsHeld-remove_node g key r) rows h

  pub IsHeld-remove_edge :
      (g : G) (u v key : String) (r : EdgeRow)
      → not (str_eq r.key key) ≡ true
      → IsHeld (nx.arcs g) r
      → IsHeld (nx.arcs (nx.remove_edge g u v key)) r
  IsHeld-remove_edge g u v key r other h = rw (nx.arcs-remove_edge g u v key) (
      find_arc-filter_by (λ a. not (is_arc u v key a)) r.from_key r.to_key r.key (nx.arcs g)
        (λ a q. is_arc-other u v key r a other q)
      ∙ h)
