-- ===== src/Semantic/Writes.antt =====
-- The writes of `SemanticGraph` in src/engram/semantic/graph.py: nodes and edges added one by one or in
-- a batch, and removed.
use engram_mem.Base.{
  String, Bool, true, false, not, ◌&&◌, Option, none, some, List, [], ◌∷◌, ◌++◌, str_eq, ◌>>=◌,
  if◌then◌else◌,
}
use engram_mem.Base.Dict.{get, put}
use engram_mem.Base.Texts.{split_colon}
use engram_mem.Semantic.{
  SemanticNode, SemanticEdge, new_node, node_key, edge_key, canonicalize_node_key, find_arc,
  Networkx,
}
use engram_mem.Semantic.Backend.{NodeRow, EdgeRow, save_node, save_edge}
use engram_mem.Semantic.Graph.{Call, saving, AuditEntry, SemanticGraph, ◌>>>◌, ensure_loaded}

unfoldable pub node_row : String → SemanticNode → NodeRow
node_row key n = record { key = key; type = n.type; name = n.name; attributes = some n.attributes }

unfoldable pub edge_row : SemanticEdge → EdgeRow
unfolding edge_key
edge_row e = record {
  key = edge_key e;
  from_key = e.from_node;
  to_key = e.to_node;
  relation = e.relation;
  weight = e.weight;
  attributes = e.attributes;
}

abbrev pub logged :
    String → String → List (String × String) → Option (List AuditEntry) → Option (List AuditEntry)
logged operation resource_id details none = none
logged operation resource_id details (some entries) =
    some (
      entries
      ++ record { operation = operation; resource_id = resource_id; details = details } ∷ [])

-- `if self._audit: self._audit.log(...)`
unfoldable pub log :
    {G : Type 0} → String → String → List (String × String) → SemanticGraph G → SemanticGraph G
log operation resource_id details s = record s {
  audit = logged operation resource_id details s.audit;
}

abbrev pub keys_of : List (String × Option SemanticNode) → List String
keys_of [] = []
keys_of ((key, held) ∷ rest) = key ∷ keys_of rest

-- `existing_key.split(":", 1)[1]`
abbrev pub name_in : String → Option String
name_in key = elim (split_colon key) [ none ↦ none | some (type, name) ↦ some name ]

-- The node under the key of one that differs in case only; `none` is the IndexError of a key
-- without a colon.
abbrev pub renamed : SemanticNode → String → Option SemanticNode
renamed n existing = name_in existing >>= (λ name. some (new_node n.type name n.attributes))

-- The key and the node to write, given the key that differs in case only.
abbrev pub write_as : SemanticNode → Option String → Option (String × SemanticNode)
write_as n none = some (node_key n, n)
write_as n (some existing) = renamed n existing >>= (λ n'. some (existing, n'))

module _ (lower : String → String) where
  -- The first key that differs from `key` in case only.
  unfoldable pub variant : String → List String → Option String
  variant key [] = none
  variant key (existing ∷ rest) =
      let later = variant key rest in
      if str_eq (lower existing) (lower key) && not (str_eq existing key)
      then some existing
      else later

  -- The key and the node that `add_node` writes.
  unfoldable pub resolve_node : SemanticNode → List String → Option (String × SemanticNode)
  unfolding variant node_key
  resolve_node n keys = write_as n (variant (node_key n) keys)

  -- `{k.lower(): k for k in nodes}`, over the entries of `index`.
  unfoldable pub index_keys : List String → List (String × String) → List (String × String)
  index_keys [] index = index
  index_keys (key ∷ rest) index = index_keys rest (put index (lower key) key)

  -- `existing_lower.get(key.lower(), key)` for a key in its canonical form.
  unfoldable pub resolve_key : List (String × String) → String → String
  unfolding canonicalize_node_key
  resolve_key index key =
      let canonical = canonicalize_node_key key in
      elim (get index (lower canonical)) [ none ↦ canonical | some existing ↦ existing ]

  unfoldable pub normalize_edge : List (String × String) → SemanticEdge → SemanticEdge
  unfolding resolve_key
  normalize_edge index e = record e {
    from_node = resolve_key index e.from_node;
    to_node = resolve_key index e.to_node;
  }

  -- A node of a batch, renamed if it differs in case only from a key of the index.
  unfoldable pub deduped_node : SemanticNode → List (String × String) → Option SemanticNode
  unfolding node_key
  deduped_node n index = elim (get index (lower (node_key n))) [
    | none ↦ some n
    | some existing ↦ if str_eq existing (node_key n) then some n else renamed n existing
  ]

  unfoldable pub dedup_nodes :
      List SemanticNode → List (String × String) → Option (List SemanticNode)
  unfolding deduped_node
  dedup_nodes [] index = some []
  dedup_nodes (n ∷ rest) index = elim (deduped_node n index) [
    | none ↦ none
    | some n' ↦ elim (dedup_nodes rest (put index (lower (node_key n)) (node_key n'))) [
      | none ↦ none
      | some later ↦ some (n' ∷ later)
    ]
  ]

module _ {G : Type 0} (lower : String → String) (nx : Networkx G) where
  -- `key in self._graph`
  unfoldable pub has : G → String → Bool
  has g key = elim (get (nx.nodes g) key) [ none ↦ false | some held ↦ true ]

  unfoldable pub has_edge : G → String → String → String → Bool
  has_edge g u v k = elim (find_arc u v k (nx.arcs g)) [ none ↦ false | some edge ↦ true ]

  -- `add_node` after the key is found.
  unfoldable pub write_resolved :
      Option (String × SemanticNode)
      → (Call → Bool)
      → SemanticGraph G
      → Option Bool × SemanticGraph G
  unfolding node_key
  write_resolved none fails s = (none, s)
  write_resolved (some (key, n)) fails s =
      let is_new = not (has s.graph key) in
      let operation = if is_new then "semantic.add_node" else "semantic.update_node" in
      let details = ("type", n.type) ∷ ("name", n.name) ∷ [] in
      if fails saving then (none, s) else (
        some is_new,
        log operation (node_key n) details (record s {
          backend = save_node (node_row key n) s.backend;
          graph = nx.add_node s.graph key n;
        }),
      )

  unfoldable pub write_node :
      SemanticNode → (Call → Bool) → SemanticGraph G → Option Bool × SemanticGraph G
  unfolding write_resolved
  write_node node fails s =
      write_resolved (resolve_node lower node (keys_of (nx.nodes s.graph))) fails s

  unfoldable pub add_node :
      SemanticNode → (Call → Bool) → SemanticGraph G → Option Bool × SemanticGraph G
  add_node node fails s = ensure_loaded nx fails s >>> (λ u. write_node node fails)

  unfoldable pub write_edge :
      SemanticEdge → (Call → Bool) → SemanticGraph G → Option Bool × SemanticGraph G
  write_edge edge fails s =
      let index = index_keys lower (keys_of (nx.nodes s.graph)) [] in
      let e = normalize_edge lower index edge in
      if fails saving
      then (none, s)
      else let is_new = not (has_edge s.graph e.from_node e.to_node (edge_key e)) in
        let details = ("relation", e.relation) ∷ ("from", e.from_node) ∷ ("to", e.to_node) ∷ [] in
        (
          some is_new,
          log "semantic.add_edge" (edge_key e) details (record s {
            backend = save_edge (edge_row e) s.backend;
            graph = nx.add_edge s.graph e.from_node e.to_node (edge_key e) e;
          }),
        )

  unfoldable pub add_edge :
      SemanticEdge → (Call → Bool) → SemanticGraph G → Option Bool × SemanticGraph G
  add_edge edge fails s = ensure_loaded nx fails s >>> (λ u. write_edge edge fails)

  unfoldable pub hold_nodes : List SemanticNode → G → G
  hold_nodes [] g = g
  hold_nodes (n ∷ rest) g = hold_nodes rest (nx.add_node g (node_key n) n)

  unfoldable pub hold_edges : List SemanticEdge → G → G
  hold_edges [] g = g
  hold_edges (e ∷ rest) g = hold_edges rest (nx.add_edge g e.from_node e.to_node (edge_key e) e)
