-- ===== src/Semantic/Agree.antt =====
-- What the single writes of src/engram/semantic/graph.py do to the rows of the backend and to the graph
-- in memory.
use engram_mem.Base.{
  ◌≡◌, refl, ◌∙◌, String, Bool, true, not, Option, none, some, List, [], ◌∷◌, filter_by, arith, inl,
  inr, str_eq, str_eq_iff, if◌then◌else◌, Bool-cases, Option-cases,
}
use engram_mem.Base.Dict.{get, put, pop, get-put, get-pop}
use engram_mem.Semantic.{SemanticNode, SemanticEdge, Arc, is_arc, find_arc, ensure, Networkx}
use engram_mem.Semantic.Backend.{NodeRow, EdgeRow, insert_node}
use engram_mem.Semantic.Merge.{or_empty}
use engram_mem.Semantic.Read.{held, value_at}

abbrev pub stored_node : NodeRow → SemanticNode
stored_node r = record { type = r.type; name = r.name; attributes = or_empty r.attributes }

-- The node of a row with this key.
abbrev pub stored : List NodeRow → String → Option SemanticNode
stored [] key = none
stored (r ∷ rows) key = if str_eq r.key key then some (stored_node r) else stored rows key

abbrev pub stored_edge : EdgeRow → SemanticEdge
stored_edge r = record {
  from_node = r.from_key;
  to_node = r.to_key;
  relation = r.relation;
  weight = r.weight;
  attributes = r.attributes;
}

pub stored-delete :
    (gone : String) (rows : List NodeRow) (key : String)
    → stored (filter_by (λ r. not (str_eq r.key gone)) rows) key
      ≡ (if str_eq gone key then none else stored rows key)
stored-delete gone [] key = ground arith
stored-delete gone (r ∷ rows) key = ground (
  arith,
  stored-delete gone rows key,
  str_eq_iff r.key gone,
  str_eq_iff r.key key,
  str_eq_iff gone key,
)

pub stored-insert_node :
    (row : NodeRow) (rows : List NodeRow) (key : String)
    → stored (insert_node row rows) key
      ≡ (if str_eq row.key key then some (stored_node row) else stored rows key)
unfolding insert_node
stored-insert_node row [] key = refl
stored-insert_node row (r ∷ rows) key = ground (
  arith,
  stored-insert_node row rows key,
  str_eq_iff r.key row.key,
  str_eq_iff r.key key,
  str_eq_iff row.key key,
)

pub value_at-put :
    (nodes : List (String × Option SemanticNode)) (k : String) (n : SemanticNode) (key : String)
    → value_at (put nodes k (some n)) key ≡ (if str_eq k key then some n else value_at nodes key)
unfolding value_at
value_at-put nodes k n key = ground (arith, get-put nodes k (some n) key)

pub value_at-pop :
    (nodes : List (String × Option SemanticNode)) (k key : String)
    → value_at (pop nodes k) key ≡ (if str_eq k key then none else value_at nodes key)
unfolding value_at
value_at-pop nodes k key = ground (arith, get-pop nodes k key)

value_at-put-none :
    (nodes : List (String × Option SemanticNode)) (k key : String)
    → get nodes k ≡ none
    → value_at (put nodes k none) key ≡ value_at nodes key
unfolding value_at
value_at-put-none nodes k key h = ground (arith, get-put nodes k none key, h, str_eq_iff k key)

pub value_at-ensure :
    (nodes : List (String × Option SemanticNode)) (k key : String)
    → value_at (ensure k nodes) key ≡ value_at nodes key
unfolding ensure
value_at-ensure nodes k key = elim (Option-cases (get nodes k)) [
  | inl e ↦ rw (e, ensure) (value_at-put-none nodes k key e)
  | inr (x, e) ↦ rw (e, ensure) refl
]

module _ {G : Type 0} (nx : Networkx G) where
  pub held-add_node :
      (g : G) (k : String) (n : SemanticNode) (key : String)
      → held nx (nx.add_node g k n) key ≡ (if str_eq k key then some n else held nx g key)
  unfolding held
  held-add_node g k n key = rw (nx.nodes-add_node g k n) (value_at-put (nx.nodes g) k n key)

  pub held-add_edge :
      (g : G) (u v k : String) (e : SemanticEdge) (key : String)
      → held nx (nx.add_edge g u v k e) key ≡ held nx g key
  unfolding held
  held-add_edge g u v k e key =
      rw (nx.nodes-add_edge g u v k e)
        (value_at-ensure (ensure u (nx.nodes g)) v key ∙ value_at-ensure (nx.nodes g) u key)

  pub held-remove_node :
      (g : G) (k key : String)
      → held nx (nx.remove_node g k) key ≡ (if str_eq k key then none else held nx g key)
  unfolding held
  held-remove_node g k key = rw (nx.nodes-remove_node g k) (value_at-pop (nx.nodes g) k key)

  pub held-remove_edge :
      (g : G) (u v k key : String) → held nx (nx.remove_edge g u v k) key ≡ held nx g key
  unfolding held
  held-remove_edge g u v k key = rw (nx.nodes-remove_edge g u v k) refl

-- The arcs with a key that a filter keeps are found as before.
pub find_arc-filter_by :
    (p : Arc → Bool) (u v k : String) (arcs : List Arc)
    → ((a : Arc) → is_arc u v k a ≡ true → p a ≡ true)
    → find_arc u v k (filter_by p arcs) ≡ find_arc u v k arcs
unfolding find_arc
find_arc-filter_by p u v k [] h = refl
find_arc-filter_by p u v k (a ∷ arcs) h = elim (Bool-cases (is_arc u v k a)) [
  | inl e ↦ rw (h a e, filter_by) (rw (e, find_arc) refl)
  | inr e ↦ elim (Bool-cases (p a)) [
    | inl q ↦ rw (q, filter_by) (rw (e, find_arc) (find_arc-filter_by p u v k arcs h))
    | inr q ↦ rw (q, filter_by) (rw (e, find_arc) (find_arc-filter_by p u v k arcs h))
  ]
]
