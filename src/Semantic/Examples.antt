-- ===== src/Semantic/Examples.antt =====
-- A multigraph of two lists in the place of NetworkX, and runs of the graph on it.
use engram_mem.Base.{
  ◌≤◌, ◌≡◌, refl, String, Bool, true, false, not, ◌&&◌, Option, none, some, List, [], ◌∷◌,
  filter_by, count_by, arith, str_eq, str_eq_iff, ◌==◌, if◌then◌else◌, All, inl, inr, Bool-cases,
}
use mathlib.Core.Path.{subst}
use engram_mem.Base.Dict.{get, put, pop}
use engram_mem.Base.Texts.{strip, split_colon}
use engram_mem.Semantic.{
  Value.text, SemanticNode, SemanticEdge, Arc, is_arc, find_arc, touches, ensure, Networkx,
}
use engram_mem.Semantic.Backend.{Backend, NodeRow, EdgeRow, row_touches}
use engram_mem.Semantic.Graph.{Call, deleting_node, SemanticGraph, ensure_loaded}
use engram_mem.Semantic.Writes.{
  keys_of, has, has_edge, write_node, add_node, index_keys, dedup_nodes, hold_nodes, resolve_node,
}
use engram_mem.Semantic.Batches.{write_nodes, add_nodes_batch, remove_node}
use engram_mem.Semantic.Read.{held, get_node}
use engram_mem.Semantic.Agree.{stored, find_arc-filter_by}
use engram_mem.Semantic.Arcs.{IsHeld}
use engram_mem.Semantic.Variants.{alike}
use engram_mem.Semantic.Synced.{Request, put_node, put_edge, cut_node, perform_all, IsSynced}
use engram_mem.Semantic.Joined.{is_node}
use engram_mem.Semantic.Runs
use engram_mem.Semantic.OneKey
use engram_mem.Semantic.Joined
use engram_mem.Semantic.Removal

record Net : Type 0 where
  nodes : List (String × Option SemanticNode)
  arcs : List Arc

abbrev put_arc : String → String → String → SemanticEdge → List Arc → List Arc
put_arc u v k e arcs =
    record { source = u; target = v; key = k; data_of = e }
    ∷ filter_by (λ a. not (is_arc u v k a)) arcs

is_arc-other :
    (u v k u' v' k' : String) (a : Arc)
    → (str_eq u u' && str_eq v v' && str_eq k k') ≡ false
    → is_arc u' v' k' a ≡ true
    → not (is_arc u v k a) ≡ true
unfolding is_arc
is_arc-other u v k u' v' k' a e q =
    let s : a.source ≡ u' = ground (arith, q, str_eq_iff a.source u') in
    let t : a.target ≡ v' = ground (arith, q, str_eq_iff a.target v') in
    let n : a.key ≡ k' = ground (arith, q, str_eq_iff a.key k') in
    rw (s, t, n)
      (ground (
        arith,
        e,
        str_eq_iff u u',
        str_eq_iff u' u,
        str_eq_iff v v',
        str_eq_iff v' v,
        str_eq_iff k k',
        str_eq_iff k' k,
      ))

find_arc-put_arc :
    (arcs : List Arc) (u v k : String) (e : SemanticEdge) (u' v' k' : String)
    → find_arc u' v' k' (put_arc u v k e arcs)
      ≡ (if str_eq u u' && str_eq v v' && str_eq k k' then some e else find_arc u' v' k' arcs)
unfolding find_arc is_arc
find_arc-put_arc arcs u v k e u' v' k' =
    elim (Bool-cases (str_eq u u' && str_eq v v' && str_eq k k')) [
      | inl q ↦ rw (q, find_arc) refl
      | inr q ↦
          rw (q, find_arc)
            (find_arc-filter_by (λ a. not (is_arc u v k a)) u' v' k' arcs
              (λ a. is_arc-other u v k u' v' k' a q))
    ]

abbrev net : Networkx Net
net = record {
  empty = record { nodes = []; arcs = [] };
  nodes = λ g. g.nodes;
  arcs = λ g. g.arcs;
  add_node = λ g k n. record g { nodes = put g.nodes k (some n) };
  add_edge =
      λ g u v k e. record { nodes = ensure v (ensure u g.nodes); arcs = put_arc u v k e g.arcs };
  remove_node =
      λ g k. record { nodes = pop g.nodes k; arcs = filter_by (λ a. not (touches k a)) g.arcs };
  remove_edge = λ g u v k. record g { arcs = filter_by (λ a. not (is_arc u v k a)) g.arcs };
  within = λ g start cutoff. start ∷ [];
  nodes-empty = refl;
  arcs-empty = refl;
  nodes-add_node = λ g k n. refl;
  arcs-add_node = λ g k n. refl;
  nodes-add_edge = λ g u v k e. refl;
  arcs-add_edge = λ g u v k e. find_arc-put_arc g.arcs u v k e;
  nodes-remove_node = λ g k. refl;
  arcs-remove_node = λ g k. refl;
  nodes-remove_edge = λ g u v k. refl;
  arcs-remove_edge = λ g u v k. refl;
}

abbrev to_lower : String → String
to_lower s =
    if str_eq s "Project:Engram"
    then "project:engram"
    else if str_eq s "project:Engram"
    then "project:engram"
    else s

abbrev node : String → String → SemanticNode
node type name = record { type = type; name = name; attributes = ("n", text name) ∷ [] }

abbrev uses : SemanticEdge
uses = record {
  from_node = "Project:Engram";
  to_node = "Tool:Qdrant";
  relation = "uses";
  weight = 100;
  attributes = [];
}

abbrev row_of : String → String → String → NodeRow
row_of key type name = record {
  key = key;
  type = type;
  name = name;
  attributes = some (("n", text name) ∷ []);
}

abbrev uses_row : EdgeRow
uses_row = record {
  key = "Project:Engram--uses-->Tool:Qdrant";
  from_key = "Project:Engram";
  to_key = "Tool:Qdrant";
  relation = "uses";
  weight = 100;
  attributes = [];
}

abbrev tables : Backend
tables = record {
  nodes = row_of "Project:Engram" "Project" "Engram" ∷ row_of "Tool:Qdrant" "Tool" "Qdrant" ∷ [];
  edges = uses_row ∷ [];
}

abbrev no_call : Call → Bool
no_call c = false

abbrev node_deletion : Call → Bool
node_deletion deleting_node = true
node_deletion _ = false

abbrev fresh : SemanticGraph Net
fresh = record {
  graph = net.empty;
  backend = tables;
  is_loaded = false;
  is_initialized = false;
  max_nodes = 50;
  audit = some [];
}

abbrev opened : SemanticGraph Net
opened = record {
  graph = record {
    nodes =
        ("Project:Engram", some (node "Project" "Engram"))
        ∷ ("Tool:Qdrant", some (node "Tool" "Qdrant"))
        ∷ [];
    arcs =
        record {
          source = "Project:Engram";
          target = "Tool:Qdrant";
          key = "Project:Engram--uses-->Tool:Qdrant";
          data_of = uses;
        }
        ∷ [];
  };
  backend = tables;
  is_loaded = true;
  is_initialized = true;
  max_nodes = 50;
  audit = some [];
}

-- The first access loads the tables.
ensure_loaded_opens : ensure_loaded net no_call fresh ≡ (some tt, opened)
unfolding ensure_loaded put strip get ensure
ensure_loaded_opens = refl

-- A batch with a type in another case adds a second node, which `add_node` would not.
add_nodes_batch_twin :
    keys_of (
      net.nodes
        (add_nodes_batch to_lower net (node "project" "Engram" ∷ []) no_call opened).1.graph)
    ≡ "Project:Engram" ∷ "Tool:Qdrant" ∷ "project:Engram" ∷ []
unfolding add_nodes_batch ensure_loaded write_nodes dedup_nodes get index_keys put split_colon
    hold_nodes strip
add_nodes_batch_twin = refl

abbrev run : List (Request × (Call → Bool))
run =
    (put_node (node "project" "Engram"), no_call)
    ∷ (put_edge uses, no_call)
    ∷ (cut_node "Tool:Qdrant", no_call)
    ∷ []

nodes_agree : (key : String) → held net opened.graph key ≡ stored tables.nodes key
unfolding held get
nodes_agree key = ground arith

opened-IsSynced : IsSynced to_lower net opened
unfolding find_arc
opened-IsSynced = record {
  loaded = refl;
  in_step = record { nodes_agree = nodes_agree; edges_held = (refl, tt) };
}

perform_all-IsSynced_example :
    let s' = perform_all to_lower net run opened in
    (s'.is_loaded ≡ true)
    × (get_node net "Project:Engram" s'.graph ≡ stored s'.backend.nodes "Project:Engram")
    × All (IsHeld (net.arcs s'.graph)) s'.backend.edges
perform_all-IsSynced_example =
    Runs.perform_all-IsSynced to_lower net run opened "Project:Engram"
      ((refl, refl), ((refl, refl), ((refl, refl), tt))) opened-IsSynced

count_two : (t : String) → count_by (λ k. str_eq k t) ("project:engram" ∷ "Tool:Qdrant" ∷ []) ≤ 1
count_two t = elim (Bool-cases (str_eq "project:engram" t)) [
  | inl e ↦
      subst (λ t. count_by (λ k. str_eq k t) ("project:engram" ∷ "Tool:Qdrant" ∷ []) ≤ 1)
        ((str_eq_iff "project:engram" t).0 e) (omega arith)
  | inr e ↦ ground (arith, e)
]

few_alike : (t : String) → alike to_lower t (keys_of (net.nodes opened.graph)) ≤ 1
few_alike t = count_two t

add_node-one_key_example :
    let n = node "project" "Engram" in
    let s' = (add_node to_lower net n no_call opened).1 in
    (false ≡ (alike to_lower "project:engram" (keys_of (net.nodes opened.graph)) == 0))
    × (alike to_lower "project:engram" (keys_of (net.nodes s'.graph)) ≡ 1)
    × (alike to_lower "other" (keys_of (net.nodes s'.graph)) ≤ 1)
    × ((key : String) × (m : SemanticNode) × (str_eq (to_lower key) "project:engram" ≡ true)
        × (get_node net key s'.graph ≡ some m)
        × (m.attributes ≡ n.attributes))
unfolding add_node ensure_loaded resolve_node split_colon get write_node has
add_node-one_key_example =
    OneKey.add_node-one_key to_lower net (node "project" "Engram") no_call opened false "other" refl
      few_alike refl

ensure_loaded-joined_example :
    (is_node (held net (ensure_loaded net no_call fresh).1.graph "Project:Engram") ≡ true)
    × (is_node (held net (ensure_loaded net no_call fresh).1.graph "Tool:Qdrant") ≡ true)
unfolding ensure_loaded put strip get ensure has_edge find_arc
ensure_loaded-joined_example =
    Joined.ensure_loaded-joined to_lower net "Project:Engram" "Tool:Qdrant"
      "Project:Engram--uses-->Tool:Qdrant" no_call fresh refl refl refl

remove_node-gone_example :
    let (removed, s') = remove_node to_lower net "Tool:Qdrant" no_call opened in
    (removed ≡ some true)
    × (has to_lower net s'.graph "Tool:Qdrant" ≡ false)
    × All (λ a. not (touches "Tool:Qdrant" a) ≡ true) (net.arcs s'.graph)
    × All (λ r. not (str_eq r.key "Tool:Qdrant") ≡ true) s'.backend.nodes
    × All (λ r. not (row_touches "Tool:Qdrant" r) ≡ true) s'.backend.edges
unfolding has get
remove_node-gone_example =
    Removal.remove_node-gone to_lower net "Tool:Qdrant" no_call opened refl refl refl refl

remove_node-stale_example :
    let (removed, s') = remove_node to_lower net "Tool:Qdrant" node_deletion opened in
    (removed ≡ none)
    × (s'.is_loaded ≡ false)
    × All (λ r. not (row_touches "Tool:Qdrant" r) ≡ true) s'.backend.edges
    × (has_edge to_lower net
          (ensure_loaded net no_call s').1.graph
          "Project:Engram"
          "Tool:Qdrant"
          "Project:Engram--uses-->Tool:Qdrant"
        ≡ true)
unfolding has get has_edge find_arc
remove_node-stale_example =
    Removal.remove_node-stale to_lower net "Tool:Qdrant" "Project:Engram" "Tool:Qdrant"
      "Project:Engram--uses-->Tool:Qdrant" node_deletion no_call opened refl refl refl refl refl
