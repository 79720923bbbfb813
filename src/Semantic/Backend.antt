-- ===== src/Semantic/Backend.antt =====
-- src/engram/semantic/sqlite_backend.py: the tables `nodes` and `edges` as lists of rows in the order of
-- the rowid, one function for each statement. INSERT OR REPLACE deletes a row with the same primary
-- key and inserts at the end.
use engram_mem.Base.{
  ℕ, String, Bool, not, ◌||◌, Option, none, some, List, [], ◌∷◌, ◌++◌, filter_by, take, drop,
  str_eq, if◌then◌else◌,
}
use engram_mem.Semantic.{Value}

pub record NodeRow : Type 0 where
  pub key : String
  pub type : String
  pub name : String
  pub attributes : Option (List (String × Value))

pub record EdgeRow : Type 0 where
  pub key : String
  pub from_key : String
  pub to_key : String
  pub relation : String
  pub weight : ℕ
  pub attributes : List (String × Value)

pub record Backend : Type 0 where
  pub nodes : List NodeRow
  pub edges : List EdgeRow

unfoldable pub insert_node : NodeRow → List NodeRow → List NodeRow
insert_node row rows = filter_by (λ r. not (str_eq r.key row.key)) rows ++ row ∷ []

unfoldable pub insert_edge : EdgeRow → List EdgeRow → List EdgeRow
insert_edge row rows = filter_by (λ r. not (str_eq r.key row.key)) rows ++ row ∷ []

unfoldable pub save_node : NodeRow → Backend → Backend
save_node row b = record b { nodes = insert_node row b.nodes }

unfoldable pub save_edge : EdgeRow → Backend → Backend
save_edge row b = record b { edges = insert_edge row b.edges }

unfoldable pub save_nodes_batch : List NodeRow → Backend → Backend
save_nodes_batch [] b = b
save_nodes_batch (row ∷ rows) b = save_nodes_batch rows (save_node row b)

unfoldable pub save_edges_batch : List EdgeRow → Backend → Backend
save_edges_batch [] b = b
save_edges_batch (row ∷ rows) b = save_edges_batch rows (save_edge row b)

-- `from_key=? OR to_key=?`
unfoldable pub row_touches : String → EdgeRow → Bool
row_touches key r = str_eq r.from_key key || str_eq r.to_key key

unfoldable pub delete_edges_for_node : String → Backend → Backend
delete_edges_for_node key b = record b { edges = filter_by (λ r. not (row_touches key r)) b.edges }

-- Also the edges, in the same transaction.
unfoldable pub delete_node : String → Backend → Backend
delete_node key b = record {
  nodes = filter_by (λ r. not (str_eq r.key key)) b.nodes;
  edges = filter_by (λ r. not (row_touches key r)) b.edges;
}

unfoldable pub delete_edge : String → Backend → Backend
delete_edge key b = record b { edges = filter_by (λ r. not (str_eq r.key key)) b.edges }

unfoldable pub find_node_row : String → List NodeRow → Option NodeRow
find_node_row key [] = none
find_node_row key (r ∷ rows) = if str_eq r.key key then some r else find_node_row key rows

unfoldable pub get_node_by_key : String → Backend → Option NodeRow
unfolding find_node_row
get_node_by_key key b = find_node_row key b.nodes

-- `LIMIT limit OFFSET offset` on the rows whose key is LIKE the pattern.
unfoldable pub query_nodes_by_name :
    (String → String → Bool) → String → ℕ → ℕ → Backend → List NodeRow
query_nodes_by_name like pattern limit offset b =
    take limit (drop offset (filter_by (λ r. like pattern r.key) b.nodes))
