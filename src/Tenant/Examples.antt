-- ===== src/Tenant/Examples.antt =====
-- Requests of concrete tenants. A store is its tenant's id and a graph its settings.
use engram_mem.Base.{
  ◌⊎◌, ◌≢◌, true, ℕ, ◌≡◌, ◌≢◌, refl, String, false, Option, some, none, [], ◌∷◌, arith, str_eq_iff,
}
use engram_mem.Base.Dict.{get}
use engram_mem.Base.Texts.{ends_with}
use engram_mem.Tenant.{
  StoreFactory, SemanticConfig, tenant_path, tenant_config, get_graph, graph_of, validate_tenant_id,
  is_tenant_id, matches_whole, all_tenant_chars, is_tenant_char, evict, add, max_graph_cache,
  tenant_or,
}
use engram_mem.Tenant.Cache.{requested}
use engram_mem.Tenant.Recency.{IsRecent}
use engram_mem.Tenant.Requests
use engram_mem.Tenant.Isolation
use engram_mem.Tenant.Isolation.{Each, IsOwn}

abbrev settings : SemanticConfig
settings = record { is_postgresql = false; path = "/data/graph.db" }

store_of : String → String
store_of tid = tid

graph_at : SemanticConfig → Option SemanticConfig
graph_at config = some config

abbrev empty_factory : StoreFactory store_of graph_at
empty_factory = record { config = settings; episodic_stores = []; graphs = []; closed = [] }

-- A newline at the end of an id is let through.
newline_id : validate_tenant_id "acme\n" ≡ some "acme\n"
unfolding validate_tenant_id is_tenant_id matches_whole all_tenant_chars is_tenant_char ends_with
newline_id = refl

bad_id : validate_tenant_id "../acme" ≡ none
unfolding validate_tenant_id is_tenant_id matches_whole all_tenant_chars is_tenant_char ends_with
bad_id = refl

path_of_acme : tenant_path "/data/graph.db" "acme" ≡ "/data/graph.acme.db"
unfolding tenant_path ends_with
path_of_acme = refl

nothing-IsRecent : (limit : ℕ) → IsRecent limit [] []
nothing-IsRecent limit = record {
  older = [];
  split = refl;
  bound = omega arith;
  full = λ h. absurd (omega arith);
  distinct = λ tid. omega arith;
}

abbrev with_store : StoreFactory store_of graph_at
with_store = record empty_factory { episodic_stores = ("acme", "acme") ∷ [] }

abbrev with_acme : StoreFactory store_of graph_at
with_acme = record empty_factory { graphs = ("acme", tenant_config settings "acme") ∷ [] }

acme-ne-beta : ◌≢◌ {A = String} "acme" "beta"
acme-ne-beta e = ground (arith, (str_eq_iff "acme" "beta").1 e)

get_graph-IsRecent_example : IsRecent max_graph_cache (requested "acme" []) ("acme" ∷ [])
unfolding get_graph graph_of validate_tenant_id is_tenant_id matches_whole all_tenant_chars
    is_tenant_char evict add graph_at get tenant_or
get_graph-IsRecent_example =
    Requests.get_graph-IsRecent store_of graph_at "default" (some "acme") [] empty_factory with_acme
      (tenant_config settings "acme") (nothing-IsRecent 100) refl

abbrev acme : String
acme = "acme"

get_graph-IsOwn_example :
    IsOwn store_of graph_at settings "acme" (tenant_config settings "acme")
    × Each (IsOwn store_of graph_at settings) with_acme.graphs
    × ((settings.is_postgresql ≡ true)
        ⊎ (acme ≡ "beta")
        ⊎ (tenant_config settings "acme" ≢ tenant_config settings "beta"))
unfolding get_graph graph_of validate_tenant_id is_tenant_id matches_whole all_tenant_chars
    is_tenant_char evict add graph_at get tenant_or
get_graph-IsOwn_example =
    Isolation.get_graph-IsOwn store_of graph_at "default" "beta" (some "acme") empty_factory
      with_acme (tenant_config settings "acme") tt refl
