-- ===== src/Tenant.antt =====
-- src/engram/tenant.py: tenant ids, and the stores and graphs that are kept for each tenant. Tenant ids
-- are tested as the pattern of `_TENANT_ID_RE` matches them. An OrderedDict is a list of entries with
-- the oldest first, and `closed` lists the graphs whose `close` was called.
pub mod Cache
pub mod Recency
pub mod Requests
pub mod Isolation
mod Examples
use Prim.Native.String.{len, slice, ◌++◌ as join}
use text.Mathlib.Text.{find?}
use engram_mem.Base.Texts.{ends_with}
use engram_mem.Base.{
  ℕ, zero, suc, ◌+◌, ◌-◌, String, Bool, true, false, ◌&&◌, ◌||◌, Option, none, some, List, [], ◌∷◌,
  ◌++◌, map, length, ltb, leb, ◌==◌, str_eq, if◌then◌else◌, ◌>>=◌,
}
use engram_mem.Base.Dict.{get, pop}

abbrev pub tenant_chars : String
tenant_chars = "abcdefghijklmnopqrstuvwxyzABCDEFGHIJKLMNOPQRSTUVWXYZ0123456789_-"

-- One character of the class in the pattern.
unfoldable pub is_tenant_char : String → Bool
is_tenant_char c = (len c == 1) && elim (find? tenant_chars c) [ some i ↦ true | none ↦ false ]

-- The first `n` characters are of the class; in such a text a character is one byte.
unfoldable pub all_tenant_chars : ℕ → String → Bool
all_tenant_chars zero s = true
all_tenant_chars (suc n) s = is_tenant_char (slice s n (n + 1)) && all_tenant_chars n s

unfoldable pub matches_whole : String → Bool
matches_whole s = leb 1 (len s) && leb (len s) 64 && all_tenant_chars (len s) s

-- `$` also matches before a newline at the end.
unfoldable pub is_tenant_id : String → Bool
is_tenant_id s = matches_whole s || (ends_with s "\n" && matches_whole (slice s 0 (len s - 1)))

-- `none` is the ValueError.
unfoldable pub validate_tenant_id : String → Option String
validate_tenant_id tenant_id = if is_tenant_id tenant_id then some tenant_id else none

-- `TenantContext.set`: the context afterwards.
unfoldable pub set_context : String → String → Option String
set_context tid context = validate_tenant_id tid

-- `tenant_id or TenantContext.get()`
unfoldable pub tenant_or : Option String → String → String
tenant_or none context = context
tenant_or (some tid) context = if str_eq tid "" then context else tid

module _ {V : Type 0} where
  -- `d.move_to_end(tid)` for an entry with this value
  unfoldable pub move_to_end : List (String × V) → String → V → List (String × V)
  move_to_end d tid value = pop d tid ++ (tid, value) ∷ []

  -- `d[tid] = value` for a key that is not present
  unfoldable pub add : List (String × V) → String → V → List (String × V)
  add d tid value = d ++ (tid, value) ∷ []

  -- What is left when the oldest entry is deleted over the limit, and the entry.
  unfoldable pub evict : ℕ → List (String × V) → List (String × V) × List (String × V)
  evict limit [] = ([], [])
  evict limit (oldest ∷ rest) =
      if ltb limit (length (oldest ∷ rest)) then (rest, oldest ∷ []) else (oldest ∷ rest, [])

abbrev pub max_episodic_cache : ℕ
max_episodic_cache = 1000

abbrev pub max_graph_cache : ℕ
max_graph_cache = 100

pub record SemanticConfig : Type 0 where
  pub is_postgresql : Bool
  pub path : String

unfoldable pub tenant_path : String → String → String
tenant_path base_path tid =
    if ends_with base_path ".db"
    then join (join (join (slice base_path 0 (len base_path - 3)) ".") tid) ".db"
    else join (join (join base_path ".") tid) ".db"

unfoldable pub tenant_config : SemanticConfig → String → SemanticConfig
tenant_config cfg tid =
    if cfg.is_postgresql
    then cfg
    else record { is_postgresql = cfg.is_postgresql; path = tenant_path cfg.path tid }

-- `E` and `G` are the stores and the graphs; `new_store` is the constructor of the store and
-- `create_graph` that of the graph, which may raise. The path of the settings is expanded.
module _ {E G : Type 0} (new_store : String → E) (create_graph : SemanticConfig → Option G) where
  pub record StoreFactory : Type 0 where
    pub config : SemanticConfig
    pub episodic_stores : List (String × E)
    pub graphs : List (String × G)
    pub closed : List G

  unfoldable pub episodic_of : String → StoreFactory → E × StoreFactory
  episodic_of tid f = elim (get f.episodic_stores tid) [
    | some store ↦ (store, record f { episodic_stores = move_to_end f.episodic_stores tid store })
    | none ↦
        let store = new_store tid in
        let kept = (evict max_episodic_cache (add f.episodic_stores tid store)).0 in
        (store, record f { episodic_stores = kept })
  ]

  unfoldable pub get_episodic : String → Option String → StoreFactory → Option (E × StoreFactory)
  get_episodic context tenant_id f =
      validate_tenant_id (tenant_or tenant_id context) >>= (λ tid. some (episodic_of tid f))

  abbrev pub values : List (String × G) → List G
  values [] = []
  values ((tid, graph) ∷ rest) = graph ∷ values rest

  -- Under the lock of the factory; `none` where the graph cannot be created.
  unfoldable pub graph_of : String → StoreFactory → Option (G × StoreFactory)
  graph_of tid f = elim (get f.graphs tid) [
    | some graph ↦ some (graph, record f { graphs = move_to_end f.graphs tid graph })
    | none ↦ create_graph (tenant_config f.config tid) >>= (λ graph.
        let (kept, evicted) = evict max_graph_cache (add f.graphs tid graph) in
        some (graph, record f { graphs = kept; closed = f.closed ++ values evicted }))
  ]

  unfoldable pub get_graph : String → Option String → StoreFactory → Option (G × StoreFactory)
  get_graph context tenant_id f =
      validate_tenant_id (tenant_or tenant_id context) >>= (λ tid. graph_of tid f)

  unfoldable pub close_all : StoreFactory → StoreFactory
  close_all f = record f { episodic_stores = []; graphs = []; closed = f.closed ++ values f.graphs }
