-- ===== src/Tenant/Isolation.antt =====
-- A tenant gets its own graph, in its own file.
use mathlib.Core.Path.{subst}
use mathlib.Core.Option.{some-injective}
use Prim.Native.String.{len, slice, ◌++◌ as join}
use text.Mathlib.TextLemmas.{append_cancel_left, append_cancel_right}
use engram_mem.Base.{
  ℕ, ◌-◌, ◌≡◌, ◌≢◌, ap, true, ◌⊎◌, String, Option, some, List, [], ◌∷◌, ◌++◌, arith, ltb, length,
  inl, inr, Bool-cases, str_eq, str_eq_iff,
}
use engram_mem.Base.Dict.{get, pop}
use engram_mem.Base.Texts.{ends_with}
use engram_mem.Tenant.{
  move_to_end, add, evict, StoreFactory, graph_of, get_graph, max_graph_cache, SemanticConfig,
  tenant_or, tenant_config, tenant_path,
}
use engram_mem.Tenant.Requests.{graph_of-cases, validated}

tenant_path-injective :
    (base_path tid tid' : String)
    → tenant_path base_path tid ≡ tenant_path base_path tid'
    → tid ≡ tid'
unfolding tenant_path
tenant_path-injective base_path tid tid' h = elim (Bool-cases (ends_with base_path ".db")) [
  | inl e ↦
      append_cancel_left (join (slice base_path 0 (len base_path - 3)) ".") tid tid'
        (append_cancel_right _ _ ".db" (ground (arith, e, h)))
  | inr e ↦
      append_cancel_left (join base_path ".") tid tid'
        (append_cancel_right _ _ ".db" (ground (arith, e, h)))
]

-- Two tenants never share a file: whatever the path of the settings, different ids have different
-- paths.
pub tenant_path-ne :
    (base_path tid tid' : String)
    → tid ≢ tid'
    → tenant_path base_path tid ≢ tenant_path base_path tid'
tenant_path-ne base_path tid tid' ne h = ne (tenant_path-injective base_path tid tid' h)

module _ {V : Type 0} (P : String → V → Type 0) where
  abbrev pub Each : List (String × V) → Type 0
  Each [] = Unit
  Each ((tid, value) ∷ d) = P tid value × Each d

  Each-get :
      (d : List (String × V)) (tid : String) (value : V)
      → Each d
      → get d tid ≡ some value
      → P tid value
  unfolding get
  Each-get [] tid value h e = absurd (ground arith)
  Each-get ((here, v) ∷ d) tid value h e = elim (Bool-cases (str_eq here tid)) [
    | inl t ↦
        subst (λ k. P k value) ((str_eq_iff here tid).0 t)
          (subst (P here) (some-injective v value (ground (arith, e, t))) h.0)
    | inr t ↦ Each-get d tid value h.1 (ground (arith, e, t))
  ]

  Each-pop : (d : List (String × V)) (tid : String) → Each d → Each (pop d tid)
  unfolding pop
  Each-pop [] tid h = tt
  Each-pop ((here, v) ∷ d) tid h = elim (Bool-cases (str_eq here tid)) [
    | inl e ↦ rw e (Each-pop d tid h.1)
    | inr e ↦ rw e (h.0, Each-pop d tid h.1)
  ]

  Each-snoc :
      (d : List (String × V)) (tid : String) (value : V)
      → Each d
      → P tid value
      → Each (d ++ (tid, value) ∷ [])
  Each-snoc [] tid value h p = (p, tt)
  Each-snoc ((here, v) ∷ d) tid value h p = (h.0, Each-snoc d tid value h.1 p)

  Each-evict : (limit : ℕ) (d : List (String × V)) → Each d → Each (evict limit d).0
  unfolding evict
  Each-evict limit [] h = tt
  Each-evict limit ((here, v) ∷ d) h = elim (Bool-cases (ltb limit (length ((here, v) ∷ d)))) [
    | inl e ↦ rw e h.1
    | inr e ↦ rw e h
  ]

module _ {E G : Type 0} (new_store : String → E) (create_graph : SemanticConfig → Option G) where
  -- The graph was created from the settings of the tenant.
  abbrev pub IsOwn : SemanticConfig → String → G → Type 0
  IsOwn config tid graph = create_graph (tenant_config config tid) ≡ some graph

  graph_of-IsOwn :
      (tid : String) (f f' : StoreFactory new_store create_graph) (graph : G)
      → Each (IsOwn f.config) f.graphs
      → graph_of new_store create_graph tid f ≡ some (graph, f')
      → IsOwn f.config tid graph × Each (IsOwn f'.config) f'.graphs
  unfolding move_to_end add
  graph_of-IsOwn tid f f' graph h e =
      elim (graph_of-cases new_store create_graph tid f f' graph e) [
        | inl (found, same) ↦
            let own = Each-get (IsOwn f.config) f.graphs tid graph h found in
            (
              own,
              subst (λ out. Each (IsOwn out.config) out.graphs) same
                  (Each-snoc (IsOwn f.config) (pop f.graphs tid) tid graph
                    (Each-pop (IsOwn f.config) f.graphs tid h) own),
            )
        | inr (absent, own, same) ↦ (
          own,
          subst (λ out. Each (IsOwn out.config) out.graphs) same
              (Each-evict (IsOwn f.config) max_graph_cache (f.graphs ++ (tid, graph) ∷ [])
                (Each-snoc (IsOwn f.config) f.graphs tid graph h own)),
        )
      ]

  -- The settings of two tenants differ, unless they are those of PostgreSQL.
  tenant_config-ne :
      (config : SemanticConfig) (tid other : String)
      → (config.is_postgresql ≡ true)
        ⊎ (tid ≡ other)
        ⊎ (tenant_config config tid ≢ tenant_config config other)
  unfolding tenant_config
  tenant_config-ne config tid other = elim (Bool-cases config.is_postgresql) [
    | inl e ↦ inl e
    | inr e ↦ inr (elim (Bool-cases (str_eq tid other)) [
      | inl same ↦ inl ((str_eq_iff tid other).0 same)
      | inr ne ↦ inr (λ q.
          tenant_path-ne config.path tid other (λ t. ground (arith, str_eq_iff tid other, t, ne))
            (ground (arith, e, ap (λ c. c.path) q)))
    ])
  ]

  -- A tenant is given the graph that was created from its own settings, newly or earlier, and the cache
  -- goes on holding each graph under its own tenant; unless the settings are those of PostgreSQL,
  -- which all tenants share, the settings of any other tenant are different ones.
  pub get_graph-IsOwn :
      (context other : String) (tenant_id : Option String)
      (f f' : StoreFactory new_store create_graph) (graph : G)
      → Each (IsOwn f.config) f.graphs
      → get_graph new_store create_graph context tenant_id f ≡ some (graph, f')
      → let tid = tenant_or tenant_id context in
        IsOwn f.config tid graph
        × Each (IsOwn f'.config) f'.graphs
        × ((f.config.is_postgresql ≡ true)
            ⊎ (tid ≡ other)
            ⊎ (tenant_config f.config tid ≢ tenant_config f.config other))
  unfolding get_graph
  get_graph-IsOwn context other tenant_id f f' graph h e =
      let tid = tenant_or tenant_id context in
      let (own, all) =
        graph_of-IsOwn tid f f' graph h
          (validated tid (λ t. graph_of new_store create_graph t f) (graph, f') e) in
      (own, all, tenant_config-ne f.config tid other)
