-- ===== src/Tenant/Requests.antt =====
-- Requests keep the caches recent.
use engram_mem.Base.{
  ℕ, ◌<◌, ◌≡◌, sym, ◌∙◌, String, Option, none, some, List, arith, inl, inr, ap, ◌⊎◌, ◌++◌,
  Bool-cases, Option-cases, ◌>>=◌,
}
use mathlib.Core.Path.{subst}
use mathlib.Core.Option.{some-injective}
use engram_mem.Base.Dict.{get}
use engram_mem.Tenant.{
  move_to_end, add, evict, StoreFactory, episodic_of, graph_of, get_episodic, get_graph,
  max_episodic_cache, max_graph_cache, SemanticConfig, tenant_or, validate_tenant_id, is_tenant_id,
  tenant_config, values,
}
use engram_mem.Tenant.Cache.{requested, keys, get-none, get-some}
use engram_mem.Tenant.Recency.{IsRecent, hit_keys, miss_keys, keys-hit, keys-miss}

-- What a valid id leads to.
pub validated {ℓ} :
    {A : Type ℓ} (tid : String) (k : String → Option A) (a : A)
    → (validate_tenant_id tid >>= k) ≡ some a
    → k tid ≡ some a
unfolding validate_tenant_id
validated tid k a h = elim (Bool-cases (is_tenant_id tid)) [
  | inl e ↦ ground (arith, h, e)
  | inr e ↦ absurd (ground (arith, h, e))
]

module _ {E G : Type 0} (new_store : String → E) (create_graph : SemanticConfig → Option G) where
  moved :
      {V : Type 0}
      → (limit : ℕ) (all : List String) (d : List (String × V)) (tid : String) (value : V)
      → IsRecent limit all (keys d)
      → get d tid ≡ some value
      → IsRecent limit (requested tid all) (keys (move_to_end d tid value))
  moved limit all d tid value r e =
      rw (keys-hit d tid value) (hit_keys tid limit all (keys d) r (get-some d tid value e))

  added :
      {V : Type 0}
      → (limit : ℕ) (all : List String) (d : List (String × V)) (tid : String) (value : V)
      → 0 < limit
      → IsRecent limit all (keys d)
      → get d tid ≡ none
      → IsRecent limit (requested tid all) (keys (evict limit (add d tid value)).0)
  added limit all d tid value pos r e =
      rw (keys-miss limit d tid value) (miss_keys tid limit all (keys d) r (get-none d tid e) pos)

  episodic_of-IsRecent :
      (all : List String) (tid : String) (f : StoreFactory new_store create_graph)
      → IsRecent max_episodic_cache all (keys f.episodic_stores)
      → IsRecent max_episodic_cache
          (requested tid all)
          (keys (episodic_of new_store create_graph tid f).1.episodic_stores)
  unfolding episodic_of
  episodic_of-IsRecent all tid f r = elim (Option-cases (get f.episodic_stores tid)) [
    | inl e ↦
        rw (e, episodic_of)
          (added max_episodic_cache all f.episodic_stores tid (new_store tid) (omega arith) r e)
    | inr (store, e) ↦
        rw (e, episodic_of) (moved max_episodic_cache all f.episodic_stores tid store r e)
  ]

  -- The stores that are kept are those of the tenants asked for last, a thousand at most: a request
  -- makes its tenant the newest, and one that is over the limit puts out the oldest.
  pub get_episodic-IsRecent :
      (context : String) (tenant_id : Option String) (all : List String)
      (f f' : StoreFactory new_store create_graph) (store : E)
      → IsRecent max_episodic_cache all (keys f.episodic_stores)
      → get_episodic new_store create_graph context tenant_id f ≡ some (store, f')
      → IsRecent max_episodic_cache
          (requested (tenant_or tenant_id context) all)
          (keys f'.episodic_stores)
  unfolding get_episodic
  get_episodic-IsRecent context tenant_id all f f' store r h =
      let tid = tenant_or tenant_id context in
      let e : episodic_of new_store create_graph tid f ≡ (store, f') =
        some-injective _ _
          (validated tid (λ t. some (episodic_of new_store create_graph t f)) (store, f') h) in
      subst (λ out. IsRecent max_episodic_cache (requested tid all) (keys out.1.episodic_stores)) e
        (episodic_of-IsRecent all tid f r)

  -- The factory after a graph was created.
  abbrev pub with_graph :
      String → StoreFactory new_store create_graph → G → StoreFactory new_store create_graph
  with_graph tid f graph =
      let (kept, evicted) = evict max_graph_cache (add f.graphs tid graph) in
      record f { graphs = kept; closed = f.closed ++ values new_store create_graph evicted }

  pub graph_of-cases :
      (tid : String) (f f' : StoreFactory new_store create_graph) (graph : G)
      → graph_of new_store create_graph tid f ≡ some (graph, f')
      → ((get f.graphs tid ≡ some graph)
          × (record f { graphs = move_to_end f.graphs tid graph } ≡ f'))
        ⊎ ((get f.graphs tid ≡ none)
            × (create_graph (tenant_config f.config tid) ≡ some graph)
            × (with_graph tid f graph ≡ f'))
  unfolding graph_of
  graph_of-cases tid f f' graph h = elim (Option-cases (get f.graphs tid)) [
    | inl e ↦ elim (Option-cases (create_graph (tenant_config f.config tid))) [
      | inl c ↦ absurd (ground (arith, e, c, h))
      | inr (g, c) ↦
          let same : (g, with_graph tid f g) ≡ (graph, f') =
            some-injective _ _ (sym (ground (arith, e, c)) ∙ h) in
          inr (
            e,
            c ∙ ap some (ap (λ p. p.0) same),
            ap (with_graph tid f) (sym (ap (λ p. p.0) same)) ∙ ap (λ p. p.1) same,
          )
    ]
    | inr (g, e) ↦
        let moved_on : G → StoreFactory new_store create_graph =
          λ x. record f { graphs = move_to_end f.graphs tid x } in
        let same : (g, moved_on g) ≡ (graph, f') =
          some-injective _ _ (sym (ground (arith, e)) ∙ h) in
        inl (
          e ∙ ap some (ap (λ p. p.0) same),
          ap moved_on (sym (ap (λ p. p.0) same)) ∙ ap (λ p. p.1) same,
        )
  ]

  graph_of-IsRecent :
      (tid : String) (all : List String) (f f' : StoreFactory new_store create_graph) (graph : G)
      → IsRecent max_graph_cache all (keys f.graphs)
      → graph_of new_store create_graph tid f ≡ some (graph, f')
      → IsRecent max_graph_cache (requested tid all) (keys f'.graphs)
  graph_of-IsRecent tid all f f' graph r h = elim (graph_of-cases tid f f' graph h) [
    | inl (e, same) ↦
        subst (λ out. IsRecent max_graph_cache (requested tid all) (keys out.graphs)) same
          (moved max_graph_cache all f.graphs tid graph r e)
    | inr (e, c, same) ↦
        subst (λ out. IsRecent max_graph_cache (requested tid all) (keys out.graphs)) same
          (added max_graph_cache all f.graphs tid graph (omega arith) r e)
  ]

  -- The graphs that are kept are those of the tenants asked for last, a hundred at most; a request
  -- that fails, for its id or because the graph cannot be created, is not counted.
  pub get_graph-IsRecent :
      (context : String) (tenant_id : Option String) (all : List String)
      (f f' : StoreFactory new_store create_graph) (graph : G)
      → IsRecent max_graph_cache all (keys f.graphs)
      → get_graph new_store create_graph context tenant_id f ≡ some (graph, f')
      → IsRecent max_graph_cache (requested (tenant_or tenant_id context) all) (keys f'.graphs)
  unfolding get_graph
  get_graph-IsRecent context tenant_id all f f' graph r h =
      let tid = tenant_or tenant_id context in
      graph_of-IsRecent tid all f f' graph r
        (validated tid (λ t. graph_of new_store create_graph t f) (graph, f') h)
