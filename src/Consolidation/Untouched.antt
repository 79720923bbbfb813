-- ===== src/Consolidation/Untouched.antt =====
-- Consolidation always ends, and changes only memories that it was given.
use engram_mem.Base.{
  ℕ, zero, suc, ◌≡◌, ◌≢◌, refl, sym, ◌∙◌, String, Bool, false, some, List, [], ◌∷◌, arith, length,
  filter_by, any_of, All, take, get_elem?, ltb, str_eq, str_eq_iff, inl, inr, Bool-cases,
  Option-cases,
}
use mathlib.Core.Path.{subst}
use mathlib.Core.Option.{some-injective}
use engram_mem.Base.Dict.{get, put, get-put}
use engram_mem.Consolidation.Cluster.{Memory, Threshold, pick, pick_all}
use engram_mem.Consolidation.Partition.{cluster_by_overlap-IsPartition, cap}
use engram_mem.Consolidation.Engine.{
  Memories, ClusterOutcome, raises, stored, is_unconsolidated, summary_memory, mark, mark_originals,
  store_summary, consolidate_cluster, consolidate_clusters, consolidate,
}

-- The id of one of the memories.
unfoldable pub is_member : String → List Memory → Bool
is_member asked cluster = any_of (λ m. str_eq m.id asked) cluster

get-mark :
    (new_id id asked : String) (d : Memories)
    → str_eq id asked ≡ false
    → get (mark new_id id d) asked ≡ get d asked
unfolding mark
get-mark new_id id asked d h = elim (Option-cases (get d id)) [
  | inl e ↦ rw (e, mark) refl
  | inr (m, e) ↦
      rw (e, mark)
        (ground (arith, h, get-put d id (record m { consolidated_into = some new_id }) asked))
]

get-mark_originals :
    (new_id asked : String) (cluster : List Memory) (d : Memories)
    → is_member asked cluster ≡ false
    → get (mark_originals new_id cluster d) asked ≡ get d asked
unfolding mark_originals is_member
get-mark_originals new_id asked [] d h = refl
get-mark_originals new_id asked (m ∷ ms) d h =
    get-mark_originals new_id asked ms (mark new_id m.id d) (ground (arith, h))
    ∙ get-mark new_id m.id asked d (ground (arith, h))

module _ (asked : String) (outcome : List Memory → ClusterOutcome)
    (other : (c : List Memory) (new_id summary : String)
      → outcome c ≡ stored new_id summary
      → new_id ≢ asked) where
  get-store_summary :
      (o : ClusterOutcome) (cluster : List Memory) (d : Memories)
      → outcome cluster ≡ o
      → is_member asked cluster ≡ false
      → get (store_summary o cluster d).1 asked ≡ get d asked
  unfolding store_summary
  get-store_summary raises cluster d e h = refl
  get-store_summary (stored new_id summary) cluster d e h =
      let memory = summary_memory new_id summary cluster in
      get-mark_originals new_id asked cluster (put d new_id memory) h
      ∙ ground (
        arith,
        other cluster new_id summary e,
        get-put d new_id memory asked,
        str_eq_iff new_id asked,
      )

  get-consolidate_cluster :
      (min_cluster_size : ℕ) (cluster : List Memory) (d : Memories)
      → is_member asked cluster ≡ false
      → get (consolidate_cluster min_cluster_size outcome cluster d).1 asked ≡ get d asked
  unfolding consolidate_cluster
  get-consolidate_cluster min_cluster_size cluster d h =
      elim (Bool-cases (ltb (length cluster) min_cluster_size)) [
        | inl e ↦ rw e refl
        | inr e ↦ rw e (get-store_summary (outcome cluster) cluster d refl h)
      ]

  get-consolidate_clusters :
      (min_cluster_size : ℕ) (clusters : List (List Memory)) (d : Memories)
      → All (λ c. is_member asked c ≡ false) clusters
      → get (consolidate_clusters min_cluster_size outcome clusters d).1 asked ≡ get d asked
  unfolding consolidate_clusters
  get-consolidate_clusters min_cluster_size [] d h = refl
  get-consolidate_clusters min_cluster_size (c ∷ cs) d h =
      get-consolidate_clusters min_cluster_size cs
        (consolidate_cluster min_cluster_size outcome c d).1 h.1
      ∙ get-consolidate_cluster min_cluster_size c d h.0

elem_other :
    (asked : String) (ms : List Memory) (i : ℕ) (m : Memory)
    → get_elem? ms i ≡ some m
    → is_member asked ms ≡ false
    → str_eq m.id asked ≡ false
unfolding is_member
elem_other asked [] i m e h = absurd (ground (arith, e))
elem_other asked (x ∷ ms) zero m e h = rw (sym (some-injective x m e)) (ground (arith, h))
elem_other asked (x ∷ ms) (suc i) m e h = elem_other asked ms i m e (ground (arith, h))

both_other :
    (asked : String) (m : Memory) (rest : List Memory)
    → str_eq m.id asked ≡ false
    → is_member asked rest ≡ false
    → is_member asked (m ∷ rest) ≡ false
unfolding is_member
both_other asked m rest h k = ground (arith, h, k)

pick_other :
    (asked : String) (ms : List Memory) (is : List ℕ) (c : List Memory)
    → pick ms is ≡ some c
    → is_member asked ms ≡ false
    → is_member asked c ≡ false
unfolding pick is_member
pick_other asked ms [] c e h = subst (λ l. is_member asked l ≡ false) (some-injective [] c e) refl
pick_other asked ms (i ∷ is) c e h = elim (Option-cases (get_elem? ms i)) [
  | inl n ↦ absurd (ground (arith, e, n))
  | inr (m, s) ↦ elim (Option-cases (pick ms is)) [
    | inl n ↦ absurd (ground (arith, e, n, s))
    | inr (rest, r) ↦
        subst (λ l. is_member asked l ≡ false)
          (some-injective (m ∷ rest) c (ground (arith, e, s, r)))
          (both_other asked m rest (elem_other asked ms i m s h) (pick_other asked ms is rest r h))
  ]
]

pick_all_other :
    (asked : String) (ms : List Memory) (groups : List (List ℕ)) (cs : List (List Memory))
    → pick_all ms groups ≡ some cs
    → is_member asked ms ≡ false
    → All (λ c. is_member asked c ≡ false) cs
unfolding pick_all
pick_all_other asked ms [] cs e h =
    subst (λ l. All (λ c. is_member asked c ≡ false) l) (some-injective [] cs e) tt
pick_all_other asked ms (g ∷ gs) cs e h = elim (Option-cases (pick ms g)) [
  | inl n ↦ absurd (ground (arith, e, n))
  | inr (c, s) ↦ elim (Option-cases (pick_all ms gs)) [
    | inl n ↦ absurd (ground (arith, e, n, s))
    | inr (rest, r) ↦
        subst (λ l. All (λ x. is_member asked x ≡ false) l)
          (some-injective (c ∷ rest) cs (ground (arith, e, s, r)))
          (pick_other asked ms g c s h, pick_all_other asked ms gs rest r h)
  ]
]

take_other :
    (asked : String) (n : ℕ) (ms : List Memory)
    → is_member asked ms ≡ false
    → is_member asked (take n ms) ≡ false
unfolding is_member
take_other asked zero ms h = refl
take_other asked (suc n) [] h = refl
take_other asked (suc n) (m ∷ ms) h = ground (arith, h, take_other asked n ms)

-- Consolidation always comes to an end, and a memory that it was not given and whose id is not that of
-- a new summary stays as it is, whatever the LLM answers and wherever storing fails.
pub consolidate-untouched :
    (asked : String) (outcome : List Memory → ClusterOutcome) (t : Threshold) (min_cluster_size : ℕ)
    (recent : List Memory) (d : Memories)
    → ((c : List Memory) (new_id summary : String)
        → outcome c ≡ stored new_id summary
        → new_id ≢ asked)
    → is_member asked (filter_by is_unconsolidated recent) ≡ false
    → (out : List String × Memories) × (consolidate t min_cluster_size outcome recent d ≡ some out)
      × (get out.1 asked ≡ get d asked)
unfolding consolidate
consolidate-untouched asked outcome t min_cluster_size recent d other h =
    let ms = filter_by is_unconsolidated recent in
    elim (Bool-cases (ltb (length ms) min_cluster_size)) [
      | inl e ↦ (([], d), rw e refl, refl)
      | inr e ↦
          let (groups, clusters, found, picked, parts) = cluster_by_overlap-IsPartition t ms in
          (
            consolidate_clusters min_cluster_size outcome clusters d,
            rw (e, found) refl,
            get-consolidate_clusters asked outcome other min_cluster_size clusters d (
                pick_all_other asked (take (cap ms) ms) groups clusters picked
                  (take_other asked (cap ms) ms h)),
          )
    ]
