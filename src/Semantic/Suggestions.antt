-- ===== src/Semantic/Suggestions.antt =====
-- What src/engram/semantic/orphan_linker.py suggests.
use engram_mem.Base.{
  ℕ, ◌≤◌, ◌<◌, ◌≡◌, refl, sym, ◌∙◌, ap, dec_lt, lt→ltb, not_lt→ltb, inl, inr, String, Bool, true,
  false, not, ◌&&◌, ◌||◌, Option, none, some, List, [], ◌∷◌, any_of, length, ltb, arith, str_eq,
  if◌then◌else◌, Bool-cases, Option-cases, All,
}
use mathlib.Core.Path.{subst}
use mathlib.Core.Option.{some-injective, none-ne-some}
use engram_mem.Base.Sort.{All-sort_down, All-filter_by, IsDescending, sort_down-IsDescending}
use engram_mem.Base.Members.{All-impl}
use engram_mem.Semantic.{SemanticNode, SemanticEdge}
use engram_mem.Semantic.Tally.{Bound, IsWithin}
use engram_mem.Semantic.Counts.{co_mentioned, count_memories-IsWithin}
use engram_mem.Semantic.Orphans.{
  LinkSuggestion, Pair, is_linked, bump, bump_targets, bump_orphans, present_of, named_entities,
  count_memory, count_memories, infer_relation, is_existing, type_at, directed, link_of,
  suggestion_of, suggestions_of, index_names, types_of, suggest_orphan_links,
}

abbrev made : Pair → String → LinkSuggestion
made p relation = record {
  orphan_key = p.orphan;
  target_key = p.target;
  relation = relation;
  co_mentions = p.count;
}

module _ (edges : List SemanticEdge) where
  -- The first key is that of a node without edges, the second that of one with an edge.
  IsPair : String → String → Type 0
  IsPair orphan target = (is_linked edges orphan ≡ false) × (is_linked edges target ≡ true)

  bump-IsPair :
      (o t : String) (pairs : List Pair)
      → IsPair o t
      → All (λ p. IsPair p.orphan p.target) pairs
      → All (λ p. IsPair p.orphan p.target) (bump o t pairs)
  unfolding bump
  bump-IsPair o t [] h hs = (h, tt)
  bump-IsPair o t (p ∷ pairs) h hs = elim (Bool-cases (str_eq p.orphan o && str_eq p.target t)) [
    | inl e ↦ rw (e, bump) hs
    | inr e ↦ rw (e, bump) (hs.0, bump-IsPair o t pairs h hs.1)
  ]

  bump_targets-IsPair :
      (o : String) (targets : List String) (pairs : List Pair)
      → is_linked edges o ≡ false
      → All (λ t. is_linked edges t ≡ true) targets
      → All (λ p. IsPair p.orphan p.target) pairs
      → All (λ p. IsPair p.orphan p.target) (bump_targets o targets pairs)
  unfolding bump_targets IsPair
  bump_targets-IsPair o [] pairs h ts hs = hs
  bump_targets-IsPair o (t ∷ targets) pairs h ts hs = elim (Bool-cases (str_eq o t)) [
    | inl e ↦ rw (e, bump_targets) (bump_targets-IsPair o targets pairs h ts.1 hs)
    | inr e ↦
        rw (e, bump_targets)
          (bump_targets-IsPair o targets (bump o t pairs) h ts.1
            (bump-IsPair o t pairs (h, ts.0) hs))
  ]

  bump_orphans-IsPair :
      (orphans targets : List String) (pairs : List Pair)
      → All (λ o. not (is_linked edges o) ≡ true) orphans
      → All (λ t. is_linked edges t ≡ true) targets
      → All (λ p. IsPair p.orphan p.target) pairs
      → All (λ p. IsPair p.orphan p.target) (bump_orphans orphans targets pairs)
  unfolding bump_orphans
  bump_orphans-IsPair [] targets pairs os ts hs = hs
  bump_orphans-IsPair (o ∷ orphans) targets pairs os ts hs =
      bump_orphans-IsPair orphans targets _ os.1 ts
        (bump_targets-IsPair o targets pairs (ground (arith, os.0)) ts hs)

  count_memories-IsPair :
      (fold : String → String) (index : List (String × List String)) (memories : List (List String))
      (pairs : List Pair)
      → All (λ p. IsPair p.orphan p.target) pairs
      → All (λ p. IsPair p.orphan p.target) (count_memories fold edges index memories pairs)
  unfolding count_memories count_memory
  count_memories-IsPair fold index [] pairs hs = hs
  count_memories-IsPair fold index (m ∷ memories) pairs hs =
      count_memories-IsPair fold index memories _ (count_one m)
    where
      count_one :
          (m : List String)
          → All (λ p. IsPair p.orphan p.target) (count_memory fold edges index m pairs)
      count_one m =
          let entities = named_entities m in
          let present = present_of fold index entities [] in
          elim (Bool-cases (ltb (length entities) 2 || ltb (length present) 2)) [
            | inl e ↦ rw (e, count_memory) hs
            | inr e ↦
                rw (e, count_memory)
                  (bump_orphans-IsPair _ _ pairs
                    (All-filter_by (λ k. not (is_linked edges k)) present)
                    (All-filter_by (is_linked edges) present) hs)
          ]

  unlinked-All :
      (es : List SemanticEdge) (key : String)
      → is_linked es key ≡ false
      → All (λ e. (str_eq e.from_node key ≡ false) × (str_eq e.to_node key ≡ false)) es
  unfolding is_linked
  unlinked-All [] key h = tt
  unlinked-All (e ∷ es) key h =
      ((ground (arith, h), ground (arith, h)), unlinked-All es key (ground (arith, h)))

  module _ (types : List (String × String)) (min_co_mentions : ℕ) (n : Bound) where
    record IsSuggestion (s : LinkSuggestion) : Type 0 where
      pair : IsPair s.orphan_key s.target_key
      enough : min_co_mentions ≤ s.co_mentions
      counted : s.co_mentions ≤ n s.orphan_key s.target_key
      inferred :
          (from_target : Bool) × (infer_relation
              (type_at types s.orphan_key)
              (type_at types s.target_key)
            ≡ some (s.relation, from_target))

    inferred-IsSuggestion :
        (p : Pair) (o : Option (String × Bool)) (s : LinkSuggestion)
        → IsPair p.orphan p.target
        → min_co_mentions ≤ p.count
        → p.count ≤ n p.orphan p.target
        → infer_relation (type_at types p.orphan) (type_at types p.target) ≡ o
        → link_of edges p o ≡ some s
        → IsSuggestion s
    unfolding link_of
    inferred-IsSuggestion p none s h enough few q e = absurd (none-ne-some _ e)
    inferred-IsSuggestion p (some (relation, d)) s h enough few q e =
        let (from_key, to_key) = directed d p.orphan p.target in
        elim (Bool-cases (is_existing edges from_key to_key relation)) [
          | inl x ↦
              absurd
                (none-ne-some _ (sym (ap (λ b. if b then none else some (made p relation)) x) ∙ e))
          | inr x ↦
              subst IsSuggestion
                (some-injective _ _
                  (sym (ap (λ b. if b then none else some (made p relation)) x) ∙ e))
                (record { pair = h; enough = enough; counted = few; inferred = (d, q) })
        ]

    suggestion_of-IsSuggestion :
        (p : Pair) (s : LinkSuggestion)
        → IsPair p.orphan p.target
        → p.count ≤ n p.orphan p.target
        → suggestion_of edges types min_co_mentions p ≡ some s
        → IsSuggestion s
    unfolding suggestion_of
    suggestion_of-IsSuggestion p s h most e = elim (dec_lt p.count min_co_mentions) [
      | yes few ↦ absurd (none-ne-some _ (sym (if_yes few) ∙ e))
      | no many ↦
          inferred-IsSuggestion p _ s h (omega (arith, many)) most refl (sym (if_no many) ∙ e)
    ]
      where
        link : Option LinkSuggestion
        link = link_of edges p (infer_relation (type_at types p.orphan) (type_at types p.target))

        if_yes : p.count < min_co_mentions → suggestion_of edges types min_co_mentions p ≡ none
        if_yes few = rw (lt→ltb p.count min_co_mentions few, suggestion_of) refl

        if_no : ¬ (p.count < min_co_mentions) → suggestion_of edges types min_co_mentions p ≡ link
        if_no many = rw (not_lt→ltb p.count min_co_mentions many, suggestion_of) refl

    suggestions_of-IsSuggestion :
        (pairs : List Pair)
        → All (λ p. IsPair p.orphan p.target) pairs
        → IsWithin n pairs
        → All IsSuggestion (suggestions_of edges types min_co_mentions pairs)
    unfolding suggestions_of
    suggestions_of-IsSuggestion [] hs ns = tt
    suggestions_of-IsSuggestion (p ∷ pairs) hs ns =
        let rest = suggestions_of-IsSuggestion pairs hs.1 ns.1 in
        elim (Option-cases (suggestion_of edges types min_co_mentions p)) [
          | inl e ↦ rw (e, suggestions_of) rest
          | inr (s, e) ↦ rw (e, suggestions_of) (suggestion_of-IsSuggestion p s hs.0 ns.0 e, rest)
        ]

-- Every link that is suggested is for a node without any edge, to a node with one, with the relation
-- of their types, and with a number of mentions that is at least `min_co_mentions` and at most the
-- number of the memories that mention both, each by an entity that is the node's name up to blanks and
-- case; the links come in the order of their mentions, most first.
pub suggest_orphan_links-IsOrphan :
    (fold : String → String) (nodes : List SemanticNode) (edges : List SemanticEdge)
    (memories : List (List String)) (min_co_mentions : ℕ)
    → let suggestions = suggest_orphan_links fold nodes edges memories min_co_mentions in
      let types = types_of nodes [] in
      All
        (λ s.
          All
            (λ e.
              (str_eq e.from_node s.orphan_key ≡ false) × (str_eq e.to_node s.orphan_key ≡ false))
            edges
          × (any_of (λ e. str_eq e.from_node s.target_key || str_eq e.to_node s.target_key) edges
              ≡ true)
          × (min_co_mentions ≤ s.co_mentions)
          × (s.co_mentions ≤ co_mentioned fold nodes memories s.orphan_key s.target_key)
          × ((from_target : Bool) × (infer_relation
                  (type_at types s.orphan_key)
                  (type_at types s.target_key)
                ≡ some (s.relation, from_target))))
        suggestions
      × IsDescending (λ s. s.co_mentions) suggestions
unfolding suggest_orphan_links is_linked IsPair
suggest_orphan_links-IsOrphan fold nodes edges memories min_co_mentions =
    let pairs = count_memories fold edges (index_names fold nodes []) memories [] in
    let found = suggestions_of edges (types_of nodes []) min_co_mentions pairs in
    let ok =
      suggestions_of-IsSuggestion edges (types_of nodes []) min_co_mentions
        (co_mentioned fold nodes memories) pairs
        (count_memories-IsPair edges fold (index_names fold nodes []) memories [] tt)
        (count_memories-IsWithin fold edges nodes memories) in
    (
      All-sort_down _ (λ s. s.co_mentions) found
          (All-impl
            (λ s h. (
              unlinked-All edges edges s.orphan_key h.pair.0,
              h.pair.1,
              h.enough,
              h.counted,
              h.inferred,
            ))
            found ok),
      sort_down-IsDescending (λ s. s.co_mentions) found,
    )
