-- ===== src/Semantic/Counts.antt =====
-- How often src/engram/semantic/orphan_linker.py counts a pair: at most once for each memory that
-- mentions both nodes.
use engram_mem.Base.{
  ◌+◌, ◌≤◌, inl, inr, String, not, ◌&&◌, ◌||◌, List, [], ◌∷◌, filter_by, count_by, length, ltb,
  arith, if◌then◌else◌, Bool-cases,
}
use engram_mem.Semantic.{SemanticNode, SemanticEdge}
use engram_mem.Semantic.Merge.{contains}
use engram_mem.Semantic.Orphans.{
  Pair, is_linked, present_of, named_entities, count_memory, count_memories, index_names,
}
use engram_mem.Semantic.Tally.{
  Bound, IsWithin, IsWithin-more, sum_of, grid, bump_orphans-IsWithin, grid-le,
}
use engram_mem.Semantic.Mentions.{
  IsOnce, filter_by-contains, filter_by-IsOnce, empty-IsOnce, once, both-le, is_mentioned,
  present_of-IsOnce, present-is_mentioned,
}

module _ (fold : String → String) where
  -- How many memories mention both.
  abbrev pub co_mentioned : List SemanticNode → List (List String) → Bound
  co_mentioned nodes memories a b =
      count_by (λ m. is_mentioned fold nodes a m && is_mentioned fold nodes b m) memories

  module _ (edges : List SemanticEdge) where
    -- The bound and one more where the memory mentions both.
    with_memory : List SemanticNode → List String → Bound → Bound
    with_memory nodes memory n a b =
        n a b
        + (if is_mentioned fold nodes a memory && is_mentioned fold nodes b memory then 1 else 0)

    one_memory :
        (nodes : List SemanticNode) (memory : List String) (n : Bound) (a b : String)
        → let present = present_of fold (index_names fold nodes []) (named_entities memory) [] in
          let orphans = filter_by (λ k. not (is_linked edges k)) present in
          sum_of n (grid orphans (filter_by (is_linked edges) present)) a b
          ≤ with_memory nodes memory n a b
    unfolding with_memory sum_of
    one_memory nodes memory n a b =
        let present = present_of fold (index_names fold nodes []) (named_entities memory) [] in
        let orphans = filter_by (λ k. not (is_linked edges k)) present in
        let targets = filter_by (is_linked edges) present in
        let set : IsOnce present =
          present_of-IsOnce fold (index_names fold nodes []) (named_entities memory) []
            empty-IsOnce in
        let cell =
          grid-le orphans targets a b (once orphans a (filter_by-IsOnce _ present set))
            (once targets b (filter_by-IsOnce _ present set)) in
        omega (
          arith,
          both-le (grid orphans targets a b) (contains a orphans) (contains b targets)
              (is_mentioned fold nodes a memory) (is_mentioned fold nodes b memory) cell
              (λ q. present-is_mentioned fold nodes memory a (filter_by-contains a _ present q))
              (λ q. present-is_mentioned fold nodes memory b (filter_by-contains b _ present q)),
        )

    count_memory-IsWithin :
        (nodes : List SemanticNode) (memory : List String) (n : Bound) (pairs : List Pair)
        → IsWithin n pairs
        → IsWithin
            (with_memory nodes memory n)
            (count_memory fold edges (index_names fold nodes []) memory pairs)
    unfolding count_memory with_memory
    count_memory-IsWithin nodes memory n pairs h =
        let entities = named_entities memory in
        let present = present_of fold (index_names fold nodes []) entities [] in
        let orphans = filter_by (λ k. not (is_linked edges k)) present in
        let targets = filter_by (is_linked edges) present in
        elim (Bool-cases (ltb (length entities) 2 || ltb (length present) 2)) [
          | inl e ↦
              rw (e, count_memory)
                (IsWithin-more n (with_memory nodes memory n) pairs (more nodes memory n) h)
          | inr e ↦
              rw (e, count_memory)
                (IsWithin-more (sum_of n (grid orphans targets)) (with_memory nodes memory n) _
                  (one_memory nodes memory n) (bump_orphans-IsWithin orphans targets n pairs h))
        ]
      where
        more :
            (nodes : List SemanticNode) (memory : List String) (n : Bound) (a b : String)
            → n a b ≤ with_memory nodes memory n a b
        more nodes memory n a b = omega arith

    counted_from :
        (nodes : List SemanticNode) (memories : List (List String)) (n : Bound) (pairs : List Pair)
        → IsWithin n pairs
        → IsWithin
            (λ a b. n a b + co_mentioned nodes memories a b)
            (count_memories fold edges (index_names fold nodes []) memories pairs)
    unfolding count_memories with_memory
    counted_from nodes [] n pairs h = IsWithin-more n _ pairs (λ a b. omega arith) h
    counted_from nodes (m ∷ memories) n pairs h =
        IsWithin-more (λ a b. with_memory nodes m n a b + co_mentioned nodes memories a b) _ _
          (λ a b. ground arith)
          (counted_from nodes memories (with_memory nodes m n) _
            (count_memory-IsWithin nodes m n pairs h))

    pub count_memories-IsWithin :
        (nodes : List SemanticNode) (memories : List (List String))
        → IsWithin
            (co_mentioned nodes memories)
            (count_memories fold edges (index_names fold nodes []) memories [])
    count_memories-IsWithin nodes memories =
        IsWithin-more (λ a b. 0 + co_mentioned nodes memories a b) (co_mentioned nodes memories) _
          (λ a b. omega arith) (counted_from nodes memories (λ a b. 0) [] tt)
