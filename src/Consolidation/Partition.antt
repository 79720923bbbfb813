-- ===== src/Consolidation/Partition.antt =====
-- `_cluster_by_overlap` as a whole: it returns, and its clusters are the components of the overlap
-- relation.
use engram_mem.Base.{
  ℕ, zero, suc, ◌+◌, ◌*◌, ◌<◌, ◌≡◌, refl, Bool, min, some, List, [], ◌∷◌, map, arith, length,
  get_elem?, take, All, length-take,
}
use engram_mem.Consolidation.Cluster.{
  Memory, Threshold, is_empty, similar, max_clustered, features_at, pick, pick_all, index_groups,
  cluster_by_overlap,
}
use engram_mem.Consolidation.Linking.{Chain, Pair}
use engram_mem.Consolidation.Rows.{link_rows-Components}
use engram_mem.Consolidation.Groups.{IsPartition, occurs, gather-IsPartition}

get_elem?_total {ℓ} :
    {A : Type ℓ} (xs : List A) (i : ℕ) → i < length xs → (x : A) × (get_elem? xs i ≡ some x)
get_elem?_total [] i h = absurd (omega arith)
get_elem?_total (x ∷ xs) zero h = (x, refl)
get_elem?_total (x ∷ xs) (suc i) h = get_elem?_total xs i (omega arith)

-- The loops always return, and their groups are the components of the pairs that pass the test.
pub index_groups-IsPartition :
    (skip : ℕ → Bool) (test : ℕ → ℕ → Bool) (n : ℕ)
    → (groups : List (List ℕ)) × (index_groups skip test n ≡ some groups)
      × IsPartition n (Chain (Pair skip test n)) groups
unfolding index_groups
index_groups-IsPartition skip test n =
    let (parent, linked, c) = link_rows-Components skip test n in
    let (groups, gathered, split) =
      gather-IsPartition c.root n (Chain (Pair skip test n)) c.same_root_iff (n * n + 1) parent
        c.linked.height (n * n) c.linked.forest (omega arith) in
    (map (λ g. g.1) groups, rw (linked, gathered) refl, split)

pick_total :
    (memories : List Memory) (g : List ℕ)
    → ((j : ℕ) → 0 < occurs j g → j < length memories)
    → (c : List Memory) × (pick memories g ≡ some c)
unfolding pick
pick_total memories [] h = ([], refl)
pick_total memories (i ∷ g) h =
    let (m, found) = get_elem?_total memories i (h i (ground arith)) in
    let (rest, picked) = pick_total memories g (λ j p. h j (ground arith)) in
    (m ∷ rest, rw (found, picked) refl)

pick_all_total :
    (memories : List Memory) (groups : List (List ℕ))
    → All (λ g. (j : ℕ) → 0 < occurs j g → j < length memories) groups
    → (clusters : List (List Memory)) × (pick_all memories groups ≡ some clusters)
unfolding pick_all
pick_all_total memories [] h = ([], refl)
pick_all_total memories (g ∷ groups) h =
    let (c, picked) = pick_total memories g h.0 in
    let (cs, rest) = pick_all_total memories groups h.1 in (c ∷ cs, rw (picked, rest) refl)

abbrev pub cap : List Memory → ℕ
cap memories = min (length memories) max_clustered

-- Both memories have features, and their Jaccard similarity reaches the threshold; `i` comes first.
abbrev pub Overlap : Threshold → List Memory → ℕ → ℕ → Type 0
Overlap t memories =
    Pair (λ i. is_empty (features_at (take (cap memories) memories) i))
      (λ i j.
        similar t (features_at (take (cap memories) memories) i)
          (features_at (take (cap memories) memories) j))
      (cap memories)

-- Clustering never fails, and for any threshold and memories its clusters are picked by groups of
-- indices that split the first 200 memories (or all, if fewer): each index stands in exactly one
-- group, once, and two indices share a group exactly when a chain of overlaps joins them.
pub cluster_by_overlap-IsPartition :
    (t : Threshold) (memories : List Memory)
    → (groups : List (List ℕ)) × (clusters : List (List Memory)) × (cluster_by_overlap t memories
        ≡ some clusters)
      × (pick_all (take (cap memories) memories) groups ≡ some clusters)
      × IsPartition (cap memories) (Chain (Overlap t memories)) groups
unfolding cluster_by_overlap
cluster_by_overlap-IsPartition t memories =
    let n = cap memories in
    let kept = take n memories in
    let (groups, split_up, p) =
      index_groups-IsPartition (λ i. is_empty (features_at kept i))
        (λ i j. similar t (features_at kept i) (features_at kept j)) n in
    let len : length kept ≡ n = omega (arith, length-take n memories) in
    let (clusters, picked) = pick_all_total kept groups (rw len p.within) in
    (groups, clusters, rw (split_up, picked) refl, picked, p)
