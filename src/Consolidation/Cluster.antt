-- ===== src/Consolidation/Cluster.antt =====
-- `_cluster_by_overlap` of src/engram/consolidation/engine.py: the overlap test, the two loops that
-- link what overlaps, and the grouping by root.
use engram_mem.Base.{
  ℕ, zero, suc, ◌+◌, ◌*◌, ◌-◌, min, String, Bool, true, false, not, ◌&&◌, Option, some, List, [],
  ◌∷◌, ◌++◌, map, length, get_or, get_elem?, take, any_of, count_by, ltb, leb, ◌==◌, str_eq, ◌>>=◌,
  if◌then◌else◌,
}
use engram_mem.Consolidation.UnionFind.{find, union}

-- The fields of `EpisodicMemory` that the engine reads.
pub record Memory : Type 0 where
  pub id : String
  pub content : String
  pub memory_type : String
  pub entities : List String
  pub tags : List String
  pub consolidated_into : Option String

-- A similarity threshold is a fraction; Python compares `intersection / union_size` with it.
pub record Threshold : Type 0 where
  pub num : ℕ
  pub den : ℕ

abbrev pub has : List String → String → Bool
has xs x = any_of (λ y. str_eq y x) xs

-- A set as a list with no repetition: `a | b`, and `set(xs)` as the union with the empty set.
unfoldable pub set_union : List String → List String → List String
set_union a [] = a
set_union a (x ∷ b) = set_union (if has a x then a else a ++ x ∷ []) b

-- `len(a & b)`
unfoldable pub shared : List String → List String → ℕ
shared a b = count_by (has b) a

-- `set(m.entities) | set(m.tags)`
unfoldable pub features_of : Memory → List String
unfolding set_union
features_of m = set_union (set_union [] m.entities) m.tags

unfoldable pub is_empty : List String → Bool
is_empty [] = true
is_empty (_ ∷ _) = false

-- The test in the inner loop, after `features[j]` was seen to have members.
unfoldable pub similar : Threshold → List String → List String → Bool
unfolding shared set_union
similar t a b =
    let union_size = length (set_union a b) in
    ltb 0 union_size && leb (t.num * union_size) (shared a b * t.den)

-- `for j in range(j, j + rounds)`: `skip` and `test` are the two conditions of the body.
unfoldable pub link_row : ℕ → (ℕ → Bool) → (ℕ → ℕ → Bool) → ℕ → ℕ → ℕ → List ℕ → Option (List ℕ)
link_row fuel skip test i zero j parent = some parent
link_row fuel skip test i (suc rounds) j parent = elim (not (skip j) && test i j) [
  | false ↦ link_row fuel skip test i rounds (j + 1) parent
  | true ↦ do parent' ← union fuel parent i j; link_row fuel skip test i rounds (j + 1) parent'
]

-- `for i in range(i, i + rounds)` over a list of `n`
unfoldable pub link_rows : ℕ → (ℕ → Bool) → (ℕ → ℕ → Bool) → ℕ → ℕ → ℕ → List ℕ → Option (List ℕ)
unfolding link_row
link_rows fuel skip test n zero i parent = some parent
link_rows fuel skip test n (suc rounds) i parent = elim (skip i) [
  | true ↦ link_rows fuel skip test n rounds (i + 1) parent
  | false ↦ do
    parent' ← link_row fuel skip test i (n - (i + 1)) (i + 1) parent
    link_rows fuel skip test n rounds (i + 1) parent'
]

-- `groups.setdefault(root, []).append(i)`, on a dict in its order of insertion
unfoldable pub append_to : ℕ → ℕ → List (ℕ × List ℕ) → List (ℕ × List ℕ)
append_to root i [] = (root, i ∷ []) ∷ []
append_to root i ((r, js) ∷ groups) =
    if r == root then (r, js ++ i ∷ []) ∷ groups else (r, js) ∷ append_to root i groups

-- The grouping loop; each `find` halves paths in the parent list.
unfoldable pub gather : ℕ → ℕ → ℕ → List ℕ → List (ℕ × List ℕ) → Option (List (ℕ × List ℕ))
unfolding find append_to
gather fuel zero i parent groups = some groups
gather fuel (suc rounds) i parent groups = do
  (root, parent') ← find fuel parent i
  gather fuel rounds (i + 1) parent' (append_to root i groups)

-- `list(range(i, i + n))`
unfoldable pub range_from : ℕ → ℕ → List ℕ
range_from i zero = []
range_from i (suc n) = i ∷ range_from (i + 1) n

-- Both phases over `n` indices; the values of the dict.
unfoldable pub index_groups : (ℕ → Bool) → (ℕ → ℕ → Bool) → ℕ → Option (List (List ℕ))
unfolding link_rows gather range_from
index_groups skip test n = do
  let fuel = n * n + 1
  parent ← link_rows fuel skip test n n 0 (range_from 0 n)
  groups ← gather fuel n 0 parent []
  some (map (λ g. g.1) groups)

abbrev pub max_clustered : ℕ
max_clustered = 200

-- `[memories[i] for i in indices]`; `none` is an index out of range.
unfoldable pub pick : List Memory → List ℕ → Option (List Memory)
pick memories [] = some []
pick memories (i ∷ is) = do m ← get_elem? memories i; rest ← pick memories is; some (m ∷ rest)

unfoldable pub pick_all : List Memory → List (List ℕ) → Option (List (List Memory))
unfolding pick
pick_all memories [] = some []
pick_all memories (g ∷ gs) = do c ← pick memories g; cs ← pick_all memories gs; some (c ∷ cs)

-- `features` of the first `n` memories
abbrev pub features_at : List Memory → ℕ → List String
features_at kept i = get_or (map features_of kept) i []

unfoldable pub cluster_by_overlap : Threshold → List Memory → Option (List (List Memory))
unfolding features_of is_empty similar index_groups pick_all
cluster_by_overlap t memories = do
  let n = min (length memories) max_clustered
  let kept = take n memories
  groups ←
      index_groups (λ i. is_empty (features_at kept i))
        (λ i j. similar t (features_at kept i) (features_at kept j)) n
  pick_all kept groups
