-- ===== src/Consolidation/UnionFind.antt =====
-- `find` and `union` of `_cluster_by_overlap` in src/engram/consolidation/engine.py.
use engram_mem.Base.{
  ℕ, zero, suc, Option, none, some, List, get_or, set, ◌==◌, ◌>>=◌, if◌then◌else◌,
}

-- `parent[x]`. The program reads only in range; out of range an index stands for itself.
abbrev pub at : List ℕ → ℕ → ℕ
at parent x = get_or parent x x

-- The `while` loop of `find`, with path halving: the root, and the list as the loop leaves it.
-- `none` means that the fuel ran out.
unfoldable pub find : ℕ → List ℕ → ℕ → Option (ℕ × List ℕ)
find zero parent x = none
find (suc fuel) parent x =
    let up = at parent (at parent x) in
    let rest = find fuel (set parent x up) up in if at parent x == x then some (x, parent) else rest

abbrev pub link : List ℕ → ℕ → ℕ → List ℕ
link parent pa pb = if pa == pb then parent else set parent pa pb

-- `union(a, b)`: two finds, then the root of `a` is hung under the root of `b`.
unfoldable pub union : ℕ → List ℕ → ℕ → ℕ → Option (List ℕ)
union fuel parent a b = do
  (pa, p1) ← find fuel parent a
  (pb, p2) ← find fuel p1 b
  some (link p2 pa pb)
