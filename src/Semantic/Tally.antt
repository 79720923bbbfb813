-- ===== src/Semantic/Tally.antt =====
-- How the loops of src/engram/semantic/orphan_linker.py over the orphans and targets of one memory raise
-- the counts of the pairs.
use engram_mem.Base.{
  ℕ, ◌+◌, ◌≤◌, ◌≡◌, refl, inl, inr, String, false, ◌&&◌, List, [], ◌∷◌, count_by, arith, str_eq,
  str_eq_iff, if◌then◌else◌, Bool-cases, All,
}
use engram_mem.Semantic.Merge.{contains}
use engram_mem.Semantic.Orphans.{Pair, bump, bump_targets, bump_orphans}

-- A bound for each pair of keys.
abbrev pub Bound : Type 0
Bound = String → String → ℕ

abbrev pub IsWithin : Bound → List Pair → Type 0
IsWithin n = All (λ p. p.count ≤ n p.orphan p.target)

pub IsWithin-more :
    (m n : Bound) (pairs : List Pair)
    → ((a b : String) → m a b ≤ n a b)
    → IsWithin m pairs
    → IsWithin n pairs
IsWithin-more m n [] more h = tt
IsWithin-more m n (p ∷ pairs) more h =
    (omega (arith, h.0, more p.orphan p.target), IsWithin-more m n pairs more h.1)

-- One more for one pair.
plus : String → String → Bound → Bound
plus o t n a b = n a b + (if str_eq a o && str_eq b t then 1 else 0)

bump-IsWithin :
    (o t : String) (n : Bound) (pairs : List Pair)
    → IsWithin n pairs
    → IsWithin (plus o t n) (bump o t pairs)
unfolding bump plus
bump-IsWithin o t n [] h = (ground (arith, str_eq_iff o o, str_eq_iff t t), tt)
bump-IsWithin o t n (p ∷ pairs) h = elim (Bool-cases (str_eq p.orphan o && str_eq p.target t)) [
  | inl e ↦
      rw (e, bump)
        (ground (arith, h.0, e), IsWithin-more n (plus o t n) pairs (λ a b. omega arith) h.1)
  | inr e ↦ rw (e, bump) (omega (arith, h.0), bump-IsWithin o t n pairs h.1)
]

-- What the targets of one orphan add, and what all orphans add.
abbrev pub row_of : String → List String → Bound
row_of o targets a b = if str_eq a o then count_by (str_eq b) targets else 0

unfoldable pub grid : List String → List String → Bound
grid [] targets a b = 0
grid (o ∷ orphans) targets a b = row_of o targets a b + grid orphans targets a b

unfoldable pub sum_of : Bound → Bound → Bound
sum_of m n a b = m a b + n a b

bump_targets-IsWithin :
    (o : String) (targets : List String) (n : Bound) (pairs : List Pair)
    → IsWithin n pairs
    → IsWithin (sum_of n (row_of o targets)) (bump_targets o targets pairs)
unfolding bump_targets plus sum_of
bump_targets-IsWithin o [] n pairs h = IsWithin-more n _ pairs (λ a b. omega arith) h
bump_targets-IsWithin o (t ∷ targets) n pairs h = elim (Bool-cases (str_eq o t)) [
  | inl e ↦
      rw (e, bump_targets)
        (IsWithin-more (sum_of n (row_of o targets)) (sum_of n (row_of o (t ∷ targets))) _
          (λ a b. ground arith) (bump_targets-IsWithin o targets n pairs h))
  | inr e ↦
      rw (e, bump_targets)
        (IsWithin-more (sum_of (plus o t n) (row_of o targets)) (sum_of n (row_of o (t ∷ targets)))
          _ (λ a b. ground arith)
          (bump_targets-IsWithin o targets (plus o t n) (bump o t pairs)
            (bump-IsWithin o t n pairs h)))
]

pub bump_orphans-IsWithin :
    (orphans targets : List String) (n : Bound) (pairs : List Pair)
    → IsWithin n pairs
    → IsWithin (sum_of n (grid orphans targets)) (bump_orphans orphans targets pairs)
unfolding bump_orphans sum_of grid
bump_orphans-IsWithin [] targets n pairs h = IsWithin-more n _ pairs (λ a b. omega arith) h
bump_orphans-IsWithin (o ∷ orphans) targets n pairs h =
    IsWithin-more (sum_of (sum_of n (row_of o targets)) (grid orphans targets))
      (sum_of n (grid (o ∷ orphans) targets)) _ (λ a b. omega arith)
      (bump_orphans-IsWithin orphans targets (sum_of n (row_of o targets))
        (bump_targets o targets pairs) (bump_targets-IsWithin o targets n pairs h))

grid_absent :
    (orphans targets : List String) (a b : String)
    → count_by (str_eq a) orphans ≡ 0
    → grid orphans targets a b ≡ 0
unfolding grid
grid_absent [] targets a b h = refl
grid_absent (o ∷ orphans) targets a b h = elim (Bool-cases (str_eq a o)) [
  | inl e ↦ absurd (ground (arith, e, h))
  | inr e ↦ ground (arith, e, h, grid_absent orphans targets a b)
]

grid-targets :
    (orphans targets : List String) (a b : String)
    → count_by (str_eq a) orphans ≤ 1
    → grid orphans targets a b ≤ count_by (str_eq b) targets
unfolding grid
grid-targets [] targets a b h = omega arith
grid-targets (o ∷ orphans) targets a b h = elim (Bool-cases (str_eq a o)) [
  | inl e ↦
      let rest : count_by (str_eq a) orphans ≡ 0 = ground (arith, e, h) in
      ground (arith, e, grid_absent orphans targets a b rest)
  | inr e ↦ ground (arith, e, grid-targets orphans targets a b (ground (arith, e, h)))
]

pub not_counted :
    (x : String) (xs : List String) → contains x xs ≡ false → count_by (str_eq x) xs ≡ 0
not_counted x [] h = refl
not_counted x (y ∷ xs) h = ground (arith, h, not_counted x xs)

-- A pair is counted once at most, and only where both keys are there.
pub grid-le :
    (orphans targets : List String) (a b : String)
    → count_by (str_eq a) orphans ≤ 1
    → count_by (str_eq b) targets ≤ 1
    → grid orphans targets a b ≤ (if contains a orphans && contains b targets then 1 else 0)
grid-le orphans targets a b h k =
    let most = grid-targets orphans targets a b h in
    elim (Bool-cases (contains a orphans)) [
      | inr e ↦ ground (arith, grid_absent orphans targets a b (not_counted a orphans e))
      | inl e ↦ elim (Bool-cases (contains b targets)) [
        | inr d ↦ ground (arith, most, not_counted b targets d)
        | inl d ↦ ground (arith, e, d, most, k)
      ]
    ]
