-- ===== src/Consolidation/Groups.antt =====
-- The grouping loop: one group for each root, every index in exactly one of them.
use mathlib.Core.Path.{subst}
use engram_mem.Base.{
  ℕ, zero, suc, ◌+◌, ◌<◌, ◌≡◌, ◌≢◌, refl, ◌↔◌, inl, inr, ◌&&◌, some, List, [], ◌∷◌, ◌++◌, map,
  arith, count_by, All, ltb, ◌==◌, if◌then◌else◌, Bool-cases, ==_iff,
}
use engram_mem.Consolidation.Forest.{Forest, find_lem}
use engram_mem.Consolidation.Cluster.{append_to, gather}

-- How often an index stands in a group, and in all groups.
abbrev pub occurs : ℕ → List ℕ → ℕ
occurs x = count_by (λ y. y == x)

abbrev pub occurs_in : ℕ → List (List ℕ) → ℕ
occurs_in x [] = 0
occurs_in x (g ∷ gs) = occurs x g + occurs_in x gs

abbrev values : List (ℕ × List ℕ) → List (List ℕ)
values = map (λ g. g.1)

-- The grouping loop with the roots given.
assign : (ℕ → ℕ) → ℕ → ℕ → List (ℕ × List ℕ) → List (ℕ × List ℕ)
assign root zero i groups = groups
assign root (suc rounds) i groups = assign root rounds (i + 1) (append_to (root i) i groups)

gather-assign :
    (fuel rounds i : ℕ) (p : List ℕ) (root height : ℕ → ℕ) (k : ℕ) (groups : List (ℕ × List ℕ))
    → Forest p root height k
    → k < fuel
    → gather fuel rounds i p groups ≡ some (assign root rounds i groups)
unfolding gather assign
gather-assign fuel zero i p root height k groups F h = refl
gather-assign fuel (suc rounds) i p root height k groups F h =
    let (p', found, F', len) = find_lem fuel p root height k i F (omega (arith, F.low i)) in
    rw found (gather-assign fuel rounds (i + 1) p' root height k (append_to (root i) i groups) F' h)

occurs-append : (x i : ℕ) (js : List ℕ) → occurs x (js ++ i ∷ []) ≡ occurs x js + occurs x (i ∷ [])
occurs-append x i [] = ground arith
occurs-append x i (j ∷ js) = ground (arith, occurs-append x i js)

total-append_to :
    (x root i : ℕ) (groups : List (ℕ × List ℕ))
    → occurs_in x (values (append_to root i groups))
      ≡ occurs_in x (values groups) + occurs x (i ∷ [])
unfolding append_to
total-append_to x root i [] = ground arith
total-append_to x root i ((r, js) ∷ groups) =
    ground (arith, occurs-append x i js, total-append_to x root i groups)

module _ (root : ℕ → ℕ) where
  -- A group holds the indices below `i` that have its root, once each.
  abbrev Entry : ℕ → ℕ × List ℕ → Type 0
  Entry i g = (j : ℕ) → occurs j g.1 ≡ (if ltb j i && root j == g.0 then 1 else 0)

  abbrev Fresh : ℕ → List (ℕ × List ℕ) → Type 0
  Fresh r = All (λ g. g.0 ≢ r)

  abbrev Distinct : List (ℕ × List ℕ) → Type 0
  Distinct [] = Unit
  Distinct (g ∷ groups) = Fresh g.0 groups × Distinct groups

  total_of_Fresh :
      (i r j : ℕ) (groups : List (ℕ × List ℕ))
      → All (Entry i) groups
      → Fresh r groups
      → root j ≡ r
      → occurs_in j (values groups) ≡ 0
  total_of_Fresh i r j [] h f e = refl
  total_of_Fresh i r j (g ∷ groups) h f e =
      ground (arith, h.0 j, f.0, total_of_Fresh i r j groups h.1 f.1 e)

  later_Entry :
      (i : ℕ) (groups : List (ℕ × List ℕ))
      → All (Entry i) groups
      → Fresh (root i) groups
      → All (Entry (i + 1)) groups
  later_Entry i [] h f = tt
  later_Entry i (g ∷ groups) h f = (λ j. ground (arith, h.0 j, f.0), later_Entry i groups h.1 f.1)

  append_to-Fresh :
      (s r i : ℕ) (groups : List (ℕ × List ℕ))
      → r ≢ s
      → Fresh s groups
      → Fresh s (append_to r i groups)
  unfolding append_to
  append_to-Fresh s r i [] ne f = (ne, tt)
  append_to-Fresh s r i ((q, js) ∷ groups) ne f = elim (Bool-cases (q == r)) [
    | inl e ↦ rw e (f.0, f.1)
    | inr e ↦ rw e (f.0, append_to-Fresh s r i groups ne f.1)
  ]

  append_to-Distinct :
      (r i : ℕ) (groups : List (ℕ × List ℕ)) → Distinct groups → Distinct (append_to r i groups)
  unfolding append_to
  append_to-Distinct r i [] d = (tt, tt)
  append_to-Distinct r i ((q, js) ∷ groups) d = elim (Bool-cases (q == r)) [
    | inl e ↦ rw e (d.0, d.1)
    | inr e ↦
        rw e (append_to-Fresh q r i groups (ground arith) d.0, append_to-Distinct r i groups d.1)
  ]

  append_to-Entry :
      (i : ℕ) (groups : List (ℕ × List ℕ))
      → All (Entry i) groups
      → Distinct groups
      → (Fresh (root i) groups → (j : ℕ) → j < i → root j ≢ root i)
      → All (Entry (i + 1)) (append_to (root i) i groups)
  unfolding append_to
  append_to-Entry i [] h d missing = (λ j. ground (arith, missing tt j), tt)
  append_to-Entry i ((q, js) ∷ groups) h d missing = elim (Bool-cases (q == root i)) [
    | inl e ↦ rw e (
      λ j. ground (arith, occurs-append j i js, h.0 j),
      later_Entry i groups h.1 (subst (λ s. Fresh s groups) ((==_iff q (root i)).0 e) d.0),
    )
    | inr e ↦ rw e (
      λ j. ground (arith, h.0 j),
      append_to-Entry i groups h.1 d.1 (λ f j. missing (ground arith, f) j),
    )
  ]

  pub record Grouped (i : ℕ) (groups : List (ℕ × List ℕ)) : Type 0 where
    pub entries : All (Entry i) groups
    pub distinct : Distinct groups
    pub total : (j : ℕ) → occurs_in j (values groups) ≡ (if ltb j i then 1 else 0)

  append_to-Grouped :
      (i : ℕ) (groups : List (ℕ × List ℕ))
      → Grouped i groups
      → Grouped (i + 1) (append_to (root i) i groups)
  append_to-Grouped i groups g = record {
    entries =
        append_to-Entry i groups g.entries g.distinct
          (λ f j lt e. ground (arith, total_of_Fresh i (root i) j groups g.entries f e, g.total j));
    distinct = append_to-Distinct (root i) i groups g.distinct;
    total = λ j. ground (arith, total-append_to j (root i) i groups, g.total j);
  }

  assign-Grouped :
      (rounds i n : ℕ) (groups : List (ℕ × List ℕ))
      → i + rounds ≡ n
      → Grouped i groups
      → Grouped n (assign root rounds i groups)
  unfolding assign
  assign-Grouped zero i n groups e g = subst (λ m. Grouped m groups) (omega arith) g
  assign-Grouped (suc rounds) i n groups e g =
      assign-Grouped rounds (i + 1) n (append_to (root i) i groups) (omega arith)
        (append_to-Grouped i groups g)

-- The groups split the indices below `n` along the relation `Same`.
pub record IsPartition (n : ℕ) (Same : ℕ → ℕ → Type 0) (groups : List (List ℕ)) : Type 0 where
  pub once : (j : ℕ) → j < n → occurs_in j groups ≡ 1
  pub within : All (λ g. (j : ℕ) → 0 < occurs j g → j < n) groups
  pub joined : All (λ g. (i j : ℕ) → 0 < occurs i g → j < n → (0 < occurs j g) ↔ Same i j) groups

module _ (root : ℕ → ℕ) (n : ℕ) (Same : ℕ → ℕ → Type 0)
    (same_root_iff : (x y : ℕ) → (root x ≡ root y) ↔ Same x y) where
  values-within :
      (groups : List (ℕ × List ℕ))
      → All (Entry root n) groups
      → All (λ g. (j : ℕ) → 0 < occurs j g → j < n) (values groups)
  values-within [] h = tt
  values-within (g ∷ groups) h = (λ j p. ground (arith, h.0 j), values-within groups h.1)

  values-joined :
      (groups : List (ℕ × List ℕ))
      → All (Entry root n) groups
      → All (λ g. (i j : ℕ) → 0 < occurs i g → j < n → (0 < occurs j g) ↔ Same i j) (values groups)
  values-joined [] h = tt
  values-joined (g ∷ groups) h = (
    λ i j p lt. (
      λ q. (same_root_iff i j).0 (ground (arith, h.0 i, h.0 j)),
      λ s. ground (arith, h.0 i, h.0 j, (same_root_iff i j).1 s),
    ),
    values-joined groups h.1,
  )

  -- The grouping loop splits the indices along their roots.
  pub gather-IsPartition :
      (fuel : ℕ) (p : List ℕ) (height : ℕ → ℕ) (k : ℕ)
      → Forest p root height k
      → k < fuel
      → (groups : List (ℕ × List ℕ)) × (gather fuel n 0 p [] ≡ some groups)
        × IsPartition n Same (map (λ g. g.1) groups)
  gather-IsPartition fuel p height k F h =
      let g =
        assign-Grouped root n 0 n [] (omega arith)
          (record { entries = tt; distinct = tt; total = λ j. ground arith }) in
      (
        assign root n 0 [],
        gather-assign fuel n 0 p root height k [] F h,
        record {
          once = λ j lt. ground (arith, g.total j);
          within = values-within (assign root n 0 []) g.entries;
          joined = values-joined (assign root n 0 []) g.entries;
        },
      )
