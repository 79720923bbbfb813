-- ===== src/Consolidation/Forest.antt =====
-- The parent list of `_cluster_by_overlap` as a forest: what `find` and `union` keep.
use engram_mem.Base.{
  ℕ, zero, suc, ◌+◌, ◌≤◌, ◌<◌, ◌≡◌, ◌≢◌, refl, ◌∙◌, inl, inr, some, List, arith, dec_lt, ℕ_discrete,
  length, set, length-set, get_or-set_self, get_or-set_ne, get_or_of_length-le, ◌==◌, ==_iff,
  if◌then◌else◌, Bool-cases,
}
use engram_mem.Consolidation.UnionFind.{at, find, union}

-- `root` gives every index the root that its parents lead to, and `height` falls on the way there.
pub record Forest (parent : List ℕ) (root height : ℕ → ℕ) (k : ℕ) : Type 0 where
  pub up : (y : ℕ) → root (at parent y) ≡ root y
  pub fixed : (y : ℕ) → at parent (root y) ≡ root y
  pub own : (y : ℕ) → at parent y ≡ y → root y ≡ y
  pub falls : (y : ℕ) → at parent y ≢ y → height (at parent y) < height y
  pub ground_level : (y : ℕ) → at parent y ≡ y → height y ≡ 0
  pub low : (y : ℕ) → height y ≤ k
  pub inside : (y : ℕ) → y < length parent → root y < length parent

pub at-set :
    (p : List ℕ) (x v y : ℕ) → x < length p → at (set p x v) y ≡ (if x == y then v else at p y)
at-set p x v y h = elim (Bool-cases (x == y)) [
  | inl same ↦ let e : x ≡ y = (==_iff x y).0 same in rw same (rw (← e) (get_or-set_self p x v x h))
  | inr other ↦ rw other (get_or-set_ne p x y v y (ground arith))
]

-- An index that is not its own parent is in range.
lt-length_of_at-ne : (p : List ℕ) (x : ℕ) → at p x ≢ x → x < length p
lt-length_of_at-ne p x h = elim (dec_lt x (length p)) [
  | yes e ↦ e
  | no e ↦ absurd (h (get_or_of_length-le p x x (omega arith)))
]

module _ (p : List ℕ) (root height : ℕ → ℕ) (k : ℕ) (F : Forest p root height k) where
  -- One round of path halving keeps the forest, with the same roots and heights.
  halve-Forest : (x : ℕ) → at p x ≢ x → Forest (set p x (at p (at p x))) root height k
  halve-Forest x ne =
      let v = at p (at p x) in
      let s = λ (y : ℕ). at-set p x v y (lt-length_of_at-ne p x ne) in
      record {
        up = λ y. ground (arith, s y, F.up x, F.up (at p x), F.up y);
        fixed = λ y. ground (arith, s (root y), F.fixed y);
        own = λ y. ground (arith, s y, F.own y, F.falls x, F.falls (at p x));
        falls = λ y. ground (arith, s y, F.falls y, F.falls x, F.falls (at p x));
        ground_level = λ y. ground (arith, s y, F.ground_level y, F.falls x, F.falls (at p x));
        low = F.low;
        inside = λ y h. omega (arith, length-set p x v, F.inside y);
      }

  height-halve : (x : ℕ) → at p x ≢ x → height (at p (at p x)) < height x
  height-halve x ne = ground (arith, F.falls x, F.falls (at p x))

  root-halve : (x : ℕ) → root (at p (at p x)) ≡ root x
  root-halve x = F.up (at p x) ∙ F.up x

-- With fuel above the height `find` returns the root, and keeps the forest, its roots and its
-- length.
pub find_lem :
    (fuel : ℕ) (p : List ℕ) (root height : ℕ → ℕ) (k x : ℕ)
    → Forest p root height k
    → height x < fuel
    → (p' : List ℕ) × (find fuel p x ≡ some (root x, p'))
      × Forest p' root height k
      × (length p' ≡ length p)
unfolding find
find_lem zero p root height k x F h = absurd (omega arith)
find_lem (suc fuel) p root height k x F h = elim (ℕ_discrete (at p x) x) [
  | yes e ↦ (p, ground (arith, F.own x), F, refl)
  | no e ↦
      let up = at p (at p x) in
      let (p', found, F', len) =
        find_lem fuel (set p x up) root height k up (halve-Forest p root height k F x e)
          (omega (arith, height-halve p root height k F x e)) in
      (p', ground (arith, found, root-halve p root height k F x), F', len ∙ length-set p x up)
]

-- The roots after the tree of `pa` is hung under `pb`.
abbrev pub rehang : (ℕ → ℕ) → ℕ → ℕ → ℕ → ℕ
rehang root pa pb y = if root y == pa then pb else root y

abbrev lift : (ℕ → ℕ) → (ℕ → ℕ) → ℕ → ℕ → ℕ
lift root height pa y = if root y == pa then height y + 1 else height y

module _ (p : List ℕ) (root height : ℕ → ℕ) (k : ℕ) (F : Forest p root height k) (pa pb : ℕ)
    (top_a : root pa ≡ pa) (top_b : root pb ≡ pb) (in_a : pa < length p) (in_b : pb < length p)
    (ne : pa ≢ pb) where
  hang-Forest : Forest (set p pa pb) (rehang root pa pb) (lift root height pa) (k + 1)
  hang-Forest =
      let s = λ (y : ℕ). at-set p pa pb y in_a in
      record {
        up = λ y. ground (arith, s y, F.up y, F.own y);
        fixed = λ y. ground (arith, s (root y), s pb, F.fixed y, F.fixed pb);
        own = λ y. ground (arith, s y, F.own y);
        falls = λ y. ground (arith, s y, F.falls y, F.up y, F.fixed pb, F.ground_level pb);
        ground_level = λ y. ground (arith, s y, F.ground_level y, F.own y);
        low = λ y. ground (arith, F.low y);
        inside = λ y h. ground (arith, length-set p pa pb, F.inside y);
      }

root_root :
    (p : List ℕ) (root height : ℕ → ℕ) (k y : ℕ) → Forest p root height k → root (root y) ≡ root y
root_root p root height k y F = F.own (root y) (F.fixed y)

-- What `union(a, b)` does to a forest: with enough fuel it returns, the tree of `a` is hung under
-- the root of `b`, and nothing else changes.
pub union_lem :
    (fuel : ℕ) (p : List ℕ) (root height : ℕ → ℕ) (k a b : ℕ)
    → Forest p root height k
    → k < fuel
    → a < length p
    → b < length p
    → (p' : List ℕ) × (height' : ℕ → ℕ) × (union fuel p a b ≡ some p')
      × Forest p' (rehang root (root a) (root b)) height' (k + 1)
      × (length p' ≡ length p)
unfolding union
union_lem fuel p root height k a b F h ia ib =
    let (p1, found_a, F1, len1) = find_lem fuel p root height k a F (omega (arith, F.low a)) in
    let (p2, found_b, F2, len2) = find_lem fuel p1 root height k b F1 (omega (arith, F.low b)) in
    elim (ℕ_discrete (root a) (root b)) [
      | yes e ↦ (
        p2,
        height,
        ground (arith, found_a, found_b),
        record {
          up = λ y. ground (arith, F2.up y);
          fixed = λ y. ground (arith, F2.fixed y, F2.fixed b);
          own = λ y. ground (arith, F2.own y);
          falls = F2.falls;
          ground_level = F2.ground_level;
          low = λ y. omega (arith, F2.low y);
          inside = λ y h. ground (arith, F2.inside y);
        },
        len2 ∙ len1,
      )
      | no e ↦ (
        set p2 (root a) (root b),
        lift root height (root a),
        ground (arith, found_a, found_b),
        hang-Forest p2 root height k F2 (root a) (root b) (root_root p root height k a F)
            (root_root p root height k b F) (omega (arith, F.inside a)) (omega (arith, F.inside b))
            e,
        length-set p2 (root a) (root b) ∙ len2 ∙ len1,
      )
    ]

pub weaken-Forest :
    (p : List ℕ) (root height : ℕ → ℕ) (k m : ℕ)
    → k ≤ m
    → Forest p root height k
    → Forest p root height m
weaken-Forest p root height k m le F = record {
  up = F.up;
  fixed = F.fixed;
  own = F.own;
  falls = F.falls;
  ground_level = F.ground_level;
  low = λ y. omega (arith, F.low y);
  inside = F.inside;
}
