-- ===== src/Consolidation/Linking.antt =====
-- The linking loops: after them two indices have one root exactly when a chain of overlaps joins
-- them.
use engram_mem.Base.{
  ℕ, zero, suc, ◌+◌, ◌≤◌, ◌<◌, ◌≡◌, refl, ◌∙◌, inl, inr, Bool, true, false, not, ◌&&◌, Option, some,
  List, arith, length, ◌==◌, Bool-cases, ℕ_discrete,
}
use engram_mem.Consolidation.UnionFind.{union}
use engram_mem.Consolidation.Forest.{Forest, rehang, union_lem, weaken-Forest}
use engram_mem.Consolidation.Cluster.{link_row}

-- Chains of links, in either direction.
pub data Chain (E : ℕ → ℕ → Type 0) : ℕ → ℕ → Type 0 where
  link : {i j : ℕ} → E i j → Chain E i j
  here : {i : ℕ} → Chain E i i
  back : {i j : ℕ} → Chain E i j → Chain E j i
  onward : {i j k : ℕ} → Chain E i j → Chain E j k → Chain E i k

-- A forest of `n` indices whose trees are joined by chains only.
pub record Linked (E : ℕ → ℕ → Type 0) (n : ℕ) (p : List ℕ) (root : ℕ → ℕ) (k : ℕ) : Type 0 where
  pub height : ℕ → ℕ
  pub forest : Forest p root height k
  pub size : length p ≡ n
  pub sound : (x y : ℕ) → root x ≡ root y → Chain E x y

-- What is joined stays joined.
abbrev pub Coarser : (ℕ → ℕ) → (ℕ → ℕ) → Type 0
Coarser root root' = (x y : ℕ) → root x ≡ root y → root' x ≡ root' y

rehang-Chain :
    (E : ℕ → ℕ → Type 0) (root : ℕ → ℕ) (a b : ℕ)
    → ((x y : ℕ) → root x ≡ root y → Chain E x y)
    → Chain E a b
    → (x y : ℕ) → rehang root (root a) (root b) x ≡ rehang root (root a) (root b) y
    → Chain E x y
rehang-Chain E root a b sound c x y h = elim (Bool-cases (root x == root a)) [
  | inl ex ↦ elim (Bool-cases (root y == root a)) [
    | inl ey ↦ sound x y (ground arith)
    | inr ey ↦ onward (sound x a (ground arith)) (onward c (sound b y (ground arith)))
  ]
  | inr ex ↦ elim (Bool-cases (root y == root a)) [
    | inl ey ↦ onward (sound x b (ground arith)) (back (onward (sound y a (ground arith)) c))
    | inr ey ↦ sound x y (ground arith)
  ]
]

pub union-Linked :
    (E : ℕ → ℕ → Type 0) (n fuel : ℕ) (p : List ℕ) (root : ℕ → ℕ) (k a b : ℕ)
    → Linked E n p root k
    → k < fuel
    → a < n
    → b < n
    → Chain E a b
    → (p' : List ℕ) × (root' : ℕ → ℕ) × (union fuel p a b ≡ some p')
      × Linked E n p' root' (k + 1)
      × Coarser root root'
      × (root' a ≡ root' b)
union-Linked E n fuel p root k a b L h ia ib c =
    let (p', height', runs, F', len) =
      union_lem fuel p root L.height k a b L.forest h (omega (arith, L.size))
        (omega (arith, L.size)) in
    (
      p',
      rehang root (root a) (root b),
      runs,
      record {
        height = height';
        forest = F';
        size = len ∙ L.size;
        sound = rehang-Chain E root a b L.sound c;
      },
      λ x y e. ground arith,
      ground arith,
    )

pub weaken-Linked :
    (E : ℕ → ℕ → Type 0) (n : ℕ) (p : List ℕ) (root : ℕ → ℕ) (k m : ℕ)
    → k ≤ m
    → Linked E n p root k
    → Linked E n p root m
weaken-Linked E n p root k m le L = record {
  height = L.height;
  forest = weaken-Forest p root L.height k m le L.forest;
  size = L.size;
  sound = L.sound;
}

-- A phase that returns: it joins by chains only, and `goal` holds of the new roots.
pub record Joins (E : ℕ → ℕ → Type 0) (n : ℕ) (root : ℕ → ℕ) (k : ℕ) (run : Option (List ℕ))
    (goal : (ℕ → ℕ) → Type 0) : Type 0 where
  pub parent : List ℕ
  pub new_root : ℕ → ℕ
  pub returns : run ≡ some parent
  pub linked : Linked E n parent new_root k
  pub coarser : Coarser root new_root
  pub reached : goal new_root

module _ (skip : ℕ → Bool) (test : ℕ → ℕ → Bool) (n : ℕ) where
  -- The pairs that the loops join.
  pub record Pair (i j : ℕ) : Type 0 where
    pub order : i < j
    pub bound : j < n
    pub full_i : skip i ≡ false
    pub full_j : skip j ≡ false
    pub passes : test i j ≡ true

  abbrev RowDone : ℕ → ℕ → (ℕ → ℕ) → Type 0
  RowDone i j root = (m : ℕ) → j ≤ m → Pair i m → root i ≡ root m

  -- From `j` on, the row of `i` joins each pair of it, and only chains.
  pub link_row_lem :
      (fuel i rounds j : ℕ) (p : List ℕ) (root : ℕ → ℕ) (k : ℕ)
      → Linked Pair n p root k
      → k + rounds < fuel
      → i < j
      → j + rounds ≡ n
      → skip i ≡ false
      → Joins Pair n root (k + rounds) (link_row fuel skip test i rounds j p) (RowDone i j)
  unfolding link_row
  link_row_lem fuel i zero j p root k L h lt e full = record {
    parent = p;
    new_root = root;
    returns = refl;
    linked = weaken-Linked Pair n p root k (k + zero) (omega arith) L;
    coarser = λ x y q. q;
    reached = λ m le q. absurd (omega (arith, q.bound));
  }
  link_row_lem fuel i (suc rounds) j p root k L h lt e full =
      elim (Bool-cases (not (skip j) && test i j)) [
        | inl hit ↦
            let (p1, root1, runs, L1, grows, joined) =
              union-Linked Pair n fuel p root k i j L (omega arith) (omega arith) (omega arith) (
                link (record {
                  order = lt;
                  bound = omega arith;
                  full_i = full;
                  full_j = ground arith;
                  passes = ground arith;
                })) in
            let rest =
              link_row_lem fuel i rounds (j + 1) p1 root1 (k + 1) L1 (omega arith) (omega arith)
                (omega arith) full in
            record {
              parent = rest.parent;
              new_root = rest.new_root;
              returns = ground (arith, runs, rest.returns);
              linked =
                  weaken-Linked Pair n rest.parent rest.new_root (k + 1 + rounds) (k + suc rounds)
                    (omega arith) rest.linked;
              coarser = λ x y q. rest.coarser x y (grows x y q);
              reached = λ m le q. elim (ℕ_discrete j m) [
                | yes same ↦ rw (← same) (rest.coarser i j joined)
                | no other ↦ rest.reached m (omega arith) q
              ];
            }
        | inr miss ↦
            let rest =
              link_row_lem fuel i rounds (j + 1) p root k L (omega arith) (omega arith)
                (omega arith) full in
            record {
              parent = rest.parent;
              new_root = rest.new_root;
              returns = ground (arith, rest.returns);
              linked =
                  weaken-Linked Pair n rest.parent rest.new_root (k + rounds) (k + suc rounds)
                    (omega arith) rest.linked;
              coarser = rest.coarser;
              reached = λ m le q. elim (ℕ_discrete j m) [
                | yes same ↦ absurd (ground (arith, q.full_j, q.passes))
                | no other ↦ rest.reached m (omega arith) q
              ];
            }
      ]
