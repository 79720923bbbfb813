-- ===== src/Consolidation/Rows.antt =====
-- Both linking loops, from the list in which every index is its own parent.
use mathlib.Core.Path.{subst}
use engram_mem.Base.{
  ℕ, zero, suc, ◌+◌, ◌*◌, ◌-◌, ◌≤◌, ◌<◌, ◌≡◌, refl, ap, sym, ◌∙◌, ◌↔◌, inl, inr, Bool, some, List,
  arith, length, get_or, Bool-cases, ℕ_discrete,
}
use engram_mem.Consolidation.UnionFind.{at}
use engram_mem.Consolidation.Cluster.{link_rows, range_from}
use engram_mem.Consolidation.Linking.{
  Chain, link, here, back, onward, Linked, weaken-Linked, Joins, Pair, link_row_lem,
}

pub length-range_from : (i n : ℕ) → length (range_from i n) ≡ n
unfolding range_from
length-range_from i zero = refl
length-range_from i (suc n) = ap suc (length-range_from (i + 1) n)

get_or-range_from : (i n y d : ℕ) → d ≡ i + y → get_or (range_from i n) y d ≡ i + y
unfolding range_from
get_or-range_from i zero y d e = e
get_or-range_from i (suc n) zero d e = omega arith
get_or-range_from i (suc n) (suc y) d e =
    get_or-range_from (i + 1) n y d (omega arith) ∙ omega arith

at-range_from : (n y : ℕ) → at (range_from 0 n) y ≡ y
at-range_from n y = get_or-range_from 0 n y y (omega arith) ∙ omega arith

start-Linked : (E : ℕ → ℕ → Type 0) (n : ℕ) → Linked E n (range_from 0 n) (λ y. y) 0
start-Linked E n = record {
  height = λ _. 0;
  forest = record {
    up = at-range_from n;
    fixed = at-range_from n;
    own = λ y e. refl;
    falls = λ y ne. absurd (ne (at-range_from n y));
    ground_level = λ y e. refl;
    low = λ y. omega arith;
    inside = λ y h. h;
  };
  size = length-range_from 0 n;
  sound = λ x y e. rw e here;
}

module _ (skip : ℕ → Bool) (test : ℕ → ℕ → Bool) (n : ℕ) where
  abbrev RowsDone : ℕ → (ℕ → ℕ) → Type 0
  RowsDone i root = (x y : ℕ) → i ≤ x → Pair skip test n x y → root x ≡ root y

  link_rows_lem :
      (fuel rounds i : ℕ) (p : List ℕ) (root : ℕ → ℕ) (k : ℕ)
      → Linked (Pair skip test n) n p root k
      → k + rounds * n < fuel
      → i + rounds ≡ n
      → Joins
          (Pair skip test n)
          n
          root
          (k + rounds * n)
          (link_rows fuel skip test n rounds i p)
          (RowsDone i)
  unfolding link_rows
  link_rows_lem fuel zero i p root k L h e = record {
    parent = p;
    new_root = root;
    returns = refl;
    linked = weaken-Linked _ n p root k (k + zero * n) (omega arith) L;
    coarser = λ x y q. q;
    reached = λ x y le q. absurd (omega (arith, q.order, q.bound));
  }
  link_rows_lem fuel (suc rounds) i p root k L h e = elim (Bool-cases (skip i)) [
    | inl empty ↦
        let rest = link_rows_lem fuel rounds (i + 1) p root k L (omega arith) (omega arith) in
        record {
          parent = rest.parent;
          new_root = rest.new_root;
          returns = ground (arith, rest.returns);
          linked =
              weaken-Linked _ n rest.parent rest.new_root (k + rounds * n) (k + suc rounds * n)
                (omega arith) rest.linked;
          coarser = rest.coarser;
          reached = λ x y le q. elim (ℕ_discrete i x) [
            | yes same ↦ absurd (ground (arith, q.full_i))
            | no other ↦ rest.reached x y (omega arith) q
          ];
        }
    | inr full ↦
        let row =
          link_row_lem skip test n fuel i (n - (i + 1)) (i + 1) p root k L (omega arith)
            (omega arith) (omega arith) full in
        let L1 =
          weaken-Linked _ n row.parent row.new_root (k + (n - (i + 1))) (k + n) (omega arith)
            row.linked in
        let rest =
          link_rows_lem fuel rounds (i + 1) row.parent row.new_root (k + n) L1 (omega arith)
            (omega arith) in
        record {
          parent = rest.parent;
          new_root = rest.new_root;
          returns = ground (arith, row.returns, rest.returns);
          linked =
              weaken-Linked _ n rest.parent rest.new_root (k + n + rounds * n) (k + suc rounds * n)
                (omega arith) rest.linked;
          coarser = λ x y q. rest.coarser x y (row.coarser x y q);
          reached = λ x y le q. elim (ℕ_discrete i x) [
            | yes same ↦ rest.coarser x y (
                subst (λ z. Pair skip test n z y → row.new_root z ≡ row.new_root y) same
                  (λ r. row.reached y (omega (arith, r.order)) r) q)
            | no other ↦ rest.reached x y (omega arith) q
          ];
        }
  ]

  -- What the linking loops return: a forest of bounded height whose roots are equal exactly on
  -- chains of pairs.
  pub record Components (parent : List ℕ) : Type 0 where
    pub root : ℕ → ℕ
    pub linked : Linked (Pair skip test n) n parent root (n * n)
    pub same_root_iff : (x y : ℕ) → (root x ≡ root y) ↔ Chain (Pair skip test n) x y

  same_root_of_Chain :
      (root : ℕ → ℕ) → RowsDone 0 root → (x y : ℕ) → Chain (Pair skip test n) x y → root x ≡ root y
  same_root_of_Chain root done x y (link q) = done x y (omega arith) q
  same_root_of_Chain root done x y here = refl
  same_root_of_Chain root done x y (back c) = sym (same_root_of_Chain root done y x c)
  same_root_of_Chain root done x y (onward {j = z} c d) =
      same_root_of_Chain root done x z c ∙ same_root_of_Chain root done z y d

  pub link_rows-Components :
      (parent : List ℕ) × (link_rows (n * n + 1) skip test n n 0 (range_from 0 n) ≡ some parent)
      × Components parent
  link_rows-Components =
      let all =
        link_rows_lem (n * n + 1) n 0 (range_from 0 n) (λ y. y) 0 (start-Linked _ n) (omega arith)
          (omega arith) in
      (
        all.parent,
        all.returns,
        record {
          root = all.new_root;
          linked =
              weaken-Linked _ n all.parent all.new_root (0 + n * n) (n * n) (omega arith)
                all.linked;
          same_root_iff =
              λ x y. (all.linked.sound x y, same_root_of_Chain all.new_root all.reached x y);
        },
      )
