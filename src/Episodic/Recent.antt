-- ===== src/Episodic/Recent.antt =====
-- `get_recent` of src/engram/episodic/episodic_search.py against what it promises, the newest memories.
use engram_mem.Base.{
  ℕ, zero, suc, ◌-◌, ◌*◌, ◌≤◌, min, ◌≡◌, refl, sym, ◌∙◌, ap, true, false, ◌==◌, leb, le→leb, none,
  some, List, [], ◌∷◌, take, length, arith, All,
}
use engram_mem.Base.Sort.{
  sort_down, sort_by, insert_by, length-sort_down, IsDescending, sort_down-IsDescending,
  IsDescending-take,
}
use engram_mem.Episodic.{Point, scroll_order, limit_or_100}
use engram_mem.Episodic.Ids.{get_many-everything}
use engram_mem.Episodic.Search.{recent_page, get_recent}

insert-first {ℓ} :
    {A : Type ℓ} (key : A → ℕ) (x : A) (xs : List A)
    → All (λ y. key y ≤ key x) xs
    → insert_by (λ a b. leb (key b) (key a)) x xs ≡ x ∷ xs
unfolding insert_by
insert-first key x [] h = refl
insert-first key x (y ∷ xs) h = rw (le→leb (key y) (key x) h.0) refl

-- Sorting again changes nothing.
sort_down_again {ℓ} :
    {A : Type ℓ} (key : A → ℕ) (xs : List A) → IsDescending key xs → sort_down key xs ≡ xs
unfolding sort_down sort_by
sort_down_again key [] h = refl
sort_down_again key (x ∷ xs) h =
    ap (insert_by (λ a b. leb (key b) (key a)) x) (sort_down_again key xs h.1)
    ∙ insert-first key x xs h.0

take-take {ℓ} :
    {A : Type ℓ} (n k : ℕ) (xs : List A) → min n (length xs) ≤ k → take n (take k xs) ≡ take n xs
take-take zero k xs h = refl
take-take (suc n) zero [] h = refl
take-take (suc n) zero (x ∷ xs) h = absurd (omega (arith, h))
take-take (suc n) (suc k) [] h = refl
take-take (suc n) (suc k) (x ∷ xs) h = ap (λ l. x ∷ l) (take-take n k xs (omega (arith, h)))

le-limit_or_100 : (k m : ℕ) → m ≤ k → m ≤ limit_or_100 (some k)
le-limit_or_100 k m h = ground (arith, h)

take-empty {ℓ} : {A : Type ℓ} (n : ℕ) → take {A = A} n [] ≡ []
take-empty zero = refl
take-empty (suc n) = refl

take-sort_again {ℓ} :
    {A : Type ℓ} (key : A → ℕ) (n k : ℕ) (xs : List A)
    → min n (length xs) ≤ k
    → take n (sort_down key (take k (sort_down key xs))) ≡ take n (sort_down key xs)
take-sort_again key n k xs h =
    ap (take n) (
      sort_down_again key (take k (sort_down key xs))
        (IsDescending-take key k (sort_down key xs) (sort_down-IsDescending key xs)))
    ∙ take-take n k (sort_down key xs) (omega (arith, length-sort_down key xs, h))

-- Where the collection can be read in the order of the timestamps, `get_recent` without a filter gives
-- the newest memories of the whole collection, newest first, `n` but at most 1000 of them, although it
-- asks for a part of the collection only.
pub get_recent_lem :
    (n : ℕ) (points : List Point)
    → get_recent true n none points ≡ take (min n 1000) (sort_down (λ p. p.timestamp) points)
unfolding get_recent recent_page scroll_order sort_down
get_recent_lem n [] = sym (take-empty (min n 1000))
get_recent_lem n (p ∷ points) =
    let count = length (p ∷ points) in
    let k = min (min (min n 1000 * 5) count) 2000 in
    let some_points : (count == 0) ≡ false = ground arith in
    rw (some_points, get_recent)
      (ap (λ ps. take (min n 1000) (sort_down (λ p. p.timestamp) ps))
          (get_many-everything true (some k) (some (count - k)) (p ∷ points))
        ∙ take-sort_again (λ p. p.timestamp) (min n 1000) (limit_or_100 (some k)) (p ∷ points)
            (le-limit_or_100 k (min (min n 1000) count) (omega arith)))
