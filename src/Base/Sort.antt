-- ===== src/Base/Sort.antt =====
-- Python's `sorted`: stable insertion sort by a test that says which of two items comes first.
use engram_mem.Base.{
  ℕ, zero, suc, ◌≤◌, ◌≡◌, ◌<◌, ap, refl, inl, inr, Bool, true, false, List, [], ◌∷◌, arith, length,
  take, filter_by, count_by, if◌then◌else◌, Bool-cases, ◌&&◌, All, leb, le→leb, gt→leb, dec_le,
}

module _ {ℓ} {A : Type ℓ} (before : A → A → Bool) where
  -- `x` goes in front of the first item that it does not have to follow.
  unfoldable pub insert_by : A → List A → List A
  insert_by x [] = x ∷ []
  insert_by x (y ∷ ys) = if before x y then x ∷ y ∷ ys else y ∷ insert_by x ys

  unfoldable pub sort_by : List A → List A
  unfolding insert_by
  sort_by [] = []
  sort_by (x ∷ xs) = insert_by x (sort_by xs)

  count-insert_by :
      (p : A → Bool) (x : A) (xs : List A) → count_by p (insert_by x xs) ≡ count_by p (x ∷ xs)
  unfolding insert_by
  count-insert_by p x [] = refl
  count-insert_by p x (y ∷ ys) = ground (arith, count-insert_by p x ys)

  -- Sorting keeps every item, as often as it stands.
  pub count-sort_by : (p : A → Bool) (xs : List A) → count_by p (sort_by xs) ≡ count_by p xs
  unfolding sort_by
  count-sort_by p [] = refl
  count-sort_by p (x ∷ xs) = ground (arith, count-insert_by p x (sort_by xs), count-sort_by p xs)

  length-insert_by : (x : A) (xs : List A) → length (insert_by x xs) ≡ suc (length xs)
  unfolding insert_by
  length-insert_by x [] = refl
  length-insert_by x (y ∷ ys) = ground (arith, length-insert_by x ys)

  pub length-sort_by : (xs : List A) → length (sort_by xs) ≡ length xs
  unfolding sort_by
  length-sort_by [] = refl
  length-sort_by (x ∷ xs) = omega (arith, length-insert_by x (sort_by xs), length-sort_by xs)

  All-insert_by {κ} :
      (P : A → Type κ) (x : A) (xs : List A) → P x → All P xs → All P (insert_by x xs)
  unfolding insert_by
  All-insert_by P x [] h hs = (h, tt)
  All-insert_by P x (y ∷ ys) h hs = elim (Bool-cases (before x y)) [
    | inl e ↦ rw e (h, hs)
    | inr e ↦ rw e (hs.0, All-insert_by P x ys h hs.1)
  ]

  pub All-sort_by {κ} : (P : A → Type κ) (xs : List A) → All P xs → All P (sort_by xs)
  unfolding sort_by
  All-sort_by P [] h = tt
  All-sort_by P (x ∷ xs) h = All-insert_by P x (sort_by xs) h.0 (All-sort_by P xs h.1)

module _ {ℓ} {A : Type ℓ} where
  -- A prefix that is shorter than asked for is the whole list.
  pub take_all : (n : ℕ) (xs : List A) → length (take n xs) < n → take n xs ≡ xs
  take_all zero xs h = absurd (omega arith)
  take_all (suc n) [] h = refl
  take_all (suc n) (x ∷ xs) h = ap (λ l. x ∷ l) (take_all n xs (omega arith))

  pub count-take-le : (p : A → Bool) (n : ℕ) (xs : List A) → count_by p (take n xs) ≤ count_by p xs
  count-take-le p zero xs = omega arith
  count-take-le p (suc n) [] = omega arith
  count-take-le p (suc n) (x ∷ xs) = ground (arith, count-take-le p n xs)

  pub count-filter_by :
      (p q : A → Bool) (xs : List A) → count_by p (filter_by q xs) ≡ count_by (λ x. p x && q x) xs
  count-filter_by p q [] = refl
  count-filter_by p q (x ∷ xs) = ground (arith, count-filter_by p q xs)

  pub length-filter_by : (q : A → Bool) (xs : List A) → length (filter_by q xs) ≡ count_by q xs
  length-filter_by q [] = refl
  length-filter_by q (x ∷ xs) = ground (arith, length-filter_by q xs)

  All-keep_if {κ} :
      (P : A → Type κ) (b : Bool) (x : A) (xs : List A)
      → (b ≡ true → P x)
      → All P xs
      → All P (elim b [ true ↦ x ∷ xs | false ↦ xs ])
  All-keep_if P true x xs h hs = (h refl, hs)
  All-keep_if P false x xs h hs = hs

  -- What a filter keeps passes its test.
  pub All-filter_by : (p : A → Bool) (xs : List A) → All (λ x. p x ≡ true) (filter_by p xs)
  All-filter_by p [] = tt
  All-filter_by p (x ∷ xs) =
      All-keep_if (λ y. p y ≡ true) (p x) x (filter_by p xs) (λ e. e) (All-filter_by p xs)

  pub All-take {κ} : (P : A → Type κ) (n : ℕ) (xs : List A) → All P xs → All P (take n xs)
  All-take P zero xs h = tt
  All-take P (suc n) [] h = tt
  All-take P (suc n) (x ∷ xs) h = (h.0, All-take P n xs h.1)

  -- Each item is at most (for `IsAscending`) or at least (for `IsDescending`) the next by its key.
  abbrev pub IsAscending : (A → ℕ) → List A → Type 0
  IsAscending key [] = Unit
  IsAscending key (x ∷ xs) = All (λ y. key x ≤ key y) xs × IsAscending key xs

  abbrev pub IsDescending : (A → ℕ) → List A → Type 0
  IsDescending key [] = Unit
  IsDescending key (x ∷ xs) = All (λ y. key y ≤ key x) xs × IsDescending key xs

  -- `sorted(xs, key=key)` and `sorted(xs, key=key, reverse=True)`, both stable.
  unfoldable pub sort_up : (A → ℕ) → List A → List A
  unfolding sort_by
  sort_up key = sort_by (λ x y. leb (key x) (key y))

  unfoldable pub sort_down : (A → ℕ) → List A → List A
  unfolding sort_by
  sort_down key = sort_by (λ x y. leb (key y) (key x))

  pub length-sort_up : (key : A → ℕ) (xs : List A) → length (sort_up key xs) ≡ length xs
  unfolding sort_up
  length-sort_up key xs = length-sort_by _ xs

  pub count-sort_up :
      (key : A → ℕ) (p : A → Bool) (xs : List A) → count_by p (sort_up key xs) ≡ count_by p xs
  unfolding sort_up
  count-sort_up key p xs = count-sort_by _ p xs

  pub length-sort_down : (key : A → ℕ) (xs : List A) → length (sort_down key xs) ≡ length xs
  unfolding sort_down
  length-sort_down key xs = length-sort_by _ xs

  pub count-sort_down :
      (key : A → ℕ) (p : A → Bool) (xs : List A) → count_by p (sort_down key xs) ≡ count_by p xs
  unfolding sort_down
  count-sort_down key p xs = count-sort_by _ p xs

  pub All-sort_up {κ} :
      (P : A → Type κ) (key : A → ℕ) (xs : List A) → All P xs → All P (sort_up key xs)
  unfolding sort_up
  All-sort_up P key xs h = All-sort_by _ P xs h

  pub All-sort_down {κ} :
      (P : A → Type κ) (key : A → ℕ) (xs : List A) → All P xs → All P (sort_down key xs)
  unfolding sort_down
  All-sort_down P key xs h = All-sort_by _ P xs h

  All-weaken {κ μ} :
      {P : A → Type κ} {Q : A → Type μ} (f : (x : A) → P x → Q x) (xs : List A)
      → All P xs
      → All Q xs
  All-weaken f [] h = tt
  All-weaken f (x ∷ xs) h = (f x h.0, All-weaken f xs h.1)

  insert-IsAscending :
      (key : A → ℕ) (x : A) (xs : List A)
      → IsAscending key xs
      → IsAscending key (insert_by (λ a b. leb (key a) (key b)) x xs)
  unfolding insert_by
  insert-IsAscending key x [] h = (tt, tt)
  insert-IsAscending key x (y ∷ ys) h = elim (dec_le (key x) (key y)) [
    | yes le ↦ rw (le→leb (key x) (key y) le) ((le, All-weaken (λ z q. omega arith) ys h.0), h)
    | no gt ↦ rw (gt→leb (key x) (key y) gt) (
      All-insert_by (λ a b. leb (key a) (key b)) (λ z. key y ≤ key z) x ys (omega arith) h.0,
      insert-IsAscending key x ys h.1,
    )
  ]

  pub sort_up-IsAscending : (key : A → ℕ) (xs : List A) → IsAscending key (sort_up key xs)
  unfolding sort_up
  sort_up-IsAscending key [] = tt
  sort_up-IsAscending key (x ∷ xs) =
      insert-IsAscending key x (sort_up key xs) (sort_up-IsAscending key xs)

  insert-IsDescending :
      (key : A → ℕ) (x : A) (xs : List A)
      → IsDescending key xs
      → IsDescending key (insert_by (λ a b. leb (key b) (key a)) x xs)
  unfolding insert_by
  insert-IsDescending key x [] h = (tt, tt)
  insert-IsDescending key x (y ∷ ys) h = elim (dec_le (key y) (key x)) [
    | yes le ↦ rw (le→leb (key y) (key x) le) ((le, All-weaken (λ z q. omega arith) ys h.0), h)
    | no gt ↦ rw (gt→leb (key y) (key x) gt) (
      All-insert_by (λ a b. leb (key b) (key a)) (λ z. key z ≤ key y) x ys (omega arith) h.0,
      insert-IsDescending key x ys h.1,
    )
  ]

  pub sort_down-IsDescending : (key : A → ℕ) (xs : List A) → IsDescending key (sort_down key xs)
  unfolding sort_down
  sort_down-IsDescending key [] = tt
  sort_down-IsDescending key (x ∷ xs) =
      insert-IsDescending key x (sort_down key xs) (sort_down-IsDescending key xs)

  pub IsDescending-take :
      (key : A → ℕ) (n : ℕ) (xs : List A) → IsDescending key xs → IsDescending key (take n xs)
  IsDescending-take key zero xs h = tt
  IsDescending-take key (suc n) [] h = tt
  IsDescending-take key (suc n) (x ∷ xs) h = (All-take _ n xs h.0, IsDescending-take key n xs h.1)

  pub IsAscending-take :
      (key : A → ℕ) (n : ℕ) (xs : List A) → IsAscending key xs → IsAscending key (take n xs)
  IsAscending-take key zero xs h = tt
  IsAscending-take key (suc n) [] h = tt
  IsAscending-take key (suc n) (x ∷ xs) h = (All-take _ n xs h.0, IsAscending-take key n xs h.1)
