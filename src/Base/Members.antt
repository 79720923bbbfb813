-- ===== src/Base/Members.antt =====
-- What holds of every item of a list that a filter or an append makes.
use engram_mem.Base.{
  ℕ, zero, suc, ◌≤◌, ap, arith, length, take, ◌≡◌, refl, inl, inr, Bool, true, List, [], ◌∷◌, ◌++◌,
  filter_by, Bool-cases, All,
}

module _ {ℓ} {A : Type ℓ} where
  pub All-append {κ} : (P : A → Type κ) (xs ys : List A) → All P xs → All P ys → All P (xs ++ ys)
  All-append P [] ys h hs = hs
  All-append P (x ∷ xs) ys h hs = (h.0, All-append P xs ys h.1 hs)

  -- What a filter keeps has passed its test.
  pub All-filter_map {κ μ} :
      {P : A → Type κ} {Q : A → Type μ} (p : A → Bool) (f : (x : A) → p x ≡ true → P x → Q x)
      (xs : List A)
      → All P xs
      → All Q (filter_by p xs)
  All-filter_map p f [] h = tt
  All-filter_map p f (x ∷ xs) h = elim (Bool-cases (p x)) [
    | inl e ↦ rw (e, filter_by) (f x e h.0, All-filter_map p f xs h.1)
    | inr e ↦ rw (e, filter_by) (All-filter_map p f xs h.1)
  ]

  pub All-impl {κ μ} :
      {P : A → Type κ} {Q : A → Type μ} (f : (x : A) → P x → Q x) (xs : List A)
      → All P xs
      → All Q xs
  All-impl f [] h = tt
  All-impl f (x ∷ xs) h = (f x h.0, All-impl f xs h.1)

  pub take_of_length-le : (n : ℕ) (xs : List A) → length xs ≤ n → take n xs ≡ xs
  take_of_length-le zero [] h = refl
  take_of_length-le zero (x ∷ xs) h = absurd (omega arith)
  take_of_length-le (suc n) [] h = refl
  take_of_length-le (suc n) (x ∷ xs) h = ap (λ l. x ∷ l) (take_of_length-le n xs (omega arith))

  -- A test that every item passes keeps the list.
  pub filter_by-all : (p : A → Bool) (xs : List A) → ((x : A) → p x ≡ true) → filter_by p xs ≡ xs
  filter_by-all p [] h = refl
  filter_by-all p (x ∷ xs) h = rw (h x, filter_by) (ap (λ l. x ∷ l) (filter_by-all p xs h))
