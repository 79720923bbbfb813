-- ===== src/Providers/Federated.antt =====
-- Whose answers a federated search returns.
use engram_mem.Base.{
  ℕ, ◌≡◌, refl, ◌⊎◌, inl, inr, String, Bool, true, not, ◌&&◌, Option, none, some, List, [], ◌∷◌,
  ◌++◌, arith, map, All, Bool-cases, Option-cases,
}
use engram_mem.Providers.{
  ProviderResult, MemoryProvider, Outcome, answered, raised, timed_out, is_active, finish_search,
  tracked_search, with_source, ask, collect, federated_search, classify_query, is_internal,
}
use engram_mem.Providers.Merged.{All-merge}

-- The source of the result is the name of one of the active providers.
abbrev pub IsFrom : List (MemoryProvider × Outcome) → ProviderResult → Type 0
IsFrom [] r = ⊥
IsFrom ((p, outcome) ∷ calls) r = ((is_active p ≡ true) × (r.source ≡ p.name)) ⊎ IsFrom calls r

All-append {ℓ κ} :
    {A : Type ℓ} (P : A → Type κ) (xs ys : List A) → All P xs → All P ys → All P (xs ++ ys)
All-append P [] ys h k = k
All-append P (x ∷ xs) ys h k = (h.0, All-append P xs ys h.1 k)

All-imp {ℓ κ} :
    {A : Type ℓ} (P Q : A → Type κ) (xs : List A) → ((x : A) → P x → Q x) → All P xs → All Q xs
All-imp P Q [] f h = tt
All-imp P Q (x ∷ xs) f h = (f x h.0, All-imp P Q xs f h.1)

-- The results of one call.
of_option : Option (List ProviderResult) → List ProviderResult
of_option none = []
of_option (some rs) = rs

All-with_source :
    (p : MemoryProvider) (rs : List ProviderResult)
    → All (λ r. r.source ≡ p.name) (map (with_source p.name) rs)
unfolding with_source
All-with_source p [] = tt
All-with_source p (r ∷ rs) = (refl, All-with_source p rs)

finish_search-source :
    (outcome : Outcome) (p : MemoryProvider)
    → All (λ r. r.source ≡ p.name) (of_option (finish_search outcome p).0)
unfolding finish_search of_option
finish_search-source (answered rs elapsed) p = All-with_source p rs
finish_search-source (raised elapsed) p = tt
finish_search-source timed_out p = tt

tracked_search-source :
    (outcome : Outcome) (p : MemoryProvider)
    → All (λ r. r.source ≡ p.name) (of_option (tracked_search outcome p).0)
unfolding tracked_search of_option
tracked_search-source outcome p = elim (Bool-cases (is_active p)) [
  | inl e ↦ rw e (finish_search-source outcome p)
  | inr e ↦ rw e tt
]

ask-source :
    (p : MemoryProvider) (outcome : Outcome)
    → All (λ r. (is_active p ≡ true) × (r.source ≡ p.name)) (of_option (ask (p, outcome)).0)
unfolding ask of_option
ask-source p outcome = elim (Bool-cases (is_active p)) [
  | inl e ↦ rw e (
      All-imp (λ r. r.source ≡ p.name) (λ r. (true ≡ true) × (r.source ≡ p.name))
        (of_option (tracked_search outcome p).0) (λ r h. (refl, h))
        (tracked_search-source outcome p))
  | inr e ↦ rw e tt
]

collect_cons :
    (call : MemoryProvider × Outcome) (calls : List (MemoryProvider × Outcome))
    → collect (call ∷ calls) ≡ of_option (ask call).0 ++ collect calls
unfolding collect of_option
collect_cons call calls = elim (Option-cases (ask call).0) [
  | inl e ↦ ground arith
  | inr (rs, e) ↦ ground arith
]

collect-IsFrom : (calls : List (MemoryProvider × Outcome)) → All (IsFrom calls) (collect calls)
unfolding collect
collect-IsFrom [] = tt
collect-IsFrom ((p, outcome) ∷ calls) = rw (collect_cons (p, outcome) calls) (
    All-append (IsFrom ((p, outcome) ∷ calls)) (of_option (ask (p, outcome)).0) (collect calls)
      (All-imp _ (IsFrom ((p, outcome) ∷ calls)) _ (λ r h. inl h) (ask-source p outcome))
      (All-imp (IsFrom calls) (IsFrom ((p, outcome) ∷ calls)) _ (λ r h. inr h)
        (collect-IsFrom calls)))

module _ (content_key lower : String → String) where
  -- Every result of a federated search names as its source a provider that was active, whatever the
  -- providers claim.
  pub federated_search-IsFrom :
      (query : String) (force_federation : Bool) (limit : ℕ)
      (calls : List (MemoryProvider × Outcome))
      → All (IsFrom calls) (federated_search content_key lower query force_federation limit calls).0
  unfolding federated_search
  federated_search-IsFrom query force_federation limit calls =
      elim (Bool-cases (not force_federation && is_internal (classify_query (lower query)))) [
        | inl e ↦ rw e tt
        | inr e ↦
            rw e (All-merge content_key (IsFrom calls) limit (collect calls) (collect-IsFrom calls))
      ]
