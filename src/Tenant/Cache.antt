-- ===== src/Tenant/Cache.antt =====
-- The keys of the caches: what a request does to them.

use engram_mem.Base.{
  ℕ, suc, ◌+◌, ◌≤◌, ◌<◌, ◌≡◌, refl, ap, String, Bool, none, some, List, [], ◌∷◌, ◌++◌, arith,
  length, count_by, str_eq, if◌then◌else◌, inl, inr, Bool-cases,
}
use engram_mem.Base.Dict.{get, pop}

-- The list without the id.
unfoldable pub without : String → List String → List String
without tid [] = []
without tid (t ∷ ts) = let rest = without tid ts in if str_eq t tid then rest else t ∷ rest

-- The ids with the newest request last, after a request of one more.
unfoldable pub requested : String → List String → List String
requested tid ids = without tid ids ++ tid ∷ []

abbrev pub occurrences : String → List String → ℕ
occurrences tid ids = count_by (λ t. str_eq t tid) ids

module _ {V : Type 0} where
  abbrev pub keys : List (String × V) → List String
  keys [] = []
  keys ((tid, value) ∷ rest) = tid ∷ keys rest

  pub keys-append : (d e : List (String × V)) → keys (d ++ e) ≡ keys d ++ keys e
  keys-append [] e = refl
  keys-append ((tid, value) ∷ d) e = ap (λ l. tid ∷ l) (keys-append d e)

  pub length-keys : (d : List (String × V)) → length (keys d) ≡ length d
  length-keys [] = refl
  length-keys ((tid, value) ∷ d) = ap suc (length-keys d)

  pub keys-pop : (d : List (String × V)) (tid : String) → keys (pop d tid) ≡ without tid (keys d)
  unfolding pop without
  keys-pop [] tid = refl
  keys-pop ((here, value) ∷ d) tid = elim (Bool-cases (str_eq here tid)) [
    | inl e ↦ rw e (keys-pop d tid)
    | inr e ↦ rw e (ap (λ l. here ∷ l) (keys-pop d tid))
  ]

  pub get-none :
      (d : List (String × V)) (tid : String) → get d tid ≡ none → occurrences tid (keys d) ≡ 0
  unfolding get
  get-none [] tid h = refl
  get-none ((here, value) ∷ d) tid h = ground (arith, get-none d tid)

  pub get-some :
      (d : List (String × V)) (tid : String) (value : V)
      → get d tid ≡ some value
      → 0 < occurrences tid (keys d)
  unfolding get
  get-some [] tid value h = absurd (ground arith)
  get-some ((here, v) ∷ d) tid value h = ground (arith, get-some d tid value)

pub without-append :
    (tid : String) (xs ys : List String) → without tid (xs ++ ys) ≡ without tid xs ++ without tid ys
unfolding without
without-append tid [] ys = refl
without-append tid (x ∷ xs) ys = elim (Bool-cases (str_eq x tid)) [
  | inl e ↦ rw e (without-append tid xs ys)
  | inr e ↦ rw e (ap (λ l. x ∷ l) (without-append tid xs ys))
]

pub without-absent :
    (tid : String) (xs : List String) → occurrences tid xs ≡ 0 → without tid xs ≡ xs
unfolding without
without-absent tid [] h = refl
without-absent tid (x ∷ xs) h = ground (arith, without-absent tid xs)

pub count-append {ℓ} :
    {A : Type ℓ} (p : A → Bool) (xs ys : List A)
    → count_by p (xs ++ ys) ≡ count_by p xs + count_by p ys
count-append p [] ys = omega arith
count-append p (x ∷ xs) ys = ground (arith, count-append p xs ys)

pub count-without-le :
    (asked tid : String) (xs : List String)
    → occurrences asked (without tid xs) ≤ occurrences asked xs
unfolding without
count-without-le asked tid [] = omega arith
count-without-le asked tid (x ∷ xs) = ground (arith, count-without-le asked tid xs)

pub count-without_self : (tid : String) (xs : List String) → occurrences tid (without tid xs) ≡ 0
unfolding without
count-without_self tid [] = refl
count-without_self tid (x ∷ xs) = ground (arith, count-without_self tid xs)

pub length-without_once :
    (tid : String) (xs : List String)
    → occurrences tid xs ≡ 1
    → length (without tid xs) + 1 ≡ length xs
unfolding without
length-without_once tid [] h = absurd (omega arith)
length-without_once tid (x ∷ xs) h = elim (Bool-cases (str_eq x tid)) [
  | inl e ↦ let same = without-absent tid xs (ground (arith, h)) in rw e (ground (arith, same))
  | inr e ↦ rw e (omega (arith, length-without_once tid xs (ground (arith, h))))
]
