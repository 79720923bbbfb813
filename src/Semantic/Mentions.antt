-- ===== src/Semantic/Mentions.antt =====
-- Which nodes a memory mentions, for src/engram/semantic/orphan_linker.py.
use engram_mem.Base.{
  ℕ, ◌+◌, ◌≤◌, ◌≡◌, refl, sym, ◌∙◌, ap, inl, inr, String, Bool, true, false, not, ◌&&◌, ◌||◌, none,
  some, List, [], ◌∷◌, ◌++◌, any_of, filter_by, count_by, arith, str_eq, str_eq_iff, if◌then◌else◌,
  Bool-cases,
}
use engram_mem.Base.Texts.{strip}
use engram_mem.Base.Dict.{get, put, get-put}
use engram_mem.Semantic.{SemanticNode, node_key}
use engram_mem.Semantic.Merge.{contains}
use engram_mem.Semantic.Orphans.{present_of, named_entities, keys_at, add_all, index_names}
use engram_mem.Semantic.Tally.{not_counted}

-- The keys of a memory are a set.
pub IsOnce : List String → Type 0
IsOnce xs = (x : String) → count_by (str_eq x) xs ≤ 1

count-snoc :
    (x y : String) (xs : List String)
    → count_by (str_eq x) (xs ++ y ∷ []) ≡ count_by (str_eq x) xs + (if str_eq x y then 1 else 0)
count-snoc x y [] = ground arith
count-snoc x y (z ∷ xs) = ground (arith, count-snoc x y xs)

snoc-IsOnce :
    (y : String) (xs : List String) → contains y xs ≡ false → IsOnce xs → IsOnce (xs ++ y ∷ [])
unfolding IsOnce
snoc-IsOnce y xs new h x = elim (Bool-cases (str_eq x y)) [
  | inl e ↦
      let same = ap (λ z. count_by (str_eq z) xs) ((str_eq_iff x y).0 e) in
      ground (arith, count-snoc x y xs, not_counted y xs new, same)
  | inr e ↦ ground (arith, count-snoc x y xs, h x, e)
]

add_all-IsOnce : (keys present : List String) → IsOnce present → IsOnce (add_all keys present)
unfolding add_all
add_all-IsOnce [] present h = h
add_all-IsOnce (k ∷ keys) present h = elim (Bool-cases (contains k present)) [
  | inl e ↦ rw (e, add_all) (add_all-IsOnce keys present h)
  | inr e ↦ rw (e, add_all) (add_all-IsOnce keys (present ++ k ∷ []) (snoc-IsOnce k present e h))
]

contains-snoc :
    (x y : String) (xs : List String) → contains x (xs ++ y ∷ []) ≡ (contains x xs || str_eq x y)
contains-snoc x y [] = ground arith
contains-snoc x y (z ∷ xs) = ground (arith, contains-snoc x y xs)

-- An added key is one of the keys.
contains-add_all :
    (x : String) (keys present : List String)
    → contains x (add_all keys present) ≡ true
    → (contains x present || contains x keys) ≡ true
unfolding add_all
contains-add_all x [] present h = ground (arith, h)
contains-add_all x (k ∷ keys) present h = elim (Bool-cases (contains k present)) [
  | inl e ↦ ground (arith, contains-add_all x keys present, e, h)
  | inr e ↦
      ground (arith, contains-add_all x keys (present ++ k ∷ []), contains-snoc x k present, e, h)
]

contains-append :
    (x : String) (xs ys : List String) → contains x (xs ++ ys) ≡ (contains x xs || contains x ys)
contains-append x [] ys = refl
contains-append x (y ∷ xs) ys = ground (arith, contains-append x xs ys)

pub filter_by-contains :
    (x : String) (q : String → Bool) (xs : List String)
    → contains x (filter_by q xs) ≡ true
    → contains x xs ≡ true
filter_by-contains x q [] h = h
filter_by-contains x q (y ∷ xs) h = ground (arith, h, filter_by-contains x q xs)

pub filter_by-IsOnce : (q : String → Bool) (xs : List String) → IsOnce xs → IsOnce (filter_by q xs)
unfolding IsOnce
filter_by-IsOnce q xs h x = omega (arith, count-kept q xs x, h x)
  where
    count-kept :
        (q : String → Bool) (xs : List String) (x : String)
        → count_by (str_eq x) (filter_by q xs) ≤ count_by (str_eq x) xs
    count-kept q [] x = omega arith
    count-kept q (y ∷ xs) x = ground (arith, count-kept q xs x)

pub empty-IsOnce : IsOnce []
unfolding IsOnce
empty-IsOnce x = omega arith

pub once : (xs : List String) (x : String) → IsOnce xs → count_by (str_eq x) xs ≤ 1
unfolding IsOnce
once xs x h = h x

pub both-le :
    (m : ℕ) (a b a' b' : Bool)
    → m ≤ (if a && b then 1 else 0)
    → (a ≡ true → a' ≡ true)
    → (b ≡ true → b' ≡ true)
    → m ≤ (if a' && b' then 1 else 0)
both-le m true true a' b' h f g = ground (arith, h, f refl, g refl)
both-le m true false a' b' h f g = omega (arith, h)
both-le m false b a' b' h f g = omega (arith, h)

module _ (fold : String → String) where
  -- An entity that is not blank is the name, up to case, of a node that has the key.
  abbrev pub is_mentioned : List SemanticNode → String → List String → Bool
  is_mentioned nodes key memory =
      any_of
        (λ e.
          not (str_eq (strip e) "")
          && any_of (λ n. str_eq (node_key n) key && str_eq (fold n.name) (fold (strip e))) nodes)
        memory

  pub present_of-IsOnce :
      (index : List (String × List String)) (entities present : List String)
      → IsOnce present
      → IsOnce (present_of fold index entities present)
  unfolding present_of
  present_of-IsOnce index [] present h = h
  present_of-IsOnce index (e ∷ entities) present h =
      present_of-IsOnce index entities (add_all (keys_at index (fold e)) present)
        (add_all-IsOnce (keys_at index (fold e)) present h)

  contains-present_of :
      (index : List (String × List String)) (entities present : List String) (x : String)
      → contains x (present_of fold index entities present) ≡ true
      → (contains x present || any_of (λ e. contains x (keys_at index (fold e))) entities) ≡ true
  unfolding present_of
  contains-present_of index [] present x h = ground (arith, h)
  contains-present_of index (e ∷ entities) present x h = ground (
    arith,
    contains-present_of index entities (add_all (keys_at index (fold e)) present) x h,
    contains-add_all x (keys_at index (fold e)) present,
  )

  keys_at-put :
      (index : List (String × List String)) (name asked : String) (keys : List String)
      → keys_at (put index name keys) asked
        ≡ (if str_eq name asked then keys else keys_at index asked)
  keys_at-put index name asked keys =
      ap (λ o. elim o [ none ↦ [] | some found ↦ found ]) (get-put index name keys asked)
      ∙ found_or (str_eq name asked)
    where
      found_or :
          (b : Bool)
          → elim (if b then some keys else get index asked) [ none ↦ [] | some found ↦ found ]
            ≡ (if b then keys else keys_at index asked)
      found_or true = refl
      found_or false = refl

  keys_at-added :
      (index : List (String × List String)) (name asked key x : String)
      → contains x (keys_at (put index name (keys_at index name ++ key ∷ [])) asked)
        ≡ (contains x (keys_at index asked) || (str_eq key x && str_eq name asked))
  keys_at-added index name asked key x =
      ap (contains x) (keys_at-put index name asked (keys_at index name ++ key ∷ []))
      ∙ elim (Bool-cases (str_eq name asked)) [
        | inl e ↦ rw (e) (
            contains-snoc x key (keys_at index name)
            ∙ ground (
              arith,
              ap (λ k. contains x (keys_at index k)) ((str_eq_iff name asked).0 e),
              str_eq_iff x key,
              str_eq_iff key x,
            ))
        | inr e ↦ rw (e) (ground arith)
      ]

  or_assoc : (a b c d : Bool) → d ≡ (a || b) → (d || c) ≡ (a || (b || c))
  or_assoc a b c d h = ground (arith, h)

  contains-index_names :
      (nodes : List SemanticNode) (index : List (String × List String)) (name x : String)
      → contains x (keys_at (index_names fold nodes index) name) ≡ (
          contains x (keys_at index name)
          || any_of (λ n. str_eq (node_key n) x && str_eq (fold n.name) name) nodes)
  unfolding index_names
  contains-index_names [] index name x = ground arith
  contains-index_names (n ∷ nodes) index name x =
      contains-index_names nodes
        (put index (fold n.name) (keys_at index (fold n.name) ++ node_key n ∷ [])) name x
      ∙ or_assoc _ _ _ _ (keys_at-added index (fold n.name) name (node_key n) x)

  any_named :
      (f : String → Bool) (memory : List String)
      → any_of f (named_entities memory)
        ≡ any_of (λ e. not (str_eq (strip e) "") && f (strip e)) memory
  unfolding named_entities
  any_named f [] = refl
  any_named f (e ∷ memory) = ground (arith, any_named f memory)

  any_same :
      (f g : String → Bool) (xs : List String)
      → ((x : String) → f x ≡ g x)
      → any_of f xs ≡ any_of g xs
  any_same f g [] h = refl
  any_same f g (x ∷ xs) h = ground (arith, h x, any_same f g xs h)

  contains-index :
      (nodes : List SemanticNode) (name x : String)
      → contains x (keys_at (index_names fold nodes []) name)
        ≡ any_of (λ n. str_eq (node_key n) x && str_eq (fold n.name) name) nodes
  unfolding get
  contains-index nodes name x = contains-index_names nodes [] name x

  -- What is present in a memory is mentioned in it.
  pub present-is_mentioned :
      (nodes : List SemanticNode) (memory : List String) (x : String)
      → contains x (present_of fold (index_names fold nodes []) (named_entities memory) []) ≡ true
      → is_mentioned nodes x memory ≡ true
  present-is_mentioned nodes memory x h =
      sym (
        any_same _ _ (named_entities memory) (λ e. contains-index nodes (fold e) x)
        ∙ any_named
            (λ e. any_of (λ n. str_eq (node_key n) x && str_eq (fold n.name) (fold e)) nodes)
            memory)
      ∙ contains-present_of (index_names fold nodes []) (named_entities memory) [] x h
