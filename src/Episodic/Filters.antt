-- ===== src/Episodic/Filters.antt =====
-- What the filters of src/engram/episodic/qdrant_backend.py and episodic/search.py ask of a memory.
use mathlib.Core.Path.{subst}
use text.Mathlib.Text.{starts_with}
use engram_mem.Base.{
  ◌≡◌, refl, ap, inl, inr, ◌⊎◌, String, true, false, not, ◌&&◌, ◌||◌, any_of, Option, none, some,
  List, [], ◌∷◌, ◌++◌, arith, Bool-cases, All, str_eq, str_eq_iff, if◌then◌else◌,
}
use engram_mem.Episodic.{
  Point, contains, FieldValue, word, Clause, equals, operators, joined, FieldCondition, has_value,
  conditions_of, build_filter, passes,
}
use engram_mem.Episodic.Search.{type_clauses}

-- What a clause of a filter asks of a memory: plain values and `$eq` under a key without a dollar.
abbrev pub IsMet : Point → Clause → Type 0
IsMet p (equals key value) = (starts_with key "$" || has_value key value p) ≡ true
IsMet p (operators key ops) =
    All (λ op. (starts_with key "$" || not (str_eq op.0 "$eq") || has_value key op.1 p) ≡ true) ops
IsMet p (joined op clauses) = Unit

passes-append :
    (p : Point) (xs ys : List FieldCondition) → passes (xs ++ ys) p ≡ (passes xs p && passes ys p)
unfolding passes
passes-append p [] ys = refl
passes-append p (x ∷ xs) ys = ground (arith, passes-append p xs ys)

conditions_of-met :
    (key : String) (ops : List (String × FieldValue)) (p : Point)
    → passes (conditions_of key ops) p ≡ true
    → IsMet p (operators key ops)
unfolding conditions_of passes
conditions_of-met key [] p h = tt
conditions_of-met key ((op, value) ∷ ops) p h = elim (Bool-cases (str_eq op "$eq")) [
  | inl e ↦ (ground (arith, e, h), conditions_of-met key ops p (ground (arith, e, h)))
  | inr e ↦ (ground (arith, e), conditions_of-met key ops p (ground (arith, e, h)))
]

skipped :
    (key : String) (ops : List (String × FieldValue)) (p : Point)
    → starts_with key "$" ≡ true
    → IsMet p (operators key ops)
skipped key [] p e = tt
skipped key (op ∷ ops) p e = (ground (arith, e), skipped key ops p e)

pub build_filter-met :
    (where_ : List Clause) (p : Point)
    → passes (build_filter where_) p ≡ true
    → All (IsMet p) where_
unfolding build_filter passes
build_filter-met [] p h = tt
build_filter-met (equals key value ∷ where_) p h = elim (Bool-cases (starts_with key "$")) [
  | inl e ↦ (ground (arith, e), build_filter-met where_ p (ground (arith, e, h)))
  | inr e ↦ (ground (arith, e, h), build_filter-met where_ p (ground (arith, e, h)))
]
build_filter-met (operators key ops ∷ where_) p h = elim (Bool-cases (starts_with key "$")) [
  | inl e ↦ (skipped key ops p e, build_filter-met where_ p (ground (arith, e, h)))
  | inr e ↦
      let both = passes-append p (conditions_of key ops) (build_filter where_) in
      (
        conditions_of-met key ops p (ground (arith, e, h, both)),
        build_filter-met where_ p (ground (arith, e, h, both)),
      )
]
build_filter-met (joined op clauses ∷ where_) p h = (tt, build_filter-met where_ p h)

-- What `filtered_search` asks of a memory.
abbrev pub IsOfType : Option String → Point → Type 0
IsOfType none p = Unit
IsOfType (some type) p = (type ≡ "") ⊎ (p.memory_type ≡ some type)

abbrev pub IsShared : List String → Point → Type 0
IsShared [] p = Unit
IsShared (e ∷ entities) p = any_of (λ x. contains x p.entities) (e ∷ entities) ≡ true

memory_type_of :
    (found : Option String) (type : String)
    → elim found [ none ↦ false | some t ↦ str_eq t type ] ≡ true
    → found ≡ some type
memory_type_of none type h = absurd (ground (arith, h))
memory_type_of (some t) type h = ap some ((str_eq_iff t type).0 h)

has_value-type :
    (type : String) (p : Point)
    → has_value "memory_type" (word type) p ≡ true
    → p.memory_type ≡ some type
unfolding has_value
has_value-type type p h = memory_type_of p.memory_type type h

asked_type :
    (type : String) (p : Point)
    → str_eq type "" ≡ false
    → All (IsMet p) (type_clauses (some type))
    → has_value "memory_type" (word type) p ≡ true
asked_type type p e h =
    let met : All (IsMet p) (operators "memory_type" (("$eq", word type) ∷ []) ∷ []) =
      subst
        (λ b.
          All (IsMet p) (if b then [] else operators "memory_type" (("$eq", word type) ∷ []) ∷ []))
        e h in
    met.0.0

pub type_clauses-IsOfType :
    (memory_type : Option String) (p : Point)
    → All (IsMet p) (type_clauses memory_type)
    → IsOfType memory_type p
type_clauses-IsOfType none p h = tt
type_clauses-IsOfType (some type) p h = elim (Bool-cases (str_eq type "")) [
  | inl e ↦ inl ((str_eq_iff type "").0 e)
  | inr e ↦ inr (has_value-type type p (asked_type type p e h))
]
