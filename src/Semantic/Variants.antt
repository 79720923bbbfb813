-- ===== src/Semantic/Variants.antt =====
-- Keys that differ in case only, for `add_node` of src/engram/semantic/graph.py: a loaded graph gets no
-- second one.
use engram_mem.Base.{
  ℕ, suc, ◌⊎◌, ◌≤◌, ◌≡◌, refl, sym, ◌∙◌, ap, inl, inr, String, Bool, true, false, not, Option, none,
  some, List, [], ◌∷◌, count_by, arith, ◌==◌, str_eq, str_eq_iff, str_eq_refl, if◌then◌else◌, ◌>>=◌,
  Bool-cases, Option-cases,
}
use mathlib.Core.Option.{some-injective, none-ne-some}
use mathlib.Core.Path.{subst}
use engram_mem.Base.Dict.{get, put}
use engram_mem.Semantic.{SemanticNode, new_node, node_key}
use engram_mem.Semantic.Writes.{keys_of, variant, renamed, write_as, name_in}
use engram_mem.Semantic.Read.{held}

abbrev pub is_present : List (String × Option SemanticNode) → String → Bool
is_present d key = elim (get d key) [ none ↦ false | some held ↦ true ]

count-put :
    (p : String → Bool) (d : List (String × Option SemanticNode)) (k : String)
    (v : Option SemanticNode)
    → count_by p (keys_of (put d k v)) ≡ elim (get d k) [
      | none ↦ if p k then suc (count_by p (keys_of d)) else count_by p (keys_of d)
      | some held ↦ count_by p (keys_of d)
    ]
unfolding get put
count-put p [] k v = ground arith
count-put p ((here, old) ∷ rest) k v = ground (arith, count-put p rest k v, str_eq_iff here k)

module _ (lower : String → String) where
  -- The keys that are equal to `t` when their case is left out.
  abbrev pub alike : String → List String → ℕ
  alike t = count_by (λ k. str_eq (lower k) t)

  alike-variant-none :
      (key : String) (d : List (String × Option SemanticNode))
      → variant lower key (keys_of d) ≡ none
      → get d key ≡ none
      → alike (lower key) (keys_of d) ≡ 0
  unfolding variant get
  alike-variant-none key [] e h = refl
  alike-variant-none key ((here, old) ∷ rest) e h =
      ground (arith, alike-variant-none key rest, str_eq_iff here key, e, h)

  alike-present :
      (key t : String) (d : List (String × Option SemanticNode))
      → is_present d key ≡ true
      → str_eq (lower key) t ≡ true
      → 1 ≤ alike t (keys_of d)
  unfolding get
  alike-present key t [] e h = ground (arith, e)
  alike-present key t ((here, old) ∷ rest) e h =
      ground (arith, alike-present key t rest, str_eq_iff here key, e, h)

  variant-alike :
      (key found : String) (d : List (String × Option SemanticNode))
      → variant lower key (keys_of d) ≡ some found
      → str_eq (lower found) (lower key) ≡ true
  unfolding variant
  variant-alike key found [] e = ground (arith, e)
  variant-alike key found ((here, old) ∷ rest) e = ground (arith, variant-alike key found rest, e)

  variant-present :
      (key found : String) (d : List (String × Option SemanticNode))
      → variant lower key (keys_of d) ≡ some found
      → is_present d found ≡ true
  unfolding variant get
  variant-present key found [] e = ground (arith, e)
  variant-present key found ((here, old) ∷ rest) e =
      ground (arith, variant-present key found rest, str_eq_refl here, e)

  -- What `add_node` writes: under a key that is equal up to case and a new one only if there is none.
  pub record Resolved (n : SemanticNode) (d : List (String × Option SemanticNode)) (key : String)
      (m : SemanticNode) : Type 0 where
    pub is_alike : str_eq (lower key) (lower (node_key n)) ≡ true
    pub same_attributes : m.attributes ≡ n.attributes
    pub new_only : (is_present d key ≡ true) ⊎ (alike (lower (node_key n)) (keys_of d) ≡ 0)

  presence :
      (d : List (String × Option SemanticNode)) (key : String)
      → variant lower key (keys_of d) ≡ none
      → (is_present d key ≡ true) ⊎ (alike (lower key) (keys_of d) ≡ 0)
  presence d key e = elim (Option-cases (get d key)) [
    | inl g ↦ inr (alike-variant-none key d e g)
    | inr (v, g) ↦ inl (rw (g, is_present) refl)
  ]

  renamed-attributes :
      (n m : SemanticNode) (name : Option String)
      → name >>= (λ name. some (new_node n.type name n.attributes)) ≡ some m
      → m.attributes ≡ n.attributes
  unfolding new_node
  renamed-attributes n m none e = ground (arith, e)
  renamed-attributes n m (some name) e = ap (λ x. x.attributes) (sym (some-injective _ _ e))

  renamed-Resolved :
      (n : SemanticNode) (d : List (String × Option SemanticNode)) (found : String)
      (m : Option SemanticNode) (w : String × SemanticNode)
      → variant lower (node_key n) (keys_of d) ≡ some found
      → renamed n found ≡ m
      → m >>= (λ n'. some (found, n')) ≡ some w
      → Resolved n d w.0 w.1
  renamed-Resolved n d found none w q z e = absurd (none-ne-some _ e)
  renamed-Resolved n d found (some m) w q z e =
      subst (λ w. Resolved n d w.0 w.1) (some-injective _ _ e)
        (record {
          is_alike = variant-alike (node_key n) found d q;
          same_attributes = renamed-attributes n m (name_in found) z;
          new_only = inl (variant-present (node_key n) found d q);
        })

  pub write_as-Resolved :
      (n : SemanticNode) (d : List (String × Option SemanticNode)) (other : Option String)
      (w : String × SemanticNode)
      → variant lower (node_key n) (keys_of d) ≡ other
      → write_as n other ≡ some w
      → Resolved n d w.0 w.1
  write_as-Resolved n d none w q e =
      subst (λ w. Resolved n d w.0 w.1) (some-injective _ _ e)
        (record {
          is_alike = str_eq_refl _;
          same_attributes = refl;
          new_only = presence d (node_key n) q;
        })
  write_as-Resolved n d (some found) w q e = renamed-Resolved n d found (renamed n found) w q refl e

  alike-put_absent :
      (d : List (String × Option SemanticNode)) (key t : String) (v : Option SemanticNode)
      → get d key ≡ none
      → alike t (keys_of (put d key v))
        ≡ (if str_eq (lower key) t then suc (alike t (keys_of d)) else alike t (keys_of d))
  alike-put_absent d key t v e =
      subst
        (λ o. alike t (keys_of (put d key v)) ≡ elim o [
          | none ↦ if str_eq (lower key) t then suc (alike t (keys_of d)) else alike t (keys_of d)
          | some held ↦ alike t (keys_of d)
        ])
        e (count-put (λ k. str_eq (lower k) t) d key v)

  alike-put_present :
      (d : List (String × Option SemanticNode)) (key t : String) (v w : Option SemanticNode)
      → get d key ≡ some w
      → alike t (keys_of (put d key v)) ≡ alike t (keys_of d)
  alike-put_present d key t v w e =
      subst
        (λ o. alike t (keys_of (put d key v)) ≡ elim o [
          | none ↦ if str_eq (lower key) t then suc (alike t (keys_of d)) else alike t (keys_of d)
          | some held ↦ alike t (keys_of d)
        ])
        e (count-put (λ k. str_eq (lower k) t) d key v)

  pub is_new-alike :
      (n m : SemanticNode) (d : List (String × Option SemanticNode)) (key : String)
      → Resolved n d key m
      → alike (lower (node_key n)) (keys_of d) ≤ 1
      → not (is_present d key) ≡ (alike (lower (node_key n)) (keys_of d) == 0)
  is_new-alike n m d key r h = elim r.new_only [
    | inl p ↦ ground (arith, alike-present key (lower (node_key n)) d p r.is_alike, p, h)
    | inr z ↦ elim (Bool-cases (is_present d key)) [
      | inl p ↦ absurd (ground (arith, alike-present key (lower (node_key n)) d p r.is_alike, z))
      | inr p ↦ ground (arith, p, z)
    ]
  ]

  pub own-put :
      (n m : SemanticNode) (d : List (String × Option SemanticNode)) (key : String)
      → Resolved n d key m
      → alike (lower (node_key n)) (keys_of d) ≤ 1
      → alike (lower (node_key n)) (keys_of (put d key (some m))) ≡ 1
  own-put n m d key r h = elim (Option-cases (get d key)) [
    | inl e ↦
        let absent : is_present d key ≡ false = rw (e, is_present) refl in
        let added = alike-put_absent d key (lower (node_key n)) (some m) e in
        elim r.new_only [
          | inl p ↦ absurd (ground (arith, p, absent))
          | inr z ↦ ground (arith, added, r.is_alike, z)
        ]
    | inr (w, e) ↦
        let there : is_present d key ≡ true = rw (e, is_present) refl in
        let kept = alike-put_present d key (lower (node_key n)) (some m) w e in
        let low = alike-present key (lower (node_key n)) d there r.is_alike in
        omega (arith, kept, low, h)
  ]

  pub alike-put :
      (n m : SemanticNode) (d : List (String × Option SemanticNode)) (key t : String)
      → Resolved n d key m
      → alike (lower (node_key n)) (keys_of d) ≤ 1
      → alike t (keys_of d) ≤ 1
      → alike t (keys_of (put d key (some m))) ≤ 1
  alike-put n m d key t r h ht = elim (Bool-cases (str_eq (lower key) t)) [
    | inl e ↦
        let same : lower (node_key n) ≡ t =
          sym ((str_eq_iff _ _).0 r.is_alike) ∙ (str_eq_iff _ _).0 e in
        let own = own-put n m d key r h in
        subst (λ t. alike t (keys_of (put d key (some m))) ≤ 1) same (omega (arith, own))
    | inr e ↦ elim (Option-cases (get d key)) [
      | inl g ↦ ground (arith, alike-put_absent d key t (some m) g, e, ht)
      | inr (w, g) ↦ omega (arith, alike-put_present d key t (some m) w g, ht)
    ]
  ]
