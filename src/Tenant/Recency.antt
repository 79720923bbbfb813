-- ===== src/Tenant/Recency.antt =====
-- The caches keep the tenants that were asked for last.
use mathlib.Core.List.{append_assoc}
use engram_mem.Base.{
  ℕ, suc, ◌+◌, ◌≤◌, ◌<◌, ◌≡◌, refl, ap, sym, ◌∙◌, String, false, List, [], ◌∷◌, ◌++◌, arith, length,
  length-append, ltb, str_eq, str_eq_iff, if◌then◌else◌, inl, inr, lt→ltb, dec_lt, Bool-cases,
}
use engram_mem.Base.Dict.{pop}
use engram_mem.Tenant.{move_to_end, add, evict}
use engram_mem.Tenant.Cache.{
  without, requested, occurrences, keys, keys-append, length-keys, keys-pop, without-append,
  without-absent, count-append, count-without-le, count-without_self, length-without_once,
}

-- `kept` are the newest of all ids, at most the limit of them and as many as there are.
pub record IsRecent (limit : ℕ) (all kept : List String) : Type 0 where
  pub older : List String
  pub split : all ≡ older ++ kept
  pub bound : length kept ≤ limit
  pub full : 0 < length older → length kept ≡ limit
  pub distinct : (tid : String) → occurrences tid all ≤ 1

requested-distinct :
    (tid : String) (ids : List String)
    → ((asked : String) → occurrences asked ids ≤ 1)
    → (asked : String) → occurrences asked (requested tid ids) ≤ 1
unfolding requested
requested-distinct tid ids h asked = ground (
  arith,
  count-append (λ t. str_eq t asked) (without tid ids) (tid ∷ []),
  count-without-le asked tid ids,
  count-without_self tid ids,
  str_eq_iff tid asked,
  h asked,
)

in_both :
    (tid : String) (limit : ℕ) (all kept : List String) (r : IsRecent limit all kept)
    → occurrences tid r.older + occurrences tid kept ≤ 1
in_both tid limit all kept r = omega (
  arith,
  r.distinct tid,
  ap (occurrences tid) r.split,
  count-append (λ t. str_eq t tid) r.older kept,
)

gt→ltb : (a b : ℕ) → b ≤ a → ltb a b ≡ false
gt→ltb a b h = ground arith

-- A request of an id that is kept.
pub hit_keys :
    (tid : String) (limit : ℕ) (all kept : List String)
    → IsRecent limit all kept
    → 0 < occurrences tid kept
    → IsRecent limit (requested tid all) (requested tid kept)
unfolding requested
hit_keys tid limit all kept r here =
    let one = in_both tid limit all kept r in
    let absent = without-absent tid r.older (omega arith) in
    let size = length-without_once tid kept (omega arith) in
    let added = length-append (without tid kept) (tid ∷ []) in
    record {
      older = r.older;
      split =
          rw (r.split, without-append tid r.older kept, absent)
            (append_assoc r.older (without tid kept) (tid ∷ []));
      bound = omega (arith, r.bound);
      full = λ h. omega (arith, r.full h);
      distinct = requested-distinct tid all r.distinct;
    }

-- The keys without the oldest, where they are too many.
unfoldable pub drop_over : ℕ → List String → List String
drop_over limit [] = []
drop_over limit (k ∷ ks) = if ltb limit (length (k ∷ ks)) then ks else k ∷ ks

keys-evict :
    {V : Type 0}
    → (limit : ℕ) (d : List (String × V)) → keys (evict limit d).0 ≡ drop_over limit (keys d)
unfolding evict drop_over
keys-evict limit [] = refl
keys-evict limit ((k, v) ∷ d) =
    rw (length-keys d)
      (elim (Bool-cases (ltb limit (suc (length d)))) [ inl e ↦ rw e refl | inr e ↦ rw e refl ])

length-without-le : (tid : String) (xs : List String) → length (without tid xs) ≤ length xs
unfolding without
length-without-le tid [] = omega arith
length-without-le tid (x ∷ xs) = ground (arith, length-without-le tid xs)

requested_split :
    (tid : String) (limit : ℕ) (all kept : List String) (r : IsRecent limit all kept)
    → occurrences tid kept ≡ 0
    → requested tid all ≡ without tid r.older ++ (kept ++ tid ∷ [])
unfolding requested
requested_split tid limit all kept r gone =
    rw (r.split, without-append tid r.older kept, without-absent tid kept gone)
      (append_assoc (without tid r.older) kept (tid ∷ []))

-- A new id where there is room for it.
added-IsRecent :
    (tid : String) (limit : ℕ) (all kept : List String)
    → IsRecent limit all kept
    → occurrences tid kept ≡ 0
    → length kept < limit
    → IsRecent limit (requested tid all) (kept ++ tid ∷ [])
added-IsRecent tid limit all kept r gone room = record {
  older = without tid r.older;
  split = requested_split tid limit all kept r gone;
  bound = omega (arith, length-append kept (tid ∷ []));
  full = λ h. absurd (
      omega (
        arith,
        length-without-le tid r.older,
        r.full (omega (arith, h, length-without-le tid r.older)),
      ));
  distinct = requested-distinct tid all r.distinct;
}

-- A new id that puts out the oldest.
pushed-IsRecent :
    (tid : String) (limit : ℕ) (all : List String) (k : String) (ks : List String)
    → IsRecent limit all (k ∷ ks)
    → occurrences tid (k ∷ ks) ≡ 0
    → suc (length ks) ≡ limit
    → IsRecent limit (requested tid all) (ks ++ tid ∷ [])
pushed-IsRecent tid limit all k ks r gone size =
    let added = length-append ks (tid ∷ []) in
    record {
      older = without tid r.older ++ k ∷ [];
      split =
          requested_split tid limit all (k ∷ ks) r gone
          ∙ sym (append_assoc (without tid r.older) (k ∷ []) (ks ++ tid ∷ []));
      bound = omega (arith, added);
      full = λ h. omega (arith, added);
      distinct = requested-distinct tid all r.distinct;
    }

pub miss_keys :
    (tid : String) (limit : ℕ) (all kept : List String)
    → IsRecent limit all kept
    → occurrences tid kept ≡ 0
    → 0 < limit
    → IsRecent limit (requested tid all) (drop_over limit (kept ++ tid ∷ []))
unfolding drop_over
miss_keys tid limit all [] r gone pos =
    rw (gt→ltb limit 1 (omega arith)) (added-IsRecent tid limit all [] r gone pos)
miss_keys tid limit all (k ∷ ks) r gone pos = elim (dec_lt (suc (length ks)) limit) [
  | yes room ↦
      rw (gt→ltb limit (suc (length (ks ++ tid ∷ []))) (omega (arith, length-append ks (tid ∷ []))))
        (added-IsRecent tid limit all (k ∷ ks) r gone room)
  | no tight ↦
      rw (lt→ltb limit (suc (length (ks ++ tid ∷ []))) (omega (arith, length-append ks (tid ∷ []))))
        (pushed-IsRecent tid limit all k ks r gone (omega (arith, r.bound)))
]

-- The keys of a cache after a request, whether it holds the id or not.
pub keys-hit :
    {V : Type 0}
    → (d : List (String × V)) (tid : String) (value : V)
    → keys (move_to_end d tid value) ≡ requested tid (keys d)
unfolding move_to_end requested
keys-hit d tid value =
    keys-append (pop d tid) ((tid, value) ∷ []) ∙ ap (λ l. l ++ tid ∷ []) (keys-pop d tid)

pub keys-miss :
    {V : Type 0}
    → (limit : ℕ) (d : List (String × V)) (tid : String) (value : V)
    → keys (evict limit (add d tid value)).0 ≡ drop_over limit (keys d ++ tid ∷ [])
unfolding add
keys-miss limit d tid value =
    keys-evict limit (d ++ (tid, value) ∷ [])
    ∙ ap (drop_over limit) (keys-append d ((tid, value) ∷ []))
