-- ===== src/Semantic/OneKey.antt =====
-- `add_node` of src/engram/semantic/graph.py on a loaded graph whose keys differ by more than case.
use engram_mem.Base.{
  ◌≤◌, ◌≡◌, refl, sym, ◌∙◌, ap, String, Bool, true, false, Option, none, some, ◌==◌, str_eq,
  str_eq_refl, if◌then◌else◌,
}
use mathlib.Core.Path.{subst}
use mathlib.Core.Option.{some-injective, none-ne-some}
use engram_mem.Semantic.{SemanticNode, node_key, Networkx}
use engram_mem.Semantic.Graph.{Call, saving, SemanticGraph, ◌>>>◌, ensure_loaded_lem}
use engram_mem.Semantic.Writes.{
  keys_of, resolve_node, has, log, write_node, write_resolved, add_node,
}
use engram_mem.Semantic.Read.{held, get_node}
use engram_mem.Semantic.Agree.{held-add_node}
use engram_mem.Semantic.Variants.{write_as-Resolved, is_new-alike, own-put, alike-put, alike}

-- A call that returns did not raise.
returned :
    {A S : Type 0} (raised : Bool) (s s' : S) (x y : A)
    → (if◌then◌else◌ {A = Option A × S} raised (none, s) (some x, s')).0 ≡ some y
    → (raised ≡ false) × (x ≡ y)
returned true s s' x y e = absurd (none-ne-some _ e)
returned false s s' x y e = (refl, some-injective _ _ e)

module _ {G : Type 0} (lower : String → String) (nx : Networkx G) where
  -- What a node that is added leaves.
  record Added (n : SemanticNode) (s s' : SemanticGraph G) (is_new : Bool) (t : String)
      : Type 0 where
    newness : is_new ≡ (alike lower (lower (node_key n)) (keys_of (nx.nodes s.graph)) == 0)
    one : alike lower (lower (node_key n)) (keys_of (nx.nodes s'.graph)) ≡ 1
    others : alike lower t (keys_of (nx.nodes s'.graph)) ≤ 1
    found :
        (key : String) × (m : SemanticNode) × (str_eq (lower key) (lower (node_key n)) ≡ true)
        × (get_node nx key s'.graph ≡ some m)
        × (m.attributes ≡ n.attributes)

  write_resolved-Added :
      (n : SemanticNode) (w : Option (String × SemanticNode)) (fails : Call → Bool)
      (s : SemanticGraph G) (is_new : Bool) (t : String)
      → resolve_node lower n (keys_of (nx.nodes s.graph)) ≡ w
      → ((t : String) → alike lower t (keys_of (nx.nodes s.graph)) ≤ 1)
      → (write_resolved lower nx w fails s).0 ≡ some is_new
      → Added n s (write_resolved lower nx w fails s).1 is_new t
  unfolding write_resolved log resolve_node has get_node
  write_resolved-Added n none fails s is_new t q h e = absurd (none-ne-some _ e)
  write_resolved-Added n (some (key, m)) fails s is_new t q h e =
      let (f, x) = returned (fails saving) _ _ _ _ e in
      let r = write_as-Resolved lower n (nx.nodes s.graph) _ (key, m) refl q in
      let nodes' = nx.nodes-add_node s.graph key m in
      rw (f, write_resolved)
        (record {
          newness = sym x ∙ is_new-alike lower n m (nx.nodes s.graph) key r (h _);
          one = rw nodes' (own-put lower n m (nx.nodes s.graph) key r (h _));
          others = rw nodes' (alike-put lower n m (nx.nodes s.graph) key t r (h _) (h t));
          found = (
            key,
            m,
            r.is_alike,
            held-add_node nx s.graph key m key
                ∙ ap (λ b. if b then some m else held nx s.graph key) (str_eq_refl key),
            r.same_attributes,
          );
        })

  -- `add_node` on a loaded graph that has no two keys equal up to case: if it returns, it says that the
  -- node is new exactly if no key was equal to the node's up to case, exactly one key is now, still no
  -- two keys are equal up to case, and `get_node` finds the attributes under that key.
  pub add_node-one_key :
      (n : SemanticNode) (fails : Call → Bool) (s : SemanticGraph G) (is_new : Bool) (t : String)
      → s.is_loaded ≡ true
      → ((t : String) → alike lower t (keys_of (nx.nodes s.graph)) ≤ 1)
      → (add_node lower nx n fails s).0 ≡ some is_new
      → let keys = keys_of (nx.nodes s.graph) in
        let s' = (add_node lower nx n fails s).1 in
        let keys' = keys_of (nx.nodes s'.graph) in
        (is_new ≡ (alike lower (lower (node_key n)) keys == 0))
        × (alike lower (lower (node_key n)) keys' ≡ 1)
        × (alike lower t keys' ≤ 1)
        × ((key : String) × (m : SemanticNode) × (str_eq (lower key) (lower (node_key n)) ≡ true)
            × (get_node nx key s'.graph ≡ some m)
            × (m.attributes ≡ n.attributes))
  unfolding add_node write_node
  add_node-one_key n fails s is_new t loaded h e =
      let same = ensure_loaded_lem nx fails s loaded in
      let e' : (write_node lower nx n fails s).0 ≡ some is_new =
        subst (λ o. (o >>> (λ u. write_node lower nx n fails)).0 ≡ some is_new) same e in
      let a = write_resolved-Added n _ fails s is_new t refl h e' in
      rw same (a.newness, a.one, a.others, a.found)
