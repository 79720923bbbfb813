-- ===== src/Episodic/Expired.antt =====
-- `cleanup_expired` of src/engram/episodic/episodic_maintenance.py.
use engram_mem.Base.{
  ℕ, ◌+◌, ◌/◌, ◌≤◌, ◌≡◌, refl, sym, ◌∙◌, ap, inl, inr, String, Bool, true, false, not, ◌&&◌, ◌||◌,
  none, some, List, [], ◌∷◌, filter_by, count_by, length, leb, arith, str_eq, str_eq_refl,
  Bool-cases, All,
}
use mathlib.Core.Path.{subst}
use engram_mem.Base.Sort.{count-filter_by, sort_down, count-sort_down}
use engram_mem.Base.Members.{take_of_length-le}
use engram_mem.Episodic.{Point, contains, ids_of, scroll_order, get_many, delete_points}
use engram_mem.Episodic.Maintenance.{
  EpisodicStore, everything, page_size, page_offsets, is_expired, expired_ids, delete_batches,
  note_deleted, cleanup_expired,
}
use engram_mem.Episodic.Pages.{length-page_offsets, points-delete_batches}
use engram_mem.Episodic.Ids.{
  contains-append, contains-count, length-scroll_order, get_many-everything,
}

-- The ids of the expired memories on the page that the collection gives, whatever the offset.
abbrev pub expired_page : Bool → ℕ → List Point → List String
expired_page has_index now points =
    ids_of (filter_by (is_expired now) (get_many has_index everything (some page_size) none points))

contains-expired_round :
    (has_index : Bool) (now o : ℕ) (fails : ℕ → Bool) (offsets : List ℕ) (points : List Point)
    (x : String)
    → fails o ≡ false
    → contains x (expired_ids has_index now fails (o ∷ offsets) points) ≡ (
        contains x (expired_page has_index now points)
        || contains x (expired_ids has_index now fails offsets points))
unfolding expired_ids get_many
contains-expired_round has_index now o fails offsets points x ok =
    rw (ok, expired_ids)
      (contains-append x (expired_page has_index now points)
        (expired_ids has_index now fails offsets points))

or_self : (b : Bool) → (b || b) ≡ b
or_self b = ground arith

or_false : (b : Bool) → (b || false) ≡ b
or_false b = ground arith

contains-expired_ids :
    (has_index : Bool) (now : ℕ) (fails : ℕ → Bool) (offsets : List ℕ) (points : List Point)
    (x : String)
    → ((o : ℕ) → fails o ≡ false)
    → 1 ≤ length offsets
    → contains x (expired_ids has_index now fails offsets points)
      ≡ contains x (expired_page has_index now points)
unfolding expired_ids
contains-expired_ids has_index now fails [] points x ok h = absurd (omega (arith, h))
contains-expired_ids has_index now fails (o ∷ []) points x ok h =
    contains-expired_round has_index now o fails [] points x (ok o)
    ∙ or_false (contains x (expired_page has_index now points))
contains-expired_ids has_index now fails (o ∷ o' ∷ offsets) points x ok h =
    contains-expired_round has_index now o fails (o' ∷ offsets) points x (ok o)
    ∙ ap (λ b. contains x (expired_page has_index now points) || b)
        (contains-expired_ids has_index now fails (o' ∷ offsets) points x ok (omega arith))
    ∙ or_self (contains x (expired_page has_index now points))

filter_by-cong {ℓ} :
    {A : Type ℓ} (p q : A → Bool) (xs : List A)
    → ((x : A) → p x ≡ q x)
    → filter_by p xs ≡ filter_by q xs
filter_by-cong p q [] h = refl
filter_by-cong p q (x ∷ xs) h = ground (arith, filter_by-cong p q xs h, h x)

points-note_deleted : (n : ℕ) (s : EpisodicStore) → (note_deleted n s).points ≡ s.points
points-note_deleted n s = ground arith

-- If every page can be read, exactly the memories stay whose id is not that of an expired memory on the
-- page of at most 1000 that the collection gives for every offset; an expired memory that is not on
-- it stays too.
pub cleanup_expired_lem :
    (has_index : Bool) (now : ℕ) (fails : ℕ → Bool) (s : EpisodicStore)
    → ((o : ℕ) → fails o ≡ false)
    → (cleanup_expired has_index now fails s).1.points
      ≡ filter_by (λ p. not (contains p.id (expired_page has_index now s.points))) s.points
unfolding cleanup_expired delete_points
cleanup_expired_lem has_index now fails s ok =
    let total = length s.points in
    let offsets = page_offsets total page_size 0 total in
    let ids = expired_ids has_index now fails offsets s.points in
    points-note_deleted (length ids) (delete_batches (length ids) page_size ids s)
    ∙ points-delete_batches (length ids) page_size ids s (omega arith) (omega arith)
    ∙ filter_kept s.points offsets (length-page_offsets total total (omega arith)).0
  where
    filter_kept :
        (points : List Point) (offsets : List ℕ)
        → length offsets ≡ (length points + 999) / 1000
        → filter_by
            (λ p. not (contains p.id (expired_ids has_index now fails offsets points)))
            points
          ≡ filter_by (λ p. not (contains p.id (expired_page has_index now points))) points
    filter_kept [] offsets h = refl
    filter_kept (p ∷ points) offsets h = filter_by-cong _ _ (p ∷ points) (λ q.
        ap not (
          contains-expired_ids has_index now fails offsets (p ∷ points) q.id ok (omega (arith, h))))

contains-filter_by :
    (x : String) (p : Point → Bool) (points : List Point)
    → contains x (ids_of (filter_by p points)) ≡ leb 1 (count_by (λ q. str_eq x q.id && p q) points)
contains-filter_by x p points =
    contains-count x (filter_by p points)
    ∙ ap (leb 1) (count-filter_by (λ q. str_eq x q.id) p points)

contains-expired_order :
    (has_index : Bool) (now : ℕ) (points : List Point) (x : String)
    → contains x (ids_of (filter_by (is_expired now) (scroll_order has_index points)))
      ≡ contains x (ids_of (filter_by (is_expired now) points))
unfolding scroll_order
contains-expired_order false now points x = refl
contains-expired_order true now points x =
    contains-filter_by x (is_expired now) (sort_down (λ p. p.timestamp) points)
    ∙ ap (leb 1)
        (count-sort_down (λ p. p.timestamp) (λ q. str_eq x q.id && is_expired now q) points)
    ∙ sym (contains-filter_by x (is_expired now) points)

-- A page that has every memory has every expired one.
contains-expired_page :
    (has_index : Bool) (now : ℕ) (points : List Point) (x : String)
    → length points ≤ 1000
    → contains x (expired_page has_index now points)
      ≡ contains x (ids_of (filter_by (is_expired now) points))
contains-expired_page has_index now points x h =
    let all =
      take_of_length-le 1000 (scroll_order has_index points)
        (omega (arith, length-scroll_order has_index points, h)) in
    ap (λ ps. contains x (ids_of (filter_by (is_expired now) ps)))
      (get_many-everything has_index (some page_size) none points ∙ all)
    ∙ contains-expired_order has_index now points x

fresh-filter_by :
    (now : ℕ) (ids : List String) (points : List Point)
    → ((x : String)
        → contains x (ids_of (filter_by (is_expired now) points)) ≡ true
        → contains x ids ≡ true)
    → All (λ p. is_expired now p ≡ false) (filter_by (λ p. not (contains p.id ids)) points)
fresh-filter_by now ids [] h = tt
fresh-filter_by now ids (p ∷ points) h = elim (Bool-cases (is_expired now p)) [
  | inl e ↦
      let gone : contains p.id ids ≡ true = h p.id (rw (e, filter_by) (own p.id _)) in
      rw (gone, filter_by)
        (fresh-filter_by now ids points (λ x c. h x (rw (e, filter_by) (later x p.id _ c))))
  | inr e ↦
      let rest = fresh-filter_by now ids points (λ x c. h x (rw (e, filter_by) c)) in
      elim (Bool-cases (contains p.id ids)) [
        | inl c ↦ rw (c, filter_by) rest
        | inr c ↦ rw (c, filter_by) (e, rest)
      ]
]
  where
    own : (x : String) (xs : List String) → contains x (x ∷ xs) ≡ true
    own x xs = ground (arith, str_eq_refl x)

    later : (x y : String) (xs : List String) → contains x xs ≡ true → contains x (y ∷ xs) ≡ true
    later x y xs c = ground (arith, c)

-- If every page can be read and there are at most 1000 memories, no expired one is left, and every
-- memory stays that does not share its id with an expired one.
pub cleanup_expired-fresh :
    (has_index : Bool) (now : ℕ) (fails : ℕ → Bool) (s : EpisodicStore)
    → ((o : ℕ) → fails o ≡ false)
    → length s.points ≤ 1000
    → let points' = (cleanup_expired has_index now fails s).1.points in
      All (λ p. is_expired now p ≡ false) points'
      × (points'
          ≡ filter_by
              (λ p. not (contains p.id (ids_of (filter_by (is_expired now) s.points))))
              s.points)
cleanup_expired-fresh has_index now fails s ok small =
    let kept =
      cleanup_expired_lem has_index now fails s ok
      ∙ filter_by-cong _ _ s.points
          (λ p. ap not (contains-expired_page has_index now s.points p.id small)) in
    (
      subst (All (λ p. is_expired now p ≡ false)) (sym kept)
          (fresh-filter_by now (ids_of (filter_by (is_expired now) s.points)) s.points (λ x c. c)),
      kept,
    )
