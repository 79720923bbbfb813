-- ===== src/Episodic/Updated.antt =====
-- What `cleanup_dedup` of src/engram/episodic/episodic_maintenance.py does to the collection.
use engram_mem.Base.{
  ℕ, zero, suc, ◌≡◌, refl, ◌∙◌, ap, inl, inr, String, Bool, true, false, not, ◌&&◌, Option, none,
  some, List, [], ◌∷◌, map, take, drop, length, arith, str_eq, str_eq_iff, if◌then◌else◌,
  Bool-cases,
}
use engram_mem.Episodic.{Point, contains, ids_of, delete_points, get_many}
use engram_mem.Episodic.Maintenance.{EpisodicStore, everything, page_offsets}
use engram_mem.Episodic.Search.{Hit}
use engram_mem.Episodic.Pages.{contains-take-drop}
use engram_mem.Episodic.Winners.{IsSettled, settle_pages-IsSettled}
use engram_mem.Episodic.Dedup.{
  Winner, Deduping, is_empty, first_winner, absorb, write_winner, settle_hits, settle, settle_pages,
  undeduped, delete_losers, noted, settled, cleanup_dedup,
}

-- The update of a winner keeps the ids.
ids_of-write_winner :
    (id : String) (w : Winner) (points : List Point)
    → ids_of (map (write_winner id w) points) ≡ ids_of points
unfolding write_winner
ids_of-write_winner id w [] = refl
ids_of-write_winner id w (p ∷ points) = elim (Bool-cases (str_eq p.id id)) [
  | inl e ↦ rw (e, write_winner) (ap (λ l. p.id ∷ l) (ids_of-write_winner id w points))
  | inr e ↦ rw (e, write_winner) (ap (λ l. p.id ∷ l) (ids_of-write_winner id w points))
]

-- What the loop does to the collection: no id is lost, and without a write nothing is changed.
record IsUpdated (is_written : String → Bool) (before after : List Point) : Type 0 where
  same_ids : ids_of after ≡ ids_of before
  untouched : ((id : String) → is_written id ≡ false) → after ≡ before

IsUpdated-trans :
    {is_written : String → Bool} {a b c : List Point}
    → IsUpdated is_written b c
    → IsUpdated is_written a b
    → IsUpdated is_written a c
IsUpdated-trans g h = record {
  same_ids = g.same_ids ∙ h.same_ids;
  untouched = λ no. g.untouched no ∙ h.untouched no;
}

IsUpdated-refl : (is_written : String → Bool) (a : List Point) → IsUpdated is_written a a
IsUpdated-refl is_written a = record { same_ids = refl; untouched = λ no. refl }

written_winner :
    (is_written : String → Bool) (id : String) (w : Winner) (points : List Point)
    → IsUpdated is_written points (if is_written id then map (write_winner id w) points else points)
written_winner is_written id w points = elim (Bool-cases (is_written id)) [
  | inl e ↦ rw e (record {
    same_ids = ids_of-write_winner id w points;
    untouched = λ no. absurd (ground (arith, no id, e));
  })
  | inr e ↦ rw e (IsUpdated-refl is_written points)
]

settle_hits-IsUpdated :
    (threshold : ℕ) (is_written : String → Bool) (p : Point) (hits : Option (List Hit))
    (d : Deduping)
    → IsUpdated is_written d.points (settle_hits threshold is_written p hits d).points
unfolding settle_hits
settle_hits-IsUpdated threshold is_written p none d = IsUpdated-refl is_written d.points
settle_hits-IsUpdated threshold is_written p (some hits) d =
    let (w, processed) = absorb threshold p.id hits d.processed (first_winner p) in
    elim (Bool-cases (is_empty w.dups)) [
      | inl e ↦ rw (e, settle_hits) (IsUpdated-refl is_written d.points)
      | inr e ↦ rw (e, settle_hits) (written_winner is_written p.id w d.points)
    ]

module _ (nearest : Point → Option (List Hit)) (threshold : ℕ) (is_written : String → Bool) where
  settle-IsUpdated :
      (page : List Point) (d : Deduping)
      → IsUpdated is_written d.points (settle nearest threshold is_written page d).points
  unfolding settle
  settle-IsUpdated [] d = IsUpdated-refl is_written d.points
  settle-IsUpdated (p ∷ page) d = elim (Bool-cases (contains p.id d.processed)) [
    | inl e ↦ rw (e, settle) (settle-IsUpdated page d)
    | inr e ↦
        rw (e, settle)
          (IsUpdated-trans (settle-IsUpdated page _)
            (settle_hits-IsUpdated threshold is_written p (nearest p) d))
  ]

  settle_pages-IsUpdated :
      (has_index : Bool) (batch_size : ℕ) (fails : ℕ → Bool) (offsets : List ℕ) (d : Deduping)
      → IsUpdated is_written d.points
          (settle_pages nearest threshold is_written has_index batch_size fails offsets d).points
  unfolding settle_pages
  settle_pages-IsUpdated has_index batch_size fails [] d = IsUpdated-refl is_written d.points
  settle_pages-IsUpdated has_index batch_size fails (offset ∷ offsets) d =
      let page = get_many has_index everything (some batch_size) (some offset) d.points in
      elim (Bool-cases (fails offset)) [
        | inl e ↦ rw (e, settle_pages) (IsUpdated-refl is_written d.points)
        | inr e ↦
            rw (e, settle_pages)
              (IsUpdated-trans
                (settle_pages-IsUpdated has_index batch_size fails offsets
                  (settle nearest threshold is_written page d))
                (settle-IsUpdated page d))
      ]

-- The deletions spare what is not in a batch.
contains-delete_points :
    (x : String) (ids : List String) (points : List Point)
    → contains x ids ≡ false
    → contains x (ids_of (delete_points ids points)) ≡ contains x (ids_of points)
unfolding delete_points
contains-delete_points x ids [] h = refl
contains-delete_points x ids (p ∷ points) h = elim (Bool-cases (str_eq x p.id)) [
  | inl e ↦
      let same : contains x ids ≡ contains p.id ids =
        ap (λ z. contains z ids) ((str_eq_iff x p.id).0 e) in
      ground (arith, contains-delete_points x ids points h, same, h, e)
  | inr e ↦ ground (arith, contains-delete_points x ids points h, e)
]

contains-deleted_or_not :
    (x : String) (fails : Bool) (ids : List String) (points : List Point)
    → contains x ids ≡ false
    → contains x (ids_of (if fails then points else delete_points ids points))
      ≡ contains x (ids_of points)
contains-deleted_or_not x true ids points h = refl
contains-deleted_or_not x false ids points h = contains-delete_points x ids points h

not_contains-take-drop :
    (x : String) (n : ℕ) (ids : List String)
    → contains x ids ≡ false
    → (contains x (take n ids) ≡ false) × (contains x (drop n ids) ≡ false)
not_contains-take-drop x n ids h =
    (ground (arith, contains-take-drop x n ids, h), ground (arith, contains-take-drop x n ids, h))

contains-delete_losers :
    (x : String) (fuel : ℕ) (fails : List String → Bool) (ids : List String) (s : EpisodicStore)
    → contains x ids ≡ false
    → contains x (ids_of (delete_losers fuel fails ids s).1.points) ≡ contains x (ids_of s.points)
unfolding delete_losers
contains-delete_losers x zero fails ids s h = refl
contains-delete_losers x (suc fuel) fails [] s h = refl
contains-delete_losers x (suc fuel) fails (id ∷ ids) s h =
    let batch = take 500 (id ∷ ids) in
    let (first, rest) = not_contains-take-drop x 500 (id ∷ ids) h in
    contains-delete_losers x fuel fails (drop 500 (id ∷ ids)) _ rest
    ∙ contains-deleted_or_not x (fails batch) batch s.points first

points-noted :
    (deleted : ℕ) (ids : List String) (s : EpisodicStore) → (noted deleted ids s).points ≡ s.points
points-noted deleted [] s = refl
points-noted deleted (id ∷ ids) s = refl

undeduped-IsSettled : (points : List Point) → IsSettled (undeduped points)
unfolding undeduped
undeduped-IsSettled points = record {
  deleted_settled = λ x q. absurd (ground (arith, q));
  winners_settled = λ x q. absurd (ground (arith, q));
  winners_kept = λ x q. refl;
}

module _ (nearest : Point → Option (List Hit)) (threshold batch_size : ℕ) (has_index : Bool)
    (page_fails : ℕ → Bool) (is_written : String → Bool) where
  settled-IsSettled :
      (dry_run : Bool) (points : List Point)
      → IsSettled
          (settled nearest threshold batch_size has_index page_fails is_written dry_run points)
  unfolding settled
  settled-IsSettled dry_run points =
      settle_pages-IsSettled nearest threshold (λ id. not dry_run && is_written id) has_index
        batch_size page_fails (page_offsets (length points) batch_size 0 (length points))
        (undeduped points) (undeduped-IsSettled points)

  settled-IsUpdated :
      (dry_run : Bool) (points : List Point)
      → IsUpdated
          (λ id. not dry_run && is_written id)
          points
          (settled nearest threshold batch_size has_index page_fails is_written dry_run
            points).points
  unfolding settled undeduped
  settled-IsUpdated dry_run points =
      settle_pages-IsUpdated nearest threshold (λ id. not dry_run && is_written id) has_index
        batch_size page_fails (page_offsets (length points) batch_size 0 (length points))
        (undeduped points)

  -- Whichever calls of the collection fail, `cleanup_dedup` deletes no memory that has absorbed
  -- others: a winner is never among the losers, and every memory of the collection that is not
  -- among the losers is there afterwards.
  pub cleanup_dedup-kept :
      (delete_fails : List String → Bool) (s : EpisodicStore) (x : String)
      → contains x (ids_of s.points) ≡ true
      → let d =
          settled nearest threshold batch_size has_index page_fails is_written false s.points in
        let after =
          (cleanup_dedup nearest threshold batch_size has_index page_fails is_written false
            delete_fails s).1 in
        (contains x d.winners ≡ true → contains x (ids_of after.points) ≡ true)
        × (contains x d.to_delete ≡ false → contains x (ids_of after.points) ≡ true)
  unfolding cleanup_dedup
  cleanup_dedup-kept delete_fails s x there =
      let d = settled nearest threshold batch_size has_index page_fails is_written false s.points in
      let stays : contains x d.to_delete ≡ false → _ = λ spared.
        ap (λ ps. contains x (ids_of ps)) (points-noted _ d.to_delete _)
        ∙ contains-delete_losers x (length d.to_delete) delete_fails d.to_delete
            (record s { points = d.points }) spared
        ∙ ap (contains x) (settled-IsUpdated false s.points).same_ids
        ∙ there in
      (λ q. stays ((settled-IsSettled false s.points).winners_kept x q), stays)

  -- A dry run of `cleanup_dedup` leaves the collection, the index and the log as they are.
  pub cleanup_dedup-dry_run :
      (delete_fails : List String → Bool) (s : EpisodicStore)
      → (cleanup_dedup nearest threshold batch_size has_index page_fails is_written true
          delete_fails s).1
        ≡ s
  unfolding cleanup_dedup
  cleanup_dedup-dry_run delete_fails s =
      ap (λ ps. record s { points = ps }) ((settled-IsUpdated true s.points).untouched (λ id. refl))
