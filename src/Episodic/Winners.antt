-- ===== src/Episodic/Winners.antt =====
-- The memories that absorb others in `cleanup_dedup` of src/engram/episodic/episodic_maintenance.py.
use engram_mem.Base.{
  ℕ, ◌≡◌, refl, ◌∙◌, ap, inl, inr, String, Bool, true, false, not, ◌&&◌, Option, none, some, List,
  [], ◌∷◌, ◌++◌, arith, str_eq, str_eq_iff, Bool-cases,
}
use engram_mem.Episodic.{Point, contains, get_many}
use engram_mem.Episodic.Maintenance.{everything}
use engram_mem.Episodic.Search.{Hit}
use engram_mem.Episodic.Ids.{contains-append}
use engram_mem.Episodic.Dedup.{
  Winner, Deduping, is_similar, is_empty, first_winner, absorb, settle_hits, settle, settle_pages,
}

-- What has been settled before is not absorbed, and what is absorbed is settled then.
record Absorbed (before processed : List String) (dups : List String) : Type 0 where
  keeps : (x : String) → contains x before ≡ true → contains x processed ≡ true
  settles : (x : String) → contains x dups ≡ true → contains x processed ≡ true
  spares : (x : String) → contains x before ≡ true → contains x dups ≡ false

not_added :
    (x c : String) (xs : List String)
    → contains x xs ≡ false
    → str_eq x c ≡ false
    → contains x (xs ++ c ∷ []) ≡ false
not_added x c xs h ne = ground (arith, contains-append x xs (c ∷ []), h, ne)

-- A settled id is not one that is not settled.
other_than :
    (x c : String) (xs : List String)
    → contains x xs ≡ true
    → contains c xs ≡ false
    → str_eq x c ≡ false
other_than x c xs h ne = elim (Bool-cases (str_eq x c)) [
  | inl e ↦
      let same : contains x xs ≡ contains c xs = ap (λ y. contains y xs) ((str_eq_iff x c).0 e) in
      absurd (ground (arith, same, h, ne))
  | inr e ↦ e
]

absorb-Absorbed :
    (threshold : ℕ) (id : String) (hits : List Hit) (before processed : List String) (w : Winner)
    → Absorbed before processed w.dups
    → contains id w.dups ≡ false
    → let (w', processed') = absorb threshold id hits processed w in
      Absorbed before processed' w'.dups × (contains id w'.dups ≡ false)
unfolding absorb
absorb-Absorbed threshold id [] before processed w a own = (a, own)
absorb-Absorbed threshold id (h ∷ hits) before processed w a own =
    let c = h.point.id in
    elim (Bool-cases (not (str_eq c id) && not (contains c processed) && is_similar threshold h)) [
      | inl e ↦
          rw (e, absorb)
            (absorb-Absorbed threshold id hits before (c ∷ processed) _
              (record {
                keeps = λ x q. ground (arith, a.keeps x q);
                settles = λ x q. ground (arith, contains-append x w.dups (c ∷ []), a.settles x, q);
                spares = λ x q.
                    not_added x c w.dups (a.spares x q)
                      (other_than x c processed (a.keeps x q) (ground (arith, e)));
              })
              (not_added id c w.dups own (ground (arith, str_eq_iff id c, str_eq_iff c id, e))))
      | inr e ↦ rw (e, absorb) (absorb-Absorbed threshold id hits before processed w a own)
    ]

-- Winners and losers are settled, and no winner is a loser.
pub record IsSettled (d : Deduping) : Type 0 where
  pub deleted_settled : (x : String) → contains x d.to_delete ≡ true → contains x d.processed ≡ true
  pub winners_settled : (x : String) → contains x d.winners ≡ true → contains x d.processed ≡ true
  pub winners_kept : (x : String) → contains x d.winners ≡ true → contains x d.to_delete ≡ false

-- A memory that is settled last, without or with duplicates.
IsSettled-alone :
    (id : String) (processed dups : List String) (d : Deduping)
    → Absorbed d.processed processed dups
    → IsSettled d
    → IsSettled (record d { processed = id ∷ processed })
IsSettled-alone id processed dups d a h = record {
  deleted_settled = λ x q. ground (arith, a.keeps x (h.deleted_settled x q));
  winners_settled = λ x q. ground (arith, a.keeps x (h.winners_settled x q));
  winners_kept = h.winners_kept;
}

-- What is not settled is not deleted yet.
not_deleted :
    (id : String) (d : Deduping)
    → contains id d.processed ≡ false
    → IsSettled d
    → contains id d.to_delete ≡ false
not_deleted id d new h = elim (Bool-cases (contains id d.to_delete)) [
  | inl e ↦ absurd (ground (arith, h.deleted_settled id e, new))
  | inr e ↦ e
]

not_contains-append :
    (x : String) (xs ys : List String)
    → contains x xs ≡ false
    → contains x ys ≡ false
    → contains x (xs ++ ys) ≡ false
not_contains-append x xs ys h k = contains-append x xs ys ∙ ground (arith, h, k)

new_winner_kept :
    (id : String) (processed dups : List String) (d : Deduping)
    → Absorbed d.processed processed dups
    → contains id dups ≡ false
    → contains id d.processed ≡ false
    → IsSettled d
    → (x : String) → contains x (id ∷ d.winners) ≡ true
    → contains x (d.to_delete ++ dups) ≡ false
new_winner_kept id processed dups d a own new h x q = elim (Bool-cases (str_eq x id)) [
  | inl e ↦
      let same : x ≡ id = (str_eq_iff x id).0 e in
      ap (λ y. contains y (d.to_delete ++ dups)) same
      ∙ not_contains-append id d.to_delete dups (not_deleted id d new h) own
  | inr e ↦
      let old : contains x d.winners ≡ true = ground (arith, q, e) in
      not_contains-append x d.to_delete dups (h.winners_kept x old)
        (a.spares x (h.winners_settled x old))
]

IsSettled-winner :
    (id : String) (processed dups : List String) (points : List Point) (d : Deduping)
    → Absorbed d.processed processed dups
    → contains id dups ≡ false
    → contains id d.processed ≡ false
    → IsSettled d
    → IsSettled (record {
      processed = id ∷ processed;
      to_delete = d.to_delete ++ dups;
      winners = id ∷ d.winners;
      points = points;
    })
IsSettled-winner id processed dups points d a own new h = record {
  deleted_settled = λ x q. elim (Bool-cases (contains x dups)) [
    | inl e ↦ ground (arith, a.settles x e)
    | inr e ↦
        let old : contains x d.to_delete ≡ true =
          ground (arith, contains-append x d.to_delete dups, q, e) in
        ground (arith, a.keeps x (h.deleted_settled x old))
  ];
  winners_settled = λ x q. elim (Bool-cases (str_eq x id)) [
    | inl e ↦ ground (arith, e)
    | inr e ↦
        let old : contains x d.winners ≡ true = ground (arith, q, e) in
        ground (arith, a.keeps x (h.winners_settled x old))
  ];
  winners_kept = new_winner_kept id processed dups d a own new h;
}

settle_hits-IsSettled :
    (threshold : ℕ) (is_written : String → Bool) (p : Point) (hits : Option (List Hit))
    (d : Deduping)
    → contains p.id d.processed ≡ false
    → IsSettled d
    → IsSettled (settle_hits threshold is_written p hits d)
unfolding settle_hits
settle_hits-IsSettled threshold is_written p none d new h = record {
  deleted_settled = λ x q. ground (arith, h.deleted_settled x q);
  winners_settled = λ x q. ground (arith, h.winners_settled x q);
  winners_kept = h.winners_kept;
}
settle_hits-IsSettled threshold is_written p (some hits) d new h =
    let (w, processed) = absorb threshold p.id hits d.processed (first_winner p) in
    let (a, own) =
      absorb-Absorbed threshold p.id hits d.processed d.processed (first_winner p)
        (record {
          keeps = λ x q. q;
          settles = λ x q. absurd (ground (arith, q));
          spares = λ x q. refl;
        })
        refl in
    elim (Bool-cases (is_empty w.dups)) [
      | inl e ↦ rw (e, settle_hits) (IsSettled-alone p.id processed w.dups d a h)
      | inr e ↦ rw (e, settle_hits) (IsSettled-winner p.id processed w.dups _ d a own new h)
    ]

module _ (nearest : Point → Option (List Hit)) (threshold : ℕ) (is_written : String → Bool) where
  settle-IsSettled :
      (page : List Point) (d : Deduping)
      → IsSettled d
      → IsSettled (settle nearest threshold is_written page d)
  unfolding settle
  settle-IsSettled [] d h = h
  settle-IsSettled (p ∷ page) d h = elim (Bool-cases (contains p.id d.processed)) [
    | inl e ↦ rw (e, settle) (settle-IsSettled page d h)
    | inr e ↦
        rw (e, settle)
          (settle-IsSettled page _ (settle_hits-IsSettled threshold is_written p (nearest p) d e h))
  ]

  pub settle_pages-IsSettled :
      (has_index : Bool) (batch_size : ℕ) (fails : ℕ → Bool) (offsets : List ℕ) (d : Deduping)
      → IsSettled d
      → IsSettled (settle_pages nearest threshold is_written has_index batch_size fails offsets d)
  unfolding settle_pages
  settle_pages-IsSettled has_index batch_size fails [] d h = h
  settle_pages-IsSettled has_index batch_size fails (offset ∷ offsets) d h =
      let page = get_many has_index everything (some batch_size) (some offset) d.points in
      elim (Bool-cases (fails offset)) [
        | inl e ↦ rw (e, settle_pages) h
        | inr e ↦
            rw (e, settle_pages)
              (settle_pages-IsSettled has_index batch_size fails offsets
                (settle nearest threshold is_written page d) (settle-IsSettled page d h))
      ]
