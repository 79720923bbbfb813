-- ===== src/Episodic/Dedup.antt =====
-- `cleanup_dedup` of src/engram/episodic/episodic_maintenance.py: near-duplicates are merged into one
-- memory and deleted. `nearest p` are the hits of the vector search for the embedding of `p`, `none`
-- where it has none or the search fails. Distances and the threshold are in thousandths; the
-- entities and tags of a memory stand for sets.
use engram_mem.Base.{
  ℕ, zero, suc, ◌+◌, ◌*◌, max, String, Bool, true, false, not, ◌&&◌, ◌==◌, leb, Option, none, some,
  List, [], ◌∷◌, ◌++◌, map, take, drop, length, str_eq, if◌then◌else◌,
}
use engram_mem.Episodic.{Point, contains, get_many, delete_points, fts_delete_all}
use engram_mem.Episodic.Maintenance.{EpisodicStore, everything, page_offsets}
use engram_mem.Episodic.Search.{Hit}

-- `xs | ys`
unfoldable pub union_of : List String → List String → List String
union_of xs [] = xs
union_of xs (y ∷ ys) = union_of (if contains y xs then xs else xs ++ y ∷ []) ys

-- `int(meta.get("priority", 5) or 5)`
abbrev pub priority_of : Point → ℕ
priority_of p = if p.priority == 0 then 5 else p.priority

-- What a winner gathers, with the duplicates that it absorbs.
pub record Winner : Type 0 where
  pub entities : List String
  pub tags : List String
  pub priority : ℕ
  pub dups : List String

-- `1.0 - distance / 2.0 >= threshold`
abbrev pub is_similar : ℕ → Hit → Bool
is_similar threshold h = leb (2 * threshold + h.distance) 2000

-- The hits, in their order; `processed` are the ids that are settled.
unfoldable pub absorb : ℕ → String → List Hit → List String → Winner → Winner × List String
unfolding union_of
absorb threshold id [] processed w = (w, processed)
absorb threshold id (h ∷ hits) processed w =
    let c = h.point in
    let is_dup = not (str_eq c.id id) && not (contains c.id processed) && is_similar threshold h in
    let w' : Winner = record {
      entities = union_of w.entities c.entities;
      tags = union_of w.tags c.tags;
      priority = max w.priority (priority_of c);
      dups = w.dups ++ c.id ∷ [];
    } in
    absorb threshold id hits (if is_dup then c.id ∷ processed else processed)
      (if is_dup then w' else w)

-- Where the loop stands; `winners` are the memories that have absorbed others.
pub record Deduping : Type 0 where
  pub processed : List String
  pub to_delete : List String
  pub winners : List String
  pub points : List Point

-- `update` of the winner
unfoldable pub write_winner : String → Winner → Point → Point
write_winner id w p =
    if str_eq p.id id
    then record p { entities = w.entities; tags = w.tags; priority = w.priority }
    else p

abbrev pub is_empty : List String → Bool
is_empty [] = true
is_empty (x ∷ xs) = false

-- Before a hit is seen.
abbrev pub first_winner : Point → Winner
first_winner p = record {
  entities = p.entities;
  tags = p.tags;
  priority = priority_of p;
  dups = [];
}

-- A memory that is not settled, with the hits of its search; `is_written` says that the winner is
-- updated, which a dry run does not do and a failure of the update undoes.
unfoldable pub settle_hits : ℕ → (String → Bool) → Point → Option (List Hit) → Deduping → Deduping
unfolding absorb write_winner
settle_hits threshold is_written p none d = record d { processed = p.id ∷ d.processed }
settle_hits threshold is_written p (some hits) d =
    let (w, processed) = absorb threshold p.id hits d.processed (first_winner p) in
    if is_empty w.dups then record d { processed = p.id ∷ processed } else record {
      processed = p.id ∷ processed;
      to_delete = d.to_delete ++ w.dups;
      winners = p.id ∷ d.winners;
      points = if is_written p.id then map (write_winner p.id w) d.points else d.points;
    }

module _ (nearest : Point → Option (List Hit)) (threshold : ℕ) (is_written : String → Bool) where
  unfoldable pub settle : List Point → Deduping → Deduping
  unfolding settle_hits
  settle [] d = d
  settle (p ∷ page) d =
      settle page
        (if contains p.id d.processed then d else settle_hits threshold is_written p (nearest p) d)

  -- Page by page, up to the first that cannot be read; each page is read from the points as they are
  -- then.
  unfoldable pub settle_pages : Bool → ℕ → (ℕ → Bool) → List ℕ → Deduping → Deduping
  unfolding settle get_many
  settle_pages has_index batch_size fails [] d = d
  settle_pages has_index batch_size fails (offset ∷ offsets) d =
      if fails offset
      then d
      else settle_pages has_index batch_size fails offsets
          (settle (get_many has_index everything (some batch_size) (some offset) d.points) d)

unfoldable pub undeduped : List Point → Deduping
undeduped points = record { processed = []; to_delete = []; winners = []; points = points }

-- The losers in batches of 500 on fuel; a batch whose deletion fails stays in the collection, but not
-- in the index. The number that is deleted.
unfoldable pub delete_losers :
    ℕ → (List String → Bool) → List String → EpisodicStore → ℕ × EpisodicStore
unfolding delete_points fts_delete_all
delete_losers zero fails ids s = (0, s)
delete_losers (suc fuel) fails [] s = (0, s)
delete_losers (suc fuel) fails (id ∷ ids) s =
    let batch = take 500 (id ∷ ids) in
    let (deleted, s') = delete_losers fuel fails (drop 500 (id ∷ ids)) (record s {
      points = if fails batch then s.points else delete_points batch s.points;
      fts = elim s.fts [ none ↦ none | some rows ↦ some (fts_delete_all batch rows) ];
    }) in
    ((if fails batch then 0 else length batch) + deleted, s')

pub record Deduped : Type 0 where
  pub merged : ℕ
  pub deleted : ℕ
  pub remaining : ℕ
  pub dry_run : Bool

abbrev pub report : ℕ → Bool → Deduping → EpisodicStore → Deduped
report deleted dry_run d s = record {
  merged = length d.winners;
  deleted = deleted;
  remaining = length s.points;
  dry_run = dry_run;
}

abbrev pub noted : ℕ → List String → EpisodicStore → EpisodicStore
noted deleted [] s = s
noted deleted (id ∷ ids) s = record s { audit = s.audit ++ deleted ∷ [] }

-- `page_fails`, `is_written` and `delete_fails` say which calls of the collection fail or succeed;
-- `batch_size` is at least 1.
module _ (nearest : Point → Option (List Hit)) (threshold batch_size : ℕ) (has_index : Bool)
    (page_fails : ℕ → Bool) (is_written : String → Bool) where
  -- The state after the loop over the pages.
  unfoldable pub settled : Bool → List Point → Deduping
  unfolding settle_pages page_offsets undeduped
  settled dry_run points =
      settle_pages nearest threshold (λ id. not dry_run && is_written id) has_index batch_size
        page_fails (page_offsets (length points) batch_size 0 (length points)) (undeduped points)

  unfoldable pub cleanup_dedup :
      Bool → (List String → Bool) → EpisodicStore → Deduped × EpisodicStore
  unfolding settled delete_losers
  cleanup_dedup dry_run delete_fails s =
      let d = settled dry_run s.points in
      let s1 = record s { points = d.points } in
      let (deleted, s2) = delete_losers (length d.to_delete) delete_fails d.to_delete s1 in
      if dry_run
      then (report (length d.to_delete) dry_run d s1, s1)
      else (report deleted dry_run d s2, noted deleted d.to_delete s2)
