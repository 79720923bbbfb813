-- ===== src/EmbeddingQueue/Valid.antt =====
-- The invariant of the table, and what each statement keeps of it.
use engram_mem.Base.{
  ℕ, ◌+◌, ◌≤◌, ◌<◌, ◌≡◌, refl, String, Bool, true, false, ◌&&◌, none, List, [], ◌∷◌, ◌++◌, arith,
  length, All, count_by, filter_by, any_of, str_eq_iff, Bool-cases, inl, inr, min, length-take,
}
use engram_mem.Base.Sort.{
  IsAscending, IsAscending-take, sort_up, sort_up-IsAscending, count-take-le, count-filter_by,
  length-sort_up, count-sort_up, length-filter_by, All-take, All-filter_by, All-sort_up,
}
use engram_mem.EmbeddingQueue.{
  pending, failed, Row, has_id, is_due, max_retries, set_done, set_failed, update_where, enqueue,
  dequeue_batch, mark_done, mark_failed, pending_count,
}

-- A pending row has retries left, and a failed one has used them all.
abbrev pub IsFair : Row → Type 0
IsFair r =
    (r.status ≡ pending → r.retry_count < max_retries)
    × (r.status ≡ failed → max_retries ≤ r.retry_count)

-- Primary keys are unique, and every row is fair.
pub record IsValid (rows : List Row) : Type 0 where
  pub unique : (k : String) → count_by (has_id k) rows ≤ 1
  pub fair : All IsFair rows

count-update_where :
    (p q : Row → Bool) (f : Row → Row) (rows : List Row)
    → ((r : Row) → q (f r) ≡ q r)
    → count_by q (update_where p f rows) ≡ count_by q rows
count-update_where p q f [] h = refl
count-update_where p q f (r ∷ rows) h = ground (arith, h r, count-update_where p q f rows h)

All-update_where :
    (p : Row → Bool) (f : Row → Row) (rows : List Row)
    → ((r : Row) → IsFair r → IsFair (f r))
    → All IsFair rows
    → All IsFair (update_where p f rows)
All-update_where p f [] h a = tt
All-update_where p f (r ∷ rows) h a = elim (Bool-cases (p r)) [
  | inl e ↦ rw e (h r a.0, All-update_where p f rows h a.1)
  | inr e ↦ rw e (a.0, All-update_where p f rows h a.1)
]

set_failed-IsFair : (error : List ℕ) (r : Row) → IsFair r → IsFair (set_failed error r)
set_failed-IsFair error r h = (λ e. ground arith, λ e. ground arith)

pub mark_done-IsValid : (k : String) (rows : List Row) → IsValid rows → IsValid (mark_done k rows)
unfolding mark_done
mark_done-IsValid k rows v = record {
  unique = λ j.
      omega (arith, v.unique j, count-update_where (has_id k) (has_id j) set_done rows (λ r. refl));
  fair = All-update_where (has_id k) set_done rows (λ r h. (λ e. cc, λ e. cc)) v.fair;
}

pub mark_failed-IsValid :
    (k : String) (error : List ℕ) (rows : List Row)
    → IsValid rows
    → IsValid (mark_failed k error rows)
unfolding mark_failed
mark_failed-IsValid k error rows v = record {
  unique = λ j. omega (
    arith,
    v.unique j,
    count-update_where (has_id k) (has_id j) (set_failed error) rows (λ r. refl),
  );
  fair = All-update_where (has_id k) (set_failed error) rows (set_failed-IsFair error) v.fair;
}

count_none :
    (k : String) (rows : List Row) → any_of (has_id k) rows ≡ false → count_by (has_id k) rows ≡ 0
count_none k [] h = refl
count_none k (r ∷ rows) h = ground (arith, count_none k rows)

count-append_one :
    (p : Row → Bool) (rows : List Row) (r : Row)
    → count_by p (rows ++ r ∷ []) ≡ count_by p rows + count_by p (r ∷ [])
count-append_one p [] r = ground arith
count-append_one p (q ∷ rows) r = ground (arith, count-append_one p rows r)

All-append_one :
    (rows : List Row) (r : Row) → All IsFair rows → IsFair r → All IsFair (rows ++ r ∷ [])
All-append_one [] r h f = (f, tt)
All-append_one (q ∷ rows) r h f = (h.0, All-append_one rows r h.1 f)

-- Enqueueing, of a new key or of one that is taken, keeps the primary keys unique, pending rows
-- below the limit of retries and failed rows at it.
pub enqueue-IsValid :
    (k content meta_json : String) (now : ℕ) (rows : List Row)
    → IsValid rows
    → IsValid (enqueue k content meta_json now rows)
unfolding enqueue
enqueue-IsValid k content meta_json now rows v = elim (Bool-cases (any_of (has_id k) rows)) [
  | inl old ↦ rw old v
  | inr new ↦
      let r : Row = record {
        id = k;
        content = content;
        metadata_json = meta_json;
        created_at = now;
        retry_count = 0;
        last_error = none;
        status = pending;
      } in
      rw new (record {
        unique = λ j. ground (
          arith,
          count-append_one (has_id j) rows r,
          v.unique j,
          count_none k rows,
          str_eq_iff k j,
          str_eq_iff j k,
        );
        fair = All-append_one rows r v.fair (λ e. omega arith, λ e. cc);
      })
]

count-due : (rows : List Row) → All IsFair rows → count_by is_due rows ≡ pending_count rows
unfolding pending_count
count-due [] h = refl
count-due (r ∷ rows) h = ground (arith, h.0.0, count-due rows h.1)

-- From a valid table, a batch holds pending rows with retries left, oldest first, and as many as
-- the limit lets through of all that are pending.
pub dequeue_batch_lem :
    (limit : ℕ) (rows : List Row)
    → IsValid rows
    → All (λ r. is_due r ≡ true) (dequeue_batch limit rows)
      × IsAscending (λ r. r.created_at) (dequeue_batch limit rows)
      × (length (dequeue_batch limit rows) ≡ min limit (pending_count rows))
unfolding dequeue_batch
dequeue_batch_lem limit rows v =
    let key = λ (r : Row). r.created_at in
    let due = filter_by is_due rows in
    (
      All-take _ limit (sort_up key due) (All-sort_up _ key due (All-filter_by is_due rows)),
      IsAscending-take key limit (sort_up key due) (sort_up-IsAscending key due),
      omega (
        arith,
        length-take limit (sort_up key due),
        length-sort_up key due,
        length-filter_by is_due rows,
        count-due rows v.fair,
      ),
    )

-- No row of the batch stands in it twice, nor without standing due in the table.
pub count-dequeue_batch-le :
    (limit : ℕ) (rows : List Row) (k : String)
    → count_by (has_id k) (dequeue_batch limit rows) ≤ count_by (λ r. has_id k r && is_due r) rows
unfolding dequeue_batch
count-dequeue_batch-le limit rows k =
    let key = λ (r : Row). r.created_at in
    let due = filter_by is_due rows in
    omega (
      arith,
      count-take-le (has_id k) limit (sort_up key due),
      count-sort_up key (has_id k) due,
      count-filter_by (has_id k) is_due rows,
    )
