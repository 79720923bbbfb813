-- ===== src/EmbeddingQueue/Process.antt =====
-- `process_embedding_queue`: every item of a batch is done or has one retry less, whatever the
-- embedding service answers, so that repeated runs leave nothing pending.
use engram_mem.Base.{
  ℕ, zero, suc, ◌+◌, ◌-◌, ◌*◌, ◌≤◌, ◌≡◌, refl, ◌∙◌, ◌==◌, ◌⊎◌, String, true, false, not, ◌&&◌, List,
  [], ◌∷◌, arith, length, All, count_by, str_eq, str_eq_iff, str_eq_refl, if◌then◌else◌, Bool-cases,
  inl, inr, min,
}
use engram_mem.EmbeddingQueue.{
  Row, has_id, is_pending, is_due, max_retries, batch_size, set_done, set_failed, update_where,
  dequeue_batch, mark_done, mark_failed, pending_count, Attempt, stored, raised, Report,
  process_items, process_embedding_queue, process_times, is_none_left,
}
use engram_mem.EmbeddingQueue.Valid.{
  IsFair, IsValid, mark_done-IsValid, mark_failed-IsValid, dequeue_batch_lem,
  count-dequeue_batch-le,
}

-- The retries that the pending rows have left.
abbrev pub row_budget : Row → ℕ
row_budget r = if is_pending r.status then max_retries - r.retry_count else 0

abbrev pub budget : List Row → ℕ
budget [] = 0
budget (r ∷ rows) = row_budget r + budget rows

-- Of the rows with this key none is not due.
abbrev AllDue : String → List Row → Type 0
AllDue k rows = count_by (λ r. has_id k r && not (is_due r)) rows ≡ 0

budget-update :
    (k : String) (f : Row → Row) (rows : List Row)
    → ((r : Row) → is_due r ≡ true → row_budget (f r) + 1 ≤ row_budget r)
    → AllDue k rows
    → budget (update_where (has_id k) f rows) + count_by (λ r. has_id k r && is_due r) rows
      ≤ budget rows
budget-update k f [] h d = omega arith
budget-update k f (r ∷ rows) h d = ground (arith, h r, budget-update k f rows h)

split_due :
    (k : String) (rows : List Row)
    → count_by (λ r. has_id k r && not (is_due r)) rows
        + count_by (λ r. has_id k r && is_due r) rows
      ≡ count_by (has_id k) rows
split_due k [] = refl
split_due k (r ∷ rows) = ground (arith, split_due k rows)

count-update_ne :
    (j k : String) (f : Row → Row) (rows : List Row)
    → ((r : Row) → has_id k (f r) ≡ has_id k r)
    → str_eq j k ≡ false
    → count_by (λ r. has_id k r && is_due r) (update_where (has_id j) f rows)
      ≡ count_by (λ r. has_id k r && is_due r) rows
count-update_ne j k f [] h ne = refl
count-update_ne j k f (r ∷ rows) h ne = ground (
  arith,
  h r,
  count-update_ne j k f rows h ne,
  str_eq_iff r.id j,
  str_eq_iff r.id k,
  str_eq_iff j k,
)

set_done_budget : (r : Row) → is_due r ≡ true → row_budget (set_done r) + 1 ≤ row_budget r
set_done_budget r h = ground arith

set_failed_budget :
    (error : List ℕ) (r : Row)
    → is_due r ≡ true
    → row_budget (set_failed error r) + 1 ≤ row_budget r
set_failed_budget error r h = ground arith

-- The rest of a batch: each key at most once, and as often due in the table.
abbrev IsBatch : List Row → List Row → Type 0
IsBatch batch rows =
    (k : String) → count_by (has_id k) batch ≤ count_by (λ r. has_id k r && is_due r) rows

module _ (item : Row) (batch rows : List Row) (f : Row → Row) (v : IsValid rows)
    (b : IsBatch (item ∷ batch) rows)
    (keeps_id : (k : String) (r : Row) → has_id k (f r) ≡ has_id k r)
    (lowers : (r : Row) → is_due r ≡ true → row_budget (f r) + 1 ≤ row_budget r) where
  mark_lowers_budget : budget (update_where (has_id item.id) f rows) + 1 ≤ budget rows
  mark_lowers_budget =
      let k = item.id in
      let one : 1 ≤ count_by (has_id k) (item ∷ batch) =
        rw (count_by, str_eq_refl k) (omega arith) in
      let all_due : AllDue k rows = omega (arith, b k, split_due k rows, v.unique k) in
      omega (arith, b k, budget-update k f rows lowers all_due)

  mark-IsBatch : IsBatch batch (update_where (has_id item.id) f rows)
  mark-IsBatch k = elim (Bool-cases (str_eq item.id k)) [
    | inl same ↦
        let more : count_by (has_id k) (item ∷ batch) ≡ suc (count_by (has_id k) batch) =
          rw (count_by, same) in
        omega (arith, b k, split_due k rows, v.unique k)
    | inr other ↦
        let more : count_by (has_id k) (item ∷ batch) ≡ count_by (has_id k) batch =
          rw (count_by, other) in
        omega (arith, b k, count-update_ne item.id k f rows (keeps_id k) other)
  ]

Attempt-cases : (o : Attempt) → (o ≡ stored) ⊎ ((error : List ℕ) × (o ≡ raised error))
Attempt-cases stored = inl refl
Attempt-cases (raised error) = inr (error, refl)

-- What a run over a batch leaves, for any attempts.
record Ran (batch rows : List Row) (rep : Report) (rows' : List Row) (rep' : Report) : Type 0 where
  valid : IsValid rows'
  spent : budget rows' + length batch ≤ budget rows
  counted : rep'.processed + rep'.failures ≡ rep.processed + rep.failures + length batch
  same_flag : rep'.skipped ≡ rep.skipped

Ran-step :
    {batch rows rows1 rows2 : List Row} {rep rep1 rep2 : Report} (item : Row)
    → budget rows1 + 1 ≤ budget rows
    → rep1.processed + rep1.failures ≡ rep.processed + rep.failures + 1
    → rep1.skipped ≡ rep.skipped
    → Ran batch rows1 rep1 rows2 rep2
    → Ran (item ∷ batch) rows rep rows2 rep2
Ran-step item h e f r = record {
  valid = r.valid;
  spent = omega arith;
  counted = omega arith;
  same_flag = r.same_flag ∙ f;
}

process_items-Ran :
    {S : Type 0} (attempt : Row → S → Attempt × S) (batch rows : List Row) (s : S) (rep : Report)
    → IsValid rows
    → IsBatch batch rows
    → Ran batch rows rep
        (process_items attempt batch rows s rep).0
        (process_items attempt batch rows s rep).2
unfolding process_items mark_done mark_failed
process_items-Ran attempt [] rows s rep v b = record {
  valid = v;
  spent = omega arith;
  counted = omega arith;
  same_flag = refl;
}
process_items-Ran attempt (item ∷ batch) rows s rep v b = elim (Attempt-cases (attempt item s).0) [
  | inl e ↦
      rw (e, process_items)
        (Ran-step item
          (mark_lowers_budget item batch rows set_done v b (λ k r. refl) set_done_budget)
          (omega arith) refl
          (process_items-Ran attempt batch (mark_done item.id rows) (attempt item s).1
            (record rep { processed = rep.processed + 1 }) (mark_done-IsValid item.id rows v)
            (mark-IsBatch item batch rows set_done v b (λ k r. refl) set_done_budget)))
  | inr (error, e) ↦
      rw (e, process_items)
        (Ran-step item
          (mark_lowers_budget item batch rows (set_failed error) v b (λ k r. refl)
            (set_failed_budget error))
          (omega arith) refl
          (process_items-Ran attempt batch (mark_failed item.id error rows) (attempt item s).1
            (record rep { failures = rep.failures + 1 }) (mark_failed-IsValid item.id error rows v)
            (mark-IsBatch item batch rows (set_failed error) v b (λ k r. refl)
              (set_failed_budget error))))
]

is_none_left-length : (batch : List Row) → is_none_left batch ≡ (length batch == 0)
is_none_left-length [] = refl
is_none_left-length (item ∷ batch) = ground arith

-- A run of the queue, whatever the embedding service answers, keeps the table valid, reports each
-- item of its batch once, and takes at least one from the retries left for each of them; it reports
-- that it skipped exactly when nothing is pending.
pub process_embedding_queue_lem :
    {S : Type 0} (attempt : Row → S → Attempt × S) (rows : List Row) (s : S)
    → IsValid rows
    → let (rows', _, rep) = process_embedding_queue attempt rows s in
      IsValid rows'
      × (budget rows' + min batch_size (pending_count rows) ≤ budget rows)
      × (rep.processed + rep.failures ≡ min batch_size (pending_count rows))
      × (rep.skipped ≡ (pending_count rows == 0))
unfolding process_embedding_queue
process_embedding_queue_lem attempt rows s v =
    let batch = dequeue_batch batch_size rows in
    let start : Report = record { processed = 0; failures = 0; skipped = is_none_left batch } in
    let r =
      process_items-Ran attempt batch rows s start v (count-dequeue_batch-le batch_size rows) in
    let len = (dequeue_batch_lem batch_size rows v).2 in
    (
      r.valid,
      omega (arith, r.spent, len),
      omega (arith, r.counted, len),
      r.same_flag ∙ ground (arith, is_none_left-length batch, len),
    )

pending-le-budget : (rows : List Row) → All IsFair rows → pending_count rows ≤ budget rows
unfolding pending_count
pending-le-budget [] h = omega arith
pending-le-budget (r ∷ rows) h = ground (arith, h.0.0, pending-le-budget rows h.1)

budget-le-pending : (rows : List Row) → budget rows ≤ max_retries * pending_count rows
unfolding pending_count
budget-le-pending [] = omega arith
budget-le-pending (r ∷ rows) = ground (arith, budget-le-pending rows)

-- The queue drains: from a valid table, as many runs as there are retries left leave nothing
-- pending, whatever the embedding service answers.
pub process_times-drains :
    {S : Type 0} (n : ℕ) (attempt : Row → S → Attempt × S) (rows : List Row) (s : S)
    → IsValid rows
    → budget rows ≤ n
    → pending_count (process_times n attempt rows s).0 ≡ 0
unfolding process_times
process_times-drains zero attempt rows s v h = omega (arith, pending-le-budget rows v.fair)
process_times-drains (suc n) attempt rows s v h =
    let (rows', s', _) = process_embedding_queue attempt rows s in
    let run = process_embedding_queue_lem attempt rows s v in
    process_times-drains n attempt rows' s' run.0 (omega (arith, run.1, budget-le-pending rows))
