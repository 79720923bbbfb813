-- ===== src/EmbeddingQueue.antt =====
-- src/engram/episodic/embedding_queue.py: the table `embedding_queue` with the effect of each SQL
-- statement, and `process_embedding_queue`. A statement runs under the queue's lock, so an operation
-- is one step on the table. Creation times are the numbers that their ISO texts stand for.
pub mod Valid
pub mod Process
mod Examples
use engram_mem.Base.{
  ℕ, zero, suc, ◌+◌, ◌≡◌, String, Bool, true, false, ◌&&◌, Option, none, some, List, [], ◌∷◌, ◌++◌,
  map, length, take, filter_by, any_of, count_by, ltb, leb, ◌==◌, str_eq, if◌then◌else◌,
}
use engram_mem.Base.Sort.{sort_up}

abbrev pub max_retries : ℕ
max_retries = 5

abbrev pub batch_size : ℕ
batch_size = 50

pub data Status : Type 0 where
  pending done failed : Status

abbrev pub is_pending : Status → Bool
is_pending pending = true
is_pending _ = false

abbrev pub is_done : Status → Bool
is_done done = true
is_done _ = false

abbrev pub is_failed : Status → Bool
is_failed failed = true
is_failed _ = false

-- A row of the table; an error text is its characters.
pub record Row : Type 0 where
  pub id : String
  pub content : String
  pub metadata_json : String
  pub created_at : ℕ
  pub retry_count : ℕ
  pub last_error : Option (List ℕ)
  pub status : Status

abbrev pub has_id : String → Row → Bool
has_id k r = str_eq r.id k

-- `INSERT OR IGNORE`: a row whose primary key is taken is not inserted.
unfoldable pub enqueue : String → String → String → ℕ → List Row → List Row
enqueue memory_id content meta_json now rows =
    if any_of (has_id memory_id) rows
    then rows
    else rows
      ++ record {
        id = memory_id;
        content = content;
        metadata_json = meta_json;
        created_at = now;
        retry_count = 0;
        last_error = none;
        status = pending;
      }
        ∷ []

-- `WHERE status = 'pending' AND retry_count < ?`
abbrev pub is_due : Row → Bool
is_due r = is_pending r.status && ltb r.retry_count max_retries

-- `ORDER BY created_at ASC LIMIT ?`
unfoldable pub dequeue_batch : ℕ → List Row → List Row
unfolding sort_up
dequeue_batch limit rows = take limit (sort_up (λ r. r.created_at) (filter_by is_due rows))

abbrev pub update_where : (Row → Bool) → (Row → Row) → List Row → List Row
update_where p f = map (λ r. if p r then f r else r)

abbrev pub set_done : Row → Row
set_done r = record r { status = done }

unfoldable pub mark_done : String → List Row → List Row
mark_done memory_id = update_where (has_id memory_id) set_done

abbrev pub set_failed : List ℕ → Row → Row
set_failed error r = record r {
  retry_count = r.retry_count + 1;
  last_error = some (take 500 error);
  status = if leb max_retries (r.retry_count + 1) then failed else pending;
}

unfoldable pub mark_failed : String → List ℕ → List Row → List Row
mark_failed memory_id error = update_where (has_id memory_id) (set_failed error)

unfoldable pub pending_count : List Row → ℕ
pending_count = count_by (λ r. is_pending r.status)

pub record QueueStatus : Type 0 where
  pub pending_rows : ℕ
  pub done_rows : ℕ
  pub failed_rows : ℕ
  pub oldest_pending : Option ℕ
  pub last_error : Option (List ℕ)

abbrev pub first_pending : List Row → Option Row
first_pending rows =
    elim (sort_up (λ r. r.created_at) (filter_by (λ r. is_pending r.status) rows)) [
      | [] ↦ none
      | r ∷ _ ↦ some r
    ]

unfoldable pub queue_status : List Row → QueueStatus
unfolding sort_up
queue_status rows = record {
  pending_rows = count_by (λ r. is_pending r.status) rows;
  done_rows = count_by (λ r. is_done r.status) rows;
  failed_rows = count_by (λ r. is_failed r.status) rows;
  oldest_pending = elim (first_pending rows) [ none ↦ none | some r ↦ some r.created_at ];
  last_error = elim (first_pending rows) [ none ↦ none | some r ↦ r.last_error ];
}

-- What one attempt to embed an item and add it to the vector store came to.
pub data Attempt : Type 0 where
  stored : Attempt
  raised : List ℕ → Attempt

pub record Report : Type 0 where
  pub processed : ℕ
  pub failures : ℕ
  pub skipped : Bool

-- The loop over the batch. `attempt` is the embedding service and the backend: what they do with
-- the item, from their own state `S`.
unfoldable pub process_items :
    {S : Type 0}
    → (Row → S → Attempt × S)
    → List Row
    → List Row
    → S
    → Report
    → List Row × S × Report
unfolding mark_done mark_failed
process_items attempt [] rows s rep = (rows, s, rep)
process_items attempt (item ∷ batch) rows s rep =
    let (outcome, s') = attempt item s in
    elim outcome [
      | stored ↦
          process_items attempt batch (mark_done item.id rows) s'
            (record rep { processed = rep.processed + 1 })
      | raised error ↦
          process_items attempt batch (mark_failed item.id error rows) s'
            (record rep { failures = rep.failures + 1 })
    ]

-- `if not batch`: an empty batch reports zero, zero and that it was skipped.
abbrev pub is_none_left : List Row → Bool
is_none_left [] = true
is_none_left (_ ∷ _) = false

unfoldable pub process_embedding_queue :
    {S : Type 0} → (Row → S → Attempt × S) → List Row → S → List Row × S × Report
process_embedding_queue attempt rows s =
    process_items attempt (dequeue_batch batch_size rows) rows s (record {
      processed = 0;
      failures = 0;
      skipped = is_none_left (dequeue_batch batch_size rows);
    })

-- `n` runs of the scheduled task
unfoldable pub process_times :
    {S : Type 0} → ℕ → (Row → S → Attempt × S) → List Row → S → List Row × S
process_times zero attempt rows s = (rows, s)
process_times (suc n) attempt rows s =
    let (rows', s', _) = process_embedding_queue attempt rows s in process_times n attempt rows' s'
