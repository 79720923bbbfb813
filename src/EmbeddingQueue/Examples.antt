-- ===== src/EmbeddingQueue/Examples.antt =====
-- The queue at a concrete table.
use engram_mem.Base.{ℕ, ◌≡◌, ◌+◌, ◌≤◌, min, List, [], ◌∷◌, none, arith, ◌==◌}
use engram_mem.EmbeddingQueue.{
  Row, pending, Attempt, raised, batch_size, pending_count, process_embedding_queue, process_times,
}
use engram_mem.EmbeddingQueue.Valid.{IsValid}
use engram_mem.EmbeddingQueue.Process
use engram_mem.EmbeddingQueue.Process.{budget}

abbrev one : List Row
one =
    record {
      id = "m1";
      content = "hi";
      metadata_json = "{}";
      created_at = 7;
      retry_count = 4;
      last_error = none;
      status = pending;
    }
    ∷ []

-- The embedding service is down.
abbrev down : Row → ℕ → Attempt × ℕ
down item n = (raised (65 ∷ []), n + 1)

IsValid-empty : IsValid []
IsValid-empty = record { unique = λ k. omega arith; fair = tt }

one-IsValid : IsValid one
one-IsValid = record { unique = λ k. ground arith; fair = ((λ e. omega arith, λ e. cc), tt) }

process_embedding_queue_lem_example :
    let (rows', _, rep) = process_embedding_queue down one 0 in
    IsValid rows'
    × (budget rows' + min batch_size (pending_count one) ≤ budget one)
    × (rep.processed + rep.failures ≡ min batch_size (pending_count one))
    × (rep.skipped ≡ (pending_count one == 0))
process_embedding_queue_lem_example = Process.process_embedding_queue_lem down one 0 one-IsValid

process_times-drains_example : pending_count (process_times 1 down one 0).0 ≡ 0
process_times-drains_example = Process.process_times-drains 1 down one 0 one-IsValid (omega arith)
