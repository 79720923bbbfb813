-- ===== src/Lib.antt =====
-- Engram, a memory server for agents (Python, the package src/engram): a model of its core with
-- proofs.
--
-- Parts. Clients come in through HTTP, guarded by authentication (src/engram/auth.py), or through a
-- WebSocket (src/engram/ws), and each tenant has its own stores and graph (src/engram/tenant.py). A
-- memory whose embedding fails waits in the embedding queue (src/engram/episodic/
-- embedding_queue.py) or in the older file queue (pending_queue.py beside it); the scheduler
-- (src/engram/scheduler.py) empties both and starts the maintenance, with regard to the resource
-- tier (src/engram/resource_tier.py). The consolidation engine (src/engram/consolidation/engine.py)
-- clusters memories that overlap and stores a summary of each cluster; it runs by the scheduler or
-- after so many messages (auto_trigger.py beside it). Recall fuses the results of several channels
-- (src/engram/recall), external providers add theirs (src/engram/providers), and the user's
-- feedback changes a memory's confidence or deletes it (src/engram/feedback).
--
-- Files.
--   Base          shared names; Base/Dict is Python's dict, Base/Sort is `sorted`.
--   Consolidation `_cluster_by_overlap`: UnionFind has `find` and `union`, Cluster the overlap test,
--                 the loops and the grouping (`link_row`, `link_rows`, `gather`), Forest, Linking,
--                 Rows, Groups and Partition the proofs; Engine has `consolidate`, Untouched its proofs.
--   EmbeddingQueue  the SQL table as a list of rows, one function for each statement (`enqueue`,
--                 `dequeue_batch`, `mark_done`, `mark_failed`, `pending_count`, `queue_status`) and
--                 `process_embedding_queue`; proofs in Valid and Process.
--   Auth          roles, API keys, JWT payloads; Auth/Access has `_require_role` and
--                 `get_auth_context`; proofs in Keys, Tokens, Access/Rules and Access/Granted.
--   ResourceTier  `ResourceMonitor` of src/engram/resource_tier.py, each method a function of the time
--                 (and of the random draw); proofs in Tier (the tier) and Recovery (runs of failures).
--   Feedback      `FeedbackProcessor.apply_feedback` of src/engram/feedback/loop.py over a dict of
--                 memories, and `adjust_memory` of feedback/auto_adjust.py; proofs in Apply (one
--                 feedback), Runs (many) and Adjust (shortened ids).
--   AutoTrigger   `AutoConsolidationTrigger` of src/engram/consolidation/auto_trigger.py and its tasks as
--                 a step relation; proofs in Exclusion and Counting.
--   Providers     `MemoryProvider` of src/engram/providers/base.py and `federated_search` of
--                 providers/router.py; proofs in Tracked (the statistics while searches of a provider
--                 overlap, as a step relation), Merged (deduplication and order) and Federated (the
--                 whole search).
--   Tenant        ids, LRU caches and paths of src/engram/tenant.py; Cache has the lemmas on keys,
--                 Recency and Requests the order of eviction, Isolation the separation of tenants.
--   Scheduler     the tasks and ticks of src/engram/scheduler.py; proofs in Spacing.
--   PendingQueue  the file and `drain` of src/engram/episodic/pending_queue.py; proofs in Drain.
--   Recall        `_fuse` of src/engram/recall/parallel_search.py and `rerank` of recall/reranker.py;
--                 proofs in Rerank and Fuse; Format has `format_for_llm` of recall/fusion_formatter.py,
--                 Formatted its proofs.
--   WebSocket     the frames of src/engram/ws/handler.py and protocol.py and the table of
--                 ws/connection_manager.py; proofs in Guards and Connections.
--   Session       `SessionStore` of src/engram/session/store.py; proofs in Lifecycle.
--   Semantic      `SemanticGraph` of src/engram/semantic/graph.py over an interface for NetworkX, and the
--                 tables of semantic/sqlite_backend.py: Backend has the statements, Merge and Graph the
--                 loading, Writes and Batches the writes, Read the reads; proofs in Agree, Arcs, Synced
--                 and Runs (memory and backend), Variants and OneKey (keys up to case), Loading and
--                 Joined (the loaded edges) and Removal. Orphans has the links that
--                 semantic/orphan_linker.py suggests and adds; their proofs are in Tally, Mentions, Counts
--                 and Suggestions. `str.lower` and `str.casefold` are parameters.
--   Episodic      the collection of src/engram/episodic/qdrant_backend.py and the index of fts_index.py as
--                 lists, with the filter that `_build_qdrant_filter` makes of a `where` clause;
--                 Maintenance has `reconcile_stores` and `cleanup_expired` of
--                 episodic_maintenance.py, Search the searches of episodic_search.py and search.py over
--                 the answer of the vector search; proofs in Ids, Reconcile, Pages, Expired, Filters,
--                 Results and Recent. Dedup has `cleanup_dedup`; proofs in Winners and Updated. The loops over
--                 pages and batches are on fuel, one round per memory.
--   RateLimiter   `RateLimiter.check` of src/engram/rate_limiter.py over a dict of sorted sets, with the
--                 failures of Redis; proofs in Window.
--
-- Fuel. `find` loops on fuel; the two loops of the clustering are given n * n + 1 for n memories, one
-- more than the number of unions that they can make, which bounds the depth of the forest.
--
-- Numbers. A similarity threshold is a fraction, and instants are natural numbers: seconds,
-- and in ResourceTier the quarter of 2 ^ -53 seconds, in which the jitter of each random draw is whole.
-- A confidence is a number of millionths; floating-point rounding is not modelled.
--
-- Not modelled: SHA-256, the JWT library, the embedding service, the vector store, the LLM, the
-- reranking model and the search of a provider, which are parameters or arguments; logging; file and
-- database failures, but for those that the files name; Unicode case folding, which is a parameter too. Texts are measured in bytes, which
-- are the characters of the ids, where lengths matter. Of the repository's own code: the writes of
-- episodic/episodic_crud.py, the PostgreSQL backend, the ranking of the full-text index, the event bus,
-- the caches, and the command line, MCP, client and capture layers.
pub mod Base
pub mod Consolidation
pub mod EmbeddingQueue
pub mod Auth
pub mod ResourceTier
pub mod Feedback
pub mod AutoTrigger
pub mod Providers
pub mod Tenant
pub mod Scheduler
pub mod PendingQueue
pub mod Recall
pub mod WebSocket
pub mod Session
pub mod Semantic
pub mod Episodic
pub mod RateLimiter
