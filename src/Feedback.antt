-- ===== src/Feedback.antt =====
-- src/engram/feedback/loop.py and feedback/auto_adjust.py: user feedback on a memory. A confidence is
-- a number of millionths, so that the settings of config.py are whole; the rounding of floating-point
-- sums is not modelled. The store is a dict from ids to memories.
pub mod Apply
pub mod Runs
pub mod Adjust
mod Examples
use Prim.Native.String.{len}
use text.Mathlib.Text.{starts_with}
use engram_mem.Base.{
  ℕ, ◌+◌, ◌-◌, min, max, String, Bool, true, false, ◌&&◌, Option, none, some, List, [], ◌∷◌, ltb,
  leb, str_eq, if◌then◌else◌,
}
use engram_mem.Base.Dict.{get, put, pop}

-- A confidence of 1.0
abbrev pub one : ℕ
one = 1000000

pub record FeedbackConfig : Type 0 where
  pub positive_boost : ℕ
  pub negative_penalty : ℕ
  pub auto_delete_threshold : ℕ
  pub min_confidence_for_delete : ℕ

abbrev pub default_config : FeedbackConfig
default_config = record {
  positive_boost = 150000;
  negative_penalty = 200000;
  auto_delete_threshold = 3;
  min_confidence_for_delete = 150000;
}

pub data FeedbackType : Type 0 where
  positive negative : FeedbackType

-- The fields that feedback reads or writes, and the text.
pub record EpisodicMemory : Type 0 where
  pub content : String
  pub confidence : ℕ
  pub priority : ℕ
  pub negative_count : ℕ
  pub last_feedback_at : Option ℕ

abbrev pub Store : Type 0
Store = List (String × EpisodicMemory)

pub data FeedbackResult : Type 0 where
  memory_not_found : FeedbackResult
  bad_feedback : FeedbackResult
  deleted : String → FeedbackResult
  updated : String → ℕ → ℕ → ℕ → FeedbackResult

-- The three numbers after the feedback, in the memory that `update_metadata` writes at `now`.
unfoldable pub adjusted : FeedbackConfig → ℕ → FeedbackType → EpisodicMemory → EpisodicMemory
adjusted config now positive m = record m {
  confidence = min one (m.confidence + config.positive_boost);
  priority = min 10 (m.priority + 1);
  last_feedback_at = some now;
}
adjusted config now negative m = record m {
  confidence = m.confidence - config.negative_penalty;
  priority = max 1 (m.priority - 1);
  negative_count = m.negative_count + 1;
  last_feedback_at = some now;
}

-- The condition of the automatic deletion.
unfoldable pub is_rejected : FeedbackConfig → EpisodicMemory → Bool
is_rejected config m =
    leb config.auto_delete_threshold m.negative_count
    && ltb m.confidence config.min_confidence_for_delete

-- Under the lock of the memory.
unfoldable pub apply_feedback :
    FeedbackConfig → ℕ → String → FeedbackType → Store → Store × FeedbackResult
apply_feedback config now memory_id feedback store = elim (get store memory_id) [
  | none ↦ (store, memory_not_found)
  | some memory ↦
      let m = adjusted config now feedback memory in
      if is_rejected config m
      then (pop store memory_id, deleted memory_id)
      else (put store memory_id m, updated memory_id m.confidence m.priority m.negative_count)
]

-- `feedback` as the caller spells it
abbrev pub feedback_of : String → Option FeedbackType
feedback_of word =
    if str_eq word "positive"
    then some positive
    else if str_eq word "negative"
    then some negative
    else none

-- The first of the recent ids that the prefix begins, or else the prefix itself.
unfoldable pub scan : String → List String → String
scan memory_id [] = memory_id
scan memory_id (m ∷ ms) = if starts_with m memory_id then m else scan memory_id ms

-- `recent` holds the ids that `store.get_recent(n=50)` returns.
unfoldable pub resolve : Store → List String → String → String
resolve store recent memory_id =
    if leb (len memory_id) 8
    then elim (get store memory_id) [ some m ↦ memory_id | none ↦ scan memory_id recent ]
    else memory_id

unfoldable pub adjust_memory :
    FeedbackConfig → ℕ → List String → String → String → Store → Store × FeedbackResult
adjust_memory config now recent memory_id word store = elim (feedback_of word) [
  | none ↦ (store, bad_feedback)
  | some feedback ↦ apply_feedback config now (resolve store recent memory_id) feedback store
]
