-- ===== src/Feedback/Apply.antt =====
-- One feedback: what it does to each memory, and when it deletes.
use engram_mem.Base.{
  ℕ, ◌+◌, ◌≤◌, ◌<◌, min, ◌≡◌, ◌≢◌, refl, ◌∙◌, ◌↔◌, String, Option, none, some, arith, if◌then◌else◌,
  inl, inr, Option-cases, Bool-cases, str_eq, str_eq_iff, str_eq_refl,
}
use engram_mem.Base.Dict.{get, get-put, get-pop}
use engram_mem.Feedback.{
  one, FeedbackConfig, FeedbackType, positive, negative, EpisodicMemory, Store, memory_not_found,
  adjusted, is_rejected, apply_feedback,
}

-- A confidence between 0 and 1 and a priority between 1 and 10.
abbrev pub IsBounded : EpisodicMemory → Type 0
IsBounded m = (m.confidence ≤ one) × (1 ≤ m.priority) × (m.priority ≤ 10)

pub adjusted-IsBounded :
    (config : FeedbackConfig) (now : ℕ) (feedback : FeedbackType) (m : EpisodicMemory)
    → IsBounded m
    → IsBounded (adjusted config now feedback m)
unfolding adjusted
adjusted-IsBounded config now positive m h = (omega arith, omega arith, omega arith)
adjusted-IsBounded config now negative m h = (omega (arith, h.0), omega arith, omega (arith, h.2))

-- What is left of a memory after a feedback on it.
unfoldable pub kept : FeedbackConfig → ℕ → FeedbackType → EpisodicMemory → Option EpisodicMemory
kept config now feedback m =
    if is_rejected config (adjusted config now feedback m)
    then none
    else some (adjusted config now feedback m)

pub absent :
    (config : FeedbackConfig) (now : ℕ) (id : String) (feedback : FeedbackType) (store : Store)
    → get store id ≡ none
    → apply_feedback config now id feedback store ≡ (store, memory_not_found)
unfolding apply_feedback
absent config now id feedback store e = rw (e, apply_feedback) refl

pub present :
    (config : FeedbackConfig) (now : ℕ) (id : String) (feedback : FeedbackType) (store : Store)
    (m : EpisodicMemory)
    → get store id ≡ some m
    → get (apply_feedback config now id feedback store).0 id ≡ kept config now feedback m
unfolding apply_feedback kept
present config now id feedback store m e =
    rw (e, apply_feedback)
      (elim (Bool-cases (is_rejected config (adjusted config now feedback m))) [
        | inl r ↦ rw r (get-pop store id id ∙ rw (str_eq_refl id) refl)
        | inr r ↦
            rw r (get-put store id (adjusted config now feedback m) id ∙ rw (str_eq_refl id) refl)
      ])

pub other :
    (config : FeedbackConfig) (now : ℕ) (id asked : String) (feedback : FeedbackType)
    (store : Store)
    → id ≢ asked
    → get (apply_feedback config now id feedback store).0 asked ≡ get store asked
unfolding apply_feedback
other config now id asked feedback store ne = elim (Option-cases (get store id)) [
  | inl e ↦ rw (e, apply_feedback) refl
  | inr (m, e) ↦
      rw (e, apply_feedback)
        (ground (
          arith,
          get-pop store id asked,
          get-put store id (adjusted config now feedback m) asked,
          str_eq_iff id asked,
        ))
]

-- The memory that one feedback leaves under an id, if any.
unfoldable pub kept_of :
    FeedbackConfig → ℕ → FeedbackType → Option EpisodicMemory → Option EpisodicMemory
kept_of config now feedback none = none
kept_of config now feedback (some m) = kept config now feedback m

-- A feedback reaches the memory of its id alone: that memory is adjusted or, if it is rejected,
-- deleted; every other id holds what it held, and no memory appears.
pub get-apply_feedback :
    (config : FeedbackConfig) (now : ℕ) (id asked : String) (feedback : FeedbackType)
    (store : Store)
    → get (apply_feedback config now id feedback store).0 asked
      ≡ (if str_eq id asked then kept_of config now feedback (get store asked) else get store asked)
unfolding kept_of
get-apply_feedback config now id asked feedback store = elim (Bool-cases (str_eq id asked)) [
  | inl e ↦ elim (Option-cases (get store id)) [
    | inl n ↦ ground (arith, absent config now id feedback store n, str_eq_iff id asked)
    | inr (m, s) ↦ ground (arith, present config now id feedback store m s, str_eq_iff id asked)
  ]
  | inr e ↦ ground (arith, other config now id asked feedback store, str_eq_iff id asked)
]

-- A memory of the store is gone after a feedback exactly if its count of negative feedbacks has
-- reached the threshold and its confidence has come below the minimum, both after the adjustment.
pub apply_feedback-deleted_iff :
    (config : FeedbackConfig) (now : ℕ) (id : String) (feedback : FeedbackType) (store : Store)
    (m : EpisodicMemory)
    → get store id ≡ some m
    → let m' = adjusted config now feedback m in
      (get (apply_feedback config now id feedback store).0 id ≡ none) ↔ (
        (config.auto_delete_threshold ≤ m'.negative_count)
        × (m'.confidence < config.min_confidence_for_delete))
unfolding kept is_rejected
apply_feedback-deleted_iff config now id feedback store m e =
    ground (arith, present config now id feedback store m e)

-- How a feedback moves a memory that it leaves: in its direction, by at most the step of the settings.
abbrev pub IsMoved : FeedbackConfig → FeedbackType → EpisodicMemory → EpisodicMemory → Type 0
IsMoved config positive m m' =
    (m.confidence ≤ m'.confidence)
    × (m'.confidence ≤ m.confidence + config.positive_boost)
    × (m.priority ≤ m'.priority)
    × (m'.negative_count ≡ m.negative_count)
IsMoved config negative m m' =
    (m'.confidence ≤ m.confidence)
    × (m.confidence ≤ m'.confidence + config.negative_penalty)
    × (m'.priority ≤ m.priority)
    × (m'.negative_count ≡ m.negative_count + 1)

-- The memory has been called wrong often enough, this time included, and its confidence is below the
-- minimum after this feedback, whose step is written on the side where nothing is cut off.
abbrev pub IsHopeless : FeedbackConfig → FeedbackType → EpisodicMemory → Type 0
IsHopeless config positive m =
    (config.auto_delete_threshold ≤ m.negative_count)
    × (min one (m.confidence + config.positive_boost) < config.min_confidence_for_delete)
IsHopeless config negative m =
    (config.auto_delete_threshold ≤ m.negative_count + 1)
    × (0 < config.min_confidence_for_delete)
    × (m.confidence < config.min_confidence_for_delete + config.negative_penalty)
