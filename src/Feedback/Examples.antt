-- ===== src/Feedback/Examples.antt =====
-- Feedback at concrete memories, with the default settings.
use engram_mem.Base.{String, ◌≡◌, refl, [], ◌∷◌, none, arith}
use engram_mem.Base.Dict.{get, pop}
use engram_mem.Feedback.{
  EpisodicMemory, Store, default_config, positive, negative, adjusted, apply_feedback, is_rejected,
}
use engram_mem.Feedback.Apply
use engram_mem.Feedback.Runs
use engram_mem.Feedback.Runs.{complaints, apply_events, Event, IsBoundedStore}

abbrev doubted : EpisodicMemory
doubted = record {
  content = "the port is 80";
  confidence = 300000;
  priority = 1;
  negative_count = 2;
  last_feedback_at = none;
}

abbrev store : Store
store = ("a", doubted) ∷ []

store-IsBounded : IsBoundedStore store
unfolding get
store-IsBounded id m e = ground arith

third_complaint : (apply_feedback default_config 9 "a" negative store).0 ≡ []
unfolding apply_feedback adjusted get is_rejected pop
third_complaint = refl

abbrev liked : String
liked = "a"

abbrev praise : Event
praise = record { now = 4; id = "a"; kind = positive }

complaints-delete_example :
    get (complaints default_config "a" (1 ∷ 2 ∷ 3 ∷ 4 ∷ 5 ∷ []) store) "a" ≡ none
complaints-delete_example =
    Runs.complaints-delete default_config "a" (1 ∷ 2 ∷ 3 ∷ 4 ∷ 5 ∷ []) store store-IsBounded
      (omega arith) (omega arith) (omega arith) (omega arith)

abbrev long_store : Store
long_store = ("abcdefghij", doubted) ∷ []
