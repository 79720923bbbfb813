-- ===== src/Feedback/Adjust.antt =====
-- `adjust_memory`, which takes an id by its first characters.
use mathlib.Core.Path.{subst}
use text.Mathlib.Text.{starts_with}
use text.Mathlib.TextBridge.{IsPrefix}
use text.Mathlib.TextEquality.{starts_with_iff}
use text.Mathlib.TextLemmas.{append-nil, prefix-append}
use engram_mem.Base.{
  ℕ, ◌≡◌, ◌≢◌, String, true, List, [], ◌∷◌, arith, inl, inr, Option-cases, Bool-cases, str_eq_iff,
}
use engram_mem.Base.Dict.{get}
use engram_mem.Feedback.{
  FeedbackConfig, FeedbackType, Store, apply_feedback, resolve, scan, adjust_memory, feedback_of,
}
use engram_mem.Feedback.Apply.{get-apply_feedback}

starts_with_refl : (s : String) → starts_with s s ≡ true
starts_with_refl s =
    (starts_with_iff s s).1 (subst (λ v. IsPrefix s v) (append-nil s) (prefix-append s ""))

scan_lem : (id : String) (recent : List String) → starts_with (scan id recent) id ≡ true
unfolding scan
scan_lem id [] = starts_with_refl id
scan_lem id (m ∷ ms) = elim (Bool-cases (starts_with m id)) [
  | inl e ↦ rw e e
  | inr e ↦ rw e (scan_lem id ms)
]

resolve_lem :
    (store : Store) (recent : List String) (id : String)
    → starts_with (resolve store recent id) id ≡ true
unfolding resolve
resolve_lem store recent id = ground (arith, starts_with_refl id, scan_lem id recent)

changed_only :
    (config : FeedbackConfig) (now : ℕ) (id asked : String) (feedback : FeedbackType)
    (store : Store)
    → get (apply_feedback config now id feedback store).0 asked ≢ get store asked
    → id ≡ asked
changed_only config now id asked feedback store h =
    ground (arith, get-apply_feedback config now id asked feedback store, str_eq_iff id asked, h)

-- Feedback given by a shortened id changes at most memories whose id begins with it, whatever the
-- recent memories are and whatever word the caller sends.
pub adjust_memory-changed :
    (config : FeedbackConfig) (now : ℕ) (recent : List String) (id word asked : String)
    (store : Store)
    → get (adjust_memory config now recent id word store).0 asked ≢ get store asked
    → starts_with asked id ≡ true
unfolding adjust_memory
adjust_memory-changed config now recent id word asked store h =
    elim (Option-cases (feedback_of word)) [
      | inl e ↦ absurd (ground (arith, h))
      | inr (feedback, e) ↦ ground (
        arith,
        changed_only config now (resolve store recent id) asked feedback store,
        resolve_lem store recent id,
        h,
      )
    ]
