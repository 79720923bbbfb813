-- ===== src/Feedback/Runs.antt =====
-- Many feedbacks: the bounds hold for ever, and a memory that is always called wrong goes away.
use engram_mem.Base.{
  length, ◌⊎◌, ℕ, ◌+◌, ◌*◌, ◌≤◌, ◌<◌, ◌≡◌, refl, ◌∙◌, String, true, false, Option, none, some, List,
  [], ◌∷◌, arith, inl, inr, Option-cases, dec_lt, Bool-cases, str_eq,
}
use engram_mem.Base.Dict.{get}
use engram_mem.Feedback.{
  one, FeedbackConfig, FeedbackType, negative, EpisodicMemory, Store, adjusted, is_rejected,
  apply_feedback,
}
use engram_mem.Feedback.Apply.{
  IsBounded, adjusted-IsBounded, kept, kept_of, get-apply_feedback, absent, present,
}

-- One feedback of a run: its time, its memory and its kind.
pub record Event : Type 0 where
  pub now : ℕ
  pub id : String
  pub kind : FeedbackType

unfoldable pub apply_events : FeedbackConfig → List Event → Store → Store
apply_events config [] store = store
apply_events config (e ∷ es) store =
    apply_events config es (apply_feedback config e.now e.id e.kind store).0

-- Every memory of the store has its numbers in bounds.
abbrev pub IsBoundedStore : Store → Type 0
IsBoundedStore store = (id : String) (m : EpisodicMemory) → get store id ≡ some m → IsBounded m

kept_of-IsBounded :
    (config : FeedbackConfig) (now : ℕ) (feedback : FeedbackType) (old : Option EpisodicMemory)
    (m : EpisodicMemory)
    → ((n : EpisodicMemory) → old ≡ some n → IsBounded n)
    → kept_of config now feedback old ≡ some m
    → IsBounded m
unfolding kept_of kept
kept_of-IsBounded config now feedback none m h e = absurd (ground arith)
kept_of-IsBounded config now feedback (some n) m h e =
    ground (arith, adjusted-IsBounded config now feedback n (h n refl))

apply_feedback-IsBoundedStore :
    (config : FeedbackConfig) (now : ℕ) (id : String) (feedback : FeedbackType) (store : Store)
    → IsBoundedStore store
    → IsBoundedStore (apply_feedback config now id feedback store).0
apply_feedback-IsBoundedStore config now id feedback store h asked m e =
    elim (Bool-cases (str_eq id asked)) [
      | inl t ↦
          kept_of-IsBounded config now feedback (get store asked) m (h asked)
            (ground (arith, get-apply_feedback config now id asked feedback store))
      | inr t ↦ h asked m (ground (arith, get-apply_feedback config now id asked feedback store))
    ]

-- However feedback comes, in whatever order, on whatever memories and with whatever settings, every
-- confidence stays between 0 and 1 and every priority between 1 and 10.
pub apply_events-IsBounded :
    (config : FeedbackConfig) (es : List Event) (store : Store)
    → IsBoundedStore store
    → (id : String) (m : EpisodicMemory) → get (apply_events config es store) id ≡ some m
    → IsBounded m
unfolding apply_events
apply_events-IsBounded config [] store h id m = h id m
apply_events-IsBounded config (e ∷ es) store h id m =
    apply_events-IsBounded config es (apply_feedback config e.now e.id e.kind store).0
      (apply_feedback-IsBoundedStore config e.now e.id e.kind store h) id m

-- The same memory called wrong at each of the times.
unfoldable pub complaints : FeedbackConfig → String → List ℕ → Store → Store
complaints config id [] store = store
complaints config id (now ∷ times) store =
    complaints config id times (apply_feedback config now id negative store).0

complaints-absent :
    (config : FeedbackConfig) (id : String) (times : List ℕ) (store : Store)
    → get store id ≡ none
    → get (complaints config id times store) id ≡ none
unfolding complaints
complaints-absent config id [] store e = e
complaints-absent config id (now ∷ times) store e =
    rw (absent config now id negative store e) (complaints-absent config id times store e)

kept-negative :
    (config : FeedbackConfig) (now : ℕ) (m : EpisodicMemory)
    → (kept config now negative m ≡ none)
      ⊎ ((kept config now negative m ≡ some (adjusted config now negative m))
          × (is_rejected config (adjusted config now negative m) ≡ false))
unfolding kept
kept-negative config now m =
    elim (Bool-cases (is_rejected config (adjusted config now negative m))) [
      | inl e ↦ inl (rw e refl)
      | inr e ↦ inr (rw e (refl, refl))
    ]

mul_suc : (n penalty : ℕ) → (n + 1) * penalty ≡ n * penalty + penalty
mul_suc n penalty = grind arith

rejected_at_zero :
    (config : FeedbackConfig) (now : ℕ) (m : EpisodicMemory)
    → 0 < config.min_confidence_for_delete
    → m.confidence ≤ config.negative_penalty
    → config.auto_delete_threshold ≤ m.negative_count + 1
    → is_rejected config (adjusted config now negative m) ≡ true
unfolding is_rejected adjusted
rejected_at_zero config now m pos c t = ground (arith, c, t)

lowered :
    (config : FeedbackConfig) (now : ℕ) (m : EpisodicMemory) (k : ℕ)
    → m.confidence ≤ k * config.negative_penalty + config.negative_penalty
    → (adjusted config now negative m).confidence ≤ k * config.negative_penalty
unfolding adjusted
lowered config now m k h = omega arith

counted :
    (config : FeedbackConfig) (now : ℕ) (m : EpisodicMemory) (k : ℕ)
    → config.auto_delete_threshold ≤ m.negative_count + (k + 1)
    → config.auto_delete_threshold ≤ (adjusted config now negative m).negative_count + k
unfolding adjusted
counted config now m k h = omega arith

complaints-delete_from :
    (config : FeedbackConfig) (id : String) (times : List ℕ) (store : Store) (m : EpisodicMemory)
    → get store id ≡ some m
    → 0 < config.min_confidence_for_delete
    → 0 < length times
    → m.confidence ≤ length times * config.negative_penalty
    → config.auto_delete_threshold ≤ m.negative_count + length times
    → get (complaints config id times store) id ≡ none
unfolding complaints
complaints-delete_from config id [] store m e pos some_time c t = absurd (omega arith)
complaints-delete_from config id (now ∷ times) store m e pos some_time c t =
    let p = present config now id negative store m e in
    let c' = mul_suc (length times) config.negative_penalty in
    let times_left : (length times ≡ 0) ⊎ (0 < length times) = elim (dec_lt 0 (length times)) [
      | yes h ↦ inr h
      | no h ↦ inl (omega arith)
    ] in
    elim (kept-negative config now m) [
      | inl gone ↦ complaints-absent config id times _ (p ∙ gone)
      | inr (left, accepted) ↦ elim times_left [
        | inl last ↦ absurd (ground (arith, accepted, rejected_at_zero config now m pos))
        | inr more ↦
            complaints-delete_from config id times (apply_feedback config now id negative store).0
              (adjusted config now negative m) (p ∙ left) pos more
              (lowered config now m (length times) (omega arith))
              (counted config now m (length times) (omega arith))
      ]
    ]

-- In a store whose memories have their numbers in bounds, a memory that is called wrong often enough
-- goes away: at least once, as often as the threshold, and as often as penalties take away a whole
-- confidence of 1. The settings must have a minimum confidence above 0, below which a memory can be
-- deleted at all.
pub complaints-delete :
    (config : FeedbackConfig) (id : String) (times : List ℕ) (store : Store)
    → IsBoundedStore store
    → 0 < config.min_confidence_for_delete
    → 0 < length times
    → one ≤ length times * config.negative_penalty
    → config.auto_delete_threshold ≤ length times
    → get (complaints config id times store) id ≡ none
complaints-delete config id times store h pos some_time c t = elim (Option-cases (get store id)) [
  | inl e ↦ complaints-absent config id times store e
  | inr (m, e) ↦
      complaints-delete_from config id times store m e pos some_time (omega (arith, (h id m e).0))
        (omega arith)
]
