-- ===== src/PendingQueue/Examples.antt =====
-- A drain at concrete files.
use engram_mem.Base.{◌+◌, ◌≡◌, refl, Bool, true, List, [], ◌∷◌, some, none, length, count_by}
use engram_mem.PendingQueue.{
  Entry, Line, blank, malformed, entry, entries_of, drain, retry, rewritten,
}
use engram_mem.PendingQueue.Drain
use engram_mem.PendingQueue.Drain.{file_entries}

abbrev note : Entry
note = record { content = "tea"; timestamp = ""; metadata = "{}"; enqueued_at = "" }

all_fit : List Entry → Entry → Bool
all_fit stored e = true

-- An entry that arrives during the drain is lost.
arrival_lost : (drain all_fit (entry note ∷ []) (some (entry note ∷ [])) []).file ≡ none
unfolding drain retry rewritten entries_of all_fit
arrival_lost = refl

abbrev lines : List Line
lines = entry note ∷ blank ∷ malformed ∷ []

drain_lem_example :
    let out = drain all_fit (entry note ∷ []) (some lines) [] in
    (count_by (λ e. true) (file_entries out.file) + count_by (λ e. true) out.stored
      ≡ count_by (λ e. true) (entries_of lines) + 0)
    × (out.success + out.failed ≡ length (entries_of lines))
    × (length (file_entries out.file) ≡ out.failed)
drain_lem_example = Drain.drain_lem all_fit (λ e. true) (entry note ∷ []) lines []
