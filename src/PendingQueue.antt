-- ===== src/PendingQueue.antt =====
-- src/engram/episodic/pending_queue.py: the JSONL queue of memories whose embedding failed. A file is
-- its lines, parsed; `none` is no file. The memory store is the entries it has stored, and `accepts`
-- says whether `remember` stores one more or raises.
pub mod Drain
mod Examples
use engram_mem.Base.{
  ℕ, zero, suc, ◌+◌, String, Bool, true, false, Option, none, some, List, [], ◌∷◌, ◌++◌, map,
  length, count_by, if◌then◌else◌,
}

pub record Entry : Type 0 where
  pub content : String
  pub timestamp : String
  pub metadata : String
  pub enqueued_at : String

pub data Line : Type 0 where
  blank malformed : Line
  entry : Entry → Line

abbrev pub File : Type 0
File = Option (List Line)

-- `open("a")` and a write of one line.
unfoldable pub enqueue_entry : Entry → File → File
enqueue_entry e none = some (entry e ∷ [])
enqueue_entry e (some lines) = some (lines ++ entry e ∷ [])

abbrev pub is_written : Line → Bool
is_written blank = false
is_written malformed = true
is_written (entry e) = true

-- A malformed line is counted.
unfoldable pub pending_lines : File → ℕ
pending_lines none = 0
pending_lines (some lines) = count_by is_written lines

unfoldable pub entries_of : List Line → List Entry
entries_of [] = []
entries_of (blank ∷ lines) = entries_of lines
entries_of (malformed ∷ lines) = entries_of lines
entries_of (entry e ∷ lines) = e ∷ entries_of lines

pub record Drained : Type 0 where
  pub success : ℕ
  pub failed : ℕ
  pub file : File
  pub stored : List Entry

-- The file as the last block of `drain` writes it.
unfoldable pub rewritten : List Entry → File
rewritten [] = none
rewritten (e ∷ es) = some (map entry (e ∷ es))

module _ (accepts : List Entry → Entry → Bool) where
  -- The number of entries that were stored, those that were not, and the store.
  unfoldable pub retry : List Entry → List Entry → ℕ × (List Entry × List Entry)
  retry [] stored = (0, ([], stored))
  retry (e ∷ es) stored =
      let stored_now = if accepts stored e then stored ++ e ∷ [] else stored in
      let (success, (failed, after)) = retry es stored_now in
      if accepts stored e then (success + 1, (failed, after)) else (success, (e ∷ failed, after))

  -- `arrived` are the lines that other calls append while this one waits for the store: the file is
  -- read before them and written over after them.
  unfoldable pub drain : List Line → File → List Entry → Drained
  drain arrived none stored = record { success = 0; failed = 0; file = none; stored = stored }
  drain arrived (some lines) stored =
      let (success, (failed, after)) = retry (entries_of lines) stored in
      record { success = success; failed = length failed; file = rewritten failed; stored = after }
