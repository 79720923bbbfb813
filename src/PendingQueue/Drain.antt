-- ===== src/PendingQueue/Drain.antt =====
-- What a drain keeps, stores and loses.
use engram_mem.Base.{
  ◌+◌, ◌≡◌, refl, ap, Bool, none, some, List, [], ◌∷◌, ◌++◌, map, arith, length, count_by, inl, inr,
  Bool-cases,
}
use engram_mem.PendingQueue.{Entry, Line, entry, File, entries_of, rewritten, retry, drain}

-- The entries of a file.
unfoldable pub file_entries : File → List Entry
file_entries none = []
file_entries (some lines) = entries_of lines

entries_of-map : (es : List Entry) → entries_of (map entry es) ≡ es
unfolding entries_of
entries_of-map [] = refl
entries_of-map (e ∷ es) = ap (λ l. e ∷ l) (entries_of-map es)

file_entries-rewritten : (es : List Entry) → file_entries (rewritten es) ≡ es
unfolding file_entries rewritten
file_entries-rewritten [] = refl
file_entries-rewritten (e ∷ es) = entries_of-map (e ∷ es)

count-snoc :
    (p : Entry → Bool) (es : List Entry) (e : Entry)
    → count_by p (es ++ e ∷ []) ≡ count_by p es + count_by p (e ∷ [])
count-snoc p [] e = omega arith
count-snoc p (x ∷ es) e = ground (arith, count-snoc p es e)

module _ (accepts : List Entry → Entry → Bool) where
  retry_lem :
      (p : Entry → Bool) (es stored : List Entry)
      → let out = retry accepts es stored in
        (count_by p out.1.0 + count_by p out.1.1 ≡ count_by p es + count_by p stored)
        × (out.0 + length out.1.0 ≡ length es)
  unfolding retry
  retry_lem p [] stored = (refl, refl)
  retry_lem p (e ∷ es) stored = elim (Bool-cases (accepts stored e)) [
    | inl a ↦
        let rest = retry_lem p es (stored ++ e ∷ []) in
        rw a (ground (arith, rest.0, count-snoc p stored e), omega (arith, rest.1))
    | inr a ↦
        let rest = retry_lem p es stored in rw a (ground (arith, rest.0), omega (arith, rest.1))
  ]

  -- A drain moves entries from the queue to the store and loses none that it has read: each of them
  -- is stored or still in the file, and the two numbers it returns count them. Lines that arrive
  -- while it waits for the store are in neither: the file is written over.
  pub drain_lem :
      (p : Entry → Bool) (arrived lines : List Line) (stored : List Entry)
      → let out = drain accepts arrived (some lines) stored in
        (count_by p (file_entries out.file) + count_by p out.stored
          ≡ count_by p (entries_of lines) + count_by p stored)
        × (out.success + out.failed ≡ length (entries_of lines))
        × (length (file_entries out.file) ≡ out.failed)
  unfolding drain
  drain_lem p arrived lines stored =
      let out = retry accepts (entries_of lines) stored in
      let h = retry_lem p (entries_of lines) stored in
      rw (file_entries-rewritten out.1.0) (h.0, h.1, refl)
