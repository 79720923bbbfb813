-- ===== src/Recall/Formatted.antt =====
-- The size and the lines of the text that src/engram/recall/fusion_formatter.py makes.
use Prim.Native.String.{◌++◌ as join}
use engram_mem.Base.{
  ℕ, ◌+◌, ◌≤◌, ◌≡◌, refl, ap, String, List, [], ◌∷◌, take, length, arith, dec_lt, lt→ltb,
  not_lt→ltb,
}
use engram_mem.Base.Texts.{size, size-append}
use engram_mem.Recall.Format.{Recalled, fitting, join_lines, ordered_entries, format_for_llm}

-- The characters of the lines, each with its newline.
abbrev total_size : List String → ℕ
total_size [] = 0
total_size (line ∷ lines) = size line + 1 + total_size lines

size-join_lines : (lines : List String) → size (join_lines lines) ≤ total_size lines
unfolding join_lines size
size-join_lines [] = omega arith
size-join_lines (line ∷ []) = omega arith
size-join_lines (line ∷ next ∷ lines) = omega (
  arith,
  size-append (join line "\n") (join_lines (next ∷ lines)),
  size-append line "\n",
  newline,
  size-join_lines (next ∷ lines),
)
  where
    newline : size "\n" ≡ 1
    newline = refl

fitting-fits :
    (max_chars total : ℕ) (entries : List String)
    → total ≤ max_chars
    → total + total_size (fitting max_chars total entries) ≤ max_chars
unfolding fitting
fitting-fits max_chars total [] h = omega (arith, h)
fitting-fits max_chars total (entry ∷ entries) h =
    elim (dec_lt max_chars (total + size entry + 1)) [
      | yes over ↦ rw (lt→ltb max_chars (total + size entry + 1) over) (omega (arith, h))
      | no fits ↦ rw (not_lt→ltb max_chars (total + size entry + 1) fits) (
          omega (
            arith,
            fitting-fits max_chars (total + (size entry + 1)) entries (omega (arith, fits)),
          ))
    ]

fitting-take :
    (max_chars total : ℕ) (entries : List String)
    → fitting max_chars total entries ≡ take (length (fitting max_chars total entries)) entries
unfolding fitting
fitting-take max_chars total [] = refl
fitting-take max_chars total (entry ∷ entries) = elim (dec_lt max_chars (total + size entry + 1)) [
  | yes over ↦ rw (lt→ltb max_chars (total + size entry + 1) over) refl
  | no fits ↦
      rw (not_lt→ltb max_chars (total + size entry + 1) fits)
        (ap (λ l. entry ∷ l) (fitting-take max_chars (total + (size entry + 1)) entries))
]

-- The text has at most `max_chars` characters, and its lines are the first entries in the order of the
-- types, as many as it has, none of them cut by the limit.
pub size-format_for_llm :
    (results : List Recalled) (max_chars : ℕ)
    → (size (format_for_llm results max_chars) ≤ max_chars)
      × ((n : ℕ) × (format_for_llm results max_chars
            ≡ join_lines (take n (ordered_entries results))))
unfolding format_for_llm
size-format_for_llm results max_chars =
    let entries = ordered_entries results in
    let lines = fitting max_chars 0 entries in
    (
      omega (arith, size-join_lines lines, fitting-fits max_chars 0 entries (omega arith)),
      (length lines, ap join_lines (fitting-take max_chars 0 entries)),
    )
