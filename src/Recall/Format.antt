-- ===== src/Recall/Format.antt =====
-- src/engram/recall/fusion_formatter.py: recalled memories as text for a prompt, by type and under a limit
-- of characters.
use Prim.Native.String.{◌++◌ as join}
use engram_mem.Base.{
  ℕ, suc, ◌+◌, ◌-◌, String, ltb, Option, none, some, List, [], ◌∷◌, ◌++◌, any_of, str_eq,
  if◌then◌else◌,
}
use engram_mem.Base.Dict.{get, put}
use engram_mem.Base.Sort.{sort_up}
use engram_mem.Base.Texts.{size, prefix}

-- A result with the attributes that are read: `meta_type` is the type in its metadata, and `outdated`
-- the reason, which may be empty, if it is outdated.
pub record Recalled : Type 0 where
  pub id : String
  pub content : String
  pub memory_type : String
  pub meta_type : Option String
  pub outdated : Option String

abbrev pub type_priority : List String
type_priority = "preference" ∷ "fact" ∷ "lesson" ∷ "decision" ∷ "context" ∷ "observation" ∷ []

abbrev pub max_entry_chars : ℕ
max_entry_chars = 200

-- `value or other`
abbrev pub or_text : String → String → String
or_text value other = if str_eq value "" then other else value

unfoldable pub get_type : Recalled → String
get_type r =
    or_text r.memory_type (elim r.meta_type [ none ↦ "memory" | some t ↦ or_text t "memory" ])

-- A type without a priority is "memory".
unfoldable pub group_of : Recalled → String
unfolding get_type
group_of r = if any_of (str_eq (get_type r)) type_priority then get_type r else "memory"

unfoldable pub flagged : Recalled → String
flagged r = elim r.outdated [
  | none ↦ r.content
  | some reason ↦
      if str_eq reason ""
      then join "[OUTDATED] " r.content
      else join (join (join "[OUTDATED: " reason) "] ") r.content
]

-- An entry is cut to 200 characters.
unfoldable pub truncated : String → String
truncated content =
    if ltb max_entry_chars (size content)
    then join (prefix (max_entry_chars - 3) content) "..."
    else content

unfoldable pub id_prefix : String → String
id_prefix id = if str_eq id "" then "" else join (join "[mem-" (prefix 8 id)) "] "

unfoldable pub entry_of : Recalled → String
unfolding flagged truncated id_prefix
entry_of r = join (id_prefix r.id) (truncated (flagged r))

-- `groups.setdefault(type, []).append(entry)` for each result
unfoldable pub grouped : List Recalled → List (String × List String) → List (String × List String)
unfolding group_of entry_of
grouped [] groups = groups
grouped (r ∷ results) groups =
    let held = elim (get groups (group_of r)) as (λ o. List String) [
      | none ↦ []
      | some entries ↦ entries
    ] in
    grouped results (put groups (group_of r) (held ++ entry_of r ∷ []))

-- The place of a type in the list, or its length.
unfoldable pub index_in : String → List String → ℕ
index_in t [] = 0
index_in t (u ∷ types) = if str_eq u t then 0 else suc (index_in t types)

unfoldable pub labelled : String → List String → List String
labelled type [] = []
labelled type (content ∷ entries) = join (join (join "[" type) "] ") content ∷ labelled type entries

unfoldable pub all_entries : List (String × List String) → List String
unfolding labelled
all_entries [] = []
all_entries ((type, entries) ∷ groups) = labelled type entries ++ all_entries groups

-- The lines until one does not fit, `total` being the characters so far.
unfoldable pub fitting : ℕ → ℕ → List String → List String
unfolding size
fitting max_chars total [] = []
fitting max_chars total (entry ∷ entries) =
    let rest = fitting max_chars (total + (size entry + 1)) entries in
    if ltb max_chars (total + size entry + 1) then [] else entry ∷ rest

-- `"\n".join(lines)`
unfoldable pub join_lines : List String → String
join_lines [] = ""
join_lines (line ∷ []) = line
join_lines (line ∷ next ∷ lines) = join (join line "\n") (join_lines (next ∷ lines))

unfoldable pub ordered_entries : List Recalled → List String
unfolding grouped index_in all_entries
ordered_entries results =
    all_entries (sort_up (λ g. index_in g.0 type_priority) (grouped results []))

unfoldable pub format_for_llm : List Recalled → ℕ → String
unfolding ordered_entries fitting join_lines
format_for_llm results max_chars = join_lines (fitting max_chars 0 (ordered_entries results))
