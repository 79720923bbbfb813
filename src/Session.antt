-- ===== src/Session.antt =====
-- src/engram/session/store.py: the active session and the archive. The directory is the file
-- active.json, if there is one, and the archived files by name with their time of modification; a
-- file that is no session is `corrupt`.
pub mod Lifecycle
mod Examples
use engram_mem.Base.{
  ℕ, String, Bool, true, false, Option, none, some, List, [], ◌∷◌, take, if◌then◌else◌, str_eq,
}
use engram_mem.Base.Dict.{get, put}
use engram_mem.Base.Sort.{sort_down}

pub record Session : Type 0 where
  pub id : String
  pub started_at : ℕ
  pub ended_at : Option ℕ
  pub goal : Option String
  pub discoveries : List String
  pub accomplished : List String
  pub files_touched : List String
  pub namespace : String

pub data SessionFile : Type 0 where
  corrupt : SessionFile
  written : Session → SessionFile

pub record Archived : Type 0 where
  pub modified : ℕ
  pub file : SessionFile

pub record SessionStore : Type 0 where
  pub active : Option SessionFile
  pub archive : List (String × Archived)

abbrev pub started : String → ℕ → String → Session
started id now namespace = record {
  id = id;
  started_at = now;
  ended_at = none;
  goal = none;
  discoveries = [];
  accomplished = [];
  files_touched = [];
  namespace = namespace;
}

-- `id` is the new uuid.
unfoldable pub start_session : String → ℕ → String → SessionStore → Session × SessionStore
start_session id now namespace s =
    let session = started id now namespace in
    (session, record s { active = some (written session) })

-- The session of a file that can be read.
abbrev pub readable : SessionFile → Option Session
readable corrupt = none
readable (written session) = some session

unfoldable pub get_active : SessionStore → Option Session
get_active s = elim s.active [ none ↦ none | some file ↦ readable file ]

unfoldable pub get_active_id : SessionStore → Option String
get_active_id s = elim (get_active s) [ none ↦ none | some session ↦ some session.id ]

-- `if goal:` and the like: an empty value changes nothing.
abbrev pub text_or : Option String → Option String → Option String
text_or none old = old
text_or (some new) old = if str_eq new "" then old else some new

abbrev pub list_or : List String → List String → List String
list_or [] old = old
list_or (x ∷ xs) old = x ∷ xs

-- What the caller of `end` says; a missing list is empty.
pub record Summary : Type 0 where
  pub goal : Option String
  pub discoveries : List String
  pub accomplished : List String
  pub files : List String

unfoldable pub finalized : ℕ → Summary → Session → Session
finalized now summary session = record session {
  ended_at = some now;
  goal = text_or summary.goal session.goal;
  discoveries = list_or summary.discoveries session.discoveries;
  accomplished = list_or summary.accomplished session.accomplished;
  files_touched = list_or summary.files session.files_touched;
}

unfoldable pub end_session : ℕ → Summary → SessionStore → Option Session × SessionStore
end_session now summary s = elim (get_active s) [
  | none ↦ (none, s)
  | some session ↦
      let ended = finalized now summary session in
      (
        some ended,
        record s {
          active = none;
          archive = put s.archive ended.id (record { modified = now; file = written ended });
        },
      )
]

abbrev pub files_of : List (String × Archived) → List Archived
files_of [] = []
files_of ((id, a) ∷ rest) = a ∷ files_of rest

-- The sessions of the files, without those that cannot be read.
unfoldable pub read_files : List Archived → List Session
read_files [] = []
read_files (a ∷ rest) = elim (readable a.file) [
  | none ↦ read_files rest
  | some session ↦ session ∷ read_files rest
]

unfoldable pub get_recent : ℕ → SessionStore → List Session
get_recent n s = read_files (take n (sort_down (λ a. a.modified) (files_of s.archive)))
