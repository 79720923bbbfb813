-- ===== src/Session/Lifecycle.antt =====
-- A session from its start to the archive.
use engram_mem.Base.{
  ℕ, suc, ◌<◌, ◌≡◌, ◌≢◌, refl, ◌∙◌, ap, String, none, some, List, [], ◌∷◌, ◌++◌, take, arith, leb,
  str_eq, str_eq_iff, inl, inr, Bool-cases, All,
}
use engram_mem.Base.Dict.{get, put}
use engram_mem.Base.Sort.{sort_down, sort_by, insert_by}
use engram_mem.Session.{
  Session, written, Archived, SessionStore, start_session, started, get_active, text_or, list_or,
  Summary, finalized, end_session, files_of, read_files, get_recent,
}

-- A new file comes last.
files_of-put :
    (archive : List (String × Archived)) (id : String) (file : Archived)
    → get archive id ≡ none
    → files_of (put archive id file) ≡ files_of archive ++ file ∷ []
unfolding get put
files_of-put [] id file h = refl
files_of-put ((here, old) ∷ rest) id file h = elim (Bool-cases (str_eq here id)) [
  | inl e ↦ absurd (ground (arith, e, h))
  | inr e ↦ rw (e, put) (ap (λ l. old ∷ l) (files_of-put rest id file (ground (arith, e, h))))
]

insert-second :
    (y x : Archived) (xs : List Archived)
    → y.modified < x.modified
    → insert_by (λ a b. leb b.modified a.modified) y (x ∷ xs)
      ≡ x ∷ insert_by (λ a b. leb b.modified a.modified) y xs
unfolding insert_by
insert-second y x xs h = ground (arith, h)

-- The newest file is the first in the order of the times.
sort_down-snoc :
    (x : Archived) (xs : List Archived)
    → All (λ y. y.modified < x.modified) xs
    → sort_down (λ a. a.modified) (xs ++ x ∷ []) ≡ x ∷ sort_down (λ a. a.modified) xs
unfolding sort_down sort_by insert_by
sort_down-snoc x [] h = refl
sort_down-snoc x (y ∷ xs) h =
    ap (insert_by (λ a b. leb b.modified a.modified) y) (sort_down-snoc x xs h.1)
    ∙ insert-second y x (sort_down (λ a. a.modified) xs) h.0

goal_kept : (goal : String) → goal ≢ "" → text_or (some goal) none ≡ some goal
goal_kept goal h = ground (arith, h, str_eq_iff goal "")

list_kept : (xs : List String) → list_or xs [] ≡ xs
list_kept [] = refl
list_kept (x ∷ xs) = refl

-- What the end makes of a session that has just been started.
finalized_new :
    (id namespace goal : String) (now later : ℕ) (discoveries accomplished files : List String)
    → goal ≢ ""
    → finalized later
        (record {
          goal = some goal;
          discoveries = discoveries;
          accomplished = accomplished;
          files = files;
        })
        (started id now namespace)
      ≡ record {
        id = id;
        started_at = now;
        ended_at = some later;
        goal = some goal;
        discoveries = discoveries;
        accomplished = accomplished;
        files_touched = files;
        namespace = namespace;
      }
unfolding finalized
finalized_new id namespace goal now later discoveries accomplished files h =
    rw (goal_kept goal h, list_kept discoveries, list_kept accomplished, list_kept files) refl

get_recent-newest :
    (session : Session) (modified n : ℕ) (s : SessionStore)
    → get s.archive session.id ≡ none
    → All (λ a. a.modified < modified) (files_of s.archive)
    → let file : Archived = record { modified = modified; file = written session } in
      get_recent (suc n) (record { active = none; archive = put s.archive session.id file })
      ≡ session ∷ get_recent n s
unfolding get_recent read_files
get_recent-newest session modified n s new older =
    let file : Archived = record { modified = modified; file = written session } in
    ap (λ files. read_files (take (suc n) (sort_down (λ a. a.modified) files)))
      (files_of-put s.archive session.id file new)
    ∙ ap (λ files. read_files (take (suc n) files)) (sort_down-snoc file (files_of s.archive) older)

-- A session that is started under a new id and ended with a summary, whose goal is not blank, is the
-- first of the recent sessions, if every archived file is older: with its id, namespace and times and
-- with what the summary says. The sessions after it are the recent ones of before, and none is active.
pub get_recent-end_session :
    (id namespace goal : String) (now later n : ℕ) (discoveries accomplished files : List String)
    (s : SessionStore)
    → goal ≢ ""
    → get s.archive id ≡ none
    → All (λ a. a.modified < later) (files_of s.archive)
    → let summary : Summary = record {
      goal = some goal;
      discoveries = discoveries;
      accomplished = accomplished;
      files = files;
    } in
      let s2 = (end_session later summary (start_session id now namespace s).1).1 in
      (get_recent (suc n) s2
        ≡ record {
          id = id;
          started_at = now;
          ended_at = some later;
          goal = some goal;
          discoveries = discoveries;
          accomplished = accomplished;
          files_touched = files;
          namespace = namespace;
        }
          ∷ get_recent n s)
      × (get_active s2 ≡ none)
unfolding start_session end_session get_active finalized
get_recent-end_session id namespace goal now later n discoveries accomplished files s h new older =
    let ended = finalized_new id namespace goal now later discoveries accomplished files h in
    let summary : Summary = record {
      goal = some goal;
      discoveries = discoveries;
      accomplished = accomplished;
      files = files;
    } in
    (
      get_recent-newest (finalized later summary (started id now namespace)) later n s new older
          ∙ ap (λ session. session ∷ get_recent n s) ended,
      refl,
    )
