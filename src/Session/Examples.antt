-- ===== src/Session/Examples.antt =====
-- One session.
use engram_mem.Base.{◌≡◌, refl, none, some, [], ◌∷◌, arith, str_eq_iff}
use engram_mem.Base.Dict.{get}
use engram_mem.Session.{
  SessionStore, Archived, Summary, started, written, start_session, end_session, get_active,
  get_recent,
}
use engram_mem.Session.Lifecycle

abbrev old_file : Archived
old_file = record { modified = 3; file = written (started "u0" 2 "default") }

abbrev one_store : SessionStore
one_store = record { active = none; archive = ("u0", old_file) ∷ [] }

abbrev done : Summary
done = record { goal = some "ship"; discoveries = []; accomplished = "tests" ∷ []; files = [] }

get_recent-end_session_example :
    let s2 = (end_session 9 done (start_session "u1" 5 "default" one_store).1).1 in
    (get_recent 2 s2
      ≡ record {
        id = "u1";
        started_at = 5;
        ended_at = some 9;
        goal = some "ship";
        discoveries = [];
        accomplished = "tests" ∷ [];
        files_touched = [];
        namespace = "default";
      }
        ∷ get_recent 1 one_store)
    × (get_active s2 ≡ none)
unfolding get
get_recent-end_session_example =
    Lifecycle.get_recent-end_session "u1" "default" "ship" 5 9 1 [] ("tests" ∷ []) [] one_store
      (λ q. absurd (ground (arith, (str_eq_iff "ship" "").1 q))) refl (omega arith, tt)
