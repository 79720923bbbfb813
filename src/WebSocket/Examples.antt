-- ===== src/WebSocket/Examples.antt =====
-- A reader's frames and a connection.
use engram_mem.Base.{
  arith, ℕ, ◌+◌, ◌≡◌, refl, String, true, false, Option, some, none, List, [], ◌∷◌,
}
use engram_mem.Auth.{reader, AuthContext}
use engram_mem.WebSocket.{
  Payload, Schemas, WsCommand, serve, remember_payload, recall_payload, think_payload,
  feedback_payload, query_payload, ingest_payload, status_payload,
}
use engram_mem.WebSocket.Guards
use engram_mem.WebSocket.Guards.{is_write, reply_id}

-- Schemas that take every payload.
abbrev lenient : Schemas
lenient = record {
  read_remember = λ s.
      some (record { content = s; memory_type = "fact"; priority = 5; entities = []; tags = [] });
  read_recall = λ s. some (record { query = s; limit = 5 });
  read_think = λ s. some s;
  read_feedback = λ s. some (record { memory_id = s; feedback = "positive" });
  read_query = λ s. some s;
  read_ingest = λ s. some (s ∷ []);
  read_status = λ s. true;
}

-- Stores that count the writes.
counted : AuthContext → Payload → ℕ → Option String × ℕ
counted auth (remember_payload p) n = (some "{}", n + 1)
counted auth (feedback_payload p) n = (some "{}", n + 1)
counted auth (ingest_payload messages) n = (none, n + 1)
counted auth (recall_payload p) n = (some "[]", n)
counted auth (think_payload q) n = (some "{}", n)
counted auth (query_payload q) n = (some "[]", n)
counted auth status_payload n = (some "{}", n)

counted-read :
    (auth : AuthContext) (p : Payload) (n : ℕ)
    → is_write p ≡ false
    → n ≡ 4
    → (counted auth p n).1 ≡ 4
unfolding counted
counted-read auth (remember_payload p) n w e = absurd (ground (arith, w))
counted-read auth (feedback_payload p) n w e = absurd (ground (arith, w))
counted-read auth (ingest_payload messages) n w e = absurd (ground (arith, w))
counted-read auth (recall_payload p) n w e = e
counted-read auth (think_payload q) n w e = e
counted-read auth (query_payload q) n w e = e
counted-read auth status_payload n w e = e

abbrev guest : AuthContext
guest = record { tenant_id = "acme"; role = reader }

abbrev frames : List (Option WsCommand)
frames =
    some (record { id = "7"; type = "remember"; payload = "tea" })
    ∷ none
    ∷ some (record { id = "8"; type = "recall"; payload = "tea" })
    ∷ []

serve-reader_example : (serve lenient counted guest frames 4).1 ≡ 4
serve-reader_example =
    Guards.serve-reader lenient counted (λ n. n ≡ 4) guest frames 4 (counted-read guest) refl refl
