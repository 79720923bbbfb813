-- ===== src/WebSocket/Guards.antt =====
-- What a reader cannot do, and what is answered.
use engram_mem.Base.{
  ◌≡◌, refl, ap, ◌∙◌, String, Bool, true, false, Option, none, some, List, [], ◌∷◌, map, arith, inl,
  inr, Option-cases, Sum-cases,
}
use engram_mem.Auth.{reader, AuthContext}
use engram_mem.WebSocket.{
  Payload, remember_payload, recall_payload, think_payload, feedback_payload, query_payload,
  ingest_payload, status_payload, Schemas, WsCommand, Schema, of_remember, of_recall, of_think,
  of_feedback, of_query, of_ingest, of_status, schema_of, model_validate, is_in, write_commands,
  validate_payload, check_frame, dispatched, Reply, response, error, frame_id, replied, serve_frame,
  serve,
}

-- A payload that changes the stores.
abbrev pub is_write : Payload → Bool
is_write (remember_payload p) = true
is_write (feedback_payload p) = true
is_write (ingest_payload messages) = true
is_write _ = false

dispatched-write : (p : Payload) → is_write (dispatched p) ≡ is_write p
unfolding dispatched
dispatched-write (remember_payload p) = refl
dispatched-write (recall_payload p) = refl
dispatched-write (think_payload question) = refl
dispatched-write (feedback_payload p) = refl
dispatched-write (query_payload keyword) = refl
dispatched-write (ingest_payload messages) = refl
dispatched-write status_payload = refl

-- A schema whose payloads change the stores.
is_write_schema : Schema → Bool
is_write_schema of_remember = true
is_write_schema of_feedback = true
is_write_schema of_ingest = true
is_write_schema _ = false

schema_of-write :
    (name : String) (k : Schema)
    → schema_of name ≡ some k
    → is_write_schema k ≡ true
    → is_in name write_commands ≡ true
unfolding schema_of is_in is_write_schema
schema_of-write name k h w = ground (arith, h, w)

model_validate-write :
    (schemas : Schemas) (k : Schema) (raw : String) (p : Payload)
    → model_validate schemas k raw ≡ some p
    → is_write_schema k ≡ is_write p
unfolding model_validate is_write_schema
model_validate-write schemas of_remember raw p h = ground (arith, h)
model_validate-write schemas of_recall raw p h = ground (arith, h)
model_validate-write schemas of_think raw p h = ground (arith, h)
model_validate-write schemas of_feedback raw p h = ground (arith, h)
model_validate-write schemas of_query raw p h = ground (arith, h)
model_validate-write schemas of_ingest raw p h = ground (arith, h)
model_validate-write schemas of_status raw p h = ground (arith, h)

validate_payload-write :
    (schemas : Schemas) (cmd : WsCommand) (p : Payload)
    → validate_payload schemas cmd ≡ some p
    → is_write p ≡ true
    → is_in cmd.type write_commands ≡ true
unfolding validate_payload
validate_payload-write schemas cmd p h w = elim (Option-cases (schema_of cmd.type)) [
  | inl e ↦ absurd (ground (arith, e, h))
  | inr (k, e) ↦
      schema_of-write cmd.type k e
        (model_validate-write schemas k cmd.payload p (ground (arith, e, h)) ∙ w)
]

check_frame-reader :
    (schemas : Schemas) (auth : AuthContext) (frame : Option WsCommand) (p : Payload)
    → auth.role ≡ reader
    → check_frame schemas auth frame ≡ inr p
    → is_write p ≡ false
unfolding check_frame
check_frame-reader schemas auth none p e h = absurd (ground (arith, h))
check_frame-reader schemas auth (some cmd) p e h =
    ground (arith, e, h, validate_payload-write schemas cmd p)

module _ {S : Type 0} (schemas : Schemas)
    (perform : AuthContext → Payload → S → Option String × S) where
  replied_lem :
      (id : String) (payload : Payload) (out : Option String × S)
      → (replied schemas perform id payload out).stores ≡ out.1
  unfolding replied
  replied_lem id payload (some result, stores) = refl
  replied_lem id payload (none, stores) = refl

  serve_frame-reader :
      (P : S → Type 0) (auth : AuthContext) (frame : Option WsCommand) (stores : S)
      → ((p : Payload) (s : S) → is_write p ≡ false → P s → P (perform auth p s).1)
      → auth.role ≡ reader
      → P stores
      → P (serve_frame schemas perform auth frame stores).stores
  unfolding serve_frame
  serve_frame-reader P auth frame stores keeps e h =
      elim (Sum-cases (check_frame schemas auth frame)) [
        | inl (code, c) ↦ rw (c, serve_frame) h
        | inr (payload, c) ↦
            rw (c, serve_frame)
              (rw (replied_lem (frame_id frame) payload (perform auth (dispatched payload) stores))
                (keeps (dispatched payload) stores
                  (dispatched-write payload ∙ check_frame-reader schemas auth frame payload e c) h))
      ]

  -- Whatever a reader sends, and in whatever order, what the commands that do not write leave alone
  -- stays as it is: a reader's frames never remember, rate or ingest.
  pub serve-reader :
      (P : S → Type 0) (auth : AuthContext) (frames : List (Option WsCommand)) (stores : S)
      → ((p : Payload) (s : S) → is_write p ≡ false → P s → P (perform auth p s).1)
      → auth.role ≡ reader
      → P stores
      → P (serve schemas perform auth frames stores).1
  unfolding serve
  serve-reader P auth [] stores keeps e h = h
  serve-reader P auth (frame ∷ frames) stores keeps e h =
      serve-reader P auth frames (serve_frame schemas perform auth frame stores).stores keeps e
        (serve_frame-reader P auth frame stores keeps e h)

  abbrev pub reply_id : Reply → String
  reply_id (response id result) = id
  reply_id (error id code) = id

  replied-id :
      (id : String) (payload : Payload) (out : Option String × S)
      → reply_id (replied schemas perform id payload out).reply ≡ id
  unfolding replied
  replied-id id payload (some result, stores) = refl
  replied-id id payload (none, stores) = refl

  serve_frame-id :
      (auth : AuthContext) (frame : Option WsCommand) (stores : S)
      → reply_id (serve_frame schemas perform auth frame stores).reply ≡ frame_id frame
  unfolding serve_frame
  serve_frame-id auth frame stores = elim (Sum-cases (check_frame schemas auth frame)) [
    | inl (code, c) ↦ rw (c, serve_frame) refl
    | inr (payload, c) ↦
        rw (c, serve_frame)
          (replied-id (frame_id frame) payload (perform auth (dispatched payload) stores))
  ]

  -- Every frame of JSON gets one reply, in its order and with its id, whether the frame is malformed, refused,
  -- fails or succeeds.
  pub serve-replies :
      (auth : AuthContext) (frames : List (Option WsCommand)) (stores : S)
      → map reply_id (serve schemas perform auth frames stores).0 ≡ map frame_id frames
  unfolding serve
  serve-replies auth [] stores = refl
  serve-replies auth (frame ∷ frames) stores =
      let served = serve_frame schemas perform auth frame stores in
      rw (serve_frame-id auth frame stores)
        (ap (λ l. frame_id frame ∷ l) (serve-replies auth frames served.stores))
