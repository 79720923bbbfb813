-- ===== src/WebSocket.antt =====
-- src/engram/ws/handler.py, ws/protocol.py, ws/connection_manager.py and ws/event_bus.py: the frames of
-- a WebSocket connection. A command's payload is read by `parse`, and what the stores answer is the
-- argument `perform`; a frame's effect on them is an `Action`.
pub mod Guards
pub mod Connections
mod Examples
use engram_mem.Base.{
  ℕ, ◌+◌, min, String, Bool, true, false, not, ◌&&◌, ◌||◌, Option, none, some, List, [], ◌∷◌, ◌++◌,
  map, length, filter_by, ◌⊎◌, inl, inr, ◌>>=◌, ◌==◌, any_of, str_eq, if◌then◌else◌,
}
use engram_mem.Base.Dict.{get, put, pop}
use engram_mem.Auth.{is_reader, AuthContext, default_context, TokenPayload, Jwt, verify_jwt}

pub record RememberPayload : Type 0 where
  pub content : String
  pub memory_type : String
  pub priority : ℕ
  pub entities : List String
  pub tags : List String

pub record RecallPayload : Type 0 where
  pub query : String
  pub limit : ℕ

pub record FeedbackPayload : Type 0 where
  pub memory_id : String
  pub feedback : String

-- A payload by its schema; those of one field are the field.
pub data Payload : Type 0 where
  remember_payload : RememberPayload → Payload
  recall_payload : RecallPayload → Payload
  think_payload : String → Payload
  feedback_payload : FeedbackPayload → Payload
  query_payload : String → Payload
  ingest_payload : List String → Payload
  status_payload : Payload

-- `model_validate` of each schema, at the payload as it came.
pub record Schemas : Type 0 where
  pub read_remember : String → Option RememberPayload
  pub read_recall : String → Option RecallPayload
  pub read_think : String → Option String
  pub read_feedback : String → Option FeedbackPayload
  pub read_query : String → Option String
  pub read_ingest : String → Option (List String)
  pub read_status : String → Bool

abbrev pub commands : List String
commands = "remember" ∷ "recall" ∷ "think" ∷ "feedback" ∷ "query" ∷ "ingest" ∷ "status" ∷ []

abbrev pub write_commands : List String
write_commands = "remember" ∷ "feedback" ∷ "ingest" ∷ []

-- `name in names`
unfoldable pub is_in : String → List String → Bool
is_in name names = any_of (str_eq name) names

pub record WsCommand : Type 0 where
  pub id : String
  pub type : String
  pub payload : String

pub data ErrorCode : Type 0 where
  malformed_command unknown_command forbidden invalid_payload internal_error : ErrorCode

-- The schema of a type of command.
pub data Schema : Type 0 where
  of_remember of_recall of_think of_feedback of_query of_ingest of_status : Schema

-- `PAYLOAD_SCHEMAS.get`
unfoldable pub schema_of : String → Option Schema
schema_of name =
    if str_eq name "remember"
    then some of_remember
    else if str_eq name "recall"
    then some of_recall
    else if str_eq name "think"
    then some of_think
    else if str_eq name "feedback"
    then some of_feedback
    else if str_eq name "query"
    then some of_query
    else if str_eq name "ingest"
    then some of_ingest
    else if str_eq name "status"
    then some of_status
    else none

unfoldable pub model_validate : Schemas → Schema → String → Option Payload
model_validate schemas of_remember raw =
    schemas.read_remember raw >>= (λ p. some (remember_payload p))
model_validate schemas of_recall raw = schemas.read_recall raw >>= (λ p. some (recall_payload p))
model_validate schemas of_think raw = schemas.read_think raw >>= (λ p. some (think_payload p))
model_validate schemas of_feedback raw =
    schemas.read_feedback raw >>= (λ p. some (feedback_payload p))
model_validate schemas of_query raw = schemas.read_query raw >>= (λ p. some (query_payload p))
model_validate schemas of_ingest raw = schemas.read_ingest raw >>= (λ p. some (ingest_payload p))
model_validate schemas of_status raw = if schemas.read_status raw then some status_payload else none

-- `none` is the exception.
unfoldable pub validate_payload : Schemas → WsCommand → Option Payload
validate_payload schemas cmd =
    schema_of cmd.type >>= (λ schema. model_validate schemas schema cmd.payload)

-- The tests of one frame before its dispatch: `none` is a frame that is no command.
unfoldable pub check_frame : Schemas → AuthContext → Option WsCommand → ErrorCode ⊎ Payload
check_frame schemas auth none = inl malformed_command
check_frame schemas auth (some cmd) =
    if not (is_in cmd.type commands)
    then inl unknown_command
    else if is_reader auth.role && is_in cmd.type write_commands
    then inl forbidden
    else elim (validate_payload schemas cmd) [
      | none ↦ inl invalid_payload
      | some payload ↦ inr payload
    ]

-- A recall asks for at most 100 results.
unfoldable pub dispatched : Payload → Payload
dispatched (remember_payload p) = remember_payload p
dispatched (recall_payload p) = recall_payload (record p { limit = min p.limit 100 })
dispatched (think_payload question) = think_payload question
dispatched (feedback_payload p) = feedback_payload p
dispatched (query_payload keyword) = query_payload keyword
dispatched (ingest_payload messages) = ingest_payload messages
dispatched status_payload = status_payload

-- The event that follows a command which succeeds.
unfoldable pub event_of : Payload → List String
event_of (remember_payload p) = "memory_created" ∷ []
event_of (recall_payload p) = []
event_of (think_payload question) = []
event_of (feedback_payload p) = "feedback_recorded" ∷ []
event_of (query_payload keyword) = []
event_of (ingest_payload messages) = []
event_of status_payload = []

pub data Reply : Type 0 where
  response : String → String → Reply
  error : String → ErrorCode → Reply

-- The id that a reply carries: that of the command, or "" without one.
abbrev pub frame_id : Option WsCommand → String
frame_id none = ""
frame_id (some cmd) = cmd.id

-- `S` is the state of the stores; `perform` is a command on them, with its result as JSON, or
-- nothing where it raises.
module _ {S : Type 0} (schemas : Schemas)
    (perform : AuthContext → Payload → S → Option String × S) where
  pub record Served : Type 0 where
    pub reply : Reply
    pub events : List String
    pub stores : S

  -- The end of the loop's body.
  unfoldable pub replied : String → Payload → Option String × S → Served
  replied id payload (some result, stores) = record {
    reply = response id result;
    events = event_of payload;
    stores = stores;
  }
  replied id payload (none, stores) = record {
    reply = error id internal_error;
    events = [];
    stores = stores;
  }

  -- One turn of the loop.
  unfoldable pub serve_frame : AuthContext → Option WsCommand → S → Served
  serve_frame auth frame stores = elim (check_frame schemas auth frame) [
    | inl code ↦ record { reply = error (frame_id frame) code; events = []; stores = stores }
    | inr payload ↦ replied (frame_id frame) payload (perform auth (dispatched payload) stores)
  ]

  -- The replies to the frames up to the end of the connection, and the stores afterwards. Besides a
  -- disconnect, a frame that is no JSON ends it: `receive_json` raises outside the inner `try`.
  unfoldable pub serve : AuthContext → List (Option WsCommand) → S → List Reply × S
  serve auth [] stores = ([], stores)
  serve auth (frame ∷ frames) stores =
      let served = serve_frame auth frame stores in
      let (replies, after) = serve auth frames served.stores in (served.reply ∷ replies, after)

unfoldable pub authenticate : Jwt → Bool → String → String → ℕ → Option (AuthContext × String)
authenticate jwt enabled secret token now =
    if not enabled
    then some (default_context, "anonymous")
    else if str_eq token ""
    then none
    else verify_jwt jwt token secret now
      >>= (λ p. some (record { tenant_id = p.tenant_id; role = p.role }, p.sub))

-- A connection: the socket's number and the subject.
abbrev pub Connection : Type 0
Connection = ℕ × String

abbrev pub is_connection : Connection → Connection → Bool
is_connection (ws, sub) (ws', sub') = (ws == ws') && str_eq sub sub'

abbrev pub Connections : Type 0
Connections = List (String × List Connection)

-- `self._connections[tenant_id]` of a defaultdict
unfoldable pub connections_of : Connections → String → List Connection
connections_of table tenant_id = elim (get table tenant_id) [ some cs ↦ cs | none ↦ [] ]

-- A set that holds the connection already stays as it is.
unfoldable pub connect : Connection → String → Connections → Connections
connect c tenant_id table =
    let cs = connections_of table tenant_id in
    put table tenant_id (if any_of (is_connection c) cs then cs else c ∷ cs)

unfoldable pub disconnect : Connection → String → Connections → Connections
disconnect c tenant_id table =
    let left = filter_by (λ d. not (is_connection c d)) (connections_of table tenant_id) in
    if length left == 0 then pop table tenant_id else put table tenant_id left

-- The connections that a broadcast is sent to.
unfoldable pub targets : String → String → Connections → List Connection
targets tenant_id exclude_sub table =
    filter_by (λ d. not (str_eq d.1 exclude_sub)) (connections_of table tenant_id)

unfoldable pub active_connections : Connections → ℕ
active_connections [] = 0
active_connections ((tenant_id, cs) ∷ table) = length cs + active_connections table
