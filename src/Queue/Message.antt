-- ===== src/Queue/Message.antt =====
-- The rows of `agent_message` (prisma/schema.prisma, src/queue/claim.ts), the guards of
-- src/queue/marked.ts and the envelopes of src/queue/notify.ts. A time is a number of milliseconds.
use scrum4me_mcp.Prelude.{ℕ, String, Bool, ◌&&◌, Option, List, is_null}

pub record Address : Type 0 where
  pub server : String
  pub model : String

-- `MARKER_COLUMNS`.
pub record Markers : Type 0 where
  pub ppe_protocol : Option String
  pub ppe_run_id : Option String
  pub ppe_operation_key : Option String
  pub ppe_payload_sha256 : Option String
  pub ppe_from_principal : Option String
  pub ppe_to_principal : Option String
  pub ppe_to_consumer_id : Option String
  pub ppe_consumer_generation : Option ℕ
  pub ppe_lease_generation : Option ℕ

-- The columns of a managed dispatch.
pub record Projection : Type 0 where
  pub dispatch_request_id : Option String
  pub dispatch_projection_version : Option ℕ
  pub dispatch_role : Option String

-- A row of `agent_message`: `AgentMessageRecord`, with `meta->>'action'` of its `meta`.
pub record Message : Type 0 where
  pub id : String
  pub type : String
  pub sender : Address
  pub receiver : Address
  pub body : String
  pub action : Option String
  pub source : String
  pub status : String
  pub in_reply_to : Option String
  pub error : Option String
  pub claimed_by : Option String
  pub claimed_at : Option ℕ
  pub started_at : Option ℕ
  pub finished_at : Option ℕ
  pub created_at : ℕ
  pub archived_at : Option ℕ
  pub markers : Markers
  pub projection : Projection

-- `LEGACY_MARKER_SQL` and `legacyMarkerWhere`; `assertLegacyQueueRow` throws where it is false.
unfoldable pub is_legacy : Message → Bool
is_legacy m =
    is_null m.markers.ppe_protocol
    && is_null m.markers.ppe_run_id
    && is_null m.markers.ppe_operation_key
    && is_null m.markers.ppe_payload_sha256
    && is_null m.markers.ppe_from_principal
    && is_null m.markers.ppe_to_principal
    && is_null m.markers.ppe_to_consumer_id
    && is_null m.markers.ppe_consumer_generation
    && is_null m.markers.ppe_lease_generation

-- `ORDINARY_DISPATCH_SQL` and `ordinaryDispatchWhere`.
unfoldable pub is_ordinary : Message → Bool
is_ordinary m =
    is_null m.projection.dispatch_request_id
    && is_null m.projection.dispatch_projection_version
    && is_null m.projection.dispatch_role

-- `QueueNotifyEnvelope`.
pub record Envelope : Type 0 where
  pub id : String
  pub type : String
  pub sender : Address
  pub receiver : Address
  pub in_reply_to : Option String
  pub status : String
  pub previous_status : Option String

-- `envelopeOf` of a row that is not marked.
pub envelope_of : Message → Option String → Envelope
envelope_of m previous = record {
  id = m.id;
  type = m.type;
  sender = m.sender;
  receiver = m.receiver;
  in_reply_to = m.in_reply_to;
  status = m.status;
  previous_status = previous;
}

-- The table, and the envelopes that committed transactions sent, oldest first.
pub record Queue : Type 0 where
  pub messages : List Message
  pub sent : List Envelope

-- What the other transactions and the shared vocabulary (vendor/scrum4me-shared) decide: the types
-- of requests and replies, the terminal statuses, the reply's type, the intervals of the
-- environment, the order of ids, and the rows that another transaction holds locked.
pub record Vocabulary : Type 0 where
  pub request_types : List String
  pub response_types : List String
  pub terminal_statuses : List String
  pub reply_type : String → String
  pub reclaim : ℕ
  pub cli_reclaim : ℕ
  pub id_before : String → String → Bool
