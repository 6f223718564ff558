-- ===== src/Dispatch/Table.antt =====
-- The rows that `lock` of src/dispatch/attempts.ts reads for one attempt: its request, its candidate,
-- its incarnation, its job and the events of the request. A time is a number of milliseconds.
use scrum4me_mcp.Prelude.{ℕ, String, Bool, Option, List}

pub record Request : Type 0 where
  pub id : String
  pub state : String
  pub version : ℕ
  pub generation : ℕ
  pub product_id : String

pub record Candidate : Type 0 where
  pub id : String
  pub request_id : String
  pub generation : ℕ
  pub state : String
  pub incarnation_id : Option String
  pub reserved_slot_id : String
  pub job_id : Option String

pub record Attempt : Type 0 where
  pub id : String
  pub candidate_id : String
  pub incarnation_id : String
  pub state : String
  pub scope_id : Option String
  pub started_at : Option ℕ
  pub heartbeat_at : Option ℕ
  pub stopped_at : Option ℕ
  pub revoked_at : Option ℕ
  pub credential_hash : String

-- With the owner and the switch of its slot.
pub record Incarnation : Type 0 where
  pub slot_id : String
  pub boot_id : String
  pub signed_off_at : Option ℕ
  pub image_digest : String
  pub profile_sha256 : String
  pub supervisor_token_id : String
  pub owner_user_id : String
  pub enabled : Bool

-- `RuntimeScope`.
pub record Scope : Type 0 where
  pub scope_id : String
  pub boot_id : String
  pub image_digest : String
  pub profile_sha256 : String

pub data Event : Type 0 where
  started_scope : String → Scope → Event
  lease_expired : String → Event
  stop_required : String → String → Event
  resume_same_attempt : String → Option String → Event
  stop_accepted : String → Event

-- `Locked`, with the status of the job and the events, oldest first.
pub record Locked : Type 0 where
  pub request : Request
  pub candidate : Candidate
  pub attempt : Attempt
  pub incarnation : Incarnation
  pub job_status : String
  pub events : List Event

-- `DispatchActor`, of which `verifyProof` reads these.
pub record Actor : Type 0 where
  pub source : String
  pub user_id : String
  pub token_id : Option String

-- `AttemptProof`.
pub record Proof : Type 0 where
  pub request_id : String
  pub candidate_id : String
  pub attempt_id : String
  pub generation : ℕ
  pub incarnation_id : String
  pub credential : String

-- What the service is configured with, the check of a credential against its hash
-- (src/dispatch/credentials.ts, on node:crypto), `decideDispatchTransition` of
-- vendor/scrum4me-shared, which throws where this is false, and JavaScript's length of a text.
pub record Service : Type 0 where
  pub enabled : Bool
  pub product_allowlist : List String
  pub credential_matches : String → String → Bool
  pub allows_transition : String → String → Bool
  pub text_length : String → ℕ

-- What `authorize` answers: the profile's `max_duration_seconds`, a `DispatchError`, or another error.
pub data Authorization : Type 0 where
  granted : ℕ → Authorization
  refused crashed : Authorization

-- What a call finds outside the rows: `now()` of the transaction, `clock_timestamp()`, and the
-- authorization.
pub record Call : Type 0 where
  pub started : ℕ
  pub clock : ℕ
  pub authorization : Authorization

pub data Answer : Type 0 where
  forbidden conflict failed resumed : Answer
  permit : Scope → Answer
  stop_needed marked : Bool → Answer
