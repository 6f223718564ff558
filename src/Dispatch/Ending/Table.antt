-- ===== src/Dispatch/Ending/Table.antt =====
-- The tables that a request ends in, as far as src/dispatch/lifecycle.ts, cancel.ts and
-- completion.ts read or write them, and a transaction that may throw.
use scrum4me_mcp.Prelude.{
  ℕ, ◌≡◌, refl, String, Bool, Option, none, some, List, [], ◌∷◌, find_by, includes,
}
use scrum4me_mcp.Status.Store

-- The columns of queue_dispatch_requests, with `input.action`, `input.task_id` and
-- `input.requirements.access` and `input.publish`.
pub record Request : Type 0 where
  pub id : String
  pub user_id : String
  pub state : String
  pub version : ℕ
  pub generation : ℕ
  pub action : String
  pub task_id : String
  pub access : String
  pub publish : String
  pub has_review_documents : Bool
  pub input_hash : String
  pub retry_authorization_event_id : Option String
  pub first_claimed_at : Option ℕ
  pub result_id : Option String

pub record Candidate : Type 0 where
  pub id : String
  pub request_id : String
  pub generation : ℕ
  pub state : String
  pub incarnation_id : String
  pub reserved_slot_id : String
  pub profile_revision_id : String
  pub job_id : Option String
  pub first_claimed_at : Option ℕ

pub record Attempt : Type 0 where
  pub id : String
  pub candidate_id : String
  pub incarnation_id : String
  pub state : String
  pub scope_id : Option String
  pub stopped_at : Option ℕ
  pub revoked_at : Option ℕ
  pub credential_hash : String

-- A row of queue_dispatch_slots.
pub record Slot : Type 0 where
  pub id : String
  pub owner_user_id : String
  pub token_id : String

-- A row of queue_dispatch_incarnations, with what is read of its runtime scope.
pub record Incarnation : Type 0 where
  pub id : String
  pub slot_id : String
  pub supervisor_token_id : String
  pub profile_sha256 : String
  pub image_digest : String

pub record Profile : Type 0 where
  pub id : String
  pub sha256 : String
  pub image_digest : String
  pub revoked_at : Option ℕ

-- A row of claude_jobs.
pub record Job : Type 0 where
  pub id : String
  pub status : String
  pub finished_at : Option ℕ

pub record Reservation : Type 0 where
  pub id : String
  pub candidate_id : String
  pub released_at : Option ℕ

pub record Publication : Type 0 where
  pub request_id : String
  pub state : String

-- `tasks.dispatch_request_id`.
pub record Binding : Type 0 where
  pub task_id : String
  pub dispatch_request_id : Option String

pub data Outcome : Type 0 where
  succeeded failed cancelled : Outcome

-- `DispatchResult`, less its report and its checks: `reviewed` says that it holds a review.
pub record Payload : Type 0 where
  pub outcome : Outcome
  pub summary : String
  pub reviewed : Bool
  pub artifact_id : Option String

-- A row of queue_dispatch_results.
pub record Result : Type 0 where
  pub id : String
  pub request_id : String
  pub attempt_id : Option String
  pub payload : Payload
  pub sha256 : String

pub data EventType : Type 0 where
  cancel_requested stop_accepted : EventType
  cancel_action : String → String → EventType
  cancel_recovered_unstarted cancel_unclaimed : String → EventType
  result_accepted : String → String → EventType
  late_result : String → EventType
  -- The service of its actor, the hash and the generation of its payload.
  retry_authorized : String → String → ℕ → EventType
  retry_consumed : String → EventType

-- A row of queue_dispatch_events.
pub record Event : Type 0 where
  pub id : String
  pub request_id : String
  pub attempt_id : Option String
  pub type : EventType

-- A row of queue_dispatch_outbox, with what its projection is built from.
pub record Outbox : Type 0 where
  pub request_id : String
  pub version : ℕ
  pub state : String
  pub result_id : Option String

pub record Db : Type 0 where
  pub requests : List Request
  pub candidates : List Candidate
  pub attempts : List Attempt
  pub slots : List Slot
  pub incarnations : List Incarnation
  pub profiles : List Profile
  pub jobs : List Job
  pub reservations : List Reservation
  pub publications : List Publication
  pub bindings : List Binding
  pub results : List Result
  pub events : List Event
  pub outbox : List Outbox
  pub notified : List String
  pub hierarchy : Store.Db

abbrev pub request_of : Db → String → Option Request
request_of db id = find_by (λ r. r.id) id db.requests

-- `SELECT * FROM queue_dispatch_results WHERE request_id=$1`.
abbrev pub result_of : Db → String → Option Result
result_of db id = find_by (λ x. x.request_id) id db.results

abbrev pub ended_states : List String
ended_states = "SUCCEEDED" ∷ "FAILED" ∷ "CANCELLED" ∷ []

abbrev pub is_ended : String → Bool
is_ended state = includes ended_states state

-- What a transaction gives, or the code of the error that undoes it.
pub data Tx {ℓ} (A : Type ℓ) : Type ℓ where
  thrown : String → Tx A
  done : A → Tx A

infixl 5 ◌then◌
abbrev pub ◌then◌ {ℓ κ} : {A : Type ℓ} {B : Type κ} → Tx A → (A → Tx B) → Tx B
thrown e then f = thrown e
done a then f = f a

-- What holds of the outcome of a transaction that does not throw.
abbrev pub Ensures {ℓ κ} : {A : Type ℓ} → (A → Type κ) → Tx A → Type κ
Ensures P (thrown e) = Unit
Ensures P (done a) = P a

pub Ensures-then {ℓ κ μ ν} :
    {A : Type ℓ} {B : Type κ} (Q : A → Type μ) (P : B → Type ν) (t : Tx A) (f : A → Tx B)
    → Ensures Q t
    → ((a : A) → Q a → Ensures P (f a))
    → Ensures P (t then f)
Ensures-then Q P (thrown e) f q k = tt
Ensures-then Q P (done a) f q k = k a q

-- An answer of the authorization (src/dispatch/auth.ts): `none`, or the code of what it throws.
abbrev pub allowed {ℓ} : {A : Type ℓ} → Option String → Tx A → Tx A
allowed none t = t
allowed (some e) t = thrown e

-- A row that has to be there.
abbrev pub found {ℓ} : {A : Type ℓ} → String → Option A → Tx A
found e none = thrown e
found e (some a) = done a

pub found-Ensures {ℓ} :
    {A : Type ℓ} (e : String) (o : Option A) → Ensures (λ a. o ≡ some a) (found e o)
found-Ensures e none = tt
found-Ensures e (some a) = refl

pub Ensures-any {ℓ} : {A : Type ℓ} (t : Tx A) → Ensures {ℓ, 0} (λ a. Unit) t
Ensures-any (thrown e) = tt
Ensures-any (done a) = tt

pub Ensures-imp {ℓ κ μ} :
    {A : Type ℓ} (P : A → Type κ) (Q : A → Type μ) (t : Tx A)
    → Ensures P t
    → ((a : A) → P a → Q a)
    → Ensures Q t
Ensures-imp P Q (thrown e) p k = tt
Ensures-imp P Q (done a) p k = k a p
