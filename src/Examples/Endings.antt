-- ===== src/Examples/Endings.antt =====
-- Requests that end, on concrete tables (src/dispatch/completion.ts, src/dispatch/cancel.ts).
use mathlib.Core.Option
use scrum4me_mcp.Prelude.{
  update_by, ℕ, ◌≡◌, refl, String, Bool, true, false, ◌==◌, Option, none, some, [], ◌∷◌, HasKeys,
}
use scrum4me_mcp.Status.Store
use scrum4me_mcp.Status.Decisions.{TaskStatus, StoryStatus, PbiStatus}
use scrum4me_mcp.Dispatch.Table.{Actor}
use scrum4me_mcp.Dispatch.Ending.Table.{
  Request, succeeded, Payload, Result, stop_accepted, Db, request_of, result_of, Tx, done, thrown,
}
use scrum4me_mcp.Dispatch.Ending.Lifecycle.{Locked}
use scrum4me_mcp.Dispatch.Ending.Cancel.{Cancellation, cancel_dispatch}
use scrum4me_mcp.Dispatch.Ending.Judge.{granted, verified, confirmed, Submission, Receipt, accepted}
use scrum4me_mcp.Dispatch.Ending.Accept.{accept_dispatch_result}
use scrum4me_mcp.Dispatch.Ending.Change.{Final, IsKeyed}
use scrum4me_mcp.Dispatch.Ending.Again.{cancel_again}
use scrum4me_mcp.Dispatch.Ending.Canonical.{
  Calls, finished, cancel, accept, stopped, run, ended_requests_stay,
}
use scrum4me_mcp.Dispatch.Ending.Outcome.{IsSettled, accept-IsSettled}

abbrev hash_of : Payload → String
hash_of p = p.summary

abbrev drawn : String → String
drawn name = name

abbrev printed : ℕ → String
printed n = "1"

abbrev any_action : String → Bool
any_action id = true

abbrev same_credential : String → String → Bool
same_credential a b = a == b

abbrev request : String → String → Option String → Request
request id state result_id = record {
  id = id;
  user_id = "u1";
  state = state;
  version = 1;
  generation = 1;
  action = "task_implementation";
  task_id = "t1";
  access = "repo_write";
  publish = "branch";
  has_review_documents = false;
  input_hash = "i1";
  retry_authorization_event_id = none;
  first_claimed_at = some 10;
  result_id = result_id;
}

abbrev payload : Payload
payload = record {
  outcome = succeeded;
  summary = "built";
  reviewed = false;
  artifact_id = some "art1";
}

abbrev old_result : Result
old_result = record {
  id = "res0";
  request_id = "r0";
  attempt_id = none;
  payload = payload;
  sha256 = "built";
}

abbrev hierarchy : Store.Db
hierarchy = record {
  tasks =
      (record {
        id = "t1";
        title = "Task";
        status = TaskStatus.in_progress;
        story_id = "s1";
        implementation_plan = none;
        updated_at = 3;
      })
      ∷ [];
  stories =
      (record { id = "s1"; status = StoryStatus.opened; pbi_id = "p1"; sprint_id = none }) ∷ [];
  pbis = (record { id = "p1"; status = PbiStatus.ready }) ∷ [];
  sprints = [];
  sprint_runs = [];
  jobs = [];
  notified = [];
}

-- A request that has ended, and one whose attempt has stopped.
abbrev tables : Db
tables = record {
  requests = request "r0" "SUCCEEDED" (some "res0") ∷ request "r1" "RUNNING" none ∷ [];
  candidates =
      (record {
        id = "c1";
        request_id = "r1";
        generation = 1;
        state = "RUNNING";
        incarnation_id = "n1";
        reserved_slot_id = "l1";
        profile_revision_id = "f1";
        job_id = some "j1";
        first_claimed_at = some 10;
      })
      ∷ [];
  attempts =
      (record {
        id = "a1";
        candidate_id = "c1";
        incarnation_id = "n1";
        state = "RUNNING";
        scope_id = some "sc1";
        stopped_at = some 90;
        revoked_at = some 90;
        credential_hash = "secret";
      })
      ∷ [];
  slots = (record { id = "l1"; owner_user_id = "w1"; token_id = "k1" }) ∷ [];
  incarnations =
      (record {
        id = "n1";
        slot_id = "l1";
        supervisor_token_id = "k1";
        profile_sha256 = "ps";
        image_digest = "im";
      })
      ∷ [];
  profiles = (record { id = "f1"; sha256 = "ps"; image_digest = "im"; revoked_at = none }) ∷ [];
  jobs = (record { id = "j1"; status = "RUNNING"; finished_at = none }) ∷ [];
  reservations = (record { id = "v1"; candidate_id = "c1"; released_at = none }) ∷ [];
  publications = [];
  bindings = (record { task_id = "t1"; dispatch_request_id = some "r1" }) ∷ [];
  results = old_result ∷ [];
  events =
      (record { id = "e1"; request_id = "r1"; attempt_id = some "a1"; type = stop_accepted }) ∷ [];
  outbox = [];
  notified = [];
  hierarchy = hierarchy;
}

abbrev supervisor : Actor
supervisor = record { source = "bearer"; user_id = "w1"; token_id = some "k1" }

abbrev submission : Submission
submission = record {
  actor = supervisor;
  proof = record {
    request_id = "r1";
    candidate_id = "c1";
    attempt_id = "a1";
    generation = 1;
    incarnation_id = "n1";
    credential = "secret";
  };
  payload = payload;
  submitted_hash = "built";
  refreshed = none;
  input_matches = true;
  sources_intact = true;
  documents_delivered = true;
  review_delivered = true;
  code_admissible = true;
  publish = granted;
  code_verified = verified;
  gate = none;
  publication = confirmed;
  publish_again = granted;
  now = 100;
}

abbrev cancellation : Cancellation
cancellation = record {
  actor = record { source = "web"; user_id = "u1"; token_id = none };
  action_id = "x1";
  key = "u1:cancel:x1";
  hash = "h1";
  expected_version = "1";
  cancel_authorization = none;
  recover_authorization = none;
  now = 95;
}

tables-IsKeyed : IsKeyed tables
unfolding IsKeyed HasKeys
tables-IsKeyed = ((refl, tt), (refl, tt))

abbrev after : Tx (Db × Receipt) → Db
after (thrown e) = tables
after (done (db, r)) = db

abbrev accepted_tables : Db
unfolding accept_dispatch_result
accepted_tables =
    after (accept_dispatch_result hash_of drawn same_credential (λ db. db) submission tables)

accepts :
    accept_dispatch_result hash_of drawn same_credential (λ db. db) submission tables
    ≡ done (accepted_tables, accepted "result" payload)
unfolding accept_dispatch_result accepted_tables
accepts = refl

accept-IsSettled_example : IsSettled accepted_tables "a1" "result" payload
accept-IsSettled_example =
    accept-IsSettled hash_of drawn same_credential (λ db. db) submission tables accepts

abbrev cancelled_tables : Db
unfolding cancel_dispatch
cancelled_tables =
    elim (cancel_dispatch hash_of drawn printed any_action cancellation "r1" tables) [
      | thrown e ↦ tables
      | done db ↦ db
    ]

-- The stop was accepted before, so the cancel finishes the request.
cancels :
    cancel_dispatch hash_of drawn printed any_action cancellation "r1" tables
    ≡ done cancelled_tables
unfolding cancel_dispatch cancelled_tables update_by
cancels = refl

cancelled_state :
    Option.map (λ (r : Request). r.state) (request_of cancelled_tables "r1") ≡ some "CANCELLED"
unfolding cancelled_tables cancel_dispatch update_by
cancelled_state = refl

cancel_again_example :
    cancel_dispatch hash_of drawn printed any_action cancellation "r1" cancelled_tables
    ≡ done cancelled_tables
cancel_again_example =
    cancel_again hash_of drawn printed any_action cancellation "r1" tables tables-IsKeyed cancels

-- The request is cancelled while its success is being accepted.
abbrev calls : Calls
calls = accept (cancel cancellation "r1" finished) submission (stopped "a1" 120 finished)

ended_requests_stay_example :
    Final tables (run hash_of drawn printed any_action same_credential calls tables)
ended_requests_stay_example =
    ended_requests_stay hash_of drawn printed any_action same_credential calls tables tables-IsKeyed

-- The late success does not replace the result of the cancel.
late_success :
    Option.map
      (λ (x : Result). x.payload.summary)
      (result_of (run hash_of drawn printed any_action same_credential calls tables) "r1")
    ≡ some "Cancelled by requester"
unfolding run update_by
late_success = refl
