-- ===== src/Dispatch/Ending/Cancel.antt =====
-- `cancelDispatch` of src/dispatch/cancel.ts.
use scrum4me_mcp.Prelude.{
  ℕ, String, Bool, false, not, ◌&&◌, Option, none, some, [], ◌∷◌, ◌==◌, find?, includes, is_null,
  nat_eq, if◌then◌else◌,
}
use scrum4me_mcp.Dispatch.Table.{Actor}
use scrum4me_mcp.Dispatch.Ending.Table.{
  Request, Candidate, Attempt, cancelled, Payload, EventType, cancel_requested, cancel_action,
  cancel_recovered_unstarted, cancel_unclaimed, Event, Db, request_of, is_ended, Tx, thrown, done,
  ◌then◌, allowed,
}
use scrum4me_mcp.Dispatch.Ending.Tasks.{lock_managed_task_hierarchy}
use scrum4me_mcp.Dispatch.Ending.Retry.{assert_retry_authorization}
use scrum4me_mcp.Dispatch.Ending.Lifecycle.{
  add_event, transition, unresolved_publication, Locked, end_job, release_reservations,
  set_candidate, end_attempt, release_task, insert_result, finish_result,
}
use scrum4me_mcp.Dispatch.Ending.Locks.{lock_artifact_attempt, lock_task}

-- The arguments of the call: `hash` is that of the id and the expected version, `key` names the
-- action of the principal.
pub record Cancellation : Type 0 where
  pub actor : Actor
  pub action_id : String
  pub key : String
  pub hash : String
  pub expected_version : String
  pub cancel_authorization : Option String
  pub recover_authorization : Option String
  pub now : ℕ

abbrev pub is_action_of : String → EventType → Bool
is_action_of key (cancel_action k hash) = k == key
is_action_of key _ = false

abbrev pub has_hash : String → EventType → Bool
has_hash hash (cancel_action k h) = h == hash
has_hash hash _ = false

-- The candidate of the request's generation that is still in use.
abbrev pub is_current : Request → Candidate → Bool
is_current r c =
    c.request_id == r.id
    && nat_eq c.generation r.generation
    && not (includes ("FINISHED" ∷ "RETIRED" ∷ []) c.state)

abbrev pub current_attempt : Db → Candidate → Option Attempt
current_attempt db c = find? (λ a. a.candidate_id == c.id) db.attempts

abbrev pub cancel_payload : Payload
cancel_payload = record {
  outcome = cancelled;
  summary = "Cancelled by requester";
  reviewed = false;
  artifact_id = none;
}

-- `sha256` and `fresh` as in the lifecycle; `shows` is JavaScript's `String` of a number and
-- `is_action_id` the test of an action id.
module _ (sha256 : Payload → String) (fresh : String → String) (shows : ℕ → String)
    (is_action_id : String → Bool) where
  abbrev pub event_of : String → String → Option String → EventType → Event
  event_of name request_id attempt_id type = record {
    id = fresh name;
    request_id = request_id;
    attempt_id = attempt_id;
    type = type;
  }

  -- The stop of an attempt is asked for once.
  abbrev pub ask_stop : Request → Candidate → Attempt → ℕ → Db → Tx Db
  ask_stop r c a now db =
      if r.state == "CANCEL_REQUESTED"
      then done db
      else (transition r.id "CANCEL_REQUESTED" none
            (set_candidate c.id "CANCEL_REQUESTED" (end_attempt a.id "CANCEL_REQUESTED" now db))
          then λ db'.
              done (add_event (event_of "cancel_requested" r.id (some a.id) cancel_requested) db'))

  abbrev pub finish_if_stopped : Request → Locked → ℕ → Db → Tx Db
  finish_if_stopped r x now db =
      if not (is_null x.a.stopped_at) && not (unresolved_publication db r.id)
      then (finish_result sha256 fresh x cancel_payload (sha256 cancel_payload) now db
          then λ (db', id). done db')
      else done db

  abbrev pub cancel_attempt : Request → Candidate → Attempt → ℕ → Db → Tx Db
  cancel_attempt r c a now db = lock_artifact_attempt db a.id then λ x.
      ask_stop r c a now db then λ asked. finish_if_stopped r x now asked

  -- A candidate that nobody claimed is retired with its job.
  abbrev pub retire : Option Candidate → ℕ → Db → Tx Db
  retire none now db = done db
  retire (some c) now db =
      if not (is_null c.first_claimed_at)
      then thrown "DISPATCH_STATE_CONFLICT"
      else done (set_candidate c.id "RETIRED" (end_job c.job_id "CANCELLED" now db))

  abbrev pub release_candidate : Option Candidate → ℕ → Db → Db
  release_candidate none now db = db
  release_candidate (some c) now db = release_reservations c.id now db

  abbrev pub unstarted_type : Request → String → EventType
  unstarted_type r id =
      if is_null r.first_claimed_at then cancel_unclaimed id else cancel_recovered_unstarted id

  abbrev pub cancel_unstarted : Request → Option Candidate → ℕ → Db → Tx Db
  cancel_unstarted r c now db =
      if not (is_null r.first_claimed_at) && not (assert_retry_authorization r db)
      then thrown "DISPATCH_STATE_CONFLICT"
      else (retire c now db then λ retired.
          insert_result sha256 fresh r.id none cancel_payload retired then λ (inserted, id).
          transition r.id "CANCELLED" (some id) inserted then λ ended.
          let released = release_candidate c now ended in
          let unbound =
            if r.action == "task_implementation"
            then release_task r.task_id r.id released
            else released in
          done (add_event (event_of "cancel_unstarted" r.id none (unstarted_type r id)) unbound))

  abbrev pub cancel_by_attempt : Request → Candidate → Option Attempt → ℕ → Db → Tx Db
  cancel_by_attempt r c none now db = cancel_unstarted r (some c) now db
  cancel_by_attempt r c (some a) now db = cancel_attempt r c a now db

  abbrev pub cancel_current : Request → Option Candidate → ℕ → Db → Tx Db
  cancel_current r none now db = cancel_unstarted r none now db
  cancel_current r (some c) now db = cancel_by_attempt r c (current_attempt db c) now db

  -- A first call of the action.
  unfoldable pub cancel_fresh : Cancellation → Request → Db → Tx Db
  unfolding lock_artifact_attempt insert_result finish_result transition unresolved_publication
      assert_retry_authorization lock_managed_task_hierarchy
  cancel_fresh k r db =
      if not (shows r.version == k.expected_version)
      then thrown "DISPATCH_STATE_CONFLICT"
      else (lock_task r db then λ _.
          (if is_ended r.state
            then done db
            else cancel_current r (find? (is_current r) db.candidates) k.now db)
          then λ db'.
              done
                (add_event (event_of "cancel_action" r.id none (cancel_action k.key k.hash)) db'))

  abbrev pub cancel_previous : Cancellation → Request → Option Event → Db → Tx Db
  cancel_previous k r none db = cancel_fresh k r db
  cancel_previous k r (some e) db =
      if has_hash k.hash e.type then done db else thrown "DISPATCH_IDEMPOTENCY_CONFLICT"

  abbrev pub cancel_authorized : Cancellation → Request → Db → Tx Db
  cancel_authorized k r db =
      cancel_previous k r (find? (λ e. e.request_id == r.id && is_action_of k.key e.type) db.events)
        db

  abbrev pub cancel_found : Cancellation → Option Request → Db → Tx Db
  cancel_found k none db = thrown "DISPATCH_NOT_FOUND"
  cancel_found k (some r) db = allowed k.cancel_authorization (
      if k.actor.user_id == r.user_id
      then cancel_authorized k r db
      else if k.actor.source == "web"
      then thrown "DISPATCH_FORBIDDEN"
      else allowed k.recover_authorization (cancel_authorized k r db))

  -- `cancelDispatch`, less the view that it answers with.
  unfoldable pub cancel_dispatch : Cancellation → String → Db → Tx Db
  unfolding cancel_fresh
  cancel_dispatch k id db =
      if is_action_id k.action_id
      then cancel_found k (request_of db id) db
      else thrown "DISPATCH_INVALID_INPUT"
