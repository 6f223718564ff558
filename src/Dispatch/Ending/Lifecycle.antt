-- ===== src/Dispatch/Ending/Lifecycle.antt =====
-- src/dispatch/lifecycle.ts: the writes at the end of a request.
use scrum4me_mcp.Prelude.{
  ℕ, suc, String, Bool, true, false, not, ◌&&◌, ◌||◌, Option, none, some, [], ◌∷◌, ◌++◌, ◌==◌,
  update_by, includes, is_null, is_text, or_else, some?, map, if◌then◌else◌,
}
use scrum4me_mcp.Status.Decisions.{TaskStatus}
use scrum4me_mcp.Dispatch.Ending.Table.{
  Request, Candidate, Attempt, Slot, Incarnation, Profile, Job, Reservation, Publication, Binding,
  Outcome, succeeded, failed, cancelled, Payload, Result, result_accepted, Event, Outbox, Db,
  request_of, result_of, Tx, thrown, done, ◌then◌,
}
use scrum4me_mcp.Dispatch.Ending.Tasks.{project_managed_task_status}

-- `outcome.toUpperCase()`.
abbrev pub shown : Outcome → String
shown succeeded = "SUCCEEDED"
shown failed = "FAILED"
shown cancelled = "CANCELLED"

abbrev pub is_cancelled : Outcome → Bool
is_cancelled cancelled = true
is_cancelled _ = false

abbrev pub is_succeeded : Outcome → Bool
is_succeeded succeeded = true
is_succeeded _ = false

-- `lifecycleEvent`.
abbrev pub add_event : Event → Db → Db
add_event e db = record db { events = db.events ++ e ∷ [] }

abbrev pub outbox_row : Request → Outbox
outbox_row r = record {
  request_id = r.id;
  version = r.version;
  state = r.state;
  result_id = r.result_id;
}

abbrev pub moved : String → Option String → Request → Request
moved state result_id r = record r {
  state = state;
  result_id = if is_null result_id then r.result_id else result_id;
  version = suc r.version;
}

abbrev pub move_found : String → String → Option String → Option Request → Db → Tx Db
move_found id state result_id none db = thrown "DISPATCH_NOT_FOUND"
move_found id state result_id (some r) db = done (record db {
  requests = update_by (λ r. r.id) id (moved state result_id) db.requests;
  outbox = db.outbox ++ outbox_row (moved state result_id r) ∷ [];
})

-- `transition`.
unfoldable pub transition : String → String → Option String → Db → Tx Db
transition id state result_id db = move_found id state result_id (request_of db id) db

abbrev pub is_unresolved : String → Publication → Bool
is_unresolved id p = p.request_id == id && includes ("PREPARED" ∷ "SENT" ∷ "UNKNOWN" ∷ []) p.state

-- `unresolvedPublication`.
unfoldable pub unresolved_publication : Db → String → Bool
unresolved_publication db id = some? (is_unresolved id) db.publications

-- `ArtifactAttempt`: the rows that `lockArtifactAttempt` locks.
pub record Locked : Type 0 where
  pub r : Request
  pub c : Candidate
  pub s : Slot
  pub a : Attempt
  pub i : Incarnation
  pub p : Profile

abbrev pub job_status : Outcome → String
job_status succeeded = "DONE"
job_status failed = "FAILED"
job_status cancelled = "CANCELLED"

abbrev pub ended_job : String → ℕ → Job → Job
ended_job status now j = record j { status = status; finished_at = some now }

-- The end of a job, of which the listeners are told.
abbrev pub end_job : Option String → String → ℕ → Db → Db
end_job none status now db = db
end_job (some id) status now db = if id == "" then db else record db {
  jobs = update_by (λ j. j.id) id (ended_job status now) db.jobs;
  notified = db.notified ++ id ∷ [];
}

abbrev pub released : String → ℕ → Reservation → Reservation
released candidate_id now v =
    if v.candidate_id == candidate_id && is_null v.released_at
    then record v { released_at = some now }
    else v

abbrev pub release_reservations : String → ℕ → Db → Db
release_reservations candidate_id now db = record db {
  reservations = map (released candidate_id now) db.reservations;
}

abbrev pub revoked_as : String → ℕ → Attempt → Attempt
revoked_as state now a = record a { state = state; revoked_at = some (or_else a.revoked_at now) }

abbrev pub set_candidate : String → String → Db → Db
set_candidate id state db = record db {
  candidates = update_by (λ c. c.id) id (λ c. record c { state = state }) db.candidates;
}

abbrev pub end_attempt : String → String → ℕ → Db → Db
end_attempt id state now db = record db {
  attempts = update_by (λ a. a.id) id (revoked_as state now) db.attempts;
}

-- `terminalizeAttempt`.
unfoldable pub terminalize_attempt : Locked → Outcome → ℕ → Db → Tx Db
unfolding unresolved_publication
terminalize_attempt x outcome now db =
    if is_null x.a.stopped_at || unresolved_publication db x.r.id
    then thrown "DISPATCH_STATE_CONFLICT"
    else done (
        release_reservations x.c.id now (
          set_candidate x.c.id "FINISHED" (
            end_job x.c.job_id (job_status outcome) now
              (end_attempt x.a.id (shown outcome) now db))))

-- The release of the task that a request holds.
abbrev pub unbound : String → String → Binding → Binding
unbound task_id request_id b =
    if b.task_id == task_id && is_text b.dispatch_request_id request_id
    then record b { dispatch_request_id = none }
    else b

abbrev pub release_task : String → String → Db → Db
release_task task_id request_id db = record db {
  bindings = map (unbound task_id request_id) db.bindings;
}

abbrev pub task_end : Outcome → TaskStatus
task_end succeeded = TaskStatus.done
task_end _ = TaskStatus.failed

-- What the end of a request does to the task that it works on.
abbrev pub project_task : Request → Outcome → ℕ → Db → Tx Db
project_task r outcome now db =
    if is_cancelled outcome
    then done db
    else (project_managed_task_status r.task_id (task_end outcome) now db.hierarchy then λ h.
        done (record db { hierarchy = h }))

abbrev pub settle_task : Request → Outcome → ℕ → Db → Tx Db
settle_task r outcome now db =
    if r.action == "task_implementation"
    then (project_task r outcome now db then λ db'. done (release_task r.task_id r.id db'))
    else done db

abbrev pub stopped_payload : Payload
stopped_payload = record {
  outcome = cancelled;
  summary = "Cancelled execution has stopped";
  reviewed = false;
  artifact_id = none;
}

-- `artifactHash(canonicalResult(...))`, on node:crypto, is `sha256`; `fresh` are the ids that
-- `randomUUID` draws in the call, by what they are for.
module _ (sha256 : Payload → String) (fresh : String → String) where
  abbrev pub result_row : String → Option String → Payload → Result
  result_row id attempt_id payload = record {
    id = fresh "result";
    request_id = id;
    attempt_id = attempt_id;
    payload = payload;
    sha256 = sha256 payload;
  }

  abbrev pub insert_found : String → Option String → Payload → Option Result → Db → Tx (Db × String)
  insert_found id attempt_id payload none db =
      done (
        record db { results = db.results ++ result_row id attempt_id payload ∷ [] },
        fresh "result",
      )
  insert_found id attempt_id payload (some old) db =
      if old.sha256 == sha256 payload
      then done (db, old.id)
      else thrown "DISPATCH_IDEMPOTENCY_CONFLICT"

  -- `insertResult`.
  unfoldable pub insert_result : String → Option String → Payload → Db → Tx (Db × String)
  insert_result id attempt_id payload db = insert_found id attempt_id payload (result_of db id) db

  -- `finishResult`, less the usage of the job.
  unfoldable pub finish_result : Locked → Payload → String → ℕ → Db → Tx (Db × String)
  unfolding insert_result transition terminalize_attempt project_managed_task_status
  finish_result x payload submitted_hash now db =
      insert_result x.r.id (some x.a.id) payload db then λ (inserted, id).
      transition x.r.id (shown payload.outcome) (some id) inserted then λ moved'.
      terminalize_attempt x payload.outcome now moved' then λ ended.
      settle_task x.r payload.outcome now ended then λ settled.
      let e : Event = record {
        id = fresh "result_accepted";
        request_id = x.r.id;
        attempt_id = some x.a.id;
        type = result_accepted id submitted_hash;
      } in
      done (add_event e settled, id)

  -- `finishStoppedCancellation`.
  unfoldable pub finish_stopped_cancellation : Locked → ℕ → Db → Tx Db
  unfolding finish_result unresolved_publication
  finish_stopped_cancellation x now db =
      if not (x.r.state == "CANCEL_REQUESTED") || unresolved_publication db x.r.id
      then done db
      else if not (is_null (result_of db x.r.id))
      then done db
      else (finish_result x stopped_payload (sha256 stopped_payload) now db then λ (db', id).
          done db')
