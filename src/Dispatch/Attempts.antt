-- ===== src/Dispatch/Attempts.antt =====
-- src/dispatch/attempts.ts: start, renew, reconcile and expire an attempt, each as one transaction
-- on its locked rows. A call that throws leaves the rows as they were.
pub mod Run
pub mod Effect
pub mod OneScope
pub mod Coherence
use scrum4me_mcp.Prelude.{
  ℕ, suc, ◌+◌, ◌*◌, String, Bool, true, false, not, ◌&&◌, ◌||◌, Option, none, some, List, [], ◌∷◌,
  ◌++◌, ◌==◌, includes, is_null, is_text, or_else, truthy, leb, ltb, nat_eq, some?, if◌then◌else◌,
}
use scrum4me_mcp.Dispatch.Table.{
  Scope, Event, started_scope, lease_expired, stop_required, resume_same_attempt, stop_accepted,
  Locked, Actor, Proof, Service, Authorization, granted, refused, crashed, Call, Answer, forbidden,
  conflict, failed, resumed, permit, stop_needed, marked,
}
use scrum4me_mcp.Dispatch.Checks.{
  live_states, is_active, is_found, is_proven, fits_incarnation, has_other_scope, scope_of,
  add_scope, scopes_of, same_scope, is_only, is_recorded, heartbeat_limit, is_silent, is_overdue,
  is_allowed, accepts_stop,
}

-- `event`.
abbrev pub add_event : Event → Locked → Locked
add_event e x = record x { events = x.events ++ e ∷ [] }

-- `state`, less the outbox.
unfoldable pub set_state : String → Locked → Locked
set_state next x = record x {
  request = record x.request { state = next; version = suc x.request.version };
}

-- The states of the attempt and its candidate.
abbrev pub set_attempt : String → Locked → Locked
set_attempt next x = record x {
  attempt = record x.attempt { state = next };
  candidate = record x.candidate { state = next };
}

-- The writes of a first start.
unfoldable pub start_rows : ℕ → Scope → Locked → Locked
unfolding set_state
start_rows now scope x =
    let set = set_attempt "RUNNING" x in
    set_state "RUNNING" (
      add_event (started_scope x.attempt.id scope) (record set {
        attempt = record set.attempt {
          scope_id = some scope.scope_id;
          started_at = some now;
          heartbeat_at = some now;
        };
        job_status = if truthy x.candidate.job_id then "RUNNING" else x.job_status;
      }))

unfoldable pub start_granted : Call → Scope → ℕ → Locked → Locked × Answer
unfolding start_rows is_overdue is_recorded
start_granted call scope max x =
    if is_overdue call.clock max x
    then (x, conflict)
    else if x.attempt.state == "RUNNING" && not (is_recorded scope x)
    then (x, conflict)
    else if x.attempt.state == "CLAIMED"
    then (start_rows call.started scope x, permit scope)
    else (x, permit scope)

unfoldable pub start_authorized : Call → Scope → Authorization → Locked → Locked × Answer
unfolding start_granted
start_authorized call scope (granted max) x = start_granted call scope max x
start_authorized call scope refused x = (x, forbidden)
start_authorized call scope crashed x = (x, failed)

-- `startDispatchAttempt`.
unfoldable pub start_dispatch_attempt :
    Service → Actor → Proof → Scope → Call → Locked → Locked × Answer
unfolding is_active is_found is_proven fits_incarnation has_other_scope is_silent start_authorized
start_dispatch_attempt s actor proof scope call x =
    if not (is_found proof x && is_proven s actor proof x && fits_incarnation s scope x)
    then (x, forbidden)
    else if has_other_scope scope x
        || not (
            is_allowed s x
            && includes ("CLAIMED" ∷ "RUNNING" ∷ []) x.request.state
            && includes ("CLAIMED" ∷ "RUNNING" ∷ []) x.attempt.state)
        || is_silent call.clock x
    then (x, conflict)
    else start_authorized call scope call.authorization x

-- `uncertain`.
unfoldable pub uncertain : Locked → Locked
unfolding set_state
uncertain x =
    set_state "UNCERTAIN" (add_event (lease_expired x.attempt.id) (set_attempt "UNCERTAIN" x))

-- `cancelForStop`.
unfoldable pub cancel_for_stop : ℕ → String → Locked → Locked
unfolding set_state
cancel_for_stop now reason x =
    let set = set_attempt "CANCEL_REQUESTED" x in
    set_state "CANCEL_REQUESTED" (
      add_event (stop_required x.attempt.id reason) (record set {
        attempt = record set.attempt { revoked_at = some (or_else x.attempt.revoked_at now) };
      }))

abbrev pub beat : ℕ → Locked → Locked
beat now x = record x { attempt = record x.attempt { heartbeat_at = some now } }

-- A renewal from its authorization on.
unfoldable pub renew_authorized : Call → Authorization → Locked → Locked × Answer
unfolding cancel_for_stop is_overdue
renew_authorized call (granted max) x =
    if is_overdue call.clock max x
    then (cancel_for_stop call.started "maximum_duration" x, stop_needed true)
    else (beat call.started x, stop_needed (x.attempt.state == "UNCERTAIN"))
renew_authorized call refused x =
    (cancel_for_stop call.started "authorization_unavailable" x, stop_needed true)
renew_authorized call crashed x = (x, failed)

-- What a silent attempt becomes before the authorization.
unfoldable pub settle_silence : ℕ → Locked → Locked
unfolding is_silent uncertain
settle_silence time x =
    if not (x.attempt.state == "UNCERTAIN") && is_silent time x then uncertain x else x

-- An error undoes the whole transaction.
abbrev pub or_undo : Locked → Locked × Answer → Locked × Answer
or_undo x (y, failed) = (x, failed)
or_undo x (y, a) = (y, a)

-- `renewDispatchAttempt`.
unfoldable pub renew_dispatch_attempt :
    Service → Actor → Proof → String → Call → Locked → Locked × Answer
unfolding is_active is_found is_proven renew_authorized settle_silence
renew_dispatch_attempt s actor proof scope_id call x =
    if not (is_found proof x && is_proven s actor proof x)
    then (x, forbidden)
    else if not (
        is_active x && includes live_states x.request.state && includes live_states x.attempt.state)
    then (x, stop_needed true)
    else if not (is_text x.attempt.scope_id scope_id)
    then (x, forbidden)
    else or_undo x (renew_authorized call call.authorization (settle_silence call.clock x))

unfoldable pub resume_rows : ℕ → Locked → Locked
unfolding set_state
resume_rows now x = set_state "RUNNING" (
    add_event (resume_same_attempt x.attempt.id x.attempt.scope_id)
      (beat now (set_attempt "RUNNING" x)))

unfoldable pub reconcile_authorized :
    Service → Call → Scope → Authorization → Locked → Locked × Answer
unfolding resume_rows is_overdue is_recorded
reconcile_authorized s call scope (granted max) x =
    if is_overdue call.clock max x || not (is_recorded scope x)
    then (x, conflict)
    else if s.allows_transition x.request.state "resume_same_attempt"
    then (resume_rows call.started x, resumed)
    else (x, failed)
reconcile_authorized s call scope refused x = (x, forbidden)
reconcile_authorized s call scope crashed x = (x, failed)

-- `reconcileDispatchAttempt`.
unfoldable pub reconcile_dispatch_attempt :
    Service → Actor → Proof → Scope → Call → Locked → Locked × Answer
unfolding is_active is_found is_proven fits_incarnation has_other_scope reconcile_authorized
reconcile_dispatch_attempt s actor proof scope call x =
    if not (is_found proof x && is_proven s actor proof x && fits_incarnation s scope x)
    then (x, forbidden)
    else if has_other_scope scope x
        || not (
            is_allowed s x
            && x.request.state == "UNCERTAIN"
            && x.attempt.state == "UNCERTAIN"
            && not (is_null x.attempt.started_at)
            && truthy x.attempt.scope_id)
    then (x, conflict)
    else reconcile_authorized s call scope call.authorization x

-- The transaction of `markExpiredAttempts` on one row; `max` is the profile's duration.
unfoldable pub mark_expired : Call → ℕ → Locked → Locked × Answer
unfolding cancel_for_stop is_overdue is_silent uncertain
mark_expired call max x =
    if not (
      nat_eq x.request.generation x.candidate.generation
      && includes live_states x.request.state
      && includes live_states x.attempt.state)
    then (x, marked false)
    else if not (is_null x.attempt.stopped_at) && some? (accepts_stop x.attempt.id) x.events
    then (x, marked false)
    else if is_overdue call.clock max x
    then (cancel_for_stop call.started "maximum_duration" x, marked false)
    else if x.attempt.state == "UNCERTAIN"
        || is_null x.attempt.heartbeat_at
        || not (is_silent call.clock x)
    then (x, marked false)
    else (uncertain x, marked true)
