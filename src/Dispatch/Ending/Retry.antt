-- ===== src/Dispatch/Ending/Retry.antt =====
-- src/dispatch/retry-authorization.ts, `assertRetryAuthorization`, and the events that it reads.
use scrum4me_mcp.Prelude.{
  ◌+◌, String, Bool, true, false, not, ◌&&◌, ◌||◌, none, some, [], ◌∷◌, ◌==◌, includes, is_null,
  is_text, some?, nat_eq,
}
use scrum4me_mcp.Dispatch.Ending.Lifecycle.{unresolved_publication}
use scrum4me_mcp.Dispatch.Ending.Table.{
  Request, Attempt, EventType, stop_accepted, retry_authorized, retry_consumed, Event, Db,
}

-- The conditions of `assertRetryAuthorization` on the events and the attempts of the request.
abbrev pub authorizes : Request → EventType → Bool
authorizes r (retry_authorized service input_hash generation) =
    service == "dispatch"
    && input_hash == r.input_hash
    && (nat_eq generation r.generation || nat_eq (generation + 1) r.generation)
authorizes r _ = false

abbrev pub is_retry_authorized : EventType → Bool
is_retry_authorized (retry_authorized service input_hash generation) = true
is_retry_authorized _ = false

abbrev pub consumes : String → EventType → Bool
consumes id (retry_consumed e) = e == id
consumes id _ = false

abbrev pub accepts_stop : String → String → Event → Bool
accepts_stop request_id attempt_id e = elim e.type [
  | stop_accepted ↦ e.request_id == request_id && is_text e.attempt_id attempt_id
  | _ ↦ false
]

-- An attempt of the request that has not ended, or not with an accepted stop.
abbrev pub is_unsettled : Db → String → Attempt → Bool
is_unsettled db request_id a =
    some? (λ c. c.id == a.candidate_id && c.request_id == request_id) db.candidates
    && (not (includes ("SUCCEEDED" ∷ "FAILED" ∷ "CANCELLED" ∷ []) a.state)
        || is_null a.stopped_at
        || is_null a.revoked_at
        || not (some? (accepts_stop request_id a.id) db.events))

-- `assertRetryAuthorization`.
unfoldable pub assert_retry_authorization : Request → Db → Bool
unfolding unresolved_publication
assert_retry_authorization r db = elim r.retry_authorization_event_id [
  | none ↦ false
  | some id ↦
      some?
        (λ e.
          e.id == id && e.request_id == r.id && is_retry_authorized e.type && authorizes r e.type)
        db.events
      && not (some? (λ e. e.request_id == r.id && consumes id e.type) db.events)
      && not (unresolved_publication db r.id)
      && not (some? (is_unsettled db r.id) db.attempts)
]
