-- ===== src/Dispatch/Checks.antt =====
-- The tests of src/dispatch/attempts.ts: `active`, `lock`, `verifyProof`, `validScope`,
-- `verifyRecordedScope`, the limits of time.
use scrum4me_mcp.Prelude.{
  ℕ, ◌+◌, ◌*◌, String, Bool, true, false, not, ◌&&◌, Option, none, some, List, [], ◌∷◌, ◌==◌,
  includes, is_null, is_text, truthy, leb, nat_eq, if◌then◌else◌,
}
use scrum4me_mcp.Dispatch.Table.{
  Scope, Event, started_scope, stop_accepted, Locked, Actor, Proof, Service,
}

abbrev pub live_states : List String
live_states = "CLAIMED" ∷ "RUNNING" ∷ "UNCERTAIN" ∷ []

-- `active`.
unfoldable pub is_active : Locked → Bool
is_active x =
    nat_eq x.request.generation x.candidate.generation
    && is_text x.candidate.incarnation_id x.attempt.incarnation_id
    && x.incarnation.slot_id == x.candidate.reserved_slot_id
    && is_null x.attempt.revoked_at
    && is_null x.incarnation.signed_off_at
    && x.incarnation.enabled
    && includes live_states x.candidate.state

-- `lock` finds the rows of the proof.
unfoldable pub is_found : Proof → Locked → Bool
is_found p x =
    x.request.id == p.request_id
    && x.candidate.id == p.candidate_id
    && x.candidate.request_id == x.request.id
    && x.attempt.id == p.attempt_id
    && x.attempt.candidate_id == x.candidate.id

-- `verifyProof` lets the proof pass.
unfoldable pub is_proven : Service → Actor → Proof → Locked → Bool
is_proven s actor p x =
    nat_eq p.generation x.candidate.generation
    && p.incarnation_id == x.attempt.incarnation_id
    && actor.source == "bearer"
    && actor.user_id == x.incarnation.owner_user_id
    && is_text actor.token_id x.incarnation.supervisor_token_id
    && s.credential_matches p.credential x.attempt.credential_hash

-- The first test of `validScope`.
unfoldable pub fits_incarnation : Service → Scope → Locked → Bool
fits_incarnation s scope x =
    not (scope.scope_id == "")
    && leb (s.text_length scope.scope_id) 256
    && scope.boot_id == x.incarnation.boot_id
    && scope.image_digest == x.incarnation.image_digest
    && scope.profile_sha256 == x.incarnation.profile_sha256

-- Its second test: the attempt has another scope.
unfoldable pub has_other_scope : Scope → Locked → Bool
has_other_scope scope x =
    truthy x.attempt.scope_id && not (is_text x.attempt.scope_id scope.scope_id)

abbrev pub scope_of : String → Event → Option Scope
scope_of id (started_scope a scope) = if a == id then some scope else none
scope_of id _ = none

abbrev pub add_scope : Option Scope → List Scope → List Scope
add_scope none ss = ss
add_scope (some s) ss = s ∷ ss

-- The scopes of the events `started_scope` of an attempt.
abbrev pub scopes_of : String → List Event → List Scope
scopes_of id [] = []
scopes_of id (e ∷ es) = add_scope (scope_of id e) (scopes_of id es)

abbrev pub same_scope : Scope → Scope → Bool
same_scope a b =
    a.scope_id == b.scope_id
    && a.boot_id == b.boot_id
    && a.image_digest == b.image_digest
    && a.profile_sha256 == b.profile_sha256

abbrev pub is_only : Scope → List Scope → Bool
is_only scope [] = false
is_only scope (s ∷ []) = same_scope s scope
is_only scope (s ∷ t ∷ rest) = false

-- `verifyRecordedScope`.
unfoldable pub is_recorded : Scope → Locked → Bool
is_recorded scope x = is_only scope (scopes_of x.attempt.id x.events)

abbrev pub heartbeat_limit : ℕ
heartbeat_limit = 120000

-- `time - heartbeat_at >= 120000`, or no heartbeat.
unfoldable pub is_silent : ℕ → Locked → Bool
is_silent time x = elim x.attempt.heartbeat_at [
  | none ↦ true
  | some beat ↦ leb (beat + heartbeat_limit) time
]

-- `started_at && time - started_at >= max_duration_seconds * 1000`.
unfoldable pub is_overdue : ℕ → ℕ → Locked → Bool
is_overdue time max_duration_seconds x = elim x.attempt.started_at [
  | none ↦ false
  | some start ↦ leb (start + max_duration_seconds * 1000) time
]

abbrev pub is_allowed : Service → Locked → Bool
is_allowed s x = s.enabled && includes s.product_allowlist x.request.product_id && is_active x

abbrev pub accepts_stop : String → Event → Bool
accepts_stop id (stop_accepted a) = a == id
accepts_stop id _ = false
