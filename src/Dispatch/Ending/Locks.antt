-- ===== src/Dispatch/Ending/Locks.antt =====
-- `lockArtifactAttempt` and `verifyArtifactProof` of src/dispatch/artifacts.ts, and
-- `authenticateHistoricalSupervisor` of src/dispatch/stop-evidence.ts. A row that a foreign key
-- guarantees is a TypeError where it is not there.
use scrum4me_mcp.Prelude.{
  String, Bool, not, ◌&&◌, ◌||◌, ◌==◌, find_by, is_text, nat_eq, if◌then◌else◌,
}
use scrum4me_mcp.Dispatch.Table.{Actor, Proof}
use scrum4me_mcp.Dispatch.Ending.Table.{
  found, Request, Candidate, Attempt, Db, request_of, Tx, thrown, done, ◌then◌,
}
use scrum4me_mcp.Dispatch.Ending.Tasks.{lock_managed_task_hierarchy}
use scrum4me_mcp.Dispatch.Ending.Lifecycle.{Locked}

abbrev pub lock_task : Request → Db → Tx Db
lock_task r db =
    if r.action == "task_implementation"
    then (lock_managed_task_hierarchy r.task_id db.hierarchy then λ h. done db)
    else done db

abbrev pub belongs : Locked → Tx Locked
belongs x =
    if not (x.i.slot_id == x.s.id) || not (x.c.incarnation_id == x.a.incarnation_id)
    then thrown "DISPATCH_FORBIDDEN"
    else done x

-- The rows of an attempt whose candidate is known.
abbrev pub lock_rows : Attempt → Candidate → Request → Db → Tx Locked
lock_rows a c r db =
    found "DISPATCH_FORBIDDEN" (find_by (λ s. s.id) c.reserved_slot_id db.slots) then λ s.
    found "DISPATCH_FORBIDDEN" (find_by (λ i. i.id) a.incarnation_id db.incarnations) then λ i.
    found "DISPATCH_FORBIDDEN" (find_by (λ p. p.id) c.profile_revision_id db.profiles) then λ p.
    belongs (record { r = r; c = c; s = s; a = a; i = i; p = p })

-- `lockArtifactAttempt`.
unfoldable pub lock_artifact_attempt : Db → String → Tx Locked
unfolding lock_managed_task_hierarchy
lock_artifact_attempt db attempt_id =
    found "DISPATCH_FORBIDDEN" (find_by (λ a. a.id) attempt_id db.attempts) then λ a.
    found "DISPATCH_FORBIDDEN" (find_by (λ c. c.id) a.candidate_id db.candidates) then λ c.
    found "TypeError" (request_of db c.request_id) then λ r.
    lock_task r db then λ _. lock_rows a c r db

-- `verifyArtifactProof` lets the proof pass; `matches` is `credentialMatches`.
unfoldable pub is_proven : (String → String → Bool) → Actor → Proof → Locked → Bool
is_proven matches actor proof x =
    proof.request_id == x.r.id
    && proof.candidate_id == x.c.id
    && nat_eq proof.generation x.c.generation
    && proof.attempt_id == x.a.id
    && proof.incarnation_id == x.i.id
    && actor.source == "bearer"
    && actor.user_id == x.s.owner_user_id
    && is_text actor.token_id x.i.supervisor_token_id
    && is_text actor.token_id x.s.token_id
    && matches proof.credential x.a.credential_hash

-- What `authenticateHistoricalSupervisor` asks once the actor is refreshed.
unfoldable pub is_supervisor : Actor → Locked → Bool
is_supervisor actor x =
    actor.source == "bearer"
    && actor.user_id == x.s.owner_user_id
    && is_text actor.token_id x.i.supervisor_token_id
    && is_text actor.token_id x.s.token_id
