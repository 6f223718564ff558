-- ===== src/Dispatch/Ending/Judge.antt =====
-- The verdicts of `acceptDispatchResult` of src/dispatch/completion.ts on a submitted result.
use scrum4me_mcp.Prelude.{
  ℕ, String, Bool, false, not, ◌&&◌, ◌||◌, Option, none, some, [], ◌∷◌, ◌==◌, includes, is_null,
  truthy, nat_eq, some?, if◌then◌else◌,
}
use scrum4me_mcp.Dispatch.Table.{Actor, Proof}
use scrum4me_mcp.Dispatch.Ending.Table.{failed, cancelled, Payload, Db, Tx, thrown, done, ◌then◌}
use scrum4me_mcp.Dispatch.Ending.Retry.{accepts_stop}
use scrum4me_mcp.Dispatch.Ending.Lifecycle.{Locked, is_succeeded}

-- `authorizeDispatch(..., 'publish', ...)`: it lets pass, throws a `DispatchError` or another error.
pub data Publish : Type 0 where
  granted refused crashed : Publish

-- `verifyCodeArtifact`: it returns, throws a `DispatchError` or another error.
pub data Verified : Type 0 where
  verified malformed : Verified
  rejected : String → Verified

-- `publishDispatchArtifact`.
pub data Publication : Type 0 where
  confirmed failed_to unknown : Publication
  refused_to : String → Publication

-- What the call is given and what it finds outside the tables of this model. `input_matches` is the
-- comparison with `input_hash`, `sources_intact` that of the prepared sources,
-- `documents_delivered` and `review_delivered` are `assertReviewSourceReceipts` for the documents of
-- the input and of the review, `code_admissible` the checks of the code artifact and its base, and
-- `gate` is the error of `checkVerifyGate`, if it has one.
pub record Submission : Type 0 where
  pub actor : Actor
  pub proof : Proof
  pub payload : Payload
  pub submitted_hash : String
  pub refreshed : Option String
  pub input_matches : Bool
  pub sources_intact : Bool
  pub documents_delivered : Bool
  pub review_delivered : Bool
  pub code_admissible : Bool
  pub publish : Publish
  pub code_verified : Verified
  pub gate : Option String
  pub publication : Publication
  pub publish_again : Publish
  pub now : ℕ

-- `ResultReceipt`, by its reasons.
pub data Receipt : Type 0 where
  replayed terminal_result : String → Receipt
  publication_unknown : Receipt
  accepted : String → Payload → Receipt

abbrev pub fail_with : String → Payload → Payload
fail_with summary p = record p { outcome = failed; summary = summary; reviewed = false }

abbrev pub conflict : {A : Type 0} → Tx A
conflict = thrown "DISPATCH_STATE_CONFLICT"

abbrev pub has_code : Payload → Bool
has_code p = truthy p.artifact_id

-- The checks of the rows before anything is made of the result.
unfoldable pub may_finish : Submission → Locked → Db → Bool
may_finish k x db =
    nat_eq x.c.generation x.r.generation
    && not (is_null x.a.stopped_at)
    && some? (accepts_stop x.r.id x.a.id) db.events
    && k.input_matches
    && x.p.sha256 == x.i.profile_sha256
    && x.p.image_digest == x.i.image_digest
    && k.sources_intact
    && not (not (truthy x.a.scope_id) && is_succeeded k.payload.outcome)

-- A request that is to be cancelled takes no other outcome; one whose attempt is uncertain takes none.
unfoldable pub respect_cancel : Locked → Payload → Tx Payload
respect_cancel x p =
    if x.r.state == "CANCEL_REQUESTED"
    then done (record p { outcome = cancelled })
    else if x.r.state == "UNCERTAIN"
    then conflict
    else done p

abbrev pub revoked_failure : Option ℕ → Option String
revoked_failure none = none
revoked_failure (some at) = some "profile_revoked"

abbrev pub publish_failure : Publish → Option String → Tx (Option String)
publish_failure granted failure = done failure
publish_failure refused failure = done (some "authorization_unavailable")
publish_failure crashed failure = thrown "Error"

abbrev pub documents_failure : Submission → Locked → Option String → Option String
documents_failure k x failure =
    if x.r.has_review_documents && not (x.r.action == "review") && not k.documents_delivered
    then some "sources_unverified"
    else failure

abbrev pub review_failure : Submission → Locked → Payload → Option String → Tx (Option String)
review_failure k x p failure =
    if x.r.action == "review"
    then done
        (if p.reviewed && k.review_delivered then failure else some "review_sources_unverified")
    else if p.reviewed
    then thrown "DISPATCH_INVALID_INPUT"
    else done failure

-- What a success fails on; a later check replaces the reason of an earlier one.
unfoldable pub success_failure : Submission → Locked → Payload → Tx (Option String)
success_failure k x p =
    if not (is_succeeded p.outcome)
    then done none
    else (publish_failure k.publish (revoked_failure x.p.revoked_at) then λ failure.
        review_failure k x p (documents_failure k x failure))

unfoldable pub code_failure : Submission → Locked → Payload → Option String → Tx (Option String)
code_failure k x p failure =
    if has_code p
    then (if k.code_admissible then done failure else thrown "DISPATCH_INVALID_INPUT")
    else if is_succeeded p.outcome
        && (x.r.action == "task_implementation" || x.r.access == "repo_write")
    then done (some "code_artifact_required")
    else done failure

abbrev pub fail_if : Option String → Payload → Payload
fail_if none p = p
fail_if (some summary) p = fail_with summary p

-- The first transaction's verdict on the result.
unfoldable pub judge : Submission → Locked → Db → Tx Payload
unfolding may_finish respect_cancel success_failure code_failure
judge k x db =
    if not (may_finish k x db)
    then conflict
    else (respect_cancel x k.payload then λ p. success_failure k x p then λ failure.
        code_failure k x p failure then λ failure'. done (fail_if failure' p))

abbrev pub fail_gate : Option String → Payload → Payload
fail_gate none p = p
fail_gate (some error) p = record p { outcome = failed; summary = error }

abbrev pub check_code : Submission → Locked → Payload → Verified → Tx Payload
check_code k x p (rejected e) = thrown e
check_code k x p malformed = done (fail_with "code_verification_failed" p)
check_code k x p verified =
    done (if x.r.action == "task_implementation" then fail_gate k.gate p else p)

-- The check of the code, outside any transaction.
unfoldable pub verify_code : Submission → Locked → Payload → Tx Payload
verify_code k x p = if has_code p then check_code k x p k.code_verified else done p

abbrev pub publish_code : Publication → Payload → Tx (Option Payload)
publish_code confirmed p = done (some p)
publish_code failed_to p =
    done (some (record p { outcome = failed; summary = "publication_failed" }))
publish_code unknown p = done none
publish_code (refused_to e) p = thrown e

-- The publication, `none` where nobody knows whether it happened.
unfoldable pub publish_result : Submission → Locked → Payload → Tx (Option Payload)
publish_result k x p =
    if is_succeeded p.outcome && has_code p && not (x.r.publish == "artifact")
    then publish_code k.publication p
    else done (some p)

abbrev pub publish_again : Publish → Locked → Payload → Tx Payload
publish_again crashed x p =
    if is_null x.p.revoked_at
    then thrown "Error"
    else done (fail_with "authorization_unavailable" p)
publish_again refused x p = done (fail_with "authorization_unavailable" p)
publish_again granted x p =
    done (if is_null x.p.revoked_at then p else fail_with "authorization_unavailable" p)

-- The last transaction's verdict.
unfoldable pub judge_again : Submission → Locked → Payload → Tx Payload
judge_again k x p =
    if x.r.state == "CANCEL_REQUESTED"
    then done (record p { outcome = cancelled })
    else if not (includes ("CLAIMED" ∷ "RUNNING" ∷ []) x.r.state)
    then conflict
    else if is_succeeded p.outcome
    then publish_again k.publish_again x p
    else done p
