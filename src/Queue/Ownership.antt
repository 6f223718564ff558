-- ===== src/Queue/Ownership.antt =====
-- src/queue/lease-register.ts and src/queue/ownership.ts: the leases of this process, and the check
-- that the one who finishes a message is the one who claimed it.
use scrum4me_mcp.Prelude.{
  String, not, Option, none, some, List, [], ◌∷◌, ◌==◌, find_by, select, is_text, is_null,
  if◌then◌else◌,
}

-- An entry of the register: the message's id with its `QueueLease`.
pub record Lease : Type 0 where
  pub message_id : String
  pub claim_token : String
  pub claimed_by : String

unfoldable pub get_lease : List Lease → String → Option Lease
get_lease leases id = find_by (λ l. l.message_id) id leases

unfoldable pub release_lease : String → List Lease → List Lease
release_lease id leases = select (λ l. not (l.message_id == id)) leases

-- `Map.set`: an entry that is there keeps its place.
unfoldable pub register_lease : Lease → List Lease → List Lease
register_lease lease [] = lease ∷ []
register_lease lease (l ∷ ls) =
    let rest = register_lease lease ls in
    if l.message_id == lease.message_id then lease ∷ ls else l ∷ rest

-- The errors of `queue_done` and `queue_fail`, by their codes and causes.
pub data QueueError : Type 0 where
  queue_not_found : String → QueueError
  ppe_legacy_route_rejected : QueueError
  queue_already_terminal : String → String → QueueError
  claim_expired_pending claim_expired_no_lease : String → QueueError
  not_claimer_other not_claimer_token not_claimer_reclaimed : String → QueueError
  reply_to_no_request : String → String → QueueError

-- `OwnershipVerdict`.
pub data OwnershipVerdict : Type 0 where
  ok : Option String → OwnershipVerdict
  refused : QueueError → OwnershipVerdict

unfoldable pub verify_local_ownership :
    List Lease → String → String → Option String → OwnershipVerdict
unfolding get_lease
verify_local_ownership leases id row_status token =
    if row_status == "pending"
    then if is_null token
      then OwnershipVerdict.ok none
      else OwnershipVerdict.refused (QueueError.claim_expired_pending id)
    else elim (get_lease leases id) [
      | none ↦
          if is_null token
          then OwnershipVerdict.refused (QueueError.not_claimer_other id)
          else OwnershipVerdict.refused (QueueError.claim_expired_no_lease id)
      | some lease ↦
          if is_text token lease.claim_token
          then OwnershipVerdict.ok (some lease.claimed_by)
          else OwnershipVerdict.refused (QueueError.not_claimer_token id)
    ]
