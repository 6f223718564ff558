-- ===== src/Queue/Finish.antt =====
-- src/tools/queue-done.ts and src/tools/queue-fail.ts: the end of a message, with or without a
-- reply, in one transaction under the row's lock; the lease is released after it committed.
pub mod Owner
pub mod Reply
use mathlib.Core.Option
use scrum4me_mcp.Prelude.{
  ℕ, String, Bool, true, false, not, ◌&&◌, Option, none, some, List, [], ◌∷◌, ◌++◌, ◌==◌, includes,
  is_text, update_by, find_by, if◌then◌else◌,
}
use scrum4me_mcp.Queue.Message.{
  Message, Markers, Projection, Queue, Vocabulary, is_legacy, envelope_of,
}
use scrum4me_mcp.Queue.Ownership.{
  Lease, QueueError, OwnershipVerdict, verify_local_ownership, release_lease,
}

-- The table and the register of this process.
pub record Process : Type 0 where
  pub queue : Queue
  pub leases : List Lease

-- A finished message with the id of its reply, or the error.
pub data Outcome : Type 0 where
  done : Option String → Outcome
  failed : QueueError → Outcome

-- The tests before the first write: the row that may be finished, or the error.
pub data Admission : Type 0 where
  admitted : Message → Admission
  rejected : QueueError → Admission

-- Step (c): `claimed_by` is the expected value, where one is expected.
abbrev pub admit_owner : String → Message → OwnershipVerdict → Admission
admit_owner id m (OwnershipVerdict.refused e) = Admission.rejected e
admit_owner id m (OwnershipVerdict.ok none) = Admission.admitted m
admit_owner id m (OwnershipVerdict.ok (some expected)) =
    if is_text m.claimed_by expected
    then Admission.admitted m
    else Admission.rejected (QueueError.not_claimer_reclaimed id)

unfoldable pub admit : Vocabulary → List Lease → String → Option String → List Message → Admission
admit v leases id token messages = elim (find_by (λ m. m.id) id messages) [
  | none ↦ Admission.rejected (QueueError.queue_not_found id)
  | some m ↦
      if is_legacy m
      then if includes v.terminal_statuses m.status
        then Admission.rejected (QueueError.queue_already_terminal id m.status)
        else admit_owner id m (verify_local_ownership leases id m.status token)
      else Admission.rejected QueueError.ppe_legacy_route_rejected
]

abbrev pub no_markers : Markers
no_markers = record {
  ppe_protocol = none;
  ppe_run_id = none;
  ppe_operation_key = none;
  ppe_payload_sha256 = none;
  ppe_from_principal = none;
  ppe_to_principal = none;
  ppe_to_consumer_id = none;
  ppe_consumer_generation = none;
  ppe_lease_generation = none;
}

abbrev pub no_projection : Projection
no_projection = record {
  dispatch_request_id = none;
  dispatch_projection_version = none;
  dispatch_role = none;
}

-- The row that INSERT makes; the columns it does not name have the defaults of the table.
abbrev pub reply_row : Vocabulary → String → ℕ → Message → String → Message
reply_row v new_id now m reply = record {
  id = new_id;
  type = v.reply_type m.type;
  sender = m.receiver;
  receiver = m.sender;
  body = reply;
  action = none;
  source = "mcp";
  status = "pending";
  in_reply_to = some m.id;
  error = none;
  claimed_by = none;
  claimed_at = none;
  started_at = none;
  finished_at = none;
  created_at = now;
  archived_at = none;
  markers = no_markers;
  projection = no_projection;
}

abbrev pub done_row : ℕ → Message → Message
done_row now m = record m { status = "done"; finished_at = some now }

abbrev pub failed_row : String → ℕ → Message → Message
failed_row error now m = record m { status = "failed"; error = some error; finished_at = some now }

-- The writes of `queue_done` with a reply.
unfoldable pub write_reply : Vocabulary → String → ℕ → Message → String → Process → Process
write_reply v new_id now m reply p = record {
  queue = record {
    messages =
        update_by (λ r. r.id) m.id (done_row now) p.queue.messages
        ++ reply_row v new_id now m reply ∷ [];
    sent =
        p.queue.sent
        ++ envelope_of (reply_row v new_id now m reply) none
          ∷ envelope_of (done_row now m) (some m.status)
          ∷ [];
  };
  leases = release_lease m.id p.leases;
}

-- The writes of `queue_done` for a row that was admitted.
unfoldable pub write_done :
    Vocabulary → String → ℕ → Message → Option String → Process → Process × Outcome
write_done v new_id now m none p = (
  record {
    queue = record {
      messages = update_by (λ r. r.id) m.id (done_row now) p.queue.messages;
      sent = p.queue.sent ++ envelope_of (done_row now m) (some m.status) ∷ [];
    };
    leases = release_lease m.id p.leases;
  },
  Outcome.done none,
)
write_done v new_id now m (some reply) p =
    if includes v.request_types m.type
    then (write_reply v new_id now m reply p, Outcome.done (some new_id))
    else (p, Outcome.failed (QueueError.reply_to_no_request m.id m.type))

abbrev pub on_done :
    Vocabulary → String → ℕ → Option String → Process → Admission → Process × Outcome
on_done v new_id now reply p (Admission.rejected e) = (p, Outcome.failed e)
on_done v new_id now reply p (Admission.admitted m) = write_done v new_id now m reply p

-- `queue_done`.
unfoldable pub queue_done :
    Vocabulary
    → (new_id : String) → (now : ℕ) → (id : String) → (reply token : Option String) → Process
    → Process × Outcome
queue_done v new_id now id reply token p =
    on_done v new_id now reply p (admit v p.leases id token p.queue.messages)

abbrev pub on_fail : ℕ → String → Process → Admission → Process × Outcome
on_fail now error p (Admission.rejected e) = (p, Outcome.failed e)
on_fail now error p (Admission.admitted m) = (
  record {
    queue = record {
      messages = update_by (λ r. r.id) m.id (failed_row error now) p.queue.messages;
      sent = p.queue.sent ++ envelope_of (failed_row error now m) (some m.status) ∷ [];
    };
    leases = release_lease m.id p.leases;
  },
  Outcome.done none,
)

-- `queue_fail`.
unfoldable pub queue_fail :
    Vocabulary
    → (now : ℕ) → (id : String) → (error : String) → (token : Option String) → Process
    → Process × Outcome
queue_fail v now id error token p = on_fail now error p (admit v p.leases id token p.queue.messages)
