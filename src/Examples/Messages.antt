-- ===== src/Examples/Messages.antt =====
-- Two requests in the queue and a worker that claims, finishes and refreshes (src/queue).
use scrum4me_mcp.Prelude.{
  ◌≡◌, inl, refl, arith, String, true, false, Option, none, some, [], ◌∷◌, ◌++◌, ◌==◌, find_by, All,
  includes, if◌then◌else◌, HasKeys,
}
use scrum4me_mcp.Queue.Message.{
  Address, Message, Queue, Vocabulary, is_legacy, is_ordinary, envelope_of,
}
use scrum4me_mcp.Queue.Claim.{
  claim_next_request, rollback_queue_claim, comes_before, claim_row, is_next_request, is_held_by,
  first_row, take_row,
}
use scrum4me_mcp.Queue.Claim.Oldest.{IsIdOrder, may_claim, claim_takes_oldest}
use scrum4me_mcp.Queue.Claim.Rollback.{IsWaiting, claim_then_rollback}
use scrum4me_mcp.Queue.Ownership.{Lease, QueueError, get_lease, verify_local_ownership}
use scrum4me_mcp.Queue.Finish.{
  Process, Outcome, no_markers, no_projection, admit, queue_done, write_done,
}
use scrum4me_mcp.Queue.Finish.Owner.{IsOwned, finish_needs_owner}
use scrum4me_mcp.Queue.Finish.Reply.{done_error_keeps, reply_reaches_sender}
use scrum4me_mcp.Queue.Maintenance.{is_mcp_claim, refresh_queue_leases, sweep_stale_queue_claims}
use scrum4me_mcp.Queue.Maintenance.Survival.{fresh_row, refreshed_claim_survives}
use scrum4me_mcp.Queue.WorkItem.{WorkItemInput, merge_key, merge_work_item_inputs}
use scrum4me_mcp.Queue.Presence.{PresenceInput}
use scrum4me_mcp.Queue.Step.{Step, Steps, is_frozen}
use scrum4me_mcp.Queue.Step.Guards.{IsOpen}
use scrum4me_mcp.Queue.Step.Frozen.{frozen_rows_stay}

abbrev pub vocabulary : Vocabulary
vocabulary = record {
  request_types = "task" ∷ "info" ∷ "review_request" ∷ [];
  response_types = "result" ∷ "data" ∷ "reviewed" ∷ [];
  terminal_statuses = "done" ∷ "failed" ∷ "cancelled" ∷ [];
  reply_type = λ t. "result";
  reclaim = 14400000;
  cli_reclaim = 14400000;
  id_before = λ a b. false;
}

id_order : IsIdOrder vocabulary
id_order = record { asym = λ a b h. refl; trans = λ a b c h k. refl }

abbrev me : Address
me = record { server = "mac"; model = "claude" }

abbrev you : Address
you = record { server = "mac"; model = "codex" }

abbrev pub first_message : Message
first_message = record {
  id = "m1";
  type = "task";
  sender = you;
  receiver = me;
  body = "build it";
  action = none;
  source = "mcp";
  status = "pending";
  in_reply_to = none;
  error = none;
  claimed_by = none;
  claimed_at = none;
  started_at = none;
  finished_at = none;
  created_at = 10;
  archived_at = none;
  markers = no_markers;
  projection = no_projection;
}

abbrev second_message : Message
second_message = record first_message { id = "m2"; created_at = 5 }

abbrev old_message : Message
old_message = record first_message { id = "m0"; created_at = 1; status = "done" }

abbrev queue : Queue
queue = record { messages = first_message ∷ second_message ∷ old_message ∷ []; sent = [] }

keys : HasKeys (λ m. m.id) queue.messages
unfolding HasKeys
keys = (refl, (refl, (refl, tt)))

abbrev claimed_queue : Queue
claimed_queue = (claim_next_request vocabulary [] me "mcp:i:t" 100 queue).0

taken :
    (claim_next_request vocabulary [] me "mcp:i:t" 100 queue).1
    ≡ some (claim_row "mcp:i:t" 100 second_message)
unfolding claim_next_request take_row first_row is_next_request is_legacy is_ordinary comes_before
taken = refl

claim_takes_oldest_example :
    (m : Message) × (find_by (λ r. r.id) m.id queue.messages ≡ some m)
    × (may_claim vocabulary [] me 100 m ≡ true)
    × All
        (λ r. may_claim vocabulary [] me 100 r ≡ true → comes_before vocabulary r m ≡ false)
        queue.messages
    × (claim_row "mcp:i:t" 100 second_message ≡ claim_row "mcp:i:t" 100 m)
    × ((id : String)
        → find_by (λ r. r.id) id claimed_queue.messages ≡ (
            if m.id == id
            then some (claim_row "mcp:i:t" 100 second_message)
            else find_by (λ r. r.id) id queue.messages))
claim_takes_oldest_example =
    claim_takes_oldest vocabulary id_order [] me "mcp:i:t" 100 queue keys
      (claim_row "mcp:i:t" 100 second_message) taken

missed : (claim_next_request vocabulary ("m1" ∷ []) you "mcp:i:t" 100 queue).1 ≡ none
unfolding claim_next_request take_row first_row is_next_request
missed = refl

waiting : (m : Message) → some second_message ≡ some m → IsWaiting m
waiting m e = record {
  pending = ground arith;
  no_claimer = ground arith;
  no_claim_time = ground arith;
  no_start_time = ground arith;
}

claim_then_rollback_example :
    find_by (λ r. r.id) "m2" (rollback_queue_claim "m2" "mcp:i:t" claimed_queue).messages
    ≡ some second_message
claim_then_rollback_example =
    claim_then_rollback vocabulary id_order [] me "mcp:i:t" 100 queue keys
      (claim_row "mcp:i:t" 100 second_message) taken waiting "m2"

abbrev held_message : Message
held_message = claim_row "mcp:i:t" 100 second_message

abbrev lease : Lease
lease = record { message_id = "m2"; claim_token = "t"; claimed_by = "mcp:i:t" }

abbrev process : Process
process = record {
  queue = record { messages = held_message ∷ old_message ∷ []; sent = [] };
  leases = lease ∷ [];
}

finishes :
    (queue_done vocabulary "m3" 200 "m2" (some "ready") (some "t") process).1
    ≡ Outcome.done (some "m3")
unfolding queue_done admit verify_local_ownership get_lease write_done is_legacy
finishes = refl

finish_needs_owner_example :
    (m : Message) × (find_by (λ r. r.id) "m2" process.queue.messages ≡ some m)
    × (is_legacy m ≡ true)
    × (includes vocabulary.terminal_statuses m.status ≡ false)
    × IsOwned process.leases "m2" (some "t") m
finish_needs_owner_example =
    finish_needs_owner vocabulary 200 "m2" (some "t") process "m3" "" (some "ready") (inl finishes)

refuses :
    (queue_done vocabulary "m3" 200 "m2" none (some "u") process).1
    ≡ Outcome.failed (QueueError.not_claimer_token "m2")
unfolding queue_done admit verify_local_ownership get_lease is_legacy
refuses = refl

done_error_keeps_example : (queue_done vocabulary "m3" 200 "m2" none (some "u") process).0 ≡ process
done_error_keeps_example = done_error_keeps vocabulary 200 "m2" (some "u") process "m3" none refuses

reply_reaches_sender_example :
    (m : Message) × (find_by (λ r. r.id) "m2" process.queue.messages ≡ some m)
    × (includes vocabulary.request_types m.type ≡ true)
    × (◌≡◌ {A = Option String} (some "m3") (some "m3"))
    × (let after = (queue_done vocabulary "m3" 200 "m2" (some "ready") (some "t") process).0 in
        let closed : Message = record m { status = "done"; finished_at = some 200 } in
        (find_by (λ r. r.id) "m2" after.queue.messages ≡ some closed)
        × ((r : Message) × (find_by (λ r. r.id) "m3" after.queue.messages ≡ some r)
            × (r.id ≡ "m3")
            × (r.sender ≡ m.receiver)
            × (r.receiver ≡ m.sender)
            × (r.in_reply_to ≡ some m.id)
            × (r.status ≡ "pending")
            × (r.body ≡ "ready")
            × (r.type ≡ vocabulary.reply_type m.type)
            × (r.claimed_by ≡ none)
            × (is_legacy r ≡ true)
            × (after.queue.sent
                ≡ [] ++ envelope_of r none ∷ envelope_of closed (some m.status) ∷ []))
        × (get_lease after.leases "m2" ≡ none))
reply_reaches_sender_example =
    reply_reaches_sender vocabulary 200 "m2" (some "t") process "m3" "ready" refl finishes

held : is_held_by "mcp:i:t" held_message ≡ true
unfolding is_held_by is_legacy is_ordinary
held = refl

leased : get_lease process.leases "m2" ≡ some lease
unfolding get_lease
leased = refl

mcp : is_mcp_claim held_message.claimed_by ≡ true
unfolding is_mcp_claim
mcp = refl

refreshed_claim_survives_example :
    find_by
      (λ r. r.id)
      "m2"
      (sweep_stale_queue_claims vocabulary [] 300400
        (refresh_queue_leases 500 (λ id. true) process).queue).messages
    ≡ some (fresh_row 500 held_message)
refreshed_claim_survives_example =
    refreshed_claim_survives vocabulary 500 300400 (λ id. true) [] process "m2" lease held_message
      leased refl held mcp refl (omega arith)

vocabulary-IsOpen : IsOpen vocabulary
vocabulary-IsOpen = record { pending = refl; claimed = refl }

frozen : is_frozen vocabulary old_message ≡ true
unfolding is_frozen is_legacy
frozen = refl

abbrev steps : Steps vocabulary queue (sweep_stale_queue_claims vocabulary [] 900 claimed_queue)
steps = Steps.cons (Step.claimed [] me "mcp:i:t" 100 queue) (
    Steps.cons (Step.swept [] 900 claimed_queue)
      (Steps.nil (sweep_stale_queue_claims vocabulary [] 900 claimed_queue)))

frozen_rows_stay_example :
    find_by (λ m. m.id) "m0" (sweep_stale_queue_claims vocabulary [] 900 claimed_queue).messages
    ≡ some old_message
frozen_rows_stay_example = frozen_rows_stay vocabulary vocabulary-IsOpen keys steps "m0" refl frozen

abbrev of_call : WorkItemInput
of_call = record { sprint_id = none; story_id = some "s1"; task_id = none }

abbrev of_block : WorkItemInput
of_block = record { sprint_id = some "sp1"; story_id = some "s1"; task_id = none }

merges : merge_work_item_inputs of_call of_block ≡ some of_block
unfolding merge_work_item_inputs merge_key
merges = refl

abbrev present : PresenceInput
present = record {
  watcher_heartbeat_at = some 1000;
  session_expected_by = none;
  session_announced_at = some 500;
  session_signed_off_at = none;
  open_claims = 0;
}
