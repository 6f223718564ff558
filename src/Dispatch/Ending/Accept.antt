-- ===== src/Dispatch/Ending/Accept.antt =====
-- `acceptDispatchResult` of src/dispatch/completion.ts: three transactions, between which other
-- processes may write.
use scrum4me_mcp.Dispatch.Ending.Judge.{
  terminal_result, replayed, publication_unknown, accepted, Submission, Receipt, conflict, judge,
  verify_code, publish_result, judge_again,
}
use scrum4me_mcp.Prelude.{
  String, Bool, true, false, not, ◌&&◌, ◌||◌, Option, none, some, ◌==◌, find?, is_text, nat_eq,
  if◌then◌else◌,
}
use scrum4me_mcp.Dispatch.Ending.Table.{
  Payload, Result, EventType, result_accepted, late_result, Event, Db, result_of, Tx, thrown, done,
  ◌then◌, allowed,
}
use scrum4me_mcp.Dispatch.Ending.Lifecycle.{
  add_event, unresolved_publication, Locked, finish_result,
}
use scrum4me_mcp.Dispatch.Ending.Locks.{lock_artifact_attempt, is_proven, is_supervisor}

abbrev is_receipt : Locked → EventType → Bool
is_receipt x (result_accepted id hash) = true
is_receipt x _ = false

abbrev has_hash : String → EventType → Bool
has_hash hash (result_accepted id h) = h == hash
has_hash hash _ = false

abbrev is_replay : String → Option Event → Bool
is_replay hash none = false
is_replay hash (some e) = has_hash hash e.type

abbrev pub replays : Submission → Locked → Db → Bool
replays k x db = is_replay k.submitted_hash (
    find? (λ e. e.request_id == x.r.id && is_text e.attempt_id x.a.id && is_receipt x e.type)
      db.events)

module _ (sha256 : Payload → String) (fresh : String → String)
    (matches : String → String → Bool) where
  abbrev pub late_event : Submission → Locked → Event
  late_event k x = record {
    id = fresh "late_result";
    request_id = x.r.id;
    attempt_id = some x.a.id;
    type = late_result k.submitted_hash;
  }

  -- `terminal`, less the usage of the job.
  abbrev pub terminal : Submission → Locked → Result → Db → Db × Receipt
  terminal k x old db =
      if replays k x db
      then (db, replayed old.id)
      else (add_event (late_event k x) db, terminal_result old.id)

  -- The rows of the attempt, for the supervisor that proves to hold it.
  unfoldable pub lock_proven : Submission → Db → Tx Locked
  unfolding lock_artifact_attempt is_proven is_supervisor
  lock_proven k db = lock_artifact_attempt db k.proof.attempt_id then λ x.
      if not (is_proven matches k.actor k.proof x)
      then thrown "DISPATCH_FORBIDDEN"
      else allowed k.refreshed
          (if is_supervisor k.actor x then done x else thrown "DISPATCH_FORBIDDEN")

  abbrev pub note_late : Submission → Locked → Db → Db
  note_late k x db = if x.r.state == "CANCEL_REQUESTED" then add_event (late_event k x) db else db

  abbrev pub finish_open : Submission → Locked → Payload → Db → Tx (Db × Receipt)
  finish_open k x p db =
      if not (nat_eq x.r.generation x.c.generation) || unresolved_publication db x.r.id
      then conflict
      else (judge_again k x p then λ q.
          finish_result sha256 fresh x q k.submitted_hash k.now (note_late k x db) then λ (db', id).
          done (db', accepted id q))

  abbrev pub finish_last : Submission → Locked → Payload → Option Result → Db → Tx (Db × Receipt)
  finish_last k x p none db = finish_open k x p db
  finish_last k x p (some old) db = done (terminal k x old db)

  -- The last transaction.
  unfoldable pub finish_accepted : Submission → Payload → Db → Tx (Db × Receipt)
  unfolding lock_proven judge_again finish_result unresolved_publication
  finish_accepted k p db = lock_proven k db then λ x. finish_last k x p (result_of db x.r.id) db

  abbrev pub after_publication : (Db → Db) → Submission → Option Payload → Db → Tx (Db × Receipt)
  after_publication meanwhile k none db = done (db, publication_unknown)
  after_publication meanwhile k (some p) db = finish_accepted k p (meanwhile db)

  abbrev pub after_first : (Db → Db) → Submission → Locked → Option Result → Db → Tx (Db × Receipt)
  after_first meanwhile k x (some old) db = done (terminal k x old db)
  after_first meanwhile k x none db = judge k x db then λ p. verify_code k x p then λ q.
      publish_result k x q then λ published. after_publication meanwhile k published db

  -- `acceptDispatchResult`, less the transaction that records the verification of a task.
  -- `meanwhile` is what is written between the first and the last transaction, by the publication
  -- too.
  unfoldable pub accept_dispatch_result : (Db → Db) → Submission → Db → Tx (Db × Receipt)
  unfolding lock_proven judge verify_code publish_result finish_accepted
  accept_dispatch_result meanwhile k db =
      lock_proven k db then λ x. after_first meanwhile k x (result_of db x.r.id) db
