-- ===== src/Dispatch/Ending/Settled.antt =====
-- What `finishResult` of src/dispatch/lifecycle.ts leaves behind.
use scrum4me_mcp.Prelude.{
  ℕ, ◌≡◌, refl, sym, ap, ◌∙◌, String, false, ◌||◌, none, some, map, find_by, update_by, is_null,
  some?, ◌==◌, if◌then◌else◌,
}
use scrum4me_mcp.Dispatch.Ending.Table.{
  Request, Payload, Result, Event, result_accepted, Db, request_of, result_of, ◌then◌, Ensures,
  Ensures-then,
}
use scrum4me_mcp.Dispatch.Ending.Lifecycle.{
  add_event, unbound, moved, transition, Locked, terminalize_attempt, revoked_as, released, shown,
  settle_task, insert_result, finish_result, is_unresolved, unresolved_publication,
}
use scrum4me_mcp.Dispatch.Ending.Change.{Change, Change-trans, Change-event, IsLive, IsLive-same}
use scrum4me_mcp.Dispatch.Ending.Aside.{Aside, Aside-Change}
use scrum4me_mcp.Dispatch.Ending.Ends.{
  ended_rest, ended_rows-rest, ended_rows, terminalize-Aside, bindings_after, TaskSettled,
  settle-TaskSettled,
}
use scrum4me_mcp.Dispatch.Ending.Finish.{
  rows, rest, Moved, transition-Moved, Inserted, insert-Inserted,
}

-- The request has ended with the stored result; its attempt had stopped and nothing of it was being
-- published; the attempt, the candidate, the reservations and the task are released.
pub record Finished (x : Locked) (p : Payload) (now : ℕ) (db db' : Db) (id : String)
    (sha256 : Payload → String) : Type 0 where
  pub change : Change db db'
  pub request :
      (r : Request) × (request_of db x.r.id ≡ some r)
      × (request_of db' x.r.id ≡ some (moved (shown p.outcome) (some id) r))
  pub stored :
      (y : Result) × (result_of db' x.r.id ≡ some y)
      × (y.id ≡ id)
      × (y.sha256 ≡ sha256 p)
      × (result_of db x.r.id ≡ none → y.payload ≡ p)
  pub stopped : is_null x.a.stopped_at || unresolved_publication db x.r.id ≡ false
  pub attempts :
      db'.attempts ≡ update_by (λ a. a.id) x.a.id (revoked_as (shown p.outcome) now) db.attempts
  pub candidates :
      db'.candidates
      ≡ update_by (λ c. c.id) x.c.id (λ c. record c { state = "FINISHED" }) db.candidates
  pub reservations : db'.reservations ≡ map (released x.c.id now) db.reservations
  pub bindings : db'.bindings ≡ bindings_after x.r db

module _ (sha256 : Payload → String) (fresh : String → String) where
  abbrev accepted_event : Locked → String → String → Event
  accepted_event x id submitted_hash = record {
    id = fresh "result_accepted";
    request_id = x.r.id;
    attempt_id = some x.a.id;
    type = result_accepted id submitted_hash;
  }

  assemble :
      (x : Locked) (p : Payload) (submitted_hash : String) (now : ℕ) (db a b c d : Db) (id : String)
      → IsLive db x.r.id
      → Inserted x.r.id p sha256 db a id
      → Moved x.r.id (shown p.outcome) (some id) a b
      → c ≡ ended_rows x p.outcome now b
      → is_null x.a.stopped_at || unresolved_publication b x.r.id ≡ false
      → Aside b c
      → TaskSettled x.r c d
      → Finished x p now db (add_event (accepted_event x id submitted_hash) d) id sha256
  unfolding unresolved_publication
  assemble x p submitted_hash now db a b c d id live inserted m e free aside settled =
      let same : rest b ≡ rest db = m.same_rest ∙ inserted.same_rest in
      let ended : rest c ≡ ended_rest x p.outcome now (rest db) =
        ap rest e ∙ ended_rows-rest x p.outcome now b ∙ ap (ended_rest x p.outcome now) same in
      let kept : rows d ≡ (ended_rest x p.outcome now (rest db)).0 =
        settled.same_rows ∙ ap (λ q. q.0) ended in
      let requests : d.requests ≡ b.requests = settled.aside.same_requests ∙ aside.same_requests in
      let results : d.results ≡ a.results =
        settled.aside.same_results ∙ aside.same_results ∙ m.same_results in
      let (r, was, at) = m.row in
      let (y, stored, id_of, sha, new) = inserted.stored in
      record {
        change = Change-trans db a _ inserted.change (
            Change-trans a b _ m.change (
              Change-trans b c _ (Aside-Change b c aside) (
                Change-trans c d _ (Aside-Change c d settled.aside)
                  (Change-event (accepted_event x id submitted_hash) d (λ key. refl)))));
        request = (
          r,
          sym (ap (find_by (λ q. q.id) x.r.id) inserted.same_requests) ∙ was,
          ap (find_by (λ q. q.id) x.r.id) requests ∙ at,
        );
        stored = (y, ap (find_by (λ q. q.request_id) x.r.id) results ∙ stored, id_of, sha, new);
        stopped =
            ap (λ q. is_null x.a.stopped_at || some? (is_unresolved x.r.id) q)
              (sym (ap (λ q. q.0.3) same))
            ∙ free;
        attempts = ap (λ q. q.0) kept;
        candidates = ap (λ q. q.1) kept;
        reservations = ap (λ q. q.2) kept;
        bindings =
            settled.unbound_task
            ∙ ap
                (λ q.
                  if x.r.action == "task_implementation"
                  then map (unbound x.r.task_id x.r.id) q
                  else q)
                (ap (λ q. q.1) ended);
      }

  pub finish-Finished :
      (x : Locked) (p : Payload) (submitted_hash : String) (now : ℕ) (db : Db)
      → IsLive db x.r.id
      → Ensures
          (λ (db', id). Finished x p now db db' id sha256)
          (finish_result sha256 fresh x p submitted_hash now db)
  unfolding finish_result insert_result transition terminalize_attempt unresolved_publication
  finish-Finished x p submitted_hash now db live =
      Ensures-then (λ (a, id). Inserted x.r.id p sha256 db a id) _
        (insert_result sha256 fresh x.r.id (some x.a.id) p db) _
        (insert-Inserted sha256 fresh x.r.id (some x.a.id) p db)
        (λ (a, id) inserted.
          Ensures-then (Moved x.r.id (shown p.outcome) (some id) a) _
            (transition x.r.id (shown p.outcome) (some id) a) _
            (transition-Moved x.r.id (shown p.outcome) (some id) a
              (IsLive-same db a x.r.id inserted.same_requests live))
            (λ b m.
              Ensures-then
                (λ c.
                  (c ≡ ended_rows x p.outcome now b)
                  × (is_null x.a.stopped_at || unresolved_publication b x.r.id ≡ false)
                  × Aside b c)
                _ (terminalize_attempt x p.outcome now b) _ (terminalize-Aside x p.outcome now b)
                (λ c (e, free, aside).
                  Ensures-then (TaskSettled x.r c) _ (settle_task x.r p.outcome now c) _
                    (settle-TaskSettled x.r p.outcome now c)
                    (λ d settled.
                      assemble x p submitted_hash now db a b c d id live inserted m e free aside
                        settled))))
