-- ===== src/Dispatch/Ending/Outcome.antt =====
-- What an accepted result leaves, and what a success rests on (src/dispatch/completion.ts,
-- src/dispatch/lifecycle.ts).
use scrum4me_mcp.Prelude.{
  ℕ, ◌≡◌, refl, sym, ap, ◌∙◌, arith, String, Bool, true, false, ◌&&◌, ◌||◌, some, List, [], ◌∷◌,
  ◌==◌, find_by, find_by-id, find_by-update_by_self, update_by, is_null, is_text, some?,
  some_injective, map, if_cases,
}
use scrum4me_mcp.Dispatch.Ending.Table.{
  Outcome, succeeded, failed, cancelled, Request, Candidate, Attempt, Reservation, Binding, Payload,
  Result, Db, request_of, result_of, done,
}
use scrum4me_mcp.Dispatch.Ending.Lifecycle.{Locked, moved, shown, revoked_as, released, unbound}
use scrum4me_mcp.Dispatch.Ending.Judge.{accepted, Submission}
use scrum4me_mcp.Dispatch.Ending.Accept.{note_late, accept_dispatch_result}
use scrum4me_mcp.Dispatch.Ending.Again.{of_done}
use scrum4me_mcp.Dispatch.Ending.Ends.{bindings_after}
use scrum4me_mcp.Dispatch.Ending.Finish.{rest}
use scrum4me_mcp.Dispatch.Ending.Accepted.{Accepted, IsAnswered, accept-IsAnswered}

abbrev pub ended_state : Outcome → String
ended_state succeeded = "SUCCEEDED"
ended_state failed = "FAILED"
ended_state cancelled = "CANCELLED"

shown_state : (o : Outcome) → shown o ≡ ended_state o
shown_state succeeded = refl
shown_state failed = refl
shown_state cancelled = refl

-- The rows of an attempt after its result: attempt, candidate and request are in the states of the
-- outcome, the stored result is the accepted payload and linked to the request; the attempt
-- had stopped and is revoked, no reservation of the candidate is left and a task is free again.
pub record IsSettled (db : Db) (attempt_id : String) (id : String) (q : Payload) : Type 0 where
  pub a : Attempt
  pub c : Candidate
  pub r : Request
  pub y : Result
  pub attempt : find_by (λ a. a.id) attempt_id db.attempts ≡ some a
  pub candidate : find_by (λ c. c.id) a.candidate_id db.candidates ≡ some c
  pub request : request_of db c.request_id ≡ some r
  pub result : result_of db c.request_id ≡ some y
  pub ended :
      (a.state ≡ ended_state q.outcome) × (c.state ≡ "FINISHED") × (r.state ≡ ended_state q.outcome)
  pub linked : (r.result_id ≡ some id) × (y.id ≡ id)
  pub stored : y.payload ≡ q
  pub stopped : is_null a.stopped_at ≡ false
  pub revoked : is_null a.revoked_at ≡ false
  pub freed : some? (λ v. v.candidate_id == c.id && is_null v.released_at) db.reservations ≡ false
  pub unbound_task :
      (r.action == "task_implementation") ≡ true
      → some?
          (λ b. b.task_id == r.task_id && is_text b.dispatch_request_id c.request_id)
          db.bindings
        ≡ false

released-none :
    (id : String) (now : ℕ) (vs : List Reservation)
    → some? (λ v. v.candidate_id == id && is_null v.released_at) (map (released id now) vs) ≡ false
released-none id now [] = refl
released-none id now (v ∷ vs) = ground (arith, released-none id now vs)

unbound-none :
    (task id : String) (bs : List Binding)
    → some? (λ b. b.task_id == task && is_text b.dispatch_request_id id) (map (unbound task id) bs)
      ≡ false
unbound-none task id [] = refl
unbound-none task id (b ∷ bs) = ground (arith, unbound-none task id bs)

bindings_after-task :
    (r : Request) (db : Db)
    → (r.action == "task_implementation") ≡ true
    → bindings_after r db ≡ map (unbound r.task_id r.id) db.bindings
bindings_after-task r db e = rw e refl

module _ (sha256 : Payload → String) (fresh : String → String)
    (matches : String → String → Bool) where
  accept-Accepted :
      (meanwhile : Db → Db) (k : Submission) (db : Db) {db' : Db} {id : String} {q : Payload}
      → accept_dispatch_result sha256 fresh matches meanwhile k db ≡ done (db', accepted id q)
      → Accepted sha256 fresh matches k db (meanwhile db) db' id q
  accept-Accepted meanwhile k db h =
      of_done (IsAnswered sha256 fresh matches k db (meanwhile db))
        (accept_dispatch_result sha256 fresh matches meanwhile k db)
        (accept-IsAnswered sha256 fresh matches meanwhile k db) h

  -- A late event touches none of these tables.
  noted_rest :
      (k : Submission) (x : Locked) (db : Db)
      → rest (note_late sha256 fresh matches k x db) ≡ rest db
  noted_rest k x db =
      if_cases (λ d. rest d ≡ rest db) (x.r.state == "CANCEL_REQUESTED") (λ e. refl) (λ e. refl)

  noted_request :
      (k : Submission) (x : Locked) (db : Db)
      → request_of (note_late sha256 fresh matches k x db) x.r.id ≡ request_of db x.r.id
  noted_request k x db =
      if_cases (λ d. request_of d x.r.id ≡ request_of db x.r.id) (x.r.state == "CANCEL_REQUESTED")
        (λ e. refl) (λ e. refl)

  noted_results :
      (k : Submission) (x : Locked) (db : Db)
      → result_of (note_late sha256 fresh matches k x db) x.r.id ≡ result_of db x.r.id
  noted_results k x db =
      if_cases (λ d. result_of d x.r.id ≡ result_of db x.r.id) (x.r.state == "CANCEL_REQUESTED")
        (λ e. refl) (λ e. refl)

  settle :
      (k : Submission) (db later : Db) {db' : Db} {id : String} {q : Payload}
      → Accepted sha256 fresh matches k db later db' id q
      → IsSettled db' k.proof.attempt_id id q
  settle k db later {db'} {id} {q} acc =
      let x = acc.last in
      let l = acc.last_locked in
      let f = acc.finished in
      let n = noted_rest k x later in
      let id_a : x.a.id ≡ k.proof.attempt_id =
        find_by-id (λ (a : Attempt). a.id) k.proof.attempt_id later.attempts l.attempt in
      let id_c : x.c.id ≡ x.a.candidate_id =
        find_by-id (λ (c : Candidate). c.id) x.a.candidate_id later.candidates l.candidate in
      let id_r : x.r.id ≡ x.c.request_id =
        find_by-id (λ (r : Request). r.id) x.c.request_id later.requests l.request in
      let (r, was, now_is) = f.request in
      let same_r : r ≡ x.r =
        some_injective
          (sym was ∙ noted_request k x later ∙ ap (request_of later) id_r ∙ l.request) in
      let (y, stored, id_y, sha, new) = f.stored in
      record {
        a = revoked_as (shown q.outcome) k.now x.a;
        c = record x.c { state = "FINISHED" };
        r = moved (shown q.outcome) (some id) r;
        y = y;
        attempt =
            ap (λ i. find_by (λ a. a.id) i db'.attempts) (sym id_a)
            ∙ ap (find_by (λ a. a.id) x.a.id) (
                f.attempts
                ∙ ap (λ s. update_by (λ a. a.id) x.a.id (revoked_as (shown q.outcome) k.now) s.0.0)
                    n)
            ∙ find_by-update_by_self (λ a. a.id) (revoked_as (shown q.outcome) k.now) (λ a. refl)
                x.a.id later.attempts
                (ap (λ i. find_by (λ a. a.id) i later.attempts) id_a ∙ l.attempt);
        candidate =
            ap (λ i. find_by (λ c. c.id) i db'.candidates) (sym id_c)
            ∙ ap (find_by (λ c. c.id) x.c.id)
                (f.candidates ∙ ap (λ s. update_by (λ c. c.id) x.c.id finished_row s.0.1) n)
            ∙ find_by-update_by_self (λ c. c.id) finished_row (λ c. refl) x.c.id later.candidates
                (ap (λ i. find_by (λ c. c.id) i later.candidates) id_c ∙ l.candidate);
        request = ap (request_of db') (sym id_r) ∙ now_is;
        result = ap (result_of db') (sym id_r) ∙ stored;
        ended = (shown_state q.outcome, refl, shown_state q.outcome);
        linked = (refl, id_y);
        stored = new (noted_results k x later ∙ acc.last_open.unanswered);
        stopped = either (is_null x.a.stopped_at) _ f.stopped;
        revoked = refl;
        freed =
            ap (some? (λ v. v.candidate_id == x.c.id && is_null v.released_at)) f.reservations
            ∙ released-none x.c.id k.now _;
        unbound_task = λ task.
            let here : (x.r.action == "task_implementation") ≡ true =
              ap (λ s. s.action == "task_implementation") (sym same_r) ∙ task in
            ap
              (λ s.
                some? (λ b. b.task_id == s && is_text b.dispatch_request_id x.c.request_id)
                  db'.bindings)
              (ap (λ s. s.task_id) same_r)
            ∙ ap
                (λ s.
                  some? (λ b. b.task_id == x.r.task_id && is_text b.dispatch_request_id s)
                    db'.bindings)
                (sym id_r)
            ∙ ap (some? (λ b. b.task_id == x.r.task_id && is_text b.dispatch_request_id x.r.id)) (
                f.bindings
                ∙ bindings_after-task x.r (note_late sha256 fresh matches k x later) here)
            ∙ unbound-none x.r.task_id x.r.id _;
      }
    where
      finished_row : Candidate → Candidate
      finished_row c = record c { state = "FINISHED" }

      either : (a b : Bool) → a || b ≡ false → a ≡ false
      either a b h = ground arith

  -- When a result is accepted, its attempt and its request are in the state of the accepted outcome
  -- and its candidate is finished, the stored result is the accepted payload, outcome included, and
  -- linked to the request, the attempt had stopped and is revoked, no reservation of the candidate is
  -- left and the task of the request is free again.
  pub accept-IsSettled :
      (meanwhile : Db → Db) (k : Submission) (db : Db) {db' : Db} {id : String} {q : Payload}
      → accept_dispatch_result sha256 fresh matches meanwhile k db ≡ done (db', accepted id q)
      → IsSettled db' k.proof.attempt_id id q
  accept-IsSettled meanwhile k db h = settle k _ _ (accept-Accepted meanwhile k db h)
