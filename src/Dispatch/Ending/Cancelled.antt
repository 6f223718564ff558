-- ===== src/Dispatch/Ending/Cancelled.antt =====
-- The stages of `cancelDispatch` of src/dispatch/cancel.ts as changes of the tables.
use scrum4me_mcp.Prelude.{
  ℕ, ◌≡◌, refl, sym, ap, ◌∙◌, subst, arith, String, Bool, true, false, not, ◌&&◌, Option, none,
  some, List, [], ◌∷◌, ◌==◌, eq_iff, eq_refl, find?, find_by, HasKeys, is_null, absurd_option,
  some_injective, if_cases, if◌then◌else◌,
}
use scrum4me_mcp.Dispatch.Ending.Table.{
  Ensures-imp, Request, Candidate, Attempt, Payload, Db, request_of, ◌then◌, Ensures, Ensures-then,
  Ensures-imp,
}
use scrum4me_mcp.Dispatch.Ending.Retry.{assert_retry_authorization}
use scrum4me_mcp.Dispatch.Ending.Lifecycle.{
  moved, transition, unresolved_publication, Locked, end_job, set_candidate, end_attempt,
  release_task, insert_result, finish_result,
}
use scrum4me_mcp.Dispatch.Ending.Locks.{lock_artifact_attempt}
use scrum4me_mcp.Dispatch.Ending.Locked.{IsLocked, lock-IsLocked}
use scrum4me_mcp.Dispatch.Ending.Cancel.{
  is_action_of, is_current, cancel_payload, ask_stop, finish_if_stopped, cancel_attempt, retire,
  release_candidate, unstarted_type, cancel_unstarted,
}
use scrum4me_mcp.Dispatch.Ending.Change.{
  Change, Change-trans, Change-refl, Change-event, IsKeyed, IsLive, IsLive-same,
}
use scrum4me_mcp.Dispatch.Ending.Aside.{
  Aside, Aside-Change, Aside-refl, Aside-trans, end_job-Aside, end_attempt-Aside,
  set_candidate-Aside, release_reservations-Aside,
}
use scrum4me_mcp.Dispatch.Ending.Finish.{Moved, transition-Moved, Inserted, insert-Inserted}
use scrum4me_mcp.Dispatch.Ending.Settled.{Finished, finish-Finished}

-- With unique ids, a row that is found by a test is the one that its id finds.
find?-keyed :
    {A : Type 0} (id_of : A → String) (p : A → Bool) (rows : List A) {r : A}
    → HasKeys id_of rows
    → find? p rows ≡ some r
    → find_by id_of (id_of r) rows ≡ some r
unfolding HasKeys
find?-keyed id_of p [] keys h = absurd_option h
find?-keyed id_of p (x ∷ rows) {r} keys h = ground (
  arith,
  keys.0,
  find?-keyed id_of p rows {r = r} keys.1,
  eq_iff (id_of x) (id_of r),
  eq_refl (id_of x),
)

find?-passes :
    {A : Type 0} (p : A → Bool) (rows : List A) {r : A} → find? p rows ≡ some r → p r ≡ true
find?-passes p [] h = absurd_option h
find?-passes p (x ∷ rows) {r} h = ground (arith, find?-passes p rows {r = r})

-- The attempt of a request's candidate is locked with that request.
locks_request :
    (r : Request) (c : Candidate) (a : Attempt) (db : Db) (x : Locked)
    → IsKeyed db
    → request_of db r.id ≡ some r
    → find? (is_current r) db.candidates ≡ some c
    → find? (λ a. a.candidate_id == c.id) db.attempts ≡ some a
    → IsLocked db a.id x
    → x.r ≡ r
unfolding IsKeyed
locks_request r c a db x (keys_a, keys_c) at of has locked =
    let same_a : x.a ≡ a = some_injective (
      sym locked.attempt
      ∙ find?-keyed (λ a. a.id) (λ a. a.candidate_id == c.id) db.attempts keys_a has) in
    let id_c : x.a.candidate_id ≡ c.id =
      ap (λ q. q.candidate_id) same_a
      ∙ (eq_iff a.candidate_id c.id).0
          (find?-passes (λ a. a.candidate_id == c.id) db.attempts has) in
    let same_c : x.c ≡ c = some_injective (
      sym locked.candidate
      ∙ ap (λ q. find_by (λ c. c.id) q db.candidates) id_c
      ∙ find?-keyed (λ c. c.id) (is_current r) db.candidates keys_c of) in
    let for_r : x.c.request_id ≡ r.id =
      ap (λ q. q.request_id) same_c
      ∙ (eq_iff c.request_id r.id).0
          (current_request r c (find?-passes (is_current r) db.candidates of)) in
    some_injective (sym locked.request ∙ ap (request_of db) for_r ∙ at)
  where
    current_request :
        (r : Request) (c : Candidate) → is_current r c ≡ true → (c.request_id == r.id) ≡ true
    current_request r c h = ground arith

-- A change after which the request is still open.
abbrev StaysOpen : Db → String → Db → Type 0
StaysOpen db id db' = Change db db' × IsLive db' id

module _ (sha256 : Payload → String) (fresh : String → String) (shows : ℕ → String)
    (is_action_id : String → Bool) where
  ask_stop-StaysOpen :
      (r : Request) (c : Candidate) (a : Attempt) (now : ℕ) (db : Db)
      → IsLive db r.id
      → Ensures (StaysOpen db r.id) (ask_stop sha256 fresh shows is_action_id r c a now db)
  unfolding transition IsLive
  ask_stop-StaysOpen r c a now db live =
      if_cases (Ensures (StaysOpen db r.id)) (r.state == "CANCEL_REQUESTED")
        (λ e. (Change-refl db, live))
        (λ e.
          let attempt = end_attempt a.id "CANCEL_REQUESTED" now db in
          let candidate = set_candidate c.id "CANCEL_REQUESTED" attempt in
          let aside =
            Aside-trans db attempt candidate (end_attempt-Aside a.id "CANCEL_REQUESTED" now db)
              (set_candidate-Aside c.id "CANCEL_REQUESTED" attempt) in
          Ensures-then (Moved r.id "CANCEL_REQUESTED" none candidate) (StaysOpen db r.id)
            (transition r.id "CANCEL_REQUESTED" none candidate) _
            (transition-Moved r.id "CANCEL_REQUESTED" none candidate
              (IsLive-same db candidate r.id refl live))
            (λ db' m. (
              Change-trans db candidate _ (Aside-Change db candidate aside)
                  (Change-trans candidate db' _ m.change (Change-event _ db' (λ key. refl))),
              (moved "CANCEL_REQUESTED" none m.row.0, m.row.2, refl),
            )))

  finish_if_stopped-Change :
      (r : Request) (x : Locked) (now : ℕ) (db : Db)
      → IsLive db x.r.id
      → Ensures (Change db) (finish_if_stopped sha256 fresh shows is_action_id r x now db)
  unfolding finish_result unresolved_publication
  finish_if_stopped-Change r x now db live =
      if_cases (Ensures (Change db))
        (not (is_null x.a.stopped_at) && not (unresolved_publication db r.id))
        (λ e.
          Ensures-then (λ (db', id). Finished x cancel_payload now db db' id sha256) (Change db)
            (finish_result sha256 fresh x cancel_payload (sha256 cancel_payload) now db) _
            (finish-Finished sha256 fresh x cancel_payload (sha256 cancel_payload) now db live)
            (λ (db', id) f. f.change))
        (λ e. Change-refl db)

  pub cancel_attempt-Change :
      (r : Request) (c : Candidate) (a : Attempt) (now : ℕ) (db : Db)
      → IsKeyed db
      → IsLive db r.id
      → request_of db r.id ≡ some r
      → find? (is_current r) db.candidates ≡ some c
      → find? (λ a. a.candidate_id == c.id) db.attempts ≡ some a
      → Ensures (Change db) (cancel_attempt sha256 fresh shows is_action_id r c a now db)
  unfolding lock_artifact_attempt transition finish_result
  cancel_attempt-Change r c a now db keys live at of has =
      Ensures-then (IsLocked db a.id) (Change db) (lock_artifact_attempt db a.id) _
        (lock-IsLocked db a.id)
        (λ x locked.
          Ensures-then (StaysOpen db r.id) (Change db)
            (ask_stop sha256 fresh shows is_action_id r c a now db) _
            (ask_stop-StaysOpen r c a now db live)
            (λ asked (change, open').
              Ensures-imp (Change asked) (Change db)
                (finish_if_stopped sha256 fresh shows is_action_id r x now asked)
                (finish_if_stopped-Change r x now asked (
                  subst (IsLive asked)
                    (sym (ap (λ q. q.id) (locks_request r c a db x keys at of has locked))) open'))
                (λ db' f. Change-trans db asked db' change f)))

  retire-Aside :
      (c : Option Candidate) (now : ℕ) (db : Db)
      → Ensures (Aside db) (retire sha256 fresh shows is_action_id c now db)
  retire-Aside none now db = Aside-refl db
  retire-Aside (some c) now db =
      if_cases (Ensures (Aside db)) (not (is_null c.first_claimed_at)) (λ e. tt)
        (λ e.
          let job = end_job c.job_id "CANCELLED" now db in
          Aside-trans db job _ (end_job-Aside c.job_id "CANCELLED" now db)
            (set_candidate-Aside c.id "RETIRED" job))

  release-Aside :
      (c : Option Candidate) (now : ℕ) (db : Db)
      → Aside db (release_candidate sha256 fresh shows is_action_id c now db)
  release-Aside none now db = Aside-refl db
  release-Aside (some c) now db = release_reservations-Aside c.id now db

  unbind-Aside :
      (r : Request) (db : Db)
      → Aside db (if r.action == "task_implementation" then release_task r.task_id r.id db else db)
  unfolding IsKeyed
  unbind-Aside r db =
      if_cases (Aside db) (r.action == "task_implementation")
        (λ e. record {
          same_requests = refl;
          same_results = refl;
          same_events = refl;
          keyed = λ k. k;
        })
        (λ e. Aside-refl db)

  pub cancel_unstarted-Change :
      (r : Request) (c : Option Candidate) (now : ℕ) (db : Db)
      → IsLive db r.id
      → Ensures (Change db) (cancel_unstarted sha256 fresh shows is_action_id r c now db)
  unfolding assert_retry_authorization insert_result transition
  cancel_unstarted-Change r c now db live =
      if_cases (Ensures (Change db))
        (not (is_null r.first_claimed_at) && not (assert_retry_authorization r db)) (λ e. tt)
        (λ e.
          Ensures-then (Aside db) (Change db) (retire sha256 fresh shows is_action_id c now db) _
            (retire-Aside c now db)
            (λ retired aside.
              Ensures-then (λ (a, id). Inserted r.id cancel_payload sha256 retired a id) (Change db)
                (insert_result sha256 fresh r.id none cancel_payload retired) _
                (insert-Inserted sha256 fresh r.id none cancel_payload retired)
                (λ (inserted, id) i.
                  Ensures-then (Moved r.id "CANCELLED" (some id) inserted) (Change db)
                    (transition r.id "CANCELLED" (some id) inserted) _
                    (transition-Moved r.id "CANCELLED" (some id) inserted
                      (IsLive-same db inserted r.id (i.same_requests ∙ aside.same_requests) live))
                    (λ ended m.
                      let released =
                        release_candidate sha256 fresh shows is_action_id c now ended in
                      let freed =
                        Aside-trans ended released _ (release-Aside c now ended)
                          (unbind-Aside r released) in
                      Change-trans db retired _ (Aside-Change db retired aside) (
                        Change-trans retired inserted _ i.change (
                          Change-trans inserted ended _ m.change (
                            Change-trans ended _ _ (Aside-Change ended _ freed)
                              (Change-event _ _ (λ key. quiet_type r id key)))))))))
    where
      quiet_type :
          (r : Request) (id key : String)
          → is_action_of key (unstarted_type sha256 fresh shows is_action_id r id) ≡ false
      quiet_type r id key =
          if_cases (λ t. is_action_of key t ≡ false) (is_null r.first_claimed_at) (λ e. refl)
            (λ e. refl)
