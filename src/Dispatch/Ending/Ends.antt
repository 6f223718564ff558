-- ===== src/Dispatch/Ending/Ends.antt =====
-- The end of an attempt and the release of a task in `finishResult` of src/dispatch/lifecycle.ts.
use scrum4me_mcp.Dispatch.Ending.Finish.{rows, rest}
use scrum4me_mcp.Dispatch.Ending.Aside.{
  Aside, Aside-refl, Aside-trans, end_job-Aside, end_attempt-Aside, set_candidate-Aside,
  release_reservations-Aside,
}
use scrum4me_mcp.Prelude.{
  List, map, if_cases, ℕ, ◌≡◌, refl, ap, inl, inr, String, false, ◌||◌, Option, none, some, ◌==◌,
  update_by, is_null, Bool-cases, if◌then◌else◌,
}
use scrum4me_mcp.Status.Store
use scrum4me_mcp.Dispatch.Ending.Table.{
  Request, Attempt, Candidate, Reservation, Publication, Binding, Outcome, Db, Tx, thrown, done,
  ◌then◌, Ensures, Ensures-then,
}
use scrum4me_mcp.Dispatch.Ending.Tasks.{project_managed_task_status}
use scrum4me_mcp.Dispatch.Ending.Lifecycle.{
  released, unbound, Locked, end_job, terminalize_attempt, revoked_as, set_candidate, end_attempt,
  release_reservations, shown, job_status, project_task, settle_task, task_end,
  unresolved_publication, is_cancelled,
}
use scrum4me_mcp.Dispatch.Ending.Change.{IsKeyed}

-- The rows of an attempt at its end.
abbrev pub ended_rows : Locked → Outcome → ℕ → Db → Db
ended_rows x outcome now db = release_reservations x.c.id now (
    set_candidate x.c.id "FINISHED"
      (end_job x.c.job_id (job_status outcome) now (end_attempt x.a.id (shown outcome) now db)))

pub ended_rows-Aside :
    (x : Locked) (outcome : Outcome) (now : ℕ) (db : Db) → Aside db (ended_rows x outcome now db)
ended_rows-Aside x outcome now db =
    let attempt = end_attempt x.a.id (shown outcome) now db in
    let job = end_job x.c.job_id (job_status outcome) now attempt in
    let candidate = set_candidate x.c.id "FINISHED" job in
    Aside-trans db candidate _
      (Aside-trans db job candidate
        (Aside-trans db attempt job (end_attempt-Aside x.a.id (shown outcome) now db)
          (end_job-Aside x.c.job_id (job_status outcome) now attempt))
        (set_candidate-Aside x.c.id "FINISHED" job))
      (release_reservations-Aside x.c.id now candidate)

pub terminalize-Aside :
    (x : Locked) (outcome : Outcome) (now : ℕ) (db : Db)
    → Ensures
        (λ db'.
          (db' ≡ ended_rows x outcome now db)
          × (is_null x.a.stopped_at || unresolved_publication db x.r.id ≡ false)
          × Aside db db')
        (terminalize_attempt x outcome now db)
unfolding terminalize_attempt unresolved_publication
terminalize-Aside x outcome now db =
    if_cases
      (Ensures (λ db'.
        (db' ≡ ended_rows x outcome now db)
        × (is_null x.a.stopped_at || unresolved_publication db x.r.id ≡ false)
        × Aside db db'))
      (is_null x.a.stopped_at || unresolved_publication db x.r.id) (λ e. tt)
      (λ e. (refl, e, ended_rows-Aside x outcome now db))

pub end_job-rest :
    (id : Option String) (status : String) (now : ℕ) (db : Db)
    → rest (end_job id status now db) ≡ rest db
end_job-rest none status now db = refl
end_job-rest (some id) status now db =
    if_cases (λ d. rest d ≡ rest db) (id == "") (λ e. refl) (λ e. refl)

-- The task of a request is released where it has one.
abbrev pub bindings_after : Request → Db → List Binding
bindings_after r db =
    if r.action == "task_implementation"
    then map (unbound r.task_id r.id) db.bindings
    else db.bindings

pub record TaskSettled (r : Request) (db db' : Db) : Type 0 where
  pub aside : Aside db db'
  pub same_rows : rows db' ≡ rows db
  pub unbound_task : db'.bindings ≡ bindings_after r db

abbrev pub IsProjected : Db → Db → Type 0
IsProjected db db' = Aside db db' × (rest db' ≡ rest db)

pub hierarchy-IsProjected :
    (db : Db) (t : Tx Store.Db)
    → Ensures (IsProjected db) (t then λ h. done (record db { hierarchy = h }))
unfolding IsKeyed
hierarchy-IsProjected db (thrown e) = tt
hierarchy-IsProjected db (done h) =
    (record { same_requests = refl; same_results = refl; same_events = refl; keyed = λ k. k }, refl)

pub project_task-IsProjected :
    (r : Request) (outcome : Outcome) (now : ℕ) (db : Db)
    → Ensures (IsProjected db) (project_task r outcome now db)
project_task-IsProjected r outcome now db =
    if_cases (Ensures (IsProjected db)) (is_cancelled outcome) (λ c. (Aside-refl db, refl))
      (λ c.
        hierarchy-IsProjected db
          (project_managed_task_status r.task_id (task_end outcome) now db.hierarchy))

pub settle-TaskSettled :
    (r : Request) (outcome : Outcome) (now : ℕ) (db : Db)
    → Ensures (TaskSettled r db) (settle_task r outcome now db)
unfolding IsKeyed
settle-TaskSettled r outcome now db = elim (Bool-cases (r.action == "task_implementation")) [
  | inl e ↦ rw e (
      Ensures-then (IsProjected db) (TaskSettled r db) (project_task r outcome now db) _
        (project_task-IsProjected r outcome now db)
        (λ db' (a, h). record {
          aside = record {
            same_requests = a.same_requests;
            same_results = a.same_results;
            same_events = a.same_events;
            keyed = a.keyed;
          };
          same_rows = ap (λ q. q.0) h;
          unbound_task = rw e (ap (map (unbound r.task_id r.id)) (ap (λ q. q.1) h));
        }))
  | inr e ↦ rw e (record { aside = Aside-refl db; same_rows = refl; unbound_task = rw e refl })
]

-- The end of an attempt on these tables.
abbrev pub ended_rest :
    Locked
    → Outcome
    → ℕ
    → (List Attempt × List Candidate × List Reservation × List Publication) × List Binding
    → (List Attempt × List Candidate × List Reservation × List Publication) × List Binding
ended_rest x outcome now q = (
  (
    update_by (λ a. a.id) x.a.id (revoked_as (shown outcome) now) q.0.0,
    update_by (λ c. c.id) x.c.id (λ c. record c { state = "FINISHED" }) q.0.1,
    map (released x.c.id now) q.0.2,
    q.0.3,
  ),
  q.1,
)

pub ended_rows-rest :
    (x : Locked) (outcome : Outcome) (now : ℕ) (db : Db)
    → rest (ended_rows x outcome now db) ≡ ended_rest x outcome now (rest db)
ended_rows-rest x outcome now db =
    ap
      (λ q. (
        (
          q.0.0,
          update_by (λ c. c.id) x.c.id (λ (c : Candidate). record c { state = "FINISHED" }) q.0.1,
          map (released x.c.id now) q.0.2,
          q.0.3,
        ),
        q.1,
      ))
      (end_job-rest x.c.job_id (job_status outcome) now (end_attempt x.a.id (shown outcome) now db))
