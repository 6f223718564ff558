-- ===== src/Jobs/Sweep.antt =====
-- src/tools/wait-for-job.ts, `resetStaleClaimedJobs`: claims whose lease has run out are queued again
-- twice, and then failed. Also src/tools/job-heartbeat.ts, which lengthens a lease.
use scrum4me_mcp.Prelude.{
  ℕ, ◌+◌, String, Bool, false, not, ◌&&◌, Option, none, some, List, [], ◌∷◌, ◌++◌, ◌==◌, ltb,
  includes, is_null, is_text, truthy, map, select, some?, update_by, if◌then◌else◌, first_by,
}
use Prim.Native.String.{◌++◌ as join}
use scrum4me_mcp.Flow.Executor.{decimal}
use scrum4me_mcp.Jobs.Table.{JobRow, SprintRunRow, Execution, Db, job_of, held_statuses, run_of}
use scrum4me_mcp.Jobs.Rollback.{
  Effect, release_locks, backup_push, requeued_row, ended_row, guarded, hits, leased_until,
}

-- `claimed_at < NOW() - INTERVAL '30 minutes'`.
abbrev pub stale_claim : ℕ
stale_claim = 1800000

abbrev pub before : Option ℕ → ℕ → Bool
before none now = false
before (some t) now = ltb t now

-- `lease_until < NOW() OR (lease_until IS NULL AND claimed_at < NOW() - INTERVAL '30 minutes')`.
unfoldable pub lease_ran_out : ℕ → JobRow → Bool
lease_ran_out now j = elim j.lease_until [
  | some t ↦ ltb t now
  | none ↦ elim j.claimed_at [ none ↦ false | some t ↦ ltb (t + stale_claim) now ]
]

-- The WHERE clause that both updates share.
unfoldable pub is_stale : String → ℕ → JobRow → Bool
unfolding lease_ran_out
is_stale user_id now j =
    j.user_id == user_id
    && is_null j.dispatch_request_id
    && includes held_statuses j.status
    && lease_ran_out now j

abbrev pub max_retries : ℕ
max_retries = 2

unfoldable pub gives_up : String → ℕ → JobRow → Bool
unfolding is_stale
gives_up user_id now j = is_stale user_id now j && not (ltb j.retry_count max_retries)

unfoldable pub tries_again : String → ℕ → JobRow → Bool
unfolding is_stale
tries_again user_id now j = is_stale user_id now j && ltb j.retry_count max_retries

-- `STALE_ERROR_MSG`.
abbrev pub stale_error : String
stale_error = "agent did not complete job within 2 attempts"

abbrev pub retried_row : JobRow → JobRow
retried_row j = record (requeued_row j) { retry_count = j.retry_count + 1 }

-- The first update.
unfoldable pub fail_row : String → ℕ → JobRow → JobRow
unfolding gives_up
fail_row user_id now j = if gives_up user_id now j then ended_row "FAILED" stale_error now j else j

-- The second update.
unfoldable pub retry_row : String → ℕ → JobRow → JobRow
unfolding tries_again
retry_row user_id now j = if tries_again user_id now j then retried_row j else j

abbrev is_sprint : JobRow → Bool
is_sprint j = j.kind == "SPRINT_IMPLEMENTATION"

-- The execution that was running last, `ORDER BY order DESC`.
unfoldable pub last_running : Db → String → Option Execution
last_running db job_id =
    first_by (λ a b. ltb b.order a.order) (λ e. e.sprint_job_id == job_id && e.status == "RUNNING")
      db.executions

abbrev failure_reason_of : Option Execution → String
failure_reason_of none = "stale: lease verlopen"
failure_reason_of (some e) =
    join "stale: lease verlopen, last execution: order "
      (join (decimal e.order) (join " task " e.task_id))

abbrev fail_run : String → SprintRunRow → SprintRunRow
fail_run reason r = record r { status = "FAILED"; failure_reason = some reason }

-- One round of the loop over the failed sprint jobs.
unfoldable pub fail_run_of : JobRow → Db → Db
unfolding last_running
fail_run_of j db = elim j.sprint_run_id [
  | none ↦ db
  | some run ↦
      if is_sprint j && truthy (some run)
      then record db {
        sprint_runs =
            update_by (λ r. r.id) run (fail_run (failure_reason_of (last_running db j.id)))
              db.sprint_runs;
      }
      else db
]

unfoldable pub fail_runs : List JobRow → Db → Db
unfolding fail_run_of
fail_runs [] db = db
fail_runs (j ∷ rows) db = fail_runs rows (fail_run_of j db)

-- The backup push of a row with a branch.
abbrev push_of : JobRow → List Effect
push_of j = elim j.branch [
  | none ↦ []
  | some b ↦ if truthy (some b) && truthy (some j.product_id) then backup_push j.id b ∷ [] else []
]

abbrev pushes : List JobRow → List Effect
pushes [] = []
pushes (j ∷ rows) = push_of j ++ pushes rows

-- The executions of the sprint jobs that were queued again are deleted.
abbrev drop_executions : List JobRow → List Execution → List Execution
drop_executions rows = select (λ e. not (some? (λ j. is_sprint j && j.id == e.sprint_job_id) rows))

-- The first update, and the rows that it returns.
unfoldable pub fail_stale : String → ℕ → Db → Db
unfolding fail_row
fail_stale user_id now db = record db { jobs = map (fail_row user_id now) db.jobs }

-- The transaction of the second update.
unfoldable pub retry_stale : String → ℕ → Db → Db
unfolding retry_row
retry_stale user_id now db = record db {
  jobs = map (retry_row user_id now) db.jobs;
  executions = drop_executions (select (tries_again user_id now) db.jobs) db.executions;
}

-- `resetStaleClaimedJobs` in a process that is not interrupted; the second transaction has a time of
-- its own. The payload of a notification is built from the row, here its id stands for it. The rows
-- are as RETURNING gives them, without the columns that were written.
unfoldable pub reset_stale_claimed_jobs : String → ℕ → ℕ → Db → Db × List Effect
unfolding fail_stale retry_stale fail_runs
reset_stale_claimed_jobs user_id now later db =
    let failed = select (gives_up user_id now) db.jobs in
    let db' = fail_stale user_id now db in
    let requeued = select (tries_again user_id later) db'.jobs in
    let db'' = fail_runs failed (retry_stale user_id later db') in
    (
      record db'' {
        notified = db''.notified ++ map (λ j. j.id) failed ++ map (λ j. j.id) requeued;
      },
      map (λ j. release_locks j.id) failed
          ++ map (λ j. release_locks j.id) requeued
          ++ pushes (failed ++ requeued),
    )

-- The lease of a heartbeat.
abbrev pub heartbeat_lease : ℕ
heartbeat_lease = 300000

-- The WHERE clause of `job_heartbeat`, the id apart.
unfoldable pub may_beat : String → JobRow → Bool
may_beat token_id j =
    is_text j.claimed_by_token_id token_id
    && includes held_statuses j.status
    && is_null j.dispatch_request_id

-- `job_heartbeat`, `none` where it reports an error; it returns the status of the job's sprint run.
unfoldable pub job_heartbeat : String → String → ℕ → Db → Db × Option (Option String)
unfolding may_beat
job_heartbeat id token_id now db = (
  record db {
    jobs = map (guarded (may_beat token_id) id (leased_until (now + heartbeat_lease))) db.jobs;
  },
  if hits (may_beat token_id) id db then some (run_status (job_of db id)) else none,
)
  where
    run_status : Option JobRow → Option String
    run_status none = none
    run_status (some j) =
        if is_sprint j
        then elim (run_of db j.sprint_run_id) [ none ↦ none | some r ↦ some r.status ]
        else none
