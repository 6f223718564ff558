-- ===== src/Jobs/Status.antt =====
-- src/tools/update-job-status.ts on `claude_jobs`: the checks and the write of the generic path, and
-- the ends of deploy and docs-audit jobs.
use Prim.Native.String.{◌++◌ as join}
use scrum4me_mcp.Prelude.{
  ℕ, String, Bool, false, not, ◌&&◌, Option, none, some, List, [], ◌∷◌, ◌++◌, ◌==◌, includes,
  is_null, is_text, truthy, or_else, map, select, update_by, if◌then◌else◌,
}
use scrum4me_mcp.Report.Timestamps.{ReportedStatus, Times, apply_times, resolve_job_timestamps}
use scrum4me_mcp.Jobs.Table.{JobRow, Db, job_of, held_statuses, is_managed}
use scrum4me_mcp.Jobs.Rollback.{guarded, hits}

pub data Refusal : Type 0 where
  not_found managed_row permission_denied job_cancelled : Refusal
  already_terminal : String → Refusal

pub data Admission : Type 0 where
  refused : Refusal → Admission
  admitted : JobRow → Admission

-- The checks at the start of `update_job_status`, on the row as it was read.
unfoldable pub admit_report : Db → String → Option JobRow → Admission
unfolding is_managed
admit_report db token_id none = refused not_found
admit_report db token_id (some j) =
    if is_managed db j
    then refused managed_row
    else if not (is_text j.claimed_by_token_id token_id)
    then refused permission_denied
    else if j.status == "CANCELLED"
    then refused job_cancelled
    else if not (includes held_statuses j.status)
    then refused (already_terminal j.status)
    else admitted j

-- `DB_STATUS_MAP`.
abbrev pub db_status : ReportedStatus → String
db_status ReportedStatus.running = "RUNNING"
db_status ReportedStatus.done = "DONE"
db_status ReportedStatus.failed = "FAILED"
db_status ReportedStatus.skipped = "SKIPPED"

-- The fields that the report may bring; a missing one is not written.
pub record Fields : Type 0 where
  pub branch : Option String
  pub summary : Option String
  pub error : Option String

abbrev given : Option String → Option String → Option String
given none old = old
given (some new) old = some new

abbrev times_of : JobRow → Times
times_of j = record {
  claimed_at = j.claimed_at;
  started_at = j.started_at;
  finished_at = j.finished_at;
}

-- `jobUpdateData` on a row; the times to write are computed from the row that was read.
unfoldable pub reported_row : JobRow → ReportedStatus → Fields → ℕ → JobRow → JobRow
unfolding resolve_job_timestamps
reported_row read actual fields now j =
    let times = apply_times (resolve_job_timestamps actual (times_of read) now) (times_of j) in
    record j {
      status = db_status actual;
      claimed_at = times.claimed_at;
      started_at = times.started_at;
      finished_at = times.finished_at;
      branch = given fields.branch j.branch;
      summary = given fields.summary j.summary;
      error = given fields.error j.error;
    }

-- The write finds the row by its id alone; `none` where there is no such row, which throws.
unfoldable pub write_report : JobRow → ReportedStatus → Fields → ℕ → Option JobRow → Db → Option Db
unfolding reported_row
write_report read actual fields now none db = none
write_report read actual fields now (some j) db =
    some (record db {
      jobs = update_by (λ r. r.id) j.id (reported_row read actual fields now) db.jobs;
    })

pub data Reported : Type 0 where
  rejected : Refusal → Reported
  written : Option Db → Reported

-- The generic path of `update_job_status`. `meanwhile` is what other processes do to the tables
-- between the read and the write, while the gate, the push and the pull request are done; `actual`
-- is the status that these leave to be written.
unfoldable pub report_admitted :
    (Db → Db) → String → ReportedStatus → Fields → ℕ → Db → Admission → Reported
unfolding write_report
report_admitted meanwhile id actual fields now db (refused r) = rejected r
report_admitted meanwhile id actual fields now db (admitted j) =
    written (write_report j actual fields now (job_of (meanwhile db) id) (meanwhile db))

unfoldable pub update_job_status :
    (Db → Db) → String → String → ReportedStatus → Fields → ℕ → Db → Reported
unfolding report_admitted admit_report
update_job_status meanwhile token_id id actual fields now db =
    report_admitted meanwhile id actual fields now db (admit_report db token_id (job_of db id))

-- The end of a deploy job, which supersedes the waiting ones or lifts the failed ones.
abbrev pub end_status : ReportedStatus → String
end_status ReportedStatus.done = "DONE"
end_status ReportedStatus.failed = "FAILED"
end_status _ = "SKIPPED"

abbrev pub deploy_row : ReportedStatus → Fields → ℕ → JobRow → JobRow
deploy_row status fields now j = record j {
  status = end_status status;
  summary = given fields.summary j.summary;
  error = given fields.error j.error;
  finished_at = some now;
}

unfoldable pub waits_to_deploy : String → JobRow → Bool
waits_to_deploy product_id j =
    j.product_id == product_id && j.kind == "DEPLOY" && j.status == "QUEUED"

abbrev pub superseded_row : String → ℕ → JobRow → JobRow
superseded_row id now j = record j {
  status = "CANCELLED";
  error = some (join "superseded: deploy voor product faalde (job " (join id ")"));
  finished_at = some now;
}

unfoldable pub blocks_deploy : String → String → JobRow → Bool
blocks_deploy product_id id j =
    j.product_id == product_id
    && j.kind == "DEPLOY"
    && j.status == "FAILED"
    && is_null j.resolved_at
    && not (j.id == id)

-- The rest of the transaction, on the jobs after the update of the one that ended.
unfoldable pub settle_deploys :
    ReportedStatus → String → String → ℕ → List JobRow → List JobRow × List String
unfolding waits_to_deploy blocks_deploy
settle_deploys ReportedStatus.failed product_id id now jobs = (
  map (λ j. if waits_to_deploy product_id j then superseded_row id now j else j) jobs,
  map (λ j. j.id) (select (waits_to_deploy product_id) jobs),
)
settle_deploys ReportedStatus.done product_id id now jobs = (
  map (λ j. if blocks_deploy product_id id j then record j { resolved_at = some now } else j) jobs,
  [],
)
settle_deploys status product_id id now jobs = (jobs, [])

-- `applyDeployTerminalUpdate` on the jobs, and the ids that it cancelled.
unfoldable pub apply_deploy_terminal_update :
    ReportedStatus → String → String → Fields → ℕ → List JobRow → List JobRow × List String
unfolding settle_deploys
apply_deploy_terminal_update status product_id id fields now jobs =
    settle_deploys status product_id id now
      (update_by (λ j. j.id) id (deploy_row status fields now) jobs)

-- The input of `checkDocsAuditTerminal`; `processed_until` is read by `Date`, `none` for no date.
pub record AuditEnd : Type 0 where
  pub status : String
  pub source : String
  pub skip_reason : Option String
  pub processed_until : Option String
  pub capped : Bool

pub data AuditError : Type 0 where
  wrong_source wrong_status no_reason no_cursor not_held : AuditError

abbrev pub audit_status : String → String
audit_status s = if s == "done" then "DONE" else if s == "failed" then "FAILED" else "SKIPPED"

module _ (trim : String → String) (read_date : String → Option ℕ) where
  abbrev has_reason : Option String → Bool
  has_reason none = false
  has_reason (some r) = not (r == "") && not (trim r == "")

  abbrev has_cursor : Option String → Bool
  has_cursor none = false
  has_cursor (some d) = not (d == "") && not (is_null (read_date d))

  -- `checkDocsAuditTerminal`, `none` where it is ok.
  unfoldable pub check_docs_audit_terminal : AuditEnd → Option AuditError
  check_docs_audit_terminal i =
      if not (includes ("SYSTEM" ∷ "MANUAL" ∷ []) i.source)
      then some wrong_source
      else if not (includes ("done" ∷ "failed" ∷ "skipped" ∷ []) i.status)
      then some wrong_status
      else if i.status == "skipped" && not (has_reason i.skip_reason)
      then some no_reason
      else if i.capped && not (has_cursor i.processed_until)
      then some no_cursor
      else none

  -- The guard of the update; a caller without a token matches rows without one.
  unfoldable pub may_end_audit : Option String → JobRow → Bool
  may_end_audit token_id j =
      j.kind == "DOCS_AUDIT"
      && (elim token_id [
        | none ↦ is_null j.claimed_by_token_id
        | some t ↦ is_text j.claimed_by_token_id t
      ])
      && includes held_statuses j.status

  -- The summary with the cursor of a run that was cut off; `marker` is `formatDocsAuditCursor`.
  abbrev with_marker : (String → String) → AuditEnd → Option String → Option String
  with_marker marker i summary = elim i.processed_until [
    | none ↦ summary
    | some d ↦
        if i.capped && truthy (some d)
        then some
            (if truthy summary then join (or_else summary "") (join "\n" (marker d)) else marker d)
        else summary
  ]

  abbrev pub audit_row : (String → String) → AuditEnd → Option String → ℕ → JobRow → JobRow
  audit_row marker i summary now j = record j {
    status = audit_status i.status;
    summary = given (with_marker marker i summary) j.summary;
    error = if i.status == "skipped" then given i.skip_reason j.error else j.error;
    finished_at = some now;
  }

  -- The update, where the check found no error.
  unfoldable pub end_audit :
      (String → String)
      → Option String
      → String
      → AuditEnd
      → Option String
      → ℕ
      → Option AuditError
      → Db
      → Db × Option AuditError
  unfolding may_end_audit
  end_audit marker token_id id i summary now (some e) db = (db, some e)
  end_audit marker token_id id i summary now none db = (
    record db {
      jobs = map (guarded (may_end_audit token_id) id (audit_row marker i summary now)) db.jobs;
      notified =
          if hits (may_end_audit token_id) id db then db.notified ++ id ∷ [] else db.notified;
    },
    if hits (may_end_audit token_id) id db then none else some not_held,
  )

  -- `applyDocsAuditTerminalUpdate`.
  unfoldable pub apply_docs_audit_terminal_update :
      (String → String)
      → Option String
      → String
      → AuditEnd
      → Option String
      → ℕ
      → Db
      → Db × Option AuditError
  unfolding check_docs_audit_terminal end_audit
  apply_docs_audit_terminal_update marker token_id id i summary now db =
      end_audit marker token_id id i summary now (check_docs_audit_terminal i) db
