-- ===== src/Jobs/Step.antt =====
-- The commits by which workers, heartbeats, sweeps and reports change the jobs
-- (src/tools/wait-for-job.ts, src/tools/job-heartbeat.ts, src/tools/update-job-status.ts), and their
-- sequences. A report is one step: its write follows its check with nothing between them. The code
-- waits between the two and then writes by id alone, so a late report is no step here; what it does
-- is in Jobs/Late. A rollback is fenced by an owner.
pub mod Change
pub mod Others
pub mod Reports
pub mod Claims
pub mod Sequence
pub mod Interleaved
use scrum4me_mcp.Prelude.{
  ℕ, ◌≡◌, String, Bool, ◌&&◌, Option, none, some, List, [], ◌∷◌, ◌==◌, includes,
}
use scrum4me_mcp.Claim.Conditions.{same?, lt?}
use scrum4me_mcp.Report.Timestamps.{ReportedStatus}
use scrum4me_mcp.Jobs.Table.{JobRow, Db, held_statuses}
use scrum4me_mcp.Jobs.Claim.{Surroundings, Claimer, try_claim_job}
use scrum4me_mcp.Jobs.Rollback.{
  Owner, Effect, refresh_ownership, publish_queued, without_executions, release_mismatched_claim,
  skip_agent_chat_job, mark_job_terminally_failed, count_retry,
}
use scrum4me_mcp.Jobs.Sweep.{fail_stale, retry_stale, fail_run_of, job_heartbeat}
use scrum4me_mcp.Jobs.Status.{
  Fields, Reported, update_job_status, apply_deploy_terminal_update, AuditEnd,
  apply_docs_audit_terminal_update,
}

pub data Step : Db → Db → Type 0 where
  claimed : (s : Surroundings) (c : Claimer) (db : Db) → Step db (try_claim_job s c db).0
  gave_up : (user_id : String) (now : ℕ) (db : Db) → Step db (fail_stale user_id now db)
  tried_again : (user_id : String) (now : ℕ) (db : Db) → Step db (retry_stale user_id now db)
  run_failed : (j : JobRow) (db : Db) → Step db (fail_run_of j db)
  beat : (id token_id : String) (now : ℕ) (db : Db) → Step db (job_heartbeat id token_id now db).0
  checked :
      (o : Option Owner) (id : String) (now : ℕ) (db : Db)
      → Step db (refresh_ownership o id now db).0
  cleaned : (id : String) (db : Db) → Step db (without_executions id db)
  requeued : (o : Owner) (id : String) (db : Db) → Step db (publish_queued (some o) id db)
  released : (id : String) (o : Option Owner) (db : Db) → Step db (release_mismatched_claim id o db)
  skipped :
      (id : String) (o : Option Owner) (reason : String) (now : ℕ) (db : Db)
      → Step db (skip_agent_chat_job id o reason now db)
  counted : (id : String) (db : Db) → Step db (count_retry id db)
  failed :
      (id reason : String) (now : ℕ) (db : Db) {db' : Db} {effects : List Effect}
      → mark_job_terminally_failed id reason now db ≡ some (db', effects)
      → Step db db'
  reported :
      (token_id id : String) (actual : ReportedStatus) (fields : Fields) (now : ℕ) (db : Db)
      {db' : Db}
      → update_job_status (λ d. d) token_id id actual fields now db ≡ Reported.written (some db')
      → Step db db'
  deployed :
      (status : ReportedStatus) (product_id id : String) (fields : Fields) (now : ℕ) (db : Db)
      → Step db (record db {
        jobs = (apply_deploy_terminal_update status product_id id fields now db.jobs).0;
      })
  audited :
      (trim : String → String) (read_date : String → Option ℕ) (marker : String → String)
      (token_id : Option String) (id : String) (i : AuditEnd) (summary : Option String) (now : ℕ)
      (db : Db)
      → Step db
          (apply_docs_audit_terminal_update trim read_date marker token_id id i summary now db).0

pub data Steps : Db → Db → Type 0 where
  nil : (db : Db) → Steps db db
  cons : {a b c : Db} → Step a b → Steps b c → Steps a c

-- A worker holds the job; the job is queued or held.
abbrev pub is_held : JobRow → Bool
is_held j = includes held_statuses j.status

abbrev pub is_open : JobRow → Bool
is_open j = includes ("QUEUED" ∷ "CLAIMED" ∷ "RUNNING" ∷ []) j.status

-- Both are tasks of one sprint run, and `a` stands before `b` in its sequence.
unfoldable pub precedes : JobRow → JobRow → Bool
precedes a b =
    same? a.sprint_run_id b.sprint_run_id
    && a.kind == "TASK_IMPLEMENTATION"
    && b.kind == "TASK_IMPLEMENTATION"
    && lt? a.sprint_sequence b.sprint_sequence
