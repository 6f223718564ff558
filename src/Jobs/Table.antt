-- ===== src/Jobs/Table.antt =====
-- The rows of `claude_jobs` and of the tables beside it that src/tools/wait-for-job.ts and
-- src/tools/update-job-status.ts read and write. A time is a number of milliseconds.
use scrum4me_mcp.Prelude.{
  ℕ, String, Bool, false, not, ◌&&◌, ◌||◌, Option, none, some, List, [], ◌∷◌, ◌==◌, map, find_by,
  some?, includes, is_null,
}
use scrum4me_mcp.Claim.Job.{ClaimJob}
use scrum4me_mcp.Claim.Conditions.{Tables, Row, SprintJob}

pub record JobRow : Type 0 where
  pub id : String
  pub user_id : String
  pub product_id : String
  pub runtime : String
  pub status : String
  pub kind : String
  pub source : String
  pub required_capability : Option String
  pub dispatch_request_id : Option String
  pub dispatch_candidate_id : Option String
  pub sprint_run_id : Option String
  pub sprint_sequence : Option ℕ
  pub task_id : Option String
  pub idea_id : Option String
  pub branch : Option String
  pub created_at : ℕ
  pub claimed_by_token_id : Option String
  pub worker_instance_id : Option String
  pub claimed_at : Option ℕ
  pub started_at : Option ℕ
  pub finished_at : Option ℕ
  pub plan_snapshot : Option String
  pub lease_until : Option ℕ
  pub retry_count : ℕ
  pub summary : Option String
  pub error : Option String
  pub chat_cutoff_message_id : Option String
  pub chat_cutoff_at : Option ℕ
  pub resolved_at : Option ℕ

pub record TaskRow : Type 0 where
  pub id : String
  pub status : String
  pub repo_url : Option String
  pub implementation_plan : Option String
  pub dispatch_request_id : Option String
  pub updated_at : Option ℕ

pub record SprintRunRow : Type 0 where
  pub id : String
  pub status : String
  pub started_at : Option ℕ
  pub failure_reason : Option String

-- A row of `sprint_task_executions`.
pub record Execution : Type 0 where
  pub sprint_job_id : String
  pub task_id : String
  pub order : ℕ
  pub status : String

-- A row of `idea_chat_messages`.
pub record ChatMessage : Type 0 where
  pub id : String
  pub idea_id : String
  pub created_at : ℕ

pub record Db : Type 0 where
  pub jobs : List JobRow
  pub tasks : List TaskRow
  pub sprint_runs : List SprintRunRow
  pub executions : List Execution
  pub chat_messages : List ChatMessage
  -- The jobs for which a change was notified, oldest first.
  pub notified : List String

abbrev pub job_of : Db → String → Option JobRow
job_of db id = find_by (λ j. j.id) id db.jobs

abbrev pub task_of : Db → Option String → Option TaskRow
task_of db none = none
task_of db (some id) = find_by (λ t. t.id) id db.tasks

abbrev pub run_of : Db → Option String → Option SprintRunRow
run_of db none = none
run_of db (some id) = find_by (λ r. r.id) id db.sprint_runs

-- A status in which a worker holds the job.
abbrev pub held_statuses : List String
held_statuses = "CLAIMED" ∷ "RUNNING" ∷ []

-- The columns that the claim's query reads; an ordinary worker's query joins no candidate.
abbrev pub claim_job : Db → JobRow → ClaimJob
claim_job db j = record {
  user_id = j.user_id;
  product_id = j.product_id;
  runtime = j.runtime;
  status = j.status;
  kind = j.kind;
  source = j.source;
  required_capability = j.required_capability;
  dispatch_request_id = j.dispatch_request_id;
  profile_revision_id = none;
  sprint_run_id = j.sprint_run_id;
  sprint_status = elim (run_of db j.sprint_run_id) [ none ↦ none | some r ↦ some r.status ];
  earlier_sibling = false;
  task_id = j.task_id;
  idea_id = j.idea_id;
}

abbrev pub sprint_job : JobRow → SprintJob
sprint_job j = record {
  sprint_run_id = j.sprint_run_id;
  kind = j.kind;
  sprint_sequence = j.sprint_sequence;
  status = j.status;
}

abbrev pub tables_of : Db → Tables
tables_of db = record { incarnations = []; profiles = []; jobs = map sprint_job db.jobs }

abbrev pub row_of : Db → JobRow → Row
row_of db j = record { job = claim_job db j; sprint_sequence = j.sprint_sequence }

-- src/dispatch/managed-job.ts: `assertUnmanagedJob` throws where it holds.
abbrev is_managed_task : Option TaskRow → Bool
is_managed_task none = false
is_managed_task (some t) = not (is_null t.dispatch_request_id)

unfoldable pub is_managed : Db → JobRow → Bool
is_managed db j =
    some? (λ e. e.sprint_job_id == j.id && is_managed_task (task_of db (some e.task_id)))
      db.executions
    || is_managed_task (task_of db j.task_id)
    || not (is_null j.dispatch_request_id)
    || not (is_null j.dispatch_candidate_id)
    || includes ("QUEUE_TASK" ∷ "QUEUE_REVIEW" ∷ []) j.kind
