-- ===== src/Status/Store.antt =====
-- The rows that src/lib/tasks-status-update.ts reads and writes. Jobs and sprint runs are listed
-- newest first, which is the order of `created_at desc`. Of the `@updatedAt` columns only the one of
-- a task is kept, which every propagation writes.
use scrum4me_mcp.Prelude.{ℕ, String, Option, List}
use scrum4me_mcp.Flow.Effects.{RunStatus}
use scrum4me_mcp.Status.Decisions.{TaskStatus, StoryStatus, PbiStatus, SprintStatus}

pub data JobStatus : Type 0 where
  queued claimed running done failed cancelled skipped : JobStatus

pub record Task : Type 0 where
  pub id : String
  pub title : String
  pub status : TaskStatus
  pub story_id : String
  pub implementation_plan : Option String
  pub updated_at : ℕ

pub record Story : Type 0 where
  pub id : String
  pub status : StoryStatus
  pub pbi_id : String
  pub sprint_id : Option String

pub record Pbi : Type 0 where
  pub id : String
  pub status : PbiStatus

pub record Sprint : Type 0 where
  pub id : String
  pub status : SprintStatus
  pub completed_at : Option ℕ

pub record SprintRun : Type 0 where
  pub id : String
  pub sprint_id : String
  pub status : RunStatus
  pub finished_at : Option ℕ
  pub failed_task_id : Option String

pub record Job : Type 0 where
  pub id : String
  pub task_id : Option String
  pub sprint_run_id : Option String
  pub status : JobStatus
  pub finished_at : Option ℕ
  -- The id of the task that `error` names, for a job that a failed task cancelled.
  pub cancelled_for : Option String

pub record Db : Type 0 where
  pub tasks : List Task
  pub stories : List Story
  pub pbis : List Pbi
  pub sprints : List Sprint
  pub sprint_runs : List SprintRun
  pub jobs : List Job
  -- The jobs for which a change was notified in the transaction.
  pub notified : List String
