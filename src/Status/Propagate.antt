-- ===== src/Status/Propagate.antt =====
-- src/lib/tasks-status-update.ts, `propagateStatusUpwards`, in one transaction: where a step throws
-- the result is `none` and nothing is written. `now` is `new Date()`.
pub mod Stages
pub mod Consistency
pub mod Cascade
use mathlib.Core.Option
use scrum4me_mcp.Prelude.{
  ℕ, String, Bool, true, false, not, ◌&&◌, ◌||◌, Option, none, some, List, [], ◌∷◌, ◌++◌, ◌==◌, map,
  select, find?, find_by, update_by, includes, is_text, is_null, truthy, ◌>>=◌, if◌then◌else◌,
}
use scrum4me_mcp.Flow.Effects.{RunStatus}
use scrum4me_mcp.Status.Decisions.{
  TaskStatus, StoryStatus, PbiStatus, SprintStatus, is_blocked, decide_story_status,
  decide_pbi_status, decide_sprint_status,
}
use scrum4me_mcp.Status.Store.{JobStatus, Task, Story, Pbi, Sprint, SprintRun, Job, Db}

-- `a !== b` on the statuses of a story, a PBI and a sprint.
abbrev pub same_story_status : StoryStatus → StoryStatus → Bool
same_story_status StoryStatus.opened StoryStatus.opened = true
same_story_status StoryStatus.in_sprint StoryStatus.in_sprint = true
same_story_status StoryStatus.done StoryStatus.done = true
same_story_status StoryStatus.failed StoryStatus.failed = true
same_story_status _ _ = false

abbrev pub same_pbi_status : PbiStatus → PbiStatus → Bool
same_pbi_status PbiStatus.ready PbiStatus.ready = true
same_pbi_status PbiStatus.blocked PbiStatus.blocked = true
same_pbi_status PbiStatus.failed PbiStatus.failed = true
same_pbi_status PbiStatus.done PbiStatus.done = true
same_pbi_status _ _ = false

abbrev pub same_sprint_status : SprintStatus → SprintStatus → Bool
same_sprint_status SprintStatus.opened SprintStatus.opened = true
same_sprint_status SprintStatus.closed SprintStatus.closed = true
same_sprint_status SprintStatus.archived SprintStatus.archived = true
same_sprint_status SprintStatus.failed SprintStatus.failed = true
same_sprint_status _ _ = false

-- The lists that the decisions are made on.
abbrev pub task_states : List Task → String → List TaskStatus
task_states tasks story = map (λ t. t.status) (select (λ t. t.story_id == story) tasks)

abbrev pub story_states : List Story → String → List StoryStatus
story_states stories pbi = map (λ s. s.status) (select (λ s. s.pbi_id == pbi) stories)

abbrev pub sprint_pbi_ids : List Story → String → List String
sprint_pbi_ids stories sprint =
    map (λ s. s.pbi_id) (select (λ s. is_text s.sprint_id sprint) stories)

abbrev pub pbi_states : List Story → List Pbi → String → List PbiStatus
pbi_states stories pbis sprint =
    map (λ p. p.status) (select (λ p. includes (sprint_pbi_ids stories sprint) p.id) pbis)

-- `tx.task.update`, which sets `updated_at` (`@updatedAt` in the schema) on every call.
pub update_task : String → TaskStatus → ℕ → Db → Option (Db × Task)
update_task id status now db = find_by (λ t. t.id) id db.tasks >>= λ t. some (
  record db {
    tasks = update_by (λ t. t.id) id (λ t. record t { status = status; updated_at = now }) db.tasks;
  },
  record t { status = status; updated_at = now },
)

pub update_story : Task → Db → Option (Db × Story × Bool)
update_story task db = find_by (λ s. s.id) task.story_id db.stories >>= λ story.
    let next = decide_story_status (task_states db.tasks task.story_id) (truthy story.sprint_id) in
    some (
      if same_story_status next story.status then (db, story, false) else (
        record db {
          stories = update_by (λ s. s.id) story.id (λ s. record s { status = next }) db.stories;
        },
        story,
        true,
      ))

pub update_pbi : Story → Db → Option (Db × Bool)
update_pbi story db = find_by (λ p. p.id) story.pbi_id db.pbis >>= λ pbi.
    let next = decide_pbi_status (story_states db.stories pbi.id) pbi.status in
    some (
      if is_blocked pbi.status || same_pbi_status next pbi.status then (db, false) else (
        record db { pbis = update_by (λ p. p.id) pbi.id (λ p. record p { status = next }) db.pbis },
        true,
      ))

abbrev pub completed : SprintStatus → ℕ → Option ℕ → Option ℕ
completed SprintStatus.closed now old = some now
completed _ now old = old

abbrev pub close_sprint : SprintStatus → ℕ → Sprint → Sprint
close_sprint next now s = record s {
  status = next;
  completed_at = completed next now s.completed_at;
}

set_sprint : ℕ → Db → Sprint → Db × Option SprintStatus
set_sprint now db sprint =
    let next = decide_sprint_status (pbi_states db.stories db.pbis sprint.id) in
    if same_sprint_status next sprint.status then (db, none) else (
      record db { sprints = update_by (λ s. s.id) sprint.id (close_sprint next now) db.sprints },
      some next,
    )

-- The new status of the sprint, where the story has one and it changed.
pub update_sprint : Option String → ℕ → Db → Option (Db × Option SprintStatus)
unfolding set_sprint
update_sprint none now db = some (db, none)
update_sprint (some id) now db =
    if id == ""
    then some (db, none)
    else (find_by (λ s. s.id) id db.sprints >>= λ sprint. some (set_sprint now db sprint))

abbrev pub is_active_run : RunStatus → Bool
is_active_run RunStatus.queued = true
is_active_run RunStatus.running = true
is_active_run RunStatus.paused = true
is_active_run _ = false

abbrev pub is_active_job : JobStatus → Bool
is_active_job JobStatus.queued = true
is_active_job JobStatus.claimed = true
is_active_job JobStatus.running = true
is_active_job _ = false

-- The run of a job that was found, with the job to spare.
abbrev pub run_of_job : Option Job → Option (String × Option String)
run_of_job none = none
run_of_job (some j) =
    if truthy j.sprint_run_id then Option.map (λ id. (id, some j.id)) j.sprint_run_id else none

-- The newest active run of a sprint.
abbrev pub active_run : Option String → Db → Option (String × Option String)
active_run sprint_id db =
    if truthy sprint_id
    then Option.map (λ (r : SprintRun). (r.id, none))
        (find? (λ r. is_text sprint_id r.sprint_id && is_active_run r.status) db.sprint_runs)
    else none

-- `sprintRunId`, else the run of the newest job of the task that has one, else the newest active
-- run of the story's sprint; with the job to spare.
unfoldable pub resolve_run :
    Option String → String → Option String → Db → Option (String × Option String)
resolve_run given task_id sprint_id db =
    if truthy given
    then Option.map (λ id. (id, none)) given
    else elim (run_of_job
        (find? (λ j. is_text j.task_id task_id && not (is_null j.sprint_run_id)) db.jobs)) [
          | some resolved ↦ some resolved
          | none ↦ active_run sprint_id db
        ]

abbrev pub to_cancel : String → Option String → Job → Bool
to_cancel run spare j =
    is_text j.sprint_run_id run
    && is_active_job j.status
    && not (truthy spare && is_text spare j.id)

abbrev pub cancel_job : String → ℕ → Job → Job
cancel_job task_id now j = record j {
  status = JobStatus.cancelled;
  finished_at = some now;
  cancelled_for = some task_id;
}

-- A job after the cascade, whether it is one of those to cancel or not.
pub cascade_job : String → Option String → String → ℕ → Job → Job
cascade_job run spare task_id now j = if to_cancel run spare j then cancel_job task_id now j else j

pub cancel_jobs : String → Option String → String → ℕ → List Job → List Job
cancel_jobs run spare task_id now [] = []
cancel_jobs run spare task_id now (j ∷ js) =
    cascade_job run spare task_id now j ∷ cancel_jobs run spare task_id now js

abbrev pub fail_run : String → ℕ → SprintRun → SprintRun
fail_run task_id now r = record r {
  status = RunStatus.failed;
  finished_at = some now;
  failed_task_id = some task_id;
}

abbrev pub finish_run : ℕ → SprintRun → SprintRun
finish_run now r = record r { status = RunStatus.done; finished_at = some now }

-- What happens to an active run when its sprint became FAILED or CLOSED.
pub settle_run : SprintStatus → SprintRun → Option String → String → ℕ → Db → Db × Bool
unfolding cancel_jobs
settle_run SprintStatus.failed run spare task_id now db = (
  record db {
    sprint_runs = update_by (λ r. r.id) run.id (fail_run task_id now) db.sprint_runs;
    jobs = cancel_jobs run.id spare task_id now db.jobs;
    notified = db.notified ++ map (λ j. j.id) (select (to_cancel run.id spare) db.jobs);
  },
  true,
)
settle_run SprintStatus.closed run spare task_id now db =
    (record db { sprint_runs = update_by (λ r. r.id) run.id (finish_run now) db.sprint_runs }, true)
settle_run _ run spare task_id now db = (db, false)

settle_active : SprintStatus → SprintRun → Option String → String → ℕ → Db → Db × Bool
unfolding settle_run
settle_active next run spare task_id now db =
    if is_active_run run.status then settle_run next run spare task_id now db else (db, false)

pub update_run : Option SprintStatus → Option String → String → Option String → ℕ → Db → Db × Bool
unfolding resolve_run settle_active
update_run none given task_id sprint_id now db = (db, false)
update_run (some next) given task_id sprint_id now db =
    elim (resolve_run given task_id sprint_id db) [
      | none ↦ (db, false)
      | some (id, spare) ↦ elim (find_by (λ r. r.id) id db.sprint_runs) [
        | none ↦ (db, false)
        | some run ↦ settle_active next run spare task_id now db
      ]
    ]

pub record PropagationResult : Type 0 where
  pub task : Task
  pub story_id : String
  pub story_changed : Bool
  pub pbi_changed : Bool
  pub sprint_changed : Bool
  pub sprint_run_changed : Bool

-- `propagateStatusUpwards`.
unfoldable pub propagate_status_upwards :
    String → TaskStatus → Option String → ℕ → Db → Option (Db × PropagationResult)
unfolding update_task update_story update_pbi update_sprint update_run
propagate_status_upwards task_id status given now db = do
  (db₁, task) ← update_task task_id status now db
  (db₂, story, story_changed) ← update_story task db₁
  (db₃, pbi_changed) ← update_pbi story db₂
  (db₄, sprint) ← update_sprint story.sprint_id now db₃
  let (db₅, run_changed) = update_run sprint given task_id story.sprint_id now db₄
  some (
    db₅,
    record {
      task = task;
      story_id = task.story_id;
      story_changed = story_changed;
      pbi_changed = pbi_changed;
      sprint_changed = not (is_null sprint);
      sprint_run_changed = run_changed;
    },
  )
