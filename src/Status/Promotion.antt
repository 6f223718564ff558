-- ===== src/Status/Promotion.antt =====
-- src/lib/tasks-status-update.ts, `updateTaskStatusWithStoryPromotion`.
use scrum4me_mcp.Prelude.{ℕ, String, Bool, true, false, Option, none, some, if◌then◌else◌, ◌>>=◌}
use scrum4me_mcp.Status.Decisions.{TaskStatus, task_done}
use scrum4me_mcp.Status.Store.{Db, Task}
use scrum4me_mcp.Status.Propagate.{PropagationResult, propagate_status_upwards}

pub data StoryStatusChange : Type 0 where
  promoted demoted : StoryStatusChange

pub record UpdateTaskStatusResult : Type 0 where
  pub task : Task
  pub story_status_change : Option StoryStatusChange
  pub story_id : String
  pub sprint_run_changed : Bool

abbrev story_change : Bool → TaskStatus → Option StoryStatusChange
story_change false status = none
story_change true status = some (if task_done status then promoted else demoted)

abbrev pub as_update : TaskStatus → PropagationResult → UpdateTaskStatusResult
as_update status r = record {
  task = r.task;
  story_status_change = story_change r.story_changed status;
  story_id = r.story_id;
  sprint_run_changed = r.sprint_run_changed;
}

unfoldable pub update_task_status_with_story_promotion :
    String → TaskStatus → Option String → ℕ → Db → Option (Db × UpdateTaskStatusResult)
update_task_status_with_story_promotion task_id status given now db = do
  (db', r) ← propagate_status_upwards task_id status given now db
  some (db', as_update status r)
