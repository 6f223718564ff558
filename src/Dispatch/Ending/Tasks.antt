-- ===== src/Dispatch/Ending/Tasks.antt =====
-- src/dispatch/task-status.ts: the task of a request and the statuses above it. The rows are those of
-- the status module.
use scrum4me_mcp.Prelude.{
  ℕ, String, Bool, true, false, not, ◌&&◌, Option, none, some, ◌==◌, find_by, update_by, truthy,
  if◌then◌else◌,
}
use scrum4me_mcp.Status.Decisions.{
  TaskStatus, SprintStatus, decide_story_status, decide_pbi_status, decide_sprint_status,
}
use scrum4me_mcp.Status.Store.{Task, Story, Pbi, Sprint, Db}
use scrum4me_mcp.Status.Propagate.{task_states, story_states, pbi_states}
use scrum4me_mcp.Dispatch.Ending.Table.{found, Tx, done, ◌then◌}

-- `lockManagedTaskHierarchy`: without its story the read of `story.pbi_id` throws.
unfoldable pub lock_managed_task_hierarchy : String → Db → Tx (Task × Story)
lock_managed_task_hierarchy task_id db =
    found "DISPATCH_STATE_CONFLICT" (find_by (λ t. t.id) task_id db.tasks) then λ task.
    found "TypeError" (find_by (λ s. s.id) task.story_id db.stories) then λ story.
    done (task, story)

abbrev is_closed : SprintStatus → Bool
is_closed SprintStatus.closed = true
is_closed _ = false

abbrev closed_row : SprintStatus → ℕ → Sprint → Sprint
closed_row next now s = record s {
  status = next;
  completed_at = if is_closed next && not (is_closed s.status) then some now else s.completed_at;
}

abbrev project_sprint : Option String → ℕ → Db → Db
project_sprint none now db = db
project_sprint (some sprint) now db =
    if sprint == ""
    then db
    else (let next = decide_sprint_status (pbi_states db.stories db.pbis sprint) in
        record db { sprints = update_by (λ s. s.id) sprint (closed_row next now) db.sprints })

abbrev project_story : Story → Db → Db
project_story story db =
    let next = decide_story_status (task_states db.tasks story.id) (truthy story.sprint_id) in
    record db {
      stories = update_by (λ s. s.id) story.id (λ s. record s { status = next }) db.stories;
    }

abbrev project_pbi : Pbi → Db → Db
project_pbi pbi db =
    let next = decide_pbi_status (story_states db.stories pbi.id) pbi.status in
    record db { pbis = update_by (λ p. p.id) pbi.id (λ p. record p { status = next }) db.pbis }

-- `projectManagedTaskStatus`.
unfoldable pub project_managed_task_status : String → TaskStatus → ℕ → Db → Tx Db
unfolding lock_managed_task_hierarchy
project_managed_task_status task_id status now db =
    lock_managed_task_hierarchy task_id db then λ (task, story).
    found "TypeError" (find_by (λ p. p.id) story.pbi_id db.pbis) then λ pbi.
    let tasks = update_by (λ t. t.id) task_id (λ t. record t { status = status }) db.tasks in
    done (
      project_sprint story.sprint_id now
        (project_pbi pbi (project_story story (record db { tasks = tasks }))))
