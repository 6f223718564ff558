-- ===== src/Examples/WorkItems.antt =====
-- A task of a story in a sprint, asked for with its sprint (src/queue/work-item.ts).
use scrum4me_mcp.Prelude.{◌≡◌, refl, none, some, [], ◌∷◌}
use scrum4me_mcp.Queue.WorkItem.{WorkItemInput}
use scrum4me_mcp.Queue.WorkItem.Resolve.{
  StoryRow, Backlog, found, not_in_sprint, given, resolve_work_item, IsResolved,
  resolve_work_item-IsResolved,
}

abbrev story : StoryRow
story = record { id = "story"; sprint_id = some "sprint"; product_id = "product" }

abbrev loose_story : StoryRow
loose_story = record { id = "loose"; sprint_id = none; product_id = "product" }

abbrev backlog : Backlog
backlog = record {
  tasks = record { id = "task"; story = story } ∷ record { id = "other"; story = loose_story } ∷ [];
  stories = story ∷ loose_story ∷ [];
  sprints = record { id = "sprint"; product_id = "product" } ∷ [];
}

abbrev of_task : WorkItemInput
of_task = record { sprint_id = some "sprint"; story_id = some ""; task_id = some "task" }

resolves_task :
    resolve_work_item backlog of_task
    ≡ found (record {
      product_id = "product";
      sprint_id = some "sprint";
      story_id = some "story";
      task_id = some "task";
    })
unfolding resolve_work_item
resolves_task = refl

refuses_sprint :
    resolve_work_item backlog (record of_task { task_id = some "other" }) ≡ not_in_sprint "sprint"
unfolding resolve_work_item
refuses_sprint = refl

resolve_work_item-IsResolved_example :
    IsResolved backlog
      (given (some "sprint"))
      (given (some ""))
      (given (some "task"))
      (resolve_work_item backlog of_task)
resolve_work_item-IsResolved_example = resolve_work_item-IsResolved backlog of_task
