-- ===== src/Examples/Statuses.antt =====
-- A story of two tasks in a sprint with an active run (src/lib/tasks-status-update.ts).
use scrum4me_mcp.Prelude.{
  ◌≡◌, refl, true, false, Option, none, some, [], ◌∷◌, find_by, update_by, map, select, ◌++◌, inl,
  inr, if◌then◌else◌,
}
use scrum4me_mcp.Flow.Effects.{RunStatus, running as status_running, done as status_done}
use scrum4me_mcp.Status.Decisions.{
  TaskStatus, SprintStatus, StoryStatus, PbiStatus, decide_story_status, decide_pbi_status,
}
use scrum4me_mcp.Status.Store.{Db, SprintRun, Task, Job, JobStatus}
use scrum4me_mcp.Status.Propagate.{PropagationResult, propagate_status_upwards, update_run}
use scrum4me_mcp.Status.Propagate.Consistency.{IsSettled, propagate-IsSettled}
use scrum4me_mcp.Status.Promotion.{
  UpdateTaskStatusResult, as_update, update_task_status_with_story_promotion,
}
use scrum4me_mcp.Status.Propagate.Cascade.{is_other_open, failed_sprint_cascades}

abbrev task : Task
task = record {
  id = "t1";
  title = "Build";
  status = TaskStatus.in_progress;
  story_id = "s1";
  implementation_plan = none;
  updated_at = 3;
}

abbrev active_run : SprintRun
active_run = record {
  id = "r1";
  sprint_id = "sp1";
  status = status_running;
  finished_at = none;
  failed_task_id = none;
}

abbrev done_run : SprintRun
done_run = record active_run { id = "r0"; status = status_done; finished_at = some 1 }

abbrev own_job : Job
own_job = record {
  id = "j1";
  task_id = some "t1";
  sprint_run_id = some "r1";
  status = JobStatus.running;
  finished_at = none;
  cancelled_for = none;
}

abbrev next_job : Job
next_job = record own_job { id = "j2"; task_id = some "t2"; status = JobStatus.queued }

abbrev db : Db
db = record {
  tasks = task ∷ record task { id = "t2"; status = TaskStatus.to_do } ∷ [];
  stories =
      record { id = "s1"; status = StoryStatus.in_sprint; pbi_id = "b1"; sprint_id = some "sp1" }
      ∷ [];
  pbis = record { id = "b1"; status = PbiStatus.ready } ∷ [];
  sprints = record { id = "sp1"; status = SprintStatus.opened; completed_at = none } ∷ [];
  sprint_runs = active_run ∷ done_run ∷ [];
  jobs = next_job ∷ own_job ∷ [];
  notified = [];
}

abbrev no_result : PropagationResult
no_result = record {
  task = task;
  story_id = "";
  story_changed = false;
  pbi_changed = false;
  sprint_changed = false;
  sprint_run_changed = false;
}

abbrev after_failure : Option (Db × PropagationResult)
after_failure = propagate_status_upwards "t1" TaskStatus.failed none 9 db

abbrev failed_db : Db
failed_db = elim after_failure [ none ↦ db | some (d, r) ↦ d ]

abbrev failed_result : PropagationResult
failed_result = elim after_failure [ none ↦ no_result | some (d, r) ↦ r ]

commits :
    propagate_status_upwards "t1" TaskStatus.failed none 9 db ≡ some (failed_db, failed_result)
unfolding propagate_status_upwards decide_story_status decide_pbi_status update_by
commits = refl

propagate-IsSettled_example :
    (find_by (λ t. t.id) "t1" failed_db.tasks ≡ some failed_result.task)
    × (failed_result.task.status ≡ TaskStatus.failed)
    × IsSettled failed_db failed_result.task
propagate-IsSettled_example =
    propagate-IsSettled "t1" TaskStatus.failed none 9 db failed_db failed_result commits

failed_sprint_cascades_example :
    ((update_run (some SprintStatus.failed) none "t1" (some "sp1") 9 db).1 ≡ true)
    × (find_by
          (λ r. r.id)
          "r1"
          (update_run (some SprintStatus.failed) none "t1" (some "sp1") 9 db).0.sprint_runs
        ≡ some (record active_run {
          status = RunStatus.failed;
          finished_at = some 9;
          failed_task_id = some "t1";
        }))
    × ((update_run (some SprintStatus.failed) none "t1" (some "sp1") 9 db).0.jobs
        ≡ map
            (λ j.
              if is_other_open "r1" own_job j
              then record j {
                status = JobStatus.cancelled;
                finished_at = some 9;
                cancelled_for = some "t1";
              }
              else j)
            db.jobs)
    × ((update_run (some SprintStatus.failed) none "t1" (some "sp1") 9 db).0.notified
        ≡ [] ++ map (λ j. j.id) (select (is_other_open "r1" own_job) db.jobs))
failed_sprint_cascades_example =
    failed_sprint_cascades none "t1" (some "sp1") 9 db refl refl refl refl refl refl
      (inr (inl refl))

abbrev first_update : UpdateTaskStatusResult
first_update = as_update TaskStatus.failed failed_result

updates :
    update_task_status_with_story_promotion "t1" TaskStatus.failed none 9 db
    ≡ some (failed_db, first_update)
unfolding update_task_status_with_story_promotion propagate_status_upwards decide_story_status
    decide_pbi_status update_by
updates = refl
