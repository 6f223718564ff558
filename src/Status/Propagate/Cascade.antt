-- ===== src/Status/Propagate/Cascade.antt =====
-- src/lib/tasks-status-update.ts, the last step of `propagateStatusUpwards`: what a failed or a
-- closed sprint does to its run and to the open jobs of the run.
use scrum4me_mcp.Prelude.{
  ℕ, ◌≡◌, ◌⊎◌, refl, ap, ◌∙◌, String, Bool, true, false, not, ◌&&◌, Option, none, some, List, [],
  ◌∷◌, ◌++◌, ◌==◌, arith, find_by, find?, select, update_by, map, is_text, is_null, truthy,
  find_by-update_by, find_by-update_by_self, find_by-id, eq_iff, Option-cases, inl, inr,
  if◌then◌else◌,
}
use scrum4me_mcp.Flow.Effects.{RunStatus}
use scrum4me_mcp.Status.Decisions.{SprintStatus}
use scrum4me_mcp.Status.Store.{SprintRun, Job, JobStatus, Db}
use scrum4me_mcp.Status.Propagate.{
  is_active_run, is_active_job, resolve_run, to_cancel, cancel_job, cascade_job, cancel_jobs,
  fail_run, finish_run, settle_run, settle_active, update_run,
}

-- The job is queued, claimed or running.
abbrev pub open_job : JobStatus → Bool
open_job JobStatus.queued = true
open_job JobStatus.claimed = true
open_job JobStatus.running = true
open_job JobStatus.done = false
open_job JobStatus.failed = false
open_job JobStatus.cancelled = false
open_job JobStatus.skipped = false

-- Another job than `own` of the run, that is queued, claimed or running.
abbrev pub is_other_open : String → Job → Job → Bool
is_other_open run own j = is_text j.sprint_run_id run && open_job j.status && not (own.id == j.id)

module _ (run : String) (own : Job) (named : truthy (some own.id) ≡ true) where
  to_cancel-other : (j : Job) → to_cancel run (some own.id) j ≡ is_other_open run own j
  to_cancel-other j = rw named (same j.status)
    where
      same :
          (s : JobStatus)
          → (is_text j.sprint_run_id run && is_active_job s && not (own.id == j.id))
            ≡ (is_text j.sprint_run_id run && open_job s && not (own.id == j.id))
      same s = ground arith

  cancel_jobs-map :
      (task_id : String) (now : ℕ) (jobs : List Job)
      → cancel_jobs run (some own.id) task_id now jobs
        ≡ map
            (λ j.
              if is_other_open run own j
              then record j {
                status = JobStatus.cancelled;
                finished_at = some now;
                cancelled_for = some task_id;
              }
              else j)
            jobs
  unfolding cancel_jobs cascade_job
  cancel_jobs-map task_id now [] = refl
  cancel_jobs-map task_id now (j ∷ js) = λ i.
      (if to_cancel-other j i then cancel_job task_id now j else j)
      ∷ cancel_jobs-map task_id now js i

  cancelled_ids :
      (jobs : List Job)
      → map (λ (j : Job). j.id) (select (to_cancel run (some own.id)) jobs)
        ≡ map (λ (j : Job). j.id) (select (is_other_open run own) jobs)
  cancelled_ids [] = refl
  cancelled_ids (j ∷ js) = rw (to_cancel-other j) (ground (arith, cancelled_ids js))

module _ (given : Option String) (task_id : String) (sprint_id : Option String) (now : ℕ)
    (db : Db) where
  abbrev fail_sprint : Db × Bool
  fail_sprint = update_run (some SprintStatus.failed) given task_id sprint_id now db

  resolves_own :
      {own : Job} {id : String}
      → truthy given ≡ false
      → find? (λ j. is_text j.task_id task_id && not (is_null j.sprint_run_id)) db.jobs ≡ some own
      → own.sprint_run_id ≡ some id
      → truthy (some id) ≡ true
      → resolve_run given task_id sprint_id db ≡ some (id, some own.id)
  unfolding resolve_run
  resolves_own none_given newest of_run known = rw (none_given, newest, of_run, known) refl

  fails :
      (own : Job) {id : String} {run : SprintRun}
      → resolve_run given task_id sprint_id db ≡ some (id, some own.id)
      → find_by (λ r. r.id) id db.sprint_runs ≡ some run
      → is_active_run run.status ≡ true
      → fail_sprint ≡ settle_run SprintStatus.failed run (some own.id) task_id now db
  unfolding update_run settle_active
  fails own resolved found live = ground arith

  -- A sprint became FAILED, no run was given, and `own`, the newest job of the failed task that is in
  -- a run, is in a run that is queued, running or paused. Then the change of the run is reported and
  -- the run is stored as FAILED with the time and the failed task. Every other job of the run that was
  -- queued, claimed or running is cancelled with the time and in the failed task's name, and these
  -- jobs are the ones notified, in the order of the table; `own` and all other jobs are as they were.
  pub failed_sprint_cascades :
      {own : Job} {id : String} {run : SprintRun}
      → truthy given ≡ false
      → find? (λ j. is_text j.task_id task_id && not (is_null j.sprint_run_id)) db.jobs ≡ some own
      → own.sprint_run_id ≡ some id
      → truthy (some id) ≡ true
      → truthy (some own.id) ≡ true
      → find_by (λ r. r.id) id db.sprint_runs ≡ some run
      → (run.status ≡ RunStatus.queued)
        ⊎ (run.status ≡ RunStatus.running)
        ⊎ (run.status ≡ RunStatus.paused)
      → (fail_sprint.1 ≡ true)
        × (find_by (λ r. r.id) id fail_sprint.0.sprint_runs
            ≡ some (record run {
              status = RunStatus.failed;
              finished_at = some now;
              failed_task_id = some task_id;
            }))
        × (fail_sprint.0.jobs
            ≡ map
                (λ j.
                  if is_other_open id own j
                  then record j {
                    status = JobStatus.cancelled;
                    finished_at = some now;
                    cancelled_for = some task_id;
                  }
                  else j)
                db.jobs)
        × (fail_sprint.0.notified
            ≡ db.notified ++ map (λ j. j.id) (select (is_other_open id own) db.jobs))
  unfolding settle_run
  failed_sprint_cascades {own} {id} {run} none_given newest of_run known named found active =
      let resolved = resolves_own none_given newest of_run known in
      let same = find_by-id (λ (r : SprintRun). r.id) id db.sprint_runs found in
      let live : is_active_run run.status ≡ true = elim active [
        | inl e ↦ ap is_active_run e
        | inr (inl e) ↦ ap is_active_run e
        | inr (inr e) ↦ ap is_active_run e
      ] in
      let run_fails = fails own resolved found live in
      (
        ap (λ r. r.1) run_fails,
        ap (λ r. find_by (λ (x : SprintRun). x.id) id r.0.sprint_runs) run_fails
            ∙ ap
                (λ i.
                  find_by (λ (r : SprintRun). r.id) id
                    (update_by (λ r. r.id) i (fail_run task_id now) db.sprint_runs))
                same
            ∙ find_by-update_by_self (λ (r : SprintRun). r.id) (fail_run task_id now) (λ r. refl) id
                db.sprint_runs found,
        ap (λ r. r.0.jobs) run_fails ∙ rw same (cancel_jobs-map id own named task_id now db.jobs),
        ap (λ r. r.0.notified) run_fails
            ∙ rw same (ap (λ ids. db.notified ++ ids) (cancelled_ids id own named db.jobs)),
      )

  -- A run that is done, failed or cancelled is stored unchanged, whatever the sprint became.
  inactive_run_kept :
      (next : Option SprintStatus) (id : String) {run : SprintRun}
      → find_by (λ r. r.id) id db.sprint_runs ≡ some run
      → is_active_run run.status ≡ false
      → find_by (λ r. r.id) id (update_run next given task_id sprint_id now db).0.sprint_runs
        ≡ some run
  unfolding update_run settle_active settle_run
  inactive_run_kept none id found inactive = found
  inactive_run_kept (some next) id {run} found inactive =
      elim (Option-cases (resolve_run given task_id sprint_id db)) [
        | inl e ↦ ground arith
        | inr ((r, spare), e) ↦
            elim (Option-cases (find_by (λ (r : SprintRun). r.id) r db.sprint_runs)) [
              | inl k ↦ ground arith
              | inr (row, k) ↦ ground (
                arith,
                find_by-id (λ (r : SprintRun). r.id) r db.sprint_runs k,
                find_by-update_by (λ (r : SprintRun). r.id) (fail_run task_id now) (λ r. refl) r id
                    db.sprint_runs,
                find_by-update_by (λ (r : SprintRun). r.id) (finish_run now) (λ r. refl) r id
                    db.sprint_runs,
                eq_iff r id,
              )
            ]
      ]
