-- ===== src/Jobs/Rollback.antt =====
-- src/tools/wait-for-job.ts: a claim that is given back (`rollbackClaim`, `releaseMismatchedClaim`)
-- and a claim that is ended (`skipAgentChatJob`, `markJobTerminallyFailed`).
use scrum4me_mcp.Prelude.{
  ℕ, ◌+◌, String, Bool, true, false, not, ◌&&◌, Option, none, some, List, [], ◌∷◌, ◌++◌, ◌==◌,
  nat_eq, includes, is_null, is_text, truthy, map, select, some?, update_by, if◌then◌else◌,
}
use scrum4me_mcp.Jobs.Table.{
  JobRow, TaskRow, SprintRunRow, Db, job_of, task_of, held_statuses, is_managed,
}

-- The claim by which a worker fences itself.
pub record Owner : Type 0 where
  pub token_id : String
  pub instance_id : String

-- What is done outside the database.
pub data Effect : Type 0 where
  release_locks : String → Effect
  backup_push : String → String → Effect
  remove_worktree : String → Effect

-- The columns of a job that is queued again.
abbrev pub requeued_row : JobRow → JobRow
requeued_row j = record j {
  status = "QUEUED";
  claimed_by_token_id = none;
  claimed_at = none;
  started_at = none;
  plan_snapshot = none;
  worker_instance_id = none;
  lease_until = none;
}

-- The guard of `rollbackClaim`'s updates, the id apart.
unfoldable pub is_owned_by : Option Owner → JobRow → Bool
is_owned_by none j = is_null j.dispatch_request_id
is_owned_by (some o) j =
    is_null j.dispatch_request_id
    && is_text j.claimed_by_token_id o.token_id
    && is_text j.worker_instance_id o.instance_id
    && includes held_statuses j.status

-- An update of the rows with an id that pass a guard, and whether there was one.
abbrev pub guarded : (JobRow → Bool) → String → (JobRow → JobRow) → JobRow → JobRow
guarded p id change j = if j.id == id && p j then change j else j

abbrev pub hits : (JobRow → Bool) → String → Db → Bool
hits p id db = some? (λ j. j.id == id && p j) db.jobs

abbrev pub rollback_lease : ℕ
rollback_lease = 120000

abbrev pub leased_until : ℕ → JobRow → JobRow
leased_until t j = record j { lease_until = some t }

-- `refreshOwnership`: without an owner there is nothing to lose.
unfoldable pub refresh_ownership : Option Owner → String → ℕ → Db → Db × Bool
refresh_ownership none id now db = (db, true)
refresh_ownership (some o) id now db = (
  record db {
    jobs = map (guarded (is_owned_by (some o)) id (leased_until (now + rollback_lease))) db.jobs;
  },
  hits (is_owned_by (some o)) id db,
)

-- The last step, by which the job can be claimed again.
unfoldable pub publish_queued : Option Owner → String → Db → Db
publish_queued owner id db = record db {
  jobs = map (guarded (is_owned_by owner) id requeued_row) db.jobs;
  notified = if hits (is_owned_by owner) id db then db.notified ++ id ∷ [] else db.notified;
}

-- Where a rollback waits for git or the database, other processes may change the tables.
pub data Wait : Type 0 where
  pushed executions_deleted worktree_removed : Wait

pub record World : Type 0 where
  pub meanwhile : Wait → Db → Db
  pub clock : Wait → ℕ
  -- `resolveRepoRoot` of a product and of the task's repository.
  pub has_repo_root : String → Option String → Bool

pub data Ended : Type 0 where
  ownership_lost refused finished : Ended

pub record Rollback : Type 0 where
  pub db : Db
  pub effects : List Effect
  pub ended : Ended

abbrev repo_of : Db → JobRow → Option String
repo_of db j = elim (task_of db j.task_id) [ none ↦ none | some t ↦ t.repo_url ]

abbrev removal : World → Db → Option JobRow → String → List Effect
removal w read none id = []
removal w read (some j) id =
    if truthy (some j.product_id) && w.has_repo_root j.product_id (repo_of read j)
    then remove_worktree id ∷ []
    else []

abbrev safety_push : Option JobRow → String → List Effect
safety_push none id = []
safety_push (some j) id = elim j.branch [
  | none ↦ []
  | some b ↦ if truthy (some b) then backup_push id b ∷ [] else []
]

-- From the last check on, which gives the tables and whether the caller still owns the claim; `job`
-- is the row as it was read after the first check.
unfoldable pub finish_rollback :
    World → Option Owner → String → Db → Option JobRow → List Effect → Db × Bool → Rollback
unfolding publish_queued
finish_rollback w owner id read job effects (db, false) = record {
  db = db;
  effects = effects;
  ended = ownership_lost;
}
finish_rollback w owner id read job effects (db, true) = record {
  db = publish_queued owner id (w.meanwhile worktree_removed db);
  effects = effects ++ removal w read job id;
  ended = finished;
}

abbrev is_sprint_job : Option JobRow → Bool
is_sprint_job none = false
is_sprint_job (some j) = j.kind == "SPRINT_IMPLEMENTATION"

abbrev pub without_executions : String → Db → Db
without_executions id db = record db {
  executions = select (λ e. not (e.sprint_job_id == id)) db.executions;
}

-- The executions of a sprint job, from the check before they are deleted on.
unfoldable pub delete_executions :
    World → Option Owner → String → Db → Option JobRow → List Effect → Db × Bool → Rollback
unfolding finish_rollback refresh_ownership
delete_executions w owner id read job effects (db, false) = record {
  db = db;
  effects = effects;
  ended = ownership_lost;
}
delete_executions w owner id read job effects (db, true) =
    finish_rollback w owner id read job effects (
      refresh_ownership owner id (w.clock executions_deleted)
        (w.meanwhile executions_deleted (without_executions id db)))

unfoldable pub rollback_read : World → Option Owner → String → Db → Option JobRow → Rollback
unfolding delete_executions finish_rollback refresh_ownership
rollback_read w owner id read job =
    let effects = safety_push job id in
    let db = w.meanwhile pushed read in
    if is_sprint_job job
    then delete_executions w owner id read job effects
        (refresh_ownership owner id (w.clock pushed) db)
    else finish_rollback w owner id read job effects
        (refresh_ownership owner id (w.clock executions_deleted) db)

abbrev managed_row : Db → Option JobRow → Bool
managed_row db none = false
managed_row db (some j) = is_managed db j

-- After the first check.
unfoldable pub rollback_checked : World → Option Owner → String → Db × Bool → Rollback
unfolding rollback_read is_managed
rollback_checked w owner id (db, false) = record { db = db; effects = []; ended = ownership_lost }
rollback_checked w owner id (db, true) =
    if managed_row db (job_of db id)
    then record { db = db; effects = []; ended = refused }
    else rollback_read w owner id db (job_of db id)

-- `rollbackClaim`; a managed job makes it throw.
unfoldable pub rollback_claim : World → Option Owner → String → ℕ → Db → Rollback
unfolding rollback_checked refresh_ownership
rollback_claim w owner id now db = rollback_checked w owner id (refresh_ownership owner id now db)

-- The check of `releaseMismatchedClaim` on the locked row.
unfoldable pub is_claimed_by : Owner → JobRow → Bool
is_claimed_by o j =
    j.status == "CLAIMED"
    && is_text j.claimed_by_token_id o.token_id
    && is_text j.worker_instance_id o.instance_id

-- `t.updated_at = cj.claimed_at`; NULL is equal to nothing.
abbrev same_time : Option ℕ → Option ℕ → Bool
same_time (some a) (some b) = nat_eq a b
same_time _ _ = false

-- A task that this claim promoted goes back.
unfoldable pub demote : JobRow → TaskRow → TaskRow
demote j t =
    if is_text j.task_id t.id && t.status == "IN_PROGRESS" && same_time t.updated_at j.claimed_at
    then record t { status = "TO_DO" }
    else t

unfoldable pub release_found : String → Owner → Option JobRow → Db → Db
unfolding demote
release_found id o none db = db
release_found id o (some j) db =
    if is_claimed_by o j
    then record db {
      jobs = update_by (λ r. r.id) id requeued_row db.jobs;
      tasks = map (demote j) db.tasks;
      notified = db.notified ++ id ∷ [];
    }
    else db

-- `releaseMismatchedClaim`.
unfoldable pub release_mismatched_claim : String → Option Owner → Db → Db
unfolding release_found is_claimed_by
release_mismatched_claim id none db = db
release_mismatched_claim id (some o) db = release_found id o (job_of db id) db

-- `...(owner ? { claimed_by_token_id, worker_instance_id } : {})`.
unfoldable pub may_skip : Option Owner → JobRow → Bool
may_skip none j = j.status == "CLAIMED"
may_skip (some o) j =
    j.status == "CLAIMED"
    && is_text j.claimed_by_token_id o.token_id
    && is_text j.worker_instance_id o.instance_id

-- `getFullJobContext` counts a review whose diff could not be read, by the id alone.
unfoldable pub count_retry : String → Db → Db
count_retry id db = record db {
  jobs = update_by (λ j. j.id) id (λ j. record j { retry_count = j.retry_count + 1 }) db.jobs;
}

abbrev pub ended_row : String → String → ℕ → JobRow → JobRow
ended_row status error now j = record j {
  status = status;
  finished_at = some now;
  error = some error;
}

-- `skipAgentChatJob`.
unfoldable pub skip_agent_chat_job : String → Option Owner → String → ℕ → Db → Db
unfolding may_skip
skip_agent_chat_job id owner reason now db = record db {
  jobs = map (guarded (may_skip owner) id (ended_row "SKIPPED" reason now)) db.jobs;
  notified = if hits (may_skip owner) id db then db.notified ++ id ∷ [] else db.notified;
}

abbrev failed_run : String → SprintRunRow → SprintRunRow
failed_run reason r = record r { status = "FAILED"; failure_reason = some reason }

-- `markJobTerminallyFailed`, `none` where it throws: the job is managed or is not there. `reason` is
-- trimmed to 2000 code units by the caller of the model.
unfoldable pub fail_found : String → String → ℕ → Option JobRow → Db → Option (Db × List Effect)
unfolding is_managed
fail_found id reason now none db = none
fail_found id reason now (some j) db =
    if is_managed db j
    then none
    else some (
      record db {
        jobs = update_by (λ r. r.id) id (ended_row "FAILED" reason now) db.jobs;
        sprint_runs = elim j.sprint_run_id [
          | none ↦ db.sprint_runs
          | some run ↦
              if j.kind == "SPRINT_IMPLEMENTATION" && truthy (some run)
              then update_by (λ r. r.id) run (failed_run reason) db.sprint_runs
              else db.sprint_runs
        ];
        notified = db.notified ++ id ∷ [];
      },
      release_locks id ∷ [],
    )

unfoldable pub mark_job_terminally_failed : String → String → ℕ → Db → Option (Db × List Effect)
unfolding fail_found
mark_job_terminally_failed id reason now db = fail_found id reason now (job_of db id) db
