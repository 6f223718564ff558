-- ===== src/Examples/JobLives.antt =====
-- Two tasks of a sprint run and a worker that claims the second one
-- (src/tools/wait-for-job.ts, src/tools/job-heartbeat.ts, src/tools/update-job-status.ts).
use scrum4me_mcp.Prelude.{
  ◌≡◌, refl, arith, String, Bool, true, false, none, some, [], ◌∷◌, ◌==◌, Bool-cases, inl, inr,
  subst, HasKeys, IsOrder, All, first_by, update_by, if◌then◌else◌,
}
use scrum4me_mcp.Claim.Conditions
use scrum4me_mcp.Claim.Conditions.{exists_earlier}
use scrum4me_mcp.Claim.Queries.{where_fragment}
use scrum4me_mcp.Report.Timestamps.{ReportedStatus}
use scrum4me_mcp.Jobs.Table.{JobRow, Db, job_of}
use scrum4me_mcp.Jobs.Claim.{
  Surroundings, Claimer, is_claimable, comes_before, claim_change, try_claim_job,
}
use scrum4me_mcp.Jobs.Claim.Outcome.{claim_takes_first}
use scrum4me_mcp.Jobs.Claim.Release.{owner_of, claim_then_release}
use scrum4me_mcp.Jobs.Rollback.{
  World, Ended, rollback_claim, release_mismatched_claim, skip_agent_chat_job, leased_until,
}
use scrum4me_mcp.Jobs.Sweep.{job_heartbeat, may_beat, reset_stale_claimed_jobs}
use scrum4me_mcp.Jobs.Status.{Fields, Refusal, Reported, admit_report, update_job_status}
use scrum4me_mcp.Jobs.Step.{Step, Steps, is_held, is_open, precedes}
use scrum4me_mcp.Jobs.Step.Change.{IsKeyed}
use scrum4me_mcp.Jobs.Step.Sequence.{IsSequential}
use scrum4me_mcp.Jobs.Step.Interleaved.{one_task_at_a_time}
use scrum4me_mcp.Jobs.Fence.{old_claimant_shut_out}
use scrum4me_mcp.Jobs.Late.{late_report_overwrites}
use scrum4me_mcp.Jobs.Lease.{beat_outlives_sweep}

abbrev done_task : JobRow
done_task = record {
  id = "j1";
  user_id = "u1";
  product_id = "p1";
  runtime = "CLAUDE";
  status = "DONE";
  kind = "TASK_IMPLEMENTATION";
  source = "SYSTEM";
  required_capability = none;
  dispatch_request_id = none;
  dispatch_candidate_id = none;
  sprint_run_id = some "r1";
  sprint_sequence = some 1;
  task_id = some "t1";
  idea_id = none;
  branch = none;
  created_at = 10;
  claimed_by_token_id = some "k1";
  worker_instance_id = some "i1";
  claimed_at = some 20;
  started_at = some 20;
  finished_at = some 30;
  plan_snapshot = some "";
  lease_until = some 300020;
  retry_count = 0;
  summary = none;
  error = none;
  chat_cutoff_message_id = none;
  chat_cutoff_at = none;
  resolved_at = none;
}

abbrev next_task : JobRow
next_task = record done_task {
  id = "j2";
  status = "QUEUED";
  sprint_sequence = some 2;
  task_id = some "t2";
  claimed_by_token_id = none;
  worker_instance_id = none;
  claimed_at = none;
  started_at = none;
  finished_at = none;
  plan_snapshot = none;
  lease_until = none;
}

abbrev tables_with : JobRow → Db
tables_with j = record {
  jobs = done_task ∷ j ∷ [];
  tasks = [];
  sprint_runs =
      record { id = "r1"; status = "RUNNING"; started_at = some 5; failure_reason = none } ∷ [];
  executions = [];
  chat_messages = [];
  notified = [];
}

abbrev db : Db
db = tables_with next_task

abbrev surroundings : Surroundings
surroundings = record { now = 100; locked = []; workers = []; id_before = λ a b. false }

abbrev worker : Claimer
worker = record {
  user_id = "u1";
  token_id = "k1";
  instance_id = "i1";
  product_id = none;
  runtime = "CLAUDE";
  capabilities = [];
  capability = none;
}

id-IsOrder : IsOrder surroundings.id_before
id-IsOrder = record { asym = λ a b h. refl; trans = λ a b c h k. refl }

keys : (j : JobRow) → j.id ≡ "j2" → IsKeyed (tables_with j)
unfolding HasKeys
keys j e = (rw e refl, (refl, tt))

takes_next : (try_claim_job surroundings worker db).1 ≡ some "j2"
unfolding try_claim_job where_fragment Conditions.binding Conditions.capability Conditions.kind
    Conditions.sprint exists_earlier first_by
takes_next = refl

claim_takes_first_example :
    (j : JobRow) × (job_of db "j2" ≡ some j)
    × (is_claimable surroundings worker db j ≡ true)
    × All
        (λ r. is_claimable surroundings worker db r ≡ true → comes_before surroundings r j ≡ false)
        db.jobs
    × ((i : String)
        → job_of (try_claim_job surroundings worker db).0 i
          ≡ (if "j2" == i then some (claim_change surroundings worker db j j) else job_of db i))
claim_takes_first_example =
    claim_takes_first surroundings worker db id-IsOrder (keys next_task refl) takes_next

claim_then_release_example :
    job_of
      (release_mismatched_claim "j2"
        (some (owner_of worker))
        (try_claim_job surroundings worker db).0)
      "j2"
    ≡ some next_task
claim_then_release_example =
    claim_then_release surroundings worker db (keys next_task refl) takes_next refl refl "j2"

stored_row : {a b : JobRow} → some a ≡ some b → a ≡ b
stored_row h = cc

free : (k : String) {b : JobRow} → job_of db k ≡ some b → is_held b ≡ false
free k {b} at_k = elim (Bool-cases ("j1" == k)) [
  | inl e ↦ subst (λ (r : JobRow). is_held r ≡ false) (stored_row (rw e at at_k)) refl
  | inr e ↦ elim (Bool-cases ("j2" == k)) [
    | inl f ↦ subst (λ (r : JobRow). is_held r ≡ false) (stored_row (rw (e, f) at at_k)) refl
    | inr f ↦ cc (rw (e, f) at at_k)
  ]
]

never : {A : Type 0} {b : Bool} → b ≡ false → b ≡ true → A
never p q = cc

sequential : IsSequential db
sequential = record { in_order = λ i k at_i at_k before held. never (free k at_k) held }

one_task_at_a_time_example : is_open done_task ≡ false
unfolding precedes try_claim_job where_fragment Conditions.binding Conditions.capability
    Conditions.kind Conditions.sprint exists_earlier first_by update_by
one_task_at_a_time_example =
    one_task_at_a_time
      (Steps.cons (Step.claimed surroundings worker db)
        (Steps.nil (try_claim_job surroundings worker db).0))
      (keys next_task refl) sequential "j1" "j2" refl refl refl refl

abbrev held_task : JobRow
held_task = record next_task {
  status = "CLAIMED";
  claimed_by_token_id = some "k1";
  worker_instance_id = some "i1";
  claimed_at = some 100;
  started_at = some 100;
  lease_until = some 300100;
  retry_count = 1;
}

abbrev taken_over : JobRow
taken_over = record held_task {
  claimed_by_token_id = some "k2";
  worker_instance_id = some "i2";
  claimed_at = some 400100;
  lease_until = some 700100;
}

abbrev world : World
world = record { meanwhile = λ w d. d; clock = λ w. 400200; has_repo_root = λ p r. true }

abbrev no_fields : Fields
no_fields = record { branch = none; summary = none; error = none }

old_claimant_shut_out_example :
    (rollback_claim world (some (owner_of worker)) "j2" 400200 (tables_with taken_over)
      ≡ record { db = tables_with taken_over; effects = []; ended = Ended.ownership_lost })
    × (release_mismatched_claim "j2" (some (owner_of worker)) (tables_with taken_over)
        ≡ tables_with taken_over)
    × (skip_agent_chat_job "j2" (some (owner_of worker)) "gone" 400200 (tables_with taken_over)
        ≡ tables_with taken_over)
    × (job_heartbeat "j2" "k1" 400200 (tables_with taken_over) ≡ (tables_with taken_over, none))
    × ((r : Refusal) × (update_job_status
            (λ d. d)
            "k1"
            "j2"
            ReportedStatus.done
            no_fields
            400200
            (tables_with taken_over)
          ≡ Reported.rejected r))
old_claimant_shut_out_example =
    old_claimant_shut_out (tables_with taken_over) (keys taken_over refl) "j2" refl
      (owner_of worker) refl world "gone" 400200 (λ d. d) ReportedStatus.done no_fields

late_report_overwrites_example :
    (d : Db) × (update_job_status
        (λ d. tables_with taken_over)
        "k1"
        "j2"
        ReportedStatus.done
        no_fields
        400200
        (tables_with held_task)
      ≡ Reported.written (some d))
    × (row : JobRow) × (job_of d "j2" ≡ some row)
    × (row.status ≡ "DONE")
    × (row.claimed_by_token_id ≡ some "k2")
    × (row.worker_instance_id ≡ some "i2")
unfolding admit_report
late_report_overwrites_example =
    late_report_overwrites (λ d. tables_with taken_over) "k1" "j2" ReportedStatus.done no_fields
      400200 (tables_with held_task) refl refl

answered : (job_heartbeat "j2" "k1" 200000 (tables_with held_task)).1 ≡ some none
unfolding job_heartbeat
answered = refl

beat_outlives_sweep_example :
    (j : JobRow) × (job_of (tables_with held_task) "j2" ≡ some j)
    × (may_beat "k1" j ≡ true)
    × (job_of (job_heartbeat "j2" "k1" 200000 (tables_with held_task)).0 "j2"
        ≡ some (leased_until 500000 j))
    × (job_of
          (reset_stale_claimed_jobs "u1" 400000 400001
            (job_heartbeat "j2" "k1" 200000 (tables_with held_task)).0).0
          "j2"
        ≡ some (leased_until 500000 j))
beat_outlives_sweep_example =
    beat_outlives_sweep "j2" "k1" 200000 (tables_with held_task) (keys held_task refl) answered "u1"
      400000 400001 (omega arith) (omega arith)
