-- ===== src/Jobs/Step/Interleaved.antt =====
-- Any interleaving of the commits of src/tools/wait-for-job.ts, src/tools/job-heartbeat.ts and
-- src/tools/update-job-status.ts.
use scrum4me_mcp.Prelude.{
  ◌≡◌, ◌⊎◌, sym, subst, ◌∙◌, String, true, false, some, inl, inr, arith, HasKeys, map-HasKeys,
  update_by, update_by-map, updated,
}
use scrum4me_mcp.Jobs.Table.{JobRow, Db, job_of}
use scrum4me_mcp.Jobs.Claim.{Surroundings, Claimer, is_claimable, claim_change}
use scrum4me_mcp.Jobs.Step.{Step, Steps, is_held, is_open, precedes}
use scrum4me_mcp.Jobs.Step.Change.{IsKeyed, Change, Change-same}
use scrum4me_mcp.Jobs.Step.Others.{
  Change-fail_stale, Change-retry_stale, Change-fail_run_of, Change-job_heartbeat,
  Change-refresh_ownership, Change-publish_queued, Change-release, Change-skip, Change-fail,
  Change-cleaned, Change-count_retry,
}
use scrum4me_mcp.Jobs.Step.Reports.{Change-report, Change-deploy, Change-audit}
use scrum4me_mcp.Jobs.Step.Claims.{claim-cases}
use scrum4me_mcp.Jobs.Step.Sequence.{
  IsSequential, Change-IsSequential, claim-IsSequential, claim_change-place,
}

-- A claim that wrote the row of a claimable job.
record IsClaim (db db' : Db) : Type 0 where
  by : Surroundings
  who : Claimer
  job : JobRow
  here : job_of db job.id ≡ some job
  claimable : is_claimable by who db job ≡ true
  wrote : db'.jobs ≡ update_by (λ r. r.id) job.id (claim_change by who db job) db.jobs

step-cases : {db db' : Db} → Step db db' → IsKeyed db → Change db db' ⊎ IsClaim db db'
step-cases (Step.claimed s c db) keys = elim (claim-cases s c db keys) [
  | inl same ↦ inl (Change-same db _ same)
  | inr (j, here, claimable, e) ↦
      inr (record { by = s; who = c; job = j; here = here; claimable = claimable; wrote = e })
]
step-cases (Step.gave_up user now db) keys = inl (Change-fail_stale user now db)
step-cases (Step.tried_again user now db) keys = inl (Change-retry_stale user now db)
step-cases (Step.run_failed j db) keys = inl (Change-fail_run_of j db)
step-cases (Step.beat id token now db) keys = inl (Change-job_heartbeat id token now db)
step-cases (Step.checked o id now db) keys = inl (Change-refresh_ownership o id now db)
step-cases (Step.cleaned id db) keys = inl (Change-cleaned id db)
step-cases (Step.requeued o id db) keys = inl (Change-publish_queued o id db)
step-cases (Step.released id o db) keys = inl (Change-release id o db)
step-cases (Step.skipped id o reason now db) keys = inl (Change-skip id o reason now db)
step-cases (Step.counted id db) keys = inl (Change-count_retry id db)
step-cases (Step.failed id reason now db h) keys = inl (Change-fail id reason now db h)
step-cases (Step.reported token id actual fields now db h) keys =
    inl (Change-report token id actual fields now db h)
step-cases (Step.deployed status product id fields now db) keys =
    inl (Change-deploy status product id fields now db)
step-cases (Step.audited trim read_date marker token id i summary now db) keys =
    inl (Change-audit trim read_date marker token id i summary now db)

claim-IsKeyed : {db db' : Db} → IsClaim db db' → IsKeyed db → IsKeyed db'
claim-IsKeyed {db} c keys =
    let change = claim_change c.by c.who db c.job in
    subst (HasKeys (λ (j : JobRow). j.id))
      (sym (c.wrote ∙ update_by-map (λ (j : JobRow). j.id) c.job.id change db.jobs))
      (map-HasKeys (λ (j : JobRow). j.id) (updated (λ (j : JobRow). j.id) c.job.id change)
        (λ j. ground (arith, (claim_change-place c.by c.who db c.job j).1)) db.jobs keys)

step-IsKeyed : {db db' : Db} → Step db db' → IsKeyed db → IsKeyed db'
step-IsKeyed st keys = elim (step-cases st keys) [
  | inl c ↦ c.keyed keys
  | inr c ↦ claim-IsKeyed c keys
]

step-IsSequential : {db db' : Db} → Step db db' → IsKeyed db → IsSequential db → IsSequential db'
step-IsSequential {db} {db'} st keys seq = elim (step-cases st keys) [
  | inl c ↦ Change-IsSequential c seq
  | inr c ↦ claim-IsSequential c.by c.who db db' c.job c.here c.claimable c.wrote seq
]

steps-IsSequential : {db db' : Db} → Steps db db' → IsKeyed db → IsSequential db → IsSequential db'
steps-IsSequential (Steps.nil db) keys seq = seq
steps-IsSequential (Steps.cons st rest) keys seq =
    steps-IsSequential rest (step-IsKeyed st keys) (step-IsSequential st keys seq)

-- However the commits of `Step` interleave, which are claims, heartbeats, sweeps, rollbacks, releases,
-- skips, failures, counted retries and reports whose write directly follows their check: while a
-- worker holds a task of a sprint run, no task that stands before it in the run's sequence is queued
-- or held. The ids are keys, and it was so at the start. A report that writes later than it checked
-- is not among the steps.
pub one_task_at_a_time :
    {db db' : Db}
    → Steps db db'
    → IsKeyed db
    → IsSequential db
    → (i k : String) {a b : JobRow} → job_of db' i ≡ some a
    → job_of db' k ≡ some b
    → precedes a b ≡ true
    → is_held b ≡ true
    → is_open a ≡ false
one_task_at_a_time run keys seq i k at_i at_k before held =
    (steps-IsSequential run keys seq).in_order i k at_i at_k before held
