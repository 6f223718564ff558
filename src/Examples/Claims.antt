-- ===== src/Examples/Claims.antt =====
-- A managed and an ordinary worker before a queued job (src/dispatch/eligibility.ts).
use mathlib.Core.List.{Memᴰ}
use scrum4me_mcp.Prelude.{◌≡◌, ◌↔◌, ◌⊎◌, refl, arith, true, false, none, some, [], ◌∷◌, eq_iff}
use scrum4me_mcp.Claim.Sql.{passes}
use scrum4me_mcp.Claim.Job.{ClaimJob, ClaimExecutor}
use scrum4me_mcp.Claim.Predicates
use scrum4me_mcp.Claim.Predicates.{evaluate_claim_predicates}
use scrum4me_mcp.Claim.Conditions
use scrum4me_mcp.Claim.Conditions.{Tables, Row, exists_earlier, claim_predicate_fragment}
use scrum4me_mcp.Claim.Agreement.{HasProperIds, IsProperId, HasIncarnation, fragment_iff_predicates}
use scrum4me_mcp.Claim.Queries.{
  ClaimFilterInput, where_clause, where_fragment, executor_of, clause-eq-fragment,
}
use scrum4me_mcp.Claim.Tier.{Worker, high_p, low_p, stands_before, defers, input_of}
use scrum4me_mcp.Claim.Tier.Progress.{IsReady, some_worker_claims}
use scrum4me_mcp.Claim.Tier.Guard.{query_of, tier_input, superior_can_claim}

abbrev job : ClaimJob
job = record {
  user_id = "u1";
  product_id = "p1";
  runtime = "CLAUDE";
  status = "QUEUED";
  kind = "IDEA_GRILL";
  source = "MANUAL";
  required_capability = some "docs";
  dispatch_request_id = none;
  profile_revision_id = none;
  sprint_run_id = none;
  sprint_status = none;
  earlier_sibling = false;
  task_id = none;
  idea_id = some "i1";
}

abbrev managed_job : ClaimJob
managed_job = record job {
  dispatch_request_id = some "d1";
  profile_revision_id = some "v1";
  kind = "TASK_IMPLEMENTATION";
  task_id = some "t1";
  idea_id = none;
}

abbrev tables : Tables
tables = record {
  incarnations = record { id = "n1"; signed_off = false; profile_revision_ids = "v1" ∷ [] } ∷ [];
  profiles = record { id = "v1"; revoked = false } ∷ [];
  jobs = [];
}

abbrev managed_row : Row
managed_row = record { job = managed_job; sprint_sequence = none }

abbrev managed_executor : ClaimExecutor
managed_executor = record {
  user_id = "u1";
  product_ids = "p1" ∷ [];
  runtime = "CLAUDE";
  capabilities = "docs" ∷ [];
  managed = true;
  incarnation_id = some "n1";
  profile_revision_ids = "v1" ∷ [];
  quota_pct = none;
  min_quota_pct = 0;
}

proper_incarnation : IsProperId (some "n1")
proper_incarnation = ground (arith, eq_iff "n1" "")

proper_task : IsProperId (some "t1")
proper_task = ground (arith, eq_iff "t1" "")

proper_idea : IsProperId (some "i1")
proper_idea = ground (arith, eq_iff "i1" "")

managed_ids : HasProperIds managed_job
managed_ids = record { task = proper_task; idea = tt; sprint_run = tt }

job_ids : HasProperIds job
job_ids = record { task = tt; idea = proper_idea; sprint_run = tt }

fragment_iff_predicates_example :
    (passes (claim_predicate_fragment tables managed_executor managed_row) ≡ true) ↔ (
      (evaluate_claim_predicates managed_job managed_executor ≡ [])
      × HasIncarnation tables managed_job managed_executor)
unfolding exists_earlier
fragment_iff_predicates_example =
    fragment_iff_predicates tables managed_executor managed_row managed_ids proper_incarnation refl

abbrev filter : ClaimFilterInput
filter = record {
  user_id = "u1";
  product_id = some "p1";
  runtime = "CLAUDE";
  capabilities = "docs" ∷ [];
}

clause-eq-fragment_example : where_clause filter job ≡ where_fragment tables filter job
clause-eq-fragment_example = clause-eq-fragment tables filter job

binds : Predicates.binding job (executor_of filter) ≡ true
unfolding Predicates.binding
binds = refl

abbrev other_filter : ClaimFilterInput
other_filter = record filter { capabilities = [] }

also_binds : Predicates.binding job (executor_of other_filter) ≡ true
unfolding Predicates.binding
also_binds = refl

fits : Predicates.capability job (executor_of filter) ≡ true
unfolding Predicates.capability
fits = refl

abbrev low_worker : Worker
low_worker = record {
  user_id = "u1";
  product_id = some "p1";
  runtime = "CLAUDE";
  instance_id = "w-low";
  capability = some low_p;
  capabilities = "docs" ∷ [];
  last_seen_at = 1000;
  last_quota_pct = none;
  min_quota_pct = none;
  has_live_job = false;
}

abbrev high_worker : Worker
high_worker = record low_worker { instance_id = "w-high"; capability = some high_p }

kept : passes (where_fragment tables filter job) ≡ true
unfolding where_fragment Conditions.binding Conditions.capability Conditions.kind
kept = refl

stands : passes (stands_before (tier_input filter "w-low" (some low_p)) 2000 job high_worker) ≡ true
unfolding stands_before
stands = refl

superior_can_claim_example : passes (where_fragment tables (query_of high_worker) job) ≡ true
superior_can_claim_example =
    superior_can_claim tables filter "w-low" (some low_p) 2000 job high_worker job_ids kept stands

low_kept : passes (where_fragment tables (query_of low_worker) job) ≡ true
unfolding where_fragment Conditions.binding Conditions.capability Conditions.kind
low_kept = refl

some_worker_claims_example :
    (v : Worker) × ((v ≡ low_worker) ⊎ (Memᴰ v (low_worker ∷ high_worker ∷ []) × IsReady 2000 v))
    × (passes (where_fragment tables (query_of v) job) ≡ true)
    × (defers (input_of v) 2000 job (low_worker ∷ high_worker ∷ []) ≡ false)
some_worker_claims_example =
    some_worker_claims tables 2000 job job_ids low_worker (low_worker ∷ high_worker ∷ []) low_kept
