-- ===== src/Claim/Job.antt =====
-- src/dispatch/eligibility.ts, `ClaimJob` and `ClaimExecutor`: a job as the claim sees it, and who
-- claims. A nullable or optional field is an `Option`.
use scrum4me_mcp.Prelude.{ℕ, String, Bool, Option, List}

pub record ClaimJob : Type 0 where
  pub user_id : String
  pub product_id : String
  pub runtime : String
  pub status : String
  pub kind : String
  pub source : String
  pub required_capability : Option String
  pub dispatch_request_id : Option String
  pub profile_revision_id : Option String
  pub sprint_run_id : Option String
  pub sprint_status : Option String
  pub earlier_sibling : Bool
  pub task_id : Option String
  pub idea_id : Option String

pub record ClaimExecutor : Type 0 where
  pub user_id : String
  pub product_ids : List String
  pub runtime : String
  pub capabilities : List String
  pub managed : Bool
  pub incarnation_id : Option String
  pub profile_revision_ids : List String
  pub quota_pct : Option ℕ
  pub min_quota_pct : ℕ
