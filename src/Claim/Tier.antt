-- ===== src/Claim/Tier.antt =====
-- src/dispatch/eligibility.ts, `buildHigherTierIdleFragment`: a worker leaves a job alone while an
-- idle worker of a strictly higher tier could claim it. Times are in milliseconds.
pub mod Progress
pub mod Guard
use text.Mathlib.Text.{starts_with}
use mathlib.Core.List.{Memᴰ}
use scrum4me_mcp.Prelude.{
  ℕ, ◌+◌, ◌≤◌, ◌<◌, ◌≡◌, ◌⊎◌, refl, subst, String, Bool, true, false, not, ◌&&◌, ◌||◌, Option, none,
  some, List, [], ◌∷◌, ◌==◌, eq_iff, arith, ltb, leb, includes, inl, inr, All, All-imp, some?,
  Bool-cases, or_else, if◌then◌else◌,
}
use scrum4me_mcp.Claim.Sql.{
  Tri, ◌and◌, ◌or◌, sql_not, ◌eq◌, ◌ne◌, ◌among◌, ◌eq?◌, ◌among?◌, sql_is_null, passes, passes-and,
}
use scrum4me_mcp.Claim.Job.{ClaimJob, ClaimExecutor}
use scrum4me_mcp.Claim.Conditions.{Tables, deploy_where, docs_audit_where, only}
use scrum4me_mcp.Claim.Queries.{ClaimFilterInput, where_fragment}

pub data Tier : Type 0 where
  high_p medium_p low_p : Tier

-- `CASE … WHEN 'HIGH_P' THEN 3 WHEN 'MEDIUM_P' THEN 2 WHEN 'LOW_P' THEN 1 END`; NULL matches none.
abbrev pub priority : Tier → ℕ
priority high_p = 3
priority medium_p = 2
priority low_p = 1

abbrev pub outranks : Option Tier → Option Tier → Tri
outranks (some a) (some b) = some (ltb (priority b) (priority a))
outranks _ _ = none

-- A row of `claude_workers`, with its user's quota, and whether it has a CLAIMED or RUNNING job.
pub record Worker : Type 0 where
  pub user_id : String
  pub product_id : Option String
  pub runtime : String
  pub instance_id : String
  pub capability : Option Tier
  pub capabilities : List String
  pub last_seen_at : ℕ
  pub last_quota_pct : Option ℕ
  pub min_quota_pct : Option ℕ
  pub has_live_job : Bool

-- `HigherTierIdleInput`.
pub record TierInput : Type 0 where
  pub self_user_id : String
  pub self_instance_id : String
  pub self_runtime : String
  pub self_capability : Option Tier

-- The claimability guard, `CASE WHEN w.capabilities = ARRAY['deploy'] THEN … END`.
unfoldable pub could_claim : List String → ClaimJob → Tri
could_claim cs cj =
    if only cs "deploy"
    then cj.kind eq "DEPLOY"
      and cj.required_capability eq? "deploy"
      and cj.source among ("SYSTEM" ∷ "MANUAL" ∷ [])
    else if only cs "docs_audit"
    then cj.kind eq "DOCS_AUDIT"
      and cj.required_capability eq? "docs_audit"
      and cj.source among ("SYSTEM" ∷ "MANUAL" ∷ [])
    else sql_is_null cj.required_capability or cj.required_capability among? cs

abbrev within_quota : Worker → Tri
within_quota w = elim w.last_quota_pct [
  | none ↦ some true
  | some pct ↦ some (leb (or_else w.min_quota_pct 0) pct)
]

abbrev scope_of : Option String → String → Tri
scope_of none p = some true
scope_of (some q) p = q eq p

-- The WHERE clause of the subquery, for a worker `w` that may stand in the way.
unfoldable pub stands_before : TierInput → ℕ → ClaimJob → Worker → Tri
unfolding could_claim
stands_before i now cj w =
    w.user_id eq i.self_user_id
    and scope_of w.product_id cj.product_id
    and w.runtime eq i.self_runtime
    and w.instance_id ne i.self_instance_id
    and sql_not (some (starts_with w.instance_id "managed:"))
    and outranks w.capability i.self_capability
    and could_claim w.capabilities cj
    and some (ltb now (w.last_seen_at + 30000))
    and within_quota w
    and sql_not (some w.has_live_job)

-- `NOT EXISTS (…)` fails: the claim is left to another worker.
unfoldable pub defers : TierInput → ℕ → ClaimJob → List Worker → Bool
unfolding stands_before
defers i now cj ws = some? (λ w. passes (stands_before i now cj w)) ws

abbrev pub input_of : Worker → TierInput
input_of w = record {
  self_user_id = w.user_id;
  self_instance_id = w.instance_id;
  self_runtime = w.runtime;
  self_capability = w.capability;
}
