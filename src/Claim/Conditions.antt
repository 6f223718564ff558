-- ===== src/Claim/Conditions.antt =====
-- src/dispatch/eligibility.ts, `claimConditionSql`: the contract as PostgreSQL evaluates it on a row
-- of `claude_jobs cj`, left joined to the sprint run `sr` and, for a managed worker, joined to the
-- candidate `dc`. Every column of `ClaimJob` that is no `Option` there is NOT NULL.
use scrum4me_mcp.Prelude.{
  ℕ, String, Bool, true, false, not, ◌&&◌, Option, none, some, List, [], ◌∷◌, ◌==◌, ltb, leb, some?,
  includes, is_text, if◌then◌else◌,
}
use scrum4me_mcp.Claim.Sql.{
  Tri, ◌and◌, ◌or◌, sql_not, ◌eq◌, ◌ne◌, ◌among◌, ◌eq?◌, ◌among?◌, sql_is_null, includes?,
}
use scrum4me_mcp.Claim.Job.{ClaimJob, ClaimExecutor}
use scrum4me_mcp.Claim.Predicates.{standalone_kinds, system_or_manual}

-- The rows that the subqueries read: `queue_dispatch_incarnations`, `queue_dispatch_profiles`, and
-- the other rows of `claude_jobs`.
pub record Incarnation : Type 0 where
  pub id : String
  pub signed_off : Bool
  pub profile_revision_ids : List String

pub record Profile : Type 0 where
  pub id : String
  pub revoked : Bool

pub record SprintJob : Type 0 where
  pub sprint_run_id : Option String
  pub kind : String
  pub sprint_sequence : Option ℕ
  pub status : String

pub record Tables : Type 0 where
  pub incarnations : List Incarnation
  pub profiles : List Profile
  pub jobs : List SprintJob

-- A candidate row: the columns of `ClaimJob`, but for `earlier_sibling`, which SQL computes.
pub record Row : Type 0 where
  pub job : ClaimJob
  pub sprint_sequence : Option ℕ

abbrev pub lt? : Option ℕ → Option ℕ → Bool
lt? (some a) (some b) = ltb a b
lt? _ _ = false

abbrev pub same? : Option String → Option String → Bool
same? (some a) (some b) = a == b
same? _ _ = false

-- The conditions of the subquery: a NULL among them drops the row.
abbrev pub earlier : Row → SprintJob → Bool
earlier r x =
    same? x.sprint_run_id r.job.sprint_run_id
    && x.kind == "TASK_IMPLEMENTATION"
    && lt? x.sprint_sequence r.sprint_sequence
    && includes ("QUEUED" ∷ "CLAIMED" ∷ "RUNNING" ∷ []) x.status

-- `EXISTS (SELECT 1 FROM claude_jobs earlier WHERE …)`.
unfoldable pub exists_earlier : Tables → Row → Bool
exists_earlier db r = some? (earlier r) db.jobs

-- `EXISTS (SELECT 1 FROM queue_dispatch_incarnations di JOIN queue_dispatch_profiles dp … )`.
unfoldable pub exists_incarnation : Tables → Option String → Option String → Bool
exists_incarnation db incarnation profile =
    some? (λ di. some? (fits di) db.profiles) db.incarnations
  where
    fits : Incarnation → Profile → Bool
    fits di dp =
        is_text profile dp.id
        && is_text incarnation di.id
        && not di.signed_off
        && not dp.revoked
        && includes? di.profile_revision_ids profile

abbrev pub user : ClaimJob → ClaimExecutor → Tri
user cj e = cj.user_id eq e.user_id

abbrev pub product : ClaimJob → ClaimExecutor → Tri
product cj e = cj.product_id among e.product_ids

abbrev pub runtime : ClaimJob → ClaimExecutor → Tri
runtime cj e = cj.runtime eq e.runtime

abbrev pub queued : ClaimJob → ClaimExecutor → Tri
queued cj e = cj.status eq "QUEUED"

unfoldable pub binding : Tables → ClaimJob → ClaimExecutor → Tri
binding db cj e =
    if e.managed
    then sql_not (sql_is_null cj.dispatch_request_id)
      and cj.profile_revision_id among? e.profile_revision_ids
      and some (exists_incarnation db e.incarnation_id cj.profile_revision_id)
    else sql_is_null cj.dispatch_request_id

abbrev pub harness_where : ClaimJob → Tri
harness_where cj =
    sql_is_null cj.required_capability
    and (cj.kind eq "IDEA_CHAT" and cj.source eq "SYSTEM"
        or cj.kind eq "TASK_IMPLEMENTATION"
          and cj.source eq "COPILOT"
          and sql_is_null cj.sprint_run_id
        or cj.kind eq "AGENT_CHAT" and cj.source eq "MANUAL")

abbrev pub deploy_where : ClaimJob → Tri
deploy_where cj =
    cj.required_capability eq? "deploy" and cj.kind eq "DEPLOY" and cj.source among system_or_manual

abbrev pub docs_audit_where : ClaimJob → Tri
docs_audit_where cj =
    cj.required_capability eq? "docs_audit"
    and cj.kind eq "DOCS_AUDIT"
    and cj.source among system_or_manual

-- `e.capabilities.length === 1 && e.capabilities[0] === c`.
abbrev pub only : List String → String → Bool
only (x ∷ []) c = x == c
only _ c = false

abbrev pub generic_where : List String → ClaimJob → Tri
generic_where [] cj = sql_is_null cj.required_capability
generic_where (c ∷ cs) cj =
    sql_is_null cj.required_capability or cj.required_capability among? (c ∷ cs)

unfoldable pub capability : ClaimJob → ClaimExecutor → Tri
capability cj e =
    if e.runtime == "HARNESS"
    then harness_where cj
    else if only e.capabilities "deploy"
    then deploy_where cj
    else if only e.capabilities "docs_audit"
    then docs_audit_where cj
    else generic_where e.capabilities cj

-- `CLAIMABLE_JOB_KIND_FILTER`; `sr.status` is NULL where the job has no sprint run.
abbrev pub kind_filter : ClaimJob → Tri
kind_filter cj =
    cj.kind among standalone_kinds and cj.source ne "ORCHESTRATOR"
    or cj.kind eq "DEPLOY" and cj.source among system_or_manual
    or cj.kind eq "DOCS_AUDIT" and cj.source among system_or_manual
    or cj.kind eq "PLAN_CHAT"
      and cj.source eq "ORCHESTRATOR"
      and sql_is_null cj.task_id
      and sql_is_null cj.idea_id
      and sql_is_null cj.sprint_run_id
    or cj.kind eq "TASK_IMPLEMENTATION" and cj.source among ("MANUAL" ∷ "COPILOT" ∷ [])
    or cj.kind among ("TASK_IMPLEMENTATION" ∷ "SPRINT_IMPLEMENTATION" ∷ [])
      and sql_not (sql_is_null cj.sprint_run_id)
      and cj.sprint_status among? ("QUEUED" ∷ "RUNNING" ∷ [])

unfoldable pub kind : ClaimJob → ClaimExecutor → Tri
kind cj e =
    if e.runtime == "HARNESS"
    then some true
    else if e.managed
    then cj.source eq "COPILOT"
      and cj.kind among ("QUEUE_TASK" ∷ "QUEUE_REVIEW" ∷ "TASK_IMPLEMENTATION" ∷ [])
      and sql_is_null cj.sprint_run_id
    else kind_filter cj

unfoldable pub sprint : Tables → Row → Tri
sprint db r =
    r.job.kind ne "TASK_IMPLEMENTATION"
    or sql_is_null r.job.sprint_run_id
    or sql_not (some (exists_earlier db r))

abbrev pub quota : ClaimExecutor → Tri
quota e = elim e.quota_pct [ none ↦ some true | some pct ↦ some (leb e.min_quota_pct pct) ]

-- `buildClaimPredicateFragment`: the conditions in the order of `claimPredicates`, joined by AND.
unfoldable pub claim_predicate_fragment : Tables → ClaimExecutor → Row → Tri
claim_predicate_fragment db e r =
    user r.job e
    and product r.job e
    and runtime r.job e
    and queued r.job e
    and binding db r.job e
    and capability r.job e
    and kind r.job e
    and sprint db r
    and quota e
