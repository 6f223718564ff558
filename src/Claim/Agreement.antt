-- ===== src/Claim/Agreement.antt =====
-- The two forms of the claim contract of src/dispatch/eligibility.ts, SQL and JavaScript, compared.
use scrum4me_mcp.Prelude.{
  ◌≡◌, ◌≢◌, ◌↔◌, refl, String, Bool, true, false, not, ◌&&◌, ◌||◌, Option, none, some, List, [],
  ◌∷◌, ◌==◌, eq_iff, arith, inl, inr, some?-never, includes, is_null, truthy, or_else, Bool-cases,
  if◌then◌else◌,
}
use scrum4me_mcp.Claim.Sql.{Tri, ◌or◌, ◌among?◌, sql_is_null, passes, sql_laws, includes?}
use scrum4me_mcp.Claim.Job.{ClaimJob, ClaimExecutor}
use scrum4me_mcp.Claim.Predicates
use scrum4me_mcp.Claim.Predicates.{
  harness_job, by_capabilities, ordinary_kind, dedicated, has_capability, to_upper_case,
  evaluate_claim_predicates, evaluate-nil_iff,
}
use scrum4me_mcp.Claim.Conditions
use scrum4me_mcp.Claim.Conditions.{
  Tables, Row, harness_where, deploy_where, docs_audit_where, only, generic_where, kind_filter,
  exists_incarnation, exists_earlier, claim_predicate_fragment,
}

-- An id that is present is not the empty text.
abbrev pub IsProperId : Option String → Type 0
IsProperId none = Unit
IsProperId (some t) = t ≢ ""

truthy-is_null : (o : Option String) → IsProperId o → not (truthy o) ≡ is_null o
truthy-is_null none h = refl
truthy-is_null (some t) h = ground (arith, eq_iff t "")

harness-agree : (j : ClaimJob) → passes (harness_where j) ≡ harness_job j
harness-agree j = simp sql_laws

regroup : (s p q c : Bool) → (s || p && c || q && c) ≡ (s || (p || (q || false)) && c)
regroup s p q c = ground arith

active-status :
    (o : Option String)
    → includes? ("QUEUED" ∷ "RUNNING" ∷ []) o ≡ includes ("QUEUED" ∷ "RUNNING" ∷ []) (or_else o "")
active-status none = refl
active-status (some t) = refl

-- The ids of a job that may be absent are proper where they are present.
pub record HasProperIds (j : ClaimJob) : Type 0 where
  pub task : IsProperId j.task_id
  pub idea : IsProperId j.idea_id
  pub sprint_run : IsProperId j.sprint_run_id

kind_filter-agree : (j : ClaimJob) → HasProperIds j → passes (kind_filter j) ≡ ordinary_kind j
kind_filter-agree j h =
    simp
      (
        sql_laws,
        active-status j.sprint_status,
        truthy-is_null j.task_id h.task,
        truthy-is_null j.idea_id h.idea,
        truthy-is_null j.sprint_run_id h.sprint_run,
      )
      (rw regroup)

pub kind-agree :
    (j : ClaimJob) (e : ClaimExecutor)
    → HasProperIds j
    → passes (Conditions.kind j e) ≡ Predicates.kind j e
unfolding Conditions.kind Predicates.kind
kind-agree j e h = elim (Bool-cases (e.runtime == "HARNESS")) [
  | inl p ↦ rw p
  | inr p ↦ elim (Bool-cases e.managed) [
    | inl m ↦ rw (p, m) (simp sql_laws)
    | inr m ↦ rw (p, m) (kind_filter-agree j h)
  ]
]

deploy-agree : (j : ClaimJob) → passes (deploy_where j) ≡ dedicated "deploy" j
unfolding to_upper_case
deploy-agree j = simp sql_laws

docs_audit-agree : (j : ClaimJob) → passes (docs_audit_where j) ≡ dedicated "docs_audit" j
unfolding to_upper_case
docs_audit-agree j = simp sql_laws

generic-agree :
    (cs : List String) (j : ClaimJob)
    → passes (generic_where cs j) ≡ has_capability j.required_capability cs
generic-agree [] j = no_capability j.required_capability
  where
    no_capability : (o : Option String) → is_null o ≡ has_capability o []
    no_capability none = refl
    no_capability (some c) = refl
generic-agree (c ∷ cs) j = any_capability j.required_capability
  where
    any_capability :
        (o : Option String)
        → passes (sql_is_null o or o among? (c ∷ cs)) ≡ has_capability o (c ∷ cs)
    any_capability none = refl
    any_capability (some d) = refl

abbrev pub where_of : List String → ClaimJob → Tri
where_of cs j =
    if only cs "deploy"
    then deploy_where j
    else if only cs "docs_audit"
    then docs_audit_where j
    else generic_where cs j

pub capabilities-agree :
    (cs : List String) (j : ClaimJob) → passes (where_of cs j) ≡ by_capabilities cs j
capabilities-agree [] j = generic-agree [] j
capabilities-agree (c ∷ []) j = elim (Bool-cases (c == "deploy")) [
  | inl p ↦ rw (p, (eq_iff c "deploy").0 p) (deploy-agree j)
  | inr p ↦ elim (Bool-cases (c == "docs_audit")) [
    | inl q ↦ rw (p, q, (eq_iff c "docs_audit").0 q) (docs_audit-agree j)
    | inr q ↦ rw (p, q) (generic-agree (c ∷ []) j)
  ]
]
capabilities-agree (c ∷ d ∷ cs) j = generic-agree (c ∷ d ∷ cs) j

pub capability-agree :
    (j : ClaimJob) (e : ClaimExecutor)
    → passes (Conditions.capability j e) ≡ Predicates.capability j e
unfolding Conditions.capability Predicates.capability
capability-agree j e = elim (Bool-cases (e.runtime == "HARNESS")) [
  | inl p ↦ rw p (harness-agree j)
  | inr p ↦ rw p (capabilities-agree e.capabilities j)
]

sprint-agree :
    (db : Tables) (r : Row) (e : ClaimExecutor)
    → HasProperIds r.job
    → r.job.earlier_sibling ≡ exists_earlier db r
    → passes (Conditions.sprint db r) ≡ Predicates.sprint r.job e
unfolding Conditions.sprint Predicates.sprint
sprint-agree db r e h same = simp (sql_laws, truthy-is_null r.job.sprint_run_id h.sprint_run, same)

quota-agree :
    (j : ClaimJob) (e : ClaimExecutor) → passes (Conditions.quota e) ≡ Predicates.quota j e
unfolding Predicates.quota
quota-agree j e = ground arith

-- The condition that only the SQL has for a managed worker: the incarnation is there, signed on, and
-- has the job's profile, not revoked, in its frozen scope.
abbrev pub HasIncarnation : Tables → ClaimJob → ClaimExecutor → Type 0
HasIncarnation db j e =
    (not e.managed || exists_incarnation db e.incarnation_id j.profile_revision_id) ≡ true

-- Without an id there is no incarnation.
exists_incarnation-none :
    (db : Tables) (profile : Option String) → exists_incarnation db none profile ≡ false
unfolding exists_incarnation
exists_incarnation-none db profile =
    some?-never _ (λ di. some?-never _ (λ dp. ground arith) db.profiles) db.incarnations

binding-agree :
    (db : Tables) (j : ClaimJob) (e : ClaimExecutor)
    → IsProperId e.incarnation_id
    → (passes (Conditions.binding db j e) ≡ true)
      ↔ ((Predicates.binding j e ≡ true) × HasIncarnation db j e)
unfolding Conditions.binding Predicates.binding
binding-agree db j e h =
    ground
      (arith, truthy-is_null e.incarnation_id h, exists_incarnation-none db j.profile_revision_id)

-- A row passes `buildClaimPredicateFragment` exactly when no JavaScript predicate fails and, for a
-- managed worker, its incarnation is live; where ids that are present are not empty and
-- `earlierSibling` is what the subquery over the sprint's jobs finds.
pub fragment_iff_predicates :
    (db : Tables) (e : ClaimExecutor) (r : Row)
    → HasProperIds r.job
    → IsProperId e.incarnation_id
    → r.job.earlier_sibling ≡ exists_earlier db r
    → (passes (claim_predicate_fragment db e r) ≡ true)
      ↔ ((evaluate_claim_predicates r.job e ≡ []) × HasIncarnation db r.job e)
unfolding claim_predicate_fragment
fragment_iff_predicates db e r h i same = ground (
  arith,
  evaluate-nil_iff r.job e,
  binding-agree db r.job e i,
  capability-agree r.job e,
  kind-agree r.job e h,
  sprint-agree db r e h same,
  quota-agree r.job e,
)
