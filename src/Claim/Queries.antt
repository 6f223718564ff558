-- ===== src/Claim/Queries.antt =====
-- src/dispatch/eligibility.ts, `buildClaimableJobWhereClause` and `buildClaimableJobWhereFragment`:
-- the WHERE clause of an ordinary (not managed) worker, as text and as composed conditions.
use scrum4me_mcp.Prelude.{
  ◌≡◌, ◌↔◌, ◌⊎◌, refl, subst, String, Bool, true, false, ◌&&◌, ◌||◌, Option, none, some, List, [],
  ◌∷◌, ◌==◌, eq_iff, arith, sym, includes, inl, inr, Bool-cases, if◌then◌else◌,
}
use scrum4me_mcp.Claim.Sql.{Tri, ◌and◌, ◌or◌, ◌eq◌, ◌among?◌, sql_is_null, passes}
use scrum4me_mcp.Claim.Job.{ClaimJob, ClaimExecutor}
use scrum4me_mcp.Claim.Predicates
use scrum4me_mcp.Claim.Predicates.{
  system_or_manual, ordinary_kind, by_capabilities, dedicated, to_upper_case,
}
use scrum4me_mcp.Claim.Conditions
use scrum4me_mcp.Claim.Conditions.{
  Tables, harness_where, deploy_where, docs_audit_where, only, kind_filter,
}
use scrum4me_mcp.Claim.Agreement.{HasProperIds, where_of, capability-agree, kind-agree}

-- `ClaimSqlFilterInput`; a worker with no product scope has no `product_id`.
pub record ClaimFilterInput : Type 0 where
  pub user_id : String
  pub product_id : Option String
  pub runtime : String
  pub capabilities : List String

abbrev pub product_scope : Option String → ClaimJob → Tri
product_scope none cj = some true
product_scope (some p) cj = cj.product_id eq p

abbrev head_of : ClaimFilterInput → ClaimJob → Tri
head_of i cj =
    cj.user_id eq i.user_id
    and product_scope i.product_id cj
    and cj.runtime eq i.runtime
    and cj.status eq "QUEUED"
    and sql_is_null cj.dispatch_request_id

abbrev capability_filter : List String → ClaimJob → Tri
capability_filter [] cj = sql_is_null cj.required_capability
capability_filter (c ∷ cs) cj =
    sql_is_null cj.required_capability or cj.required_capability among? (c ∷ cs)

-- The text of `buildClaimableJobWhereClause`; a part that is left out is TRUE.
unfoldable pub where_clause : ClaimFilterInput → ClaimJob → Tri
where_clause i cj =
    if i.runtime == "HARNESS"
    then head_of i cj and harness_where cj
    else if only i.capabilities "deploy"
    then head_of i cj and deploy_where cj
    else if only i.capabilities "docs_audit"
    then head_of i cj and docs_audit_where cj
    else head_of i cj and capability_filter i.capabilities cj and kind_filter cj

-- The executor that `buildClaimableJobWhereFragment` makes up for the worker.
abbrev pub executor_of : ClaimFilterInput → ClaimExecutor
executor_of i = record {
  user_id = i.user_id;
  product_ids = elim i.product_id [ none ↦ [] | some p ↦ p ∷ [] ];
  runtime = i.runtime;
  capabilities = i.capabilities;
  managed = false;
  incarnation_id = none;
  profile_revision_ids = [];
  quota_pct = none;
  min_quota_pct = 0;
}

-- `e.capabilities.length === 1 && ['deploy', 'docs_audit'].includes(e.capabilities[0])`.
abbrev pub is_dedicated : List String → Bool
is_dedicated (c ∷ []) = includes ("deploy" ∷ "docs_audit" ∷ []) c
is_dedicated _ = false

unfoldable pub where_fragment : Tables → ClaimFilterInput → ClaimJob → Tri
where_fragment db i cj =
    let e = executor_of i in
    Conditions.user cj e
    and product_scope i.product_id cj
    and Conditions.runtime cj e
    and Conditions.queued cj e
    and Conditions.binding db cj e
    and Conditions.capability cj e
    and (if e.runtime == "HARNESS" || is_dedicated e.capabilities
        then some true
        else Conditions.kind cj e)

and-true : (t : Tri) → (t and some true) ≡ t
and-true (some true) = refl
and-true (some false) = refl
and-true none = refl

dedicated-agree :
    (t : Tri) (cs : List String) (cj : ClaimJob)
    → (if only cs "deploy"
        then t and deploy_where cj
        else if only cs "docs_audit"
        then t and docs_audit_where cj
        else t and capability_filter cs cj and kind_filter cj)
      ≡ (t and where_of cs cj and (if is_dedicated cs then some true else kind_filter cj))
dedicated-agree t [] cj = refl
dedicated-agree t (c ∷ []) cj = elim (Bool-cases (c == "deploy")) [
  | inl p ↦ rw p (sym (and-true (t and deploy_where cj)))
  | inr p ↦ elim (Bool-cases (c == "docs_audit")) [
    | inl q ↦ rw (p, q) (sym (and-true (t and docs_audit_where cj)))
    | inr q ↦ rw (p, q)
  ]
]
dedicated-agree t (c ∷ d ∷ cs) cj = refl

-- The text and the composed conditions are the same condition for every worker and every row, NULL
-- where it is NULL.
pub clause-eq-fragment :
    (db : Tables) (i : ClaimFilterInput) (cj : ClaimJob)
    → where_clause i cj ≡ where_fragment db i cj
unfolding where_clause where_fragment Conditions.binding Conditions.capability Conditions.kind
clause-eq-fragment db i cj = elim (Bool-cases (i.runtime == "HARNESS")) [
  | inl p ↦ rw p (sym (and-true (head_of i cj and harness_where cj)))
  | inr p ↦ rw p (dedicated-agree (head_of i cj) i.capabilities cj)
]

ordinary-deploy :
    (j : ClaimJob)
    → (j.kind ≡ "DEPLOY") ⊎ (j.kind ≡ "DOCS_AUDIT")
    → includes system_or_manual j.source ≡ true
    → ordinary_kind j ≡ true
ordinary-deploy j (inl e) h = rw e (rw h)
ordinary-deploy j (inr e) h = rw e (rw h)

dedicated→kind :
    (cs : List String) (j : ClaimJob)
    → is_dedicated cs ≡ true
    → by_capabilities cs j ≡ true
    → ordinary_kind j ≡ true
unfolding to_upper_case
dedicated→kind [] j d h = cc
dedicated→kind (c ∷ []) j d h = elim (Bool-cases (c == "deploy")) [
  | inl p ↦
      let h' : dedicated "deploy" j ≡ true =
        subst (λ x. by_capabilities (x ∷ []) j ≡ true) ((eq_iff c "deploy").0 p) h in
      ordinary-deploy j (inl (ground (arith, eq_iff j.kind "DEPLOY", h'))) (ground (arith, h'))
  | inr p ↦ elim (Bool-cases (c == "docs_audit")) [
    | inl q ↦
        let h' : dedicated "docs_audit" j ≡ true =
          subst (λ x. by_capabilities (x ∷ []) j ≡ true) ((eq_iff c "docs_audit").0 q) h in
        ordinary-deploy j (inr (ground (arith, eq_iff j.kind "DOCS_AUDIT", h')))
          (ground (arith, h'))
    | inr q ↦ ground arith
  ]
]
dedicated→kind (c ∷ b ∷ cs) j d h = cc

-- The conditions of a dedicated or HARNESS worker already imply the kind condition that the
-- fragment leaves out.
capability→kind :
    (j : ClaimJob) (e : ClaimExecutor)
    → e.managed ≡ false
    → (e.runtime == "HARNESS" || is_dedicated e.capabilities) ≡ true
    → Predicates.capability j e ≡ true
    → Predicates.kind j e ≡ true
unfolding Predicates.capability Predicates.kind
capability→kind j e m d h = elim (Bool-cases (e.runtime == "HARNESS")) [
  | inl p ↦ rw p
  | inr p ↦ rw (p, m) (dedicated→kind e.capabilities j (rw p at d) (rw p at h))
]

abbrev pub in_scope : Option String → ClaimJob → Bool
in_scope none j = true
in_scope (some p) j = j.product_id == p

-- A row passes the fragment exactly when it is in the product scope and the predicates on user,
-- runtime, status, binding, capability and kind hold for the ordinary worker; so leaving the kind
-- condition out for HARNESS, deploy and docs-audit workers lets no other kind through.
pub fragment_iff_ordinary :
    (db : Tables) (i : ClaimFilterInput) (j : ClaimJob)
    → HasProperIds j
    → let e = executor_of i in
      (passes (where_fragment db i j) ≡ true) ↔ (
        (in_scope i.product_id j
          && Predicates.user j e
          && Predicates.runtime j e
          && Predicates.queued j e
          && Predicates.binding j e
          && Predicates.capability j e
          && Predicates.kind j e)
        ≡ true)
unfolding where_fragment Conditions.binding Predicates.binding
fragment_iff_ordinary db i j h = ground (
  arith,
  capability-agree j (executor_of i),
  kind-agree j (executor_of i) h,
  capability→kind j (executor_of i),
)
