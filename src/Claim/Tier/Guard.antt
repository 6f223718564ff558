-- ===== src/Claim/Tier/Guard.antt =====
-- The claimability guard of src/dispatch/eligibility.ts: whoever a worker defers to could claim the
-- job with its own query.
use scrum4me_mcp.Prelude.{
  ◌≡◌, refl, sym, ◌∙◌, String, Bool, true, ◌&&◌, Option, none, some, List, [], ◌∷◌, ◌==◌, eq_iff,
  arith, inl, inr, Bool-cases, ℕ,
}
use scrum4me_mcp.Claim.Sql.{
  Tri, ◌and◌, ◌or◌, ◌eq◌, ◌eq?◌, ◌among◌, ◌among?◌, sql_is_null, passes, passes-and,
}
use scrum4me_mcp.Claim.Job.{ClaimJob}
use scrum4me_mcp.Claim.Predicates
use scrum4me_mcp.Claim.Predicates.{by_capabilities, harness_job, ordinary_kind}
use scrum4me_mcp.Claim.Conditions.{Tables}
use scrum4me_mcp.Claim.Agreement.{HasProperIds, where_of, capabilities-agree}
use scrum4me_mcp.Claim.Queries.{
  ClaimFilterInput, where_fragment, executor_of, in_scope, fragment_iff_ordinary,
}
use scrum4me_mcp.Claim.Tier.{Tier, Worker, TierInput, could_claim, stands_before, scope_of}

-- The query with which a worker of the table claims.
abbrev pub query_of : Worker → ClaimFilterInput
query_of w = record {
  user_id = w.user_id;
  product_id = w.product_id;
  runtime = w.runtime;
  capabilities = w.capabilities;
}

abbrev pub tier_input : ClaimFilterInput → String → Option Tier → TierInput
tier_input i instance_id tier = record {
  self_user_id = i.user_id;
  self_instance_id = instance_id;
  self_runtime = i.runtime;
  self_capability = tier;
}

without_capabilities :
    (o : Option String)
    → passes (sql_is_null o or o among? []) ≡ true
    → passes (sql_is_null o) ≡ true
without_capabilities none h = refl
without_capabilities (some c) h = h

-- The two queries name the kind and the capability in different orders.
and_swap : (p q r : Tri) → passes (p and q and r) ≡ true → passes (q and p and r) ≡ true
and_swap p q r h =
    ground (arith, passes-and (p and q) r, passes-and p q, passes-and (q and p) r, passes-and q p)

guard→where :
    (cs : List String) (j : ClaimJob)
    → passes (could_claim cs j) ≡ true
    → passes (where_of cs j) ≡ true
unfolding could_claim
guard→where [] j h = without_capabilities j.required_capability h
guard→where (c ∷ []) j h = elim (Bool-cases (c == "deploy")) [
  | inl deploy ↦ rw deploy (
      and_swap (j.kind eq "DEPLOY") (j.required_capability eq? "deploy")
        (j.source among ("SYSTEM" ∷ "MANUAL" ∷ [])) (rw (could_claim, deploy) at h))
  | inr other ↦ elim (Bool-cases (c == "docs_audit")) [
    | inl audit ↦
        rw (other, audit)
          (and_swap (j.kind eq "DOCS_AUDIT") (j.required_capability eq? "docs_audit")
            (j.source among ("SYSTEM" ∷ "MANUAL" ∷ [])) (rw (could_claim, other, audit) at h))
    | inr neither ↦ rw (other, neither) (rw (could_claim, other, neither) at h)
  ]
]
guard→where (c ∷ d ∷ cs) j h = h

-- What of the subquery's conditions the other worker's query needs.
stands_before_facts :
    (i : TierInput) (now : ℕ) (cj : ClaimJob) (w : Worker)
    → passes (stands_before i now cj w) ≡ true
    → ((w.user_id == i.self_user_id) ≡ true)
      × (passes (scope_of w.product_id cj.product_id) ≡ true)
      × ((w.runtime == i.self_runtime) ≡ true)
      × (passes (could_claim w.capabilities cj) ≡ true)
unfolding stands_before
stands_before_facts i now cj w h =
    let h' = simp passes-and at h in
    all_of (w.user_id == i.self_user_id) (passes (scope_of w.product_id cj.product_id))
      (w.runtime == i.self_runtime) (passes (could_claim w.capabilities cj)) _ _ _ _ _ _ h'
  where
    all_of :
        (a b c d p q r s t u : Bool)
        → (a && b && c && p && q && r && d && s && t && u) ≡ true
        → (a ≡ true) × (b ≡ true) × (c ≡ true) × (d ≡ true)
    all_of a b c d p q r s t u h = ground arith

scope-agree :
    (o : Option String) (j : ClaimJob)
    → passes (scope_of o j.product_id) ≡ true
    → in_scope o j ≡ true
scope-agree none j h = refl
scope-agree (some p) j h = ground (arith, eq_iff p j.product_id, eq_iff j.product_id p)

-- The kind condition reads the runtime and nothing else of an ordinary worker.
kind_same :
    (j : ClaimJob) (i k : ClaimFilterInput)
    → i.runtime ≡ k.runtime
    → Predicates.kind j (executor_of i) ≡ Predicates.kind j (executor_of k)
unfolding Predicates.kind
kind_same j i k e = rw e

capability_carries :
    (j : ClaimJob) (i k : ClaimFilterInput)
    → i.runtime ≡ k.runtime
    → Predicates.capability j (executor_of i) ≡ true
    → passes (could_claim k.capabilities j) ≡ true
    → Predicates.capability j (executor_of k) ≡ true
unfolding Predicates.capability
capability_carries j i k e h g = elim (Bool-cases (k.runtime == "HARNESS")) [
  | inl p ↦ rw p (rw (e, p) at h)
  | inr p ↦ rw p (sym (capabilities-agree k.capabilities j) ∙ guard→where k.capabilities j g)
]

-- When a worker's query keeps a job and another worker stands before it, the other worker's own
-- query keeps the job too.
pub superior_can_claim :
    (db : Tables) (i : ClaimFilterInput) (instance_id : String) (tier : Option Tier) (now : ℕ)
    (cj : ClaimJob) (w : Worker)
    → HasProperIds cj
    → passes (where_fragment db i cj) ≡ true
    → passes (stands_before (tier_input i instance_id tier) now cj w) ≡ true
    → passes (where_fragment db (query_of w) cj) ≡ true
unfolding Predicates.binding
superior_can_claim db i instance_id tier now cj w ids self h =
    let (user, scope, runtime, guard) =
      stands_before_facts (tier_input i instance_id tier) now cj w h in
    let same : i.runtime ≡ w.runtime = sym ((eq_iff w.runtime i.runtime).0 runtime) in
    let own = (fragment_iff_ordinary db i cj ids).0 self in
    (fragment_iff_ordinary db (query_of w) cj ids).1 (
      ground (
        arith,
        own,
        scope-agree w.product_id cj scope,
        kind_same cj i (query_of w) same,
        capability_carries cj i (query_of w) same,
        guard,
        eq_iff w.user_id i.user_id,
        eq_iff cj.user_id i.user_id,
        eq_iff cj.user_id w.user_id,
        eq_iff cj.runtime i.runtime,
        eq_iff cj.runtime w.runtime,
      ))
