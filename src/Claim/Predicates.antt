-- ===== src/Claim/Predicates.antt =====
-- src/dispatch/eligibility.ts, `claimPredicates`: the contract as JavaScript evaluates it.
use Prim.Native.Char.{Char, code}
use scrum4me_mcp.Claim.Sql.{includes?}
use scrum4me_mcp.Claim.Job.{ClaimJob, ClaimExecutor}
use scrum4me_mcp.Prelude.{
  ◌≡◌, ◌↔◌, arith, String, Bool, true, not, ◌&&◌, ◌||◌, Option, none, some, List, [], ◌∷◌, ◌==◌,
  leb, nat_eq, includes, is_null, is_text, truthy, or_else, if◌then◌else◌,
}

-- `String.prototype.toUpperCase` on the letters a to z; it is called for two plain words only.
upper_char : Char → String → String → Char
upper_char c (String.◌∷◌ x xs) (String.◌∷◌ y ys) =
    if nat_eq (code x) (code c) then y else upper_char c xs ys
upper_char c _ _ = c

unfoldable pub to_upper_case : String → String
unfolding upper_char
to_upper_case String.[] = String.[]
to_upper_case (String.◌∷◌ c s) =
    String.◌∷◌ (upper_char c "abcdefghijklmnopqrstuvwxyz" "ABCDEFGHIJKLMNOPQRSTUVWXYZ")
      (to_upper_case s)

-- `CLAIMABLE_STANDALONE_KINDS`, and the list that is matched out of its text.
abbrev pub standalone_kinds : List String
standalone_kinds =
    "IDEA_GRILL" ∷ "IDEA_MAKE_PLAN" ∷ "IDEA_REVIEW_PLAN" ∷ "IDEA_MAKE_SPEC" ∷ "IDEA_REVISE_SPEC"
    ∷ "IDEA_CHAT" ∷ "PLAN_CHAT" ∷ "PR_REVIEW" ∷ "SPEC_REVIEW" ∷ "TASK_REVIEW" ∷ []

abbrev pub system_or_manual : List String
system_or_manual = "SYSTEM" ∷ "MANUAL" ∷ []

abbrev pub harness_job : ClaimJob → Bool
harness_job j =
    is_null j.required_capability
    && (j.kind == "IDEA_CHAT" && j.source == "SYSTEM"
        || j.kind == "TASK_IMPLEMENTATION" && j.source == "COPILOT" && is_null j.sprint_run_id
        || j.kind == "AGENT_CHAT" && j.source == "MANUAL")

-- `j.requiredCapability === null || e.capabilities.includes(j.requiredCapability)`.
abbrev pub has_capability : Option String → List String → Bool
has_capability none cs = true
has_capability (some c) cs = includes cs c

abbrev pub dedicated : String → ClaimJob → Bool
dedicated c j =
    is_text j.required_capability c
    && j.kind == to_upper_case c
    && includes system_or_manual j.source

-- The test `e.capabilities.length === 1 && ['deploy', 'docs_audit'].includes(e.capabilities[0])`
-- and what follows it.
abbrev pub by_capabilities : List String → ClaimJob → Bool
by_capabilities (c ∷ []) j =
    if includes ("deploy" ∷ "docs_audit" ∷ []) c
    then dedicated c j
    else has_capability j.required_capability (c ∷ [])
by_capabilities cs j = has_capability j.required_capability cs

abbrev pub user : ClaimJob → ClaimExecutor → Bool
user j e = j.user_id == e.user_id

abbrev pub product : ClaimJob → ClaimExecutor → Bool
product j e = includes e.product_ids j.product_id

abbrev pub runtime : ClaimJob → ClaimExecutor → Bool
runtime j e = j.runtime == e.runtime

abbrev pub queued : ClaimJob → ClaimExecutor → Bool
queued j e = j.status == "QUEUED"

unfoldable pub binding : ClaimJob → ClaimExecutor → Bool
binding j e =
    if e.managed
    then truthy e.incarnation_id
      && not (is_null j.dispatch_request_id)
      && includes? e.profile_revision_ids j.profile_revision_id
    else is_null j.dispatch_request_id

unfoldable pub capability : ClaimJob → ClaimExecutor → Bool
unfolding to_upper_case
capability j e = if e.runtime == "HARNESS" then harness_job j else by_capabilities e.capabilities j

-- The soort/bron conditions of an ordinary worker.
abbrev pub ordinary_kind : ClaimJob → Bool
ordinary_kind j =
    includes standalone_kinds j.kind && not (j.source == "ORCHESTRATOR")
    || includes ("DEPLOY" ∷ "DOCS_AUDIT" ∷ []) j.kind && includes system_or_manual j.source
    || j.kind == "PLAN_CHAT"
      && j.source == "ORCHESTRATOR"
      && not (truthy j.task_id)
      && not (truthy j.idea_id)
      && not (truthy j.sprint_run_id)
    || j.kind == "TASK_IMPLEMENTATION" && includes ("MANUAL" ∷ "COPILOT" ∷ []) j.source
    || includes ("TASK_IMPLEMENTATION" ∷ "SPRINT_IMPLEMENTATION" ∷ []) j.kind
      && not (is_null j.sprint_run_id)
      && includes ("QUEUED" ∷ "RUNNING" ∷ []) (or_else j.sprint_status "")

abbrev pub managed_kind : ClaimJob → Bool
managed_kind j =
    j.source == "COPILOT"
    && includes ("QUEUE_TASK" ∷ "QUEUE_REVIEW" ∷ "TASK_IMPLEMENTATION" ∷ []) j.kind
    && is_null j.sprint_run_id

unfoldable pub kind : ClaimJob → ClaimExecutor → Bool
kind j e = e.runtime == "HARNESS" || (if e.managed then managed_kind j else ordinary_kind j)

unfoldable pub sprint : ClaimJob → ClaimExecutor → Bool
sprint j e =
    not (j.kind == "TASK_IMPLEMENTATION") || not (truthy j.sprint_run_id) || not j.earlier_sibling

unfoldable pub quota : ClaimJob → ClaimExecutor → Bool
quota j e = elim e.quota_pct [ none ↦ true | some pct ↦ leb e.min_quota_pct pct ]

-- `Object.entries(claimPredicates)`, in the order of the source.
abbrev pub claim_predicates : List (String × (ClaimJob → ClaimExecutor → Bool))
claim_predicates =
    ("user", user)
    ∷ ("product", product)
    ∷ ("runtime", runtime)
    ∷ ("queued", queued)
    ∷ ("binding", binding)
    ∷ ("capability", capability)
    ∷ ("kind", kind)
    ∷ ("sprint", sprint)
    ∷ ("quota", quota)
    ∷ []

failing : ClaimJob → ClaimExecutor → List (String × (ClaimJob → ClaimExecutor → Bool)) → List String
failing j e [] = []
failing j e ((name, predicate) ∷ rest) =
    let later = failing j e rest in if predicate j e then later else name ∷ later

-- The names of the predicates that fail.
unfoldable pub evaluate_claim_predicates : ClaimJob → ClaimExecutor → List String
unfolding failing
evaluate_claim_predicates j e = failing j e claim_predicates

-- Nothing fails exactly when each predicate holds.
pub evaluate-nil_iff :
    (j : ClaimJob) (e : ClaimExecutor)
    → (evaluate_claim_predicates j e ≡ []) ↔ (
        (user j e
          && product j e
          && runtime j e
          && queued j e
          && binding j e
          && capability j e
          && kind j e
          && sprint j e
          && quota j e)
        ≡ true)
unfolding evaluate_claim_predicates
evaluate-nil_iff j e = ground arith
