-- ===== src/Ideas.antt =====
-- src/lib/idea-plan-loop.ts: which job of a loop blocks another, and the log of the reviews of a plan.
use scrum4me_mcp.Prelude.{
  ◌≡◌, refl, ap, ◌∙◌, ℕ, String, Bool, true, false, not, ◌&&◌, Option, none, some, List, [], ◌∷◌,
  ◌++◌, includes, is_text, truthy, or_else, find?, map, if◌then◌else◌,
}
use Prim.Native.String.{◌++◌ as join}

pub record LoopJob : Type 0 where
  pub id : String
  pub idea_id : Option String
  pub kind : String
  pub status : String

abbrev loop_kinds : List String
loop_kinds = "IDEA_MAKE_PLAN" ∷ "IDEA_REVIEW_PLAN" ∷ []

abbrev spec_loop_kinds : List String
spec_loop_kinds = "IDEA_MAKE_SPEC" ∷ "IDEA_REVISE_SPEC" ∷ "SPEC_REVIEW" ∷ []

abbrev active_statuses : List String
active_statuses = "QUEUED" ∷ "CLAIMED" ∷ "RUNNING" ∷ []

-- The given ids that are texts and not empty.
abbrev excludes_of : List (Option String) → List String
excludes_of [] = []
excludes_of (none ∷ ids) = excludes_of ids
excludes_of (some id ∷ ids) =
    let rest = excludes_of ids in if truthy (some id) then id ∷ rest else rest

-- The WHERE clause of both searches.
unfoldable pub blocks_loop : List String → String → List String → LoopJob → Bool
blocks_loop kinds idea_id excluded j =
    is_text j.idea_id idea_id
    && includes kinds j.kind
    && includes active_statuses j.status
    && not (includes excluded j.id)

-- `findActiveLoopJob`; `findFirst` has no order, so the first row of the table stands for any.
unfoldable pub find_active_loop_job : List LoopJob → String → List (Option String) → Option LoopJob
find_active_loop_job jobs idea_id ids =
    find? (blocks_loop loop_kinds idea_id (excludes_of ids)) jobs

-- `findActiveSpecLoopJob`.
unfoldable pub find_active_spec_loop_job :
    List LoopJob → String → List (Option String) → Option LoopJob
find_active_spec_loop_job jobs idea_id ids =
    find? (blocks_loop spec_loop_kinds idea_id (excludes_of ids)) jobs

pub data Verdict : Type 0 where
  approved changes_requested rejected : Verdict

pub record Finding : Type 0 where
  pub severity : String
  pub message : String
  pub ref : Option String

pub data IssueSeverity : Type 0 where
  error warning info : IssueSeverity

pub record Issue : Type 0 where
  pub severity : IssueSeverity
  pub suggestion : String

pub record ReviewInput : Type 0 where
  pub round : ℕ
  pub verdict : Verdict
  pub model : String
  pub findings : List Finding
  pub summary : String
  pub timestamp : String

pub record Round : Type 0 where
  pub round : ℕ
  pub model : String
  pub issues : List Issue
  pub score : ℕ
  pub converged : Bool
  pub timestamp : String

-- A stored round is any JSON value, here its text.
pub data Entry : Type 0 where
  stored : String → Entry
  reviewed : Round → Entry

pub data Approval : Type 0 where
  pending is_approved is_rejected : Approval

pub record PlanReviewLog : Type 0 where
  pub plan_file : String
  pub created_at : String
  pub rounds : List Entry
  pub approval : Approval
  pub approved_at : Option String
  pub summary : String

-- A stored log of which `rounds` is an array.
pub record StoredLog : Type 0 where
  pub plan_file : Option String
  pub created_at : Option String
  pub rounds : List Entry

-- `mentions words s` is the test of a regular expression that is a choice of words, in any case.
module _ (mentions : List String → String → Bool) where
  abbrev severity_to_issue : String → IssueSeverity
  severity_to_issue s =
      if mentions ("blocker" ∷ "major" ∷ []) s
      then error
      else if mentions ("minor" ∷ []) s
      then warning
      else info

  abbrev suggestion_of : Option String → String → String
  suggestion_of none message = message
  suggestion_of (some ref) message =
      if truthy (some ref) then join ref (join ": " message) else message

  abbrev issue_of : Finding → Issue
  issue_of f = record {
    severity = severity_to_issue f.severity;
    suggestion = suggestion_of f.ref f.message;
  }

  abbrev score_of : Verdict → ℕ
  score_of approved = 100
  score_of changes_requested = 50
  score_of rejected = 0

  abbrev is_converged : Verdict → Bool
  is_converged approved = true
  is_converged _ = false

  -- The fields of a round that do not depend on the review are left out.
  abbrev pub round_of : ReviewInput → Round
  round_of i = record {
    round = i.round;
    model = i.model;
    issues = map issue_of i.findings;
    score = score_of i.verdict;
    converged = is_converged i.verdict;
    timestamp = i.timestamp;
  }

  abbrev pub approval_of : Verdict → Approval
  approval_of approved = is_approved
  approval_of changes_requested = pending
  approval_of rejected = is_rejected

  abbrev pub approved_at_of : Verdict → String → Option String
  approved_at_of changes_requested t = none
  approved_at_of _ t = some t

  abbrev pub base_of : Option StoredLog → String → StoredLog
  base_of (some log) t = log
  base_of none t = record { plan_file = some ""; created_at = some t; rounds = [] }

  -- `appendPlanReviewRound`; `existing` is `none` where it is not an object with rounds.
  unfoldable pub append_plan_review_round : Option StoredLog → ReviewInput → PlanReviewLog
  append_plan_review_round existing i =
      let base = base_of existing i.timestamp in
      record {
        plan_file = or_else base.plan_file "";
        created_at = or_else base.created_at i.timestamp;
        rounds = base.rounds ++ reviewed (round_of i) ∷ [];
        approval = approval_of i.verdict;
        approved_at = approved_at_of i.verdict i.timestamp;
        summary = i.summary;
      }

  -- The log as it is read again for the next review.
  abbrev read_again : PlanReviewLog → StoredLog
  read_again l = record {
    plan_file = some l.plan_file;
    created_at = some l.created_at;
    rounds = l.rounds;
  }

  -- A review, and others after it.
  unfoldable pub review_all : Option StoredLog → ReviewInput → List ReviewInput → PlanReviewLog
  unfolding append_plan_review_round
  review_all existing i [] = append_plan_review_round existing i
  review_all existing i (next ∷ rest) =
      review_all (some (read_again (append_plan_review_round existing i))) next rest

  abbrev last_of : ReviewInput → List ReviewInput → ReviewInput
  last_of i [] = i
  last_of i (next ∷ rest) = last_of next rest

  -- What a log shows of a verdict that was given at a time.
  pub IsShown : Verdict → String → PlanReviewLog → Type 0
  IsShown approved t l = (l.approval ≡ is_approved) × (l.approved_at ≡ some t)
  IsShown changes_requested t l = (l.approval ≡ pending) × (l.approved_at ≡ none)
  IsShown rejected t l = (l.approval ≡ is_rejected) × (l.approved_at ≡ some t)

  append-IsShown :
      (existing : Option StoredLog) (i : ReviewInput) (v : Verdict)
      → i.verdict ≡ v
      → IsShown v i.timestamp (append_plan_review_round existing i)
  unfolding append_plan_review_round IsShown
  append-IsShown existing i approved e =
      (ap approval_of e, ap (λ v. approved_at_of v i.timestamp) e)
  append-IsShown existing i changes_requested e =
      (ap approval_of e, ap (λ v. approved_at_of v i.timestamp) e)
  append-IsShown existing i rejected e =
      (ap approval_of e, ap (λ v. approved_at_of v i.timestamp) e)

  append_assoc : (xs ys zs : List Entry) → (xs ++ ys) ++ zs ≡ xs ++ (ys ++ zs)
  append_assoc [] ys zs = refl
  append_assoc (x ∷ xs) ys zs = ap (λ l. x ∷ l) (append_assoc xs ys zs)

  -- A log keeps all rounds through any reviews, those that were stored first and then one for each
  -- review in their order; it keeps the time of its first round and has the summary of the last
  -- review. Of the last verdict it shows: approved, or rejected, with the time of the last review, or
  -- pending without a time where changes were requested.
  pub reviews_stay :
      (existing : Option StoredLog) (i : ReviewInput) (rest : List ReviewInput)
      → ((review_all existing i rest).rounds
          ≡ (base_of existing i.timestamp).rounds ++ map (λ r. reviewed (round_of r)) (i ∷ rest))
        × ((review_all existing i rest).created_at
            ≡ or_else (base_of existing i.timestamp).created_at i.timestamp)
        × IsShown (last_of i rest).verdict (last_of i rest).timestamp (review_all existing i rest)
        × ((review_all existing i rest).summary ≡ (last_of i rest).summary)
  unfolding review_all
  reviews_stay existing i [] = (refl, refl, append-IsShown existing i i.verdict refl, refl)
  reviews_stay existing i (next ∷ rest) =
      let (rounds, created, shown, summary) =
        reviews_stay (some (read_again (append_plan_review_round existing i))) next rest in
      (
        rounds
            ∙ append_assoc (base_of existing i.timestamp).rounds (reviewed (round_of i) ∷ [])
                (map (λ r. reviewed (round_of r)) (next ∷ rest)),
        created,
        shown,
        summary,
      )
