-- ===== src/Cancel/Cascade.antt =====
-- src/cancel/pbi-cascade.ts: a failed job cancels the open jobs of its PBI, and their pull requests
-- are closed or reverted, each branch of a repository once.
pub mod Siblings
pub mod Buckets
pub mod Actions
use scrum4me_mcp.Prelude.{
  ℕ, String, Bool, true, false, not, ◌&&◌, Option, none, some, List, [], ◌∷◌, ◌++◌, ◌==◌, includes,
  is_text, or_else, truthy, find_by, map, select, if◌then◌else◌,
}
use scrum4me_mcp.Cancel.Forge.{
  Action, close_pr, revert_pr, delete_branch, PrState, open_state, closed_state, merged_state,
  PrInfo, DeleteResult, deleted, missing, kept, Forge, Warning, no_state, not_closed, no_root,
  no_merge_commit, not_reverted, unmerged_branch, not_deleted, Outcome, warn, act, after_delete,
  try_delete_branch, delete_at, close_open, after_revert, revert_merged, settle_pr, settle_read,
  no_outcome,
}

-- `ClaudeJob`, with `task.story.pbi_id` and `task.repo_url` of its task.
pub record PbiJob : Type 0 where
  pub id : String
  pub kind : String
  pub status : String
  pub pbi_id : Option String
  pub repo_url : Option String
  pub branch : Option String
  pub pr_url : Option String
  pub finished_at : Option ℕ
  pub error : Option String

abbrev pub open_statuses : List String
open_statuses = "QUEUED" ∷ "CLAIMED" ∷ "RUNNING" ∷ []

-- The WHERE clause of the cascade.
unfoldable pub is_sibling : String → String → PbiJob → Bool
is_sibling failed_id pbi_id j =
    not (j.id == failed_id) && includes open_statuses j.status && is_text j.pbi_id pbi_id

unfoldable pub eligible : String → String → List PbiJob → List PbiJob
eligible failed_id pbi_id jobs = select (is_sibling failed_id pbi_id) jobs

abbrev pub cancelled_row : ℕ → PbiJob → PbiJob
cancelled_row now j = record j {
  status = "CANCELLED";
  finished_at = some now;
  error = some "cancelled_by_pbi_failure";
}

-- `updateMany({ where: { id: { in } } })`.
unfoldable pub cancel_row : ℕ → List String → PbiJob → PbiJob
cancel_row now ids j = if includes ids j.id then cancelled_row now j else j

unfoldable pub cancel_siblings : ℕ → List PbiJob → List PbiJob → List PbiJob
cancel_siblings now found jobs = map (cancel_row now (map (λ (j : PbiJob). j.id) found)) jobs

-- `Bucket`: a branch of a repository, and a pull request of it.
pub record Bucket : Type 0 where
  pub repo_url : Option String
  pub branch : String
  pub pr_url : Option String

abbrev pub same_repo : Option String → Option String → Bool
same_repo none none = true
same_repo (some a) (some b) = a == b
same_repo _ _ = false

-- Equality of the keys `JSON.stringify([repo_url, branch])`.
abbrev pub has_key : Option String → String → Bucket → Bool
has_key repo branch b = same_repo b.repo_url repo && b.branch == branch

-- A pull request is preferred to none.
unfoldable pub merge_pr : Option String → Bucket → Bucket
merge_pr pr b = if not (truthy b.pr_url) && truthy pr then record b { pr_url = pr } else b

-- One round of the loop that fills the map, which keeps the order of insertion.
unfoldable pub put_bucket : Option String → String → Option String → List Bucket → List Bucket
put_bucket repo branch pr [] = record { repo_url = repo; branch = branch; pr_url = pr } ∷ []
put_bucket repo branch pr (b ∷ bs) =
    if has_key repo branch b then merge_pr pr b ∷ bs else b ∷ put_bucket repo branch pr bs

unfoldable pub put_branch :
    Option String → Option String → Option String → List Bucket → List Bucket
unfolding put_bucket
put_branch none repo pr bs = bs
put_branch (some branch) repo pr bs =
    if truthy (some branch) then put_bucket repo branch pr bs else bs

abbrev pub put_job : PbiJob → List Bucket → List Bucket
put_job j bs = put_branch j.branch j.repo_url j.pr_url bs

unfoldable pub buckets_from : List PbiJob → List Bucket → List Bucket
unfolding put_branch
buckets_from [] bs = bs
buckets_from (j ∷ js) bs = buckets_from js (put_job j bs)

-- One round of the loop over the buckets.
unfoldable pub settle_bucket : Forge → Bucket → Outcome → Outcome
unfolding settle_read delete_at
settle_bucket f b o =
    let root = f.root (or_else b.repo_url "") in
    elim b.pr_url [
      | none ↦ delete_at f root b.branch none o
      | some url ↦
          if truthy (some url)
          then settle_read f root b.branch url (f.pr_state o.done url) o
          else delete_at f root b.branch none o
    ]

unfoldable pub settle_buckets : Forge → List Bucket → Outcome → Outcome
unfolding settle_bucket
settle_buckets f [] o = o
settle_buckets f (b ∷ bs) o = settle_buckets f bs (settle_bucket f b o)

-- `findMany` and `updateMany` are two statements without a transaction: `meanwhile` is what others write
-- on the jobs between them. The update goes by the ids that were read, whatever the rows are by then.
unfoldable pub cascade_from :
    Forge → ℕ → (List PbiJob → List PbiJob) → PbiJob → String → List PbiJob → List PbiJob × Outcome
unfolding eligible cancel_siblings buckets_from settle_buckets
cascade_from f now meanwhile failed pbi_id jobs =
    let found = eligible failed.id pbi_id jobs in
    (
      cancel_siblings now found (meanwhile jobs),
      settle_buckets f (buckets_from (found ++ failed ∷ []) []) no_outcome,
    )

unfoldable pub cascade_at :
    Forge
    → ℕ
    → (List PbiJob → List PbiJob)
    → PbiJob
    → Option String
    → List PbiJob
    → List PbiJob × Outcome
unfolding cascade_from
cascade_at f now meanwhile failed none jobs = (jobs, no_outcome)
cascade_at f now meanwhile failed (some pbi_id) jobs =
    if failed.kind == "TASK_IMPLEMENTATION" && not (failed.status == "SKIPPED")
    then cascade_from f now meanwhile failed pbi_id jobs
    else (jobs, no_outcome)

unfoldable pub cascade_of :
    Forge → ℕ → (List PbiJob → List PbiJob) → Option PbiJob → List PbiJob → List PbiJob × Outcome
unfolding cascade_at
cascade_of f now meanwhile none jobs = (jobs, no_outcome)
cascade_of f now meanwhile (some failed) jobs = cascade_at f now meanwhile failed failed.pbi_id jobs

-- `runCascade`, up to the removal of the worktrees.
unfoldable pub run_cascade :
    Forge → ℕ → (List PbiJob → List PbiJob) → String → List PbiJob → List PbiJob × Outcome
unfolding cascade_of
run_cascade f now meanwhile failed_id jobs =
    cascade_of f now meanwhile (find_by (λ (j : PbiJob). j.id) failed_id jobs) jobs
