-- ===== src/Cancel/Forge.antt =====
-- src/cancel/pbi-cascade.ts: what the cascade does to a pull request and its branch.
use scrum4me_mcp.Prelude.{
  String, Bool, not, Option, none, some, List, [], ◌∷◌, ◌++◌, truthy, if◌then◌else◌,
}

-- What was done at the forge, the last action first.
pub data Action : Type 0 where
  close_pr revert_pr : String → Action
  delete_branch : String → String → Option String → Action

pub data PrState : Type 0 where
  open_state closed_state merged_state : PrState

pub record PrInfo : Type 0 where
  pub state : PrState
  pub head_sha : Option String
  pub merge_commit : Option String

pub data DeleteResult : Type 0 where
  deleted missing kept : DeleteResult

-- The answers of git and Forgejo after what was done so far: the state of a pull request (`none` is
-- an error), whether it could be closed, the URL of the pull request that reverts it, whether the
-- tip of a branch is in origin/main, the deletion of a branch; and the checkout of a repository, by
-- the key of `repoRootCache`.
pub record Forge : Type 0 where
  pub root : String → Option String
  pub pr_state : List Action → String → Option PrInfo
  pub closes : List Action → String → Bool
  pub reverts : List Action → String → Option String
  pub is_merged : List Action → String → String → Bool
  pub deletes : List Action → String → String → DeleteResult

pub data Warning : Type 0 where
  no_state not_closed no_root no_merge_commit not_reverted unmerged_branch not_deleted :
      String → Warning

-- `CascadeOutcome` without the ids of the jobs, and the actions.
pub record Outcome : Type 0 where
  pub closed_prs : List String
  pub reverted_prs : List (String × String)
  pub deleted_branches : List String
  pub warnings : List Warning
  pub done : List Action

abbrev pub warn : Warning → Outcome → Outcome
warn w o = record o { warnings = o.warnings ++ w ∷ [] }

abbrev pub act : Action → Outcome → Outcome
act a o = record o { done = a ∷ o.done }

unfoldable pub after_delete : String → DeleteResult → Outcome → Outcome
after_delete branch deleted o = record o { deleted_branches = o.deleted_branches ++ branch ∷ [] }
after_delete branch missing o = o
after_delete branch kept o = warn (not_deleted branch) o

-- `tryDeleteBranch`.
unfoldable pub try_delete_branch : Forge → String → String → Option String → Outcome → Outcome
unfolding after_delete
try_delete_branch f root branch head o =
    if f.is_merged o.done root branch
    then after_delete branch (f.deletes o.done root branch) (act (delete_branch root branch head) o)
    else warn (unmerged_branch branch) o

-- `if (repoRoot) await tryDeleteBranch(...)`.
unfoldable pub delete_at : Forge → Option String → String → Option String → Outcome → Outcome
unfolding try_delete_branch
delete_at f none branch head o = o
delete_at f (some root) branch head o =
    if truthy (some root) then try_delete_branch f root branch head o else o

unfoldable pub close_open :
    Forge → Option String → String → String → Option String → Outcome → Outcome
unfolding delete_at
close_open f root branch url head o =
    if f.closes o.done url
    then delete_at f root branch head
        (record (act (close_pr url) o) { closed_prs = o.closed_prs ++ url ∷ [] })
    else warn (not_closed url) (act (close_pr url) o)

unfoldable pub after_revert : String → Option String → Outcome → Outcome
after_revert url none o = warn (not_reverted url) o
after_revert url (some reverting) o = record o {
  reverted_prs = o.reverted_prs ++ (url, reverting) ∷ [];
}

unfoldable pub revert_merged : Forge → Option String → String → Option String → Outcome → Outcome
unfolding after_revert
revert_merged f root url commit o =
    if not (truthy root)
    then warn (no_root url) o
    else if not (truthy commit)
    then warn (no_merge_commit url) o
    else after_revert url (f.reverts o.done url) (act (revert_pr url) o)

unfoldable pub settle_pr :
    Forge → Option String → String → String → PrState → PrInfo → Outcome → Outcome
unfolding delete_at close_open revert_merged
settle_pr f root branch url closed_state info o = delete_at f root branch info.head_sha o
settle_pr f root branch url open_state info o = close_open f root branch url info.head_sha o
settle_pr f root branch url merged_state info o = revert_merged f root url info.merge_commit o

unfoldable pub settle_read :
    Forge → Option String → String → String → Option PrInfo → Outcome → Outcome
unfolding settle_pr
settle_read f root branch url none o = warn (no_state url) o
settle_read f root branch url (some info) o = settle_pr f root branch url info.state info o

abbrev pub no_outcome : Outcome
no_outcome = record {
  closed_prs = [];
  reverted_prs = [];
  deleted_branches = [];
  warnings = [];
  done = [];
}
