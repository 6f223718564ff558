-- ===== src/Cancel/Cascade/Actions.antt =====
-- What the cascade does at the forge (src/cancel/pbi-cascade.ts).
use scrum4me_mcp.Prelude.{
  if_cases, ◌≡◌, refl, ℕ, String, true, not, ◌&&◌, Option, none, some, List, [], ◌∷◌, ◌++◌, ◌==◌,
  or_else, truthy, find_by,
}
use scrum4me_mcp.Cancel.Forge.{
  Action, close_pr, revert_pr, delete_branch, PrState, open_state, closed_state, merged_state,
  PrInfo, DeleteResult, deleted, missing, kept, Forge, Outcome, act, after_delete,
  try_delete_branch, delete_at, close_open, after_revert, revert_merged, settle_pr, settle_read,
  no_outcome,
}
use scrum4me_mcp.Cancel.Cascade.{
  PbiJob, Bucket, settle_bucket, settle_buckets, buckets_from, eligible, cascade_from, cascade_at,
  cascade_of, run_cascade,
}

-- A pull request of which the forge had said that it is in the state.
abbrev pub HadState : Forge → List Action → String → PrState → Type 0
HadState f before url state =
    (info : PrInfo) × (f.pr_state before url ≡ some info) × (info.state ≡ state)

-- Every pull request that was closed was open, every one that was reverted was merged, and every
-- branch that was deleted was in origin/main, each after what was done before.
abbrev pub Justified : Forge → List Action → Type 0
Justified f [] = Unit
Justified f (close_pr url ∷ before) = HadState f before url open_state × Justified f before
Justified f (revert_pr url ∷ before) = HadState f before url merged_state × Justified f before
Justified f (delete_branch root branch head ∷ before) =
    (f.is_merged before root branch ≡ true) × Justified f before

module _ (f : Forge) where
  abbrev Holds : Outcome → Type 0
  Holds o = Justified f o.done

  after_delete-Holds :
      (branch : String) (r : DeleteResult) (o : Outcome) → Holds o → Holds (after_delete branch r o)
  unfolding after_delete
  after_delete-Holds branch deleted o h = h
  after_delete-Holds branch missing o h = h
  after_delete-Holds branch kept o h = h

  delete_at-Holds :
      (root : Option String) (branch : String) (head : Option String) (o : Outcome)
      → Holds o
      → Holds (delete_at f root branch head o)
  unfolding delete_at try_delete_branch
  delete_at-Holds none branch head o h = h
  delete_at-Holds (some root) branch head o h =
      if_cases Holds (truthy (some root))
        (λ _.
          if_cases Holds (f.is_merged o.done root branch)
            (λ merged.
              after_delete-Holds branch (f.deletes o.done root branch)
                (act (delete_branch root branch head) o) (merged, h))
            (λ _. h))
        (λ _. h)

  close_open-Holds :
      (root : Option String) (branch url : String) (head : Option String) (o : Outcome)
      → HadState f o.done url open_state
      → Holds o
      → Holds (close_open f root branch url head o)
  unfolding close_open
  close_open-Holds root branch url head o was h =
      if_cases Holds (f.closes o.done url)
        (λ _.
          delete_at-Holds root branch head
            (record (act (close_pr url) o) { closed_prs = o.closed_prs ++ url ∷ [] }) (was, h))
        (λ _. (was, h))

  after_revert-Holds :
      (url : String) (r : Option String) (o : Outcome) → Holds o → Holds (after_revert url r o)
  unfolding after_revert
  after_revert-Holds url none o h = h
  after_revert-Holds url (some reverting) o h = h

  revert_merged-Holds :
      (root : Option String) (url : String) (commit : Option String) (o : Outcome)
      → HadState f o.done url merged_state
      → Holds o
      → Holds (revert_merged f root url commit o)
  unfolding revert_merged
  revert_merged-Holds root url commit o was h =
      if_cases Holds (not (truthy root)) (λ _. h)
        (λ _.
          if_cases Holds (not (truthy commit)) (λ _. h)
            (λ _. after_revert-Holds url (f.reverts o.done url) (act (revert_pr url) o) (was, h)))

  settle_pr-Holds :
      (root : Option String) (branch url : String) (state : PrState) (info : PrInfo) (o : Outcome)
      → f.pr_state o.done url ≡ some info
      → info.state ≡ state
      → Holds o
      → Holds (settle_pr f root branch url state info o)
  unfolding settle_pr
  settle_pr-Holds root branch url closed_state info o e s h =
      delete_at-Holds root branch info.head_sha o h
  settle_pr-Holds root branch url open_state info o e s h =
      close_open-Holds root branch url info.head_sha o (info, e, s) h
  settle_pr-Holds root branch url merged_state info o e s h =
      revert_merged-Holds root url info.merge_commit o (info, e, s) h

  settle_read-Holds :
      (root : Option String) (branch url : String) (r : Option PrInfo) (o : Outcome)
      → f.pr_state o.done url ≡ r
      → Holds o
      → Holds (settle_read f root branch url r o)
  unfolding settle_read
  settle_read-Holds root branch url none o e h = h
  settle_read-Holds root branch url (some info) o e h =
      settle_pr-Holds root branch url info.state info o e refl h

  settle_bucket-Holds :
      (repo : Option String) (branch : String) (pr : Option String) (o : Outcome)
      → Holds o
      → Holds (settle_bucket f (record { repo_url = repo; branch = branch; pr_url = pr }) o)
  unfolding settle_bucket
  settle_bucket-Holds repo branch none o h =
      delete_at-Holds (f.root (or_else repo "")) branch none o h
  settle_bucket-Holds repo branch (some url) o h =
      if_cases Holds (truthy (some url))
        (λ _.
          settle_read-Holds (f.root (or_else repo "")) branch url (f.pr_state o.done url) o refl h)
        (λ _. delete_at-Holds (f.root (or_else repo "")) branch none o h)

  settle_buckets-Holds : (bs : List Bucket) (o : Outcome) → Holds o → Holds (settle_buckets f bs o)
  unfolding settle_buckets
  settle_buckets-Holds [] o h = h
  settle_buckets-Holds (b ∷ bs) o h =
      settle_buckets-Holds bs (settle_bucket f b o)
        (settle_bucket-Holds b.repo_url b.branch b.pr_url o h)

  cascade_at-Holds :
      (now : ℕ) (meanwhile : List PbiJob → List PbiJob) (failed : PbiJob) (pbi_id : Option String)
      (jobs : List PbiJob)
      → Holds (cascade_at f now meanwhile failed pbi_id jobs).1
  unfolding cascade_at cascade_from
  cascade_at-Holds now meanwhile failed none jobs = tt
  cascade_at-Holds now meanwhile failed (some pbi_id) jobs =
      if_cases (λ (r : List PbiJob × Outcome). Holds r.1)
        (failed.kind == "TASK_IMPLEMENTATION" && not (failed.status == "SKIPPED"))
        (λ _.
          settle_buckets-Holds (buckets_from (eligible failed.id pbi_id jobs ++ failed ∷ []) [])
            no_outcome tt)
        (λ _. tt)

  cascade_of-Holds :
      (now : ℕ) (meanwhile : List PbiJob → List PbiJob) (found : Option PbiJob) (jobs : List PbiJob)
      → Holds (cascade_of f now meanwhile found jobs).1
  unfolding cascade_of
  cascade_of-Holds now meanwhile none jobs = tt
  cascade_of-Holds now meanwhile (some failed) jobs =
      cascade_at-Holds now meanwhile failed failed.pbi_id jobs

  -- Whatever the forge answers, and whatever others write on the jobs between the read and the update
  -- of the cascade, it closes only pull requests of which it had read that they are open, reverts only
  -- those it had read to be merged, and deletes only branches that had been found in origin/main, each
  -- read after everything it did before.
  pub forge_is_respected :
      (now : ℕ) (meanwhile : List PbiJob → List PbiJob) (failed_id : String) (jobs : List PbiJob)
      → Justified f (run_cascade f now meanwhile failed_id jobs).1.done
  unfolding run_cascade
  forge_is_respected now meanwhile failed_id jobs =
      cascade_of-Holds now meanwhile (find_by (λ (j : PbiJob). j.id) failed_id jobs) jobs
