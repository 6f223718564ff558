-- ===== src/Flow/Effects.antt =====
-- src/flow/effects.ts, the types: what a transition asks the executor to do, and what the executor
-- reports back. `AutoMergeFailReason` is the type of src/git/pr.ts.
use scrum4me_mcp.Prelude.{String, Option, List, Bool}

pub data PauseReason : Type 0 where
  merge_conflict_pause : PauseReason

-- `Omit<PauseContext, 'claude_question_id'>`.
pub record PauseDraft : Type 0 where
  pub pause_reason : PauseReason
  pub pr_url : String
  pub pr_head_sha : String
  pub conflict_files : List String
  pub resume_instructions : String
  pub paused_at : String

pub record PauseContext : Type 0 where
  pub draft : PauseDraft
  pub claude_question_id : String

-- The statuses of a sprint run in the database.
pub data RunStatus : Type 0 where
  queued running paused done failed cancelled : RunStatus

pub data FlowEffect : Type 0 where
  release_worktree_locks : (job_id : String) → FlowEffect
  enable_auto_merge : (pr_url expected_head_sha : String) → FlowEffect
  mark_pr_ready : (pr_url : String) → FlowEffect
  create_claude_question : (sprint_run_id pr_url : String) (files : List String) → FlowEffect
  close_claude_question : (question_id : String) → FlowEffect
  set_sprint_run_status :
      (sprint_run_id : String) (status : RunStatus) (pause_context_draft : Option PauseDraft)
      (clear_pause_context : Bool)
      → FlowEffect

pub data FailReason : Type 0 where
  checks_failed merge_conflict gh_auth_error auto_merge_not_allowed unknown : FailReason

pub data MergeMode : Type 0 where
  merged scheduled : MergeMode

pub data AutoMergeOutcome : Type 0 where
  merge_ok : MergeMode → AutoMergeOutcome
  merge_failed : (reason : FailReason) (stderr : String) → AutoMergeOutcome
