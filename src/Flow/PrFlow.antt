-- ===== src/Flow/PrFlow.antt =====
-- src/flow/pr-flow.ts: the life of a pull request, per story or per sprint. A state whose strategy
-- the type fixes carries none; `undefined` is `none`.
pub mod Traces
use scrum4me_mcp.Prelude.{String, Option, none, some, List, [], ◌∷◌, ◌++◌}
use scrum4me_mcp.Flow.Effects.{
  FlowEffect, enable_auto_merge, mark_pr_ready, FailReason, merge_conflict,
}
use scrum4me_mcp.Flow.Effects.{checks_failed as reason_checks_failed}

pub data PrStrategy : Type 0 where
  story sprint : PrStrategy

pub data PrFlowState : Type 0 where
  no_pr : PrStrategy → PrFlowState
  branch_pushed : PrStrategy → (pr_url : Option String) → PrFlowState
  pr_opened : (pr_url : String) → PrFlowState
  draft_opened : (pr_url : String) → PrFlowState
  waiting_for_checks : (pr_url head_sha : String) → PrFlowState
  auto_merge_enabled : (pr_url head_sha : String) → PrFlowState
  ready_for_review : (pr_url : String) → PrFlowState
  merged : PrStrategy → (pr_url : String) → PrFlowState
  checks_failed : PrStrategy → (pr_url : String) → PrFlowState
  merge_conflict_paused : PrStrategy → (pr_url head_sha : String) → PrFlowState

pub data PrFlowEvent : Type 0 where
  pr_created : (pr_url : String) → PrFlowEvent
  task_done : (task_id head_sha : String) → PrFlowEvent
  story_completed : (story_id head_sha : String) → PrFlowEvent
  sprint_completed : (sprint_run_id : String) → PrFlowEvent
  merge_result : (reason : Option FailReason) → PrFlowEvent

-- The field `strategy`.
abbrev pub strategy : PrFlowState → PrStrategy
strategy (no_pr s) = s
strategy (branch_pushed s _) = s
strategy (pr_opened _) = story
strategy (draft_opened _) = sprint
strategy (waiting_for_checks _ _) = story
strategy (auto_merge_enabled _ _) = story
strategy (ready_for_review _) = sprint
strategy (merged s _) = s
strategy (checks_failed s _) = s
strategy (merge_conflict_paused s _ _) = s

-- The last clause is the `return` at the end: an event that the state does not know changes nothing.
pub transition : PrFlowState → PrFlowEvent → PrFlowState × List FlowEffect
transition (no_pr story) (pr_created url) = (pr_opened url, [])
transition (branch_pushed story _) (pr_created url) = (pr_opened url, [])
transition (pr_opened url) (story_completed _ sha) =
    (waiting_for_checks url sha, enable_auto_merge url sha ∷ [])
transition (waiting_for_checks url sha) (merge_result none) = (auto_merge_enabled url sha, [])
transition (waiting_for_checks url sha) (merge_result (some merge_conflict)) =
    (merge_conflict_paused story url sha, [])
transition (waiting_for_checks url sha) (merge_result (some reason_checks_failed)) =
    (checks_failed story url, [])
transition (no_pr sprint) (pr_created url) = (draft_opened url, [])
transition (branch_pushed sprint _) (pr_created url) = (draft_opened url, [])
transition (draft_opened url) (sprint_completed _) = (ready_for_review url, mark_pr_ready url ∷ [])
transition state _ = (state, [])

-- A life of a pull request: the events in order, and every effect asked for.
pub run : PrFlowState → List PrFlowEvent → PrFlowState × List FlowEffect
run state [] = (state, [])
run state (e ∷ es) =
    let (next, effects) = transition state e in
    let (last, later) = run next es in (last, effects ++ later)
