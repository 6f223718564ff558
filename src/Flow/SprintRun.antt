-- ===== src/Flow/SprintRun.antt =====
-- src/flow/sprint-run.ts: the life of a sprint run. `now` is `new Date().toISOString()`.
pub mod Terminal
use scrum4me_mcp.Prelude.{String, Option, none, some, List, [], ◌∷◌, ◌++◌, true, false}
use scrum4me_mcp.Flow.Effects.{
  FlowEffect, create_claude_question, close_claude_question, set_sprint_run_status, PauseContext,
  PauseDraft, merge_conflict_pause,
}
use scrum4me_mcp.Flow.Effects.{
  queued as status_queued, running as status_running, paused as status_paused, done as status_done,
  failed as status_failed, cancelled as status_cancelled,
}

pub data SprintRunKind : Type 0 where
  queued running paused_merge_conflict done failed cancelled : SprintRunKind

pub record SprintRunState : Type 0 where
  pub kind : SprintRunKind
  pub sprint_run_id : String
  pub pause_context : Option PauseContext

pub data SprintRunEvent : Type 0 where
  claim_first_job : SprintRunEvent
  task_done : (task_id : String) → SprintRunEvent
  task_failed : (task_id error : String) → SprintRunEvent
  merge_conflict :
      (pr_url pr_head_sha : String) (conflict_files : List String) (resume_instructions : String)
      → SprintRunEvent
  user_resumed user_cancelled all_done : SprintRunEvent

abbrev close_question : Option PauseContext → List FlowEffect
close_question none = []
close_question (some c) = close_claude_question c.claude_question_id ∷ []

dispatch :
    SprintRunKind → SprintRunEvent → String → SprintRunState → SprintRunState × List FlowEffect
dispatch queued claim_first_job now s = (
  record s { kind = running },
  set_sprint_run_status s.sprint_run_id status_running none false ∷ [],
)
dispatch running (task_done _) now s = (s, [])
dispatch running (task_failed _ _) now s = (
  record s { kind = failed },
  set_sprint_run_status s.sprint_run_id status_failed none false ∷ [],
)
dispatch running all_done now s =
    (record s { kind = done }, set_sprint_run_status s.sprint_run_id status_done none false ∷ [])
dispatch running (merge_conflict url sha files instructions) now s =
    let draft : PauseDraft = record {
      pause_reason = merge_conflict_pause;
      pr_url = url;
      pr_head_sha = sha;
      conflict_files = files;
      resume_instructions = instructions;
      paused_at = now;
    } in
    (
      record s { kind = paused_merge_conflict },
      create_claude_question s.sprint_run_id url files
          ∷ set_sprint_run_status s.sprint_run_id status_paused (some draft) false
          ∷ [],
    )
dispatch running user_cancelled now s = (
  record s { kind = cancelled },
  set_sprint_run_status s.sprint_run_id status_cancelled none false ∷ [],
)
dispatch paused_merge_conflict user_resumed now s = (
  record s { kind = running; pause_context = none },
  close_question s.pause_context
      ++ set_sprint_run_status s.sprint_run_id status_running none true ∷ [],
)
dispatch paused_merge_conflict user_cancelled now s = (
  record s { kind = cancelled; pause_context = none },
  set_sprint_run_status s.sprint_run_id status_cancelled none true ∷ [],
)
dispatch _ _ now s = (s, [])

unfoldable pub transition :
    SprintRunState → SprintRunEvent → String → SprintRunState × List FlowEffect
unfolding dispatch
transition s e now = dispatch s.kind e now s

-- A life of a sprint run: each event with its time, and every effect asked for.
pub run : SprintRunState → List (SprintRunEvent × String) → SprintRunState × List FlowEffect
run s [] = (s, [])
run s ((e, now) ∷ es) =
    let (next, effects) = transition s e now in
    let (last, later) = run next es in (last, effects ++ later)
