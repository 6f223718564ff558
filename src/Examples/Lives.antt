-- ===== src/Examples/Lives.antt =====
-- Concrete lives of a pull request, a sprint run and a worktree lease (src/flow).
use scrum4me_mcp.Prelude.{none, some, List, [], ◌∷◌, String}
use scrum4me_mcp.Flow.Effects.{merge_conflict}
use scrum4me_mcp.Flow.PrFlow
use scrum4me_mcp.Flow.SprintRun
use scrum4me_mcp.Flow.WorktreeLease

abbrev pr_start : PrFlow.PrFlowState
pr_start = PrFlow.no_pr PrFlow.story

abbrev pr_events : List PrFlow.PrFlowEvent
pr_events =
    PrFlow.pr_created "pr/7"
    ∷ PrFlow.story_completed "s1" "abc"
    ∷ PrFlow.merge_result (some merge_conflict)
    ∷ []

abbrev pr_open : PrFlow.PrFlowState
pr_open = PrFlow.pr_opened "pr/7"

abbrev done_run : SprintRun.SprintRunState
done_run = record { kind = SprintRun.done; sprint_run_id = "r1"; pause_context = none }

abbrev late_events : List (SprintRun.SprintRunEvent × String)
late_events = (SprintRun.user_cancelled, "t1") ∷ (SprintRun.task_failed "t9" "boom", "t2") ∷ []

abbrev running_run : SprintRun.SprintRunState
running_run = record { kind = SprintRun.running; sprint_run_id = "r1"; pause_context = none }

abbrev lease_events : List WorktreeLease.LeaseEvent
lease_events =
    WorktreeLease.job_claimed "j1" ("p1" ∷ [])
    ∷ WorktreeLease.lock_acquired
    ∷ WorktreeLease.worktree_ready
    ∷ WorktreeLease.sync_done
    ∷ WorktreeLease.job_terminal "j1"
    ∷ []
