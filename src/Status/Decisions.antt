-- ===== src/Status/Decisions.antt =====
-- src/lib/task-status-decisions.ts: the status of a story, a PBI and a sprint from the statuses of
-- its parts. The statuses are the enums of the database.
use scrum4me_mcp.Prelude.{
  ◌≡◌, Bool, true, false, ◌&&◌, List, [], ◌∷◌, arith, some?, every?, if◌then◌else◌,
}

pub data TaskStatus : Type 0 where
  to_do in_progress review done failed excluded : TaskStatus

pub data StoryStatus : Type 0 where
  opened in_sprint done failed : StoryStatus

pub data PbiStatus : Type 0 where
  ready blocked failed done : PbiStatus

pub data SprintStatus : Type 0 where
  opened closed archived failed : SprintStatus

abbrev pub task_failed : TaskStatus → Bool
task_failed TaskStatus.failed = true
task_failed _ = false

abbrev pub task_done : TaskStatus → Bool
task_done TaskStatus.done = true
task_done _ = false

abbrev pub task_settled : TaskStatus → Bool
task_settled TaskStatus.done = true
task_settled TaskStatus.excluded = true
task_settled _ = false

abbrev pub story_failed : StoryStatus → Bool
story_failed StoryStatus.failed = true
story_failed _ = false

abbrev pub story_done : StoryStatus → Bool
story_done StoryStatus.done = true
story_done _ = false

abbrev pub pbi_failed : PbiStatus → Bool
pbi_failed PbiStatus.failed = true
pbi_failed _ = false

abbrev pub pbi_done : PbiStatus → Bool
pbi_done PbiStatus.done = true
pbi_done _ = false

abbrev pub is_blocked : PbiStatus → Bool
is_blocked PbiStatus.blocked = true
is_blocked _ = false

-- `states.length` as a truth value.
abbrev pub is_nonempty {ℓ} : {A : Type ℓ} → List A → Bool
is_nonempty [] = false
is_nonempty (x ∷ xs) = true

unfoldable pub decide_story_status : List TaskStatus → Bool → StoryStatus
decide_story_status states is_in_sprint =
    if some? task_failed states
    then StoryStatus.failed
    else if some? task_done states && every? task_settled states
    then StoryStatus.done
    else if is_in_sprint
    then StoryStatus.in_sprint
    else StoryStatus.opened

unfoldable pub decide_pbi_status : List StoryStatus → PbiStatus → PbiStatus
decide_pbi_status states current =
    if is_blocked current
    then PbiStatus.blocked
    else if some? story_failed states
    then PbiStatus.failed
    else if is_nonempty states && every? story_done states
    then PbiStatus.done
    else PbiStatus.ready

unfoldable pub decide_sprint_status : List PbiStatus → SprintStatus
decide_sprint_status states =
    if some? pbi_failed states
    then SprintStatus.failed
    else if is_nonempty states && every? pbi_done states
    then SprintStatus.closed
    else SprintStatus.opened

-- Deciding again from the decided status changes nothing.
pub decide_pbi_idem :
    (states : List StoryStatus) (current : PbiStatus)
    → decide_pbi_status states (decide_pbi_status states current) ≡ decide_pbi_status states current
unfolding decide_pbi_status
decide_pbi_idem states current = ground arith
