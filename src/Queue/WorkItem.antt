-- ===== src/Queue/WorkItem.antt =====
-- src/queue/work-item.ts, `mergeWorkItemInputs`: the ids of a call and of its `meta.work_item`.
pub mod Resolve
use scrum4me_mcp.Prelude.{
  ◌≡◌, ◌⊎◌, refl, arith, String, Option, none, some, ◌==◌, eq_iff, ◌>>=◌, if◌then◌else◌,
}

pub record WorkItemInput : Type 0 where
  pub sprint_id : Option String
  pub story_id : Option String
  pub task_id : Option String

-- One round of the loop over `ID_KEYS`; a conflict throws.
unfoldable pub merge_key : (from_params out : Option String) → Option (Option String)
merge_key none out = some out
merge_key (some p) none = some (some p)
merge_key (some p) (some o) = if o == p then some (some p) else none

unfoldable pub merge_work_item_inputs : WorkItemInput → WorkItemInput → Option WorkItemInput
merge_work_item_inputs params block = merge_key params.sprint_id block.sprint_id >>= λ sprint.
    merge_key params.story_id block.story_id >>= λ story.
    merge_key params.task_id block.task_id >>= λ task.
    some (record { sprint_id = sprint; story_id = story; task_id = task })

-- `merged` is the union of the two: what either gives it has, and it has nothing else.
pub IsUnion : Option String → Option String → Option String → Type 0
IsUnion a b merged =
    ((a ≡ none) ⊎ (merged ≡ a)) × ((b ≡ none) ⊎ (merged ≡ b)) × ((merged ≡ a) ⊎ (merged ≡ b))

merge_key-IsUnion :
    (a b : Option String) {m : Option String} → merge_key a b ≡ some m → IsUnion a b m
unfolding merge_key IsUnion
merge_key-IsUnion none b h = ground arith
merge_key-IsUnion (some p) none h = ground arith
merge_key-IsUnion (some p) (some o) h = ground (arith, eq_iff o p)

merge_key_comm : (a b : Option String) → merge_key a b ≡ merge_key b a
unfolding merge_key
merge_key_comm none none = refl
merge_key_comm none (some o) = refl
merge_key_comm (some p) none = refl
merge_key_comm (some p) (some o) = ground (arith, eq_iff o p, eq_iff p o)

-- Ids of a call and of its block that merge are united key by key: an id that either gives is kept
-- and no other id is there. The two merge to the same the other way round.
merge_unites :
    (params block : WorkItemInput) {merged : WorkItemInput}
    → merge_work_item_inputs params block ≡ some merged
    → IsUnion params.sprint_id block.sprint_id merged.sprint_id
      × IsUnion params.story_id block.story_id merged.story_id
      × IsUnion params.task_id block.task_id merged.task_id
      × (merge_work_item_inputs block params ≡ some merged)
unfolding merge_work_item_inputs
merge_unites params block h = (
  merge_key-IsUnion params.sprint_id block.sprint_id (ground arith),
  merge_key-IsUnion params.story_id block.story_id (ground arith),
  merge_key-IsUnion params.task_id block.task_id (ground arith),
  ground (
    arith,
    merge_key_comm params.sprint_id block.sprint_id,
    merge_key_comm params.story_id block.story_id,
    merge_key_comm params.task_id block.task_id,
  ),
)
