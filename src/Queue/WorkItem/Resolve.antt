-- ===== src/Queue/WorkItem/Resolve.antt =====
-- src/queue/work-item.ts, `resolveWorkItem`: the ids of a work item are completed upwards from the
-- most specific one, and checked against the rows.
use scrum4me_mcp.Prelude.{
  ◌≡◌, ◌⊎◌, inl, inr, refl, sym, ap, ◌∙◌, if_cases, String, Option, none, some, List, ◌==◌, eq_iff,
  find_by, truthy, if◌then◌else◌,
}
use scrum4me_mcp.Queue.WorkItem.{WorkItemInput}

pub record StoryRow : Type 0 where
  pub id : String
  pub sprint_id : Option String
  pub product_id : String

-- A task with its story.
pub record TaskRow : Type 0 where
  pub id : String
  pub story : StoryRow

pub record SprintRow : Type 0 where
  pub id : String
  pub product_id : String

pub record Backlog : Type 0 where
  pub tasks : List TaskRow
  pub stories : List StoryRow
  pub sprints : List SprintRow

pub record WorkItemBlock : Type 0 where
  pub product_id : String
  pub sprint_id : Option String
  pub story_id : Option String
  pub task_id : Option String

-- `null`, a `VALIDATION_ERROR`, or the block.
pub data Resolution : Type 0 where
  absent : Resolution
  task_not_found story_not_found sprint_not_found not_in_sprint : String → Resolution
  other_story other_sprint : String → String → Resolution
  found : WorkItemBlock → Resolution

-- An id that is not falsy.
unfoldable pub given : Option String → Option String
given id = if truthy id then id else none

-- The checks of a given sprint against the one of the story, and the block.
unfoldable pub with_sprint :
    Option String → Option String → String → Option String → Option String → Resolution
with_sprint none derived product story task =
    found (record { product_id = product; sprint_id = derived; story_id = story; task_id = task })
with_sprint (some sprint) none product story task = not_in_sprint sprint
with_sprint (some sprint) (some derived) product story task =
    if sprint == derived
    then found (record {
      product_id = product;
      sprint_id = some derived;
      story_id = story;
      task_id = task;
    })
    else other_sprint derived sprint

abbrev pub with_story : Option String → StoryRow → Option String → Option String → Resolution
with_story sprint s story task = with_sprint sprint s.sprint_id s.product_id story task

unfoldable pub with_task : Option String → Option String → String → TaskRow → Resolution
unfolding with_sprint given
with_task sprint none task t = with_story sprint t.story (given (some t.story.id)) (some task)
with_task sprint (some story) task t =
    if story == t.story.id
    then with_story sprint t.story (given (some t.story.id)) (some task)
    else other_story t.story.id story

unfoldable pub on_task : Option String → Option String → String → Option TaskRow → Resolution
unfolding with_task
on_task sprint story task none = task_not_found task
on_task sprint story task (some t) = with_task sprint story task t

unfoldable pub on_story : Option String → String → Option StoryRow → Resolution
unfolding with_sprint
on_story sprint story none = story_not_found story
on_story sprint story (some s) = with_story sprint s (some story) none

unfoldable pub on_sprint : String → Option SprintRow → Resolution
on_sprint sprint none = sprint_not_found sprint
on_sprint sprint (some s) =
    found (record {
      product_id = s.product_id;
      sprint_id = some sprint;
      story_id = none;
      task_id = none;
    })

unfoldable pub resolve_given : Backlog → Option String → Option String → Option String → Resolution
unfolding on_task on_story on_sprint
resolve_given db sprint story (some task) =
    on_task sprint story task (find_by (λ r. r.id) task db.tasks)
resolve_given db sprint (some story) none =
    on_story sprint story (find_by (λ r. r.id) story db.stories)
resolve_given db (some sprint) none none = on_sprint sprint (find_by (λ r. r.id) sprint db.sprints)
resolve_given db none none none = absent

-- `resolveWorkItem`.
unfoldable pub resolve_work_item : Backlog → WorkItemInput → Resolution
unfolding resolve_given given
resolve_work_item db input =
    resolve_given db (given input.sprint_id) (given input.story_id) (given input.task_id)

-- The ids of a block are those of stored rows, each of the parent of the one below it.
abbrev pub Belongs : Backlog → Option String → Option String → Option String → String → Type 0
Belongs db (some task) story sprint product =
    (t : TaskRow) × (find_by (λ r. r.id) task db.tasks ≡ some t)
    × (story ≡ given (some t.story.id))
    × (sprint ≡ t.story.sprint_id)
    × (product ≡ t.story.product_id)
Belongs db none (some story) sprint product =
    (s : StoryRow) × (find_by (λ r. r.id) story db.stories ≡ some s)
    × (sprint ≡ s.sprint_id)
    × (product ≡ s.product_id)
Belongs db none none sprint product =
    (s : SprintRow) × (id : String) × (sprint ≡ some id)
    × (find_by (λ r. r.id) id db.sprints ≡ some s)
    × (product ≡ s.product_id)

abbrev pub Keeps : Option String → Option String → Type 0
Keeps wanted id = (wanted ≡ none) ⊎ (id ≡ wanted)

abbrev pub IsResolved :
    Backlog → Option String → Option String → Option String → Resolution → Type 0
IsResolved db sprint story task (found b) =
    Belongs db b.task_id b.story_id b.sprint_id b.product_id
    × Keeps sprint b.sprint_id
    × Keeps story b.story_id
    × Keeps task b.task_id
IsResolved db sprint story task _ = Unit

with_sprint-IsResolved :
    (db : Backlog) (sprint story task wanted_story : Option String) (derived : Option String)
    (product : String)
    → Belongs db task story derived product
    → Keeps wanted_story story
    → IsResolved db sprint wanted_story task (with_sprint sprint derived product story task)
unfolding with_sprint
with_sprint-IsResolved db none story task wanted derived product rows keeps =
    (rows, inl refl, keeps, inr refl)
with_sprint-IsResolved db (some sprint) story task wanted none product rows keeps = tt
with_sprint-IsResolved db (some sprint) story task wanted (some derived) product rows keeps =
    if_cases (IsResolved db (some sprint) wanted task) (sprint == derived)
      (λ same. (rows, inr (ap some (sym ((eq_iff sprint derived).0 same))), keeps, inr refl))
      (λ _. tt)

-- An id that was given is not falsy.
abbrev IsGiven : Option String → Type 0
IsGiven id = (given id ≡ id)

given-IsGiven : (id : Option String) → IsGiven (given id)
unfolding given
given-IsGiven id =
    if_cases (λ (o : Option String). (if truthy o then o else none) ≡ o) (truthy id)
      (λ h. ap (λ b. if b then id else none) h) (λ _. refl)

with_task-IsResolved :
    (db : Backlog) (sprint story : Option String) (task : String) (t : TaskRow)
    → IsGiven story
    → find_by (λ r. r.id) task db.tasks ≡ some t
    → IsResolved db sprint story (some task) (with_task sprint story task t)
unfolding with_task
with_task-IsResolved db sprint none task t known here =
    with_sprint-IsResolved db sprint (given (some t.story.id)) (some task) none t.story.sprint_id
      t.story.product_id (t, here, refl, refl, refl) (inl refl)
with_task-IsResolved db sprint (some story) task t known here =
    if_cases (IsResolved db sprint (some story) (some task)) (story == t.story.id)
      (λ same.
        with_sprint-IsResolved db sprint (given (some t.story.id)) (some task) (some story)
          t.story.sprint_id t.story.product_id (t, here, refl, refl, refl)
          (inr (ap (λ i. given (some i)) (sym ((eq_iff story t.story.id).0 same)) ∙ known)))
      (λ _. tt)

on_task-IsResolved :
    (db : Backlog) (sprint story : Option String) (task : String) (o : Option TaskRow)
    → IsGiven story
    → find_by (λ r. r.id) task db.tasks ≡ o
    → IsResolved db sprint story (some task) (on_task sprint story task o)
unfolding on_task
on_task-IsResolved db sprint story task none known here = tt
on_task-IsResolved db sprint story task (some t) known here =
    with_task-IsResolved db sprint story task t known here

on_story-IsResolved :
    (db : Backlog) (sprint : Option String) (story : String) (o : Option StoryRow)
    → find_by (λ r. r.id) story db.stories ≡ o
    → IsResolved db sprint (some story) none (on_story sprint story o)
unfolding on_story
on_story-IsResolved db sprint story none here = tt
on_story-IsResolved db sprint story (some s) here =
    with_sprint-IsResolved db sprint (some story) none (some story) s.sprint_id s.product_id
      (s, here, refl, refl) (inr refl)

on_sprint-IsResolved :
    (db : Backlog) (sprint : String) (o : Option SprintRow)
    → find_by (λ r. r.id) sprint db.sprints ≡ o
    → IsResolved db (some sprint) none none (on_sprint sprint o)
unfolding on_sprint
on_sprint-IsResolved db sprint none here = tt
on_sprint-IsResolved db sprint (some s) here =
    ((s, sprint, refl, here, refl), inr refl, inl refl, inl refl)

resolve_given-IsResolved :
    (db : Backlog) (sprint story task : Option String)
    → IsGiven story
    → IsResolved db sprint story task (resolve_given db sprint story task)
unfolding resolve_given
resolve_given-IsResolved db sprint story (some task) known =
    on_task-IsResolved db sprint story task (find_by (λ r. r.id) task db.tasks) known refl
resolve_given-IsResolved db sprint (some story) none known =
    on_story-IsResolved db sprint story (find_by (λ r. r.id) story db.stories) refl
resolve_given-IsResolved db (some sprint) none none known =
    on_sprint-IsResolved db sprint (find_by (λ r. r.id) sprint db.sprints) refl
resolve_given-IsResolved db none none none known = tt

-- A block that comes of the ids of a work item keeps every id that is not empty, and its ids are those
-- of stored rows: the story is that of the task, the sprint and the product are those of the story, and
-- where only a sprint was given the product is that of the sprint.
pub resolve_work_item-IsResolved :
    (db : Backlog) (input : WorkItemInput)
    → IsResolved db
        (given input.sprint_id)
        (given input.story_id)
        (given input.task_id)
        (resolve_work_item db input)
unfolding resolve_work_item
resolve_work_item-IsResolved db input =
    resolve_given-IsResolved db (given input.sprint_id) (given input.story_id) (given input.task_id)
      (given-IsGiven input.story_id)
