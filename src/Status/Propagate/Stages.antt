-- ===== src/Status/Propagate/Stages.antt =====
-- What each step of `propagateStatusUpwards` (src/lib/tasks-status-update.ts) leaves behind, and
-- which tables it does not touch.
use scrum4me_mcp.Prelude.{
  ℕ, ◌≡◌, refl, String, Bool, true, false, Option, some, List, ◌==◌, arith, find_by, update_by,
  find_by-update_by_self, find_by-id, truthy, >>=-eq-some, if◌then◌else◌,
}
use scrum4me_mcp.Status.Decisions.{
  TaskStatus, StoryStatus, PbiStatus, SprintStatus, is_blocked, decide_story_status,
  decide_pbi_status, decide_sprint_status,
}
use scrum4me_mcp.Status.Store.{Task, Story, Pbi, Sprint, Db}
use scrum4me_mcp.Status.Propagate.{
  same_story_status, same_pbi_status, same_sprint_status, task_states, story_states, pbi_states,
  update_task, update_story, update_pbi, update_sprint, update_run, completed, close_sprint,
  set_sprint, settle_active, settle_run,
}

abbrev pub story_of : Db → String → Option Story
story_of db id = find_by (λ s. s.id) id db.stories

abbrev pub pbi_of : Db → String → Option Pbi
pbi_of db id = find_by (λ p. p.id) id db.pbis

abbrev pub sprint_of : Db → String → Option Sprint
sprint_of db id = find_by (λ s. s.id) id db.sprints

abbrev pub next_story : Db → Story → StoryStatus
next_story db story = decide_story_status (task_states db.tasks story.id) (truthy story.sprint_id)

same_story_sound : (a b : StoryStatus) → same_story_status a b ≡ true → a ≡ b
same_story_sound a b h = ground arith

same_story_refl : (a : StoryStatus) → same_story_status a a ≡ true
same_story_refl a = ground arith

same_pbi_refl : (a : PbiStatus) → same_pbi_status a a ≡ true
same_pbi_refl a = ground arith

decide_pbi_blocked :
    (states : List StoryStatus) (a : PbiStatus)
    → is_blocked a ≡ true
    → decide_pbi_status states a ≡ a
unfolding decide_pbi_status
decide_pbi_blocked states a h = ground arith

same_pbi_sound : (a b : PbiStatus) → same_pbi_status a b ≡ true → a ≡ b
same_pbi_sound a b h = ground arith

same_sprint_sound : (a b : SprintStatus) → same_sprint_status a b ≡ true → a ≡ b
same_sprint_sound a b h = ground arith

abbrev pub next_pbi : Db → Pbi → PbiStatus
next_pbi db pbi = decide_pbi_status (story_states db.stories pbi.id) pbi.status

abbrev pub next_sprint : Db → String → SprintStatus
next_sprint db id = decide_sprint_status (pbi_states db.stories db.pbis id)

module _ (id : String) (status : TaskStatus) (now : ℕ) (db db' : Db) (task : Task)
    (done : update_task id status now db ≡ some (db', task)) where
  pub update_task-tasks :
      db'.tasks
      ≡ update_by (λ t. t.id) id (λ t. record t { status = status; updated_at = now }) db.tasks
  unfolding update_task
  update_task-tasks = ground arith

  pub update_task-row : find_by (λ t. t.id) id db'.tasks ≡ some task
  unfolding update_task
  update_task-row =
      let (t, found, rest) = >>=-eq-some (find_by (λ (t : Task). t.id) id db.tasks) _ done in
      ground (
        arith,
        rest,
        find_by-update_by_self (λ (t : Task). t.id)
            (λ t. record t { status = status; updated_at = now }) (λ t. refl) id db.tasks found,
      )

  pub update_task-status : task.status ≡ status
  unfolding update_task
  update_task-status = ground arith

  pub update_task-frame :
      (db'.stories ≡ db.stories) × (db'.pbis ≡ db.pbis) × (db'.sprints ≡ db.sprints)
  unfolding update_task
  update_task-frame = ground arith

module _ (task : Task) (db db' : Db) (story : Story) (changed : Bool)
    (done : update_story task db ≡ some (db', story, changed)) where
  pub update_story-found : story_of db task.story_id ≡ some story
  unfolding update_story
  update_story-found = ground arith

  pub update_story-row :
      story_of db' task.story_id ≡ some (record story { status = next_story db story })
  unfolding update_story
  update_story-row = ground (
    arith,
    find_by-id (λ (s : Story). s.id) task.story_id db.stories update_story-found,
    find_by-update_by_self (λ (s : Story). s.id) (λ s. record s { status = next_story db story })
        (λ s. refl) task.story_id db.stories update_story-found,
    same_story_sound (next_story db story) story.status,
  )

  pub update_story-id : story.id ≡ task.story_id
  update_story-id = find_by-id (λ (s : Story). s.id) task.story_id db.stories update_story-found

  pub update_story-frame :
      (db'.tasks ≡ db.tasks) × (db'.pbis ≡ db.pbis) × (db'.sprints ≡ db.sprints)
  unfolding update_story
  update_story-frame = ground arith

  -- Nothing is reported as changed exactly when the story had its status already, and then nothing
  -- is written.
  pub update_story-same : story.status ≡ next_story db story → (changed ≡ false) × (db' ≡ db)
  unfolding update_story
  update_story-same e = ground (arith, update_story-id, same_story_refl story.status)

module _ (story : Story) (db db' : Db) (changed : Bool)
    (done : update_pbi story db ≡ some (db', changed)) where
  pub update_pbi-row :
      (pbi : Pbi) × (pbi_of db story.pbi_id ≡ some pbi)
      × (pbi_of db' story.pbi_id ≡ some (record pbi { status = next_pbi db pbi }))
  unfolding update_pbi
  update_pbi-row =
      let (pbi, found, rest) = >>=-eq-some (pbi_of db story.pbi_id) _ done in
      (
        pbi,
        found,
        ground (
          arith,
          rest,
          find_by-id (λ (p : Pbi). p.id) story.pbi_id db.pbis found,
          find_by-update_by_self (λ (p : Pbi). p.id) (λ p. record p { status = next_pbi db pbi })
              (λ p. refl) story.pbi_id db.pbis found,
          same_pbi_sound (next_pbi db pbi) pbi.status,
          decide_pbi_blocked (story_states db.stories pbi.id) pbi.status,
        ),
      )

  pub update_pbi-frame :
      (db'.tasks ≡ db.tasks) × (db'.stories ≡ db.stories) × (db'.sprints ≡ db.sprints)
  unfolding update_pbi
  update_pbi-frame = ground arith

  pub update_pbi-same :
      {pbi : Pbi}
      → pbi_of db story.pbi_id ≡ some pbi
      → pbi.status ≡ next_pbi db pbi
      → (changed ≡ false) × (db' ≡ db)
  unfolding update_pbi
  update_pbi-same {pbi} found e = ground (arith, same_pbi_refl pbi.status)

module _ (id : String) (now : ℕ) (db db' : Db) (next : Option SprintStatus)
    (done : update_sprint (some id) now db ≡ some (db', next)) (proper : (id == "") ≡ false) where
  pub update_sprint-row :
      (s : Sprint) × (sprint_of db' id ≡ some s) × (s.status ≡ next_sprint db id)
  unfolding update_sprint set_sprint
  update_sprint-row =
      let (s, found, rest) =
        >>=-eq-some (sprint_of db id) (λ s. some (set_sprint now db s)) {b = (db', next)}
          (ground (arith, proper, done)) in
      (
        record s {
          status = next_sprint db id;
          completed_at =
              if same_sprint_status (next_sprint db id) s.status
              then s.completed_at
              else completed (next_sprint db id) now s.completed_at;
        },
        ground (
          arith,
          rest,
          find_by-id (λ (s : Sprint). s.id) id db.sprints found,
          find_by-update_by_self (λ (s : Sprint). s.id) (close_sprint (next_sprint db id) now)
              (λ s. refl) id db.sprints found,
          same_sprint_sound (next_sprint db id) s.status,
        ),
        refl,
      )

module _ (id : Option String) (now : ℕ) (db db' : Db) (next : Option SprintStatus)
    (done : update_sprint id now db ≡ some (db', next)) where
  pub update_sprint-frame :
      (db'.tasks ≡ db.tasks) × (db'.stories ≡ db.stories) × (db'.pbis ≡ db.pbis)
  unfolding update_sprint set_sprint
  update_sprint-frame = ground arith

module _ (next : Option SprintStatus) (given : Option String) (task_id : String)
    (sprint_id : Option String) (now : ℕ) (db : Db) where
  abbrev after_run : Db
  after_run = (update_run next given task_id sprint_id now db).0

  pub update_run-frame :
      (after_run.tasks ≡ db.tasks)
      × (after_run.stories ≡ db.stories)
      × (after_run.pbis ≡ db.pbis)
      × (after_run.sprints ≡ db.sprints)
  unfolding update_run settle_active settle_run
  update_run-frame = ground arith
