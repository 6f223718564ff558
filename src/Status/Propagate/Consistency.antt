-- ===== src/Status/Propagate/Consistency.antt =====
-- src/lib/tasks-status-update.ts, `propagateStatusUpwards`: the statuses along the chain from a
-- task to its sprint after the transaction.
use scrum4me_mcp.Prelude.{
  ℕ, ◌≡◌, refl, sym, ap, subst, String, Bool, not, Option, none, some, ◌==◌, ◌⊎◌, inl, inr,
  Bool-cases, eq_iff, arith, find_by, is_null, >>=-eq-some,
}
use scrum4me_mcp.Status.Decisions.{TaskStatus, SprintStatus, decide_pbi_idem}
use scrum4me_mcp.Status.Store.{Task, Story, Pbi, Sprint, Db}
use scrum4me_mcp.Status.Propagate.{
  update_task, update_story, update_pbi, update_sprint, update_run, story_states, PropagationResult,
  propagate_status_upwards,
}
use scrum4me_mcp.Status.Propagate.Stages.{
  story_of, pbi_of, sprint_of, next_story, next_pbi, next_sprint, update_task-row,
  update_task-status, update_story-row, update_story-frame, update_pbi-row, update_pbi-frame,
  update_sprint-row, update_sprint-frame, update_run-frame,
}

-- The sprint of a story, where it has one, has the status that its PBIs decide.
unfoldable pub IsSprintSettled : Db → Option String → Type 0
IsSprintSettled db none = Unit
IsSprintSettled db (some id) =
    (id ≡ "") ⊎ ((s : Sprint) × (sprint_of db id ≡ some s) × (s.status ≡ next_sprint db id))

-- The story, the PBI and the sprint above a task each have the status that their parts decide.
pub record IsSettled (db : Db) (task : Task) : Type 0 where
  pub story : Story
  pub has_story : story_of db task.story_id ≡ some story
  pub story_settled : story.status ≡ next_story db story
  pub pbi : Pbi
  pub has_pbi : pbi_of db story.pbi_id ≡ some pbi
  pub pbi_settled : pbi.status ≡ next_pbi db pbi
  pub sprint_settled : IsSprintSettled db story.sprint_id

-- The steps of a transaction that commits.
pub record Committed (task_id : String) (status : TaskStatus) (given : Option String) (now : ℕ)
    (db db' : Db) (r : PropagationResult) : Type 0 where
  pub db₁ : Db
  pub db₂ : Db
  pub db₃ : Db
  pub db₄ : Db
  pub task : Task
  pub story : Story
  pub story_changed : Bool
  pub pbi_changed : Bool
  pub sprint : Option SprintStatus
  pub tasks_written : update_task task_id status now db ≡ some (db₁, task)
  pub story_written : update_story task db₁ ≡ some (db₂, story, story_changed)
  pub pbi_written : update_pbi story db₂ ≡ some (db₃, pbi_changed)
  pub sprint_written : update_sprint story.sprint_id now db₃ ≡ some (db₄, sprint)
  pub committed : (update_run sprint given task_id story.sprint_id now db₄).0 ≡ db'
  pub task_reported : r.task ≡ task
  pub story_reported : r.story_changed ≡ story_changed
  pub pbi_reported : r.pbi_changed ≡ pbi_changed
  pub sprint_reported : r.sprint_changed ≡ not (is_null sprint)

module _ (task_id : String) (status : TaskStatus) (given : Option String) (now : ℕ) (db db' : Db)
    (r : PropagationResult)
    (done : propagate_status_upwards task_id status given now db ≡ some (db', r)) where
  pub propagate_steps : Committed task_id status given now db db' r
  unfolding propagate_status_upwards
  propagate_steps =
      let (a, e₁, k₁) = >>=-eq-some (update_task task_id status now db) _ done in
      let ((b, story, told), e₂, k₂) = >>=-eq-some (update_story a.1 a.0) _ k₁ in
      let (c, e₃, k₃) = >>=-eq-some (update_pbi story b) _ k₂ in
      let (d, e₄, k₄) = >>=-eq-some (update_sprint story.sprint_id now c.0) _ k₃ in
      record {
        db₁ = a.0;
        db₂ = b;
        db₃ = c.0;
        db₄ = d.0;
        task = a.1;
        story = story;
        story_changed = told;
        pbi_changed = c.1;
        sprint = d.1;
        tasks_written = e₁;
        story_written = e₂;
        pbi_written = e₃;
        sprint_written = e₄;
        committed = ap (λ x. elim x [ none ↦ db' | some (y, z) ↦ y ]) k₄;
        task_reported = ap (λ x. elim x [ none ↦ r.task | some (y, z) ↦ z.task ]) (sym k₄);
        story_reported =
            ap (λ x. elim x [ none ↦ r.story_changed | some (y, z) ↦ z.story_changed ]) (sym k₄);
        pbi_reported =
            ap (λ x. elim x [ none ↦ r.pbi_changed | some (y, z) ↦ z.pbi_changed ]) (sym k₄);
        sprint_reported =
            ap (λ x. elim x [ none ↦ r.sprint_changed | some (y, z) ↦ z.sprint_changed ]) (sym k₄);
      }

module _ (task_id : String) (status : TaskStatus) (given : Option String) (now : ℕ) (db db' : Db)
    (r : PropagationResult) (c : Committed task_id status given now db db' r) where
  -- Each table is written by one step only.
  pub tasks_kept : db'.tasks ≡ c.db₁.tasks
  tasks_kept = ground (
    arith,
    c.committed,
    update_story-frame c.task c.db₁ c.db₂ c.story c.story_changed c.story_written,
    update_pbi-frame c.story c.db₂ c.db₃ c.pbi_changed c.pbi_written,
    update_sprint-frame c.story.sprint_id now c.db₃ c.db₄ c.sprint c.sprint_written,
    update_run-frame c.sprint given task_id c.story.sprint_id now c.db₄,
  )

  pub stories_kept : db'.stories ≡ c.db₂.stories
  stories_kept = ground (
    arith,
    c.committed,
    update_pbi-frame c.story c.db₂ c.db₃ c.pbi_changed c.pbi_written,
    update_sprint-frame c.story.sprint_id now c.db₃ c.db₄ c.sprint c.sprint_written,
    update_run-frame c.sprint given task_id c.story.sprint_id now c.db₄,
  )

  pub pbis_kept : db'.pbis ≡ c.db₃.pbis
  pbis_kept = ground (
    arith,
    c.committed,
    update_sprint-frame c.story.sprint_id now c.db₃ c.db₄ c.sprint c.sprint_written,
    update_run-frame c.sprint given task_id c.story.sprint_id now c.db₄,
  )

  pub sprints_kept : db'.sprints ≡ c.db₄.sprints
  sprints_kept =
      ground
        (arith, c.committed, update_run-frame c.sprint given task_id c.story.sprint_id now c.db₄)

  sprint_is_settled : (id : Option String) → id ≡ c.story.sprint_id → IsSprintSettled db' id
  unfolding IsSprintSettled
  sprint_is_settled none e = tt
  sprint_is_settled (some id) e = elim (Bool-cases (id == "")) [
    | inl empty ↦ inl ((eq_iff id "").0 empty)
    | inr proper ↦
        let (s, found, next) =
          update_sprint-row id now c.db₃ c.db₄ c.sprint (ground (arith, e, c.sprint_written))
            proper in
        inr (
          s,
          ground (arith, found, sprints_kept),
          ground (
            arith,
            next,
            stories_kept,
            pbis_kept,
            update_pbi-frame c.story c.db₂ c.db₃ c.pbi_changed c.pbi_written,
          ),
        )
  ]

  committed-IsSettled : IsSettled db' c.task
  unfolding IsSprintSettled
  committed-IsSettled =
      let (p, found, written) = update_pbi-row c.story c.db₂ c.db₃ c.pbi_changed c.pbi_written in
      record {
        story = record c.story { status = next_story c.db₁ c.story };
        has_story = ground (
          arith,
          stories_kept,
          update_story-row c.task c.db₁ c.db₂ c.story c.story_changed c.story_written,
        );
        story_settled = ground (arith, tasks_kept);
        pbi = record p { status = next_pbi c.db₂ p };
        has_pbi = ground (arith, written, pbis_kept);
        pbi_settled =
            ground
              (arith, stories_kept, decide_pbi_idem (story_states c.db₂.stories p.id) p.status);
        sprint_settled = sprint_is_settled c.story.sprint_id refl;
      }

module _ (task_id : String) (status : TaskStatus) (given : Option String) (now : ℕ) (db db' : Db)
    (r : PropagationResult) where
  -- Where the transaction commits, the task that it reports is the stored task of that id and has
  -- the new status, and the story, the PBI and (where the story is in a sprint) the sprint above
  -- it have exactly the statuses that their parts as stored at the end decide.
  pub propagate-IsSettled :
      propagate_status_upwards task_id status given now db ≡ some (db', r)
      → (find_by (λ t. t.id) task_id db'.tasks ≡ some r.task)
        × (r.task.status ≡ status)
        × IsSettled db' r.task
  propagate-IsSettled done =
      let c = propagate_steps task_id status given now db db' r done in
      (
        ground (
          arith,
          c.task_reported,
          tasks_kept task_id status given now db db' r c,
          update_task-row task_id status now db c.db₁ c.task c.tasks_written,
        ),
        ground (
          arith,
          c.task_reported,
          update_task-status task_id status now db c.db₁ c.task c.tasks_written,
        ),
        subst (IsSettled db') (sym c.task_reported)
            (committed-IsSettled task_id status given now db db' r c),
      )
