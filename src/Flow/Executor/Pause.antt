-- ===== src/Flow/Executor/Pause.antt =====
-- The question that a merge conflict raises (src/flow/effects.ts): it is linked to the paused run,
-- and closed when the user resumes.
use mathlib.Core.Option
use scrum4me_mcp.Prelude.{
  ℕ, ◌≡◌, ◌≢◌, refl, String, true, false, Option, none, some, List, [], ◌∷◌, eq_refl, arith, find?,
  some?, Option-cases, Bool-cases, inl, inr,
}
use scrum4me_mcp.Flow.Effects.{PauseContext, PauseDraft, merge_conflict_pause}
use scrum4me_mcp.Flow.Effects.{paused as status_paused, running as status_running}
use scrum4me_mcp.Flow.SprintRun.{
  running, paused_merge_conflict, SprintRunState, merge_conflict, user_resumed, transition,
}
use scrum4me_mcp.Flow.Executor.{
  Question, SprintRunRow, Store, Step, Git, is_open_for, create_or_reuse, create, new_question,
  apply_status, is_open_at, close_question, close_questions, execute_effect, execute_effects,
}
use scrum4me_mcp.Flow.Executor.Mirror.{row_of, status_of, row-update_runs}

abbrev pub context_of : Option SprintRunRow → Option PauseContext
context_of none = none
context_of (some r) = r.pause_context

-- The newest open question of a run.
abbrev pub open_question : String → Store → Option Question
open_question run db = find? (is_open_for run) db.questions

abbrev pub draft_for :
    (url sha : String) (files : List String) (instructions now : String) → PauseDraft
draft_for url sha files instructions now = record {
  pause_reason = merge_conflict_pause;
  pr_url = url;
  pr_head_sha = sha;
  conflict_files = files;
  resume_instructions = instructions;
  paused_at = now;
}

close_question_lem : (id : String) (q : Question) → is_open_at id (close_question id q) ≡ false
unfolding close_question
close_question_lem id q = elim (Bool-cases (is_open_at id q)) [
  | inl e ↦ rw e (ground arith)
  | inr e ↦ rw e e
]

-- After the update no question with the id is open.
close_questions_lem :
    (id : String) (qs : List Question) → some? (is_open_at id) (close_questions id qs) ≡ false
unfolding close_questions
close_questions_lem id [] = refl
close_questions_lem id (q ∷ qs) = rw (close_question_lem id q) (close_questions_lem id qs)

module _ (git : Git) (generated : ℕ → String) where
  -- For a run that is in the database there is an open question afterwards, and the executor
  -- remembers it.
  create_or_reuse-open :
      (run url : String) (files : List String) (db : Store) (skipped : Step) {row : SprintRunRow}
      → row_of run db.runs ≡ some row
      → let step = create_or_reuse generated run url files db skipped in
        (q : Question) × (step.last_question ≡ some q.id)
        × (open_question run step.store ≡ some q)
        × (step.store.runs ≡ db.runs)
  unfolding create_or_reuse create new_question
  create_or_reuse-open run url files db skipped {row} h =
      elim (Option-cases (open_question run db)) [
        | inl e ↦ (
          new_question generated run url files row db,
          ground arith,
          ground (arith, eq_refl run),
          ground arith,
        )
        | inr (q, e) ↦ (q, ground arith, ground arith, ground arith)
      ]

  abbrev pub store_after_conflict :
      SprintRunState
      → (url sha : String) (files : List String) (instructions now : String) → Store
      → Store
  store_after_conflict s url sha files instructions now db =
      (execute_effects git generated
        (transition s (merge_conflict url sha files instructions) now).1 db).1

  -- When a running run that is in the database meets a merge conflict, its row ends as PAUSED with a
  -- pause context that has the conflict's data and the id of a question of that run that is open.
  pub conflict_links_open_question :
      (s : SprintRunState) (url sha : String) (files : List String) (instructions now : String)
      (db : Store) {row : SprintRunRow}
      → s.kind ≡ running
      → row_of s.sprint_run_id db.runs ≡ some row
      → let db' = store_after_conflict s url sha files instructions now db in
        (q : Question) × (open_question s.sprint_run_id db' ≡ some q)
        × (status_of (row_of s.sprint_run_id db'.runs) ≡ some status_paused)
        × (context_of (row_of s.sprint_run_id db'.runs)
            ≡ some (record {
              draft = draft_for url sha files instructions now;
              claude_question_id = q.id;
            }))
  unfolding transition execute_effects execute_effect apply_status
  conflict_links_open_question s url sha files instructions now db k h =
      let asked : Step =
        create_or_reuse generated s.sprint_run_id url files db
          (record { outcomes = []; last_question = none; store = db }) in
      let (q, last, found, runs) =
        create_or_reuse-open s.sprint_run_id url files db
          (record { outcomes = []; last_question = none; store = db }) h in
      let draft : PauseDraft = draft_for url sha files instructions now in
      (
        q,
        ground arith,
        ground (
          arith,
          eq_refl s.sprint_run_id,
          row-update_runs status_paused (some draft) false asked.last_question s.sprint_run_id
              s.sprint_run_id asked.store.runs,
        ),
        ground (
          arith,
          eq_refl s.sprint_run_id,
          row-update_runs status_paused (some draft) false asked.last_question s.sprint_run_id
              s.sprint_run_id asked.store.runs,
        ),
      )

  -- An open question of the run is reused whatever pull request it is about: when the newest open
  -- question of a running run is about another pull request than the one that meets the conflict,
  -- no question is created, and the row of the run ends as PAUSED with a context that names the conflict's pull
  -- request and the other one's question.
  pub conflict_reuses_other_pr :
      (s : SprintRunState) (url sha other : String) (files : List String)
      (instructions now : String) (db : Store) {row : SprintRunRow} {q : Question}
      → s.kind ≡ running
      → row_of s.sprint_run_id db.runs ≡ some row
      → open_question s.sprint_run_id db ≡ some q
      → q.pr_url ≡ some other
      → url ≢ other
      → let db' = store_after_conflict s url sha files instructions now db in
        (db'.questions ≡ db.questions)
        × (status_of (row_of s.sprint_run_id db'.runs) ≡ some status_paused)
        × (context_of (row_of s.sprint_run_id db'.runs)
            ≡ some (record {
              draft = draft_for url sha files instructions now;
              claude_question_id = q.id;
            }))
  unfolding transition execute_effects execute_effect create_or_reuse apply_status
  conflict_reuses_other_pr s url sha other files instructions now db {row} {q} k h found about ne =
      (
        ground arith,
        ground (
          arith,
          eq_refl s.sprint_run_id,
          row-update_runs status_paused (some (draft_for url sha files instructions now)) false
              (some q.id) s.sprint_run_id s.sprint_run_id db.runs,
        ),
        ground (
          arith,
          eq_refl s.sprint_run_id,
          row-update_runs status_paused (some (draft_for url sha files instructions now)) false
              (some q.id) s.sprint_run_id s.sprint_run_id db.runs,
        ),
      )

  -- When the user resumes a run that is paused on a question and is in the database, its pause
  -- context is cleared and that question is open no more.
  resume_closes_question :
      (s : SprintRunState) (c : PauseContext) (now : String) (db : Store) {row : SprintRunRow}
      → s.kind ≡ paused_merge_conflict
      → s.pause_context ≡ some c
      → row_of s.sprint_run_id db.runs ≡ some row
      → let db' = (execute_effects git generated (transition s user_resumed now).1 db).1 in
        (Option.map (λ r. r.pause_context) (row_of s.sprint_run_id db'.runs) ≡ some none)
        × (some? (is_open_at c.claude_question_id) db'.questions ≡ false)
  unfolding transition execute_effects execute_effect apply_status
  resume_closes_question s c now db k p h = (
    ground (
      arith,
      eq_refl s.sprint_run_id,
      row-update_runs status_running none true none s.sprint_run_id s.sprint_run_id db.runs,
    ),
    ground (arith, close_questions_lem c.claude_question_id db.questions),
  )
