-- ===== src/Flow/Executor/Mirror.antt =====
-- The sprint-run machine (src/flow/sprint-run.ts) and the executor (src/flow/effects.ts) together:
-- the row of the run in the database follows the machine.
use mathlib.Core.Option
use scrum4me_mcp.Prelude.{
  ℕ, ◌≡◌, ◌≢◌, ◌⊎◌, inl, inr, Bool-cases, refl, ◌∙◌, ap, String, Bool, false, Option, none, some,
  List, [], ◌∷◌, ◌==◌, eq_iff, eq_refl, arith, find?, some?, if◌then◌else◌,
}
use scrum4me_mcp.Flow.Effects.{
  FlowEffect, release_worktree_locks, enable_auto_merge, mark_pr_ready, create_claude_question,
  close_claude_question, set_sprint_run_status, PauseDraft, RunStatus,
}
use scrum4me_mcp.Flow.Effects.{
  queued as status_queued, running as status_running, paused as status_paused, done as status_done,
  failed as status_failed, cancelled as status_cancelled,
}
use scrum4me_mcp.Flow.SprintRun.{
  SprintRunKind, queued, running, paused_merge_conflict, done, failed, cancelled, SprintRunState,
  SprintRunEvent, transition,
}
use scrum4me_mcp.Flow.Executor.{
  SprintRunRow, Store, Step, Git, create_or_reuse, apply_status, update_runs, execute_effect,
  execute_from, execute_effects,
}

-- The status that the database has for a state of the machine.
abbrev pub db_status : SprintRunKind → RunStatus
db_status queued = status_queued
db_status running = status_running
db_status paused_merge_conflict = status_paused
db_status done = status_done
db_status failed = status_failed
db_status cancelled = status_cancelled

abbrev pub row_of : String → List SprintRunRow → Option SprintRunRow
row_of id rows = find? (λ r. r.id == id) rows

abbrev pub status_of : Option SprintRunRow → Option RunStatus
status_of none = none
status_of (some r) = some r.status

module _ (status : RunStatus) (draft : Option PauseDraft) (clear : Bool)
    (last : Option String) where
  -- A row read back after an update is the updated row, or as it was if its id is another.
  pub row-update_runs :
      (id j : String) (rows : List SprintRunRow)
      → row_of j (update_runs id (apply_status status draft clear last) rows) ≡ (
          if id == j
          then Option.map (apply_status status draft clear last) (row_of j rows)
          else row_of j rows)
  unfolding update_runs apply_status
  row-update_runs id j [] = ground arith
  row-update_runs id j (r ∷ rows) =
      ground (arith, row-update_runs id j rows, eq_iff r.id id, eq_iff r.id j, eq_iff id j)

-- The status that an effect asks for, given the status before it.
abbrev asks : String → FlowEffect → RunStatus → RunStatus
asks j (set_sprint_run_status run status _ _) old = if run == j then status else old
asks j _ old = old

abbrev asks_all : String → List FlowEffect → RunStatus → RunStatus
asks_all j [] old = old
asks_all j (e ∷ es) old = asks_all j es (asks j e old)

abbrev sets : String → FlowEffect → Bool
sets j (set_sprint_run_status run _ _ _) = run == j
sets j _ = false

asks-transition :
    (s : SprintRunState) (e : SprintRunEvent) (now : String)
    → asks_all s.sprint_run_id (transition s e now).1 (db_status s.kind)
      ≡ db_status (transition s e now).0.kind
unfolding transition
asks-transition s e now = ground (arith, eq_refl s.sprint_run_id)

sets-transition :
    (s : SprintRunState) (e : SprintRunEvent) (now j : String)
    → s.sprint_run_id ≢ j
    → some? (sets j) (transition s e now).1 ≡ false
unfolding transition
sets-transition s e now j ne = ground (arith, eq_iff s.sprint_run_id j)

module _ (git : Git) (generated : ℕ → String) where
  pub runs-create_or_reuse :
      (run url : String) (files : List String) (last : Option String) (db : Store)
      → (create_or_reuse generated run url files db
          (record { outcomes = []; last_question = last; store = db })).store.runs
        ≡ db.runs
  unfolding create_or_reuse
  runs-create_or_reuse run url files last db = ground arith

  abbrev runs_of : FlowEffect → Option String → Store → List SprintRunRow
  runs_of e last db = (execute_effect git generated e last db).store.runs

  -- An effect leaves a run in the database at the status that it asks for, if it asks for one.
  status-execute_effect :
      (e : FlowEffect) (last : Option String) (db : Store) (run : String) {old : RunStatus}
      → status_of (row_of run db.runs) ≡ some old
      → status_of (row_of run (runs_of e last db)) ≡ some (asks run e old)
  unfolding execute_effect apply_status
  status-execute_effect (create_claude_question r url files) last db run h =
      rw (runs-create_or_reuse r url files last db) h
  status-execute_effect (set_sprint_run_status r status draft clear) last db run h =
      rw (row-update_runs status draft clear last r run db.runs) (ground arith)
  status-execute_effect (release_worktree_locks job) last db run h = ground arith
  status-execute_effect (enable_auto_merge url sha) last db run h = h
  status-execute_effect (mark_pr_ready url) last db run h = h
  status-execute_effect (close_claude_question id) last db run h = h

  status-execute_from :
      (es : List FlowEffect) (last : Option String) (db : Store) (run : String) {old : RunStatus}
      → status_of (row_of run db.runs) ≡ some old
      → status_of (row_of run (execute_from git generated es last db).1.runs)
        ≡ some (asks_all run es old)
  unfolding execute_from
  status-execute_from [] last db run h = h
  status-execute_from (e ∷ es) last db run {old} h =
      let step : Step = execute_effect git generated e last db in
      status-execute_from es step.last_question step.store run {old = asks run e old}
        (status-execute_effect e last db run h)

  row-execute_effect :
      (e : FlowEffect) (last : Option String) (db : Store) (j : String)
      → sets j e ≡ false
      → row_of j (runs_of e last db) ≡ row_of j db.runs
  unfolding execute_effect
  row-execute_effect (create_claude_question run url files) last db j h =
      ap (row_of j) (runs-create_or_reuse run url files last db)
  row-execute_effect (set_sprint_run_status run status draft clear) last db j h =
      row-update_runs status draft clear last run j db.runs ∙ (rw h)
  row-execute_effect (release_worktree_locks job) last db j h = ground arith
  row-execute_effect (enable_auto_merge url sha) last db j h = refl
  row-execute_effect (mark_pr_ready url) last db j h = refl
  row-execute_effect (close_claude_question id) last db j h = refl

  -- The row of a run that no effect is about is as it was.
  row-execute_from :
      (es : List FlowEffect) (last : Option String) (db : Store) (j : String)
      → some? (sets j) es ≡ false
      → row_of j (execute_from git generated es last db).1.runs ≡ row_of j db.runs
  unfolding execute_from
  row-execute_from [] last db j h = refl
  row-execute_from (e ∷ es) last db j h =
      let step : Step = execute_effect git generated e last db in
      row-execute_from es step.last_question step.store j (ground arith)
      ∙ row-execute_effect e last db j (ground arith)

  abbrev pub runs_after : SprintRunState → SprintRunEvent → String → Store → List SprintRunRow
  runs_after s e now db = (execute_effects git generated (transition s e now).1 db).1.runs

  -- When the row of a run has the status of the machine's state, then after a transition and the
  -- execution of its effects it has the status of the next state, on every event; and the row of
  -- every other run is as it was.
  pub transition-mirrors :
      (s : SprintRunState) (e : SprintRunEvent) (now : String) (db : Store)
      → status_of (row_of s.sprint_run_id db.runs) ≡ some (db_status s.kind)
      → (status_of (row_of s.sprint_run_id (runs_after s e now db))
          ≡ some (db_status (transition s e now).0.kind))
        × ((j : String)
            → (s.sprint_run_id ≡ j) ⊎ (row_of j (runs_after s e now db) ≡ row_of j db.runs))
  unfolding execute_effects
  transition-mirrors s e now db h = (
    status-execute_from (transition s e now).1 none db s.sprint_run_id h
        ∙ ap some (asks-transition s e now),
    λ j. elim (Bool-cases (s.sprint_run_id == j)) [
      | inl same ↦ inl ((eq_iff s.sprint_run_id j).0 same)
      | inr other ↦ inr (
          row-execute_from (transition s e now).1 none db j
            (sets-transition s e now j (ground (arith, other, eq_iff s.sprint_run_id j))))
    ],
  )
