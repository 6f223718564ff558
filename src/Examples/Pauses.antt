-- ===== src/Examples/Pauses.antt =====
-- A sprint run that meets a merge conflict, and its rows in the database (src/flow/effects.ts).
use scrum4me_mcp.Prelude.{ℕ, ◌≡◌, ◌≢◌, ◌⊎◌, refl, String, false, none, some, [], ◌∷◌, eq_iff, arith}
use scrum4me_mcp.Flow.Effects.{PauseContext, merge_conflict_pause}
use scrum4me_mcp.Flow.Effects.{running as status_running, paused as status_paused}
use scrum4me_mcp.Flow.SprintRun.{
  SprintRunState, running, paused_merge_conflict, all_done, transition,
}
use scrum4me_mcp.Flow.Executor.{Git, Store, Question, SprintRunRow}
use scrum4me_mcp.Flow.Executor.Mirror.{row_of, status_of, db_status, runs_after, transition-mirrors}
use scrum4me_mcp.Flow.Executor.Pause.{
  context_of, open_question, draft_for, store_after_conflict, conflict_links_open_question,
  conflict_reuses_other_pr,
}

abbrev git : Git
git = record { auto_merge = λ url sha. none; is_managed = λ job. false }

abbrev generated : ℕ → String
generated n = "generated"

abbrev running_run : SprintRunState
running_run = record { kind = running; sprint_run_id = "r1"; pause_context = none }

abbrev context : PauseContext
context = record {
  draft = record {
    pause_reason = merge_conflict_pause;
    pr_url = "pr/7";
    pr_head_sha = "abc";
    conflict_files = "a.ts" ∷ [];
    resume_instructions = "merge";
    paused_at = "t0";
  };
  claude_question_id = "q1";
}

abbrev paused_run : SprintRunState
paused_run = record {
  kind = paused_merge_conflict;
  sprint_run_id = "r1";
  pause_context = some context;
}

abbrev running_row : SprintRunRow
running_row = record {
  id = "r1";
  status = status_running;
  pause_context = none;
  started_by_id = "u1";
  product_id = "p1";
}

abbrev paused_row : SprintRunRow
paused_row = record running_row { status = status_paused; pause_context = some context }

abbrev other_question : Question
other_question = record {
  id = "q1";
  status = "open";
  sprint_run = some "r1";
  pr_url = some "pr/6";
  conflict_files = [];
  product_id = "p1";
  asked_by = "u1";
  question = "Which side?";
  expires_at = 100;
}

abbrev store : Store
store = record { questions = []; runs = running_row ∷ []; locked_jobs = []; created = 0; now = 5 }

abbrev asked_store : Store
asked_store = record store { questions = other_question ∷ [] }

abbrev paused_store : Store
paused_store = record asked_store { runs = paused_row ∷ [] }

transition-mirrors_example :
    (status_of (row_of "r1" (runs_after git generated running_run all_done "t1" store))
      ≡ some (db_status (transition running_run all_done "t1").0.kind))
    × ((j : String)
        → ("r1" ≡ j)
          ⊎ (row_of j (runs_after git generated running_run all_done "t1" store)
              ≡ row_of j (running_row ∷ [])))
transition-mirrors_example = transition-mirrors git generated running_run all_done "t1" store refl

conflict_links_open_question_example :
    (q : Question) × (open_question "r1" (
        store_after_conflict git generated running_run "pr/7" "abc"
          ("a.ts" ∷ [])
          "merge"
          "t1"
          store)
      ≡ some q)
    × (status_of (
          row_of "r1"
            (store_after_conflict git generated running_run "pr/7" "abc"
              ("a.ts" ∷ [])
              "merge"
              "t1"
              store).runs)
        ≡ some status_paused)
    × (context_of (
          row_of "r1"
            (store_after_conflict git generated running_run "pr/7" "abc"
              ("a.ts" ∷ [])
              "merge"
              "t1"
              store).runs)
        ≡ some (record {
          draft = draft_for "pr/7" "abc" ("a.ts" ∷ []) "merge" "t1";
          claude_question_id = q.id;
        }))
conflict_links_open_question_example =
    conflict_links_open_question git generated running_run "pr/7" "abc" ("a.ts" ∷ []) "merge" "t1"
      store refl refl

other_pr : ◌≢◌ {A = String} "pr/7" "pr/6"
other_pr = ground (arith, eq_iff "pr/7" "pr/6")

conflict_reuses_other_pr_example :
    ((store_after_conflict git generated running_run "pr/7" "abc" [] "merge" "t1"
        asked_store).questions
      ≡ other_question ∷ [])
    × (status_of (
          row_of "r1"
            (store_after_conflict git generated running_run "pr/7" "abc" [] "merge" "t1"
              asked_store).runs)
        ≡ some status_paused)
    × (context_of (
          row_of "r1"
            (store_after_conflict git generated running_run "pr/7" "abc" [] "merge" "t1"
              asked_store).runs)
        ≡ some
            (record { draft = draft_for "pr/7" "abc" [] "merge" "t1"; claude_question_id = "q1" }))
conflict_reuses_other_pr_example =
    conflict_reuses_other_pr git generated running_run "pr/7" "abc" "pr/6" [] "merge" "t1"
      asked_store refl refl refl refl other_pr
