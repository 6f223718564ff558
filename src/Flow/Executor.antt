-- ===== src/Flow/Executor.antt =====
-- src/flow/effects.ts, `executeEffects` and what it calls: the effects of a transition carried out
-- against the database, in order, where an effect that throws is skipped.
-- The questions are listed newest first, which is the order of `created_at desc`; the other options
-- of a question are not read here. What src/git does to a pull request is the argument `Git`, and
-- `generated` gives the id of each row that the database creates.
pub mod Mirror
pub mod Pause
use Prim.Native.String.{◌++◌ as join}
use scrum4me_mcp.Prelude.{
  ℕ, zero, suc, ◌+◌, ◌-◌, ◌*◌, ◌/◌, ◌%◌, String, Bool, true, false, Option, none, some, List, [],
  ◌∷◌, ◌++◌, map, ◌==◌, ◌&&◌, ltb, nat_eq, is_text, length, find?, select, not, some?,
  if◌then◌else◌,
}
use scrum4me_mcp.Flow.Effects.{
  FlowEffect, release_worktree_locks, enable_auto_merge, mark_pr_ready, create_claude_question,
  close_claude_question, set_sprint_run_status, PauseContext, PauseDraft, RunStatus,
  AutoMergeOutcome,
}

pub record Question : Type 0 where
  pub id : String
  pub status : String
  -- `options.sprint_run_id`, `options.pr_url` and `options.conflict_files`, where the options of
  -- the question have them.
  pub sprint_run : Option String
  pub pr_url : Option String
  pub conflict_files : List String
  pub product_id : String
  pub asked_by : String
  pub question : String
  pub expires_at : ℕ

pub record SprintRunRow : Type 0 where
  pub id : String
  pub status : RunStatus
  pub pause_context : Option PauseContext
  pub started_by_id : String
  pub product_id : String

pub record Store : Type 0 where
  pub questions : List Question
  pub runs : List SprintRunRow
  -- The keys of `jobReleases` of src/git/job-locks.ts.
  pub locked_jobs : List String
  -- How many rows the database has created.
  pub created : ℕ
  pub now : ℕ

-- `enableAutoMergeOnPr`, and whether `assertUnmanagedJobCleanup` throws for a job.
pub record Git : Type 0 where
  pub auto_merge : (pr_url expected_head_sha : String) → Option AutoMergeOutcome
  pub is_managed : (job_id : String) → Bool

pub record Step : Type 0 where
  pub outcomes : List AutoMergeOutcome
  pub last_question : Option String
  pub store : Store

digit : ℕ → String
digit zero = "0"
digit (suc zero) = "1"
digit (suc (suc zero)) = "2"
digit (suc (suc (suc zero))) = "3"
digit (suc (suc (suc (suc zero)))) = "4"
digit (suc (suc (suc (suc (suc zero))))) = "5"
digit (suc (suc (suc (suc (suc (suc zero)))))) = "6"
digit (suc (suc (suc (suc (suc (suc (suc zero))))))) = "7"
digit (suc (suc (suc (suc (suc (suc (suc (suc zero)))))))) = "8"
digit _ = "9"

-- A number in a template literal. The fuel `suc n` is more than the digits of `n`.
decimal_from : ℕ → ℕ → String → String
decimal_from zero n acc = acc
decimal_from (suc fuel) n acc =
    let rest = decimal_from fuel (n / 10) (join (digit (n % 10)) acc) in
    if ltb n 10 then join (digit n) acc else rest

pub decimal : ℕ → String
unfolding decimal_from digit
decimal n = decimal_from (suc n) n ""

abbrev take : ℕ → List String → List String
take zero xs = []
take (suc n) [] = []
take (suc n) (x ∷ xs) = x ∷ take n xs

-- `files.join(', ')`.
commas : List String → String
commas [] = ""
commas (f ∷ []) = f
commas (f ∷ g ∷ fs) = join f (join ", " (commas (g ∷ fs)))

file_list : List String → String
unfolding decimal commas
file_list [] = "(unknown files — check the PR)"
file_list files =
    join (commas (take 5 files))
      (if ltb 5 (length files) then join " + " (join (decimal (length files - 5)) " more") else "")

question_text : String → List String → String
unfolding file_list
question_text url files = join "Merge-conflict on " (
    join url (
      join ". Conflict files: "
        (join (file_list files) ". Resolve on the branch and push, then resume the sprint.")))

abbrev pub is_open_for : String → Question → Bool
is_open_for run q = q.status == "open" && is_text q.sprint_run run

-- 7 days, in milliseconds.
abbrev week : ℕ
week = 7 * 24 * 60 * 60 * 1000

module _ (generated : ℕ → String) where
  pub new_question : String → String → List String → SprintRunRow → Store → Question
  unfolding question_text
  new_question run url files row db = record {
    id = generated db.created;
    status = "open";
    sprint_run = some run;
    pr_url = some url;
    conflict_files = files;
    product_id = row.product_id;
    asked_by = row.started_by_id;
    question = question_text url files;
    expires_at = db.now + week;
  }

  pub create : Question → Store → Step
  create q db = record {
    outcomes = [];
    last_question = some q.id;
    store = record db { questions = q ∷ db.questions; created = suc db.created };
  }

  -- `createOrReuseClaudeQuestion`; `skipped` is the step of an effect that throws.
  pub create_or_reuse : String → String → List String → Store → Step → Step
  unfolding create
  create_or_reuse run url files db skipped = elim (find? (is_open_for run) db.questions) [
    | some q ↦ record { outcomes = []; last_question = some q.id; store = db }
    | none ↦ elim (find? (λ r. r.id == run) db.runs) [
      | none ↦ skipped
      | some row ↦ create (new_question run url files row db) db
    ]
  ]

abbrev with_question : Option PauseDraft → Option String → Option PauseContext → Option PauseContext
with_question (some d) (some q) old = some (record { draft = d; claude_question_id = q })
with_question _ _ old = old

-- The row that `applySprintRunStatus` writes.
pub apply_status :
    RunStatus → Option PauseDraft → Bool → Option String → SprintRunRow → SprintRunRow
apply_status status draft clear last row = record row {
  status = status;
  pause_context = if clear then none else with_question draft last row.pause_context;
}

-- `updateMany` and `update` by id: every row that fits is rewritten.
pub update_runs : String → (SprintRunRow → SprintRunRow) → List SprintRunRow → List SprintRunRow
update_runs id f [] = []
update_runs id f (r ∷ rs) = (if r.id == id then f r else r) ∷ update_runs id f rs

abbrev pub is_open_at : String → Question → Bool
is_open_at id q = q.id == id && q.status == "open"

pub close_question : String → Question → Question
close_question id q = if is_open_at id q then record q { status = "closed" } else q

pub close_questions : String → List Question → List Question
close_questions id [] = []
close_questions id (q ∷ qs) = close_question id q ∷ close_questions id qs

abbrev outcome_of : Option AutoMergeOutcome → List AutoMergeOutcome
outcome_of none = []
outcome_of (some o) = o ∷ []

module _ (git : Git) (generated : ℕ → String) where
  -- One turn of the loop. `auto_merge` is `none` where the call throws; `markPullRequestReady`
  -- changes nothing here, whether it succeeds, reports an error or throws.
  pub execute_effect : FlowEffect → Option String → Store → Step
  unfolding create_or_reuse apply_status update_runs close_questions
  execute_effect (create_claude_question run url files) last db =
      create_or_reuse generated run url files db
        (record { outcomes = []; last_question = last; store = db })
  execute_effect (set_sprint_run_status run status draft clear) last db = record {
    outcomes = [];
    last_question = last;
    store = record db { runs = update_runs run (apply_status status draft clear last) db.runs };
  }
  execute_effect (release_worktree_locks job) last db = record {
    outcomes = [];
    last_question = last;
    store =
        if git.is_managed job
        then db
        else record db { locked_jobs = select (λ j. not (j == job)) db.locked_jobs };
  }
  execute_effect (enable_auto_merge url sha) last db = record {
    outcomes = outcome_of (git.auto_merge url sha);
    last_question = last;
    store = db;
  }
  execute_effect (mark_pr_ready url) last db = record {
    outcomes = [];
    last_question = last;
    store = db;
  }
  execute_effect (close_claude_question id) last db = record {
    outcomes = [];
    last_question = last;
    store = record db { questions = close_questions id db.questions };
  }

  -- `executeEffects`, from a value of `lastQuestionId`.
  pub execute_from : List FlowEffect → Option String → Store → List AutoMergeOutcome × Store
  execute_from [] last db = ([], db)
  execute_from (e ∷ es) last db =
      let step = execute_effect e last db in
      let (outcomes, final) = execute_from es step.last_question step.store in
      (step.outcomes ++ outcomes, final)

  pub execute_effects : List FlowEffect → Store → List AutoMergeOutcome × Store
  unfolding execute_from
  execute_effects effects db = execute_from effects none db
