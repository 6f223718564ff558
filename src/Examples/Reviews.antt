-- ===== src/Examples/Reviews.antt =====
-- A plan that is sent back and then approved, and the job that blocks its loop
-- (src/lib/idea-plan-loop.ts).
use scrum4me_mcp.Prelude.{◌≡◌, refl, String, none, some, List, [], ◌∷◌, Bool, includes, map}
use scrum4me_mcp.Ideas.{
  LoopJob, blocks_loop, find_active_loop_job, find_active_spec_loop_job, approved,
  changes_requested, ReviewInput, StoredLog, stored, reviewed, round_of, IsShown, review_all,
  reviews_stay,
}

abbrev reviewer_job : LoopJob
reviewer_job = record {
  id = "j1";
  idea_id = some "idea";
  kind = "IDEA_REVIEW_PLAN";
  status = "RUNNING";
}

review_blocks : find_active_loop_job (reviewer_job ∷ []) "idea" (none ∷ []) ≡ some reviewer_job
unfolding find_active_loop_job blocks_loop
review_blocks = refl

own_job_is_excluded : find_active_loop_job (reviewer_job ∷ []) "idea" (none ∷ some "j1" ∷ []) ≡ none
unfolding find_active_loop_job blocks_loop
own_job_is_excluded = refl

spec_loop_is_free : find_active_spec_loop_job (reviewer_job ∷ []) "idea" [] ≡ none
unfolding find_active_spec_loop_job blocks_loop
spec_loop_is_free = refl

-- Stands for the regular expressions at these severities.
abbrev mentions : List String → String → Bool
mentions words s = includes words s

abbrev first_review : ReviewInput
first_review = record {
  round = 1;
  verdict = changes_requested;
  model = "codex";
  findings = record { severity = "major"; message = "no tests"; ref = some "T-1" } ∷ [];
  summary = "not yet";
  timestamp = "t1";
}

abbrev second_review : ReviewInput
second_review = record first_review {
  round = 2;
  verdict = approved;
  findings = [];
  summary = "good";
  timestamp = "t2";
}

abbrev old_log : StoredLog
old_log = record { plan_file = none; created_at = some "t0"; rounds = stored "{}" ∷ [] }

reviews_stay_example :
    ((review_all mentions (some old_log) first_review (second_review ∷ [])).rounds
      ≡ stored "{}" ∷ map (λ r. reviewed (round_of mentions r)) (first_review ∷ second_review ∷ []))
    × ((review_all mentions (some old_log) first_review (second_review ∷ [])).created_at ≡ "t0")
    × IsShown mentions approved "t2"
        (review_all mentions (some old_log) first_review (second_review ∷ []))
    × ((review_all mentions (some old_log) first_review (second_review ∷ [])).summary ≡ "good")
reviews_stay_example = reviews_stay mentions (some old_log) first_review (second_review ∷ [])
